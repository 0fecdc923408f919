-- ===== src/Clients/Decoupled/Completion/Merge.antt =====
-- The transactions of an approved operation keep those that the approval brought.
use geldstrom.Prelude.{
  ℕ, ◌≡◌, ◌≢◌, refl, sym, ap, Bool, true, false, List, [], ◌∷◌, ◌++◌, append-nil, Option, none,
  some, String, str_eq, Outcome, ok, raised, Bool-cases, inl, inr, eq_iff,
}
use geldstrom.Responses.{Processed}
use geldstrom.Dialog.{Dialog, Connection}
use geldstrom.Clients.{GatewayCredentials, ClientRaise, BlobCodec}
use geldstrom.Clients.Fetching.{TransactionEntry, TransactionFeed, Operations, build_feed}
use geldstrom.Clients.Fints3.{Client, OperationMeta}
use geldstrom.Clients.Decoupled.Completion.{
  Payload, feed_of, has_entries, first_page, account_id_of, continuation, then_stored, merged,
  from_approval, complete_transactions,
}

build_feed-entries :
    (today : ℕ) (account_id : String) (entries : List TransactionEntry) (has_more : Bool)
    → ((build_feed today account_id entries has_more).entries ≡ entries)
      × ((build_feed today account_id entries has_more).has_more ≡ has_more)
unfolding build_feed
build_feed-entries today account_id [] has_more = (refl, refl)
build_feed-entries today account_id (e ∷ es) has_more = (refl, refl)

module _ (c : Connection) (codec : BlobCodec) (creds : GatewayCredentials)
    (operations : Operations c) where
  open c use {Link}

  -- A feed that begins with these entries, or a raise behind a touchdown point.
  abbrev pub Extends :
      TransactionFeed
      → Option String
      → Outcome ClientRaise Payload × Client × Dialog × Link
      → Type 0
  Extends page more (ok (feed_of feed), client, d, l) =
      (rest : List TransactionEntry) × (feed.entries ≡ page.entries ++ rest)
      × (more ≡ none → feed ≡ page)
  Extends page more (ok payload, client, d, l) = ⊥
  Extends page more (raised e, client, d, l) = more ≢ none

  merged-Extends :
      (system_id account_id touchdown : String) (page : TransactionFeed) (client : Client)
      (r : Outcome ClientRaise TransactionFeed × Dialog × Link)
      → Extends page (some touchdown) (
          then_stored c codec creds operations system_id
            (merged c codec creds operations account_id page)
            client
            r)
  merged-Extends system_id account_id touchdown page client (ok more, d, l) =
      (more.entries, (build_feed-entries _ _ _ _).0, λ q. cc)
  merged-Extends system_id account_id touchdown page client (raised e, d, l) = λ q. cc q

  from_approval-Extends :
      (system_id : String) (meta : OperationMeta) (account_id : String)
      (mt940 camt : TransactionFeed) (more : Option String) (client : Client) (d : Dialog)
      (l : Link)
      → has_entries (first_page mt940 camt) ≡ true
      → more ≢ some ""
      → Extends (first_page mt940 camt) more (
          from_approval c codec creds operations system_id meta account_id mt940 camt more client d
            l)
  from_approval-Extends system_id meta account_id mt940 camt none client d l h ne =
      simp h ([], sym (append-nil (first_page mt940 camt).entries), λ q. refl)
  from_approval-Extends system_id meta account_id mt940 camt (some touchdown) client d l h ne =
      elim (Bool-cases (str_eq touchdown "")) [
        | inl e ↦ absurd (ne (ap some ((eq_iff touchdown "").0 e)))
        | inr e ↦ simp e (merged-Extends system_id account_id touchdown _ client _)
      ]

  -- Of an operation on transactions whose account was known, where the approving answer has entries and
  -- no 3040 without a touchdown point: the completion returns a feed that begins with these entries,
  -- and is this feed where the answer has no 3040; and it raises only where it has one.
  pub complete_transactions-Extends :
      (system_id : String) (meta : OperationMeta) (response : Processed) (client : Client)
      (d : Dialog) (l : Link)
      → let account_id = account_id_of meta client.accounts in
        let page =
          first_page
            (operations.mt940_approved response account_id)
            (operations.camt_approved response account_id) in
        str_eq account_id "" ≡ false
        → has_entries page ≡ true
        → continuation response ≢ some ""
        → Extends page
            (continuation response)
            (complete_transactions c codec creds operations system_id meta true response client d l)
  unfolding complete_transactions
  complete_transactions-Extends system_id meta response client d l known h ne =
      let account_id = account_id_of meta client.accounts in
      simp known (
        from_approval-Extends system_id meta account_id
          (operations.mt940_approved response account_id)
          (operations.camt_approved response account_id) (continuation response) client d l h ne)
