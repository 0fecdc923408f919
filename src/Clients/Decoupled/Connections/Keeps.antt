-- ===== src/Clients/Decoupled/Connections/Keeps.antt =====
-- The completion of an approved operation keeps what the client has pending.
use geldstrom.Prelude.{
  ◌≡◌, refl, ◌∙◌, Bool, true, false, not, ◌&&◌, List, Option, none, some, String, str_eq, Outcome,
  ok, raised, Bool-cases, inl, inr,
}
use geldstrom.Responses.{Processed}
use geldstrom.Dialog.{Dialog, Connection, tan_pending}
use geldstrom.Clients.{GatewayCredentials, ClientRaise, dialog_raise, BlobCodec}
use geldstrom.Clients.Connect.{create_session_state, unassigned}
use geldstrom.Clients.Fetching.{Account, TransactionFeed, Operations}
use geldstrom.Clients.Fints3.{Client, PendingTan, OperationMeta}
use geldstrom.Clients.Decoupled.Completion.{
  Payload, complete_approved_operation, then_stored, accounts_set, resume_accounts_from_context,
  or_partial, afresh, from_approval, complete_transactions, balance_for, complete_fetch,
  after_accounts, listed, was_connected_of, account_id_of, continuation, first_page, has_entries,
}
use geldstrom.Clients.Decoupled.Connections.{IsAssigned}

module _ (c : Connection) (codec : BlobCodec) (creds : GatewayCredentials)
    (operations : Operations c) (system_id : String)
    (assigned : str_eq system_id unassigned ≡ false) where
  open c use {Link}

  -- The completion of an operation keeps what is pending, and an assigned system id.
  unfoldable pub Keeps :
      {A : Type 0} → Option PendingTan → Outcome ClientRaise A × Client × Dialog × Link → Type 0
  Keeps p (r, client, d, l) = (client.pending ≡ p) × IsAssigned client.session_state

  abbrev Kept : Client → Type 0
  Kept client = IsAssigned client.session_state

  then_stored-Keeps :
      {A : Type 0} (f : A → Payload) (client : Client) (r : Outcome ClientRaise A × Dialog × Link)
      → Kept client
      → Keeps client.pending (then_stored c codec creds operations system_id f client r)
  unfolding Keeps create_session_state
  then_stored-Keeps f client (ok a, d, l) h = (refl, assigned)
  then_stored-Keeps f client (raised e, d, l) h = (refl, h)

  accounts_set-Keeps :
      (client : Client) (r : Outcome ClientRaise (List Account) × Dialog × Link)
      → Kept client
      → Keeps client.pending (accounts_set c codec creds operations system_id client r)
  unfolding Keeps create_session_state
  accounts_set-Keeps client (ok accounts, d, l) h = (refl, assigned)
  accounts_set-Keeps client (raised e, d, l) h = (refl, h)

  or_partial-Keeps :
      (p : Option PendingTan) (feed : Option TransactionFeed)
      (r : Outcome ClientRaise Payload × Client × Dialog × Link)
      → Keeps p r
      → Keeps p (or_partial c codec creds operations system_id feed r)
  unfolding Keeps create_session_state
  or_partial-Keeps p (some feed) (raised (dialog_raise (tan_pending challenge t)), client, d, l) h =
      elim (Bool-cases (has_entries feed)) [ inl e ↦ simp e (h.0, assigned) | inr e ↦ simp e h ]
  or_partial-Keeps p feed (r, client, d, l) h = h

  afresh-Keeps :
      (meta : OperationMeta) (account_id : String) (feed : Option TransactionFeed) (client : Client)
      (d : Dialog) (l : Link)
      → Kept client
      → Keeps client.pending
          (afresh c codec creds operations system_id meta account_id feed client d l)
  afresh-Keeps meta account_id feed client d l h =
      or_partial-Keeps client.pending feed _ (then_stored-Keeps _ client _ h)

  from_approval-Keeps :
      (meta : OperationMeta) (account_id : String) (mt940 camt : TransactionFeed)
      (more : Option String) (client : Client) (d : Dialog) (l : Link)
      → Kept client
      → Keeps client.pending (
          from_approval c codec creds operations system_id meta account_id mt940 camt more client d
            l)
  unfolding Keeps create_session_state
  from_approval-Keeps meta account_id mt940 camt none client d l h =
      elim (Bool-cases (has_entries (first_page mt940 camt))) [
        | inl e ↦ simp e (refl, assigned)
        | inr e ↦ simp e (afresh-Keeps meta account_id (some (first_page mt940 camt)) client d l h)
      ]
  from_approval-Keeps meta account_id mt940 camt (some touchdown) client d l h =
      elim (Bool-cases (str_eq touchdown "")) [
        | inl e ↦ simp e (afresh-Keeps meta account_id (some (first_page mt940 camt)) client d l h)
        | inr e ↦ simp e (then_stored-Keeps _ client _ h)
      ]

  complete_transactions-Keeps :
      (meta : OperationMeta) (was_connected : Bool) (response : Processed) (client : Client)
      (d : Dialog) (l : Link)
      → Kept client
      → Keeps client.pending (
          complete_transactions c codec creds operations system_id meta was_connected response
            client d l)
  unfolding complete_transactions
  complete_transactions-Keeps meta was_connected response client d l h =
      elim (Bool-cases (was_connected && not (str_eq (account_id_of meta client.accounts) ""))) [
        | inl e ↦ simp e (
            from_approval-Keeps meta (account_id_of meta client.accounts)
              (operations.mt940_approved response (account_id_of meta client.accounts))
              (operations.camt_approved response (account_id_of meta client.accounts))
              (continuation response) client d l h)
        | inr e ↦ simp e (afresh-Keeps meta _ none client d l h)
      ]

  balance_for-Keeps :
      (account_id : Option String) (client : Client) (d : Dialog) (l : Link)
      → Kept client
      → Keeps client.pending (balance_for c codec creds operations system_id account_id client d l)
  unfolding Keeps
  balance_for-Keeps none client d l h = (refl, h)
  balance_for-Keeps (some account_id) client d l h = then_stored-Keeps _ client _ h

  complete_fetch-Keeps :
      (operation_type : String) (meta : OperationMeta) (was_connected : Bool) (response : Processed)
      (client : Client) (d : Dialog) (l : Link)
      → Kept client
      → Keeps client.pending (
          complete_fetch c codec creds operations system_id operation_type meta was_connected
            response client d l)
  unfolding Keeps
  complete_fetch-Keeps operation_type meta was_connected response client d l h =
      elim (Bool-cases (str_eq operation_type "transactions")) [
        | inl e ↦ simp e (complete_transactions-Keeps meta was_connected response client d l h)
        | inr e ↦ elim (Bool-cases (str_eq operation_type "balance")) [
          | inl f ↦ simp (e, f) (balance_for-Keeps meta.account_id client d l h)
          | inr f ↦ elim (Bool-cases (str_eq operation_type "balances")) [
            | inl g ↦ simp (e, f, g) (then_stored-Keeps _ client _ h)
            | inr g ↦ simp (e, f, g) (refl, h)
          ]
        ]
      ]

  after_accounts-Keeps :
      (p : Option PendingTan) (operation_type : String) (meta : OperationMeta)
      (response : Processed) (r : Outcome ClientRaise (List Account) × Client × Dialog × Link)
      → Keeps p r
      → Keeps p (
          after_accounts c codec creds operations
            (complete_fetch c codec creds operations system_id operation_type meta false response)
            r)
  unfolding Keeps
  after_accounts-Keeps p operation_type meta response (ok accounts, client, d, l) (same, h) =
      let kept = complete_fetch-Keeps operation_type meta false response client d l h in
      (kept.0 ∙ same, kept.1)
  after_accounts-Keeps p operation_type meta response (raised e, client, d, l) h = h

  listed-Keeps :
      (p : Option PendingTan) (r : Outcome ClientRaise (List Account) × Client × Dialog × Link)
      → Keeps p r
      → Keeps p (listed c codec creds operations r)
  unfolding Keeps
  listed-Keeps p (ok accounts, client, d, l) h = h
  listed-Keeps p (raised e, client, d, l) h = h

  pub complete_approved_operation-Keeps :
      (operation_type : String) (meta : OperationMeta) (response : Processed) (client : Client)
      (d : Dialog) (l : Link)
      → Kept client
      → Keeps client.pending (
          complete_approved_operation c codec creds operations system_id operation_type meta
            response client d l)
  unfolding complete_approved_operation resume_accounts_from_context Keeps create_session_state
  complete_approved_operation-Keeps operation_type meta response client d l h =
      let resumed = accounts_set-Keeps client (operations.discover d l) h in
      elim (Bool-cases (str_eq operation_type "connect")) [
        | inl e ↦ simp e (listed-Keeps client.pending _ resumed)
        | inr e ↦ elim (Bool-cases (str_eq operation_type "accounts")) [
          | inl f ↦ simp (e, f) (listed-Keeps client.pending _ resumed)
          | inr f ↦ elim (Bool-cases (str_eq operation_type "tan_methods")) [
            | inl g ↦ simp (e, f, g) (refl, assigned)
            | inr g ↦ elim (Bool-cases (was_connected_of c codec creds operations meta client)) [
              | inl k ↦
                  simp (e, f, g, k)
                    (complete_fetch-Keeps operation_type meta true response client d l h)
              | inr k ↦
                  simp (e, f, g, k)
                    (after_accounts-Keeps client.pending operation_type meta response _ resumed)
            ]
          ]
        ]
      ]
