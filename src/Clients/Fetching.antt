-- ===== src/Clients/Fetching.antt =====
-- fints/services and operations/transactions/feed.py: what the services do with a dialog in their `with`
-- block, on the requests of fints/operations, which are a parameter.
use Prim.Native.String.{◌++◌ as text_append}
use geldstrom.Prelude.{
  ℕ, Bool, true, false, List, [], ◌∷◌, Option, none, some, String, str_eq, leb, if◌then◌else◌,
  Outcome, ok, raised,
}
use geldstrom.Segments.{Segment, find_segments, is_type}
use geldstrom.Responses.{Processed}
use geldstrom.Parameters.{ParameterStore}
use geldstrom.Dialog.{Dialog, Connection}
use geldstrom.Gateway.Dict.{Dict, find, put}
use geldstrom.Clients.{ClientRaise, unknown_account, unsupported}

-- `Account`; of its other fields nothing here depends.
pub record Account : Type 0 where
  pub account_id : String
  pub iban : Option String
  pub details : String

pub record SepaAccount : Type 0 where
  pub iban : String
  pub bic : Option String
  pub accountnumber : String
  pub subaccount : String
  pub blz : Option String

-- `TransactionEntry`, with its booking date as an ordinal.
pub record TransactionEntry : Type 0 where
  pub entry_id : String
  pub booking_date : ℕ
  pub details : String

pub record TransactionFeed : Type 0 where
  pub account_id : String
  pub entries : List TransactionEntry
  pub start_date : ℕ
  pub end_date : ℕ
  pub has_more : Bool

pub record TanMethodInfo : Type 0 where
  pub code : String
  pub name : String
  pub is_decoupled : Bool

-- What a fetcher of transactions is asked for.
pub record FetchRange : Type 0 where
  pub account : SepaAccount
  pub account_id : String
  pub start_date : Option ℕ
  pub end_date : Option ℕ
  pub include_pending : Bool
  pub initial_touchdown : Option String

abbrev pub text_or : String → String → String
text_or t default = if str_eq t "" then default else t

-- `account_key`
abbrev pub account_key : SepaAccount → String
account_key sepa = text_append sepa.accountnumber (text_append ":" (text_or sepa.subaccount "0"))

abbrev pub earliest : ℕ → List TransactionEntry → ℕ
earliest day [] = day
earliest day (e ∷ es) = earliest (if leb day e.booking_date then day else e.booking_date) es

abbrev pub latest : ℕ → List TransactionEntry → ℕ
latest day [] = day
latest day (e ∷ es) = latest (if leb e.booking_date day then day else e.booking_date) es

unfoldable pub build_feed : ℕ → String → List TransactionEntry → Bool → TransactionFeed
build_feed today account_id [] has_more = record {
  account_id = account_id;
  entries = [];
  start_date = today;
  end_date = today;
  has_more = has_more;
}
build_feed today account_id (e ∷ es) has_more = record {
  account_id = account_id;
  entries = e ∷ es;
  start_date = earliest e.booking_date es;
  end_date = latest e.booking_date es;
  has_more = has_more;
}

-- [k for k in sepa_lookup], and the dictionary itself
abbrev pub sepa_lookup : List SepaAccount → Dict SepaAccount → Dict SepaAccount
sepa_lookup [] d = d
sepa_lookup (sepa ∷ rest) d = sepa_lookup rest (put (account_key sepa) sepa d)

abbrev pub keys : Dict SepaAccount → List String
keys [] = []
keys ((k, sepa) ∷ rest) = k ∷ keys rest

unfoldable pub all_known : Dict SepaAccount → List String → Bool
all_known lookup [] = true
all_known lookup (i ∷ ids) =
    let rest = all_known lookup ids in elim (find i lookup) [ some sepa ↦ rest | none ↦ false ]

-- account_ids or list(sepa_lookup.keys())
abbrev pub target_ids : Dict SepaAccount → Option (List String) → List String
target_ids lookup (some (i ∷ ids)) = i ∷ ids
target_ids lookup _ = keys lookup

unfoldable pub locate : String → List SepaAccount → Outcome ClientRaise SepaAccount
locate account_id [] = raised unknown_account
locate account_id (sepa ∷ rest) =
    if str_eq (account_key sepa) account_id then ok sepa else locate account_id rest

-- The requests to the bank in a dialog, and what is read from its answers.
pub record Operations (c : Connection) : Type 0 where
  pub fetch_sepa_accounts :
      Dialog → c.Link → Outcome ClientRaise (List SepaAccount) × Dialog × c.Link
  pub discover : Dialog → c.Link → Outcome ClientRaise (List Account) × Dialog × c.Link
  pub balance_of :
      String → SepaAccount → Dialog → c.Link → Outcome ClientRaise String × Dialog × c.Link
  pub mt940_fetch :
      FetchRange → Dialog → c.Link → Outcome ClientRaise TransactionFeed × Dialog × c.Link
  pub camt_fetch :
      FetchRange → Dialog → c.Link → Outcome ClientRaise TransactionFeed × Dialog × c.Link
  pub mt940_approved : Processed → String → TransactionFeed
  pub camt_approved : Processed → String → TransactionFeed
  pub methods_of : Segment → List TanMethodInfo
  pub today : ℕ

abbrev pub is_seen : String → List TanMethodInfo → Bool
is_seen code [] = false
is_seen code (t ∷ ts) = let rest = is_seen code ts in if str_eq t.code code then true else rest

abbrev pub append_one : List TanMethodInfo → TanMethodInfo → List TanMethodInfo
append_one [] t = t ∷ []
append_one (u ∷ us) t = u ∷ append_one us t

module _ (c : Connection) (operations : Operations c) where
  open c use {Link}

  abbrev pub InDialog : Type 0 → Type 0
  InDialog A = Dialog → Link → Outcome ClientRaise A × Dialog × Link

  abbrev pub located :
      {A : Type 0}
      → (SepaAccount → InDialog A)
      → String
      → Outcome ClientRaise (List SepaAccount) × Dialog × Link
      → Outcome ClientRaise A × Dialog × Link
  located then_ account_id (raised e, d, l) = (raised e, d, l)
  located then_ account_id (ok sepas, d, l) = elim (locate account_id sepas) [
    | raised e ↦ (raised e, d, l)
    | ok sepa ↦ then_ sepa d l
  ]

  -- `locate_sepa_account`, and what follows it
  unfoldable pub with_account : {A : Type 0} → String → (SepaAccount → InDialog A) → InDialog A
  unfolding locate
  with_account account_id then_ d l = located then_ account_id (operations.fetch_sepa_accounts d l)

  -- The block of `fetch_balance`.
  unfoldable pub fetch_balance_in : String → InDialog String
  unfolding with_account
  fetch_balance_in account_id d l = with_account account_id (operations.balance_of account_id) d l

  -- `except Exception: continue`: a balance that raises anything is left out.
  abbrev pub kept : Outcome ClientRaise String → List String → List String
  kept (ok snapshot) rest = snapshot ∷ rest
  kept (raised e) rest = rest

  -- The round of the loop for one id, before the others.
  abbrev pub fetch_one :
      Option SepaAccount
      → String
      → (Dialog → Link → List String × Dialog × Link)
      → Dialog
      → Link
      → List String × Dialog × Link
  fetch_one none i others d l = others d l
  fetch_one (some sepa) i others d l =
      let (r, d', l') = operations.balance_of i sepa d l in
      let (rest, d'', l'') = others d' l' in (kept r rest, d'', l'')

  unfoldable pub fetch_each :
      Dict SepaAccount → List String → Dialog → Link → List String × Dialog × Link
  fetch_each lookup [] d l = ([], d, l)
  fetch_each lookup (i ∷ ids) d l = fetch_one (find i lookup) i (fetch_each lookup ids) d l

  abbrev pub returned :
      List String × Dialog × Link → Outcome ClientRaise (List String) × Dialog × Link
  returned (snapshots, d, l) = (ok snapshots, d, l)

  abbrev pub are_known : Dict SepaAccount → Option (List String) → Bool
  are_known lookup none = true
  are_known lookup (some ids) = all_known lookup ids

  abbrev pub balances_for :
      Option (List String)
      → Outcome ClientRaise (List SepaAccount) × Dialog × Link
      → Outcome ClientRaise (List String) × Dialog × Link
  balances_for account_ids (raised e, d, l) = (raised e, d, l)
  balances_for account_ids (ok sepas, d, l) =
      let lookup = sepa_lookup sepas [] in
      if are_known lookup account_ids
      then returned (fetch_each lookup (target_ids lookup account_ids) d l)
      else (raised unknown_account, d, l)

  -- The block of `fetch_balances`.
  unfoldable pub fetch_balances_in : Option (List String) → InDialog (List String)
  unfolding fetch_each all_known
  fetch_balances_in account_ids d l = balances_for account_ids (operations.fetch_sepa_accounts d l)

  -- `except FinTSUnsupportedOperation: return second`
  abbrev pub or_else :
      {A : Type 0}
      → InDialog A
      → Outcome ClientRaise A × Dialog × Link
      → Outcome ClientRaise A × Dialog × Link
  or_else second (ok a, d, l) = (ok a, d, l)
  or_else second (raised unsupported, d, l) = second d l
  or_else second (raised e, d, l) = (raised e, d, l)

  -- `_fetch_with_camt_preferred`, where pending entries are wanted, or `_fetch_with_mt940_preferred`.
  unfoldable pub fetch_preferred : FetchRange → InDialog TransactionFeed
  fetch_preferred range d l =
      let plain = record range { include_pending = false } in
      if range.include_pending
      then or_else (operations.mt940_fetch plain) (operations.camt_fetch range d l)
      else or_else (operations.camt_fetch plain) (operations.mt940_fetch plain d l)

  -- The block of `fetch_history`.
  unfoldable pub fetch_history_in : String → Option ℕ → Option ℕ → Bool → InDialog TransactionFeed
  unfolding with_account fetch_preferred
  fetch_history_in account_id start_date end_date include_pending d l =
      with_account account_id
        (λ sepa. fetch_preferred (record {
          account = sepa;
          account_id = account_id;
          start_date = start_date;
          end_date = end_date;
          include_pending = include_pending;
          initial_touchdown = none;
        }))
        d l

  -- The methods of one segment behind those found before, each code once.
  abbrev pub add_new : List TanMethodInfo → List TanMethodInfo → List TanMethodInfo
  add_new found [] = found
  add_new found (t ∷ ts) = add_new (if is_seen t.code found then found else append_one found t) ts

  unfoldable pub collect_methods : List TanMethodInfo → List Segment → List TanMethodInfo
  collect_methods found [] = found
  collect_methods found (s ∷ ss) = collect_methods (add_new found (operations.methods_of s)) ss

  -- `_extract_tan_methods`
  unfoldable pub extract_tan_methods : ParameterStore → List TanMethodInfo
  unfolding collect_methods
  extract_tan_methods parameters =
      collect_methods [] (find_segments (is_type "HITANS") parameters.bpd.segments)
