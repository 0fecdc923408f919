-- ===== src/Clients/Decoupled/Completion.antt =====
-- `_complete_approved_operation` of clients/fints3_decoupled.py: what the client makes of the answer that
-- approves a pending operation.
pub mod Merge
use geldstrom.Prelude.{
  ℕ, Bool, true, false, not, ◌&&◌, List, [], ◌∷◌, ◌++◌, Option, none, some, String, str_eq,
  if◌then◌else◌, Outcome, ok, raised,
}
use geldstrom.Responses.{Processed, DialogResponse, get_response_by_code}
use geldstrom.Dialog.{Dialog, Connection, tan_pending}
use geldstrom.Clients.{GatewayCredentials, ClientRaise, dialog_raise, other_error, BlobCodec}
use geldstrom.Clients.Connect.{create_session_state}
use geldstrom.Clients.Fetching.{
  Account, TanMethodInfo, TransactionFeed, TransactionEntry, FetchRange, Operations, with_account,
  fetch_balance_in, fetch_balances_in, fetch_history_in, extract_tan_methods, build_feed,
}
use geldstrom.Clients.Fints3.{Client, OperationMeta}

-- The data of an approved operation.
pub data Payload : Type 0 where
  account_list : List Account → Payload
  method_list : List TanMethodInfo → Payload
  feed_of : TransactionFeed → Payload
  balance_of : String → Payload
  balance_list : List String → Payload
  nothing : Payload

abbrev pub text : Option String → String
text none = ""
text (some t) = t

unfoldable pub by_iban : String → List Account → Option String
by_iban iban [] = none
by_iban iban (a ∷ rest) =
    let later = by_iban iban rest in
    elim a.iban [ none ↦ later | some i ↦ if str_eq i iban then some a.account_id else later ]

-- The account that the meta data name, by its id or else by its IBAN, or "".
unfoldable pub account_id_of : OperationMeta → List Account → String
unfolding by_iban
account_id_of meta accounts =
    if not (str_eq (text meta.account_id) "")
    then text meta.account_id
    else if str_eq (text meta.iban) ""
    then ""
    else text (by_iban (text meta.iban) accounts)

abbrev pub first_text : List String → String
first_text [] = ""
first_text (t ∷ ts) = t

-- The touchdown point of code 3040, "" where it has none, and none without the code.
unfoldable pub continuation : Processed → Option String
unfolding get_response_by_code
continuation response = elim (get_response_by_code response "3040") [
  | none ↦ none
  | some r ↦ some (first_text r.parameters)
]

abbrev pub has_entries : TransactionFeed → Bool
has_entries feed = elim feed.entries [ [] ↦ false | e ∷ es ↦ true ]

abbrev pub is_some : {A : Type 0} → Option A → Bool
is_some none = false
is_some (some a) = true

-- mt940_feed if mt940_feed.entries else camt_feed
abbrev pub first_page : TransactionFeed → TransactionFeed → TransactionFeed
first_page mt940 camt = if has_entries mt940 then mt940 else camt

module _ (c : Connection) (codec : BlobCodec) (creds : GatewayCredentials)
    (operations : Operations c) where
  open c use {Link}

  -- What is done with the client and the dialog of the context.
  abbrev pub InContext : Type 0 → Type 0
  InContext A = Client → Dialog → Link → Outcome ClientRaise A × Client × Dialog × Link

  -- `_store_session_state`, for a context with this system id
  abbrev pub store_session_state : String → Client → Dialog → Client
  store_session_state system_id client d = record client {
    session_state = some (create_session_state codec creds system_id d.parameters);
  }

  -- A request in the dialog, behind which the session state is stored.
  abbrev pub then_stored :
      {A : Type 0}
      → String
      → (A → Payload)
      → Client
      → Outcome ClientRaise A × Dialog × Link
      → Outcome ClientRaise Payload × Client × Dialog × Link
  then_stored system_id f client (ok a, d, l) =
      (ok (f a), store_session_state system_id client d, d, l)
  then_stored system_id f client (raised e, d, l) = (raised e, client, d, l)

  abbrev pub accounts_set :
      String
      → Client
      → Outcome ClientRaise (List Account) × Dialog × Link
      → Outcome ClientRaise (List Account) × Client × Dialog × Link
  accounts_set system_id client (ok accounts, d, l) = (
    ok accounts,
    store_session_state system_id (record client { accounts = accounts; connected = true }) d,
    d,
    l,
  )
  accounts_set system_id client (raised e, d, l) = (raised e, client, d, l)

  unfoldable pub resume_accounts_from_context : String → InContext (List Account)
  unfolding create_session_state
  resume_accounts_from_context system_id client d l =
      accounts_set system_id client (operations.discover d l)

  -- The page behind a touchdown point, by the fetcher of the first page.
  unfoldable pub fetch_continuation :
      String
      → String
      → Option ℕ
      → Option ℕ
      → Bool
      → Dialog
      → Link
      → Outcome ClientRaise TransactionFeed × Dialog × Link
  unfolding with_account
  fetch_continuation account_id touchdown start_date end_date use_camt d l =
      with_account c operations account_id
        (λ sepa.
          let range : FetchRange = record {
            account = sepa;
            account_id = account_id;
            start_date = start_date;
            end_date = end_date;
            include_pending = false;
            initial_touchdown = some touchdown;
          } in
          if use_camt then operations.camt_fetch range else operations.mt940_fetch range)
        d l

  abbrev pub merged : String → TransactionFeed → TransactionFeed → Payload
  merged account_id first_page more =
      feed_of
        (build_feed operations.today account_id (first_page.entries ++ more.entries) more.has_more)

  -- `except DecoupledTANPending`: the entries of the approval, where there are any.
  abbrev pub or_partial :
      String
      → Option TransactionFeed
      → Outcome ClientRaise Payload × Client × Dialog × Link
      → Outcome ClientRaise Payload × Client × Dialog × Link
  or_partial system_id (some feed) (raised (dialog_raise (tan_pending challenge t)), client, d, l) =
      if has_entries feed
      then (ok (feed_of feed), store_session_state system_id client d, d, l)
      else (raised (dialog_raise (tan_pending challenge t)), client, d, l)
  or_partial system_id feed (r, client, d, l) = (r, client, d, l)

  -- A fresh request, with what the approval brought.
  abbrev pub afresh : String → OperationMeta → String → Option TransactionFeed → InContext Payload
  afresh system_id meta account_id feed client d l = or_partial system_id feed (
      then_stored system_id feed_of client (
        fetch_history_in c operations account_id meta.start_date meta.end_date meta.include_pending
          d l))

  -- With the account known before: by what the approval says of more data.
  abbrev pub from_approval :
      String
      → OperationMeta
      → String
      → TransactionFeed
      → TransactionFeed
      → Option String
      → InContext Payload
  from_approval system_id meta account_id mt940 camt none client d l =
      let page = first_page mt940 camt in
      if has_entries page
      then (ok (feed_of page), store_session_state system_id client d, d, l)
      else afresh system_id meta account_id (some page) client d l
  from_approval system_id meta account_id mt940 camt (some touchdown) client d l =
      let page = first_page mt940 camt in
      if str_eq touchdown ""
      then afresh system_id meta account_id (some page) client d l
      else then_stored system_id (merged account_id page) client (
          fetch_continuation account_id touchdown meta.start_date meta.end_date
            (not (has_entries mt940)) d l)

  unfoldable pub complete_transactions :
      String → OperationMeta → Bool → Processed → InContext Payload
  unfolding account_id_of continuation fetch_continuation fetch_history_in create_session_state
      build_feed
  complete_transactions system_id meta was_connected response client d l =
      let account_id = account_id_of meta client.accounts in
      if was_connected && not (str_eq account_id "")
      then from_approval system_id meta account_id (operations.mt940_approved response account_id)
          (operations.camt_approved response account_id) (continuation response) client d l
      else afresh system_id meta account_id none client d l

  abbrev pub balance_for : String → Option String → InContext Payload
  balance_for system_id none client d l = (raised other_error, client, d, l)
  balance_for system_id (some account_id) client d l =
      then_stored system_id balance_of client (fetch_balance_in c operations account_id d l)

  -- The operations that fetch something, behind the accounts.
  abbrev pub complete_fetch : String → String → OperationMeta → Bool → Processed → InContext Payload
  complete_fetch system_id operation_type meta was_connected response client d l =
      if str_eq operation_type "transactions"
      then complete_transactions system_id meta was_connected response client d l
      else if str_eq operation_type "balance"
      then balance_for system_id meta.account_id client d l
      else if str_eq operation_type "balances"
      then then_stored system_id balance_list client
          (fetch_balances_in c operations meta.account_ids d l)
      else (ok nothing, client, d, l)

  abbrev pub after_accounts :
      InContext Payload
      → Outcome ClientRaise (List Account) × Client × Dialog × Link
      → Outcome ClientRaise Payload × Client × Dialog × Link
  after_accounts f (ok accounts, client, d, l) = f client d l
  after_accounts f (raised e, client, d, l) = (raised e, client, d, l)

  abbrev pub listed :
      Outcome ClientRaise (List Account) × Client × Dialog × Link
      → Outcome ClientRaise Payload × Client × Dialog × Link
  listed (ok accounts, client, d, l) = (ok (account_list accounts), client, d, l)
  listed (raised e, client, d, l) = (raised e, client, d, l)

  -- bool(op.operation_meta.get("was_connected", self._connected))
  abbrev pub was_connected_of : OperationMeta → Client → Bool
  was_connected_of meta client = elim meta.was_connected [ none ↦ client.connected | some b ↦ b ]

  unfoldable pub complete_approved_operation :
      String → String → OperationMeta → Processed → InContext Payload
  unfolding resume_accounts_from_context complete_transactions fetch_balance_in fetch_balances_in
      extract_tan_methods create_session_state
  complete_approved_operation system_id operation_type meta response client d l =
      if str_eq operation_type "connect"
      then listed (resume_accounts_from_context system_id client d l)
      else if str_eq operation_type "accounts"
      then listed (resume_accounts_from_context system_id client d l)
      else if str_eq operation_type "tan_methods"
      then (
        ok (method_list (extract_tan_methods c operations d.parameters)),
        store_session_state system_id client d,
        d,
        l,
      )
      else if was_connected_of meta client
      then complete_fetch system_id operation_type meta true response client d l
      else after_accounts (complete_fetch system_id operation_type meta false response)
          (resume_accounts_from_context system_id client d l)
