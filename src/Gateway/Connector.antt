-- ===== src/Gateway/Connector.antt =====
-- infrastructure/banking/geldstrom/connector.py: `GeldstromBankingConnector`, which makes a client of the
-- library for each call and turns what it returns into the gateway's results.
pub mod Sound
pub mod Implements
use Prim.Native.String.{◌++◌ as text_append}
use geldstrom.Prelude.{
  ℕ, ◌+◌, Bool, true, false, ◌||◌, List, [], ◌∷◌, Option, none, some, String, str_eq, starts_with,
  if◌then◌else◌, Outcome, ok, raised, ◌>>=◌,
}
use geldstrom.Tan.{ChallengeHandler}
use geldstrom.Dialog.{Connection}
use geldstrom.Clients.{GatewayCredentials, World}
use geldstrom.Clients.Fetching.{Account, TransactionFeed, TanMethodInfo, Operations}
use geldstrom.Clients.Fints3.{
  Client, CallRaise, awaiting, nothing_pending, call_failed, of_account, OperationMeta,
}
use geldstrom.Clients.Decoupled
use geldstrom.Clients.Decoupled.Completion.{
  Payload, account_list, method_list, feed_of, balance_of, balance_list, nothing,
}
use geldstrom.Clients.Decoupled.Polling.{
  DecoupledSessionSnapshot, PollResult, still_pending, approved, poll_failed, Formats,
  snapshot_pending, resume_and_poll,
}
use geldstrom.Gateway.{
  OperationType, accounts, balances, transactions, tan_methods, ResumeResult, DomainError,
  pending_confirmation, completed, failed, validate_connector_result, validate_resume,
}
use geldstrom.Gateway.Poll.{PollOperationInput}
use geldstrom.Gateway.Fetch.{FetchResult, TanMethod}

-- `FinTsInstitute`, as far as the connector reads it.
pub record FinTsInstitute : Type 0 where
  pub blz : String
  pub pin_tan_url : Option String

-- What the connector raises: `BankUpstreamUnavailableError`; the `DomainError` of a `TanMethod` with a
-- blank id or name; what the validator of a result raises;
-- `ValueError` for an operation's type that the gateway does not have, or a snapshot that it cannot
-- read; and what the client raises.
pub data ConnectorRaise : Type 0 where
  upstream_unavailable : ConnectorRaise
  blank_method : ConnectorRaise
  invalid_result : DomainError → ConnectorRaise
  unknown_operation_type unreadable_snapshot : ConnectorRaise
  client_raised : CallRaise → ConnectorRaise

-- `DetachingChallengeHandler`
abbrev pub detaching : ChallengeHandler
detaching challenge = record { cancelled = false; error = none; detach = true }

abbrev pub five_minutes : ℕ
five_minutes = 300000000

-- A client of `from_gateway_credentials` without a session state.
abbrev pub fresh_client : Client
fresh_client = record { session_state = none; accounts = []; connected = false; pending = none }

-- `_find_account_by_iban`
unfoldable pub find_account_by_iban : String → List Account → Option Account
find_account_by_iban iban [] = none
find_account_by_iban iban (a ∷ rest) =
    let later = find_account_by_iban iban rest in
    elim a.iban [ none ↦ later | some i ↦ if str_eq i iban then some a else later ]

abbrev pub checked : Outcome DomainError (Unit {0}) → {A : Type 0} → A → Outcome ConnectorRaise A
checked (ok u) a = ok a
checked (raised e) a = raised (invalid_result e)

-- A result of a fetch behind the validator of its model.
abbrev pub valid_fetch : {A : Type 0} → FetchResult A → Outcome ConnectorRaise (FetchResult A)
valid_fetch r =
    checked (validate_connector_result r.status r.session_state r.expires_at r.failure_reason) r

abbrev pub completed_result : {A : Type 0} → List A → FetchResult A
completed_result items = record {
  status = completed;
  items = items;
  session_state = "";
  expires_at = none;
  failure_reason = none;
}

-- Five minutes from now.
abbrev pub pending_result : {A : Type 0} → ℕ → String → FetchResult A
pending_result now session_state = record {
  status = pending_confirmation;
  items = [];
  session_state = session_state;
  expires_at = some (now + five_minutes);
  failure_reason = none;
}

-- OperationType(text), and none without a text
unfoldable pub operation_type_of : String → Option OperationType
operation_type_of t =
    if str_eq t "accounts"
    then some accounts
    else if str_eq t "balances"
    then some balances
    else if str_eq t "transactions"
    then some transactions
    else if str_eq t "tan_methods"
    then some tan_methods
    else none

-- The dictionaries of mapping.py: an account, a balance and a method as the text of its dictionary, a
-- feed as those of its entries, and the dictionary of a list under a key; the text of an IBAN; and
-- whether nothing is left of a text by `strip`.
pub record Mapping : Type 0 where
  pub to_account_dict : Account → String
  pub to_balance_dict : String → String
  pub to_transaction_list : TransactionFeed → List String
  pub to_method_dict : TanMethod → String
  pub under_key : String → List String → String
  pub empty_dict : String
  pub iban_text : List ℕ → String
  pub is_blank : String → Bool

abbrev pub each : {A B : Type 0} → (A → B) → List A → List B
each f [] = []
each f (x ∷ xs) = f x ∷ each f xs

-- `to_tan_method`, with the validator of `TanMethod`.
abbrev pub to_tan_method : Mapping → TanMethodInfo → Outcome ConnectorRaise TanMethod
to_tan_method m t =
    if m.is_blank t.code || m.is_blank t.name
    then raised blank_method
    else ok (record { method_id = t.code; display_name = t.name; is_decoupled = t.is_decoupled })

-- [to_tan_method(m) for m in methods]
unfoldable pub to_tan_methods :
    Mapping → List TanMethodInfo → Outcome ConnectorRaise (List TanMethod)
to_tan_methods m [] = ok []
to_tan_methods m (t ∷ ts) =
    to_tan_method m t >>= λ method. to_tan_methods m ts >>= λ methods. ok (method ∷ methods)

abbrev pub method_dicts :
    Mapping → Outcome ConnectorRaise (List TanMethod) → Outcome ConnectorRaise String
method_dicts m (ok methods) = ok (m.under_key "methods" (each m.to_method_dict methods))
method_dicts m (raised e) = raised e

-- `approved_result_payload`
unfoldable pub approved_result_payload : Mapping → String → Payload → Outcome ConnectorRaise String
unfolding to_tan_methods
approved_result_payload m t (account_list listed) =
    if str_eq t "accounts"
    then ok (m.under_key "accounts" (each m.to_account_dict listed))
    else if str_eq t "connect"
    then ok (m.under_key "accounts" (each m.to_account_dict listed))
    else ok m.empty_dict
approved_result_payload m t (feed_of feed) =
    if str_eq t "transactions"
    then ok (m.under_key "transactions" (m.to_transaction_list feed))
    else ok m.empty_dict
approved_result_payload m t (balance_of b) =
    if str_eq t "balances"
    then ok (m.under_key "balances" (m.to_balance_dict b ∷ []))
    else if str_eq t "balance"
    then ok (m.under_key "balances" (m.to_balance_dict b ∷ []))
    else ok m.empty_dict
approved_result_payload m t (balance_list bs) =
    if str_eq t "balances"
    then ok (m.under_key "balances" (each m.to_balance_dict bs))
    else if str_eq t "balance"
    then ok (m.under_key "balances" (each m.to_balance_dict bs))
    else ok m.empty_dict
approved_result_payload m t (method_list ts) =
    if str_eq t "tan_methods" then method_dicts m (to_tan_methods m ts) else ok m.empty_dict
approved_result_payload m t nothing = ok m.empty_dict

module _ (c : Connection) (formats : Formats) (reference : String) (operations : Operations c)
    (mapping : Mapping) (product_key product_version : String) (now : ℕ) where
  open c use {Link}

  -- The connections behind a call, also where it raises.
  abbrev pub Call : Type 0 → Type 0
  Call A = World Link → Outcome ConnectorRaise A × World Link

  abbrev pub credentials_at :
      String → PollOperationInput → Option String → Outcome ConnectorRaise GatewayCredentials
  credentials_at blz access none = raised upstream_unavailable
  credentials_at blz access (some url) =
      if starts_with url "https://"
      then ok (record {
        country_code = "DE";
        bank_code = blz;
        server_url = url;
        user_id = access.user_id;
        pin = access.password;
        customer_id = none;
        tan_method = access.tan_method;
        product_id = product_key;
        product_version = product_version;
      })
      else raised upstream_unavailable

  -- `_build_gateway_credentials`
  unfoldable pub build_gateway_credentials :
      FinTsInstitute → PollOperationInput → Outcome ConnectorRaise GatewayCredentials
  build_gateway_credentials institute access =
      credentials_at institute.blz access institute.pin_tan_url

  -- A call with the credentials that are built, with which making a client raises nothing.
  abbrev pub with_client :
      {A : Type 0}
      → (GatewayCredentials → Call A)
      → Outcome ConnectorRaise GatewayCredentials
      → Call A
  with_client call (raised e) w = (raised e, w)
  with_client call (ok creds) w = call creds w

  -- `_snapshot_pending`
  abbrev pub snapshot_result :
      {A : Type 0}
      → Outcome CallRaise String × Client × World Link
      → Outcome ConnectorRaise (FetchResult A) × World Link
  snapshot_result (ok bytes, client, w) = (valid_fetch (pending_result now bytes), w)
  snapshot_result (raised e, client, w) = (raised (client_raised e), w)

  abbrev pub completed_with :
      {B : Type 0}
      → Outcome ConnectorRaise (List B)
      → World Link
      → Outcome ConnectorRaise (FetchResult B) × World Link
  completed_with (ok items) w = (valid_fetch (completed_result items), w)
  completed_with (raised e) w = (raised e, w)

  -- What a method of the client gives, its items as the result has them.
  abbrev pub fetched :
      {A B : Type 0}
      → GatewayCredentials
      → (A → Outcome ConnectorRaise (List B))
      → Outcome CallRaise A × Client × World Link
      → Outcome ConnectorRaise (FetchResult B) × World Link
  fetched creds f (ok a, client, w) = completed_with (f a) w
  fetched creds f (raised (awaiting ctx challenge t), client, w) =
      snapshot_result (snapshot_pending c formats creds reference operations client w)
  fetched creds f (raised e, client, w) = (raised (client_raised e), w)

  -- `_list_accounts_sync`
  unfoldable pub list_accounts : FinTsInstitute → PollOperationInput → Call (FetchResult String)
  unfolding build_gateway_credentials snapshot_pending
  list_accounts institute access =
      with_client
        (λ creds w.
          fetched creds (λ listed. ok (each mapping.to_account_dict listed))
            (Decoupled.list_accounts c formats.blobs creds reference (some detaching) operations
              fresh_client w))
        (build_gateway_credentials institute access)

  -- `_get_balances_sync`
  unfoldable pub get_balances : FinTsInstitute → PollOperationInput → Call (FetchResult String)
  unfolding build_gateway_credentials snapshot_pending
  get_balances institute access =
      with_client
        (λ creds w.
          fetched creds (λ listed. ok (each mapping.to_balance_dict listed))
            (Decoupled.get_balances c formats.blobs creds reference (some detaching) operations none
              fresh_client w))
        (build_gateway_credentials institute access)

  -- `_get_tan_methods_sync`
  unfoldable pub get_tan_methods :
      FinTsInstitute → PollOperationInput → Call (FetchResult TanMethod)
  unfolding build_gateway_credentials snapshot_pending to_tan_methods
  get_tan_methods institute access =
      with_client
        (λ creds w. fetched creds (to_tan_methods mapping) (
          Decoupled.get_tan_methods c formats.blobs creds reference (some detaching) operations
            fresh_client w))
        (build_gateway_credentials institute access)

  -- The snapshot for the poll handler: of transactions, as it is, and else patched.
  abbrev pub patched :
      String → ℕ → ℕ → String → Option DecoupledSessionSnapshot → Outcome ConnectorRaise String
  patched iban start end_date raw none = raised unreadable_snapshot
  patched iban start end_date raw (some original) =
      if str_eq original.operation_type "transactions"
      then ok raw
      else ok (
          formats.serialize_snapshot (record original {
            operation_type = "transactions";
            operation_meta = record {
              account_id = none;
              iban = some iban;
              start_date = some start;
              end_date = some end_date;
              include_pending = false;
              account_ids = none;
              was_connected = none;
            };
          }))

  abbrev pub patched_result :
      Outcome ConnectorRaise String
      → World Link
      → Outcome ConnectorRaise (FetchResult String) × World Link
  patched_result (ok bytes) w = (valid_fetch (pending_result now bytes), w)
  patched_result (raised e) w = (raised e, w)

  -- `_snapshot_transactions_pending`
  abbrev pub transactions_pending :
      String
      → ℕ
      → ℕ
      → Outcome CallRaise String × Client × World Link
      → Outcome ConnectorRaise (FetchResult String) × World Link
  transactions_pending iban start end_date (ok raw, client, w) =
      patched_result (patched iban start end_date raw (formats.deserialize_snapshot raw)) w
  transactions_pending iban start end_date (raised e, client, w) = (raised (client_raised e), w)

  abbrev pub transactions_fetched :
      GatewayCredentials
      → String
      → ℕ
      → ℕ
      → Outcome CallRaise TransactionFeed × Client × World Link
      → Outcome ConnectorRaise (FetchResult String) × World Link
  transactions_fetched creds iban start end_date (ok feed, client, w) =
      (valid_fetch (completed_result (mapping.to_transaction_list feed)), w)
  transactions_fetched creds iban start end_date (raised (awaiting ctx challenge t), client, w) =
      transactions_pending iban start end_date
        (snapshot_pending c formats creds reference operations client w)
  transactions_fetched creds iban start end_date (raised e, client, w) =
      (raised (client_raised e), w)

  abbrev pub no_account : String → FetchResult String
  no_account iban = record {
    status = failed;
    items = [];
    session_state = "";
    expires_at = none;
    failure_reason = some (text_append "No account found for IBAN " iban);
  }

  abbrev pub of_found :
      GatewayCredentials
      → String
      → ℕ
      → ℕ
      → Option Account
      → Client
      → World Link
      → Outcome ConnectorRaise (FetchResult String) × World Link
  of_found creds iban start end_date none client w = (valid_fetch (no_account iban), w)
  of_found creds iban start end_date (some account) client w =
      transactions_fetched creds iban start end_date (
        Decoupled.get_transactions c formats.blobs creds reference (some detaching) operations
          (of_account account) (some start) (some end_date) false client w)

  abbrev pub in_accounts :
      GatewayCredentials
      → String
      → ℕ
      → ℕ
      → Outcome CallRaise (List Account) × Client × World Link
      → Outcome ConnectorRaise (FetchResult String) × World Link
  in_accounts creds iban start end_date (ok listed, client, w) =
      of_found creds iban start end_date (find_account_by_iban iban listed) client w
  in_accounts creds iban start end_date (raised (awaiting ctx challenge t), client, w) =
      transactions_pending iban start end_date
        (snapshot_pending c formats creds reference operations client w)
  in_accounts creds iban start end_date (raised e, client, w) = (raised (client_raised e), w)

  -- `_fetch_transactions_sync`
  unfoldable pub fetch_transactions :
      FinTsInstitute → PollOperationInput → List ℕ → ℕ → ℕ → Call (FetchResult String)
  unfolding build_gateway_credentials snapshot_pending
  fetch_transactions institute access iban start end_date =
      with_client
        (λ creds w. in_accounts creds (mapping.iban_text iban) start end_date (
          Decoupled.list_accounts c formats.blobs creds reference (some detaching) operations
            fresh_client w))
        (build_gateway_credentials institute access)

  abbrev pub valid_resume : ResumeResult → Outcome ConnectorRaise ResumeResult
  valid_resume r = checked (validate_resume r) r

  -- The result of a poll that has no data of its own but for these.
  abbrev pub resume_fields : ResumeResult
  resume_fields = record {
    status = failed;
    operation_type = none;
    session_state = "";
    result_payload = none;
    expires_at = none;
    failure_reason = none;
  }

  -- result.data, of a pending result
  abbrev pub text_of : Option String → String
  text_of none = ""
  text_of (some t) = t

  -- A completed operation, with its payload.
  abbrev pub completed_resume :
      Option OperationType → Outcome ConnectorRaise String → Outcome ConnectorRaise ResumeResult
  completed_resume operation_type (raised e) = raised e
  completed_resume operation_type (ok payload) = valid_resume (record resume_fields {
    status = completed;
    operation_type = operation_type;
    result_payload = some payload;
  })

  abbrev pub typed : Option OperationType → Payload → String → Outcome ConnectorRaise ResumeResult
  typed none payload t = raised unknown_operation_type
  typed (some operation_type) payload t =
      completed_resume (some operation_type) (approved_result_payload mapping t payload)

  abbrev pub resume_result : PollResult → Outcome ConnectorRaise ResumeResult
  resume_result (still_pending bytes) = valid_resume (record resume_fields {
    status = pending_confirmation;
    session_state = text_of bytes;
    expires_at = some (now + five_minutes);
  })
  resume_result (poll_failed error) = valid_resume (record resume_fields {
    failure_reason = some (if str_eq error "" then "Unknown error during TAN poll" else error);
  })
  resume_result (approved none payload) =
      completed_resume none (approved_result_payload mapping "" payload)
  resume_result (approved (some t) payload) =
      if str_eq t ""
      then completed_resume none (approved_result_payload mapping "" payload)
      else typed (operation_type_of t) payload t

  abbrev pub resumed :
      Outcome CallRaise PollResult × Client × World Link
      → Outcome ConnectorRaise ResumeResult × World Link
  resumed (ok result, client, w) = (resume_result result, w)
  resumed (raised e, client, w) = (raised (client_raised e), w)

  -- `_resume_operation_sync`
  unfoldable pub resume_operation : String → PollOperationInput → FinTsInstitute → Call ResumeResult
  unfolding build_gateway_credentials operation_type_of approved_result_payload
  resume_operation session_state access institute =
      with_client
        (λ creds w.
          resumed
            (resume_and_poll c formats creds reference operations session_state fresh_client w))
        (build_gateway_credentials institute access)
