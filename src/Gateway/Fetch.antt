-- ===== src/Gateway/Fetch.antt =====
-- application/banking/commands: the four commands that start an operation at the bank, list_accounts.py,
-- get_balances.py, fetch_transactions.py and get_tan_methods.py.
pub mod Opens
pub mod Completes
use geldstrom.Prelude.{
  ℕ, ◌+◌, ◌-◌, ◌/◌, Bool, true, false, List, [], ◌∷◌, Option, none, some, String, ltb, leb,
  if◌then◌else◌, Outcome, ok, raised,
}
use geldstrom.Gateway.{
  OperationStatus, OperationType, PendingOperationSession, DomainError, accounts, balances,
  transactions, tan_methods, pending_confirmation, is_pending, validate_session,
  cap_session_expires_at,
}
use geldstrom.Gateway.Sessions.{Store, StoreRaise, create}
use geldstrom.Gateway.Iban.{Texts, requested_iban}
use geldstrom.Gateway.Poll.{
  Services, PollRaise, PollOperationInput, institution_not_found, authenticate,
}

-- `AccountsResult`, `BalancesResult`, `TransactionsResult` and `TanMethodsResult`, which differ in what
-- their items are.
pub record FetchResult (A : Type 0) : Type 0 where
  pub status : OperationStatus
  pub items : List A
  pub session_state : String
  pub expires_at : Option ℕ
  pub failure_reason : Option String

-- The four envelopes of application/banking/dtos.
pub record FetchEnvelope (A : Type 0) : Type 0 where
  pub status : OperationStatus
  pub items : List A
  pub operation_id : Option String
  pub expires_at : Option ℕ
  pub failure_reason : Option String

-- `TanMethod`
pub record TanMethod : Type 0 where
  pub method_id : String
  pub display_name : String
  pub is_decoupled : Bool

-- The inputs of the commands but `FetchTransactionsInput` have the fields of `PollOperationInput`. A
-- date is its ordinal, which begins at 1.
pub record FetchTransactionsInput (Raw : Type 0) : Type 0 where
  pub access : PollOperationInput
  pub iban : Raw
  pub start_date : Option ℕ
  pub end_date : Option ℕ

pub data FetchRaise : Type 0 where
  refused : PollRaise → FetchRaise
  invalid_session : DomainError → FetchRaise
  not_stored : StoreRaise → FetchRaise
  invalid_range invalid_iban date_overflow : FetchRaise

-- `BankingConnector`, but for its `resume_operation`; the items that are only passed on are texts.
pub record BankingConnector (Institute : Type 0) : Type 0 where
  pub list_accounts_at : PollOperationInput → Institute → Outcome PollRaise (FetchResult String)
  pub get_balances_at : PollOperationInput → Institute → Outcome PollRaise (FetchResult String)
  pub get_tan_methods_at :
      PollOperationInput → Institute → Outcome PollRaise (FetchResult TanMethod)
  pub fetch_transactions_at :
      PollOperationInput → Institute → List ℕ → ℕ → ℕ → Outcome PollRaise (FetchResult String)

abbrev pub microseconds_per_day : ℕ
microseconds_per_day = 86400000000

-- self._id_provider.now().date(), where times count from the first day
abbrev pub date_of : ℕ → ℕ
date_of now = now / microseconds_per_day + 1

-- request.end_date or ...
abbrev pub given_or : Option ℕ → ℕ → ℕ
given_or none d = d
given_or (some e) d = e

abbrev pub start_of : Option ℕ → ℕ → Outcome FetchRaise ℕ
start_of (some start) end_date = ok start
start_of none end_date = if leb end_date 90 then raised date_overflow else ok (end_date - 90)

abbrev pub ordered : ℕ → Outcome FetchRaise ℕ → Outcome FetchRaise (ℕ × ℕ)
ordered end_date (raised e) = raised e
ordered end_date (ok start) =
    if ltb end_date start then raised invalid_range else ok (start, end_date)

-- `_resolve_date_range`
unfoldable pub resolve_date_range : ℕ → Option ℕ → Option ℕ → Outcome FetchRaise (ℕ × ℕ)
resolve_date_range now start_date end_date =
    let end_date' = given_or end_date (date_of now) in
    ordered end_date' (start_of start_date end_date')

-- [method for method in result.methods if method.is_decoupled]
abbrev pub decoupled_only : List TanMethod → List TanMethod
decoupled_only [] = []
decoupled_only (t ∷ ts) = let rest = decoupled_only ts in if t.is_decoupled then t ∷ rest else rest

abbrev pub lifted : {A : Type 0} → Outcome PollRaise A → Outcome FetchRaise A
lifted (ok a) = ok a
lifted (raised e) = raised (refused e)

-- The provider's new id, and `not text.strip()`.
module _ (services : Services) (is_blank : String → Bool) (new_operation_id : String) where
  open services use {Institute, get_by_blz, now, ttl}

  abbrev pub new_session :
      {A : Type 0} → OperationType → String → FetchResult A → PendingOperationSession
  new_session operation_type consumer_id result = record {
    operation_id = new_operation_id;
    consumer_id = consumer_id;
    operation_type = operation_type;
    session_state = some result.session_state;
    status = pending_confirmation;
    created_at = now;
    expires_at = cap_session_expires_at result.expires_at now ttl;
    last_polled_at = none;
    result_payload = none;
    failure_reason = none;
  }

  abbrev pub stored_reply :
      {A : Type 0}
      → PendingOperationSession
      → Outcome StoreRaise (Unit {0}) × Store
      → Outcome FetchRaise (FetchEnvelope A) × Store
  stored_reply session (raised e, store) = (raised (not_stored e), store)
  stored_reply session (ok u, store) = (
    ok (record {
      status = session.status;
      items = [];
      operation_id = some session.operation_id;
      expires_at = some session.expires_at;
      failure_reason = none;
    }),
    store,
  )

  abbrev pub store_valid :
      {A : Type 0}
      → PendingOperationSession
      → Store
      → Outcome DomainError (Unit {0})
      → Outcome FetchRaise (FetchEnvelope A) × Store
  store_valid session store (raised e) = (raised (invalid_session e), store)
  store_valid session store (ok u) = stored_reply session (create session store)

  -- From the connector's result on; `keep` is what the command does with the items.
  abbrev pub delivered :
      {A : Type 0}
      → (List A → List A)
      → OperationType
      → String
      → Store
      → Outcome FetchRaise (FetchResult A)
      → Outcome FetchRaise (FetchEnvelope A) × Store
  delivered keep operation_type consumer_id store (raised e) = (raised e, store)
  delivered keep operation_type consumer_id store (ok result) =
      let session = new_session operation_type consumer_id result in
      if is_pending result.status
      then store_valid session store (validate_session is_blank session)
      else (
        ok (record {
          status = result.status;
          items = keep result.items;
          operation_id = none;
          expires_at = none;
          failure_reason = result.failure_reason;
        }),
        store,
      )

  abbrev pub at_institute :
      {A : Type 0}
      → (Institute → Outcome FetchRaise (FetchResult A))
      → Option Institute
      → Outcome FetchRaise (FetchResult A)
  at_institute call none = raised (refused institution_not_found)
  at_institute call (some institute) = call institute

  abbrev pub of_consumer :
      {A : Type 0}
      → (List A → List A)
      → OperationType
      → Outcome FetchRaise (FetchResult A)
      → Store
      → Outcome PollRaise String
      → Outcome FetchRaise (FetchEnvelope A) × Store
  of_consumer keep operation_type outcome store (raised e) = (raised (refused e), store)
  of_consumer keep operation_type outcome store (ok consumer_id) =
      delivered keep operation_type consumer_id store outcome

  -- The four `__call__` are this function at the connector's method.
  unfoldable pub fetch_operation :
      {A : Type 0}
      → (List A → List A)
      → OperationType
      → (Institute → Outcome FetchRaise (FetchResult A))
      → String
      → String
      → Store
      → Outcome FetchRaise (FetchEnvelope A) × Store
  unfolding authenticate validate_session create cap_session_expires_at
  fetch_operation keep operation_type call blz presented_key store =
      of_consumer keep operation_type (at_institute call (get_by_blz blz)) store
        (authenticate services presented_key).0

  module _ (connector : BankingConnector Institute) where
    open connector use {
      list_accounts_at, get_balances_at, get_tan_methods_at, fetch_transactions_at,
    }

    unfoldable pub list_accounts :
        PollOperationInput → String → Store → Outcome FetchRaise (FetchEnvelope String) × Store
    list_accounts request key store =
        fetch_operation (λ items. items) accounts (λ i. lifted (list_accounts_at request i))
          request.blz key store

    unfoldable pub get_balances :
        PollOperationInput → String → Store → Outcome FetchRaise (FetchEnvelope String) × Store
    get_balances request key store =
        fetch_operation (λ items. items) balances (λ i. lifted (get_balances_at request i))
          request.blz key store

    unfoldable pub get_tan_methods :
        PollOperationInput → String → Store → Outcome FetchRaise (FetchEnvelope TanMethod) × Store
    get_tan_methods request key store =
        fetch_operation decoupled_only tan_methods (λ i. lifted (get_tan_methods_at request i))
          request.blz key store

    -- The date range is resolved before the IBAN is read.
    abbrev pub ask_transactions :
        PollOperationInput
        → Institute
        → Option (List ℕ)
        → Outcome FetchRaise (ℕ × ℕ)
        → Outcome FetchRaise (FetchResult String)
    ask_transactions access i iban (raised e) = raised e
    ask_transactions access i none (ok range) = raised invalid_iban
    ask_transactions access i (some iban) (ok (start, end_date)) =
        lifted (fetch_transactions_at access i iban start end_date)

    unfoldable pub fetch_transactions :
        (texts : Texts)
        → FetchTransactionsInput texts.Raw
        → String
        → Store
        → Outcome FetchRaise (FetchEnvelope String) × Store
    unfolding resolve_date_range
    fetch_transactions texts request key store =
        fetch_operation (λ items. items) transactions
          (λ i.
            ask_transactions request.access i (requested_iban texts request.iban)
              (resolve_date_range now request.start_date request.end_date))
          request.access.blz key store
