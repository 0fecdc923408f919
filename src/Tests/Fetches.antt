-- ===== src/Tests/Fetches.antt =====
-- The commands that start an operation, with a connector that waits for an approval.
use geldstrom.Prelude.{
  ℕ, ◌≡◌, refl, false, List, [], ◌∷◌, none, some, Option, String, ok, raised, arith, ◌-◌, ◌&&◌, leb,
  if◌then◌else◌,
}
use geldstrom.Gateway.{
  validate_connector_result, pending_confirmation, completed, accounts, balances, transactions,
  tan_methods,
}
use geldstrom.Gateway.Sessions.{Store, get}
use geldstrom.Gateway.Dict.{find}
use geldstrom.Wire.Decimal.{decimal, value_of}
use geldstrom.Gateway.Iban.{Texts, requested_iban}
use geldstrom.Gateway.Poll.{Services, PollOperationInput, authenticate, poll_operation}
use geldstrom.Gateway.Poll.Lifecycle.{Polls}
use geldstrom.Gateway.Fetch.{
  FetchResult, BankingConnector, FetchTransactionsInput, list_accounts, get_balances,
  get_tan_methods, fetch_transactions, resolve_date_range, invalid_range,
}
use geldstrom.Gateway.Fetch.Opens.{IsSound, IsSoundConnector, Opens, commands-Opens}
use geldstrom.Gateway.Fetch.Completes.{completed_reply, poll_operation-settles}
use geldstrom.Tests.Operations.{
  pending_session, two_sessions, no_sessions, two_sessions-WellFormed, a_request, a_result,
  a_gateway,
}

abbrev waiting_result : {A : Type 0} → FetchResult A
waiting_result = record {
  status = pending_confirmation;
  items = [];
  session_state = "state";
  expires_at = some 400;
  failure_reason = none;
}

abbrev done_result : {A : Type 0} → FetchResult A
done_result = record {
  status = completed;
  items = [];
  session_state = "";
  expires_at = none;
  failure_reason = none;
}

abbrev a_connector : BankingConnector (Unit {0})
a_connector = record {
  list_accounts_at = λ a i. ok waiting_result;
  get_balances_at = λ a i. ok done_result;
  get_tan_methods_at = λ a i. ok done_result;
  fetch_transactions_at = λ a i iban start end_date. ok waiting_result;
}

abbrev digit_value : ℕ → Option ℕ
digit_value c = if leb b'0' c && leb c b'9' then some (c - b'0') else none

abbrev pub plain_texts : Texts
plain_texts = record { Raw = List ℕ; normalize = λ v. v; digit_of = digit_value }

abbrev pub an_iban : List ℕ
an_iban =
    b'D' ∷ b'E' ∷ b'8' ∷ b'9' ∷ b'3' ∷ b'7' ∷ b'0' ∷ b'4' ∷ b'0' ∷ b'0' ∷ b'4' ∷ b'4' ∷ b'0' ∷ b'5'
    ∷ b'3' ∷ b'2' ∷ b'0' ∷ b'1' ∷ b'3' ∷ b'0' ∷ b'0' ∷ b'0' ∷ []

an_iban-valid : requested_iban plain_texts an_iban ≡ some an_iban
unfolding requested_iban value_of decimal
an_iban-valid = refl

abbrev a_fetch : FetchTransactionsInput (List ℕ)
a_fetch = record {
  access = a_request;
  iban = an_iban;
  start_date = some 738000;
  end_date = some 738001;
}

waiting-IsSound : (A : Type 0) → IsSound 150 (waiting_result {A = A})
unfolding IsSound validate_connector_result
waiting-IsSound A = (refl, omega arith)

done-IsSound : (A : Type 0) → IsSound 150 (done_result {A = A})
unfolding IsSound validate_connector_result
done-IsSound A = (refl, tt)

a_connector-IsSound : IsSoundConnector a_gateway (λ t. false) "op9" a_connector
a_connector-IsSound = record {
  sound_accounts = λ a i. waiting-IsSound _;
  sound_balances = λ a i. done-IsSound _;
  sound_tan_methods = λ a i. done-IsSound _;
  sound_transactions = λ a i iban start end_date. waiting-IsSound _;
}

alice_authenticates : (authenticate a_gateway "alice").0 ≡ ok "alice"
unfolding authenticate
alice_authenticates = refl

-- The transactions of a date range, and a range that ends before it starts.
ranges :
    (resolve_date_range 150 (some 738000) (some 738001) ≡ ok (738000, 738001))
    × (resolve_date_range 150 (some 738001) (some 738000) ≡ raised invalid_range)
unfolding resolve_date_range
ranges = (refl, refl)

commands-Opens_example :
    let consumer = (authenticate a_gateway "alice").0 in
    Opens a_gateway
      (λ t. false)
      "op9"
      accounts
      consumer
      no_sessions
      (list_accounts a_gateway (λ t. false) "op9" a_connector a_request "alice" no_sessions)
    × Opens a_gateway
        (λ t. false)
        "op9"
        balances
        consumer
        no_sessions
        (get_balances a_gateway (λ t. false) "op9" a_connector a_request "alice" no_sessions)
    × Opens a_gateway
        (λ t. false)
        "op9"
        tan_methods
        consumer
        no_sessions
        (get_tan_methods a_gateway (λ t. false) "op9" a_connector a_request "alice" no_sessions)
    × Opens a_gateway
        (λ t. false)
        "op9"
        transactions
        consumer
        no_sessions
        (fetch_transactions a_gateway
          (λ t. false)
          "op9"
          a_connector
          plain_texts
          a_fetch
          "alice"
          no_sessions)
commands-Opens_example =
    commands-Opens a_gateway (λ t. false) "op9" a_connector a_connector-IsSound plain_texts
      a_request a_fetch "alice" no_sessions refl (omega arith)

op1_is_held : get "op1" two_sessions ≡ some pending_session
unfolding get find
op1_is_held = refl

poll_operation-settles_example :
    ((poll_operation a_gateway "op1" a_request "alice" two_sessions).0
      ≡ ok (completed_reply pending_session (some "[]")))
    × ((later : Services) (request : PollOperationInput) (key : String) (ttl : ℕ) (store : Store)
        → Polls ttl (poll_operation a_gateway "op1" a_request "alice" two_sessions).1 store
        → (authenticate later key).0 ≡ ok "alice"
        → poll_operation later "op1" request key store
          ≡ (ok (completed_reply pending_session (some "[]")), store))
poll_operation-settles_example =
    poll_operation-settles a_gateway a_request "alice" pending_session two_sessions tt a_result
      two_sessions-WellFormed op1_is_held refl refl alice_authenticates refl refl refl
