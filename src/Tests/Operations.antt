-- ===== src/Tests/Operations.antt =====
-- A store of sessions and the services of a gateway with two consumers.
use geldstrom.Prelude.{
  ℕ, List, ◌+◌, ◌≡◌, ◌≢◌, ◌≤◌, All, ◌↔◌, ◌⊎◌, refl, true, false, [], ◌∷◌, Option, none, some,
  String, ok, raised, arith, length,
}
use geldstrom.Gateway.{
  PendingOperationSession, ResumeResult, pending_confirmation, completed, failed, transactions,
}
use geldstrom.Gateway.Dict.{find, str_eq-ne}
use geldstrom.Gateway.Sessions.{Store, create, get, update, delete, expire_stale, at_capacity}
use geldstrom.Gateway.Sessions.Invariant.{WellFormed, operations-WellFormed, HasRoom, create_lem}
use geldstrom.Gateway.Sessions.Expiry.{not_stale, expire_stale_lem}
use geldstrom.Gateway.Poll.{
  Services, ApiConsumer, PollOperationInput, poll_operation, authenticate, operation_not_found,
}
use geldstrom.Gateway.Poll.Status.{get_operation_status}
use geldstrom.Gateway.Poll.Oracle.{poll_operation-NotOwned, get_operation_status-not_found}
use geldstrom.Gateway.RateLimit.{dispatch}
use geldstrom.Gateway.RateLimit.Window.{
  dispatch-recent, dispatch-bound, Limits, recent, times, IsAscending,
}
use geldstrom.Gateway.Poll.Lifecycle.{start, poll, Polls-Advances}
use geldstrom.Gateway.Poll.Advances.{AdvancesAt}

abbrev pub pending_session : PendingOperationSession
pending_session = record {
  operation_id = "op1";
  consumer_id = "alice";
  operation_type = transactions;
  session_state = some "state";
  status = pending_confirmation;
  created_at = 100;
  expires_at = 220;
  last_polled_at = none;
  result_payload = none;
  failure_reason = none;
}

abbrev failed_session : PendingOperationSession
failed_session = record pending_session {
  operation_id = "op2";
  status = failed;
  session_state = none;
  failure_reason = some "refused";
}

abbrev pub two_sessions : Store
two_sessions = record {
  max_sessions = 2;
  sessions = ("op1", pending_session) ∷ ("op2", failed_session) ∷ [];
}

abbrev pub no_sessions : Store
no_sessions = record { max_sessions = 2; sessions = [] }

pub two_sessions-WellFormed : WellFormed two_sessions
unfolding WellFormed
two_sessions-WellFormed = ((refl, (str_eq-ne "op2" "op1" refl, tt), (refl, tt, tt)), omega arith)

abbrev pub a_request : PollOperationInput
a_request = record {
  blz = "12030000";
  user_id = "u";
  password = "p";
  tan_method = none;
  tan_medium = none;
}

abbrev pub a_result : ResumeResult
a_result = record {
  status = completed;
  operation_type = some transactions;
  session_state = "";
  result_payload = some "[]";
  expires_at = none;
  failure_reason = none;
}

abbrev pub consumer_of : String → Option ApiConsumer
consumer_of prefix = some (record { consumer_id = prefix; is_disabled = false; api_key_hash = "h" })

-- A gateway in which the key is the consumer's name, and the bank completes every operation.
abbrev pub a_gateway : Services
a_gateway = record {
  Institute = Unit {0};
  split_key = λ key. (key, "secret");
  get_by_key_prefix = consumer_of;
  verify = λ key hash. true;
  get_by_blz = λ blz. some tt;
  resume_operation = λ state request institute. ok a_result;
  now = 150;
  ttl = 120;
}

operations-WellFormed_example :
    WellFormed (create pending_session two_sessions).1
    × WellFormed (delete "op1" two_sessions)
    × WellFormed (expire_stale 300 two_sessions).1
    × ((held : PendingOperationSession)
        → get pending_session.operation_id two_sessions ≡ some held
        → WellFormed (update pending_session two_sessions))
operations-WellFormed_example =
    operations-WellFormed two_sessions pending_session "op1" 300 two_sessions-WellFormed

expire_stale_example :
    ((expire_stale 300 two_sessions).1.sessions ≡ not_stale 300 two_sessions.sessions)
    × ((expire_stale 300 two_sessions).0 + length (expire_stale 300 two_sessions).1.sessions ≡ 2)
expire_stale_example = expire_stale_lem 300 two_sessions two_sessions-WellFormed

create_example :
    ((get "op1" no_sessions ≡ none)
      × (no_sessions.max_sessions ≤ length no_sessions.sessions)
      × (create pending_session no_sessions ≡ (raised at_capacity, no_sessions)))
    ⊎ (HasRoom pending_session no_sessions
        × ((create pending_session no_sessions).0 ≡ ok tt)
        × (get "op1" (create pending_session no_sessions).1 ≡ some pending_session)
        × ((k : String)
            → "op1" ≢ k
            → get k (create pending_session no_sessions).1 ≡ get k no_sessions)
        × ((create pending_session no_sessions).1.max_sessions ≡ no_sessions.max_sessions))
create_example = create_lem pending_session no_sessions

bob_authenticates : (authenticate a_gateway "bob").0 ≡ ok "bob"
unfolding authenticate
bob_authenticates = refl

op1_is_not_bobs : pending_session.consumer_id ≢ "bob"
op1_is_not_bobs = λ e. cc e

poll_operation-NotOwned_example :
    ((poll_operation a_gateway "op1" a_request "bob" two_sessions).0
      ≡ (poll_operation a_gateway "op1" a_request "bob" no_sessions).0)
    × ((poll_operation a_gateway "op1" a_request "bob" two_sessions).1 ≡ two_sessions)
unfolding get find
poll_operation-NotOwned_example =
    poll_operation-NotOwned a_gateway "op1" a_request "bob" "bob" two_sessions no_sessions
      bob_authenticates op1_is_not_bobs tt

get_operation_status-not_found_example :
    (get_operation_status a_gateway "op1" "bob" two_sessions ≡ raised operation_not_found)
    ↔ (get "op1" two_sessions ≡ none)
get_operation_status-not_found_example =
    get_operation_status-not_found a_gateway "op1" "bob" "bob" two_sessions bob_authenticates

Polls-Advances_example :
    WellFormed (poll_operation a_gateway "op1" a_request "alice" two_sessions).1
    × ((k : String)
        → AdvancesAt 120
            (get k two_sessions)
            (get k (poll_operation a_gateway "op1" a_request "alice" two_sessions).1))
Polls-Advances_example =
    Polls-Advances two_sessions-WellFormed (poll a_gateway "op1" a_request "alice" refl start)

-- A caller with two requests, of which one has left the window at 61 seconds.
abbrev some_buckets : List (String × List ℕ)
some_buckets = ("key", 500000 ∷ 30000000 ∷ []) ∷ []

dispatch-recent_example :
    Limits 2 "key" 61000000
      (recent 61000000 (times (find "key" some_buckets)))
      (dispatch 2 "/v1/accounts" "key" 61000000 some_buckets)
    × IsAscending (times (find "key" (dispatch 2 "/v1/accounts" "key" 61000000 some_buckets).1))
    × All
        (λ t. t ≤ 61000000)
        (times (find "key" (dispatch 2 "/v1/accounts" "key" 61000000 some_buckets).1))
unfolding find
dispatch-recent_example =
    dispatch-recent 2 "/v1/accounts" "key" 61000000 some_buckets refl ((omega arith, tt), (tt, tt))
      (omega arith, (omega arith, tt))

dispatch-bound_example : length (dispatch 2 "/v1/accounts" "new" 61000000 some_buckets).1 ≤ 50000
dispatch-bound_example = dispatch-bound 2 "/v1/accounts" "new" 61000000 some_buckets (omega arith)
