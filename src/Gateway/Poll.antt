-- ===== src/Gateway/Poll.antt =====
-- application/banking/commands/poll_operation.py: the poll of a pending operation, behind
-- application/consumer/queries/authenticate_consumer.py.
pub mod Oracle
pub mod Advances
pub mod Lifecycle
pub mod Status
use geldstrom.Prelude.{
  ℕ, ◌+◌, Bool, true, false, ◌&&◌, not, List, Option, none, some, String, str_eq, leb,
  if◌then◌else◌, Outcome, ok, raised,
}
use geldstrom.Gateway.{
  OperationStatus, OperationType, PendingOperationSession, ResumeResult, pending_confirmation,
  completed, failed, expired, cap_session_expires_at, is_pending,
}
use geldstrom.Gateway.Sessions.{Store, get, update}

-- A consumer that is active or disabled, with the hash of its key.
pub record ApiConsumer : Type 0 where
  pub consumer_id : String
  pub is_disabled : Bool
  pub api_key_hash : String

pub data AuditEvent : Type 0 where
  consumer_auth_failed : Option String → AuditEvent
  consumer_authenticated : String → AuditEvent

pub data PollRaise : Type 0 where
  unauthorized forbidden operation_not_found institution_not_found connector_failed : PollRaise

pub record PollOperationInput : Type 0 where
  pub blz : String
  pub user_id : String
  pub password : String
  pub tan_method : Option String
  pub tan_medium : Option String

pub record PollOperationResult : Type 0 where
  pub status : OperationStatus
  pub operation_id : String
  pub operation_type : Option OperationType
  pub result_payload : Option String
  pub failure_reason : Option String
  pub expires_at : Option ℕ

-- What the commands take from outside: the consumers, the verifier of keys, the catalog of institutes,
-- the connector to the bank and the clock. `split_key` gives what stands before and behind the first
-- dot of a key.
pub record Services : Type 1 where
  pub Institute : Type 0
  pub split_key : String → String × String
  pub get_by_key_prefix : String → Option ApiConsumer
  pub verify : String → String → Bool
  pub get_by_blz : String → Option Institute
  pub resume_operation :
      Option String → PollOperationInput → Institute → Outcome PollRaise ResumeResult
  pub now : ℕ
  pub ttl : ℕ

-- An empty reply but for the status and the id.
abbrev pub bare : OperationStatus → String → PollOperationResult
bare status operation_id = record {
  status = status;
  operation_id = operation_id;
  operation_type = none;
  result_payload = none;
  failure_reason = none;
  expires_at = none;
}

module _ (services : Services) where
  open services use {
    Institute, split_key, get_by_key_prefix, verify, get_by_blz, resume_operation, now, ttl,
  }

  abbrev pub verified : String → ApiConsumer → Outcome PollRaise String × AuditEvent
  verified presented_key consumer =
      if consumer.is_disabled
      then (raised forbidden, consumer_auth_failed (some consumer.consumer_id))
      else if verify presented_key consumer.api_key_hash
      then (ok consumer.consumer_id, consumer_authenticated consumer.consumer_id)
      else (raised unauthorized, consumer_auth_failed none)

  -- The consumer's id, and the event that the audit service records.
  unfoldable pub authenticate : String → Outcome PollRaise String × AuditEvent
  authenticate presented_key =
      let (prefix, secret) = split_key presented_key in
      if str_eq secret ""
      then (raised unauthorized, consumer_auth_failed none)
      else elim (get_by_key_prefix prefix) [
        | none ↦ (raised unauthorized, consumer_auth_failed none)
        | some consumer ↦ verified presented_key consumer
      ]

  -- result.session_state or session.session_state
  abbrev pub newer_state : String → Option String → Option String
  newer_state t held = if str_eq t "" then held else some t

  -- The session and the reply after a poll of the bank, by the status of its result.
  abbrev pub after_result :
      String
      → OperationStatus
      → ResumeResult
      → PendingOperationSession
      → PendingOperationSession × PollOperationResult
  after_result operation_id pending_confirmation result session =
      let expires = cap_session_expires_at result.expires_at session.created_at ttl in
      (
        record session {
          session_state = newer_state result.session_state session.session_state;
          expires_at = expires;
          last_polled_at = some now;
        },
        record (bare pending_confirmation operation_id) {
          operation_type = some session.operation_type;
          expires_at = some expires;
        },
      )
  after_result operation_id completed result session = (
    record session {
      status = completed;
      result_payload = result.result_payload;
      session_state = none;
      last_polled_at = some now;
    },
    record (bare completed operation_id) {
      operation_type = some session.operation_type;
      result_payload = result.result_payload;
    },
  )
  after_result operation_id status result session = (
    record session {
      status = failed;
      failure_reason = result.failure_reason;
      session_state = none;
      last_polled_at = some now;
    },
    record (bare failed operation_id) {
      operation_type = some session.operation_type;
      failure_reason = result.failure_reason;
    },
  )

  abbrev pub settle :
      String
      → PendingOperationSession
      → Store
      → Outcome PollRaise ResumeResult
      → Outcome PollRaise PollOperationResult × Store
  settle operation_id session store (raised e) = (raised e, store)
  settle operation_id session store (ok result) =
      let (session', reply) = after_result operation_id result.status result session in
      (ok reply, update session' store)

  abbrev pub resume_at :
      String
      → PollOperationInput
      → PendingOperationSession
      → Store
      → Option Institute
      → Outcome PollRaise PollOperationResult × Store
  resume_at operation_id request session store none = (raised institution_not_found, store)
  resume_at operation_id request session store (some institute) =
      settle operation_id session store (resume_operation session.session_state request institute)

  unfoldable pub poll_bank :
      String
      → PollOperationInput
      → PendingOperationSession
      → Store
      → Outcome PollRaise PollOperationResult × Store
  unfolding cap_session_expires_at update
  poll_bank operation_id request session store =
      resume_at operation_id request session store (get_by_blz request.blz)

  abbrev pub final_reply : String → PendingOperationSession → PollOperationResult
  final_reply operation_id session = record (bare session.status operation_id) {
    operation_type = some session.operation_type;
    result_payload = session.result_payload;
    failure_reason = session.failure_reason;
  }

  -- From the consumer and the session under the id on.
  abbrev pub poll_session :
      String
      → PollOperationInput
      → String
      → Option PendingOperationSession
      → Store
      → Outcome PollRaise PollOperationResult × Store
  poll_session operation_id request consumer_id none store = (ok (bare expired operation_id), store)
  poll_session operation_id request consumer_id (some session) store =
      if not (str_eq session.consumer_id consumer_id)
      then (ok (bare expired operation_id), store)
      else if is_pending session.status
      then poll_bank operation_id request session store
      else (ok (final_reply operation_id session), store)

  abbrev pub authenticated_poll :
      String
      → PollOperationInput
      → Store
      → Outcome PollRaise String
      → Outcome PollRaise PollOperationResult × Store
  authenticated_poll operation_id request store (raised e) = (raised e, store)
  authenticated_poll operation_id request store (ok consumer_id) =
      poll_session operation_id request consumer_id (get operation_id store) store

  unfoldable pub poll_operation :
      String → PollOperationInput → String → Store → Outcome PollRaise PollOperationResult × Store
  unfolding authenticate get poll_bank
  poll_operation operation_id request presented_key store =
      authenticated_poll operation_id request store (authenticate presented_key).0
