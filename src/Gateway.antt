-- ===== src/Gateway.antt =====
-- apps/gateway: the operation sessions of the gateway and their states.
pub mod Dict
pub mod Sessions
pub mod Poll
pub mod RateLimit
pub mod Iban
pub mod Fetch
pub mod Connector
use geldstrom.Prelude.{
  ℕ, ◌+◌, Bool, true, false, ◌&&◌, ◌||◌, not, Option, none, some, String, str_eq, leb,
  if◌then◌else◌, Outcome, ok, raised,
}

-- `OperationStatus`
pub data OperationStatus : Type 0 where
  pending_confirmation completed failed expired : OperationStatus

-- `OperationType`
pub data OperationType : Type 0 where
  accounts balances transactions tan_methods : OperationType

-- `PendingOperationSession`; `protocol` has one value. A time is a number of microseconds, bytes and a
-- payload, which are only passed on, are texts.
pub record PendingOperationSession : Type 0 where
  pub operation_id : String
  pub consumer_id : String
  pub operation_type : OperationType
  pub session_state : Option String
  pub status : OperationStatus
  pub created_at : ℕ
  pub expires_at : ℕ
  pub last_polled_at : Option ℕ
  pub result_payload : Option String
  pub failure_reason : Option String

-- `ResumeResult`
pub record ResumeResult : Type 0 where
  pub status : OperationStatus
  pub operation_type : Option OperationType
  pub session_state : String
  pub result_payload : Option String
  pub expires_at : Option ℕ
  pub failure_reason : Option String

-- What the validators of the models raise, by message.
pub data DomainError : Type 0 where
  blank_operation_id no_session_state expires_too_early no_result_payload no_failure_reason :
      DomainError
  pending_with_payload no_expires_at : DomainError

-- bool(text), of an optional text
abbrev pub is_given : Option String → Bool
is_given none = false
is_given (some t) = not (str_eq t "")

abbrev pub is_none {ℓ} : {A : Type ℓ} → Option A → Bool
is_none none = true
is_none (some a) = false

abbrev pub is_pending : OperationStatus → Bool
is_pending pending_confirmation = true
is_pending _ = false

abbrev pub is_completed : OperationStatus → Bool
is_completed completed = true
is_completed _ = false

abbrev pub is_failed : OperationStatus → Bool
is_failed failed = true
is_failed _ = false

-- `PendingOperationSession._validate`; `is_blank` is `not text.strip()`.
unfoldable pub validate_session :
    (String → Bool) → PendingOperationSession → Outcome DomainError (Unit {0})
validate_session is_blank s =
    if is_blank s.operation_id
    then raised blank_operation_id
    else if is_pending s.status && not (is_given s.session_state)
    then raised no_session_state
    else if leb s.expires_at s.created_at
    then raised expires_too_early
    else if is_completed s.status && is_none s.result_payload
    then raised no_result_payload
    else if is_failed s.status && not (is_given s.failure_reason)
    then raised no_failure_reason
    else if is_pending s.status && not (is_none s.result_payload)
    then raised pending_with_payload
    else ok tt

-- `_validate_connector_result`
unfoldable pub validate_connector_result :
    OperationStatus → String → Option ℕ → Option String → Outcome DomainError (Unit {0})
validate_connector_result status session_state expires_at failure_reason =
    if is_pending status && str_eq session_state ""
    then raised no_session_state
    else if is_pending status && is_none expires_at
    then raised no_expires_at
    else if is_failed status && not (is_given failure_reason)
    then raised no_failure_reason
    else ok tt

-- Behind `_validate_connector_result`.
abbrev pub resume_checked :
    ResumeResult → Outcome DomainError (Unit {0}) → Outcome DomainError (Unit {0})
resume_checked r (raised e) = raised e
resume_checked r (ok u) =
    if is_completed r.status && is_none r.result_payload then raised no_result_payload else ok tt

-- `ResumeResult._validate`
unfoldable pub validate_resume : ResumeResult → Outcome DomainError (Unit {0})
unfolding validate_connector_result
validate_resume r =
    resume_checked r
      (validate_connector_result r.status r.session_state r.expires_at r.failure_reason)

-- `cap_session_expires_at` of application/common/time.py, the life in microseconds.
unfoldable pub cap_session_expires_at : Option ℕ → ℕ → ℕ → ℕ
cap_session_expires_at none now ttl = now + ttl
cap_session_expires_at (some t) now ttl = if leb t (now + ttl) then t else now + ttl
