-- ===== src/Gateway/Poll/Status.antt =====
-- application/banking/queries/get_operation_status.py: the state of an operation without a poll of the
-- bank.
use geldstrom.Prelude.{
  not, Option, none, some, String, str_eq, leb, if◌then◌else◌, Outcome, ok, raised,
}
use geldstrom.Gateway.{
  OperationStatus, PendingOperationSession, pending_confirmation, completed, failed, expired,
}
use geldstrom.Gateway.Sessions.{Store, get}
use geldstrom.Gateway.Poll.{
  Services, PollRaise, operation_not_found, forbidden, PollOperationResult, bare, authenticate,
}

module _ (services : Services) where
  open services use {now}

  abbrev pub shown : OperationStatus → String → PendingOperationSession → PollOperationResult
  shown status operation_id session = record (bare status operation_id) {
    operation_type = some session.operation_type;
    expires_at = some session.expires_at;
  }

  abbrev pub status_reply : OperationStatus → String → PendingOperationSession → PollOperationResult
  status_reply pending_confirmation operation_id session =
      if leb session.expires_at now
      then shown expired operation_id session
      else shown pending_confirmation operation_id session
  status_reply completed operation_id session = record (shown completed operation_id session) {
    result_payload = session.result_payload;
  }
  status_reply failed operation_id session = record (shown failed operation_id session) {
    failure_reason = session.failure_reason;
  }
  status_reply expired operation_id session = shown expired operation_id session

  -- `OperationStatusEnvelope` has the fields of `PollOperationResult`.
  abbrev pub status_of :
      String → String → Option PendingOperationSession → Outcome PollRaise PollOperationResult
  status_of operation_id consumer_id none = raised operation_not_found
  status_of operation_id consumer_id (some session) =
      if not (str_eq session.consumer_id consumer_id)
      then raised forbidden
      else ok (status_reply session.status operation_id session)

  abbrev pub authenticated_status :
      String → Store → Outcome PollRaise String → Outcome PollRaise PollOperationResult
  authenticated_status operation_id store (raised e) = raised e
  authenticated_status operation_id store (ok consumer_id) =
      status_of operation_id consumer_id (get operation_id store)

  unfoldable pub get_operation_status :
      String → String → Store → Outcome PollRaise PollOperationResult
  unfolding authenticate get
  get_operation_status operation_id presented_key store =
      authenticated_status operation_id store (authenticate services presented_key).0
