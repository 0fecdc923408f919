-- ===== src/Clients/Decoupled/Polling.antt =====
-- The polls of clients/fints3_decoupled.py: of the pending challenge, or of a snapshot that was stored
-- elsewhere, and what releases a challenge.
use geldstrom.Prelude.{
  ℕ, Bool, true, false, Option, none, some, String, Outcome, ok, raised, if◌then◌else◌,
}
use geldstrom.Responses.{Processed}
use geldstrom.Dialog.{
  Dialog, DialogRaise, already_open, not_open, link, connection_failed, unreadable, init_failed,
  tan_pending, tan_refused, no_hitans, no_hktan_version, tan_expired, tan_rejected, Connection,
  poll_decoupled_once,
}
use geldstrom.Dialog.Resume.{DialogSnapshot, snapshot}
use geldstrom.Clients.{
  GatewayCredentials, FinTsSessionState, ClientRaise, dialog_raise, unreadable_data, BlobCodec,
  World, ConnectionContext, close_connection, at_link,
}
use geldstrom.Clients.Connect.{create_session_state, finish, resume_for_polling}
use geldstrom.Clients.Fetching.{Operations}
use geldstrom.Clients.Fints3.{
  Client, PendingTan, OperationMeta, CallRaise, nothing_pending, call_failed, Method,
}
use geldstrom.Clients.Fints3
use geldstrom.Clients.Decoupled.Completion.{Payload, complete_approved_operation}

-- `DecoupledSessionSnapshot`, the dialog's snapshot as a record.
pub record DecoupledSessionSnapshot : Type 0 where
  pub dialog_snapshot : DialogSnapshot
  pub task_reference : String
  pub fints_session_state : String
  pub server_url : String
  pub operation_type : String
  pub operation_meta : OperationMeta

-- `PollResult`, by its status. A pending result has the snapshot for the next poll where there is one,
-- an approved one the operation's type where it is set.
pub data PollResult : Type 0 where
  still_pending : Option String → PollResult
  approved : Option String → Payload → PollResult
  poll_failed : String → PollResult

-- What Python's JSON and texts do for the client: the bytes of a session state and of a snapshot and
-- back, with none where that raises, whether `DialogSnapshot.from_dict` takes the dictionary that a
-- snapshot holds, `str.lower`, and `str(e)`.
pub record Formats : Type 0 where
  pub blobs : BlobCodec
  pub serialize_state : FinTsSessionState → String
  pub deserialize_state : String → Option FinTsSessionState
  pub serialize_snapshot : DecoupledSessionSnapshot → String
  pub deserialize_snapshot : String → Option DecoupledSessionSnapshot
  pub is_dialog : DialogSnapshot → Bool
  pub invalid_snapshot : String
  pub lower : String → String
  pub message_of : DialogRaise → String

-- isinstance(e, (TimeoutError, ValueError))
abbrev pub is_caught : DialogRaise → Bool
is_caught already_open = false
is_caught not_open = false
is_caught (link connection_failed) = false
is_caught (link unreadable) = true
is_caught init_failed = false
is_caught (tan_pending challenge task_reference) = false
is_caught tan_refused = true
is_caught no_hitans = true
is_caught no_hktan_version = true
is_caught tan_expired = true
is_caught tan_rejected = true

module _ (c : Connection) (formats : Formats) (creds : GatewayCredentials) (reference : String)
    (operations : Operations c) where
  open c use {Link}

  abbrev pub with_dialog : Client → PendingTan → Dialog → Client
  with_dialog client p d = record client {
    pending = some (record p { context = record p.context { dialog = d } });
  }

  abbrev pub released : Client → Client
  released client = record client { pending = none }

  -- `cleanup_pending` of the context, and `_close_ctx`
  abbrev pub close_context : ℕ → Dialog → World Link → World Link
  close_context connection d w = close_connection connection (finish creds reference c d w)

  abbrev pub cleaned_up : Option PendingTan → Client → World Link → Client × World Link
  cleaned_up none client w = (client, w)
  cleaned_up (some p) client w =
      (released client, close_context p.context.connection p.context.dialog w)

  unfoldable pub cleanup_pending : Client → World Link → Client × World Link
  unfolding finish
  cleanup_pending client w = cleaned_up client.pending client w

  -- `FinTS3ClientDecoupled.disconnect`
  unfoldable pub disconnect : Client → World Link → Client × World Link
  unfolding cleanup_pending Fints3.disconnect
  disconnect client w =
      let (client', w') = cleanup_pending client w in (Fints3.disconnect client', w')

  -- Behind an approved operation of `poll_tan`: a raise leaves the challenge pending.
  abbrev pub poll_completed :
      PendingTan
      → World Link
      → Outcome ClientRaise Payload × Client × Dialog × Link
      → Outcome CallRaise PollResult × Client × World Link
  poll_completed p w (raised e, client, d, l) =
      (raised (call_failed e), with_dialog client p d, at_link l w)
  poll_completed p w (ok payload, client, d, l) = (
    ok (approved none payload),
    released client,
    close_context p.context.connection d (at_link l w),
  )

  abbrev pub polled_tan :
      Client
      → PendingTan
      → World Link
      → Outcome DialogRaise (Option Processed) × Dialog × Link
      → Outcome CallRaise PollResult × Client × World Link
  polled_tan client p w (raised e, d, l) =
      if is_caught e
      then (
        ok (poll_failed (formats.message_of e)),
        released client,
        close_context p.context.connection d (at_link l w),
      )
      else (raised (call_failed (dialog_raise e)), with_dialog client p d, at_link l w)
  polled_tan client p w (ok none, d, l) =
      (ok (still_pending none), with_dialog client p d, at_link l w)
  polled_tan client p w (ok (some response), d, l) = poll_completed p w (
      complete_approved_operation c formats.blobs creds operations p.context.system_id
        p.operation_type p.operation_meta response client d l)

  abbrev pub poll_pending : Option PendingTan → Method c PollResult
  poll_pending none client w = (raised nothing_pending, client, w)
  poll_pending (some p) client w =
      polled_tan client p w
        (poll_decoupled_once c formats.lower p.task_reference p.context.dialog w.link)

  unfoldable pub poll_tan : Method c PollResult
  unfolding complete_approved_operation finish
  poll_tan client w = poll_pending client.pending client w

  -- The snapshot of a pending operation, of the dialog as it is.
  abbrev pub snapshot_of :
      String → Dialog → String → String → String → OperationMeta → DecoupledSessionSnapshot
  snapshot_of system_id d task_reference server_url operation_type meta = record {
    dialog_snapshot = snapshot d;
    task_reference = task_reference;
    fints_session_state =
        formats.serialize_state (create_session_state formats.blobs creds system_id d.parameters);
    server_url = server_url;
    operation_type = operation_type;
    operation_meta = meta;
  }

  -- `snapshot_pending`, which closes the connection and leaves the dialog open at the bank.
  abbrev pub snapshot_taken : Option PendingTan → Method c String
  snapshot_taken none client w = (raised nothing_pending, client, w)
  snapshot_taken (some p) client w = (
    ok (
        formats.serialize_snapshot (
          snapshot_of p.context.system_id p.context.dialog p.task_reference creds.server_url
            p.operation_type p.operation_meta)),
    released client,
    close_connection p.context.connection w,
  )

  unfoldable pub snapshot_pending : Method c String
  unfolding create_session_state
  snapshot_pending client w = snapshot_taken client.pending client w

  -- `try: data = self._complete_approved_operation(response)`, with its `finally`
  abbrev pub resume_completed :
      DecoupledSessionSnapshot
      → ConnectionContext
      → World Link
      → Outcome ClientRaise Payload × Client × Dialog × Link
      → Outcome CallRaise PollResult × Client × World Link
  resume_completed s ctx w (raised e, client, d, l) =
      (raised (call_failed e), released client, close_context ctx.connection d (at_link l w))
  resume_completed s ctx w (ok payload, client, d, l) = (
    ok (approved (some s.operation_type) payload),
    released client,
    close_context ctx.connection d (at_link l w),
  )

  abbrev pub polled_resumed :
      Client
      → DecoupledSessionSnapshot
      → ConnectionContext
      → World Link
      → Outcome DialogRaise (Option Processed) × Dialog × Link
      → Outcome CallRaise PollResult × Client × World Link
  polled_resumed client s ctx w (raised e, d, l) =
      if is_caught e
      then (
        ok (poll_failed (formats.message_of e)),
        client,
        close_context ctx.connection d (at_link l w),
      )
      else (raised (call_failed (dialog_raise e)), client, at_link l w)
  polled_resumed client s ctx w (ok none, d, l) = (
    ok (
        still_pending (
          some (
            formats.serialize_snapshot (
              snapshot_of ctx.system_id d s.task_reference s.server_url s.operation_type
                s.operation_meta)))),
    client,
    close_connection ctx.connection (at_link l w),
  )
  polled_resumed client s ctx w (ok (some response), d, l) = resume_completed s ctx w (
      complete_approved_operation c formats.blobs creds operations ctx.system_id s.operation_type
        s.operation_meta response client d l)

  abbrev pub resumed :
      Client
      → DecoupledSessionSnapshot
      → Outcome ClientRaise ConnectionContext × World Link
      → Outcome CallRaise PollResult × Client × World Link
  resumed client s (raised e, w) = (raised (call_failed e), client, w)
  resumed client s (ok ctx, w) =
      polled_resumed client s ctx w
        (poll_decoupled_once c formats.lower s.task_reference ctx.dialog w.link)

  -- `DialogSnapshot.from_dict` raises outside of the `try`.
  abbrev pub resume_valid :
      Bool
      → Client
      → World Link
      → DecoupledSessionSnapshot
      → Outcome CallRaise PollResult × Client × World Link
  resume_valid false client w s = (raised (call_failed unreadable_data), client, w)
  resume_valid true client w s = resumed client s (
      resume_for_polling creds reference c formats.blobs s.dialog_snapshot
        (formats.deserialize_state s.fints_session_state) s.server_url w)

  abbrev pub resume_read :
      Client
      → World Link
      → Option DecoupledSessionSnapshot
      → Outcome CallRaise PollResult × Client × World Link
  resume_read client w none = (ok (poll_failed formats.invalid_snapshot), client, w)
  resume_read client w (some s) = resume_valid (formats.is_dialog s.dialog_snapshot) client w s

  unfoldable pub resume_and_poll : String → Method c PollResult
  unfolding resume_for_polling complete_approved_operation create_session_state finish
  resume_and_poll bytes client w = resume_read client w (formats.deserialize_snapshot bytes)
