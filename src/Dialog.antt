-- ===== src/Dialog.antt =====
-- fints/dialog/core.py: a dialog with the bank as a record, and its methods as actions on the dialog
-- and the connection.
pub mod Envelope
pub mod Numbers
pub mod Lifecycle
pub mod Session
pub mod Sequences
pub mod Resume
use geldstrom.Prelude.{
  ℕ, ◌+◌, Bool, true, false, not, ◌&&◌, ◌||◌, List, [], ◌∷◌, ◌++◌, Option, none, some, String,
  str_eq, if◌then◌else◌, Outcome, ok, raised,
}
use text.Mathlib.Text.{find?}
use geldstrom.Segments.{
  Header, Body, hkidn2, hkvvb3, hkend1, hktan, Segment, segment, Segments, nil, header,
}
use geldstrom.Responses.{
  DialogResponse, Processed, process, get_response_by_code, has_errors, first_error, all_responses,
}
use geldstrom.Parameters.{ParameterStore, update_from_response}
use geldstrom.Tan.{
  TanStrategy, prepare_segments, handle_response, ChallengeHandler, TanRaise, pending,
  cancelled_by_user, handler_error, find_highest_hitans, get_hktan_class, make_hktan,
}
use geldstrom.Dialog.Envelope.{Auth, build_message, plain_segment}

pub record DialogConfig : Type 0 where
  pub country_identifier : String
  pub bank_code : Option String
  pub user_id : String
  pub customer_id : String
  pub system_id : String
  pub product_name : String
  pub product_version : String
  pub language : String

-- `Dialog` with its `DialogState`.
pub record Dialog : Type 0 where
  pub config : DialogConfig
  pub parameters : ParameterStore
  pub auth_mechanisms : List Auth
  pub has_encryption : Bool
  pub dialog_id : String
  pub message_number : ℕ
  pub is_open : Bool
  pub is_initialized : Bool
  pub challenge_handler : Option ChallengeHandler
  pub tan_strategy : TanStrategy

-- What `HTTPSDialogConnection.send` raises: `FinTSConnectionError`, or `ValueError` from the parser.
pub data LinkRaise : Type 0 where
  connection_failed unreadable : LinkRaise

pub data DialogRaise : Type 0 where
  already_open not_open : DialogRaise
  link : LinkRaise → DialogRaise
  init_failed : DialogRaise
  tan_pending : Segment → String → DialogRaise
  tan_refused : DialogRaise
  no_hitans no_hktan_version : DialogRaise
  tan_expired tan_rejected : DialogRaise

-- The connection and the bank behind it: what comes back for a message.
pub record Connection : Type 1 where
  pub Link : Type 0
  pub exchange : List Segment → Link → Outcome LinkRaise Segments × Link

abbrev pub tan_raise : TanRaise → DialogRaise
tan_raise (pending challenge reference) = tan_pending challenge reference
tan_raise cancelled_by_user = tan_refused
tan_raise handler_error = tan_refused

-- `SystemIDStatus.ID_NECESSARY` is true.
abbrev pub init_segments : Dialog → List Segment
init_segments d =
    plain_segment "HKIDN" 2 (
      hkidn2 d.config.bank_code d.config.customer_id d.config.system_id
        (not (str_eq d.config.customer_id "9999999999")))
    ∷ plain_segment "HKVVB" 3 (
        hkvvb3 d.parameters.bpd.version d.parameters.upd.version d.config.language
          d.config.product_name d.config.product_version)
    ∷ []

-- What `_send_segments` does with an answer.
unfoldable pub receive : Dialog → Processed → Dialog
unfolding update_from_response
receive d p = record d {
  message_number = d.message_number + 1;
  parameters = update_from_response d.parameters p;
  dialog_id = if str_eq d.dialog_id "0" then p.dialog_id else d.dialog_id;
}

-- bool(hitans) and the class of `build_status_hktan`
unfoldable pub build_status_hktan : Segments → String → Outcome DialogRaise Segment
build_status_hktan bpd_segments task_reference = elim (find_highest_hitans bpd_segments) [
  | none ↦ raised no_hitans
  | some hitans ↦ elim (get_hktan_class (header hitans).version) [
    | none ↦ raised no_hktan_version
    | some version ↦ ok (make_hktan version "S" none (some task_reference))
  ]
]

module _ (c : Connection) where
  open c use {Link, exchange}

  abbrev pub Action : Type 0 → Type 0
  Action A = Dialog → Link → Outcome DialogRaise A × Dialog × Link

  unfoldable pub received :
      Dialog → Outcome LinkRaise Segments × Link → Outcome DialogRaise Processed × Dialog × Link
  received d (raised e, l) = (raised (link e), d, l)
  received d (ok raw, l) = (ok (process raw), receive d (process raw), l)

  unfoldable pub send_segments : List Segment → Action Processed
  unfolding received build_message
  send_segments segments d l = received d (
      exchange
        (build_message d.auth_mechanisms d.has_encryption d.dialog_id d.message_number segments) l)

  -- Behind `_send_segments` in `send` and `initialize`: the strategy's answer, or the response.
  abbrev pub dispatched : Option Processed → Processed → Processed
  dispatched none response = response
  dispatched (some final) response = final

  abbrev pub strategy :
      TanStrategy → Option ChallengeHandler → Processed → Outcome DialogRaise Processed
  strategy s handler response = elim (handle_response s response handler) [
    | ok final ↦ ok (dispatched final response)
    | raised e ↦ raised (tan_raise e)
  ]

  abbrev pub handled :
      Option ChallengeHandler
      → Outcome DialogRaise Processed × Dialog × Link
      → Outcome DialogRaise Processed × Dialog × Link
  handled handler (raised e, d, l) = (raised e, d, l)
  handled handler (ok response, d, l) = (strategy d.tan_strategy handler response, d, l)

  -- `isinstance(e, (FinTSDialogError, TimeoutError, ValueError))`, for what can be raised there.
  abbrev pub init_raise : DialogRaise → DialogRaise
  init_raise (link connection_failed) = init_failed
  init_raise e = e

  -- The `except` clauses of `initialize`.
  abbrev pub settled :
      Outcome DialogRaise Processed × Dialog × Link → Outcome DialogRaise Processed × Dialog × Link
  settled (ok response, d, l) = (ok response, d, l)
  settled (raised (tan_pending challenge reference), d, l) =
      (raised (tan_pending challenge reference), d, l)
  settled (raised e, d, l) = (raised (init_raise e), record d { is_open = false }, l)

  abbrev pub initialized :
      Outcome DialogRaise Processed × Dialog × Link → Outcome DialogRaise Processed × Dialog × Link
  initialized (raised e, d, l) = (raised e, d, l)
  initialized (ok response, d, l) = (
    ok response,
    record d {
      is_initialized = true;
      dialog_id = if str_eq d.dialog_id "0" then response.dialog_id else d.dialog_id;
    },
    l,
  )

  unfoldable pub initialize : List Segment → Option ChallengeHandler → Action Processed
  unfolding send_segments
  initialize extra handler d l =
      if d.is_open
      then (raised already_open, d, l)
      else settled (
          handled handler (
            initialized (
              send_segments (init_segments d ++ extra)
                (record d { challenge_handler = handler; is_open = true }) l)))

  -- challenge_handler or self._challenge_handler
  abbrev pub effective : Option ChallengeHandler → Option ChallengeHandler → Option ChallengeHandler
  effective none stored = stored
  effective (some h) stored = some h

  unfoldable pub send : List Segment → Option ChallengeHandler → Action Processed
  unfolding send_segments
  send segments handler d l =
      if not d.is_open
      then (raised not_open, d, l)
      else handled (effective handler d.challenge_handler)
          (send_segments (prepare_segments d.tan_strategy segments d.parameters) d l)

  unfoldable pub send_without_tan : List Segment → Action Processed
  unfolding send_segments
  send_without_tan segments d l =
      if not d.is_open then (raised not_open, d, l) else send_segments segments d l

  -- `"Nachricht enthält Fehler" in t or "message" in t.lower()`; `lower` is Python's.
  abbrev pub is_expiry : (String → String) → String → Bool
  is_expiry lower t = elim (find? t "Nachricht enthält Fehler") [
    | some i ↦ true
    | none ↦ elim (find? (lower t) "message") [ some i ↦ true | none ↦ false ]
  ]

  abbrev pub error_text : Option DialogResponse → String
  error_text none = "Unknown error"
  error_text (some r) = r.text

  abbrev pub poll_answer : (String → String) → Processed → Outcome DialogRaise (Option Processed)
  poll_answer lower response = elim (get_response_by_code response "3956") [
    | some waiting ↦ ok none
    | none ↦
        if has_errors response
        then (if is_expiry lower (error_text (first_error (all_responses response)))
            then raised tan_expired
            else raised tan_rejected)
        else ok (some response)
  ]

  abbrev pub polled :
      (String → String)
      → Outcome DialogRaise Processed × Dialog × Link
      → Outcome DialogRaise (Option Processed) × Dialog × Link
  polled lower (raised e, d, l) = (raised e, d, l)
  polled lower (ok response, d, l) = (poll_answer lower response, d, l)

  unfoldable pub poll_decoupled_once : (String → String) → String → Action (Option Processed)
  unfolding send_segments build_status_hktan
  poll_decoupled_once lower task_reference d l =
      elim (build_status_hktan d.parameters.bpd.segments task_reference) [
        | raised e ↦ (raised e, d, l)
        | ok status ↦ polled lower (send_segments (status ∷ []) d l)
      ]

  -- The `finally` of `end`, which returns nothing.
  abbrev pub ended :
      Outcome DialogRaise Processed × Dialog × Link → Outcome DialogRaise (Unit {0}) × Dialog × Link
  ended (ok response, d, l) = (ok tt, record d { is_open = false }, l)
  ended (raised e, d, l) = (raised e, record d { is_open = false }, l)

  -- `end`
  unfoldable pub end_dialog : Action (Unit {0})
  unfolding send_segments
  end_dialog d l =
      if not d.is_open
      then (ok tt, d, l)
      else ended (send_segments (plain_segment "HKEND" 1 (hkend1 d.dialog_id) ∷ []) d l)
