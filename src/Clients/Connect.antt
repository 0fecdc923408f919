-- ===== src/Clients/Connect.antt =====
-- fints/support/connection.py: `FinTSConnectionHelper`, which opens a dialog for the body of a `with`
-- block and closes what it opened.
pub mod Closes
use geldstrom.Prelude.{
  ℕ, Bool, true, false, List, [], ◌∷◌, Option, none, some, String, str_eq, leb, if◌then◌else◌,
  Outcome, ok, raised,
}
use geldstrom.Segments.{Segment, segment, hksyn3, hisyn4, header}
use geldstrom.Responses.{Processed, find_raw_first}
use geldstrom.Parameters.{ParameterStore, empty_store}
use geldstrom.Tan.{
  TanStrategy, no_tan, decoupled, ChallengeHandler, find_highest_hitans, get_hktan_class,
  make_hktan, given,
}
use geldstrom.Dialog.{
  Dialog, DialogConfig, DialogRaise, tan_pending, Connection, initialize, end_dialog,
}
use geldstrom.Dialog.Envelope.{Auth, plain_segment}
use geldstrom.Dialog.Resume.{DialogSnapshot, resume, default_language}
use geldstrom.Clients.{
  GatewayCredentials, FinTsSessionState, ClientRaise, dialog_raise, no_system_id, unreadable_data,
  BlobCodec, World, open_connection, close_connection, at_link, ConnectionContext, ConnectRaise,
  tan_waits, failed, country_alpha_to_numeric, lookup_or, or_text,
}

-- `SYSTEM_ID_UNASSIGNED`
abbrev pub unassigned : String
unassigned = "0"

-- HKSYN3(synchronization_mode=SynchronizationMode.NEW_SYSTEM_ID)
abbrev pub hksyn : Segment
hksyn = plain_segment "HKSYN" 3 (hksyn3 0)

-- extra_segments or [HKSYN3(…)]
abbrev pub or_hksyn : List Segment → List Segment
or_hksyn [] = hksyn ∷ []
or_hksyn (s ∷ ss) = s ∷ ss

abbrev pub system_id_of : Option FinTsSessionState → String
system_id_of none = unassigned
system_id_of (some state) = state.system_id

abbrev pub is_hisyn4 : Segment → Bool
is_hisyn4 (segment h (hisyn4 system_id) inner) = true
is_hisyn4 _ = false

abbrev pub system_id_in : Option Segment → Option String
system_id_in (some (segment h (hisyn4 system_id) inner)) = given system_id
system_id_in _ = none

-- `_build_hktan_for_init`
unfoldable pub build_hktan_for_init : ParameterStore → Option Segment
build_hktan_for_init parameters = elim (find_highest_hitans parameters.bpd.segments) [
  | none ↦ none
  | some hitans ↦ elim (get_hktan_class (header hitans).version) [
    | none ↦ none
    | some version ↦
        some (make_hktan version "4" (if leb 6 version then some "HKIDN" else none) none)
  ]
]

abbrev pub optional : Option Segment → List Segment
optional none = []
optional (some s) = s ∷ []

module _ (codec : BlobCodec) where
  -- `build_parameters_from_state`
  unfoldable pub build_parameters_from_state : Option FinTsSessionState → ParameterStore
  build_parameters_from_state none = empty_store
  build_parameters_from_state (some state) =
      if str_eq state.client_blob ""
      then empty_store
      else elim (codec.decompress state.client_blob) [
        | some parameters ↦ parameters
        | none ↦ empty_store
      ]

  -- `create_session_state`, from the context's system id and parameters
  unfoldable pub create_session_state :
      GatewayCredentials → String → ParameterStore → FinTsSessionState
  create_session_state creds system_id parameters = record {
    country_code = creds.country_code;
    bank_code = creds.bank_code;
    user_id = creds.user_id;
    system_id = system_id;
    client_blob = codec.compress parameters system_id;
    bpd_version = some parameters.bpd.version;
    upd_version = some parameters.upd.version;
  }

-- The helper's credentials and challenge handler, and the reference that the random source gives for
-- a signature.
module _ (creds : GatewayCredentials) (reference : String) where
  abbrev pub dialog_config : String → DialogConfig
  dialog_config system_id = record {
    country_identifier = lookup_or creds.country_code "280" country_alpha_to_numeric;
    bank_code = some creds.bank_code;
    user_id = creds.user_id;
    customer_id = or_text creds.customer_id creds.user_id;
    system_id = system_id;
    product_name = creds.product_id;
    product_version = creds.product_version;
    language = default_language;
  }

  -- A closed dialog with one signature and the envelope.
  abbrev pub new_dialog : String → ParameterStore → TanStrategy → String → Dialog
  new_dialog system_id parameters strategy security_function = record {
    config = dialog_config system_id;
    parameters = parameters;
    auth_mechanisms =
        (record {
          security_function = security_function;
          pin = creds.pin;
          security_reference = reference;
        })
        ∷ [];
    has_encryption = true;
    dialog_id = "0";
    message_number = 1;
    is_open = false;
    is_initialized = false;
    challenge_handler = none;
    tan_strategy = strategy;
  }

  -- The dialog of `_ensure_system_id` and `connect_sync`.
  abbrev pub sync_dialog : ParameterStore → Dialog
  sync_dialog parameters = new_dialog unassigned parameters no_tan "999"

  -- `_create_main_dialog`: the dialog, and the segments that its initialization adds.
  unfoldable pub create_main_dialog : String → ParameterStore → Dialog × List Segment
  unfolding build_hktan_for_init
  create_main_dialog system_id parameters = elim (given creds.tan_method) [
    | some method ↦ (
      new_dialog system_id parameters (decoupled method) method,
      optional (build_hktan_for_init parameters),
    )
    | none ↦ (new_dialog system_id parameters no_tan "999", [])
  ]

  abbrev pub context : String → ℕ → Dialog → ConnectionContext
  context system_id connection d = record {
    dialog = d;
    system_id = system_id;
    server_url = creds.server_url;
    connection = connection;
  }

  -- Nested in a section of its own for the connection to the bank.
  module _ (c : Connection) where
    open c use {Link}

    -- What is done with a dialog in a `with` block.
    abbrev pub Block : Type 0 → Type 0
    Block A = String → Dialog → Link → Outcome ClientRaise A × Dialog × Link

    -- `if dialog.is_open: try: dialog.end()`, whose exceptions are only logged.
    unfoldable pub finish : Dialog → World Link → World Link
    finish d w = if d.is_open then at_link (end_dialog c d w.link).2 w else w

    abbrev pub obtained : Outcome DialogRaise Processed → Outcome ClientRaise String
    obtained (raised e) = raised (dialog_raise e)
    obtained (ok response) = elim (system_id_in (find_raw_first response is_hisyn4)) [
      | none ↦ raised no_system_id
      | some system_id ↦ ok system_id
    ]

    -- The parameters behind `end` of the `finally`: the answer to HKEND updates them too.
    unfoldable pub parameters_after : Dialog → World Link → ParameterStore
    parameters_after d w = if d.is_open then (end_dialog c d w.link).1.parameters else d.parameters

    -- `_ensure_system_id`; the parameters are updated where they are.
    unfoldable pub ensure_system_id :
        ParameterStore → World Link → Outcome ClientRaise String × ParameterStore × World Link
    unfolding finish parameters_after
    ensure_system_id parameters w =
        let (r, d, l) = initialize c (hksyn ∷ []) none (sync_dialog parameters) w.link in
        (obtained r, parameters_after d (at_link l w), finish d (at_link l w))

    module _ {A : Type 0} where
      abbrev pub entered :
          Block A
          → String
          → Outcome DialogRaise Processed × Dialog × Link
          → Outcome ClientRaise A × Dialog × Link
      entered body system_id (raised e, d, l) = (raised (dialog_raise e), d, l)
      entered body system_id (ok response, d, l) = body system_id d l

      -- The `except` and the `finally` of `connect`.
      abbrev pub left :
          String
          → ℕ
          → Outcome ClientRaise A × Dialog × Link
          → World Link
          → Outcome ConnectRaise A × World Link
      left system_id i (raised (dialog_raise (tan_pending challenge task_reference)), d, l) w =
          (raised (tan_waits (context system_id i d) challenge task_reference), at_link l w)
      left system_id i (raised e, d, l) w =
          (raised (failed e), close_connection i (finish d (at_link l w)))
      left system_id i (ok a, d, l) w = (ok a, close_connection i (finish d (at_link l w)))

      -- The second phase of `connect`.
      abbrev pub main :
          Option ChallengeHandler
          → Block A
          → String
          → ParameterStore
          → ℕ
          → World Link
          → Outcome ConnectRaise A × World Link
      main handler body system_id parameters i w =
          let (d, extra) = create_main_dialog system_id parameters in
          left system_id i (entered body system_id (initialize c extra handler d w.link)) w

      -- The first phase, behind `_ensure_system_id`.
      abbrev pub synchronized :
          Option ChallengeHandler
          → Block A
          → ℕ
          → Outcome ClientRaise String × ParameterStore × World Link
          → Outcome ConnectRaise A × World Link
      synchronized handler body i (raised e, parameters, w) = (raised (failed e), w)
      synchronized handler body i (ok system_id, parameters, w) =
          let (j, w') = open_connection (close_connection i w) in
          main handler body system_id parameters j w'

      unfoldable pub connect :
          BlobCodec
          → Option ChallengeHandler
          → Option FinTsSessionState
          → Block A
          → World Link
          → Outcome ConnectRaise A × World Link
      unfolding build_parameters_from_state create_main_dialog ensure_system_id finish
      connect codec handler state body w =
          let (i, w') = open_connection w in
          let parameters = build_parameters_from_state codec state in
          if str_eq (system_id_of state) unassigned
          then synchronized handler body i (ensure_system_id parameters w')
          else main handler body (system_id_of state) parameters i w'

      abbrev pub closed_after :
          ℕ
          → Outcome ClientRaise A × Dialog × Link
          → World Link
          → Outcome ClientRaise A × World Link
      closed_after i (r, d, l) w = (r, close_connection i (finish d (at_link l w)))

      unfoldable pub connect_sync :
          List Segment → Block A → World Link → Outcome ClientRaise A × World Link
      unfolding finish
      connect_sync extra body w =
          let (i, w') = open_connection w in
          closed_after i
            (entered body unassigned
              (initialize c (or_hksyn extra) none (sync_dialog empty_store) w'.link))
            w'

    -- `resume_for_polling`, from the state that is read from the snapshot, or none where that raises.
    unfoldable pub resume_for_polling :
        BlobCodec
        → DialogSnapshot
        → Option FinTsSessionState
        → String
        → World Link
        → Outcome ClientRaise ConnectionContext × World Link
    unfolding build_parameters_from_state
    resume_for_polling codec s none server_url w = (raised unreadable_data, w)
    resume_for_polling codec s (some state) server_url w =
        let (i, w') = open_connection w in
        (
          ok (record {
            dialog = resume s (build_parameters_from_state codec (some state)) true (
                (record {
                  security_function = s.security_function;
                  pin = creds.pin;
                  security_reference = reference;
                })
                ∷ []);
            system_id = s.system_id;
            server_url = server_url;
            connection = i;
          }),
          w',
        )
