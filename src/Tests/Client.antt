-- ===== src/Tests/Client.antt =====
-- A client of a bank that answers every message with its dialog id and a system id.
use geldstrom.Prelude.{
  ◌≡◌, ◌≢◌, str_eq, ◌⊎◌, refl, true, false, [], ◌∷◌, none, some, String, ok, raised, arith, Outcome,
}
use geldstrom.Segments.{hnhbk3, hisyn4, other, of_list}
use geldstrom.Responses.{Processed, get_response_by_code, find_code}
use geldstrom.Parameters.{empty_store}
use geldstrom.Dialog.{
  Dialog, Connection, link, connection_failed, poll_decoupled_once, build_status_hktan,
  send_segments,
}
use geldstrom.Dialog.Resume.{snapshot, resume}
use geldstrom.Tan.{find_highest_hitans, get_hktan_class}
use geldstrom.Dialog.Envelope.{plain_segment, build_message}
use geldstrom.Clients.{
  GatewayCredentials, FinTsSessionState, ClientRaise, BlobCodec, World, open_connection,
}
use geldstrom.Clients.Connect.{
  connect, unassigned, system_id_of, ensure_system_id, build_parameters_from_state,
  resume_for_polling,
}
use geldstrom.Clients.Connect.Closes.{Balances, LeftOpen, connect-Balances}
use geldstrom.Clients.Fetching.{Operations, TransactionFeed, SepaAccount, TransactionEntry}
use geldstrom.Clients.Fints3.{Client, OperationMeta}
use geldstrom.Clients.Decoupled.{plain_meta}
use geldstrom.Clients.Decoupled.Completion.{account_id_of, continuation, complete_transactions}
use geldstrom.Clients.Decoupled.Completion.Merge.{Extends, complete_transactions-Extends}
use geldstrom.Clients.Decoupled.Connections.Resumes.{Leaves, read_poll, resume_and_poll-Leaves}
use geldstrom.Tests.Dialogs.{open_dialog}
use geldstrom.Clients.Decoupled.Polling.{
  DecoupledSessionSnapshot, Formats, cleanup_pending, resume_and_poll,
}
use geldstrom.Clients.Decoupled.Connections.{IsHeld}
use geldstrom.Clients.Decoupled.Connections.Starts.{connects, start}
use geldstrom.Clients.Decoupled.Connections.Sessions.{begun, started, cleaned, Calls-IsHeld}

abbrev pub a_bank : Connection
a_bank = record {
  Link = Unit {0};
  exchange = λ m l. (
    ok (
        of_list (
          plain_segment "HNHBK" 3 (hnhbk3 "D1" 1)
          ∷ plain_segment "HISYN" 4 (hisyn4 (some "S1"))
          ∷ [])),
    l,
  );
}

abbrev pub a_codec : BlobCodec
a_codec = record {
  compress = λ parameters system_id. "blob";
  decompress = λ blob. some empty_store;
}

abbrev pub some_credentials : GatewayCredentials
some_credentials = record {
  country_code = "DE";
  bank_code = "12030000";
  server_url = "https://bank";
  user_id = "user";
  pin = "pin";
  customer_id = none;
  tan_method = some "946";
  product_id = "geldstrom";
  product_version = "1";
}

abbrev pub a_state : FinTsSessionState
a_state = record {
  country_code = "DE";
  bank_code = "12030000";
  user_id = "user";
  system_id = "S1";
  client_blob = "blob";
  bpd_version = some 0;
  upd_version = some 0;
}

-- Two connections are open.
abbrev pub a_world : World (Unit {0})
a_world = record { link = tt; live = 1 ∷ 0 ∷ []; next = 2 }

abbrev pub a_feed : TransactionFeed
a_feed = record { account_id = "1:0"; entries = []; start_date = 1; end_date = 1; has_more = false }

abbrev pub some_operations : Operations a_bank
some_operations = record {
  fetch_sepa_accounts = λ d l. (ok [], d, l);
  discover = λ d l. (ok [], d, l);
  balance_of = λ i sepa d l. (ok "0", d, l);
  mt940_fetch = λ range d l. (ok a_feed, d, l);
  camt_fetch = λ range d l. (ok a_feed, d, l);
  mt940_approved = λ response i. a_feed;
  camt_approved = λ response i. a_feed;
  methods_of = λ s. [];
  today = 738000;
}

abbrev pub some_formats : Formats
some_formats = record {
  blobs = a_codec;
  serialize_state = λ state. "state";
  deserialize_state = λ t. some a_state;
  serialize_snapshot = λ s. "snapshot";
  deserialize_snapshot = λ t. none;
  is_dialog = λ s. true;
  invalid_snapshot = "Invalid session snapshot";
  lower = λ t. t;
  message_of = λ e. "error";
}

abbrev pub a_client : Client
a_client = record { session_state = some a_state; accounts = []; connected = false; pending = none }

-- What a block makes of the dialog: nothing.
abbrev idle : String → Dialog → Unit {0} → Outcome ClientRaise String × Dialog × Unit {0}
idle system_id d l = (ok system_id, d, l)

connect-Balances_example :
    let left = connect some_credentials "ref" a_bank a_codec none none idle a_world in
    Balances some_credentials "ref" a_bank 2 (1 ∷ 0 ∷ []) left
    ⊎ ((system_id_of none ≡ unassigned)
        × LeftOpen some_credentials "ref" a_bank 2
            (1 ∷ 0 ∷ [])
            (ensure_system_id some_credentials "ref" a_bank
              (build_parameters_from_state a_codec none)
              (open_connection a_world).1)
            left)
connect-Balances_example =
    connect-Balances some_credentials "ref" a_bank a_codec none none idle a_world
      (omega arith, (omega arith, tt))

a_client-IsHeld : IsHeld a_bank (1 ∷ 0 ∷ []) a_client a_world
a_client-IsHeld = record {
  none_pending = refl;
  live = refl;
  numbered = (omega arith, (omega arith, tt));
  assigned = refl;
}

Calls-IsHeld_example :
    let (client, w) =
      start a_bank a_codec some_credentials "ref" none some_operations connects a_client a_world in
    let (client', w') =
      cleanup_pending a_bank some_formats some_credentials "ref" some_operations client w in
    IsHeld a_bank (1 ∷ 0 ∷ []) client' w'
Calls-IsHeld_example =
    Calls-IsHeld a_bank some_formats some_credentials "ref" none some_operations (1 ∷ 0 ∷ [])
      a_client-IsHeld (cleaned (started connects refl begun))

-- An answer that approves an operation and holds a transaction.
abbrev an_entry : TransactionEntry
an_entry = record { entry_id = "1"; booking_date = 738000; details = "" }

abbrev full_feed : TransactionFeed
full_feed = record a_feed { entries = an_entry ∷ [] }

abbrev an_account : SepaAccount
an_account = record { iban = "DE"; bic = none; accountnumber = "1"; subaccount = ""; blz = none }

abbrev approving_operations : Operations a_bank
approving_operations = record some_operations {
  fetch_sepa_accounts = λ d l. (ok (an_account ∷ []), d, l);
  mt940_approved = λ response i. full_feed;
}

abbrev pub some_meta : OperationMeta
some_meta = record (plain_meta a_client) { account_id = some "1:0" }

abbrev a_response : Processed
a_response = record {
  dialog_id = "D1";
  message_number = 3;
  global_responses = (record { code = "3040"; text = "more"; parameters = "T2" ∷ [] }) ∷ [];
  segment_responses = [];
  bpd_version = none;
  upd_version = none;
  bpd_segments = none;
  upd_segments = none;
  bpa = none;
  upa = none;
  raw_response = none;
}

touchdown_given : continuation a_response ≢ some ""
unfolding continuation get_response_by_code find_code
touchdown_given = λ q. cc q

account_known : str_eq (account_id_of some_meta []) "" ≡ false
unfolding account_id_of
account_known = refl

complete_transactions-Extends_example :
    Extends a_bank a_codec some_credentials approving_operations full_feed
      (continuation a_response)
      (complete_transactions a_bank a_codec some_credentials approving_operations "S1" some_meta
        true a_response a_client open_dialog tt)
unfolding account_id_of
complete_transactions-Extends_example =
    complete_transactions-Extends a_bank a_codec some_credentials approving_operations "S1"
      some_meta a_response a_client open_dialog tt account_known refl touchdown_given

-- A bank that cannot be reached.
abbrev no_bank : Connection
no_bank = record { Link = Unit {0}; exchange = λ m l. (raised connection_failed, l) }

abbrev no_operations : Operations no_bank
no_operations = record {
  fetch_sepa_accounts = λ d l. (ok [], d, l);
  discover = λ d l. (ok [], d, l);
  balance_of = λ i sepa d l. (ok "0", d, l);
  mt940_fetch = λ range d l. (ok a_feed, d, l);
  camt_fetch = λ range d l. (ok a_feed, d, l);
  mt940_approved = λ response i. a_feed;
  camt_approved = λ response i. a_feed;
  methods_of = λ s. [];
  today = 1;
}

-- The snapshot of a dialog whose bank knows HKTAN 7.
abbrev hitans_codec : BlobCodec
hitans_codec = record a_codec {
  decompress = λ blob. some (record empty_store {
    bpd = record {
      version = 78;
      bank_name = none;
      segments = of_list (plain_segment "HITANS" 7 (other none) ∷ []);
      bpa = none;
    };
  });
}

abbrev polled_snapshot : DecoupledSessionSnapshot
polled_snapshot = record {
  dialog_snapshot = snapshot open_dialog;
  task_reference = "T1";
  fints_session_state = "state";
  server_url = "https://bank";
  operation_type = "accounts";
  operation_meta = some_meta;
}

abbrev read_formats : Formats
read_formats = record some_formats {
  blobs = hitans_codec;
  deserialize_snapshot = λ t. some polled_snapshot;
}

-- The poll of this snapshot is not answered, so that its connection stays open.
poll_not_answered :
    read_poll no_bank read_formats some_credentials "ref" no_operations
      (some polled_snapshot)
      a_world
    ≡ some (raised (link connection_failed))
unfolding resume_for_polling build_parameters_from_state poll_decoupled_once build_status_hktan
    send_segments build_message find_highest_hitans resume get_hktan_class
poll_not_answered = refl

resume_and_poll-Leaves_example :
    Leaves no_bank read_formats some_credentials "ref" no_operations
      (read_poll no_bank read_formats some_credentials "ref" no_operations
        (some polled_snapshot)
        a_world)
      2
      (1 ∷ 0 ∷ [])
      (resume_and_poll no_bank read_formats some_credentials "ref" no_operations "snapshot" a_client
        a_world)
resume_and_poll-Leaves_example =
    resume_and_poll-Leaves no_bank read_formats some_credentials "ref" no_operations "snapshot"
      a_client a_world (omega arith, (omega arith, tt))
