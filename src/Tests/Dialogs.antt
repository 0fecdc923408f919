-- ===== src/Tests/Dialogs.antt =====
-- A dialog with a bank that answers every message, and theorems on its calls.
use geldstrom.Prelude.{◌≡◌, refl, true, false, List, [], ◌∷◌, none, some, ok}
use geldstrom.Segments.{hnhbk3, other, of_list}
use geldstrom.Parameters.{empty_store}
use geldstrom.Tan.{decoupled}
use geldstrom.Dialog.{Dialog, DialogConfig, Connection, initialize, end_dialog}
use geldstrom.Dialog.Envelope.{plain_segment}
use geldstrom.Dialog.Lifecycle.{AfterInitialize, initialize-closed, end_dialog-closes}
use geldstrom.Dialog.Session.{Request, initializes, sends, ends, run}
use geldstrom.Dialog.Sequences.{NotBehind, run-NotBehind, Consecutive, run-Consecutive, logging}
use geldstrom.Dialog.Resume.{snapshot, resume, resume-snapshot}

abbrev a_config : DialogConfig
a_config = record {
  country_identifier = "280";
  bank_code = some "12030000";
  user_id = "user";
  customer_id = "customer";
  system_id = "0";
  product_name = "geldstrom";
  product_version = "1";
  language = "1";
}

abbrev closed_dialog : Dialog
closed_dialog = record {
  config = a_config;
  parameters = empty_store;
  auth_mechanisms = [];
  has_encryption = true;
  dialog_id = "0";
  message_number = 1;
  is_open = false;
  is_initialized = false;
  challenge_handler = none;
  tan_strategy = decoupled "946";
}

abbrev pub open_dialog : Dialog
open_dialog = record closed_dialog {
  dialog_id = "D1";
  message_number = 2;
  is_open = true;
  is_initialized = true;
}

-- A bank that answers each message with its dialog id.
abbrev a_connection : Connection
a_connection = record {
  Link = Unit {0};
  exchange = λ m l. (ok (of_list (plain_segment "HNHBK" 3 (hnhbk3 "D1" 1) ∷ [])), l);
}

abbrev some_calls : List Request
some_calls =
    initializes [] none ∷ sends (plain_segment "HKSAL" 7 (other none) ∷ []) none ∷ ends ∷ []

initialize-closed_example :
    AfterInitialize a_connection (initialize a_connection [] none closed_dialog tt)
initialize-closed_example = initialize-closed a_connection [] none closed_dialog tt refl

end_dialog-closes_example : ((end_dialog a_connection open_dialog tt).1).is_open ≡ false
end_dialog-closes_example = end_dialog-closes a_connection open_dialog tt

run-NotBehind_example :
    NotBehind closed_dialog (run a_connection (λ t. t) some_calls closed_dialog tt).0
run-NotBehind_example = run-NotBehind a_connection (λ t. t) some_calls closed_dialog tt

run-Consecutive_example :
    Consecutive 1
      (run (logging a_connection) (λ t. t) some_calls closed_dialog (tt, [])).1.1
      (run (logging a_connection) (λ t. t) some_calls closed_dialog (tt, [])).0.message_number
run-Consecutive_example = run-Consecutive a_connection (λ t. t) some_calls closed_dialog tt

resume-snapshot_example :
    resume (snapshot open_dialog) empty_store true []
    ≡ record open_dialog { challenge_handler = none }
resume-snapshot_example = resume-snapshot open_dialog "946" refl refl refl refl (λ e. cc e)
