-- ===== src/Tests/Connector.antt =====
-- A connector whose snapshots are written as a brace and their type of operation.
use Prim.Native.String.{◌∷◌, []}
use geldstrom.Prelude.{◌≡◌, refl, false, Option, none, some, String, str_eq, List}
use geldstrom.Gateway.Dict.{str_eq-false}
use geldstrom.Clients.Decoupled.Polling.{Formats, DecoupledSessionSnapshot}
use geldstrom.Dialog.Resume.{snapshot}
use geldstrom.Gateway.{transactions}
use geldstrom.Gateway.Connector
use geldstrom.Gateway.Connector.{FinTsInstitute, Mapping, operation_type_of, resume_operation}
use geldstrom.Gateway.Connector.Sound.{IsReadable, IsSnapshotOf, IsResult, calls-IsResult}
use geldstrom.Gateway.Connector.Sound.Resume.{IsResumed, resume_operation-IsResumed}
use geldstrom.Tests.Client.{a_bank, a_world, some_operations, some_formats, some_meta}
use geldstrom.Tests.Dialogs.{open_dialog}
use geldstrom.Tests.Operations.{a_request}
use geldstrom.Tests.Fetches.{an_iban}

abbrev a_snapshot : String → DecoupledSessionSnapshot
a_snapshot operation_type = record {
  dialog_snapshot = snapshot open_dialog;
  task_reference = "T1";
  fints_session_state = "state";
  server_url = "https://bank";
  operation_type = operation_type;
  operation_meta = some_meta;
}

abbrev read_snapshot : String → Option DecoupledSessionSnapshot
read_snapshot [] = none
read_snapshot (brace ∷ operation_type) = some (a_snapshot operation_type)

abbrev readable_formats : Formats
readable_formats = record some_formats {
  serialize_snapshot = λ s. "{" ∷ s.operation_type;
  deserialize_snapshot = read_snapshot;
}

abbrev a_mapping : Mapping
a_mapping = record {
  to_account_dict = λ a. a.account_id;
  to_balance_dict = λ b. b;
  to_transaction_list = λ feed. List.[];
  to_method_dict = λ t. t.method_id;
  under_key = λ key texts. key;
  empty_dict = "{}";
  is_blank = λ t. str_eq t "";
  iban_text = λ iban. "DE89370400440532013000";
}

abbrev an_institute : FinTsInstitute
an_institute = record { blz = "12030000"; pin_tan_url = some "https://bank" }

written_nonempty :
    (s : DecoupledSessionSnapshot) → str_eq (readable_formats.serialize_snapshot s) "" ≡ false
written_nonempty s = str_eq-false _ _ (λ q. cc q)

readable_formats-IsReadable : IsReadable readable_formats
readable_formats-IsReadable = record {
  not_empty = written_nonempty;
  read_back = λ s. (a_snapshot s.operation_type, refl, refl);
}

calls-IsResult_example :
    IsResult a_bank readable_formats readable_formats-IsReadable "ref" some_operations a_mapping
      "product" "1" 150 "accounts"
      (Connector.list_accounts a_bank readable_formats "ref" some_operations a_mapping "product" "1"
        150 an_institute a_request a_world)
    × IsResult a_bank readable_formats readable_formats-IsReadable "ref" some_operations a_mapping
        "product" "1" 150 "balances"
        (Connector.get_balances a_bank readable_formats "ref" some_operations a_mapping "product"
          "1" 150 an_institute a_request a_world)
    × IsResult a_bank readable_formats readable_formats-IsReadable "ref" some_operations a_mapping
        "product" "1" 150 "tan_methods"
        (Connector.get_tan_methods a_bank readable_formats "ref" some_operations a_mapping "product"
          "1" 150 an_institute a_request a_world)
    × IsResult a_bank readable_formats readable_formats-IsReadable "ref" some_operations a_mapping
        "product" "1" 150 "transactions"
        (Connector.fetch_transactions a_bank readable_formats "ref" some_operations a_mapping
          "product" "1" 150 an_institute a_request an_iban 738000 738001 a_world)
calls-IsResult_example =
    calls-IsResult a_bank readable_formats readable_formats-IsReadable "ref" some_operations
      a_mapping "product" "1" 150 an_institute a_request an_iban 738000 738001 a_world

transactions_text-IsSnapshotOf : IsSnapshotOf readable_formats "transactions" "{transactions"
transactions_text-IsSnapshotOf = record {
  read = a_snapshot "transactions";
  reads = refl;
  of_type = refl;
  nonempty = refl;
}

transactions_known : operation_type_of "transactions" ≡ some transactions
unfolding operation_type_of
transactions_known = refl

resume_operation-IsResumed_example :
    IsResumed a_bank readable_formats readable_formats-IsReadable "ref" some_operations a_mapping
      "product" "1" 150 "transactions"
      (resume_operation a_bank readable_formats "ref" some_operations a_mapping "product" "1" 150
        "{transactions" a_request an_institute a_world).0
resume_operation-IsResumed_example =
    resume_operation-IsResumed a_bank readable_formats readable_formats-IsReadable "ref"
      some_operations a_mapping "product" "1" 150 "{transactions" "transactions" transactions
      a_request an_institute a_world transactions_text-IsSnapshotOf transactions_known
