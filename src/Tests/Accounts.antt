-- ===== src/Tests/Accounts.antt =====
-- Account discovery with one SEPA account and one of the user parameters.
use geldstrom.Prelude.{
  ◌≡◌, refl, Bool, true, false, List, [], ◌∷◌, some, none, ok, raised, String, Option,
}
use geldstrom.Segments.{SpaAccount, UpdAccount, hnhbk3, hispa1, of_list}
use geldstrom.Dialog.{Connection}
use geldstrom.Dialog.Envelope.{plain_segment}
use geldstrom.Clients.Fetching.{SepaAccount}
use geldstrom.Operations.Accounts.{
  AccountInfo, not_iterable, account_infos, join_sepa_info, merge_accounts, fetch_sepa_accounts,
  fetch_all,
}
use geldstrom.Operations.Accounts.Discovers.{Discovers, fetch_all-Discovers}
use geldstrom.Tests.Dialogs.{open_dialog}

abbrev a_sepa : SepaAccount
a_sepa = record {
  iban = "DE02";
  bic = some "BYLADEM1001";
  accountnumber = "202051";
  subaccount = "";
  blz = some "12030000";
}

abbrev an_entry : Bool → SpaAccount
an_entry is_sepa = record {
  is_sepa = is_sepa;
  iban = "DE02";
  bic = "BYLADEM1001";
  account_number = "202051";
  subaccount_number = "";
  bank_code = "12030000";
}

-- A bank that lists two accounts in HISPA, of which one is no SEPA account.
abbrev sepa_bank : Connection
sepa_bank = record {
  Link = Unit {0};
  exchange = λ m l. (
    ok (
        of_list (
          plain_segment "HNHBK" 3 (hnhbk3 "D1" 1)
          ∷ plain_segment "HISPA" 1 (hispa1 (an_entry true ∷ an_entry false ∷ []))
          ∷ [])),
    l,
  );
}

abbrev an_upd : Option (List String) → UpdAccount
an_upd allowed = record {
  account_number = some "202051";
  subaccount_number = none;
  bank_identifier = none;
  iban = none;
  customer_id = none;
  account_type = some 1;
  account_currency = some "EUR";
  name_account_owner_1 = "Erika Mustermann";
  name_account_owner_2 = none;
  account_product_name = none;
  allowed_transactions = allowed;
}

abbrev first_bic : List AccountInfo → Option String
first_bic [] = none
first_bic (info ∷ infos) = info.bic

bic_by_number :
    first_bic (
      join_sepa_info (a_sepa ∷ []) (
        record {
          account_number = some "202051";
          subaccount_number = none;
          iban = none;
          bic = none;
          currency = none;
          owner_name = [];
          product_name = none;
          account_type = none;
          bank_identifier = none;
          allowed_operations = [];
        }
        ∷ []))
    ≡ some "BYLADEM1001"
unfolding join_sepa_info
bic_by_number = refl

-- An account without allowed transactions stops the discovery of all.
no_transactions :
    merge_accounts (a_sepa ∷ []) (an_upd (some ("HKSAL" ∷ [])) ∷ an_upd none ∷ [])
    ≡ raised not_iterable
unfolding merge_accounts account_infos
no_transactions = refl

fetch_all-Discovers_example :
    Discovers sepa_bank
      (fetch_sepa_accounts sepa_bank open_dialog tt)
      (fetch_all sepa_bank open_dialog tt)
fetch_all-Discovers_example = fetch_all-Discovers sepa_bank open_dialog tt
