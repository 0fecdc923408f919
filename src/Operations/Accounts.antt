-- ===== src/Operations/Accounts.antt =====
-- fints/operations/accounts.py: `AccountOperations`, on `UserParameters.get_accounts` of
-- fints/protocol/parameters.py.
pub mod Discovers
use geldstrom.Prelude.{
  ℕ, Bool, true, false, ◌&&◌, List, [], ◌∷◌, Option, none, some, String, str_eq, if◌then◌else◌,
  Outcome, ok, raised,
}
use geldstrom.Segments.{
  SpaAccount, UpdAccount, hispa1, hiupd6, other, Segment, segment, find_segments, is_type,
}
use geldstrom.Responses.{Processed, get_response_by_code}
use geldstrom.Parameters.{UserParameters}
use geldstrom.Dialog.{Dialog, DialogRaise, Connection, send}
use geldstrom.Dialog.Envelope.{plain_segment}
use geldstrom.Clients.Fetching.{SepaAccount, text_or}

pub record AccountInfo : Type 0 where
  pub account_number : Option String
  pub subaccount_number : Option String
  pub iban : Option String
  pub bic : Option String
  pub currency : Option String
  pub owner_name : List String
  pub product_name : Option String
  pub account_type : Option ℕ
  pub bank_identifier : Option String
  pub allowed_operations : List String

-- What account discovery raises: what the dialog raises, `FinTSSCARequiredError`, or Python's
-- `TypeError` for a loop over None.
pub data AccountsRaise : Type 0 where
  in_dialog : DialogRaise → AccountsRaise
  sca_required : String → AccountsRaise
  not_iterable : AccountsRaise

-- t or None
abbrev pub given_text : String → Option String
given_text t = if str_eq t "" then none else some t

-- o or ""
abbrev pub or_blank : Option String → String
or_blank none = ""
or_blank (some t) = t

abbrev pub is_filled : Option String → Bool
is_filled o = if str_eq (or_blank o) "" then false else true

-- `as_sepa_account`
abbrev pub as_sepa_account : SpaAccount → Option SepaAccount
as_sepa_account a =
    if a.is_sepa
    then some (record {
      iban = a.iban;
      bic = some a.bic;
      accountnumber = a.account_number;
      subaccount = a.subaccount_number;
      blz = given_text a.bank_code;
    })
    else none

abbrev pub is_hispa1 : Segment → Bool
is_hispa1 (segment h (hispa1 spas) inner) = true
is_hispa1 _ = false

abbrev pub spa_accounts : Segment → List SpaAccount
spa_accounts (segment h (hispa1 spas) inner) = spas
spa_accounts _ = []

abbrev pub converted : List SpaAccount → List SepaAccount → List SepaAccount
converted [] rest = rest
converted (a ∷ spas) rest =
    let tail = converted spas rest in
    elim (as_sepa_account a) [ some sepa ↦ sepa ∷ tail | none ↦ tail ]

abbrev pub accounts_in : List Segment → List SepaAccount
accounts_in [] = []
accounts_in (s ∷ ss) = converted (spa_accounts s) (accounts_in ss)

-- The loop over HISPA.
abbrev pub hispa_accounts : Processed → List SepaAccount
hispa_accounts response = elim response.raw_response [
  | some raw ↦ accounts_in (find_segments is_hispa1 raw)
  | none ↦ []
]

-- What a segment of another class than HIUPD6 has of these fields: none of them.
abbrev pub no_upd : UpdAccount
no_upd = record {
  account_number = none;
  subaccount_number = none;
  bank_identifier = none;
  iban = none;
  customer_id = none;
  account_type = none;
  account_currency = none;
  name_account_owner_1 = "";
  name_account_owner_2 = none;
  account_product_name = none;
  allowed_transactions = some [];
}

abbrev pub upd_account : Segment → UpdAccount
upd_account (segment h (hiupd6 upd) inner) = upd
upd_account _ = no_upd

-- The fields of the segments, of which `get_accounts` makes a dictionary each.
abbrev pub upd_accounts : List Segment → List UpdAccount
upd_accounts [] = []
upd_accounts (s ∷ ss) = upd_account s ∷ upd_accounts ss

unfoldable pub get_accounts : UserParameters → List UpdAccount
get_accounts upd = upd_accounts (find_segments (is_type "HIUPD") upd.segments)

-- acc["owner_name"]
abbrev pub owners : UpdAccount → List String
owners upd =
    let second =
      if is_filled upd.name_account_owner_2 then or_blank upd.name_account_owner_2 ∷ [] else [] in
    if str_eq upd.name_account_owner_1 "" then second else upd.name_account_owner_1 ∷ second

-- The accounts of the parameters that have an IBAN, where HISPA has none.
abbrev pub fallback : List UpdAccount → List SepaAccount
fallback [] = []
fallback (upd ∷ upds) =
    let rest = fallback upds in
    if is_filled upd.iban
    then (record {
      iban = or_blank upd.iban;
      bic = none;
      accountnumber = or_blank upd.account_number;
      subaccount = or_blank upd.subaccount_number;
      blz = none;
    })
      ∷ rest
    else rest

abbrev pub or_fallback : List SepaAccount → List UpdAccount → List SepaAccount
or_fallback [] upds = fallback upds
or_fallback (sepa ∷ sepas) upds = sepa ∷ sepas

abbrev pub with_operations : UpdAccount → List String → AccountInfo
with_operations upd allowed = record {
  account_number = upd.account_number;
  subaccount_number = upd.subaccount_number;
  iban = upd.iban;
  bic = none;
  currency = upd.account_currency;
  owner_name = owners upd;
  product_name = upd.account_product_name;
  account_type = upd.account_type;
  bank_identifier = upd.bank_identifier;
  allowed_operations = allowed;
}

abbrev pub list_account :
    UpdAccount
    → Option (List String)
    → Outcome AccountsRaise (List AccountInfo)
    → Outcome AccountsRaise (List AccountInfo)
list_account upd none rest = raised not_iterable
list_account upd (some allowed) (ok infos) = ok (with_operations upd allowed ∷ infos)
list_account upd (some allowed) (raised e) = raised e

-- `_upd_accounts`
unfoldable pub account_infos : List UpdAccount → Outcome AccountsRaise (List AccountInfo)
account_infos [] = ok []
account_infos (upd ∷ upds) = list_account upd upd.allowed_transactions (account_infos upds)

-- The value of a dictionary of the accounts that pass: of those under one key, the last.
abbrev pub last_match : (SepaAccount → Bool) → List SepaAccount → Option SepaAccount
last_match matches [] = none
last_match matches (sepa ∷ sepas) =
    let rest = last_match matches sepas in
    elim rest [ some later ↦ some later | none ↦ if matches sepa then some sepa else none ]

abbrev pub same_iban : AccountInfo → SepaAccount → Bool
same_iban info sepa = is_filled info.iban && str_eq sepa.iban (or_blank info.iban)

abbrev pub same_text : String → Option String → Bool
same_text t none = false
same_text t (some u) = str_eq t u

-- (s.accountnumber, s.subaccount or "") == (acc.account_number, acc.subaccount_number or "")
abbrev pub same_number : AccountInfo → SepaAccount → Bool
same_number info sepa =
    same_text sepa.accountnumber info.account_number
    && str_eq sepa.subaccount (or_blank info.subaccount_number)

abbrev pub bic_of : AccountInfo → Option SepaAccount → Option SepaAccount → Option String
bic_of info (some sepa) _ = sepa.bic
bic_of info none (some sepa) = sepa.bic
bic_of info none none = info.bic

abbrev pub with_bic : List SepaAccount → AccountInfo → AccountInfo
with_bic sepas info = record info {
  bic = bic_of info (last_match (same_iban info) sepas) (last_match (same_number info) sepas);
}

unfoldable pub join_sepa_info : List SepaAccount → List AccountInfo → List AccountInfo
join_sepa_info sepas [] = []
join_sepa_info sepas (info ∷ infos) = with_bic sepas info ∷ join_sepa_info sepas infos

-- The accounts that are made up where the parameters list none.
abbrev pub synthesized : List SepaAccount → List AccountInfo
synthesized [] = []
synthesized (sepa ∷ sepas) =
    (record {
      account_number = some (text_or sepa.accountnumber sepa.iban);
      subaccount_number = some sepa.subaccount;
      iban = some sepa.iban;
      bic = sepa.bic;
      currency = some "EUR";
      owner_name = [];
      product_name = none;
      account_type = none;
      bank_identifier = none;
      allowed_operations = [];
    })
    ∷ synthesized sepas

abbrev pub or_synthesized : List AccountInfo → List SepaAccount → List AccountInfo
or_synthesized [] sepas = synthesized sepas
or_synthesized (info ∷ infos) sepas = info ∷ infos

-- `fetch_all`, behind the answer to HKSPA, where the SEPA accounts are `sepas`.
unfoldable pub merge_accounts :
    List SepaAccount → List UpdAccount → Outcome AccountsRaise (List AccountInfo)
unfolding account_infos join_sepa_info
merge_accounts sepas upds = elim (account_infos upds) [
  | ok infos ↦ ok (join_sepa_info sepas (or_synthesized infos sepas))
  | raised e ↦ raised e
]

module _ (c : Connection) where
  open c use {Link}

  abbrev pub fetched_sepa :
      Outcome DialogRaise Processed × Dialog × Link
      → Outcome AccountsRaise (List SepaAccount) × Dialog × Link
  fetched_sepa (raised e, d, l) = (raised (in_dialog e), d, l)
  fetched_sepa (ok response, d, l) = elim (get_response_by_code response "9075") [
    | some error ↦ (raised (sca_required error.text), d, l)
    | none ↦ (ok (or_fallback (hispa_accounts response) (get_accounts d.parameters.upd)), d, l)
  ]

  unfoldable pub fetch_sepa_accounts :
      Dialog → Link → Outcome AccountsRaise (List SepaAccount) × Dialog × Link
  unfolding get_accounts
  fetch_sepa_accounts d l =
      fetched_sepa (send c (plain_segment "HKSPA" 1 (other none) ∷ []) none d l)

  abbrev pub merged_all :
      Outcome AccountsRaise (List SepaAccount) × Dialog × Link
      → Outcome AccountsRaise (List AccountInfo) × Dialog × Link
  merged_all (raised e, d, l) = (raised e, d, l)
  merged_all (ok sepas, d, l) = (merge_accounts sepas (get_accounts d.parameters.upd), d, l)

  unfoldable pub fetch_all :
      Dialog → Link → Outcome AccountsRaise (List AccountInfo) × Dialog × Link
  unfolding fetch_sepa_accounts merge_accounts get_accounts
  fetch_all d l = merged_all (fetch_sepa_accounts d l)
