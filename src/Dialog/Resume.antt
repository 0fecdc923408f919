-- ===== src/Dialog/Resume.antt =====
-- fints/dialog/core.py: the snapshot of a dialog that waits for an approval, and the dialog it becomes.
use geldstrom.Prelude.{
  ℕ, ◌≡◌, ◌≢◌, refl, ap, sym, List, Bool, true, Option, none, some, String, str_eq, if◌then◌else◌,
  Bool-cases, inl, inr, eq_iff,
}
use geldstrom.Parameters.{ParameterStore}
use geldstrom.Dialog.{Dialog}
use geldstrom.Dialog.Envelope.{Auth}
use geldstrom.Tan.{security_function, decoupled}

pub record DialogSnapshot : Type 0 where
  pub dialog_id : String
  pub message_number : ℕ
  pub country_identifier : String
  pub bank_code : String
  pub user_id : String
  pub customer_id : String
  pub system_id : String
  pub product_name : String
  pub product_version : String
  pub security_function : String

-- config.bank_identifier.bank_code or ""
abbrev pub code_or_empty : Option String → String
code_or_empty none = ""
code_or_empty (some c) = c

-- snapshot.bank_code or None
abbrev pub code_or_none : String → Option String
code_or_none c = if str_eq c "" then none else some c

unfoldable pub snapshot : Dialog → DialogSnapshot
snapshot d = record {
  dialog_id = d.dialog_id;
  message_number = d.message_number;
  country_identifier = d.config.country_identifier;
  bank_code = code_or_empty d.config.bank_code;
  user_id = d.config.user_id;
  customer_id = d.config.customer_id;
  system_id = d.config.system_id;
  product_name = d.config.product_name;
  product_version = d.config.product_version;
  security_function = security_function d.tan_strategy;
}

-- The value of `Language2.DE`, the configuration's default.
abbrev pub default_language : String
default_language = "1"

unfoldable pub resume : DialogSnapshot → ParameterStore → Bool → List Auth → Dialog
resume s parameters has_encryption auth_mechanisms = record {
  config = record {
    country_identifier = s.country_identifier;
    bank_code = code_or_none s.bank_code;
    user_id = s.user_id;
    customer_id = s.customer_id;
    system_id = s.system_id;
    product_name = s.product_name;
    product_version = s.product_version;
    language = default_language;
  };
  parameters = parameters;
  auth_mechanisms = auth_mechanisms;
  has_encryption = has_encryption;
  dialog_id = s.dialog_id;
  message_number = s.message_number;
  is_open = true;
  is_initialized = true;
  challenge_handler = none;
  tan_strategy = decoupled s.security_function;
}

code_or_none-code_or_empty : (c : Option String) → c ≢ some "" → code_or_none (code_or_empty c) ≡ c
code_or_none-code_or_empty none h = refl
code_or_none-code_or_empty (some c) h = elim (Bool-cases (str_eq c "")) [
  | inl e ↦ absurd (h (ap some ((eq_iff _ _).0 e)))
  | inr e ↦ rw e refl
]

-- A dialog that is open and initialized, with a decoupled strategy, the default language and a bank
-- code that is not empty, comes back from its snapshot with the same parameters and mechanisms as it
-- was, but for the challenge handler, which is gone.
pub resume-snapshot :
    (d : Dialog) (f : String)
    → d.is_open ≡ true
    → d.is_initialized ≡ true
    → d.tan_strategy ≡ decoupled f
    → d.config.language ≡ default_language
    → d.config.bank_code ≢ some ""
    → resume (snapshot d) d.parameters d.has_encryption d.auth_mechanisms
      ≡ record d { challenge_handler = none }
unfolding snapshot resume
resume-snapshot d f o i t g b =
    let code = code_or_none-code_or_empty d.config.bank_code b in
    simp (o, i, t, code)
      (ap
        (λ language. record d {
          config = record d.config { language = language };
          is_open = true;
          is_initialized = true;
          challenge_handler = none;
          tan_strategy = decoupled f;
        })
        (sym g))
