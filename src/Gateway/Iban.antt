-- ===== src/Gateway/Iban.antt =====
-- domain/banking_gateway/value_objects/banking.py: `RequestedIban`, a text as its code points.
use geldstrom.Prelude.{
  ℕ, ◌+◌, ◌-◌, ◌%◌, Bool, true, false, ◌&&◌, ◌||◌, List, [], ◌∷◌, ◌++◌, Option, none, some, leb,
  ◌==◌, if◌then◌else◌, take, drop, length,
}
use geldstrom.Wire.Decimal.{decimal, value_of}

-- [A-Z]
abbrev is_upper : ℕ → Bool
is_upper c = leb b'A' c && leb c b'Z'

-- What the methods of Python's texts do: `normalize` is `"".join(str(v).split()).upper()`, and
-- `digit_of` the value of a character that `\d` matches.
pub record Texts : Type 1 where
  pub Raw : Type 0
  pub normalize : Raw → List ℕ
  pub digit_of : ℕ → Option ℕ

module _ (texts : Texts) where
  open texts use {Raw, normalize, digit_of}

  abbrev matches_digit : ℕ → Bool
  matches_digit c = elim (digit_of c) [ some v ↦ true | none ↦ false ]

  -- [A-Z0-9] throughout
  abbrev pub all_alphanumeric : List ℕ → Bool
  all_alphanumeric [] = true
  all_alphanumeric (c ∷ cs) = (is_upper c || (leb b'0' c && leb c b'9')) && all_alphanumeric cs

  -- `_IBAN_PATTERN`; no newline can stand at the end of a normalized text.
  abbrev pub is_iban_pattern : List ℕ → Bool
  is_iban_pattern (a ∷ b ∷ c ∷ d ∷ rest) =
      is_upper a
      && is_upper b
      && matches_digit c
      && matches_digit d
      && all_alphanumeric rest
      && leb 11 (length rest)
      && leb (length rest) 30
  is_iban_pattern _ = false

  -- int(character, 36), of a character that the pattern lets through
  abbrev pub value_36 : ℕ → ℕ
  value_36 c = if is_upper c then (c - b'A') + 10 else elim (digit_of c) [ some v ↦ v | none ↦ 0 ]

  -- "".join(str(int(character, 36)) for character in rearranged)
  abbrev pub numeric : List ℕ → List ℕ
  numeric [] = []
  numeric (c ∷ cs) = decimal (value_36 c) ++ numeric cs

  -- `_iban_checksum_is_valid`
  unfoldable pub iban_checksum_is_valid : List ℕ → Bool
  iban_checksum_is_valid iban = value_of 0 (numeric (drop 4 iban ++ take 4 iban)) % 97 == 1

  -- `RequestedIban(v)`, none where it raises.
  unfoldable pub requested_iban : Raw → Option (List ℕ)
  unfolding iban_checksum_is_valid
  requested_iban v =
      let normalized = normalize v in
      if is_iban_pattern normalized && iban_checksum_is_valid normalized
      then some normalized
      else none
