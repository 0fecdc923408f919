-- ===== src/Wire/RoundTrip/Reading.antt =====
-- What the parser reads for a scalar, for a data element group and for a segment that was written.
use geldstrom.Prelude.{
  ℕ, ◌≡◌, refl, ap, ◌∙◌, Bool, true, false, Option, some, [], ◌∷◌, ◌++◌, append-nil, append_assoc,
  All, arith, Bool-cases, inl, inr, ◌==◌, ◌||◌,
}
use geldstrom.Wire.Decimal.{decimal, IsDigit, decimal-IsDigit}
use geldstrom.Wire.Token.{Bytes, Token, Tokens, yields, is_data, char, binary}
use geldstrom.Wire.Tokenizer.{tokenize_from, token_of, is_plain, is_delimiter}
use geldstrom.Wire.Tokenizer.Reads.{
  tokenize_from-plain, tokenize_from-escape, tokenize_from-delimiter, tokenize_from-binary,
  yield_binary-append,
}
use geldstrom.Wire.Value.{
  Scalar, nothing, text, bytes, boolean, signed, rendered, other, Raw, absent, string, blob,
}
use geldstrom.Wire.Serializer.{escape, show_signed, serialize_fints_bool}
use geldstrom.Wire.Serializer.Leaves.{wire}
use geldstrom.Wire.Serializer.Writes.{IsReadable}

-- A text with no character is read as no value.
abbrev pub read_text : Bytes → Raw
read_text [] = absent
read_text (c ∷ cs) = string (c ∷ cs)

-- Every text comes back as it was; a number or a bool comes back as its text.
abbrev pub read_scalar : Scalar → Raw
read_scalar (text val) = read_text val
read_scalar (bytes val) = blob val
read_scalar (boolean val) = read_text (serialize_fints_bool val)
read_scalar (signed negative n) = read_text (show_signed negative n)
read_scalar (rendered val) = read_text val
read_scalar _ = absent

abbrev pub raw_tokens : Raw → Tokens → Tokens
raw_tokens absent ts = ts
raw_tokens (string v) ts = yields (char v) ts
raw_tokens (blob v) ts = yields (binary v) ts

abbrev pub scalar_tokens : Scalar → Tokens → Tokens
scalar_tokens s = raw_tokens (read_scalar s)

tokenize_from-All :
    (val rest u : Bytes) (last : Option Token)
    → All (λ c. is_plain c ≡ true) val
    → tokenize_from (val ++ rest) u last ≡ tokenize_from rest (u ++ val) last
tokenize_from-All [] rest u last h = rw append-nil
tokenize_from-All (c ∷ cs) rest u last h =
    tokenize_from-plain c (cs ++ rest) u last h.0
    ∙ tokenize_from-All cs rest (u ++ c ∷ []) last h.1
    ∙ rw append_assoc

special : ℕ → Bool
special c = c == b'+' || c == b':' || c == b'\'' || c == b'@' || c == b'?'

plain_of_not_special : (c : ℕ) → special c ≡ false → is_plain c ≡ true
unfolding special
plain_of_not_special c h = ground arith

escape-special : (c : ℕ) (cs : Bytes) → special c ≡ true → escape (c ∷ cs) ≡ b'?' ∷ c ∷ escape cs
unfolding escape special
escape-special c cs h = rw h

escape_plain : (c : ℕ) (cs : Bytes) → special c ≡ false → escape (c ∷ cs) ≡ c ∷ escape cs
unfolding escape special
escape_plain c cs h = rw h

escape-nil : escape [] ≡ []
unfolding escape
escape-nil = refl

tokenize_from-escaped :
    (val rest u : Bytes) (last : Option Token)
    → tokenize_from (escape val ++ rest) u last ≡ tokenize_from rest (u ++ val) last
tokenize_from-escaped [] rest u last = rw (escape-nil, append-nil)
tokenize_from-escaped (c ∷ cs) rest u last = elim (Bool-cases (special c)) [
  | inl yes' ↦ rw (escape-special c cs yes') (
      tokenize_from-escape c (escape cs ++ rest) u last
      ∙ tokenize_from-escaped cs rest (u ++ c ∷ []) last
      ∙ rw append_assoc)
  | inr no' ↦ rw (escape_plain c cs no') (
      tokenize_from-plain c (escape cs ++ rest) u last (plain_of_not_special c no')
      ∙ tokenize_from-escaped cs rest (u ++ c ∷ []) last
      ∙ rw append_assoc)
]

-- Unclaimed text, then a delimiter.
tokenize_from-text :
    (val : Bytes) (d : ℕ) (rest : Bytes) (last : Option Token)
    → is_delimiter d ≡ true
    → is_data last ≡ false
    → tokenize_from (d ∷ rest) val last
      ≡ raw_tokens (read_text val) (yields (token_of d) (tokenize_from rest [] (some (token_of d))))
tokenize_from-text [] d rest last h nd = tokenize_from-delimiter d rest [] last h
tokenize_from-text (c ∷ cs) d rest last h nd =
    tokenize_from-delimiter d rest (c ∷ cs) last h ∙ rw nd

digit_plain : (c : ℕ) → IsDigit c → is_plain c ≡ true
digit_plain c h = ground arith

All-digits_plain : (ds : Bytes) → All IsDigit ds → All (λ c. is_plain c ≡ true) ds
All-digits_plain [] h = tt
All-digits_plain (d ∷ ds) h = (digit_plain d h.0, All-digits_plain ds h.1)

show_signed_plain : (b : Bool) (n : ℕ) → All (λ c. is_plain c ≡ true) (show_signed b n)
show_signed_plain true n = (refl, All-digits_plain (decimal n) (decimal-IsDigit n))
show_signed_plain false n = All-digits_plain (decimal n) (decimal-IsDigit n)

bool_plain : (b : Bool) → All (λ c. is_plain c ≡ true) (serialize_fints_bool b)
bool_plain true = (refl, tt)
bool_plain false = (refl, tt)

-- The tokens of a scalar that is written, with a delimiter behind it.
pub tokenize_from-wire :
    (s : Scalar) (d : ℕ) (rest : Bytes) (last : Option Token)
    → IsReadable s
    → is_delimiter d ≡ true
    → is_data last ≡ false
    → tokenize_from (wire s ++ (d ∷ rest)) [] last
      ≡ scalar_tokens s (yields (token_of d) (tokenize_from rest [] (some (token_of d))))
tokenize_from-wire (text val) d rest last r h nd =
    tokenize_from-escaped val (d ∷ rest) [] last ∙ tokenize_from-text val d rest last h nd
tokenize_from-wire (rendered val) d rest last r h nd =
    tokenize_from-All val (d ∷ rest) [] last r.0 ∙ tokenize_from-text val d rest last h nd
tokenize_from-wire (boolean b) d rest last r h nd =
    tokenize_from-All (serialize_fints_bool b) (d ∷ rest) [] last (bool_plain b)
    ∙ tokenize_from-text (serialize_fints_bool b) d rest last h nd
tokenize_from-wire (signed b n) d rest last r h nd =
    tokenize_from-All (show_signed b n) (d ∷ rest) [] last (show_signed_plain b n)
    ∙ tokenize_from-text (show_signed b n) d rest last h nd
tokenize_from-wire nothing d rest last r h nd = tokenize_from-text [] d rest last h nd
tokenize_from-wire other d rest last r h nd = absurd r
tokenize_from-wire (bytes val) d rest last r h nd = rw append_assoc (
    tokenize_from-binary val (d ∷ rest) [] last
    ∙ yield_binary-append val (d ∷ rest) last nd
    ∙ ap (yields (binary val)) (tokenize_from-delimiter d rest [] (some (binary val)) h))
