-- ===== src/Wire/Tokenizer/Reads.antt =====
-- What the tokenizer does on a plain byte, an escaped byte, a delimiter and a binary value, with
-- any bytes behind them.
use geldstrom.Prelude.{
  ℕ, ◌≡◌, refl, ◌∙◌, Bool, true, false, Option, some, [], ◌∷◌, ◌++◌, length, arith, Bool-cases, inl,
  inr, append_assoc, All, take-append, drop-append,
}
use geldstrom.Wire.Decimal.{
  is_digit, decimal, IsDigit, decimal-IsDigit, decimal-cons, value_of-decimal,
}
use geldstrom.Wire.Token.{Bytes, Token, yields, is_data, binary}
use geldstrom.Wire.Tokenizer.{
  span, Match, echar, chars, tok, binlen, match_token, round, tokenize_from, token_of, is_plain,
  is_delimiter, claim, yield_binary,
}
use geldstrom.Wire.Tokenizer.Steps.{tokenize_from-match}

abbrev plain_match : ℕ → Bytes → Option (Match × Bytes)
plain_match c cs = some (chars (c ∷ (span is_plain cs).0), (span is_plain cs).1)

match_plain : (c : ℕ) (cs : Bytes) → is_plain c ≡ true → match_token (c ∷ cs) ≡ plain_match c cs
unfolding match_token
match_plain c cs h = ground arith

tokenize_from-run :
    (c : ℕ) (cs u : Bytes) (last : Option Token)
    → is_plain c ≡ true
    → tokenize_from (c ∷ cs) u last
      ≡ tokenize_from (span is_plain cs).1 (u ++ c ∷ (span is_plain cs).0) last
unfolding round
tokenize_from-run c cs u last h = tokenize_from-match c cs _ _ u last (match_plain c cs h)

span-cons :
    (p : ℕ → Bool) (d : ℕ) (ds : Bytes)
    → p d ≡ true
    → span p (d ∷ ds) ≡ (d ∷ (span p ds).0, (span p ds).1)
unfolding span
span-cons p d ds h = rw h

span_stop : (p : ℕ → Bool) (d : ℕ) (ds : Bytes) → p d ≡ false → span p (d ∷ ds) ≡ ([], d ∷ ds)
unfolding span
span_stop p d ds h = rw h

-- A plain byte joins the unclaimed bytes, whether or not more of its run follows.
pub tokenize_from-plain :
    (c : ℕ) (rest u : Bytes) (last : Option Token)
    → is_plain c ≡ true
    → tokenize_from (c ∷ rest) u last ≡ tokenize_from rest (u ++ c ∷ []) last
tokenize_from-plain c [] u last h = unfold span in tokenize_from-run c [] u last h
tokenize_from-plain c (d ∷ ds) u last h = elim (Bool-cases (is_plain d)) [
  | inl more ↦
      tokenize_from-run c (d ∷ ds) u last h
      ∙ rw (span-cons is_plain d ds more)
          (rw (tokenize_from-run d ds (u ++ c ∷ []) last more) (rw append_assoc))
  | inr done ↦ tokenize_from-run c (d ∷ ds) u last h ∙ rw (span_stop is_plain d ds done)
]

pub tokenize_from-escape :
    (c : ℕ) (rest u : Bytes) (last : Option Token)
    → tokenize_from (b'?' ∷ c ∷ rest) u last ≡ tokenize_from rest (u ++ c ∷ []) last
unfolding match_token round
tokenize_from-escape c rest u last = tokenize_from-match b'?' (c ∷ rest) (echar c) rest u last refl

match_delimiter :
    (d : ℕ) (rest : Bytes) → is_delimiter d ≡ true → match_token (d ∷ rest) ≡ some (tok d, rest)
unfolding match_token
match_delimiter d rest h = ground arith

pub tokenize_from-delimiter :
    (d : ℕ) (rest u : Bytes) (last : Option Token)
    → is_delimiter d ≡ true
    → tokenize_from (d ∷ rest) u last
      ≡ claim u last (λ _. yields (token_of d) (tokenize_from rest [] (some (token_of d))))
unfolding round
tokenize_from-delimiter d rest u last h =
    tokenize_from-match d rest (tok d) rest u last (match_delimiter d rest h)

span-append :
    (p : ℕ → Bool) (run : Bytes) (c : ℕ) (rest : Bytes)
    → All (λ d. p d ≡ true) run
    → p c ≡ false
    → span p (run ++ (c ∷ rest)) ≡ (run, c ∷ rest)
unfolding span
span-append p [] c rest h stop = rw stop
span-append p (d ∷ ds) c rest h stop = rw (h.0, span-append p ds c rest h.1 stop)

match_binary :
    (ds rest : Bytes) (d : ℕ) (ds' : Bytes)
    → All IsDigit ds
    → ds ≡ d ∷ ds'
    → match_token (b'@' ∷ (ds ++ (b'@' ∷ rest))) ≡ some (binlen ds, rest)
unfolding match_token
match_binary ds rest d ds' h e = rw (span-append is_digit ds b'@' rest h refl) (rw e)

-- A counted value is read whole, whatever its bytes.
pub tokenize_from-binary :
    (b rest u : Bytes) (last : Option Token)
    → tokenize_from (b'@' ∷ (decimal (length b) ++ (b'@' ∷ (b ++ rest)))) u last
      ≡ claim u last (yield_binary tokenize_from (length b) (b ++ rest))
unfolding round
tokenize_from-binary b rest u last =
    let (d, ds, e) = decimal-cons (length b) in
    tokenize_from-match b'@' _ _ _ u last
      (match_binary (decimal (length b)) (b ++ rest) d ds (decimal-IsDigit (length b)) e)
    ∙ rw (value_of-decimal (length b))

pub yield_binary-append :
    (b rest : Bytes) (last : Option Token)
    → is_data last ≡ false
    → yield_binary tokenize_from (length b) (b ++ rest) last
      ≡ yields (binary b) (tokenize_from rest [] (some (binary b)))
yield_binary-append b rest last h = rw h (rw (take-append b rest, drop-append b rest))
