-- ===== src/Wire/Tokenizer/Adjacent.antt =====
-- The shape of what the tokenizer yields, on any bytes.
use geldstrom.Prelude.{
  ℕ, zero, suc, ◌≤◌, ◌≡◌, ◌≢◌, refl, Bool, true, false, Option, none, some, [], ◌∷◌, length, take,
  drop, arith, ◌==◌, if◌then◌else◌, Bool-cases, Option-cases, inl, inr,
}
use geldstrom.Wire.Decimal.{value_of}
use geldstrom.Wire.Token.{
  Bytes, Token, char, binary, plus, colon, apostrophe, eof, out_of_fuel, exhausted, Tokens, yields,
  returns, raises, is_data,
}
use geldstrom.Wire.Tokenizer.{
  Match, echar, chars, tok, binlen, match_token, claim, yield_binary, round, finish, token_of,
  tokenize_fuel, tokenize,
}
use geldstrom.Wire.Tokenizer.Steps.{length-match_token, length-drop-le}

-- No value follows a value, no CHAR is empty, EOF comes once and last, and the fuel never runs out.
abbrev pub Alternates : Option Token → Tokens → Type 0
Alternates last (yields (char v) ts) =
    (is_data last ≡ false) × (v ≢ []) × Alternates (some (char v)) ts
Alternates last (yields (binary v) ts) = (is_data last ≡ false) × Alternates (some (binary v)) ts
Alternates last (yields eof ts) = ts ≡ returns
Alternates last (yields t ts) = Alternates (some t) ts
Alternates last returns = ⊥
Alternates last (raises e) = (e ≢ out_of_fuel) × (e ≢ exhausted)

claim-Alternates :
    (u : Bytes) (last : Option Token) (k : Option Token → Tokens)
    → ((l : Option Token) → Alternates l (k l))
    → Alternates last (claim u last k)
claim-Alternates [] last k h = h last
claim-Alternates (c ∷ cs) last k h = elim (Bool-cases (is_data last)) [
  | inl d ↦ rw d ((λ e. cc e), (λ e. cc e))
  | inr d ↦ rw d (d, (λ e. cc e), h (some (char (c ∷ cs))))
]

finish-Alternates : (u : Bytes) (last : Option Token) → Alternates last (finish u last)
finish-Alternates [] last = refl
finish-Alternates (c ∷ cs) last = elim (Bool-cases (is_data last)) [
  | inl d ↦ rw d ((λ e. cc e), (λ e. cc e))
  | inr d ↦ rw d (d, (λ e. cc e), refl)
]

delimiter-Alternates :
    (p q : Bool) (l : Option Token) (ts : Tokens)
    → Alternates (some (if p then plus else if q then colon else apostrophe)) ts
    → Alternates l (yields (if p then plus else if q then colon else apostrophe) ts)
delimiter-Alternates true q l ts h = h
delimiter-Alternates false true l ts h = h
delimiter-Alternates false false l ts h = h

binary-Alternates :
    (loop : Bytes → Bytes → Option Token → Tokens) (n : ℕ) (rest : Bytes) (l : Option Token)
    → Alternates (some (binary (take n rest))) (loop (drop n rest) [] (some (binary (take n rest))))
    → Alternates l (yield_binary loop n rest l)
binary-Alternates loop n rest l h = elim (Bool-cases (is_data l)) [
  | inl d ↦ rw d ((λ e. cc e), (λ e. cc e))
  | inr d ↦ rw d (d, h)
]

-- What is asked of the next rounds, for a rest of this length at most.
abbrev Good : ℕ → (Bytes → Bytes → Option Token → Tokens) → Type 0
Good n loop =
    (rest u : Bytes) (last : Option Token) → length rest ≤ n → Alternates last (loop rest u last)

round-Alternates :
    (n : ℕ) (loop : Bytes → Bytes → Option Token → Tokens) (m : Match) (rest u : Bytes)
    (last : Option Token)
    → Good n loop
    → length rest ≤ n
    → Alternates last (round loop (some (m, rest)) u last)
unfolding round
round-Alternates n loop (echar c) rest u last h le = h rest _ last le
round-Alternates n loop (chars cs) rest u last h le = h rest _ last le
round-Alternates n loop (tok c) rest u last h le =
    claim-Alternates u last _
      λ l. delimiter-Alternates (c == b'+') (c == b':') l _ (h rest [] (some (token_of c)) le)
round-Alternates n loop (binlen ds) rest u last h le = claim-Alternates u last _ λ l.
    binary-Alternates loop (value_of 0 ds) rest l
      (h (drop (value_of 0 ds) rest) [] _ (omega (arith, length-drop-le (value_of 0 ds) rest)))

tokenize_fuel-Alternates : (f : ℕ) → Good f (tokenize_fuel f)
unfolding tokenize_fuel
tokenize_fuel-Alternates f [] u last h = finish-Alternates u last
tokenize_fuel-Alternates zero (c ∷ cs) u last h = absurd (omega arith)
tokenize_fuel-Alternates (suc f) (c ∷ cs) u last h = elim (Option-cases (match_token (c ∷ cs))) [
  | inl e ↦ rw e ((λ e. cc e), (λ e. cc e))
  | inr ((m, rest), e) ↦ rw e (
      round-Alternates f (tokenize_fuel f) m rest u last (tokenize_fuel-Alternates f)
        (omega (arith, length-match_token c cs m rest e)))
]

-- On any bytes the tokenizer yields no two values in a row and no empty CHAR, yields EOF as its last
-- token and only there, or raises one of its own errors; its fuel never runs out.
pub tokenize-Alternates : (bytes : Bytes) → Alternates none (tokenize bytes)
unfolding tokenize
tokenize-Alternates bytes = tokenize_fuel-Alternates (length bytes) bytes [] none (omega arith)
