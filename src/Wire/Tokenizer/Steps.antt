-- ===== src/Wire/Tokenizer/Steps.antt =====
-- One round of the tokenizer with the fuel out of sight, and what it does on each kind of input.
use geldstrom.Prelude.{
  ℕ, zero, suc, ◌≤◌, ◌≡◌, refl, ap, Bool, Option, some, [], ◌∷◌, length, take, drop, arith, inl,
  inr, Option-cases,
}
use geldstrom.Wire.Decimal.{is_digit, value_of}
use geldstrom.Wire.Token.{Bytes, Token, Tokens, yields, binary}
use geldstrom.Wire.Tokenizer.{
  span, Match, echar, chars, tok, binlen, match_token, round, tokenize_fuel, tokenize_from,
  token_of, is_plain,
}

pub length-span : (p : ℕ → Bool) (cs : Bytes) → length (span p cs).1 ≤ length cs
unfolding span
length-span p [] = omega arith
length-span p (c ∷ cs) = ground (arith, length-span p cs)

pub length-drop-le : (n : ℕ) (cs : Bytes) → length (drop n cs) ≤ length cs
length-drop-le zero cs = omega arith
length-drop-le (suc n) [] = omega arith
length-drop-le (suc n) (c ∷ cs) = omega (arith, length-drop-le n cs)

-- A match leaves fewer bytes than it was given.
pub length-match_token :
    (c : ℕ) (cs : Bytes) (m : Match) (rest : Bytes)
    → match_token (c ∷ cs) ≡ some (m, rest)
    → length rest ≤ length cs
unfolding match_token
length-match_token c cs m rest h = ground (arith, length-span is_plain cs, length-span is_digit cs)

-- `loop` and `loop'` agree on what is at most `n` bytes long.
abbrev Agree :
    ℕ → (Bytes → Bytes → Option Token → Tokens) → (Bytes → Bytes → Option Token → Tokens) → Type 0
Agree n loop loop' =
    (rest unclaimed : Bytes) (last : Option Token)
    → length rest ≤ n
    → loop rest unclaimed last ≡ loop' rest unclaimed last

round-Agree :
    (n : ℕ) (loop loop' : Bytes → Bytes → Option Token → Tokens) (m : Match)
    (rest unclaimed : Bytes) (last : Option Token)
    → Agree n loop loop'
    → length rest ≤ n
    → round loop (some (m, rest)) unclaimed last ≡ round loop' (some (m, rest)) unclaimed last
unfolding round
round-Agree n loop loop' (echar c) rest unclaimed last same h = same rest _ last h
round-Agree n loop loop' (chars cs) rest unclaimed last same h = same rest _ last h
round-Agree n loop loop' (tok c) rest [] last same h = ap (yields (token_of c)) (same rest _ _ h)
round-Agree n loop loop' (tok c) rest (u ∷ us) last same h =
    ground (arith, same rest [] (some (token_of c)) h)
round-Agree n loop loop' (binlen ds) rest [] last same h = ground (
  arith,
  same (drop (value_of 0 ds) rest) [] (some (binary (take (value_of 0 ds) rest))),
  length-drop-le (value_of 0 ds) rest,
)
round-Agree n loop loop' (binlen ds) rest (u ∷ us) last same h = ground (
  arith,
  same (drop (value_of 0 ds) rest) [] (some (binary (take (value_of 0 ds) rest))),
  length-drop-le (value_of 0 ds) rest,
)

-- With at least as much fuel as there are bytes, the amount of fuel does not show.
tokenize_fuel-Agree : (f g n : ℕ) → n ≤ f → n ≤ g → Agree n (tokenize_fuel f) (tokenize_fuel g)
unfolding tokenize_fuel
tokenize_fuel-Agree f g n hf hg [] unclaimed last h = refl
tokenize_fuel-Agree zero g n hf hg (c ∷ cs) unclaimed last h = absurd (omega arith)
tokenize_fuel-Agree (suc f) zero n hf hg (c ∷ cs) unclaimed last h = absurd (omega arith)
tokenize_fuel-Agree (suc f) (suc g) n hf hg (c ∷ cs) unclaimed last h =
    elim (Option-cases (match_token (c ∷ cs))) [
      | inl e ↦ rw e
      | inr ((m, rest), e) ↦ rw e (
          round-Agree (length cs) (tokenize_fuel f) (tokenize_fuel g) m rest unclaimed last
            (tokenize_fuel-Agree f g (length cs) (omega arith) (omega arith))
            (length-match_token c cs m rest e))
    ]

-- One round, on a known match.
pub tokenize_from-match :
    (c : ℕ) (cs : Bytes) (m : Match) (rest unclaimed : Bytes) (last : Option Token)
    → match_token (c ∷ cs) ≡ some (m, rest)
    → tokenize_from (c ∷ cs) unclaimed last ≡ round tokenize_from (some (m, rest)) unclaimed last
unfolding tokenize_fuel
tokenize_from-match c cs m rest unclaimed last e = rw e (
    round-Agree (length cs) (tokenize_fuel (length cs)) tokenize_from m rest unclaimed last
      (λ r u l h.
        tokenize_fuel-Agree (length cs) (length r) (length r) h (omega arith) r u l (omega arith))
      (length-match_token c cs m rest e))
