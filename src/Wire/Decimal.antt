-- ===== src/Wire/Decimal.antt =====
-- Decimal numerals in ASCII: `str(n)` and `int(digits, 10)` as the wire code calls them.
use geldstrom.Prelude.{
  ℕ, zero, suc, ◌+◌, ◌-◌, ◌*◌, ◌/◌, ◌%◌, ◌<◌, ◌≡◌, refl, Bool, true, ◌&&◌, List, [], ◌∷◌, arith,
  ltb, leb, if◌then◌else◌, All, Bool-cases, inl, inr,
}
use native.Mathlib.Numerals.{add-one}

-- [0-9]
abbrev pub is_digit : ℕ → Bool
is_digit c = leb b'0' c && leb c b'9'

-- The digits of `n` in front of `out`; each round strips one, so `n + 1` rounds are enough.
pub digits : ℕ → ℕ → List ℕ → List ℕ
digits zero n out = out
digits (suc fuel) n out =
    let more = digits fuel (n / 10) ((b'0' + n % 10) ∷ out) in
    if ltb n 10 then (b'0' + n) ∷ out else more

-- str(n)
unfoldable pub decimal : ℕ → List ℕ
unfolding digits
decimal n = digits (n + 1) n []

-- int(digits, 10), on a run of ASCII digits
unfoldable pub value_of : ℕ → List ℕ → ℕ
value_of acc [] = acc
value_of acc (c ∷ cs) = value_of (acc * 10 + (c - b'0')) cs

value_of-digits :
    (fuel n : ℕ) (out : List ℕ) → n < fuel → value_of 0 (digits fuel n out) ≡ value_of n out
unfolding digits value_of
value_of-digits zero n out h = absurd (omega arith)
value_of-digits (suc fuel) n out h =
    ground (arith, value_of-digits fuel (n / 10) ((b'0' + n % 10) ∷ out))

-- Reading a printed number gives the number back.
pub value_of-decimal : (n : ℕ) → value_of 0 (decimal n) ≡ n
unfolding decimal value_of
value_of-decimal n = value_of-digits (n + 1) n [] (omega arith)

abbrev pub IsDigit : ℕ → Type 0
IsDigit c = is_digit c ≡ true

digits-IsDigit : (fuel n : ℕ) (out : List ℕ) → All IsDigit out → All IsDigit (digits fuel n out)
unfolding digits
digits-IsDigit zero n out h = h
digits-IsDigit (suc fuel) n out h = elim (Bool-cases (ltb n 10)) [
  | inl small ↦ rw small (ground arith, h)
  | inr large ↦ rw large (digits-IsDigit fuel (n / 10) _ (ground arith, h))
]

pub decimal-IsDigit : (n : ℕ) → All IsDigit (decimal n)
unfolding decimal
decimal-IsDigit n = digits-IsDigit (n + 1) n [] tt

digits-cons :
    (fuel n : ℕ) (out : List ℕ) (c : ℕ)
    → (d : ℕ) × (ds : List ℕ) × (digits fuel n (c ∷ out) ≡ d ∷ ds)
unfolding digits
digits-cons zero n out c = (c, out, refl)
digits-cons (suc fuel) n out c = elim (Bool-cases (ltb n 10)) [
  | inl small ↦ rw small (b'0' + n, c ∷ out, refl)
  | inr large ↦ rw large (digits-cons fuel (n / 10) (c ∷ out) _)
]

-- A printed number has a first digit.
pub decimal-cons : (n : ℕ) → (d : ℕ) × (ds : List ℕ) × (decimal n ≡ d ∷ ds)
unfolding decimal digits
decimal-cons n = elim (Bool-cases (ltb n 10)) [
  | inl small ↦ rw (add-one, digits) (rw small (b'0' + n, [], refl))
  | inr large ↦ rw (add-one, digits) (rw large (digits-cons n (n / 10) [] _))
]
