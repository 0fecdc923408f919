-- ===== src/Wire/Serializer/Writes.antt =====
-- The serializer succeeds on every message whose values it can write.
use geldstrom.Prelude.{
  ℕ, zero, suc, ◌<◌, ◌≡◌, refl, Bool, true, false, List, [], ◌∷◌, ◌++◌, arith, All, if◌then◌else◌,
  Outcome, ok, ◌>>=◌,
}
use geldstrom.Wire.Decimal.{decimal, IsDigit, decimal-IsDigit}
use geldstrom.Wire.Token.{Bytes, WireError}
use geldstrom.Wire.Tokenizer.{is_plain}
use geldstrom.Wire.Value.{
  Scalar, nothing, text, bytes, boolean, signed, rendered, other, Value, single, group, Items, nil,
  cons,
}
use geldstrom.Wire.Serializer.{
  escape, encode, show_signed, serialize_fints_bool, escape_value, highest_index, implode_value,
  implode_parts, implode_degs, implode_level, implode_segments,
}
use geldstrom.Wire.Serializer.Leaves.{leaves, leaves_of, or_nothing}

abbrev IsLatin1 : ℕ → Type 0
IsLatin1 c = c < 256

-- What can be written: texts in ISO-8859-1, also those that the runtime renders, and no value of a type
-- that the serializer refuses.
abbrev pub IsWritable : Scalar → Type 0
IsWritable (text val) = All IsLatin1 val
IsWritable (rendered val) = All IsLatin1 val
IsWritable other = ⊥
IsWritable _ = Unit

abbrev pub AreWritable : List Value → Type 0
AreWritable vs = All (λ v. All IsWritable (leaves v)) vs

-- What can also be read back: the text that the runtime renders is not escaped, so it holds no special
-- character.
abbrev pub IsReadable : Scalar → Type 0
IsReadable (text val) = All IsLatin1 val
IsReadable (rendered val) = All (λ c. is_plain c ≡ true) val × All IsLatin1 val
IsReadable other = ⊥
IsReadable _ = Unit

abbrev pub AreReadable : List Value → Type 0
AreReadable vs = All (λ v. All IsReadable (leaves v)) vs

IsReadable-IsWritable : (v : Scalar) → IsReadable v → IsWritable v
IsReadable-IsWritable (text val) h = h
IsReadable-IsWritable (bytes val) h = tt
IsReadable-IsWritable nothing h = tt
IsReadable-IsWritable (boolean b) h = tt
IsReadable-IsWritable (rendered val) h = h.1
IsReadable-IsWritable (signed b n) h = tt
IsReadable-IsWritable other h = h

All-map :
    {A : Type 0} (P Q : A → Type 0) (xs : List A) → ((x : A) → P x → Q x) → All P xs → All Q xs
All-map P Q [] f h = tt
All-map P Q (x ∷ xs) f (h, rest) = (f x h, All-map P Q xs f rest)

pub AreReadable-AreWritable : (m : List (List Value)) → All AreReadable m → All AreWritable m
AreReadable-AreWritable m h =
    All-map AreReadable AreWritable m
      (λ vs. All-map _ _ vs (λ v. All-map IsReadable IsWritable (leaves v) IsReadable-IsWritable)) h

-- It returns a value.
abbrev pub Succeeds : {A : Type 0} → Outcome WireError A → Type 0
Succeeds {A} r = (a : A) × (r ≡ ok a)

encode_lem : (s : Bytes) → All IsLatin1 s → encode s ≡ ok s
unfolding encode
encode_lem [] h = refl
encode_lem (c ∷ cs) h = rw (encode_lem cs h.1) (ground arith)

All-if :
    (b : Bool) (s t : Bytes) → All IsLatin1 s → All IsLatin1 t → All IsLatin1 (if b then s else t)
All-if true s t h k = h
All-if false s t h k = k

escape-IsLatin1 : (s : Bytes) → All IsLatin1 s → All IsLatin1 (escape s)
unfolding escape
escape-IsLatin1 [] h = tt
escape-IsLatin1 (c ∷ cs) h =
    let ih = escape-IsLatin1 cs h.1 in
    All-if _ (b'?' ∷ c ∷ escape cs) (c ∷ escape cs) (omega arith, (h.0, ih)) (h.0, ih)

digits-IsLatin1 : (s : Bytes) → All IsDigit s → All IsLatin1 s
digits-IsLatin1 [] h = tt
digits-IsLatin1 (c ∷ cs) h = (ground arith, digits-IsLatin1 cs h.1)

show_signed-IsLatin1 : (b : Bool) (n : ℕ) → All IsLatin1 (show_signed b n)
show_signed-IsLatin1 true n = (omega arith, digits-IsLatin1 (decimal n) (decimal-IsDigit n))
show_signed-IsLatin1 false n = digits-IsLatin1 (decimal n) (decimal-IsDigit n)

bool-IsLatin1 : (b : Bool) → All IsLatin1 (serialize_fints_bool b)
bool-IsLatin1 true = (omega arith, tt)
bool-IsLatin1 false = (omega arith, tt)

escape_value-Succeeds : (v : Scalar) → IsWritable v → Succeeds (escape_value v)
unfolding escape_value
escape_value-Succeeds (text val) h = (_, encode_lem (escape val) (escape-IsLatin1 val h))
escape_value-Succeeds (bytes val) h = (_, refl)
escape_value-Succeeds nothing h = (_, refl)
escape_value-Succeeds (boolean b) h = (_, encode_lem _ (bool-IsLatin1 b))
escape_value-Succeeds (rendered val) h = (_, encode_lem val h)
escape_value-Succeeds (signed b n) h = (_, encode_lem _ (show_signed-IsLatin1 b n))
escape_value-Succeeds other h = absurd h

bind-Succeeds :
    {A B : Type 0} (m : Outcome WireError A) (f : A → Outcome WireError B)
    → Succeeds m
    → ((a : A) → Succeeds (f a))
    → Succeeds (m >>= f)
bind-Succeeds m f (a, e) h = rw e (h a)

All-or_nothing : (l : List Scalar) → All IsWritable (or_nothing l) → All IsWritable l
All-or_nothing [] h = tt
All-or_nothing (s ∷ ss) h = h

All-left : (a b : List Scalar) → All IsWritable (a ++ b) → All IsWritable a
All-left [] b h = tt
All-left (s ∷ a) b h = (h.0, All-left a b h.1)

All-right : (a b : List Scalar) → All IsWritable (a ++ b) → All IsWritable b
All-right [] b h = h
All-right (s ∷ a) b h = All-right a b h.1

mutual
  unfolding implode_value implode_parts leaves leaves_of

  implode_value-Succeeds : (v : Value) → All IsWritable (leaves v) → Succeeds (implode_value v)
  implode_value-Succeeds (single v) h = escape_value-Succeeds v h.0
  implode_value-Succeeds (group deg) h =
      bind-Succeeds _ _ (implode_parts-Succeeds (highest_index deg) deg (All-or_nothing _ h))
        (λ ps. (_, refl))

  implode_parts-Succeeds :
      (n : ℕ) (vs : Items) → All IsWritable (leaves_of n vs) → Succeeds (implode_parts n vs)
  implode_parts-Succeeds n nil h = ([], refl)
  implode_parts-Succeeds zero (cons v vs) h = ([], refl)
  implode_parts-Succeeds (suc n) (cons v vs) h =
      bind-Succeeds _ _ (implode_value-Succeeds v (All-left (leaves v) (leaves_of n vs) h)) (λ b.
        bind-Succeeds _ _ (implode_parts-Succeeds n vs (All-right (leaves v) (leaves_of n vs) h))
          (λ bs. (_, refl)))

implode_degs-Succeeds : (vs : List Value) → AreWritable vs → Succeeds (implode_degs vs)
unfolding implode_degs
implode_degs-Succeeds [] h = ([], refl)
implode_degs-Succeeds (v ∷ vs) h =
    bind-Succeeds _ _ (implode_value-Succeeds v h.0)
      (λ b. bind-Succeeds _ _ (implode_degs-Succeeds vs h.1) (λ bs. (_, refl)))

implode_level-Succeeds : (m : List (List Value)) → All AreWritable m → Succeeds (implode_level m)
unfolding implode_level
implode_level-Succeeds [] h = ([], refl)
implode_level-Succeeds (vs ∷ m) h =
    bind-Succeeds _ _ (implode_degs-Succeeds vs h.0)
      (λ b. bind-Succeeds _ _ (implode_level-Succeeds m h.1) (λ bs. (_, refl)))

-- The serializer returns bytes for every message whose texts, and whose texts that the runtime renders,
-- are in ISO-8859-1, and in which no value is of a type that it refuses.
pub implode_segments-Succeeds :
    (m : List (List Value)) → All AreWritable m → Succeeds (implode_segments m)
unfolding implode_segments
implode_segments-Succeeds m h = bind-Succeeds _ _ (implode_level-Succeeds m h) (λ ps. (_, refl))
