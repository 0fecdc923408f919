-- ===== src/Wire/Serializer/Leaves.antt =====
-- The data elements of a message in the order of the wire, nested groups flattened, each with the
-- bytes that it takes there.
use geldstrom.Prelude.{
  ℕ, zero, suc, ◌≡◌, refl, sym, ap, ◌∙◌, List, [], ◌∷◌, ◌++◌, length, append_assoc, append-nil, ok,
  ◌>>=◌, bind-eq-ok, ltb, Bool-cases, inl, inr,
}
use mathlib.Core.List.{map}
use geldstrom.Wire.Decimal.{decimal}
use geldstrom.Wire.Token.{Bytes}
use geldstrom.Wire.Value.{
  Scalar, nothing, text, bytes, boolean, signed, rendered, other, Value, single, group, Items, nil,
  cons,
}
use geldstrom.Wire.Serializer.{
  escape, encode, show_signed, serialize_fints_bool, escape_value, join, highest_index,
  implode_value, implode_parts, implode_degs, implode_level, implode_segments,
}

-- The bytes of a scalar, had every code point a byte.
abbrev pub wire : Scalar → Bytes
wire (text val) = escape val
wire (bytes val) = b'@' ∷ (decimal (length val) ++ (b'@' ∷ val))
wire (boolean val) = serialize_fints_bool val
wire (signed negative n) = show_signed negative n
wire (rendered val) = val
wire _ = []

encode-eq-ok : (s : Bytes) {b : Bytes} → encode s ≡ ok b → b ≡ s
unfolding encode
encode-eq-ok [] h = cc
encode-eq-ok (c ∷ cs) h = elim (Bool-cases (ltb c 256)) [
  | inl fits ↦
      let (rest, e, f) = bind-eq-ok (encode cs) (λ r. ok (c ∷ r)) (rw fits at h) in
      cc (encode-eq-ok cs e)
  | inr large ↦ absurd (cc (rw large at h))
]

escape_value-eq-ok : (v : Scalar) {b : Bytes} → escape_value v ≡ ok b → b ≡ wire v
unfolding escape_value
escape_value-eq-ok (text val) h = encode-eq-ok (escape val) h
escape_value-eq-ok (boolean val) h = encode-eq-ok (serialize_fints_bool val) h
escape_value-eq-ok (rendered val) h = encode-eq-ok val h
escape_value-eq-ok (signed negative n) h = encode-eq-ok (show_signed negative n) h
escape_value-eq-ok nothing h = cc
escape_value-eq-ok (bytes val) h = cc
escape_value-eq-ok other h = absurd (cc)

-- A list of leaves is written as one empty element where it would be no element.
abbrev pub or_nothing : List Scalar → List Scalar
or_nothing [] = nothing ∷ []
or_nothing (s ∷ ss) = s ∷ ss

unfoldable mutual
  pub leaves : Value → List Scalar
  leaves (single v) = v ∷ []
  leaves (group deg) = or_nothing (leaves_of (highest_index deg) deg)

  pub leaves_of : ℕ → Items → List Scalar
  leaves_of n nil = []
  leaves_of zero (cons v vs) = []
  leaves_of (suc n) (cons v vs) = leaves v ++ leaves_of n vs

-- Leaves with `sep` between them.
abbrev pub joined : ℕ → List Scalar → Bytes
joined sep [] = []
joined sep (s ∷ []) = wire s
joined sep (s ∷ t ∷ ss) = wire s ++ (sep ∷ joined sep (t ∷ ss))

pub leaves-cons : (v : Value) → (s : Scalar) × (ss : List Scalar) × (leaves v ≡ s ∷ ss)
unfolding leaves
leaves-cons (single v) = (v, [], refl)
leaves-cons (group deg) = or_nothing-cons (leaves_of (highest_index deg) deg)
  where
    or_nothing-cons :
        (l : List Scalar) → (s : Scalar) × (ss : List Scalar) × (or_nothing l ≡ s ∷ ss)
    or_nothing-cons [] = (nothing, [], refl)
    or_nothing-cons (s ∷ ss) = (s, ss, refl)

joined-or_nothing : (sep : ℕ) (l : List Scalar) → joined sep (or_nothing l) ≡ joined sep l
joined-or_nothing sep [] = refl
joined-or_nothing sep (s ∷ ss) = refl

joined-append :
    (sep : ℕ) (s : Scalar) (ss : List Scalar) (t : Scalar) (ts : List Scalar)
    → joined sep ((s ∷ ss) ++ (t ∷ ts)) ≡ joined sep (s ∷ ss) ++ (sep ∷ joined sep (t ∷ ts))
joined-append sep s [] t ts = refl
joined-append sep s (u ∷ us) t ts = rw (joined-append sep u us t ts) (rw append_assoc)

-- Parts that are, one by one, non-empty runs of the leaves.
data Writes : List Bytes → List Scalar → Type 0 where
  none : Writes [] []
  part :
      {p : Bytes} {ps : List Bytes} {l : List Scalar} (s : Scalar) (ss ts : List Scalar)
      → p ≡ joined b':' (s ∷ ss)
      → l ≡ (s ∷ ss) ++ ts
      → Writes ps ts
      → Writes (p ∷ ps) l

join_part :
    {ps : List Bytes} {ts : List Scalar} (p : Bytes) (s : Scalar) (ss : List Scalar)
    → p ≡ joined b':' (s ∷ ss)
    → Writes ps ts
    → join b':' ps ≡ joined b':' ts
    → join b':' (p ∷ ps) ≡ joined b':' ((s ∷ ss) ++ ts)
join_part p s ss e none ih = rw append-nil e
join_part p s ss e (part {ps} t us vs g h w) ih =
    rw (h, joined-append b':' s ss t (us ++ vs), ← e) (ap (λ r. p ++ (b':' ∷ r)) (ih ∙ rw h))

join-Writes : {ps : List Bytes} {l : List Scalar} → Writes ps l → join b':' ps ≡ joined b':' l
join-Writes none = refl
join-Writes (part {p} s ss ts e f w) = rw f (join_part p s ss e w (join-Writes w))

Writes-cons :
    (v : Value) (p : Bytes) (ps : List Bytes) (ts : List Scalar)
    → p ≡ joined b':' (leaves v)
    → Writes ps ts
    → Writes (p ∷ ps) (leaves v ++ ts)
Writes-cons v p ps ts e w = let (s, ss, f) = leaves-cons v in part s ss ts (rw (← f) e) (rw f) w

mutual
  unfolding implode_value implode_parts leaves leaves_of

  implode_value-leaves :
      (v : Value) (b : Bytes) → implode_value v ≡ ok b → b ≡ joined b':' (leaves v)
  implode_value-leaves (single v) b h = escape_value-eq-ok v h
  implode_value-leaves (group deg) b h =
      let (ps, e, f) =
        bind-eq-ok (implode_parts (highest_index deg) deg) (λ ps. ok (join b':' ps)) h in
      cc f
      ∙ join-Writes (implode_parts-Writes (highest_index deg) deg ps e)
      ∙ sym (joined-or_nothing b':' (leaves_of (highest_index deg) deg))

  implode_parts-Writes :
      (n : ℕ) (vs : Items) (ps : List Bytes)
      → implode_parts n vs ≡ ok ps
      → Writes ps (leaves_of n vs)
  implode_parts-Writes n nil [] h = none
  implode_parts-Writes n nil (p ∷ ps) h = absurd (cc)
  implode_parts-Writes zero (cons v vs) [] h = none
  implode_parts-Writes zero (cons v vs) (p ∷ ps) h = absurd (cc)
  implode_parts-Writes (suc n) (cons v vs) ps h =
      let (b, e, f) =
        bind-eq-ok (implode_value v) (λ b. implode_parts n vs >>= λ bs. ok (b ∷ bs)) h in
      let (bs, g, k) = bind-eq-ok (implode_parts n vs) (λ bs. ok (b ∷ bs)) f in
      let same : b ∷ bs ≡ ps = cc k in
      rw (← same) (
        Writes-cons v b bs (leaves_of n vs) (implode_value-leaves v b e)
          (implode_parts-Writes n vs bs g))

-- The bytes of a data element group, of a segment, and of a segment with its terminator.
abbrev pub deg_wire : Value → Bytes
deg_wire v = joined b':' (leaves v)

abbrev pub segment_wire : List Value → Bytes
segment_wire vs = join b'+' (map deg_wire vs)

abbrev pub message_wire : List (List Value) → Bytes
message_wire [] = []
message_wire (segment ∷ segments) = segment_wire segment ++ (b'\'' ∷ message_wire segments)

implode_degs-eq-ok :
    (vs : List Value) (ps : List Bytes) → implode_degs vs ≡ ok ps → ps ≡ map deg_wire vs
unfolding implode_degs
implode_degs-eq-ok [] ps h = cc
implode_degs-eq-ok (v ∷ vs) ps h =
    let (b, e, f) = bind-eq-ok (implode_value v) (λ b. implode_degs vs >>= λ bs. ok (b ∷ bs)) h in
    let (bs, g, k) = bind-eq-ok (implode_degs vs) (λ bs. ok (b ∷ bs)) f in
    cc (implode_value-leaves v b e, implode_degs-eq-ok vs bs g)

implode_level-eq-ok :
    (m : List (List Value)) (ps : List Bytes) → implode_level m ≡ ok ps → ps ≡ map segment_wire m
unfolding implode_level
implode_level-eq-ok [] ps h = cc
implode_level-eq-ok (vs ∷ m) ps h =
    let (bs, e, f) =
      bind-eq-ok (implode_degs vs) (λ bs. implode_level m >>= λ rest. ok (join b'+' bs ∷ rest)) h in
    let (rest, g, k) = bind-eq-ok (implode_level m) (λ rest. ok (join b'+' bs ∷ rest)) f in
    cc (ap (join b'+') (implode_degs-eq-ok vs bs e), implode_level-eq-ok m rest g)

join_terminated :
    (vs : List Value) (m : List (List Value))
    → join b'\'' (map segment_wire (vs ∷ m)) ++ b'\'' ∷ [] ≡ message_wire (vs ∷ m)
join_terminated vs [] = refl
join_terminated vs (ws ∷ m) =
    rw append_assoc (ap (λ r. segment_wire vs ++ (b'\'' ∷ r)) (join_terminated ws m))

-- A message with a segment is written as its segments one behind the other, each terminated.
pub implode_segments-eq-ok :
    (vs : List Value) (m : List (List Value)) (w : Bytes)
    → implode_segments (vs ∷ m) ≡ ok w
    → w ≡ message_wire (vs ∷ m)
unfolding implode_segments
implode_segments-eq-ok vs m w h =
    let (ps, e, f) =
      bind-eq-ok (implode_level (vs ∷ m)) (λ ps. ok (join b'\'' ps ++ b'\'' ∷ [])) h in
    cc (
      ap (λ (ps : List Bytes). join b'\'' ps ++ b'\'' ∷ []) (implode_level-eq-ok (vs ∷ m) ps e),
      join_terminated vs m,
    )
