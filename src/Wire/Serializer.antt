-- ===== src/Wire/Serializer.antt =====
-- `escape_value`, `_implode_deg` and `implode_segments` of `FinTSSerializer` (parser.py).
pub mod Leaves
pub mod Writes
use geldstrom.Prelude.{
  ℕ, zero, suc, ◌+◌, Bool, true, false, ◌||◌, List, [], ◌∷◌, ◌++◌, length, ltb, ◌==◌, if◌then◌else◌,
  Outcome, ok, raised, ◌>>=◌,
}
use geldstrom.Wire.Decimal.{decimal}
use geldstrom.Wire.Token.{Bytes, WireError, not_latin1, not_escapable}
use geldstrom.Wire.Value.{
  Scalar, nothing, text, bytes, boolean, signed, rendered, other, Value, single, group, Items, nil,
  cons,
}

-- re.sub(r"([+:'@?])", r"?\1", val)
unfoldable pub escape : Bytes → Bytes
escape [] = []
escape (c ∷ cs) =
    let special = c == b'+' || c == b':' || c == b'\'' || c == b'@' || c == b'?' in
    if special then b'?' ∷ c ∷ escape cs else c ∷ escape cs

-- s.encode("iso-8859-1")
unfoldable pub encode : Bytes → Outcome WireError Bytes
encode [] = ok []
encode (c ∷ cs) = if ltb c 256 then (encode cs >>= λ rest. ok (c ∷ rest)) else raised not_latin1

-- str(val) of an int
abbrev pub show_signed : Bool → ℕ → Bytes
show_signed true n = b'-' ∷ decimal n
show_signed false n = decimal n

-- serialize_fints_bool
abbrev pub serialize_fints_bool : Bool → Bytes
serialize_fints_bool b = if b then b'J' ∷ [] else b'N' ∷ []

unfoldable pub escape_value : Scalar → Outcome WireError Bytes
unfolding escape encode
escape_value (text val) = encode (escape val)
escape_value (bytes val) = ok (b'@' ∷ (decimal (length val) ++ (b'@' ∷ val)))
escape_value nothing = ok []
escape_value (boolean val) = encode (serialize_fints_bool val)
escape_value (rendered val) = encode val
escape_value (signed negative n) = encode (show_signed negative n)
escape_value other = raised not_escapable

-- bytes([sep]).join(parts)
abbrev pub join : ℕ → List Bytes → Bytes
join sep [] = []
join sep (part ∷ []) = part
join sep (part ∷ next ∷ parts) = part ++ (sep ∷ join sep (next ∷ parts))

-- not (e != b"" and e is not None)
abbrev pub is_empty : Value → Bool
is_empty (single nothing) = true
is_empty (single (bytes [])) = true
is_empty _ = false

-- The number of items up to the last one that is not empty.
unfoldable pub highest_index : Items → ℕ
highest_index nil = 0
highest_index (cons v vs) =
    let rest = highest_index vs in if rest == 0 then (if is_empty v then 0 else 1) else suc rest

-- Called on the items up to `highest_index`, the number of which is the first argument.
unfoldable mutual
  unfolding highest_index escape_value

  pub implode_value : Value → Outcome WireError Bytes
  implode_value (single v) = escape_value v
  implode_value (group deg) =
      implode_parts (highest_index deg) deg >>= λ parts. ok (join b':' parts)

  pub implode_parts : ℕ → Items → Outcome WireError (List Bytes)
  implode_parts n nil = ok []
  implode_parts zero (cons v vs) = ok []
  implode_parts (suc n) (cons v vs) =
      implode_value v >>= λ part. implode_parts n vs >>= λ parts. ok (part ∷ parts)

-- level2
unfoldable pub implode_degs : List Value → Outcome WireError (List Bytes)
unfolding implode_value implode_parts
implode_degs [] = ok []
implode_degs (deg ∷ degs) =
    implode_value deg >>= λ part. implode_degs degs >>= λ parts. ok (part ∷ parts)

-- level1
unfoldable pub implode_level : List (List Value) → Outcome WireError (List Bytes)
unfolding implode_degs
implode_level [] = ok []
implode_level (segment ∷ segments) = implode_degs segment >>= λ level2.
    implode_level segments >>= λ level1. ok (join b'+' level2 ∷ level1)

unfoldable pub implode_segments : List (List Value) → Outcome WireError Bytes
unfolding implode_level
implode_segments message = implode_level message >>= λ level1. ok (join b'\'' level1 ++ b'\'' ∷ [])
