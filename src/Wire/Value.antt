-- ===== src/Wire/Value.antt =====
-- Values that the serializer is given, and raw values that the parser hands out.
use geldstrom.Prelude.{ℕ, List, Bool}
use geldstrom.Wire.Token.{Bytes}

-- The cases of `FinTSSerializer.escape_value`. A text is its code points. `signed negative n` is the
-- `int` with that sign and magnitude; `rendered` is a date, time, float or Enum member with the text
-- that `strftime` or `str` gives for it; `other` is a value of any other type.
pub data Scalar : Type 0 where
  nothing : Scalar
  text : Bytes → Scalar
  bytes : Bytes → Scalar
  boolean : Bool → Scalar
  signed : Bool → ℕ → Scalar
  rendered : Bytes → Scalar
  other : Scalar

-- A data element, or a data element group: a Python list, possibly with lists inside.
mutual
  pub data Value : Type 0 where
    single : Scalar → Value
    group : Items → Value

  pub data Items : Type 0 where
    nil : Items
    cons : Value → Items → Items

-- What `explode_segments` puts into a segment: `None`, `str`, `bytes`, or a list of these.
pub data Raw : Type 0 where
  absent : Raw
  string : Bytes → Raw
  blob : Bytes → Raw

pub data RawDeg : Type 0 where
  element : Raw → RawDeg
  elements : List Raw → RawDeg

abbrev pub RawSegment : Type 0
RawSegment = List RawDeg
