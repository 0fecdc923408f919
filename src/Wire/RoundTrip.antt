-- ===== src/Wire/RoundTrip.antt =====
-- What `explode_segments` makes of the bytes that `implode_segments` writes.
pub mod Reading
pub mod Groups
pub mod Segments
use mathlib.Core.List.{map}
use geldstrom.Prelude.{◌≡◌, refl, none, List, [], ◌∷◌, All, Outcome, ok}
use geldstrom.Wire.Token.{Bytes}
use geldstrom.Wire.Value.{Value}
use geldstrom.Wire.Parser.{explode_segments}
use geldstrom.Wire.Serializer.{implode_segments}
use geldstrom.Wire.Serializer.Leaves.{implode_segments-eq-ok}
use geldstrom.Wire.RoundTrip.Groups.{read_segment}
use geldstrom.Wire.RoundTrip.Segments.{parse_message}
use geldstrom.Wire.Serializer.Writes.{
  AreReadable, AreReadable-AreWritable, implode_segments-Succeeds,
}

-- A message that has a segment, whose texts are in ISO-8859-1, in which no value is of a type that the
-- serializer refuses, and in which the text of a number with a fraction, a date or an enumeration, which
-- the serializer does not escape, holds none of the special characters ' + : ? @: it is written, and the
-- parser reads the bytes back as the message's segments in order, each as `read_segment` says: every
-- text and every binary value as it was, whatever special bytes it holds, a number or bool as its
-- text, nested groups flattened, a group without its empty end, a group of one as its element, and a
-- segment without a last data element that takes no byte.
pub explode-implode :
    (vs : List Value) (m : List (List Value))
    → All AreReadable (vs ∷ m)
    → (w : Bytes) × (implode_segments (vs ∷ m) ≡ ok w)
      × (explode_segments w ≡ ok (map read_segment (vs ∷ m)))
unfolding explode_segments
explode-implode vs m h =
    let (w, e) = implode_segments-Succeeds (vs ∷ m) (AreReadable-AreWritable (vs ∷ m) h) in
    (w, e, rw (implode_segments-eq-ok vs m w e) (parse_message (vs ∷ m) [] none h refl))
