-- ===== src/Wire/RoundTrip/Segments.antt =====
-- The parser, run over the segments of a message that was written.
use mathlib.Core.List.{map}
use geldstrom.Prelude.{
  ℕ, ◌≡◌, refl, ◌∙◌, Bool, true, false, Option, some, List, [], ◌∷◌, ◌++◌, append-nil, ◌==◌,
  append_assoc, All, if◌then◌else◌, ok,
}
use geldstrom.Wire.Token.{Bytes, Token, plus, apostrophe, colon, Tokens, yields, is_data}
use geldstrom.Wire.Tokenizer.{tokenize_fuel, is_delimiter, token_of}
use geldstrom.Wire.Value.{Scalar, nothing, Value, Raw, absent, string, blob, RawSegment}
use geldstrom.Wire.Serializer.Leaves.{
  wire, leaves, leaves-cons, joined, deg_wire, segment_wire, message_wire,
}
use geldstrom.Wire.Serializer.Writes.{IsReadable, AreReadable}
use geldstrom.Wire.Parser.{between, in_segment, explode_from}
use geldstrom.Wire.RoundTrip.Reading.{read_scalar, raw_tokens, tokenize_from-wire}
use geldstrom.Wire.RoundTrip.Groups.{parse_from, read_deg, read_segment, parse_value}

parse_segment :
    (v : Value) (vs : List Value) (segments : List RawSegment) (segment : RawSegment) (rest : Bytes)
    (last : Option Token)
    → AreReadable (v ∷ vs)
    → is_data last ≡ false
    → parse_from segments (in_segment segment) (segment_wire (v ∷ vs) ++ (b'\'' ∷ rest)) last
      ≡ parse_from
          (segments ++ (segment ++ read_segment (v ∷ vs)) ∷ [])
          between
          rest
          (some apostrophe)
parse_segment v [] segments segment rest last h nd =
    parse_value true segments segment rest v last h.0 nd
parse_segment v (w ∷ vs) segments segment rest last h nd = rw append_assoc (
    parse_value false segments segment _ v last h.0 nd
    ∙ parse_segment w vs segments (segment ++ read_deg (leaves v) ∷ []) rest (some plus) h.1 refl
    ∙ rw append_assoc)

-- The first element of what is written for a segment, and the delimiter behind it.
abbrev Starts : Bytes → Type 0
Starts ahead =
    (s : Scalar) × (d : ℕ) × (rest : Bytes) × IsReadable s
    × (is_delimiter d ≡ true)
    × (ahead ≡ wire s ++ (d ∷ rest))

joined-Starts :
    (s : Scalar) (ss : List Scalar) (d : ℕ) (rest : Bytes)
    → IsReadable s
    → is_delimiter d ≡ true
    → Starts (joined b':' (s ∷ ss) ++ (d ∷ rest))
joined-Starts s [] d rest h e = (s, d, rest, h, e, refl)
joined-Starts s (t ∷ ss) d rest h e =
    (s, b':', joined b':' (t ∷ ss) ++ (d ∷ rest), h, refl, rw append_assoc)

deg_wire-Starts :
    (v : Value) (d : ℕ) (rest : Bytes)
    → All IsReadable (leaves v)
    → is_delimiter d ≡ true
    → Starts (deg_wire v ++ (d ∷ rest))
deg_wire-Starts v d rest h e =
    let (s, ss, f) = leaves-cons v in rw f (joined-Starts s ss d rest (rw f at h).0 e)

segment_wire-Starts :
    (vs : List Value) (rest : Bytes) → AreReadable vs → Starts (segment_wire vs ++ (b'\'' ∷ rest))
segment_wire-Starts [] rest h = (nothing, b'\'', rest, tt, refl, refl)
segment_wire-Starts (v ∷ []) rest h = deg_wire-Starts v b'\'' rest h.0 refl
segment_wire-Starts (v ∷ w ∷ vs) rest h = rw append_assoc (deg_wire-Starts v b'+' _ h.0 refl)

-- At such a start the parser enters a segment.
enter_segment :
    (v : Raw) (d : ℕ) (segments : List RawSegment) (ts : Tokens)
    → explode_from segments between (raw_tokens v (yields (token_of d) ts))
      ≡ explode_from segments (in_segment []) (raw_tokens v (yields (token_of d) ts))
unfolding explode_from
enter_segment absent d segments ts = by_token (d == b'+') (d == b':')
  where
    by_token :
        (p q : Bool)
        → explode_from segments between
            (yields (if p then plus else if q then colon else apostrophe) ts)
          ≡ explode_from segments
              (in_segment [])
              (yields (if p then plus else if q then colon else apostrophe) ts)
    by_token true q = refl
    by_token false true = refl
    by_token false false = refl
enter_segment (string v) d segments ts = refl
enter_segment (blob v) d segments ts = refl

from_between :
    (ahead : Bytes) (segments : List RawSegment) (last : Option Token)
    → Starts ahead
    → is_data last ≡ false
    → parse_from segments between ahead last ≡ parse_from segments (in_segment []) ahead last
from_between ahead segments last (s, d, rest, h, e, f) nd =
    rw f (rw (tokenize_from-wire s d rest last h e nd) (enter_segment (read_scalar s) d segments _))

pub parse_message :
    (m : List (List Value)) (segments : List RawSegment) (last : Option Token)
    → All AreReadable m
    → is_data last ≡ false
    → parse_from segments between (message_wire m) last ≡ ok (segments ++ map read_segment m)
parse_message [] segments last h nd = unfold explode_from tokenize_fuel in rw append-nil
parse_message (vs ∷ m) segments last h nd =
    from_between _ segments last (segment_wire-Starts vs (message_wire m) h.0) nd
    ∙ one vs h.0
    ∙ parse_message m (segments ++ read_segment vs ∷ []) (some apostrophe) h.1 refl
    ∙ rw append_assoc
  where
    one :
        (us : List Value)
        → AreReadable us
        → parse_from segments (in_segment []) (segment_wire us ++ (b'\'' ∷ message_wire m)) last
          ≡ parse_from (segments ++ read_segment us ∷ []) between (message_wire m) (some apostrophe)
    one [] r =
        rw (tokenize_from-wire nothing b'\'' (message_wire m) last tt refl nd)
          (unfold explode_from in refl)
    one (v ∷ us) r = parse_segment v us segments [] (message_wire m) last r nd
