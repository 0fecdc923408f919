-- ===== src/Wire/Parser.antt =====
-- `FinTSParser.explode_segments` (parser.py), over what the tokenizer yields. The three nested
-- loops are three places; a place says what the locals of the loops around it hold.
pub mod Keeps
use geldstrom.Prelude.{Bool, true, false, List, [], ◌∷◌, ◌++◌, Outcome, ok, raised}
use geldstrom.Wire.Token.{
  Bytes, Token, char, binary, plus, colon, apostrophe, eof, WireError, expected_apostrophe,
  exhausted, Tokens, yields, returns, raises,
}
use geldstrom.Wire.Tokenizer.{tokenize}
use geldstrom.Wire.Value.{Raw, absent, string, blob, RawDeg, element, elements, RawSegment}

-- At the test of the outer loop, of the loop over a segment, and of the loop over a DEG.
pub data Place : Type 0 where
  between : Place
  in_segment : RawSegment → Place
  in_deg : RawSegment → List Raw → Raw → Place

pub data Move : Type 0 where
  go : List RawSegment → Place → Move
  done : List RawSegment → Move
  fail : WireError → Move

-- bool(data_value)
abbrev pub is_truthy : Raw → Bool
is_truthy absent = false
is_truthy (string []) = false
is_truthy (blob []) = false
is_truthy _ = true

-- behind the innermost loop: `if data_value and deg: …`, `if deg: data_value = deg`
abbrev pub close_deg : List Raw → Raw → RawDeg
close_deg [] data_value = element data_value
close_deg (d ∷ deg) data_value = elim (is_truthy data_value) [
  | true ↦ elements ((d ∷ deg) ++ data_value ∷ [])
  | false ↦ elements (d ∷ deg)
]

-- The innermost loop at one token, or what follows it where the token ends it.
abbrev pub deg_step : List RawSegment → RawSegment → List Raw → Raw → Token → Move
deg_step segments segment deg data_value (char v) = go segments (in_deg segment deg (string v))
deg_step segments segment deg data_value (binary v) = go segments (in_deg segment deg (blob v))
deg_step segments segment deg data_value colon =
    go segments (in_deg segment (deg ++ data_value ∷ []) absent)
deg_step segments segment deg data_value plus =
    go segments (in_segment (segment ++ close_deg deg data_value ∷ []))
deg_step segments segment deg data_value apostrophe =
    go (segments ++ (segment ++ close_deg deg data_value ∷ []) ∷ []) between
deg_step segments segment deg data_value eof = fail expected_apostrophe

abbrev pub segment_step : List RawSegment → RawSegment → Token → Move
segment_step segments segment apostrophe = go (segments ++ segment ∷ []) between
segment_step segments segment eof = fail expected_apostrophe
segment_step segments segment t = deg_step segments segment [] absent t

abbrev pub outer_step : List RawSegment → Token → Move
outer_step segments eof = done segments
outer_step segments t = segment_step segments [] t

abbrev pub step : List RawSegment → Place → Token → Move
step segments between t = outer_step segments t
step segments (in_segment segment) t = segment_step segments segment t
step segments (in_deg segment deg data_value) t = deg_step segments segment deg data_value t

unfoldable pub explode_from : List RawSegment → Place → Tokens → Outcome WireError (List RawSegment)
explode_from segments place returns = raised exhausted
explode_from segments place (raises e) = raised e
explode_from segments place (yields t ts) = elim (step segments place t) [
  | go segments' place' ↦ explode_from segments' place' ts
  | done result ↦ ok result
  | fail e ↦ raised e
]

unfoldable pub explode_segments : Bytes → Outcome WireError (List RawSegment)
unfolding tokenize explode_from
explode_segments bytes = explode_from [] between (tokenize bytes)
