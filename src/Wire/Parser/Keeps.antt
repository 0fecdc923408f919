-- ===== src/Wire/Parser/Keeps.antt =====
-- The parser drops no value.
use geldstrom.Prelude.{
  ◌≡◌, ◌≢◌, refl, false, Option, none, some, List, [], ◌∷◌, ◌++◌, append-nil, append_assoc,
  if◌then◌else◌, Outcome, ok, raised,
}
use geldstrom.Wire.Token.{
  Bytes, Token, char, binary, plus, colon, apostrophe, eof, WireError, exhausted, out_of_fuel,
  Tokens, yields, returns, raises, is_data,
}
use geldstrom.Wire.Tokenizer.{tokenize}
use geldstrom.Wire.Tokenizer.Adjacent.{Alternates, tokenize-Alternates}
use geldstrom.Wire.Value.{Raw, absent, string, blob, RawDeg, element, elements, RawSegment}
use geldstrom.Wire.Parser.{
  Place, between, in_segment, in_deg, is_truthy, close_deg, explode_from, explode_segments,
}

-- A value that holds at least one byte.
abbrev pub kept : Raw → List Raw
kept v = if is_truthy v then v ∷ [] else []

abbrev pub raws_kept : List Raw → List Raw
raws_kept [] = []
raws_kept (v ∷ vs) = kept v ++ raws_kept vs

abbrev pub deg_kept : RawDeg → List Raw
deg_kept (element v) = kept v
deg_kept (elements vs) = raws_kept vs

abbrev pub segment_kept : RawSegment → List Raw
segment_kept [] = []
segment_kept (d ∷ ds) = deg_kept d ++ segment_kept ds

abbrev pub message_kept : List RawSegment → List Raw
message_kept [] = []
message_kept (s ∷ ss) = segment_kept s ++ message_kept ss

-- The values among the tokens.
abbrev pub tokens_kept : Tokens → List Raw
tokens_kept (yields (char v) ts) = kept (string v) ++ tokens_kept ts
tokens_kept (yields (binary v) ts) = kept (blob v) ++ tokens_kept ts
tokens_kept (yields _ ts) = tokens_kept ts
tokens_kept _ = []

raws_kept-append : (a b : List Raw) → raws_kept (a ++ b) ≡ raws_kept a ++ raws_kept b
raws_kept-append [] b = refl
raws_kept-append (v ∷ a) b = rw (raws_kept-append a b, append_assoc)

segment_kept-append : (a b : RawSegment) → segment_kept (a ++ b) ≡ segment_kept a ++ segment_kept b
segment_kept-append [] b = refl
segment_kept-append (v ∷ a) b = rw (segment_kept-append a b, append_assoc)

message_kept-append :
    (a b : List RawSegment) → message_kept (a ++ b) ≡ message_kept a ++ message_kept b
message_kept-append [] b = refl
message_kept-append (v ∷ a) b = rw (message_kept-append a b, append_assoc)

deg_kept-close_deg :
    (deg : List Raw) (v : Raw) → deg_kept (close_deg deg v) ≡ raws_kept deg ++ kept v
deg_kept-close_deg [] v = refl
deg_kept-close_deg (r ∷ deg) absent = rw append-nil
deg_kept-close_deg (r ∷ deg) (string []) = rw append-nil
deg_kept-close_deg (r ∷ deg) (string (c ∷ cs)) = rw (raws_kept-append deg, append_assoc)
deg_kept-close_deg (r ∷ deg) (blob []) = rw append-nil
deg_kept-close_deg (r ∷ deg) (blob (c ∷ cs)) = rw (raws_kept-append deg, append_assoc)

-- What the locals of a place hold.
abbrev place_kept : Place → List Raw
place_kept between = []
place_kept (in_segment segment) = segment_kept segment
place_kept (in_deg segment deg v) = segment_kept segment ++ (raws_kept deg ++ kept v)

-- A value waits in `data_value` only where the last token was a value.
abbrev Waits : Place → Option Token → Type 0
Waits (in_deg segment deg v) last = is_data last ≡ false → v ≡ absent
Waits _ last = Unit

-- The result holds what was held before and the values still to come.
abbrev pub Holds : List Raw → Outcome WireError (List RawSegment) → Type 0
Holds vs (ok segments) = message_kept segments ≡ vs
Holds vs (raised e) = (e ≢ out_of_fuel) × (e ≢ exhausted)

abbrev Keeps : Tokens → Type 0
Keeps ts =
    (segments : List RawSegment) (place : Place) (last : Option Token)
    → Alternates last ts
    → Waits place last
    → Holds (message_kept segments ++ (place_kept place ++ tokens_kept ts))
        (explode_from segments place ts)

ruleset kept_laws = (
  raws_kept-append, segment_kept-append, message_kept-append, deg_kept-close_deg, append_assoc,
  append-nil,
)

-- One token in the loop over a group.
deg_step-Keeps :
    (t : Token) (ts : Tokens) (segments : List RawSegment) (segment : RawSegment) (deg : List Raw)
    (v : Raw) (last : Option Token)
    → Keeps ts
    → Alternates last (yields t ts)
    → Waits (in_deg segment deg v) last
    → Holds
        (message_kept segments ++ (place_kept (in_deg segment deg v) ++ tokens_kept (yields t ts)))
        (explode_from segments (in_deg segment deg v) (yields t ts))
unfolding explode_from
deg_step-Keeps (char b) ts segments segment deg v last ih alt w = rw (w alt.0) (
    simp kept_laws (
      simp kept_laws at
        (ih segments (in_deg segment deg (string b)) (some (char b)) alt.2 (λ e. absurd (cc e)))))
deg_step-Keeps (binary b) ts segments segment deg v last ih alt w = rw (w alt.0) (
    simp kept_laws (
      simp kept_laws at
        (ih segments (in_deg segment deg (blob b)) (some (binary b)) alt.1 (λ e. absurd (cc e)))))
deg_step-Keeps colon ts segments segment deg v last ih alt w = simp kept_laws (
    simp kept_laws at
      (ih segments (in_deg segment (deg ++ v ∷ []) absent) (some colon) alt (λ _. refl)))
deg_step-Keeps plus ts segments segment deg v last ih alt w = simp kept_laws (
    simp kept_laws at
      (ih segments (in_segment (segment ++ close_deg deg v ∷ [])) (some plus) alt tt))
deg_step-Keeps apostrophe ts segments segment deg v last ih alt w = simp kept_laws (
    simp kept_laws at
      (ih (segments ++ (segment ++ close_deg deg v ∷ []) ∷ []) between (some apostrophe) alt tt))
deg_step-Keeps eof ts segments segment deg v last ih alt w = ((λ e. cc e), (λ e. cc e))

segment_step-Keeps :
    (t : Token) (ts : Tokens) (segments : List RawSegment) (segment : RawSegment)
    (last : Option Token)
    → Keeps ts
    → Alternates last (yields t ts)
    → Holds
        (message_kept segments ++ (segment_kept segment ++ tokens_kept (yields t ts)))
        (explode_from segments (in_segment segment) (yields t ts))
unfolding explode_from
segment_step-Keeps apostrophe ts segments segment last ih alt =
    simp kept_laws at (ih (segments ++ segment ∷ []) between (some apostrophe) alt tt)
segment_step-Keeps eof ts segments segment last ih alt = ((λ e. cc e), (λ e. cc e))
segment_step-Keeps t ts segments segment last ih alt =
    simp kept_laws at (deg_step-Keeps t ts segments segment [] absent last ih alt (λ _. refl))

explode_from-Keeps : (ts : Tokens) → Keeps ts
unfolding explode_from
explode_from-Keeps returns segments place last alt w = absurd alt
explode_from-Keeps (raises e) segments place last alt w = alt
explode_from-Keeps (yields t ts) segments (in_deg segment deg v) last alt w =
    deg_step-Keeps t ts segments segment deg v last (explode_from-Keeps ts) alt w
explode_from-Keeps (yields t ts) segments (in_segment segment) last alt w =
    segment_step-Keeps t ts segments segment last (explode_from-Keeps ts) alt
explode_from-Keeps (yields eof ts) segments between last alt w = rw alt (rw append-nil)
explode_from-Keeps (yields t ts) segments between last alt w =
    segment_step-Keeps t ts segments [] last (explode_from-Keeps ts) alt

-- What the parser returns for any bytes holds, in order, exactly the texts and the non-empty binary
-- values that the tokenizer yields for them; where it raises, it is neither for want of fuel nor
-- because the tokens ended before EOF.
pub explode-tokenize :
    (bytes : Bytes) → Holds (tokens_kept (tokenize bytes)) (explode_segments bytes)
unfolding explode_segments
explode-tokenize bytes =
    explode_from-Keeps (tokenize bytes) [] between none (tokenize-Alternates bytes) tt
