-- ===== src/Wire/RoundTrip/Groups.antt =====
-- The parser, run over one data element group that was written.
use mathlib.Core.List.{map}
use geldstrom.Prelude.{
  ℕ, ◌≡◌, refl, ◌∙◌, Bool, true, false, ◌&&◌, Option, some, List, [], ◌∷◌, ◌++◌, append-nil,
  append_assoc, All, if◌then◌else◌, Outcome,
}
use geldstrom.Wire.Token.{Bytes, Token, plus, apostrophe, colon, Tokens, yields, WireError, is_data}
use geldstrom.Wire.Tokenizer.{tokenize_from}
use geldstrom.Wire.Value.{
  Scalar, Value, Raw, absent, string, blob, RawDeg, element, elements, RawSegment,
}
use geldstrom.Wire.Serializer.Leaves.{wire, leaves, leaves-cons, joined, deg_wire}
use geldstrom.Wire.Serializer.Writes.{IsReadable}
use geldstrom.Wire.Parser.{Place, between, in_segment, in_deg, is_truthy, explode_from}
use geldstrom.Wire.RoundTrip.Reading.{read_scalar, scalar_tokens, raw_tokens, tokenize_from-wire}

-- The parser at a place, with these bytes ahead.
abbrev pub parse_from :
    List RawSegment → Place → Bytes → Option Token → Outcome WireError (List RawSegment)
parse_from segments place ahead last = explode_from segments place (tokenize_from ahead [] last)

-- The last element of a group is left out if it is falsy: `None`, or an empty `bytes`.
abbrev pub read_items : List Scalar → List Raw
read_items [] = []
read_items (s ∷ []) = if is_truthy (read_scalar s) then read_scalar s ∷ [] else []
read_items (s ∷ t ∷ ss) = read_scalar s ∷ read_items (t ∷ ss)

-- A group of one is read as its element.
abbrev pub read_deg : List Scalar → RawDeg
read_deg [] = element absent
read_deg (s ∷ []) = element (read_scalar s)
read_deg (s ∷ t ∷ ss) = elements (read_items (s ∷ t ∷ ss))

abbrev pub is_blank : List Scalar → Bool
is_blank (s ∷ []) = elim (read_scalar s) [ absent ↦ true | _ ↦ false ]
is_blank _ = false

-- A last data element that is written as no byte at all is left out.
abbrev pub read_degs : List (List Scalar) → RawSegment
read_degs [] = []
read_degs (l ∷ []) = if is_blank l then [] else read_deg l ∷ []
read_degs (l ∷ m ∷ ls) = read_deg l ∷ read_degs (m ∷ ls)

abbrev pub read_segment : List Value → RawSegment
read_segment vs = read_degs (map leaves vs)

-- The byte behind a group: the flag is whether the segment ends there.
abbrev pub stop_byte : Bool → ℕ
stop_byte true = b'\''
stop_byte false = b'+'

abbrev pub stop_token : Bool → Token
stop_token true = apostrophe
stop_token false = plus

abbrev pub after_deg :
    Bool → List RawSegment → RawSegment → Tokens → Outcome WireError (List RawSegment)
after_deg true segments segment ts = explode_from (segments ++ segment ∷ []) between ts
after_deg false segments segment ts = explode_from segments (in_segment segment) ts

-- A group with two elements or more, at its last one.
close_group :
    (final : Bool) (v : Raw) (segments : List RawSegment) (segment : RawSegment) (r : Raw)
    (deg : List Raw) (ts : Tokens)
    → explode_from segments
        (in_deg segment (r ∷ deg) absent)
        (raw_tokens v (yields (stop_token final) ts))
      ≡ after_deg final segments
          (segment ++ elements ((r ∷ deg) ++ (if is_truthy v then v ∷ [] else [])) ∷ [])
          ts
unfolding explode_from
close_group true absent segments segment r deg ts = rw append-nil
close_group true (string []) segments segment r deg ts = rw append-nil
close_group true (string (c ∷ cs)) segments segment r deg ts = refl
close_group true (blob []) segments segment r deg ts = rw append-nil
close_group true (blob (c ∷ cs)) segments segment r deg ts = refl
close_group false absent segments segment r deg ts = rw append-nil
close_group false (string []) segments segment r deg ts = rw append-nil
close_group false (string (c ∷ cs)) segments segment r deg ts = refl
close_group false (blob []) segments segment r deg ts = rw append-nil
close_group false (blob (c ∷ cs)) segments segment r deg ts = refl

-- An element with another behind it, in a group that has begun, and as the first of a group.
next_element :
    (v : Raw) (segments : List RawSegment) (segment : RawSegment) (deg : List Raw) (ts : Tokens)
    → explode_from segments (in_deg segment deg absent) (raw_tokens v (yields colon ts))
      ≡ explode_from segments (in_deg segment (deg ++ v ∷ []) absent) ts
unfolding explode_from
next_element absent segments segment deg ts = refl
next_element (string v) segments segment deg ts = refl
next_element (blob v) segments segment deg ts = refl

first_element :
    (v : Raw) (segments : List RawSegment) (segment : RawSegment) (ts : Tokens)
    → explode_from segments (in_segment segment) (raw_tokens v (yields colon ts))
      ≡ explode_from segments (in_deg segment (v ∷ []) absent) ts
unfolding explode_from
first_element absent segments segment ts = refl
first_element (string v) segments segment ts = refl
first_element (blob v) segments segment ts = refl

-- What a group of these elements adds to its segment.
abbrev pub added : Bool → List Scalar → RawSegment
added final l = if final && is_blank l then [] else read_deg l ∷ []

added_group :
    (final : Bool) (s t : Scalar) (ss : List Scalar)
    → added final (s ∷ t ∷ ss) ≡ elements (read_items (s ∷ t ∷ ss)) ∷ []
added_group true s t ss = refl
added_group false s t ss = refl

close_single :
    (final : Bool) (s : Scalar) (segments : List RawSegment) (segment : RawSegment) (ts : Tokens)
    → explode_from segments
        (in_segment segment)
        (raw_tokens (read_scalar s) (yields (stop_token final) ts))
      ≡ after_deg final segments (segment ++ added final (s ∷ [])) ts
unfolding explode_from
close_single final s segments segment ts = by_value final (read_scalar s)
  where
    by_value :
        (f : Bool) (v : Raw)
        → explode_from segments (in_segment segment) (raw_tokens v (yields (stop_token f) ts))
          ≡ after_deg f segments
              (segment
                ++ (if f && elim v [ absent ↦ true | _ ↦ false ] then [] else element v ∷ []))
              ts
    by_value true absent = rw append-nil
    by_value true (string v) = refl
    by_value true (blob v) = refl
    by_value false absent = refl
    by_value false (string v) = refl
    by_value false (blob v) = refl

module _ (final : Bool) (segments : List RawSegment) (segment : RawSegment) (rest : Bytes) where
  abbrev pub stopped : RawSegment → Outcome WireError (List RawSegment)
  stopped segment' =
      after_deg final segments segment' (tokenize_from rest [] (some (stop_token final)))

  tokens_at_stop :
      (s : Scalar) (last : Option Token)
      → IsReadable s
      → is_data last ≡ false
      → tokenize_from (wire s ++ (stop_byte final ∷ rest)) [] last
        ≡ scalar_tokens s
            (yields (stop_token final) (tokenize_from rest [] (some (stop_token final))))
  tokens_at_stop s last h nd =
      elim final
        as (λ f.
          tokenize_from (wire s ++ (stop_byte f ∷ rest)) [] last
          ≡ scalar_tokens s (yields (stop_token f) (tokenize_from rest [] (some (stop_token f))))) [
            | true ↦ tokenize_from-wire s b'\'' rest last h refl nd
            | false ↦ tokenize_from-wire s b'+' rest last h refl nd
          ]

  parse_rest :
      (s : Scalar) (ss : List Scalar) (r : Raw) (deg : List Raw) (last : Option Token)
      → All IsReadable (s ∷ ss)
      → is_data last ≡ false
      → parse_from segments
          (in_deg segment (r ∷ deg) absent)
          (joined b':' (s ∷ ss) ++ (stop_byte final ∷ rest))
          last
        ≡ stopped (segment ++ elements ((r ∷ deg) ++ read_items (s ∷ ss)) ∷ [])
  parse_rest s [] r deg last h nd =
      rw (tokens_at_stop s last h.0 nd) (close_group final (read_scalar s) segments segment r deg _)
  parse_rest s (t ∷ ss) r deg last h nd = rw append_assoc (
      rw (tokenize_from-wire s b':' _ last h.0 refl nd) (
        next_element (read_scalar s) segments segment (r ∷ deg) _
        ∙ parse_rest t ss r (deg ++ read_scalar s ∷ []) (some colon) h.1 refl
        ∙ rw append_assoc))

  -- One group, from the loop over its segment.
  parse_deg :
      (s : Scalar) (ss : List Scalar) (last : Option Token)
      → All IsReadable (s ∷ ss)
      → is_data last ≡ false
      → parse_from segments
          (in_segment segment)
          (joined b':' (s ∷ ss) ++ (stop_byte final ∷ rest))
          last
        ≡ stopped (segment ++ added final (s ∷ ss))
  parse_deg s [] last h nd =
      rw (tokens_at_stop s last h.0 nd) (close_single final s segments segment _)
  parse_deg s (t ∷ ss) last h nd = rw append_assoc (
      rw (tokenize_from-wire s b':' _ last h.0 refl nd) (
        first_element (read_scalar s) segments segment _
        ∙ parse_rest t ss (read_scalar s) [] (some colon) h.1 refl
        ∙ rw (added_group final s t ss)))

  pub parse_value :
      (v : Value) (last : Option Token)
      → All IsReadable (leaves v)
      → is_data last ≡ false
      → parse_from segments (in_segment segment) (deg_wire v ++ (stop_byte final ∷ rest)) last
        ≡ stopped (segment ++ added final (leaves v))
  parse_value v last h nd =
      let (s, ss, e) = leaves-cons v in rw e (parse_deg s ss last (rw e at h) nd)
