-- ===== src/Segments/Message.antt =====
-- `FinTSMessage` of fints/dialog/message.py: numbering on append, and the answers to a request.
use geldstrom.Prelude.{
  ℕ, ◌+◌, Bool, true, false, List, [], ◌∷◌, ◌++◌, Option, none, some, String, str_eq, ◌==◌,
  if◌then◌else◌,
}
use geldstrom.Segments.{Entry, hirms2, Segment, segment, Segments, header, find_in, find_segments}

pub record Message : Type 0 where
  pub segments : List Segment
  pub next_segment_number : ℕ

abbrev pub empty_message : Message
empty_message = record { segments = []; next_segment_number = 1 }

abbrev pub with_number : ℕ → Segment → Segment
with_number n (segment h b inner) = segment (record h { number = n }) b inner

-- `__iadd__`
unfoldable pub append : Message → Segment → Message
append message s = record {
  segments = message.segments ++ with_number message.next_segment_number s ∷ [];
  next_segment_number = message.next_segment_number + 1;
}

-- `for seg in segments: message += seg`
unfoldable pub append_all : Message → List Segment → Message
unfolding append
append_all message [] = message
append_all message (s ∷ ss) = append_all (append message s) ss

-- segment.header.reference == ref.header.number
abbrev pub refers_to : ℕ → Segment → Bool
refers_to ref s = elim (header s).reference [ none ↦ false | some n ↦ n == ref ]

unfoldable pub referring : ℕ → List Segment → List Segment
referring ref [] = []
referring ref (s ∷ ss) = if refers_to ref s then s ∷ referring ref ss else referring ref ss

unfoldable pub response_segments : Segments → ℕ → (Segment → Bool) → List Segment
unfolding referring find_in find_segments
response_segments ss ref matches = referring ref (find_segments matches ss)

-- isinstance(segment, HIRMS2)
abbrev pub is_hirms2 : Segment → Bool
is_hirms2 (segment h (hirms2 entries) inner) = true
is_hirms2 _ = false

abbrev pub entries_of : Segment → List Entry
entries_of (segment h (hirms2 entries) inner) = entries
entries_of _ = []

unfoldable pub with_code : Option String → List Entry → List Entry
with_code none entries = entries
with_code (some code) [] = []
with_code (some code) (e ∷ es) =
    let rest = with_code (some code) es in if str_eq e.code code then e ∷ rest else rest

unfoldable pub entries_with_code : Option String → List Segment → List Entry
unfolding with_code
entries_with_code code [] = []
entries_with_code code (s ∷ ss) = with_code code (entries_of s) ++ entries_with_code code ss

unfoldable pub responses : Segments → ℕ → Option String → List Entry
unfolding response_segments entries_with_code
responses ss ref code = entries_with_code code (response_segments ss ref is_hirms2)
