-- ===== src/Segments/Numbering.antt =====
-- Segments are numbered in the order in which they join a message.
use geldstrom.Prelude.{
  ℕ, ◌+◌, ◌≡◌, ◌∙◌, List, [], ◌∷◌, ◌++◌, length, arith, append_assoc, append-nil,
}
use geldstrom.Segments.{Segment}
use geldstrom.Segments.Message.{Message, with_number, append, append_all}

-- The segments, numbered from `n` on and otherwise as they are.
abbrev pub numbered_from : ℕ → List Segment → List Segment
numbered_from n [] = []
numbered_from n (s ∷ ss) = with_number n s ∷ numbered_from (n + 1) ss

pub append_all-segments :
    (ss : List Segment) (m : Message)
    → (append_all m ss).segments ≡ m.segments ++ numbered_from m.next_segment_number ss
unfolding append_all
append_all-segments [] m = rw append-nil
append_all-segments (s ∷ ss) m = append_all-segments ss (append m s) ∙ rw append_assoc

pub append_all-next :
    (ss : List Segment) (m : Message)
    → (append_all m ss).next_segment_number ≡ m.next_segment_number + length ss
unfolding append_all
append_all-next [] m = omega arith
append_all-next (s ∷ ss) m = append_all-next ss (append m s) ∙ omega arith
