-- ===== src/Dialog/Numbers.antt =====
-- The segments of a message and their numbers, with and without the envelope.
use mathlib.Core.List.{map, reverse}
use geldstrom.Prelude.{
  ℕ, ◌+◌, ◌≡◌, refl, sym, ap, ◌∙◌, true, false, none, List, [], ◌∷◌, ◌++◌, String, append_assoc,
}
use geldstrom.Segments.{hnvsk3, hnvsd1, Segment, segment, nil, of_list, to_list}
use geldstrom.Segments.Message.{Message, with_number, append, append_all, empty_message}
use geldstrom.Segments.Numbering.{numbered_from, append_all-segments}
use geldstrom.Dialog.Envelope.{
  Auth, but_last, last, encrypt, joining, plain_message, build_message, message_head, message_end,
  signature_head, signature_end,
}

append_all-append :
    (a b : List Segment) (m : Message) → append_all m (a ++ b) ≡ append_all (append_all m a) b
unfolding append_all
append_all-append [] b m = refl
append_all-append (s ∷ a) b m = append_all-append a b (append m s)

plain_message-joining :
    (auths : List Auth) (dialog_id : String) (n : ℕ) (segments : List Segment)
    → plain_message auths dialog_id n segments
      ≡ append_all empty_message (joining auths dialog_id n segments)
unfolding plain_message
plain_message-joining auths dialog_id n segments = sym (
    append_all-append (map signature_head auths) _ (append empty_message (message_head dialog_id n))
    ∙ append_all-append segments _ _
    ∙ append_all-append (map signature_end (reverse auths)) _ _)

-- What the receiver reads: the inner segments in the place of HNVSK and HNVSD.
abbrev pub unwrap : List Segment → List Segment
unwrap (h ∷ k ∷ segment d hnvsd1 inner ∷ rest) = h ∷ (to_list inner ++ rest)
unwrap ss = ss

-- The enveloped message: the first segment, HNVSK 998, HNVSD 999 with exactly the segments between the
-- first and the last, and the last.
abbrev pub IsWrapped : List Segment → List Segment → Type 0
IsWrapped plain wrapped =
    (first : Segment) × (inner : List Segment) × (final : Segment) × (plain
      ≡ first ∷ (inner ++ final ∷ []))
    × (wrapped
        ≡ first
          ∷ segment (record { type = "HNVSK"; number = 998; version = 3; reference = none }) hnvsk3
              nil
          ∷ segment (record { type = "HNVSD"; number = 999; version = 1; reference = none }) hnvsd1
              (of_list inner)
          ∷ final
          ∷ [])

but_last-end : (xs : List Segment) (e : Segment) → but_last (xs ++ e ∷ []) ≡ xs
unfolding but_last
but_last-end [] e = refl
but_last-end (x ∷ []) e = refl
but_last-end (x ∷ y ∷ xs) e = ap (◌∷◌ x) (but_last-end (y ∷ xs) e)

last-end : (xs : List Segment) (e : Segment) → last (xs ++ e ∷ []) ≡ e ∷ []
unfolding last
last-end [] e = refl
last-end (x ∷ []) e = refl
last-end (x ∷ y ∷ xs) e = last-end (y ∷ xs) e

encrypt-IsWrapped :
    (s : Segment) (xs : List Segment) (e : Segment)
    → IsWrapped (s ∷ (xs ++ e ∷ [])) (encrypt (s ∷ (xs ++ e ∷ [])))
unfolding encrypt
encrypt-IsWrapped s xs e = (s, xs, e, refl, rw (but_last-end xs e, last-end xs e) refl)

-- The numbers run on into a last segment.
numbered_end :
    (xs : List Segment) (e : Segment) (n : ℕ)
    → (ys : List Segment) × (m : ℕ) × (numbered_from n (xs ++ e ∷ []) ≡ ys ++ with_number m e ∷ [])
numbered_end [] e n = ([], n, refl)
numbered_end (x ∷ xs) e n =
    let (ys, m, h) = numbered_end xs e (n + 1) in
    (with_number n x ∷ ys, m, ap (◌∷◌ (with_number n x)) h)

but_last-last : (s : Segment) (ss : List Segment) → but_last (s ∷ ss) ++ last (s ∷ ss) ≡ s ∷ ss
unfolding but_last last
but_last-last s [] = refl
but_last-last s (t ∷ ss) = ap (◌∷◌ s) (but_last-last t ss)

to_list-of_list : (ss : List Segment) → to_list (of_list ss) ≡ ss
to_list-of_list [] = refl
to_list-of_list (s ∷ ss) = ap (◌∷◌ s) (to_list-of_list ss)

unwrap-encrypt : (s t : Segment) (ss : List Segment) → unwrap (encrypt (s ∷ t ∷ ss)) ≡ s ∷ t ∷ ss
unfolding encrypt
unwrap-encrypt s t ss = rw to_list-of_list (ap (◌∷◌ s) (but_last-last t ss))

numbered_concat-cons :
    (xs : List Segment) (e : Segment) (n : ℕ)
    → (t : Segment) × (ts : List Segment) × (numbered_from n (xs ++ e ∷ []) ≡ t ∷ ts)
numbered_concat-cons [] e n = (with_number n e, [], refl)
numbered_concat-cons (x ∷ xs) e n = (with_number n x, numbered_from (n + 1) (xs ++ e ∷ []), refl)

pub plain_message-numbered :
    (auths : List Auth) (dialog_id : String) (n : ℕ) (segments : List Segment)
    → (plain_message auths dialog_id n segments).segments
      ≡ numbered_from 1 (joining auths dialog_id n segments)
plain_message-numbered auths dialog_id n segments =
    ap (λ (m : Message). m.segments) (plain_message-joining auths dialog_id n segments)
    ∙ append_all-segments (joining auths dialog_id n segments) empty_message

unwrap-message :
    (auths : List Auth) (dialog_id : String) (n : ℕ) (segments : List Segment)
    → unwrap (encrypt (numbered_from 1 (joining auths dialog_id n segments)))
      ≡ numbered_from 1 (joining auths dialog_id n segments)
unwrap-message auths dialog_id n segments =
    let inner = map signature_head auths ++ (segments ++ map signature_end (reverse auths)) in
    let regroup : map signature_head auths
          ++ (segments ++ (map signature_end (reverse auths) ++ message_end n ∷ []))
        ≡ inner ++ message_end n ∷ [] =
      simp append_assoc in
    let (t, ts, e) = numbered_concat-cons inner (message_end n) (1 + 1) in
    rw regroup (rw e (unwrap-encrypt (with_number 1 (message_head dialog_id n)) t ts))

message-IsWrapped :
    (auths : List Auth) (dialog_id : String) (n : ℕ) (segments : List Segment)
    → IsWrapped
        (numbered_from 1 (joining auths dialog_id n segments))
        (encrypt (numbered_from 1 (joining auths dialog_id n segments)))
message-IsWrapped auths dialog_id n segments =
    let inner = map signature_head auths ++ (segments ++ map signature_end (reverse auths)) in
    let regroup : map signature_head auths
          ++ (segments ++ (map signature_end (reverse auths) ++ message_end n ∷ []))
        ≡ inner ++ message_end n ∷ [] =
      simp append_assoc in
    let (ys, m, e) = numbered_end inner (message_end n) (1 + 1) in
    rw regroup (
      rw e (
        encrypt-IsWrapped (with_number 1 (message_head dialog_id n)) ys
          (with_number m (message_end n))))

-- A message holds, in this order, HNHBK with the dialog's id and message number, one signature head
-- for each mechanism, the request's segments, the signature ends of the mechanisms in reverse and
-- HNHBS with the same message number, numbered 1, 2, 3 and so on; the envelope puts HNVSK in the place
-- of what stands between the first and the last of them, and behind it HNVSD, which holds exactly that.
pub build_message-numbered :
    (auths : List Auth) (dialog_id : String) (n : ℕ) (segments : List Segment)
    → (build_message auths false dialog_id n segments
        ≡ numbered_from 1 (joining auths dialog_id n segments))
      × (unwrap (build_message auths true dialog_id n segments)
          ≡ numbered_from 1 (joining auths dialog_id n segments))
      × IsWrapped
          (build_message auths false dialog_id n segments)
          (build_message auths true dialog_id n segments)
unfolding build_message
build_message-numbered auths dialog_id n segments = (
  plain_message-numbered auths dialog_id n segments,
  rw (plain_message-numbered auths dialog_id n segments)
      (unwrap-message auths dialog_id n segments),
  rw (plain_message-numbered auths dialog_id n segments)
      (message-IsWrapped auths dialog_id n segments),
)
