-- ===== src/Paging/Requests.antt =====
-- The paginator on a dialog: the port that `Dialog.send` and `Dialog.send_without_tan` fill, and the
-- number that the request has in its message.
use geldstrom.Prelude.{
  ℕ, zero, suc, ◌+◌, ◌≡◌, Bool, true, false, List, [], ◌∷◌, Option, none, some, length, Outcome, ok,
  raised,
}
use geldstrom.Segments.{Segment}
use geldstrom.Segments.Message.{with_number}
use geldstrom.Responses.{Processed}
use geldstrom.Dialog.{Dialog, DialogRaise, Connection, send, send_without_tan}
use geldstrom.Dialog.Envelope.{Auth}
use geldstrom.Dialog.Numbers.{unwrap}
use geldstrom.Paging.{Port}

-- The header and the signature heads stand in front of the request.
abbrev pub request_number : List Auth → ℕ
request_number auths = length auths + 2

module _ (c : Connection) where
  open c use {Link}

  abbrev pub numbered_answer :
      ℕ
      → Outcome DialogRaise Processed × Dialog × Link
      → Outcome DialogRaise (Processed × ℕ) × (Dialog × Link)
  numbered_answer n (raised e, d, l) = (raised e, (d, l))
  numbered_answer n (ok response, d, l) = (ok (response, n), (d, l))

  abbrev pub dialog_port : Port DialogRaise
  dialog_port = record {
    State = Dialog × Link;
    send =
        λ s (d, l). numbered_answer (request_number d.auth_mechanisms) (send c (s ∷ []) none d l);
    send_without_tan = λ s (d, l).
        numbered_answer (request_number d.auth_mechanisms) (send_without_tan c (s ∷ []) d l);
  }

-- The segment at a place, counted from zero.
abbrev pub get_elem? : List Segment → ℕ → Option Segment
get_elem? [] n = none
get_elem? (s ∷ ss) zero = some s
get_elem? (s ∷ ss) (suc n) = get_elem? ss n

-- The segments of a message that the receiver reads.
abbrev pub inner_of : Bool → List Segment → List Segment
inner_of true message = unwrap message
inner_of false message = message

-- The number that comes back with an answer is the request's number in the message: it stands there
-- at this number's place.
abbrev pub IsReported :
    Segment → List Segment → {E S : Type 0} → Outcome E (Processed × ℕ) × S → Type 0
IsReported s message (raised e, state) = Unit
IsReported s message (ok (response, number), state) =
    (place : ℕ) × (number ≡ place + 1) × (get_elem? message place ≡ some (with_number number s))
