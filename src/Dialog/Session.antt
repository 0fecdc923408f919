-- ===== src/Dialog/Session.antt =====
-- Any sequence of method calls on a dialog, each of which may raise, and invariants over it.
use geldstrom.Prelude.{
  ◌≡◌, refl, Bool, true, false, List, [], ◌∷◌, ◌++◌, Option, String, str_eq, if◌then◌else◌, Outcome,
  ok, raised, Bool-cases, inl, inr,
}
use geldstrom.Segments.{Segment, Segments, hkend1}
use geldstrom.Dialog.Envelope.{plain_segment}
use geldstrom.Responses.{Processed, process}
use geldstrom.Tan.{ChallengeHandler, prepare_segments}
use geldstrom.Dialog.{
  Dialog, DialogRaise, tan_pending, Connection, LinkRaise, received, send_segments, handled,
  settled, initialized, initialize, send, send_without_tan, end_dialog, receive, init_segments,
  ended, polled, poll_decoupled_once, build_status_hktan, effective,
}

-- A call of a method of `Dialog`.
pub data Request : Type 0 where
  initializes : List Segment → Option ChallengeHandler → Request
  sends : List Segment → Option ChallengeHandler → Request
  continues : List Segment → Request
  polls : String → Request
  ends : Request

if_same : (b : Bool) (t : String) → (if b then t else t) ≡ t
if_same true t = refl
if_same false t = refl

-- `initialize` assigns the dialog's id once more, and to what it is already.
same_id :
    (d : Dialog) (p : Processed)
    → (if str_eq (receive d p).dialog_id "0" then p.dialog_id else (receive d p).dialog_id)
      ≡ (receive d p).dialog_id
unfolding receive
same_id d p = elim (Bool-cases (str_eq d.dialog_id "0")) [
  | inl fresh ↦ rw fresh (if_same (str_eq p.dialog_id "0") p.dialog_id)
  | inr set ↦ rw set (rw set)
]

module _ (c : Connection) (lower : String → String) where
  open c use {Link, exchange}

  -- The dialog and the connection after a call, whether it returns or raises.
  unfoldable pub step : Request → Dialog → Link → Dialog × Link
  unfolding initialize send send_without_tan poll_decoupled_once end_dialog
  step (initializes extra handler) d l =
      let (r, d', l') = initialize c extra handler d l in (d', l')
  step (sends segments handler) d l = let (r, d', l') = send c segments handler d l in (d', l')
  step (continues segments) d l = let (r, d', l') = send_without_tan c segments d l in (d', l')
  step (polls reference) d l =
      let (r, d', l') = poll_decoupled_once c lower reference d l in (d', l')
  step ends d l = let (r, d', l') = end_dialog c d l in (d', l')

  unfoldable pub run : List Request → Dialog → Link → Dialog × Link
  unfolding step
  run [] d l = (d, l)
  run (r ∷ rs) d l = let (d', l') = step r d l in run rs d' l'

  -- A dialog with other flags.
  abbrev reflagged : Dialog → Bool → Bool → Option ChallengeHandler → Dialog
  reflagged d o i h = record d { is_open = o; is_initialized = i; challenge_handler = h }

  module _ (P : Dialog → Link → Type 0)
      (flags : (d : Dialog) (l : Link) (o i : Bool) (h : Option ChallengeHandler)
        → P d l
        → P (reflagged d o i h) l)
      (sending : (segments : List Segment) (d : Dialog) (l : Link)
        → P d l
        → P (send_segments c segments d l).1 (send_segments c segments d l).2) where
    abbrev Kept : {A : Type 0} → Outcome DialogRaise A × Dialog × Link → Type 0
    Kept (r, d, l) = P d l

    Kept-handled :
        (handler : Option ChallengeHandler) (r : Outcome DialogRaise Processed × Dialog × Link)
        → Kept r
        → Kept (handled c handler r)
    Kept-handled handler (ok p, d, l) h = h
    Kept-handled handler (raised e, d, l) h = h

    Kept-settled : (r : Outcome DialogRaise Processed × Dialog × Link) → Kept r → Kept (settled c r)
    Kept-settled (ok p, d, l) h = h
    Kept-settled (raised (tan_pending s t), d, l) h = h
    Kept-settled (raised e, d, l) h = flags d l false d.is_initialized d.challenge_handler h

    Kept-initialized :
        (d : Dialog) (r : Outcome LinkRaise Segments × Link)
        → Kept (received c d r)
        → Kept (initialized c (received c d r))
    unfolding received
    Kept-initialized d (raised e, l) h = h
    Kept-initialized d (ok raw, l) h =
        let d' = receive d (process raw) in
        rw (same_id d (process raw)) (flags d' l d'.is_open true d'.challenge_handler h)

    Kept-polled :
        (r : Outcome DialogRaise Processed × Dialog × Link) → Kept r → Kept (polled c lower r)
    Kept-polled (ok p, d, l) h = h
    Kept-polled (raised e, d, l) h = h

    Kept-ended : (r : Outcome DialogRaise Processed × Dialog × Link) → Kept r → Kept (ended c r)
    Kept-ended (ok p, d, l) h = flags d l false d.is_initialized d.challenge_handler h
    Kept-ended (raised e, d, l) h = flags d l false d.is_initialized d.challenge_handler h

    poll-keeps :
        (r : Outcome DialogRaise Segment) (d : Dialog) (l : Link)
        → P d l
        → Kept {A = Option Processed} (elim r [
          | raised e ↦ (raised e, d, l)
          | ok status ↦ polled c lower (send_segments c (status ∷ []) d l)
        ])
    poll-keeps (raised e) d l h = h
    poll-keeps (ok status) d l h = Kept-polled _ (sending (status ∷ []) d l h)

    pub step-keeps : (r : Request) (d : Dialog) (l : Link) → P d l → P (step r d l).0 (step r d l).1
    unfolding step initialize send send_without_tan poll_decoupled_once end_dialog
    step-keeps (initializes extra handler) d l h = elim (Bool-cases d.is_open) [
      | inl o ↦ simp o h
      | inr o ↦
          let begun = reflagged d true d.is_initialized handler in
          simp o (
            Kept-settled _ (
              Kept-handled handler _ (
                Kept-initialized begun _ (
                  sending (init_segments d ++ extra) begun l
                    (flags d l true d.is_initialized handler h)))))
    ]
    step-keeps (sends segments handler) d l h = elim (Bool-cases d.is_open) [
      | inl o ↦ simp o (
          Kept-handled (effective c handler d.challenge_handler) _
            (sending (prepare_segments d.tan_strategy segments d.parameters) d l h))
      | inr o ↦ simp o h
    ]
    step-keeps (continues segments) d l h = elim (Bool-cases d.is_open) [
      | inl o ↦ simp o (sending segments d l h)
      | inr o ↦ simp o h
    ]
    step-keeps (polls reference) d l h =
        poll-keeps (build_status_hktan d.parameters.bpd.segments reference) d l h
    step-keeps ends d l h = elim (Bool-cases d.is_open) [
      | inl o ↦
          simp o (Kept-ended _ (sending (plain_segment "HKEND" 1 (hkend1 d.dialog_id) ∷ []) d l h))
      | inr o ↦ simp o h
    ]

    pub run-keeps :
        (rs : List Request) (d : Dialog) (l : Link) → P d l → P (run rs d l).0 (run rs d l).1
    unfolding run
    run-keeps [] d l h = h
    run-keeps (r ∷ rs) d l h = run-keeps rs _ _ (step-keeps r d l h)
