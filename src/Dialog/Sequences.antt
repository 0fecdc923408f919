-- ===== src/Dialog/Sequences.antt =====
-- What holds of a dialog after any sequence of calls, whatever the bank answers and whichever calls raise.
use geldstrom.Prelude.{
  ℕ, ◌+◌, ◌≤◌, ◌≡◌, ◌≢◌, refl, ◌∙◌, sym, ap, Bool, true, false, List, [], ◌∷◌, ◌++◌, some, String,
  str_eq, Outcome, ok, raised, arith, Bool-cases, inl, inr, eq_iff,
}
use geldstrom.Segments.{Segment, Segments}
use geldstrom.Responses.{Processed, process, message_number_of}
use geldstrom.Dialog.{Dialog, Connection, LinkRaise, receive, received, send_segments}
use geldstrom.Dialog.Envelope.{Auth, build_message, encrypt}
use geldstrom.Dialog.Session.{Request, run, run-keeps}
use geldstrom.Parameters.Versions.{update_all, update_all_newest}
use geldstrom.Dialog.Numbers.{plain_message-numbered}

-- The numbers of a list count up by one from the first number, and the second is the next.
pub Consecutive : ℕ → List ℕ → ℕ → Type 0
Consecutive n [] m = n ≡ m
Consecutive n (x ∷ xs) m = (x ≡ n) × Consecutive (n + 1) xs m

Consecutive-append :
    (n : ℕ) (xs : List ℕ) (m : ℕ) → Consecutive n xs m → Consecutive n (xs ++ m ∷ []) (m + 1)
unfolding Consecutive
Consecutive-append n [] m h = (sym h, ap (λ k. k + 1) h)
Consecutive-append n (x ∷ xs) m h = (h.0, Consecutive-append (n + 1) xs m h.1)

-- The number in the HNHBK of a message.
abbrev pub message_number_in : List Segment → ℕ
message_number_in [] = 0
message_number_in (s ∷ ss) = message_number_of (some s)

-- A connection with a record of the numbers of the messages that were answered.
abbrev pub logging_answer :
    {L : Type 0}
    → ℕ
    → List ℕ
    → Outcome LinkRaise Segments × L
    → Outcome LinkRaise Segments × (L × List ℕ)
logging_answer n log (ok raw, l) = (ok raw, (l, log ++ n ∷ []))
logging_answer n log (raised e, l) = (raised e, (l, log))

abbrev pub logging : Connection → Connection
logging c = record {
  Link = c.Link × List ℕ;
  exchange = λ m l. logging_answer (message_number_in m) l.1 (c.exchange m l.0);
}

build_message-number :
    (auths : List Auth) (encrypts : Bool) (dialog_id : String) (n : ℕ) (segments : List Segment)
    → message_number_in (build_message auths encrypts dialog_id n segments) ≡ n
unfolding build_message encrypt
build_message-number auths true dialog_id n segments =
    rw (plain_message-numbered auths dialog_id n segments) refl
build_message-number auths false dialog_id n segments =
    rw (plain_message-numbered auths dialog_id n segments) refl

-- What a sequence of calls does not undo: the message number does not fall, the dialog keeps an id that
-- the bank has given it, and the parameter data do not get older.
pub NotBehind : Dialog → Dialog → Type 0
NotBehind d d' =
    (d.message_number ≤ d'.message_number)
    × (d.dialog_id ≢ "0" → d'.dialog_id ≡ d.dialog_id)
    × (d.parameters.bpd.version ≤ d'.parameters.bpd.version)
    × (d.parameters.upd.version ≤ d'.parameters.upd.version)

receive-id :
    (d : Dialog) (p : Processed) → d.dialog_id ≢ "0" → (receive d p).dialog_id ≡ d.dialog_id
unfolding receive
receive-id d p set = elim (Bool-cases (str_eq d.dialog_id "0")) [
  | inl fresh ↦ absurd (set ((eq_iff _ _).0 fresh))
  | inr e ↦ simp e
]

receive-NotBehind : (d d' : Dialog) (p : Processed) → NotBehind d d' → NotBehind d (receive d' p)
unfolding NotBehind receive update_all
receive-NotBehind d d' p (n, i, b, u) =
    let (_, _, b', u', _) = update_all_newest d'.parameters (p ∷ []) in
    (
      omega arith,
      (λ set. receive-id d' p (λ e. set (sym (i set) ∙ e)) ∙ i set),
      omega arith,
      omega arith,
    )

module _ (c : Connection) (lower : String → String) where
  open c use {Link, exchange}

  received-NotBehind :
      (d d' : Dialog) (r : Outcome LinkRaise Segments × Link)
      → NotBehind d d'
      → NotBehind d (received c d' r).1
  unfolding received
  received-NotBehind d d' (raised e, l) h = h
  received-NotBehind d d' (ok raw, l) h = receive-NotBehind d d' (process raw) h

  -- After any sequence of calls of a dialog's methods, whatever the bank answers and whichever calls
  -- raise, the message number is not smaller, an id other than "0" is the same, and the versions of
  -- the bank's and the user's parameter data are not smaller.
  pub run-NotBehind :
      (rs : List Request) (d : Dialog) (l : Link) → NotBehind d (run c lower rs d l).0
  unfolding NotBehind send_segments
  run-NotBehind rs d l =
      run-keeps c lower (λ d' l'. NotBehind d d') (λ d' l' o i h k. k)
        (λ segments d' l' h. received-NotBehind d d' _ h) rs d l
        (omega arith, (λ set. refl), omega arith, omega arith)

  logged :
      (n : ℕ) (log : List ℕ) (d : Dialog) (r : Outcome LinkRaise Segments × Link)
      → Consecutive n log d.message_number
      → let s = received (logging c) d (logging_answer d.message_number log r) in
        Consecutive n s.2.1 s.1.message_number
  unfolding received receive
  logged n log d (raised e, l) h = h
  logged n log d (ok raw, l) h = Consecutive-append n log d.message_number h

  -- From an empty record of the numbers of answered messages, any sequence of calls leaves a record
  -- that counts up by one from the dialog's number at the start, with no gap and no number twice, and
  -- the dialog's number is then the next.
  pub run-Consecutive :
      (rs : List Request) (d : Dialog) (l : Link)
      → let r = run (logging c) lower rs d (l, []) in
        Consecutive d.message_number r.1.1 r.0.message_number
  unfolding Consecutive send_segments
  run-Consecutive rs d l =
      run-keeps (logging c) lower (λ d' l'. Consecutive d.message_number l'.1 d'.message_number)
        (λ d' l' o i h k. k)
        (λ segments d' (l', log) h.
          rw
            (build_message-number d'.auth_mechanisms d'.has_encryption d'.dialog_id
              d'.message_number segments)
            (logged d.message_number log d'
              (exchange
                (build_message d'.auth_mechanisms d'.has_encryption d'.dialog_id d'.message_number
                  segments)
                l')
              h))
        rs d (l, []) refl
