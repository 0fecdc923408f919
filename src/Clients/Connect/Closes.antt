-- ===== src/Clients/Connect/Closes.antt =====
-- What the helper leaves open: the connections of the process before and after a `with` block.
use geldstrom.Prelude.{
  ℕ, ◌+◌, ◌<◌, ◌≤◌, eq_iff, ◌≡◌, ◌⊎◌, refl, ap, true, false, List, [], ◌∷◌, Option, String, str_eq,
  ◌==◌, Outcome, ok, raised, arith, All, Bool-cases, inl, inr,
}
use geldstrom.Segments.{Segment}
use geldstrom.Responses.{Processed}
use geldstrom.Parameters.{ParameterStore}
use geldstrom.Tan.{ChallengeHandler}
use geldstrom.Dialog.{Dialog, DialogRaise, tan_pending, Connection}
use geldstrom.Clients.{
  GatewayCredentials, FinTsSessionState, ClientRaise, dialog_raise, BlobCodec, World, without,
  open_connection, close_connection, at_link, ConnectRaise, tan_waits, failed,
}
use geldstrom.Clients.Connect.{
  unassigned, system_id_of, finish, ensure_system_id, entered, left, main, synchronized, connect,
  connect_sync, Block, build_parameters_from_state,
}

-- The number of the next connection is no open one's.
abbrev pub IsNumbered : {Link : Type 0} → World Link → Type 0
IsNumbered w = All (λ i. i < w.next) w.live

pub without_fresh : (i : ℕ) (js : List ℕ) → All (λ j. j < i) js → without i js ≡ js
without_fresh i [] h = refl
without_fresh i (j ∷ js) (below, h) =
    let rest = without_fresh i js h in
    let other : (i == j) ≡ false = ground arith in rw other (ap (λ r. j ∷ r) rest)

pub All-below : (js : List ℕ) (i k : ℕ) → i ≤ k → All (λ j. j < i) js → All (λ j. j < k) js
All-below [] i k le h = tt
All-below (j ∷ js) i k le (below, h) = (omega (arith, le, below), All-below js i k le h)

module _ (creds : GatewayCredentials) (reference : String) (c : Connection) where
  open c use {Link}

  -- An end of the dialog opens and closes no connection.
  pub finish-live :
      (d : Dialog) (w : World Link)
      → ((finish creds reference c d w).live ≡ w.live)
        × ((finish creds reference c d w).next ≡ w.next)
  unfolding finish
  finish-live d w = elim (Bool-cases d.is_open) [
    | inl o ↦ rw o (refl, refl)
    | inr o ↦ rw o (refl, refl)
  ]

  closed-live :
      (before : List ℕ) (i : ℕ) (d : Dialog) (l : Link) (w : World Link)
      → All (λ j. j < i) before
      → w.live ≡ i ∷ before
      → i < w.next
      → ((close_connection i (finish creds reference c d (at_link l w))).live ≡ before)
        × (i < (finish creds reference c d (at_link l w)).next)
  closed-live before i d l w fresh h n =
      let (same, count) = finish-live d (at_link l w) in
      let here : (i == i) ≡ true = ground arith in
      (rw same (rw h (rw here (without_fresh i before fresh))), rw count n)

  ensure-live :
      (parameters : ParameterStore) (w : World Link)
      → ((ensure_system_id creds reference c parameters w).2.live ≡ w.live)
        × ((ensure_system_id creds reference c parameters w).2.next ≡ w.next)
  unfolding ensure_system_id
  ensure-live parameters w = finish-live _ (at_link _ w)

  module _ {A : Type 0} where
    -- The connections are as before, and one more where an approval is awaited: that of the context. The
    -- numbers up to this one are used.
    abbrev pub Balances : ℕ → List ℕ → Outcome ConnectRaise A × World Link → Type 0
    Balances i before (raised (tan_waits ctx challenge task_reference), w) =
        (w.live ≡ ctx.connection ∷ before) × (i ≤ ctx.connection) × (ctx.connection < w.next)
    Balances i before (raised (failed e), w) = (w.live ≡ before) × (i < w.next)
    Balances i before (ok a, w) = (w.live ≡ before) × (i < w.next)

    left-Balances :
        (before : List ℕ) (system_id : String) (i : ℕ) (r : Outcome ClientRaise A × Dialog × Link)
        (w : World Link)
        → All (λ j. j < i) before
        → w.live ≡ i ∷ before
        → i < w.next
        → Balances i before (left creds reference c system_id i r w)
    left-Balances before system_id i (ok a, d, l) w fresh h n = closed-live before i d l w fresh h n
    left-Balances before system_id i (raised (dialog_raise (tan_pending s t)), d, l) w fresh h n =
        (h, omega arith, n)
    left-Balances before system_id i (raised e, d, l) w fresh h n =
        closed-live before i d l w fresh h n

    main-Balances :
        (before : List ℕ) (handler : Option ChallengeHandler) (body : Block creds reference c A)
        (system_id : String) (parameters : ParameterStore) (i : ℕ) (w : World Link)
        → All (λ j. j < i) before
        → w.live ≡ i ∷ before
        → i < w.next
        → Balances i before (main creds reference c handler body system_id parameters i w)
    main-Balances before handler body system_id parameters i w fresh h n =
        left-Balances before system_id i _ w fresh h n

    Balances-le :
        (i j : ℕ) (before : List ℕ) (r : Outcome ConnectRaise A × World Link)
        → i ≤ j
        → Balances j before r
        → Balances i before r
    Balances-le i j before (raised (tan_waits ctx challenge task_reference), w) le (a, b, d) =
        (a, omega (arith, le, b), d)
    Balances-le i j before (raised (failed e), w) le (a, b) = (a, omega (arith, le, b))
    Balances-le i j before (ok a, w) le (e, b) = (e, omega (arith, le, b))

    -- The first phase raised this, and left its connection open.
    abbrev pub LeftOpen :
        ℕ
        → List ℕ
        → Outcome ClientRaise String × ParameterStore × World Link
        → Outcome ConnectRaise A × World Link
        → Type 0
    LeftOpen i before (raised e, p, w) r =
        (r ≡ (raised (failed e), w)) × (r.1.live ≡ i ∷ before) × (i < r.1.next)
    LeftOpen i before (ok system_id, p, w) r = ⊥

    synchronized-Balances :
        (before : List ℕ) (handler : Option ChallengeHandler) (body : Block creds reference c A)
        (i : ℕ) (r : Outcome ClientRaise String × ParameterStore × World Link)
        → All (λ j. j < i) before
        → r.2.live ≡ i ∷ before
        → r.2.next ≡ i + 1
        → LeftOpen i before r (synchronized creds reference c handler body i r)
          ⊎ Balances i before (synchronized creds reference c handler body i r)
    synchronized-Balances before handler body i (raised e, p, w) fresh h n =
        inl (refl, h, omega (arith, n))
    synchronized-Balances before handler body i (ok system_id, p, w) fresh h n =
        let here : (i == i) ≡ true = ground arith in
        let closed : without i w.live ≡ before = rw h (rw here (without_fresh i before fresh)) in
        let le : i ≤ w.next = omega (arith, n) in
        inr (
          Balances-le i w.next before _ le (
            main-Balances before handler body system_id p w.next _
              (All-below before i w.next le fresh) (ap (λ js. w.next ∷ js) closed) (omega arith)))

    -- From numbered connections, `connect` leaves them as they were, and one more where it raises
    -- `DecoupledTANPending`, that of the context which the exception takes with it; or the system id is
    -- not known and its request raises: then its connection is left open.
    pub connect-Balances :
        (codec : BlobCodec) (handler : Option ChallengeHandler) (state : Option FinTsSessionState)
        (body : Block creds reference c A) (w : World Link)
        → IsNumbered w
        → let left = connect creds reference c codec handler state body w in
          Balances w.next w.live left
          ⊎ ((system_id_of state ≡ unassigned)
              × LeftOpen w.next w.live
                  (ensure_system_id creds reference c
                    (build_parameters_from_state codec state)
                    (open_connection w).1)
                  left)
    unfolding connect
    connect-Balances codec handler state body w fresh =
        let (i, w') = open_connection w in
        let parameters = build_parameters_from_state codec state in
        let (live, next) = ensure-live parameters w' in
        elim (Bool-cases (str_eq (system_id_of state) unassigned)) [
          | inl e ↦
              rw e
                (elim (synchronized-Balances w.live handler body i
                  (ensure_system_id creds reference c parameters w') fresh live next) [
                    | inl leak ↦ inr ((eq_iff _ _).0 e, leak)
                    | inr balanced ↦ inl balanced
                  ])
          | inr e ↦ rw e (
              inl (
                main-Balances w.live handler body (system_id_of state) parameters i w' fresh refl
                  (omega arith)))
        ]

    -- A block's value has this property, where the system id is assigned.
    abbrev pub Gives : (A → Type 0) → Outcome ClientRaise A × Dialog × Link → Type 0
    Gives P (ok a, d, l) = P a
    Gives P (raised e, d, l) = Unit

    -- The value has the property, and a context that is taken along has this system id.
    abbrev pub Carries : (A → Type 0) → String → Outcome ConnectRaise A × World Link → Type 0
    Carries P system_id (ok a, w) = P a
    Carries P system_id (raised (tan_waits ctx challenge t), w) = ctx.system_id ≡ system_id
    Carries P system_id (raised (failed e), w) = Unit

    left-Carries :
        (P : A → Type 0) (system_id : String) (i : ℕ) (r : Outcome ClientRaise A × Dialog × Link)
        (w : World Link)
        → Gives P r
        → Carries P system_id (left creds reference c system_id i r w)
    left-Carries P system_id i (ok a, d, l) w h = h
    left-Carries P system_id i (raised (dialog_raise (tan_pending s t)), d, l) w h = refl
    left-Carries P system_id i (raised e, d, l) w h = tt

    entered-Gives :
        (P : A → Type 0) (body : Block creds reference c A) (system_id : String)
        (r : Outcome DialogRaise Processed × Dialog × Link)
        → ((d : Dialog) (l : Link) → Gives P (body system_id d l))
        → Gives P (entered creds reference c body system_id r)
    entered-Gives P body system_id (raised e, d, l) h = tt
    entered-Gives P body system_id (ok response, d, l) h = h d l

    pub connect-Carries :
        (P : A → Type 0) (codec : BlobCodec) (handler : Option ChallengeHandler)
        (state : Option FinTsSessionState) (body : Block creds reference c A) (w : World Link)
        → str_eq (system_id_of state) unassigned ≡ false
        → ((d : Dialog) (l : Link) → Gives P (body (system_id_of state) d l))
        → Carries P (system_id_of state) (connect creds reference c codec handler state body w)
    unfolding connect
    connect-Carries P codec handler state body w assigned h =
        rw assigned (
          left-Carries P (system_id_of state) _ _ _ (entered-Gives P body (system_id_of state) _ h))

    -- `connect_sync` leaves the connections as they were, on every way out.
    pub connect_sync-live :
        (extra : List Segment) (body : Block creds reference c A) (w : World Link)
        → IsNumbered w
        → ((connect_sync creds reference c extra body w).1.live ≡ w.live)
          × (w.next < (connect_sync creds reference c extra body w).1.next)
    unfolding connect_sync
    connect_sync-live extra body w fresh =
        let (i, w') = open_connection w in closed-live w.live i _ _ w' fresh refl (omega arith)
