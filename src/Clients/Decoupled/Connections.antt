-- ===== src/Clients/Decoupled/Connections.antt =====
-- The connections that a `FinTS3ClientDecoupled` holds open, over its calls.
pub mod Starts
pub mod Keeps
pub mod Polls
pub mod Resumes
pub mod Reopens
pub mod Sessions
use geldstrom.Prelude.{
  ℕ, ◌+◌, ◌<◌, ◌≤◌, ◌≡◌, refl, sym, ap, ◌∙◌, Bool, true, false, List, [], ◌∷◌, Option, none, some,
  String, str_eq, eq_iff, Outcome, ok, raised, arith, All, Bool-cases, inl, inr,
}
use geldstrom.Segments.{Segment}
use geldstrom.Tan.{ChallengeHandler}
use geldstrom.Dialog.{Dialog, Connection}
use geldstrom.Clients.{
  GatewayCredentials, FinTsSessionState, ClientRaise, BlobCodec, World, ConnectionContext,
  ConnectRaise, tan_waits, failed,
}
use geldstrom.Clients.Connect.{
  Block, connect, create_session_state, system_id_of, unassigned, connect_sync,
}
use geldstrom.Clients.Connect.Closes.{
  IsNumbered, All-below, Balances, connect-Balances, Gives, Carries, connect-Carries,
  connect_sync-live,
}
use geldstrom.Clients.Fetching.{Account, Operations}
use geldstrom.Clients.Fints3
use geldstrom.Clients.Fints3.{
  Client, PendingTan, OperationMeta, CallRaise, awaiting, nothing_pending, call_failed, Method,
  AccountRef, by_id, of_account, and_then, of_service, in_block, with_state, connected_after,
  super_connect, methods_or_sync, cached_methods, referred, find_account,
}
use geldstrom.Clients.Decoupled
use geldstrom.Clients.Decoupled.{storing}

-- The session state has the system id that the bank has assigned.
abbrev pub IsAssigned : Option FinTsSessionState → Type 0
IsAssigned state = str_eq (system_id_of state) unassigned ≡ false

abbrev pub Anything : {A : Type 0} → A → Type 0
Anything a = Unit {0}

assigned-unknown :
    (state : Option FinTsSessionState) → IsAssigned state → system_id_of state ≡ unassigned → ⊥
assigned-unknown state assigned unknown =
    let same : str_eq (system_id_of state) unassigned ≡ true = (eq_iff _ _).1 unknown in cc

module _ (c : Connection) (base : List ℕ) where
  open c use {Link}

  -- No challenge is pending, and the connections are those of others.
  pub record IsClear (client : Client) (w : World Link) : Type 0 where
    pub none_pending : client.pending ≡ none
    pub live : w.live ≡ base
    pub numbered : All (λ j. j < w.next) base
    pub assigned : IsAssigned client.session_state

  -- The connections are those of others and that of the context.
  pub record IsWaiting (ctx : ConnectionContext) (w : World Link) : Type 0 where
    pub live : w.live ≡ ctx.connection ∷ base
    pub newest : All (λ j. j < ctx.connection) base
    pub used : ctx.connection < w.next
    pub assigned : str_eq ctx.system_id unassigned ≡ false

  module _ {A : Type 0} where
    -- A call that is not yet stored.
    abbrev pub After : (A → Type 0) → Outcome CallRaise A × Client × World Link → Type 0
    After P (ok a, client, w) = IsClear client w × P a
    After P (raised (awaiting ctx challenge t), client, w) = IsWaiting ctx w
    After P (raised nothing_pending, client, w) = IsClear client w
    After P (raised (call_failed e), client, w) = IsClear client w

  pub and_then-After :
      {A B : Type 0} (P : A → Type 0) (Q : B → Type 0) (f : A → Method c B)
      (r : Outcome CallRaise A × Client × World Link)
      → After P r
      → ((a : A) (client : Client) (w : World Link)
          → IsClear client w
          → P a
          → After Q (f a client w))
      → After Q (and_then c f r)
  and_then-After P Q f (ok a, client, w) (clear, p) h = h a client w clear p
  and_then-After P Q f (raised (awaiting ctx challenge t), client, w) waiting h = waiting
  and_then-After P Q f (raised nothing_pending, client, w) clear h = clear
  and_then-After P Q f (raised (call_failed e), client, w) clear h = clear

  of_service-After :
      {A : Type 0} (creds : GatewayCredentials) (reference : String) (P : A → Type 0)
      (system_id : String) (client : Client) (w : World Link)
      (r : Outcome ConnectRaise A × World Link)
      → IsClear client w
      → str_eq system_id unassigned ≡ false
      → Balances creds reference c w.next w.live r
      → Carries creds reference c P system_id r
      → After P (of_service c client r)
  of_service-After creds reference P system_id client w (ok a, w') clear s (live, n) p = (
    record {
      none_pending = clear.none_pending;
      live = live ∙ clear.live;
      numbered = All-below base w.next w'.next (omega (arith, n)) clear.numbered;
      assigned = clear.assigned;
    },
    p,
  )
  of_service-After creds reference P system_id client w (raised (tan_waits ctx challenge t), w')
        clear s (live, le, n) same =
      record {
        live = live ∙ ap (λ js. ctx.connection ∷ js) clear.live;
        newest = All-below base w.next ctx.connection le clear.numbered;
        used = n;
        assigned = rw same s;
      }
  of_service-After creds reference P system_id client w (raised (failed e), w') clear s (live, n)
        p =
      record {
        none_pending = clear.none_pending;
        live = live ∙ clear.live;
        numbered = All-below base w.next w'.next (omega (arith, n)) clear.numbered;
        assigned = clear.assigned;
      }

  -- The challenge that is kept is of a context that waits, and none is kept else.
  abbrev pub HeldBy : Option PendingTan → Client → World Link → Type 0
  HeldBy none client w = IsClear client w
  HeldBy (some p) client w = IsWaiting p.context w × IsAssigned client.session_state

  abbrev pub IsHeld : Client → World Link → Type 0
  IsHeld client w = HeldBy client.pending client w

  pub IsClear-IsHeld : (client : Client) (w : World Link) → IsClear client w → IsHeld client w
  IsClear-IsHeld client w clear = simp clear.none_pending clear

  -- After a method, its value aside.
  abbrev pub Holds : {A : Type 0} → Outcome CallRaise A × Client × World Link → Type 0
  Holds (r, client, w) = IsHeld client w

  module _ (codec : BlobCodec) (creds : GatewayCredentials) (reference : String)
      (handler : Option ChallengeHandler) (operations : Operations c) where
    pub in_block-After :
        {A : Type 0} (P : A → Type 0) (block : Block creds reference c A) (client : Client)
        (w : World Link)
        → IsClear client w
        → ((d : Dialog) (l : Link)
            → Gives creds reference c P (block (system_id_of client.session_state) d l))
        → After P (in_block c codec creds reference handler operations block client w)
    in_block-After P block client w clear h =
        let state = client.session_state in
        let fresh : IsNumbered w = rw clear.live clear.numbered in
        let carried =
          connect-Carries creds reference c P codec handler state block w clear.assigned h in
        elim (connect-Balances creds reference c codec handler state block w fresh) [
          | inl balanced ↦
              of_service-After creds reference P (system_id_of state) client w _ clear
                clear.assigned balanced carried
          | inr (unknown, leak) ↦ absurd (assigned-unknown state clear.assigned unknown)
        ]

    with_state-Gives :
        (system_id : String) (r : Outcome ClientRaise (List Account) × Dialog × Link)
        → Gives creds reference c
            (λ (p : List Account × FinTsSessionState). p.1.system_id ≡ system_id)
            (with_state c codec creds reference handler operations system_id r)
    unfolding create_session_state
    with_state-Gives system_id (ok accounts, d, l) = refl
    with_state-Gives system_id (raised e, d, l) = tt

    pub super_connect-After :
        (client : Client) (w : World Link)
        → IsClear client w
        → After Anything (super_connect c codec creds reference handler operations client w)
    unfolding super_connect
    super_connect-After client w clear =
        and_then-After _ Anything (connected_after c) _
          (in_block-After (λ p. p.1.system_id ≡ system_id_of client.session_state) _ client w clear
            (λ d l. with_state-Gives _ (operations.discover d l)))
          (λ p client' w' clear' same. (
            record {
              none_pending = clear'.none_pending;
              live = clear'.live;
              numbered = clear'.numbered;
              assigned = rw same clear.assigned;
            },
            tt,
          ))
