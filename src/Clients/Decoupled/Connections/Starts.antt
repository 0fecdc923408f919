-- ===== src/Clients/Decoupled/Connections/Starts.antt =====
-- The methods that start an operation at the bank, from a client without a pending challenge.
use geldstrom.Prelude.{
  Bool, ℕ, ◌<◌, ◌≡◌, List, [], ◌∷◌, Option, String, str_eq, Outcome, ok, raised, arith, Bool-cases,
  inl, inr, ◌∙◌,
}
use geldstrom.Tan.{ChallengeHandler}
use geldstrom.Dialog.{Dialog, Connection}
use geldstrom.Clients.{GatewayCredentials, BlobCodec, World, ClientRaise}
use geldstrom.Clients.Connect.{create_session_state}
use geldstrom.Clients.Connect.Closes.{Gives, IsNumbered, All-below, connect_sync-live}
use geldstrom.Clients.Fetching.{Account, TanMethodInfo, Operations}
use geldstrom.Clients.Fints3
use geldstrom.Clients.Fints3.{
  Client, OperationMeta, CallRaise, awaiting, nothing_pending, call_failed, Method, AccountRef,
  of_account, by_id, and_then, find_account, ensure_connected, referred, of_sync, methods_or_sync,
  cached_methods,
}
use geldstrom.Clients.Decoupled
use geldstrom.Clients.Decoupled.{storing}
use geldstrom.Clients.Decoupled.Connections.{
  IsClear, IsHeld, IsClear-IsHeld, After, Holds, Anything, and_then-After, in_block-After,
  super_connect-After,
}

-- The methods that start an operation at the bank.
pub data Start : Type 0 where
  connects lists_accounts lists_methods : Start
  fetches_balance : AccountRef → Start
  fetches_balances : Option (List String) → Start
  fetches_transactions : AccountRef → Option ℕ → Option ℕ → Bool → Start

module _ (c : Connection) (codec : BlobCodec) (creds : GatewayCredentials) (reference : String)
    (handler : Option ChallengeHandler) (operations : Operations c) where
  open c use {Link}

  -- The client and the connections behind the method.
  unfoldable pub start : Start → Client → World Link → Client × World Link
  start connects client w =
      let (r, client', w') =
        Decoupled.connect c codec creds reference handler operations client w in
      (client', w')
  start lists_accounts client w =
      let (r, client', w') =
        Decoupled.list_accounts c codec creds reference handler operations client w in
      (client', w')
  start lists_methods client w =
      let (r, client', w') =
        Decoupled.get_tan_methods c codec creds reference handler operations client w in
      (client', w')
  start (fetches_balance account) client w =
      let (r, client', w') =
        Decoupled.get_balance c codec creds reference handler operations account client w in
      (client', w')
  start (fetches_balances account_ids) client w =
      let (r, client', w') =
        Decoupled.get_balances c codec creds reference handler operations account_ids client w in
      (client', w')
  start (fetches_transactions account from to include_pending) client w =
      let (r, client', w') =
        Decoupled.get_transactions c codec creds reference handler operations account from to
          include_pending client w in
      (client', w')

module _ (c : Connection) (base : List ℕ) where
  open c use {Link}

  abbrev KeepsClear : {A : Type 0} → Method c A → Type 0
  KeepsClear m =
      (client : Client) (w : World Link)
      → IsClear c base client w
      → After c base Anything (m client w)

  ensure-KeepsClear :
      (m : Method c (List Account)) → KeepsClear m → KeepsClear (ensure_connected c m)
  unfolding ensure_connected
  ensure-KeepsClear m h client w clear = elim (Bool-cases client.connected) [
    | inl e ↦ simp e (clear, tt)
    | inr e ↦ simp e (
        and_then-After c base _ Anything _ (m client w) (h client w clear)
          (λ a client' w' clear' u. (clear', tt)))
  ]

  list_accounts-KeepsClear :
      (m : Method c (List Account)) → KeepsClear m → KeepsClear (Fints3.list_accounts c m)
  unfolding Fints3.list_accounts
  list_accounts-KeepsClear m h client w clear =
      and_then-After c base Anything Anything _ (ensure_connected c m client w)
        (ensure-KeepsClear m h client w clear) (λ u client' w' clear' p. (clear', tt))

  -- What is found among the accounts, whether or not it raises.
  found-After :
      (account_id : String) (accounts : List Account) (client : Client) (w : World Link)
      → IsClear c base client w
      → After c base Anything (find_account account_id accounts, client, w)
  unfolding find_account
  found-After account_id [] client w clear = clear
  found-After account_id (a ∷ rest) client w clear =
      elim (Bool-cases (str_eq a.account_id account_id)) [
        | inl e ↦ simp e (clear, tt)
        | inr e ↦ simp e (found-After account_id rest client w clear)
      ]

  referred-KeepsClear :
      (m : Method c (List Account)) (account : AccountRef)
      → KeepsClear m
      → KeepsClear (referred c m account)
  unfolding Fints3.get_account
  referred-KeepsClear m (of_account a) h client w clear = (clear, tt)
  referred-KeepsClear m (by_id i) h client w clear =
      and_then-After c base Anything Anything _ (ensure_connected c m client w)
        (ensure-KeepsClear m h client w clear)
        (λ u client' w' clear' p. found-After i client'.accounts client' w' clear')

  module _ (codec : BlobCodec) (creds : GatewayCredentials) (reference : String)
      (handler : Option ChallengeHandler) (operations : Operations c) where
    storing-After :
        {A : Type 0} (operation_type : String) (meta : Client → OperationMeta)
        (r : Outcome CallRaise A × Client × World Link)
        → After c base Anything r
        → After c base Anything
            (storing c codec creds reference handler operations operation_type meta r)
    storing-After operation_type meta (ok a, client, w) h = h
    storing-After operation_type meta (raised (awaiting ctx challenge t), client, w) h = h
    storing-After operation_type meta (raised nothing_pending, client, w) h = h
    storing-After operation_type meta (raised (call_failed e), client, w) h = h

    -- What a method has left is held once its challenge is kept.
    storing-Holds :
        {A : Type 0} (operation_type : String) (meta : Client → OperationMeta)
        (r : Outcome CallRaise A × Client × World Link)
        → After c base Anything r
        → Holds c base (storing c codec creds reference handler operations operation_type meta r)
    unfolding create_session_state
    storing-Holds operation_type meta (ok a, client, w) (clear, p) =
        IsClear-IsHeld c base client w clear
    storing-Holds operation_type meta (raised (awaiting ctx challenge t), client, w) waiting =
        (waiting, waiting.assigned)
    storing-Holds operation_type meta (raised nothing_pending, client, w) clear =
        IsClear-IsHeld c base client w clear
    storing-Holds operation_type meta (raised (call_failed e), client, w) clear =
        IsClear-IsHeld c base client w clear

    connect-KeepsClear : KeepsClear (Decoupled.connect c codec creds reference handler operations)
    unfolding Decoupled.connect
    connect-KeepsClear client w clear =
        storing-After "connect" _ _
          (super_connect-After c base codec creds reference handler operations client w clear)

    gives :
        {A : Type 0} (r : Outcome ClientRaise A × Dialog × Link)
        → Gives creds reference c Anything r
    gives (ok a, d, l) = tt
    gives (raised e, d, l) = tt

    ensured :
        (client : Client) (w : World Link)
        → IsClear c base client w
        → After c base Anything (
            ensure_connected c
              (Decoupled.connect c codec creds reference handler operations)
              client
              w)
    ensured = ensure-KeepsClear _ connect-KeepsClear

    sync-After :
        {A : Type 0} (client : Client) (w : World Link) (r : Outcome ClientRaise A × World Link)
        → IsClear c base client w
        → r.1.live ≡ w.live
        → w.next < r.1.next
        → After c base Anything (of_sync c client r)
    sync-After client w (ok a, w') clear live n = (
      record {
        none_pending = clear.none_pending;
        live = live ∙ clear.live;
        numbered = All-below base w.next w'.next (omega (arith, n)) clear.numbered;
        assigned = clear.assigned;
      },
      tt,
    )
    sync-After client w (raised e, w') clear live n = record {
      none_pending = clear.none_pending;
      live = live ∙ clear.live;
      numbered = All-below base w.next w'.next (omega (arith, n)) clear.numbered;
      assigned = clear.assigned;
    }

    methods-After :
        (methods : List TanMethodInfo) (client : Client) (w : World Link)
        → IsClear c base client w
        → After c base Anything
            (methods_or_sync c codec creds reference handler operations methods client w)
    methods-After (t ∷ ts) client w clear = (clear, tt)
    methods-After [] client w clear =
        let fresh : IsNumbered w = rw clear.live clear.numbered in
        let (live, n) = connect_sync-live creds reference c [] _ w fresh in
        sync-After client w _ clear live n

    -- From a client without a pending challenge, a method that starts an operation leaves the challenge
    -- that it raises with its connection, or none.
    pub start-IsHeld :
        (s : Start) (client : Client) (w : World Link)
        → IsClear c base client w
        → IsHeld c base
            (start c codec creds reference handler operations s client w).0
            (start c codec creds reference handler operations s client w).1
    unfolding start Decoupled.connect Decoupled.list_accounts Decoupled.get_tan_methods
        Decoupled.get_balance Decoupled.get_balances Decoupled.get_transactions
        Fints3.get_tan_methods Fints3.get_balance Fints3.get_balances Fints3.get_transactions
    start-IsHeld connects client w clear =
        storing-Holds "connect" _ _
          (super_connect-After c base codec creds reference handler operations client w clear)
    start-IsHeld lists_accounts client w clear =
        storing-Holds "accounts" _ _ (list_accounts-KeepsClear _ connect-KeepsClear client w clear)
    start-IsHeld lists_methods client w clear =
        storing-Holds {A = List TanMethodInfo} "tan_methods" Decoupled.plain_meta _ (
          methods-After
            (cached_methods c codec creds reference handler operations client.session_state) client
            w clear)
    start-IsHeld (fetches_balance account) client w clear = storing-Holds "balance" _ _ (
        and_then-After c base Anything Anything _ _
          (referred-KeepsClear _ account connect-KeepsClear client w clear)
          (λ a client' w' clear' p.
            and_then-After c base Anything Anything _ _ (ensured client' w' clear')
              (λ u client'' w'' clear'' q.
                in_block-After c base codec creds reference handler operations Anything _ client''
                  w'' clear'' (λ d l. gives _))))
    start-IsHeld (fetches_balances account_ids) client w clear = storing-Holds "balances" _ _ (
        and_then-After c base Anything Anything _ _ (ensured client w clear)
          (λ u client' w' clear' p.
            in_block-After c base codec creds reference handler operations Anything _ client' w'
              clear' (λ d l. gives _)))
    start-IsHeld (fetches_transactions account from to include_pending) client w clear =
        storing-Holds "transactions" _ _ (
          and_then-After c base Anything Anything _ _ (ensured client w clear)
            (λ u client' w' clear' p.
              in_block-After c base codec creds reference handler operations Anything _ client' w'
                clear' (λ d l. gives _)))
