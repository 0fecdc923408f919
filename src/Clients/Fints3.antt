-- ===== src/Clients/Fints3.antt =====
-- clients/fints3.py: `FinTS3Client`, and the services that it calls. A method that connects takes the
-- `connect` of the object's class as its first argument.
use geldstrom.Prelude.{
  ℕ, Bool, true, false, List, [], ◌∷◌, Option, none, some, String, str_eq, if◌then◌else◌, Outcome,
  ok, raised,
}
use geldstrom.Segments.{Segment}
use geldstrom.Tan.{ChallengeHandler}
use geldstrom.Dialog.{Dialog, Connection}
use geldstrom.Clients.{
  GatewayCredentials, FinTsSessionState, ClientRaise, unknown_account, BlobCodec, World,
  ConnectionContext, ConnectRaise, tan_waits, failed,
}
use geldstrom.Clients.Connect.{
  connect, connect_sync, create_session_state, build_parameters_from_state, Block,
}
use geldstrom.Clients.Fetching.{
  Account, TanMethodInfo, TransactionFeed, Operations, fetch_balance_in, fetch_balances_in,
  fetch_history_in, extract_tan_methods,
}

-- `operation_meta`, with a missing key as none; a date is its ordinal, also where it is written.
pub record OperationMeta : Type 0 where
  pub account_id : Option String
  pub iban : Option String
  pub start_date : Option ℕ
  pub end_date : Option ℕ
  pub include_pending : Bool
  pub account_ids : Option (List String)
  pub was_connected : Option Bool

-- `_PendingTANState`; the operation's type is the text that the snapshot holds.
pub record PendingTan : Type 0 where
  pub context : ConnectionContext
  pub task_reference : String
  pub challenge : Option Segment
  pub operation_type : String
  pub operation_meta : OperationMeta

-- `FinTS3Client`, with the pending state of `FinTS3ClientDecoupled`. The capabilities, which come and
-- go with the accounts, are not modelled.
pub record Client : Type 0 where
  pub session_state : Option FinTsSessionState
  pub accounts : List Account
  pub connected : Bool
  pub pending : Option PendingTan

-- What a method raises: `DecoupledTANPending` with its context, `RuntimeError` for want of a pending
-- challenge, or anything else.
pub data CallRaise : Type 0 where
  awaiting : ConnectionContext → Segment → String → CallRaise
  nothing_pending : CallRaise
  call_failed : ClientRaise → CallRaise

-- `Account | str`
pub data AccountRef : Type 0 where
  of_account : Account → AccountRef
  by_id : String → AccountRef

abbrev pub ref_id : AccountRef → String
ref_id (of_account a) = a.account_id
ref_id (by_id i) = i

unfoldable pub find_account : String → List Account → Outcome CallRaise Account
find_account account_id [] = raised (call_failed unknown_account)
find_account account_id (a ∷ rest) =
    if str_eq a.account_id account_id then ok a else find_account account_id rest

unfoldable pub disconnect : Client → Client
disconnect client = record client { connected = false; accounts = [] }

module _ (c : Connection) where
  open c use {Link}

  -- A method: it changes the client and the connections, also where it raises.
  abbrev pub Method : Type 0 → Type 0
  Method A = Client → World Link → Outcome CallRaise A × Client × World Link

  abbrev pub and_then :
      {A B : Type 0}
      → (A → Method B)
      → Outcome CallRaise A × Client × World Link
      → Outcome CallRaise B × Client × World Link
  and_then f (ok a, client, w) = f a client w
  and_then f (raised e, client, w) = (raised e, client, w)

  -- A call of a service, which does not touch the client.
  abbrev pub of_service :
      {A : Type 0}
      → Client
      → Outcome ConnectRaise A × World Link
      → Outcome CallRaise A × Client × World Link
  of_service client (ok a, w) = (ok a, client, w)
  of_service client (raised (tan_waits ctx challenge t), w) =
      (raised (awaiting ctx challenge t), client, w)
  of_service client (raised (failed e), w) = (raised (call_failed e), client, w)

  abbrev pub of_sync :
      {A : Type 0}
      → Client
      → Outcome ClientRaise A × World Link
      → Outcome CallRaise A × Client × World Link
  of_sync client (ok a, w) = (ok a, client, w)
  of_sync client (raised e, w) = (raised (call_failed e), client, w)

  -- self._connected = True, with what the block has set
  abbrev pub connected_after : List Account × FinTsSessionState → Method (List Account)
  connected_after (accounts, state) client w = (
    ok accounts,
    record client { session_state = some state; accounts = accounts; connected = true },
    w,
  )

  unfoldable pub ensure_connected : Method (List Account) → Method (Unit {0})
  ensure_connected connect_method client w =
      if client.connected
      then (ok tt, client, w)
      else and_then (λ accounts client' w'. (ok tt, client', w')) (connect_method client w)

  unfoldable pub list_accounts : Method (List Account) → Method (List Account)
  unfolding ensure_connected
  list_accounts connect_method client w =
      and_then (λ u client' w'. (ok client'.accounts, client', w'))
        (ensure_connected connect_method client w)

  unfoldable pub get_account : Method (List Account) → String → Method Account
  unfolding ensure_connected find_account
  get_account connect_method account_id client w =
      and_then (λ u client' w'. (find_account account_id client'.accounts, client', w'))
        (ensure_connected connect_method client w)

  abbrev pub referred : Method (List Account) → AccountRef → Method Account
  referred connect_method (of_account a) client w = (ok a, client, w)
  referred connect_method (by_id i) client w = get_account connect_method i client w

  module _ (codec : BlobCodec) (creds : GatewayCredentials) (reference : String)
      (handler : Option ChallengeHandler) (operations : Operations c) where
    -- helper.connect(state) with the block of a service
    abbrev pub in_block : {A : Type 0} → Block creds reference c A → Method A
    in_block block client w =
        of_service client (connect creds reference c codec handler client.session_state block w)

    abbrev pub with_state :
        String
        → Outcome ClientRaise (List Account) × Dialog × Link
        → Outcome ClientRaise (List Account × FinTsSessionState) × Dialog × Link
    with_state system_id (ok accounts, d, l) =
        (ok (accounts, create_session_state codec creds system_id d.parameters), d, l)
    with_state system_id (raised e, d, l) = (raised e, d, l)

    -- `FinTS3Client.connect`
    unfoldable pub super_connect : Method (List Account)
    unfolding connect create_session_state
    super_connect client w =
        and_then connected_after
          (in_block (λ system_id d l. with_state system_id (operations.discover d l)) client w)

    unfoldable pub get_balance : Method (List Account) → AccountRef → Method String
    unfolding ensure_connected connect fetch_balance_in
    get_balance connect_method account client w =
        and_then
          (λ a client' w'.
            and_then (λ u. in_block (λ system_id. fetch_balance_in c operations a.account_id))
              (ensure_connected connect_method client' w'))
          (referred connect_method account client w)

    unfoldable pub get_balances :
        Method (List Account) → Option (List String) → Method (List String)
    unfolding ensure_connected connect fetch_balances_in
    get_balances connect_method account_ids client w =
        and_then (λ u. in_block (λ system_id. fetch_balances_in c operations account_ids))
          (ensure_connected connect_method client w)

    unfoldable pub get_transactions :
        Method (List Account) → AccountRef → Option ℕ → Option ℕ → Bool → Method TransactionFeed
    unfolding ensure_connected connect fetch_history_in
    get_transactions connect_method account start_date end_date include_pending client w =
        and_then
          (λ u. in_block (λ system_id.
            fetch_history_in c operations (ref_id account) start_date end_date include_pending))
          (ensure_connected connect_method client w)

    -- The methods of the parameters that the session state holds, none without a blob.
    abbrev pub cached_methods : Option FinTsSessionState → List TanMethodInfo
    cached_methods none = []
    cached_methods (some state) =
        if str_eq state.client_blob ""
        then []
        else extract_tan_methods c operations (build_parameters_from_state codec (some state))

    abbrev pub methods_or_sync : List TanMethodInfo → Method (List TanMethodInfo)
    methods_or_sync (t ∷ ts) client w = (ok (t ∷ ts), client, w)
    methods_or_sync [] client w = of_sync client (
        connect_sync creds reference c []
          (λ system_id d l. (ok (extract_tan_methods c operations d.parameters), d, l)) w)

    unfoldable pub get_tan_methods : Method (List TanMethodInfo)
    unfolding build_parameters_from_state extract_tan_methods connect_sync
    get_tan_methods client w = methods_or_sync (cached_methods client.session_state) client w
