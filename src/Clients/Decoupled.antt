-- ===== src/Clients/Decoupled.antt =====
-- clients/fints3_decoupled.py: `FinTS3ClientDecoupled`, whose methods keep the pending challenge, and the
-- operation that is completed once it is approved (child `Completion`), for the methods of `Polling`.
pub mod Completion
pub mod Polling
pub mod Connections
use geldstrom.Prelude.{
  ℕ, Bool, true, false, List, [], ◌∷◌, Option, none, some, String, Outcome, ok, raised,
}
use geldstrom.Segments.{Segment}
use geldstrom.Tan.{ChallengeHandler}
use geldstrom.Dialog.{Connection}
use geldstrom.Clients.{GatewayCredentials, BlobCodec, World, ConnectionContext}
use geldstrom.Clients.Connect.{create_session_state}
use geldstrom.Clients.Fetching.{Account, TanMethodInfo, TransactionFeed, Operations}
use geldstrom.Clients.Fints3
use geldstrom.Clients.Fints3.{
  Client, PendingTan, OperationMeta, CallRaise, awaiting, AccountRef, ref_id, Method, super_connect,
}

-- The meta data of an operation that has none of its own.
abbrev pub plain_meta : Client → OperationMeta
plain_meta client = record {
  account_id = none;
  iban = none;
  start_date = none;
  end_date = none;
  include_pending = false;
  account_ids = none;
  was_connected = some client.connected;
}

module _ (c : Connection) (codec : BlobCodec) (creds : GatewayCredentials) (reference : String)
    (handler : Option ChallengeHandler) (operations : Operations c) where
  open c use {Link}

  -- `except DecoupledTANPending`: the challenge is kept, with the meta data as of then.
  abbrev pub storing :
      {A : Type 0}
      → String
      → (Client → OperationMeta)
      → Outcome CallRaise A × Client × World Link
      → Outcome CallRaise A × Client × World Link
  storing operation_type meta (raised (awaiting ctx challenge task_reference), client, w) = (
    raised (awaiting ctx challenge task_reference),
    record client {
      session_state = some (create_session_state codec creds ctx.system_id ctx.dialog.parameters);
      pending = some (record {
        context = ctx;
        task_reference = task_reference;
        challenge = some challenge;
        operation_type = operation_type;
        operation_meta = meta client;
      });
    },
    w,
  )
  storing operation_type meta (r, client, w) = (r, client, w)

  unfoldable pub connect : Method c (List Account)
  unfolding super_connect create_session_state
  connect client w =
      storing "connect" plain_meta
        (super_connect c codec creds reference handler operations client w)

  unfoldable pub list_accounts : Method c (List Account)
  unfolding connect Fints3.list_accounts create_session_state
  list_accounts client w = storing "accounts" plain_meta (Fints3.list_accounts c connect client w)

  abbrev pub transactions_meta : AccountRef → Option ℕ → Option ℕ → Bool → Client → OperationMeta
  transactions_meta account start_date end_date include_pending client =
      record (plain_meta client) {
        account_id = some (ref_id account);
        start_date = start_date;
        end_date = end_date;
        include_pending = include_pending;
      }

  unfoldable pub get_transactions :
      AccountRef → Option ℕ → Option ℕ → Bool → Method c TransactionFeed
  unfolding connect Fints3.get_transactions create_session_state
  get_transactions account start_date end_date include_pending client w =
      storing "transactions" (transactions_meta account start_date end_date include_pending) (
        Fints3.get_transactions c codec creds reference handler operations connect account
          start_date end_date include_pending client w)

  unfoldable pub get_balance : AccountRef → Method c String
  unfolding connect Fints3.get_balance create_session_state
  get_balance account client w =
      storing "balance"
        (λ client'. record (plain_meta client') { account_id = some (ref_id account) })
        (Fints3.get_balance c codec creds reference handler operations connect account client w)

  unfoldable pub get_balances : Option (List String) → Method c (List String)
  unfolding connect Fints3.get_balances create_session_state
  get_balances account_ids client w =
      storing "balances" (λ client'. record (plain_meta client') { account_ids = account_ids })
        (Fints3.get_balances c codec creds reference handler operations connect account_ids client
          w)

  unfoldable pub get_tan_methods : Method c (List TanMethodInfo)
  unfolding Fints3.get_tan_methods create_session_state
  get_tan_methods client w =
      storing "tan_methods" plain_meta
        (Fints3.get_tan_methods c codec creds reference handler operations client w)
