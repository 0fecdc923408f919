-- ===== src/Clients/Decoupled/Connections/Sessions.antt =====
-- Any calls of a client, one behind the other.
use geldstrom.Prelude.{ℕ, ◌≡◌, List, Option, none, String}
use geldstrom.Tan.{ChallengeHandler}
use geldstrom.Dialog.{Connection}
use geldstrom.Clients.{GatewayCredentials, World}
use geldstrom.Clients.Fetching.{Operations}
use geldstrom.Clients.Fints3.{Client}
use geldstrom.Clients.Decoupled.Polling.{
  Formats, poll_tan, snapshot_pending, cleanup_pending, disconnect, resume_and_poll,
}
use geldstrom.Clients.Decoupled.Connections.{IsClear, IsHeld, IsClear-IsHeld}
use geldstrom.Clients.Decoupled.Connections.Starts.{Start, start, start-IsHeld}
use geldstrom.Clients.Decoupled.Connections.Polls.{polls-IsHeld}
use geldstrom.Clients.Decoupled.Connections.Resumes.{read_poll}
use geldstrom.Clients.Decoupled.Connections.Reopens.{HasSystemId, IsCaught, resume_and_poll-IsClear}

module _ (c : Connection) (formats : Formats) (creds : GatewayCredentials) (reference : String)
    (handler : Option ChallengeHandler) (operations : Operations c) where
  open c use {Link}

  -- What calls make of a client and the connections, where no operation starts and no snapshot is polled
  -- while a challenge is pending, and a snapshot is polled only with an assigned system id and where the
  -- poll raises at most a `TimeoutError` or a `ValueError`.
  pub data Calls (client : Client) (w : World Link) : Client → World Link → Type 0 where
    begun : Calls client w client w
    started :
        {client' : Client} {w' : World Link} (s : Start)
        → client'.pending ≡ none
        → Calls client w client' w'
        → Calls client w
            (start c formats.blobs creds reference handler operations s client' w').0
            (start c formats.blobs creds reference handler operations s client' w').1
    polled :
        {client' : Client} {w' : World Link}
        → Calls client w client' w'
        → Calls client w
            (poll_tan c formats creds reference operations client' w').1
            (poll_tan c formats creds reference operations client' w').2
    snapshotted :
        {client' : Client} {w' : World Link}
        → Calls client w client' w'
        → Calls client w
            (snapshot_pending c formats creds reference operations client' w').1
            (snapshot_pending c formats creds reference operations client' w').2
    resumed :
        {client' : Client} {w' : World Link} (bytes : String)
        → client'.pending ≡ none
        → HasSystemId (formats.deserialize_snapshot bytes)
        → IsCaught
            (read_poll c formats creds reference operations (formats.deserialize_snapshot bytes) w')
        → Calls client w client' w'
        → Calls client w
            (resume_and_poll c formats creds reference operations bytes client' w').1
            (resume_and_poll c formats creds reference operations bytes client' w').2
    cleaned :
        {client' : Client} {w' : World Link}
        → Calls client w client' w'
        → Calls client w
            (cleanup_pending c formats creds reference operations client' w').0
            (cleanup_pending c formats creds reference operations client' w').1
    disconnected :
        {client' : Client} {w' : World Link}
        → Calls client w client' w'
        → Calls client w
            (disconnect c formats creds reference operations client' w').0
            (disconnect c formats creds reference operations client' w').1

  -- Without a challenge, a client that is held is clear.
  held-IsClear :
      (base : List ℕ) (client : Client) (w : World Link)
      → client.pending ≡ none
      → IsHeld c base client w
      → IsClear c base client w
  held-IsClear base client w free held = simp free at held

  -- Over any calls of a client whose session state has an assigned system id, where no operation starts
  -- and no snapshot is polled while a challenge is pending, and where a snapshot is polled only with an
  -- assigned system id and when its poll raises at most a `TimeoutError` or a `ValueError`, whatever else
  -- the bank answers and the calls raise: the open connections are those that were open before, and,
  -- while a challenge is pending, that of its context.
  pub Calls-IsHeld :
      (base : List ℕ) {client : Client} {w : World Link} {client' : Client} {w' : World Link}
      → IsHeld c base client w
      → Calls client w client' w'
      → IsHeld c base client' w'
  Calls-IsHeld base held begun = held
  Calls-IsHeld base held (started {client' = client'} {w' = w'} s free before) =
      start-IsHeld c base formats.blobs creds reference handler operations s client' w'
        (held-IsClear base client' w' free (Calls-IsHeld base held before))
  Calls-IsHeld base held (polled {client' = client'} {w' = w'} before) =
      (polls-IsHeld c base formats creds reference operations client' w'
        (Calls-IsHeld base held before)).0
  Calls-IsHeld base held (snapshotted {client' = client'} {w' = w'} before) =
      (polls-IsHeld c base formats creds reference operations client' w'
        (Calls-IsHeld base held before)).1
  Calls-IsHeld base held (resumed {client' = client'} {w' = w'} bytes free known caught before) =
      IsClear-IsHeld c base _ _ (
        resume_and_poll-IsClear c base formats creds reference operations bytes client' w'
          (held-IsClear base client' w' free (Calls-IsHeld base held before)) known caught)
  Calls-IsHeld base held (cleaned {client' = client'} {w' = w'} before) =
      IsClear-IsHeld c base _ _
        (polls-IsHeld c base formats creds reference operations client' w'
          (Calls-IsHeld base held before)).2
  Calls-IsHeld base held (disconnected {client' = client'} {w' = w'} before) =
      IsClear-IsHeld c base _ _
        (polls-IsHeld c base formats creds reference operations client' w'
          (Calls-IsHeld base held before)).3
