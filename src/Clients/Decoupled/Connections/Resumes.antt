-- ===== src/Clients/Decoupled/Connections/Resumes.antt =====
-- The connection of a poll from a snapshot.
use mathlib.Core.Path.{subst}
use geldstrom.Prelude.{
  ℕ, ◌<◌, ◌≡◌, refl, Bool, true, false, List, ◌∷◌, Option, none, some, String, ◌==◌, Outcome, ok,
  raised, arith, All, Bool-cases, inl, inr,
}
use geldstrom.Responses.{Processed}
use geldstrom.Dialog.{Dialog, DialogRaise, Connection, poll_decoupled_once}
use geldstrom.Dialog.Resume.{DialogSnapshot}
use geldstrom.Clients.{
  GatewayCredentials, FinTsSessionState, ClientRaise, dialog_raise, World, ConnectionContext,
  at_link, close_connection,
}
use geldstrom.Clients.Connect.{finish, resume_for_polling}
use geldstrom.Clients.Connect.Closes.{IsNumbered, without_fresh, finish-live}
use geldstrom.Clients.Fetching.{Operations}
use geldstrom.Clients.Fints3.{Client, CallRaise, call_failed}
use geldstrom.Clients.Decoupled.Completion.{Payload}
use geldstrom.Clients.Decoupled.Polling.{
  DecoupledSessionSnapshot, PollResult, Formats, is_caught, resume_completed, polled_resumed,
  resumed, resume_valid, resume_read, resume_and_poll, poll_failed,
}

module _ (c : Connection) (formats : Formats) (creds : GatewayCredentials) (reference : String)
    (operations : Operations c) where
  open c use {Link}

  -- What the poll to the bank gave, where there was one, and what became of the connection: it is left
  -- open where the poll raised what is neither a timeout nor a value error, and the call raises that; in
  -- every other case the connections are as before.
  abbrev pub LeftBy :
      Bool → DialogRaise → ℕ → List ℕ → Outcome CallRaise PollResult × Client × World Link → Type 0
  LeftBy true e i before out =
      (out.2.live ≡ before) × (out.0 ≡ ok (poll_failed (formats.message_of e)))
  LeftBy false e i before out =
      (out.2.live ≡ i ∷ before) × (out.0 ≡ raised (call_failed (dialog_raise e)))

  abbrev pub Leaves :
      Option (Outcome DialogRaise (Option Processed))
      → ℕ
      → List ℕ
      → Outcome CallRaise PollResult × Client × World Link
      → Type 0
  Leaves none i before out = out.2.live ≡ before
  Leaves (some (ok answer)) i before out = out.2.live ≡ before
  Leaves (some (raised e)) i before out = LeftBy (is_caught e) e i before out

  -- The poll of a context that is resumed.
  abbrev pub poll_of :
      DecoupledSessionSnapshot
      → Outcome ClientRaise ConnectionContext × World Link
      → Option (Outcome DialogRaise (Option Processed))
  poll_of s (raised e, w) = none
  poll_of s (ok ctx, w) =
      some (poll_decoupled_once c formats.lower s.task_reference ctx.dialog w.link).0

  abbrev pub valid_poll :
      Bool → DecoupledSessionSnapshot → World Link → Option (Outcome DialogRaise (Option Processed))
  valid_poll false s w = none
  valid_poll true s w = poll_of s (
      resume_for_polling creds reference c formats.blobs s.dialog_snapshot
        (formats.deserialize_state s.fints_session_state) s.server_url w)

  abbrev pub read_poll :
      Option DecoupledSessionSnapshot → World Link → Option (Outcome DialogRaise (Option Processed))
  read_poll none w = none
  read_poll (some s) w = valid_poll (formats.is_dialog s.dialog_snapshot) s w

  closed :
      (i : ℕ) (before : List ℕ) (w w' : World Link)
      → All (λ j. j < i) before
      → w.live ≡ i ∷ before
      → w'.live ≡ w.live
      → (close_connection i w').live ≡ before
  closed i before w w' fresh h same =
      let here : (i == i) ≡ true = ground arith in
      let rest = without_fresh i before fresh in rw same (rw h (rw here rest))

  resume_completed-live :
      (s : DecoupledSessionSnapshot) (ctx : ConnectionContext) (before : List ℕ) (w : World Link)
      (r : Outcome ClientRaise Payload × Client × Dialog × Link)
      → All (λ j. j < ctx.connection) before
      → w.live ≡ ctx.connection ∷ before
      → (resume_completed c formats creds reference operations s ctx w r).2.live ≡ before
  resume_completed-live s ctx before w (raised e, client, d, l) fresh h =
      closed ctx.connection before w (finish creds reference c d (at_link l w)) fresh h
        (finish-live creds reference c d (at_link l w)).0
  resume_completed-live s ctx before w (ok payload, client, d, l) fresh h =
      closed ctx.connection before w (finish creds reference c d (at_link l w)) fresh h
        (finish-live creds reference c d (at_link l w)).0

  polled_resumed-Leaves :
      (client : Client) (s : DecoupledSessionSnapshot) (ctx : ConnectionContext) (before : List ℕ)
      (w : World Link) (r : Outcome DialogRaise (Option Processed) × Dialog × Link)
      → All (λ j. j < ctx.connection) before
      → w.live ≡ ctx.connection ∷ before
      → Leaves
          (some r.0)
          ctx.connection
          before
          (polled_resumed c formats creds reference operations client s ctx w r)
  polled_resumed-Leaves client s ctx before w (raised e, d, l) fresh h =
      elim (Bool-cases (is_caught e)) [
        | inl caught ↦ simp caught (
          closed ctx.connection before w (finish creds reference c d (at_link l w)) fresh h
              (finish-live creds reference c d (at_link l w)).0,
          refl,
        )
        | inr out ↦ simp out (h, refl)
      ]
  polled_resumed-Leaves client s ctx before w (ok none, d, l) fresh h =
      closed ctx.connection before w (at_link l w) fresh h refl
  polled_resumed-Leaves client s ctx before w (ok (some response), d, l) fresh h =
      resume_completed-live s ctx before w _ fresh h

  -- A context with a connection of its own.
  abbrev Reopens : ℕ → List ℕ → Outcome ClientRaise ConnectionContext × World Link → Type 0
  Reopens i before (ok ctx, w) = (ctx.connection ≡ i) × (w.live ≡ i ∷ before)
  Reopens i before (raised e, w) = w.live ≡ before

  resume_for_polling-Reopens :
      (s : DialogSnapshot) (o : Option FinTsSessionState) (server_url : String) (w : World Link)
      → Reopens w.next w.live (resume_for_polling creds reference c formats.blobs s o server_url w)
  unfolding resume_for_polling
  resume_for_polling-Reopens s none server_url w = refl
  resume_for_polling-Reopens s (some state) server_url w = (refl, refl)

  resumed-Leaves :
      (i : ℕ) (before : List ℕ) (client : Client) (s : DecoupledSessionSnapshot)
      (r : Outcome ClientRaise ConnectionContext × World Link)
      → All (λ j. j < i) before
      → Reopens i before r
      → Leaves (poll_of s r) i before (resumed c formats creds reference operations client s r)
  resumed-Leaves i before client s (raised e, w) fresh h = h
  resumed-Leaves i before client s (ok ctx, w) fresh (same, h) =
      let fresh' : All (λ j. j < ctx.connection) before = rw same fresh in
      let h' : w.live ≡ ctx.connection ∷ before = rw same h in
      subst
        (λ k.
          Leaves (poll_of s (ok ctx, w)) k before
            (resumed c formats creds reference operations client s (ok ctx, w)))
        same (polled_resumed-Leaves client s ctx before w _ fresh' h')

  resume_valid-Leaves :
      (client : Client) (w : World Link) (b : Bool) (s : DecoupledSessionSnapshot)
      → IsNumbered w
      → Leaves
          (valid_poll b s w)
          w.next
          w.live
          (resume_valid c formats creds reference operations b client w s)
  resume_valid-Leaves client w false s fresh = refl
  resume_valid-Leaves client w true s fresh = resumed-Leaves w.next w.live client s _ fresh (
      resume_for_polling-Reopens s.dialog_snapshot (formats.deserialize_state s.fints_session_state)
        s.server_url w)

  resume_read-Leaves :
      (client : Client) (w : World Link) (o : Option DecoupledSessionSnapshot)
      → IsNumbered w
      → Leaves
          (read_poll o w)
          w.next
          w.live
          (resume_read c formats creds reference operations client w o)
  resume_read-Leaves client w none fresh = refl
  resume_read-Leaves client w (some s) fresh =
      resume_valid-Leaves client w (formats.is_dialog s.dialog_snapshot) s fresh

  -- From numbered connections: a poll from a snapshot whose poll to the bank raises what is neither a
  -- `TimeoutError` nor a `ValueError` raises that and leaves its own connection open beside those before;
  -- where the poll raises one of these, the call returns that it failed, and in this and every other case,
  -- whatever the snapshot holds, the bank answers and the completion raises, the connections are those of
  -- before.
  pub resume_and_poll-Leaves :
      (bytes : String) (client : Client) (w : World Link)
      → IsNumbered w
      → Leaves
          (read_poll (formats.deserialize_snapshot bytes) w)
          w.next
          w.live
          (resume_and_poll c formats creds reference operations bytes client w)
  unfolding resume_and_poll
  resume_and_poll-Leaves bytes client w fresh =
      resume_read-Leaves client w (formats.deserialize_snapshot bytes) fresh
