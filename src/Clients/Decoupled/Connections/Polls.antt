-- ===== src/Clients/Decoupled/Connections/Polls.antt =====
-- The polls and what releases a challenge: the connections behind them.
use geldstrom.Prelude.{
  ℕ, ◌≤◌, ◌≡◌, refl, true, List, Option, none, some, String, ◌==◌, Outcome, ok, raised, arith,
  Bool-cases, inl, inr,
}
use geldstrom.Responses.{Processed}
use geldstrom.Dialog.{Dialog, DialogRaise, Connection}
use geldstrom.Clients.{
  GatewayCredentials, ClientRaise, World, ConnectionContext, at_link, close_connection,
}
use geldstrom.Clients.Connect.Closes.{All-below, without_fresh, finish-live}
use geldstrom.Clients.Fetching.{Operations}
use geldstrom.Clients.Fints3
use geldstrom.Clients.Fints3.{Client, PendingTan}
use geldstrom.Clients.Decoupled.Completion.{Payload}
use geldstrom.Clients.Decoupled.Polling.{
  Formats, is_caught, with_dialog, close_context, cleanup_pending, poll_completed, polled_tan,
  poll_tan, snapshot_pending, disconnect, poll_pending, snapshot_taken, cleaned_up,
}
use geldstrom.Clients.Decoupled.Connections.{
  IsAssigned, IsClear, IsWaiting, IsHeld, HeldBy, Holds, IsClear-IsHeld,
}
use geldstrom.Clients.Decoupled.Connections.Keeps.{Keeps, complete_approved_operation-Keeps}

module _ (c : Connection) (base : List ℕ) where
  open c use {Link}

  -- The connection of a context that waits is closed.
  pub closed-IsClear :
      (ctx : ConnectionContext) (client : Client) (w w' : World Link)
      → IsWaiting c base ctx w
      → client.pending ≡ none
      → IsAssigned client.session_state
      → w'.live ≡ w.live
      → w'.next ≡ w.next
      → IsClear c base client (close_connection ctx.connection w')
  closed-IsClear ctx client w w' waiting free assigned live next =
      let here : (ctx.connection == ctx.connection) ≡ true = ground arith in
      let rest = without_fresh ctx.connection base waiting.newest in
      let below : ctx.connection ≤ w'.next = omega (arith, waiting.used, next) in
      record {
        none_pending = free;
        live = rw live (rw waiting.live (rw here rest));
        numbered = All-below base ctx.connection w'.next below waiting.newest;
        assigned = assigned;
      }

  module _ (formats : Formats) (creds : GatewayCredentials) (reference : String)
      (operations : Operations c) where
    pub closed_context-IsClear :
        (ctx : ConnectionContext) (client : Client) (d : Dialog) (l : Link) (w : World Link)
        → IsWaiting c base ctx w
        → client.pending ≡ none
        → IsAssigned client.session_state
        → IsClear c base client
            (close_context c formats creds reference operations ctx.connection d (at_link l w))
    closed_context-IsClear ctx client d l w waiting free assigned =
        let (live, next) = finish-live creds reference c d (at_link l w) in
        closed-IsClear ctx client w _ waiting free assigned live next

    with_dialog-IsHeld :
        (client : Client) (p : PendingTan) (d : Dialog) (l : Link) (w : World Link)
        → IsWaiting c base p.context w
        → IsAssigned client.session_state
        → IsHeld c base (with_dialog c formats creds reference operations client p d) (at_link l w)
    with_dialog-IsHeld client p d l w waiting assigned = (
      record {
        live = waiting.live;
        newest = waiting.newest;
        used = waiting.used;
        assigned = waiting.assigned;
      },
      assigned,
    )

    poll_completed-Holds :
        (p : PendingTan) (w : World Link) (r : Outcome ClientRaise Payload × Client × Dialog × Link)
        → IsWaiting c base p.context w
        → IsAssigned r.1.session_state
        → Holds c base (poll_completed c formats creds reference operations p w r)
    poll_completed-Holds p w (raised e, client, d, l) waiting assigned =
        with_dialog-IsHeld client p d l w waiting assigned
    poll_completed-Holds p w (ok payload, client, d, l) waiting assigned =
        closed_context-IsClear p.context _ d l w waiting refl assigned

    polled_tan-Holds :
        (client : Client) (p : PendingTan) (w : World Link)
        (r : Outcome DialogRaise (Option Processed) × Dialog × Link)
        → IsWaiting c base p.context w
        → IsAssigned client.session_state
        → Holds c base (polled_tan c formats creds reference operations client p w r)
    unfolding Keeps
    polled_tan-Holds client p w (raised e, d, l) waiting assigned =
        elim (Bool-cases (is_caught e)) [
          | inl caught ↦
              simp caught (closed_context-IsClear p.context _ d l w waiting refl assigned)
          | inr out ↦ simp out (with_dialog-IsHeld client p d l w waiting assigned)
        ]
    polled_tan-Holds client p w (ok none, d, l) waiting assigned =
        with_dialog-IsHeld client p d l w waiting assigned
    polled_tan-Holds client p w (ok (some response), d, l) waiting assigned =
        poll_completed-Holds p w _ waiting
          (complete_approved_operation-Keeps c formats.blobs creds operations p.context.system_id
            waiting.assigned p.operation_type p.operation_meta response client d l assigned).1

    -- By what is pending.
    poll-HeldBy :
        (o : Option PendingTan) (client : Client) (w : World Link)
        → HeldBy c base o client w
        → Holds c base (poll_pending c formats creds reference operations o client w)
          × Holds c base (snapshot_taken c formats creds reference operations o client w)
          × IsClear c base
              (cleaned_up c formats creds reference operations o client w).0
              (cleaned_up c formats creds reference operations o client w).1
    poll-HeldBy none client w clear =
        (IsClear-IsHeld c base client w clear, IsClear-IsHeld c base client w clear, clear)
    poll-HeldBy (some p) client w (waiting, assigned) = (
      polled_tan-Holds client p w _ waiting assigned,
      closed-IsClear p.context _ w w waiting refl assigned refl refl,
      closed_context-IsClear p.context _ p.context.dialog w.link w waiting refl assigned,
    )

    -- A poll, a snapshot, a cleanup and a disconnection leave the challenge that the client then keeps
    -- with its connection, or none; a cleanup and a disconnection none.
    pub polls-IsHeld :
        (client : Client) (w : World Link)
        → IsHeld c base client w
        → Holds c base (poll_tan c formats creds reference operations client w)
          × Holds c base (snapshot_pending c formats creds reference operations client w)
          × IsClear c base
              (cleanup_pending c formats creds reference operations client w).0
              (cleanup_pending c formats creds reference operations client w).1
          × IsClear c base
              (disconnect c formats creds reference operations client w).0
              (disconnect c formats creds reference operations client w).1
    unfolding poll_tan snapshot_pending cleanup_pending disconnect Fints3.disconnect
    polls-IsHeld client w held =
        let (polled, kept, cleared) = poll-HeldBy client.pending client w held in
        (
          polled,
          kept,
          cleared,
          record {
            none_pending = cleared.none_pending;
            live = cleared.live;
            numbered = cleared.numbered;
            assigned = cleared.assigned;
          },
        )
