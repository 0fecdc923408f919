-- ===== src/Clients/Decoupled/Connections/Reopens.antt =====
-- A poll from a snapshot by a client without a challenge: the connections behind it.
use geldstrom.Prelude.{
  ℕ, ◌≡◌, refl, ap, Bool, true, false, List, [], ◌∷◌, Option, none, some, String, str_eq, Outcome,
  ok, raised, arith,
}
use geldstrom.Responses.{Processed}
use geldstrom.Dialog.{Dialog, DialogRaise, Connection, poll_decoupled_once}
use geldstrom.Dialog.Resume.{resume}
use geldstrom.Clients.{
  GatewayCredentials, FinTsSessionState, ClientRaise, World, ConnectionContext, at_link,
  open_connection,
}
use geldstrom.Clients.Connect.{unassigned, build_parameters_from_state, resume_for_polling}
use geldstrom.Clients.Fetching.{Operations}
use geldstrom.Clients.Fints3.{Client}
use geldstrom.Clients.Decoupled.Completion.{Payload}
use geldstrom.Clients.Decoupled.Polling.{
  DecoupledSessionSnapshot, Formats, is_caught, polled_resumed, resume_completed, resumed,
  resume_valid, resume_read, resume_and_poll,
}
use geldstrom.Clients.Decoupled.Connections.{IsAssigned, IsClear, IsWaiting}
use geldstrom.Clients.Decoupled.Connections.Keeps.{Keeps, complete_approved_operation-Keeps}
use geldstrom.Clients.Decoupled.Connections.Polls.{closed-IsClear, closed_context-IsClear}
use geldstrom.Clients.Decoupled.Connections.Resumes.{poll_of, valid_poll, read_poll}

-- The dialog of the snapshot has an assigned system id, where the text is a snapshot.
abbrev pub HasSystemId : Option DecoupledSessionSnapshot → Type 0
HasSystemId none = Unit
HasSystemId (some s) = str_eq s.dialog_snapshot.system_id unassigned ≡ false

-- The poll raises at most a `TimeoutError` or a `ValueError`.
abbrev pub IsCaught : Option (Outcome DialogRaise (Option Processed)) → Type 0
IsCaught none = Unit
IsCaught (some (ok answer)) = Unit
IsCaught (some (raised e)) = is_caught e ≡ true

module _ (c : Connection) (base : List ℕ) (formats : Formats) (creds : GatewayCredentials)
    (reference : String) (operations : Operations c) where
  open c use {Link}

  resume_completed-IsClear :
      (s : DecoupledSessionSnapshot) (ctx : ConnectionContext) (w : World Link)
      (r : Outcome ClientRaise Payload × Client × Dialog × Link)
      → IsWaiting c base ctx w
      → IsAssigned r.1.session_state
      → let out = resume_completed c formats creds reference operations s ctx w r in
        IsClear c base out.1 out.2
  resume_completed-IsClear s ctx w (raised e, client, d, l) waiting assigned =
      closed_context-IsClear c base formats creds reference operations ctx _ d l w waiting refl
        assigned
  resume_completed-IsClear s ctx w (ok payload, client, d, l) waiting assigned =
      closed_context-IsClear c base formats creds reference operations ctx _ d l w waiting refl
        assigned

  polled_resumed-IsClear :
      (client : Client) (s : DecoupledSessionSnapshot) (ctx : ConnectionContext) (w : World Link)
      (r : Outcome DialogRaise (Option Processed) × Dialog × Link)
      → client.pending ≡ none
      → IsAssigned client.session_state
      → IsWaiting c base ctx w
      → IsCaught (some r.0)
      → let out = polled_resumed c formats creds reference operations client s ctx w r in
        IsClear c base out.1 out.2
  unfolding Keeps
  polled_resumed-IsClear client s ctx w (raised e, d, l) free assigned waiting caught =
      simp caught (
        closed_context-IsClear c base formats creds reference operations ctx client d l w waiting
          free assigned)
  polled_resumed-IsClear client s ctx w (ok none, d, l) free assigned waiting caught =
      closed-IsClear c base ctx client w (at_link l w) waiting free assigned refl refl
  polled_resumed-IsClear client s ctx w (ok (some response), d, l) free assigned waiting caught =
      resume_completed-IsClear s ctx w _ waiting
        (complete_approved_operation-Keeps c formats.blobs creds operations ctx.system_id
          waiting.assigned s.operation_type s.operation_meta response client d l assigned).1

  in_context-IsClear :
      (client : Client) (s : DecoupledSessionSnapshot) (ctx : ConnectionContext) (w : World Link)
      → client.pending ≡ none
      → IsAssigned client.session_state
      → IsWaiting c base ctx w
      → IsCaught (poll_of c formats creds reference operations s (ok ctx, w))
      → let out = resumed c formats creds reference operations client s (ok ctx, w) in
        IsClear c base out.1 out.2
  in_context-IsClear client s ctx w free assigned waiting caught =
      polled_resumed-IsClear client s ctx w
        (poll_decoupled_once c formats.lower s.task_reference ctx.dialog w.link) free assigned
        waiting caught

  resumed-IsClear :
      (client : Client) (s : DecoupledSessionSnapshot) (w : World Link)
      (o : Option FinTsSessionState)
      → IsClear c base client w
      → str_eq s.dialog_snapshot.system_id unassigned ≡ false
      → let reopened =
          resume_for_polling creds reference c formats.blobs s.dialog_snapshot o s.server_url w in
        IsCaught (poll_of c formats creds reference operations s reopened)
        → let out = resumed c formats creds reference operations client s reopened in
          IsClear c base out.1 out.2
  unfolding resume_for_polling
  resumed-IsClear client s w none clear known caught = clear
  resumed-IsClear client s w (some state) clear known caught =
      let ctx : ConnectionContext = record {
        dialog =
            resume s.dialog_snapshot (build_parameters_from_state formats.blobs (some state)) true (
              (record {
                security_function = s.dialog_snapshot.security_function;
                pin = creds.pin;
                security_reference = reference;
              })
              ∷ []);
        system_id = s.dialog_snapshot.system_id;
        server_url = s.server_url;
        connection = w.next;
      } in
      in_context-IsClear client s ctx (open_connection w).1 clear.none_pending clear.assigned
        (record {
          live = ap (λ js. w.next ∷ js) clear.live;
          newest = clear.numbered;
          used = omega arith;
          assigned = known;
        })
        caught

  resume_valid-IsClear :
      (client : Client) (w : World Link) (b : Bool) (s : DecoupledSessionSnapshot)
      → IsClear c base client w
      → str_eq s.dialog_snapshot.system_id unassigned ≡ false
      → IsCaught (valid_poll c formats creds reference operations b s w)
      → let out = resume_valid c formats creds reference operations b client w s in
        IsClear c base out.1 out.2
  resume_valid-IsClear client w false s clear known caught = clear
  resume_valid-IsClear client w true s clear known caught =
      resumed-IsClear client s w _ clear known caught

  resume_read-IsClear :
      (client : Client) (w : World Link) (o : Option DecoupledSessionSnapshot)
      → IsClear c base client w
      → HasSystemId o
      → IsCaught (read_poll c formats creds reference operations o w)
      → let out = resume_read c formats creds reference operations client w o in
        IsClear c base out.1 out.2
  resume_read-IsClear client w none clear known caught = clear
  resume_read-IsClear client w (some s) clear known caught =
      resume_valid-IsClear client w (formats.is_dialog s.dialog_snapshot) s clear known caught

  -- A client without a challenge stays so over a poll from a snapshot whose system id is assigned, where
  -- the poll raises at most what it catches.
  pub resume_and_poll-IsClear :
      (bytes : String) (client : Client) (w : World Link)
      → IsClear c base client w
      → HasSystemId (formats.deserialize_snapshot bytes)
      → IsCaught
          (read_poll c formats creds reference operations (formats.deserialize_snapshot bytes) w)
      → let out = resume_and_poll c formats creds reference operations bytes client w in
        IsClear c base out.1 out.2
  unfolding resume_and_poll
  resume_and_poll-IsClear bytes client w clear known caught =
      resume_read-IsClear client w (formats.deserialize_snapshot bytes) clear known caught
