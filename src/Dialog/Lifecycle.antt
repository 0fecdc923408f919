-- ===== src/Dialog/Lifecycle.antt =====
-- When a dialog is open: what each method needs of it and leaves behind, on every way out.
use geldstrom.Prelude.{
  ◌≡◌, ◌≢◌, refl, true, false, List, Option, Outcome, ok, raised, Bool-cases, inl, inr,
}
use geldstrom.Segments.{Segment, Segments}
use geldstrom.Responses.{Processed, process}
use geldstrom.Tan.{
  ChallengeHandler, TanRaise, pending, cancelled_by_user, handler_error, TanStrategy,
  handle_response,
}
use geldstrom.Dialog.{
  Dialog, DialogRaise, already_open, not_open, link, tan_pending, Connection, received,
  send_segments, handled, settled, initialized, initialize, end_dialog, strategy, receive,
  tan_raise, LinkRaise, connection_failed, unreadable, ended, dispatched,
}

module _ (c : Connection) where
  open c use {Link, exchange}

  -- After `initialize` on a closed dialog.
  abbrev pub AfterInitialize : Outcome DialogRaise Processed × Dialog × Link → Type 0
  AfterInitialize (ok response, d, l) = (d.is_open ≡ true) × (d.is_initialized ≡ true)
  AfterInitialize (raised (tan_pending challenge reference), d, l) =
      (d.is_open ≡ true) × (d.is_initialized ≡ true)
  AfterInitialize (raised e, d, l) = (d.is_open ≡ false) × (e ≢ already_open) × (e ≢ not_open)

  abbrev Ready : Outcome DialogRaise Processed × Dialog × Link → Type 0
  Ready (ok response, d, l) = (d.is_open ≡ true) × (d.is_initialized ≡ true)
  Ready (raised (tan_pending challenge reference), d, l) =
      (d.is_open ≡ true) × (d.is_initialized ≡ true)
  Ready (raised e, d, l) = (e ≢ already_open) × (e ≢ not_open)

  settled-AfterInitialize :
      (r : Outcome DialogRaise Processed × Dialog × Link) → Ready r → AfterInitialize (settled c r)
  settled-AfterInitialize (ok response, d, l) h = h
  settled-AfterInitialize (raised (tan_pending challenge reference), d, l) h = h
  settled-AfterInitialize (raised (link connection_failed), d, l) h =
      (refl, (λ e. cc e), (λ e. cc e))
  settled-AfterInitialize (raised (link unreadable), d, l) h = (refl, h.0, h.1)
  settled-AfterInitialize (raised e, d, l) h = (refl, h.0, h.1)

  strategy-Ready :
      (s : TanStrategy) (handler : Option ChallengeHandler) (response : Processed) (d : Dialog)
      (l : Link)
      → d.is_open ≡ true
      → d.is_initialized ≡ true
      → Ready (strategy c s handler response, d, l)
  strategy-Ready s handler response d l o i = by_outcome (handle_response s response handler)
    where
      by_outcome :
          (r : Outcome TanRaise (Option Processed))
          → Ready (
            (elim r [
              | ok final ↦ ok (dispatched c final response)
              | raised e ↦ raised (tan_raise e)
            ]),
            d,
            l,
          )
      by_outcome (ok final) = (o, i)
      by_outcome (raised (pending challenge reference)) = (o, i)
      by_outcome (raised cancelled_by_user) = ((λ e. cc e), (λ e. cc e))
      by_outcome (raised handler_error) = ((λ e. cc e), (λ e. cc e))

  received-Ready :
      (handler : Option ChallengeHandler) (d : Dialog) (r : Outcome LinkRaise Segments × Link)
      → d.is_open ≡ true
      → Ready (handled c handler (initialized c (received c d r)))
  unfolding received receive
  received-Ready handler d (raised e, l) o = ((λ e. cc e), (λ e. cc e))
  received-Ready handler d (ok raw, l) o =
      strategy-Ready d.tan_strategy handler (process raw) _ l o refl

  -- `initialize` on a closed dialog: it returns with the dialog open and initialized, or raises
  -- `DecoupledTANPending` with the dialog open and initialized, or raises anything else with the
  -- dialog closed; and it does not raise that the dialog was open or not open.
  pub initialize-closed :
      (extra : List Segment) (handler : Option ChallengeHandler) (d : Dialog) (l : Link)
      → d.is_open ≡ false
      → AfterInitialize (initialize c extra handler d l)
  unfolding initialize send_segments
  initialize-closed extra handler d l h = rw h (
      settled-AfterInitialize _
        (received-Ready handler (record d { challenge_handler = handler; is_open = true }) _ refl))

  ended-closed :
      (r : Outcome DialogRaise Processed × Dialog × Link) → ((ended c r).1).is_open ≡ false
  ended-closed (ok response, d, l) = refl
  ended-closed (raised e, d, l) = refl

  -- Whatever the connection does, the dialog is closed after `end`.
  pub end_dialog-closes : (d : Dialog) (l : Link) → ((end_dialog c d l).1).is_open ≡ false
  unfolding end_dialog
  end_dialog-closes d l = elim (Bool-cases d.is_open) [
    | inl open' ↦ rw open' (ended-closed _)
    | inr closed ↦ rw closed
  ]
