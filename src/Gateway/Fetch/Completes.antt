-- ===== src/Gateway/Fetch/Completes.antt =====
-- A fetch that waits for an approval, and the polls behind it.
use geldstrom.Prelude.{ℕ, ◌≡◌, Option, none, some, String, ok, refl, ◌∙◌, ap}
use text.Mathlib.TextPositions.{eq_refl}
use geldstrom.Gateway.{PendingOperationSession, ResumeResult, pending_confirmation, completed}
use geldstrom.Gateway.Dict.{find-put_self}
use geldstrom.Gateway.Sessions.{Store, get, update}
use geldstrom.Gateway.Poll.{
  Services, PollOperationInput, PollOperationResult, authenticate, poll_operation,
  authenticated_poll, poll_session, poll_bank, after_result, bare,
}
use geldstrom.Gateway.Sessions.Invariant.{WellFormed}
use geldstrom.Gateway.Poll.Lifecycle.{Polls, start, poll, Polls-Advances}
use geldstrom.Gateway.Poll.Advances.{AdvancesAt-final}

-- The reply of a poll that finds or makes the session complete.
abbrev pub completed_reply : PendingOperationSession → Option String → PollOperationResult
completed_reply s payload = record (bare completed s.operation_id) {
  operation_type = some s.operation_type;
  result_payload = payload;
}

module _ (services : Services) (request : PollOperationInput) (key : String) where
  poll-own :
      (s : PendingOperationSession) (store : Store)
      → (authenticate services key).0 ≡ ok s.consumer_id
      → get s.operation_id store ≡ some s
      → poll_operation services s.operation_id request key store
        ≡ (poll_session services s.operation_id request s.consumer_id (some s) store)
  unfolding poll_operation
  poll-own s store a held =
      ap (authenticated_poll services s.operation_id request store) a
      ∙ ap (λ o. poll_session services s.operation_id request s.consumer_id o store) held

  -- A completed session is returned as it is, without a word to the bank.
  poll-completed :
      (s : PendingOperationSession) (store : Store)
      → (authenticate services key).0 ≡ ok s.consumer_id
      → get s.operation_id store ≡ some s
      → s.status ≡ completed
      → s.failure_reason ≡ none
      → poll_operation services s.operation_id request key store
        ≡ (ok (completed_reply s s.result_payload), store)
  poll-completed s store a held c f = poll-own s store a held ∙ simp (eq_refl s.consumer_id, c, f)

  abbrev after : PendingOperationSession → ResumeResult → PendingOperationSession
  after s result = (after_result services s.operation_id completed result s).0

  poll-pending :
      (s : PendingOperationSession) (store : Store) (institute : services.Institute)
      (result : ResumeResult)
      → (authenticate services key).0 ≡ ok s.consumer_id
      → get s.operation_id store ≡ some s
      → s.status ≡ pending_confirmation
      → services.get_by_blz request.blz ≡ some institute
      → services.resume_operation s.session_state request institute ≡ ok result
      → result.status ≡ completed
      → poll_operation services s.operation_id request key store
        ≡ (ok (completed_reply s result.result_payload), update (after s result) store)
  unfolding poll_bank
  poll-pending s store institute result a held p i r c =
      poll-own s store a held ∙ simp (eq_refl s.consumer_id, p, i, r, c)

-- In a well-formed store that holds a pending session of the caller, with no reason of a failure, a poll
-- to which the bank answers that the operation is complete returns the bank's payload; and after any
-- polls of any callers, whatever the bank then answers, a poll of the same consumer returns the same
-- reply and leaves the store.
pub poll_operation-settles :
    (services : Services) (request : PollOperationInput) (key : String)
    (s : PendingOperationSession) (store : Store) (institute : services.Institute)
    (result : ResumeResult)
    → WellFormed store
    → get s.operation_id store ≡ some s
    → s.status ≡ pending_confirmation
    → s.failure_reason ≡ none
    → (authenticate services key).0 ≡ ok s.consumer_id
    → services.get_by_blz request.blz ≡ some institute
    → services.resume_operation s.session_state request institute ≡ ok result
    → result.status ≡ completed
    → ((poll_operation services s.operation_id request key store).0
        ≡ ok (completed_reply s result.result_payload))
      × ((later : Services) (request' : PollOperationInput) (key' : String) (ttl : ℕ)
            (store' : Store)
          → Polls ttl (poll_operation services s.operation_id request key store).1 store'
          → (authenticate later key').0 ≡ ok s.consumer_id
          → poll_operation later s.operation_id request' key' store'
            ≡ (ok (completed_reply s result.result_payload), store'))
unfolding get update
poll_operation-settles services request key s store institute result w held p f a i r c =
    let settled = poll-pending services request key s store institute result a held p i r c in
    let s' = after services request key s result in
    let w' = (Polls-Advances w (poll services s.operation_id request key refl start)).0 in
    (
      ap (λ x. x.0) settled,
      λ later request' key' ttl store' polls a'.
          let kept = (Polls-Advances w' polls).1 s.operation_id in
          let there : get s.operation_id
                (poll_operation services s.operation_id request key store).1
              ≡ some s' =
            ap (λ x. get s.operation_id x.1) settled
            ∙ find-put_self s.operation_id s' store.sessions in
          let still = AdvancesAt-final ttl s' _ refl (rw there at kept) in
          poll-completed later request' key' s' store' a' still refl f,
    )
