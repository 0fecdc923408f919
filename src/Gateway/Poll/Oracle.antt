-- ===== src/Gateway/Poll/Oracle.antt =====
-- What a caller learns of sessions that are not its own.
use geldstrom.Prelude.{
  ◌≡◌, ◌≢◌, ◌↔◌, refl, ap, sym, ◌∙◌, Option, none, some, String, str_eq, ok, raised, Bool-cases,
  inl, inr,
}
use geldstrom.Gateway.{PendingOperationSession, expired}
use geldstrom.Gateway.Dict.{str_eq-false}
use geldstrom.Gateway.Sessions.{Store, get}
use geldstrom.Gateway.Poll.{
  Services, PollOperationInput, authenticate, poll_operation, poll_session, authenticated_poll,
  bare, operation_not_found,
}
use geldstrom.Gateway.Poll.Status.{authenticated_status, get_operation_status, status_of}

-- There is no session under the id, or it is another consumer's.
abbrev pub NotOwned : String → Option PendingOperationSession → Type 0
NotOwned consumer_id none = Unit
NotOwned consumer_id (some session) = session.consumer_id ≢ consumer_id

module _ (services : Services) where
  poll_session-NotOwned :
      (operation_id : String) (request : PollOperationInput) (consumer_id : String)
      (o : Option PendingOperationSession) (store : Store)
      → NotOwned consumer_id o
      → poll_session services operation_id request consumer_id o store
        ≡ (ok (bare expired operation_id), store)
  poll_session-NotOwned operation_id request consumer_id none store h = refl
  poll_session-NotOwned operation_id request consumer_id (some session) store h =
      rw (str_eq-false session.consumer_id consumer_id h) refl

  -- A poll of an id under which the caller has no session changes nothing, and its reply is the same
  -- for any two stores: it does not tell whether the id is another consumer's or no one's.
  pub poll_operation-NotOwned :
      (operation_id : String) (request : PollOperationInput) (key consumer_id : String)
      (store store' : Store)
      → (authenticate services key).0 ≡ ok consumer_id
      → NotOwned consumer_id (get operation_id store)
      → NotOwned consumer_id (get operation_id store')
      → ((poll_operation services operation_id request key store).0
          ≡ (poll_operation services operation_id request key store').0)
        × ((poll_operation services operation_id request key store).1 ≡ store)
  unfolding poll_operation
  poll_operation-NotOwned operation_id request key consumer_id store store' a h h' =
      let e =
        ap (authenticated_poll services operation_id request store) a
        ∙ poll_session-NotOwned operation_id request consumer_id (get operation_id store) store h in
      let e' =
        ap (authenticated_poll services operation_id request store') a
        ∙ poll_session-NotOwned operation_id request consumer_id (get operation_id store') store'
            h' in
      (ap (λ r. r.0) e ∙ sym (ap (λ r. r.0) e'), ap (λ r. r.1) e)

  status_of-not_found :
      (operation_id consumer_id : String) (o : Option PendingOperationSession)
      → (status_of services operation_id consumer_id o ≡ raised operation_not_found) ↔ (o ≡ none)
  status_of-not_found operation_id consumer_id none = (λ h. refl, λ h. refl)
  status_of-not_found operation_id consumer_id (some session) =
      elim (Bool-cases (str_eq session.consumer_id consumer_id)) [
        | inl e ↦ rw e ((λ h. cc), λ h. cc)
        | inr e ↦ rw e ((λ h. cc), λ h. cc)
      ]

  -- The query of an operation's status, unlike a poll, tells any authenticated caller whether the store
  -- holds a session under an id: it raises that there is none exactly when there is none.
  pub get_operation_status-not_found :
      (operation_id key consumer_id : String) (store : Store)
      → (authenticate services key).0 ≡ ok consumer_id
      → (get_operation_status services operation_id key store ≡ raised operation_not_found)
        ↔ (get operation_id store ≡ none)
  unfolding get_operation_status
  get_operation_status-not_found operation_id key consumer_id store a =
      let e = ap (authenticated_status services operation_id store) a in
      let (to, from) = status_of-not_found operation_id consumer_id (get operation_id store) in
      ((λ h. to (sym e ∙ h)), λ h. e ∙ from h)
