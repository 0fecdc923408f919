-- ===== src/Gateway/Fetch/Opens.antt =====
-- What a fetch command does to the store of sessions.
use geldstrom.Prelude.{
  ℕ, ◌+◌, ◌≡◌, ◌≢◌, ◌≤◌, ◌<◌, ◌⊎◌, Bool, true, false, List, Option, none, some, String, str_eq, leb,
  ltb, Outcome, ok, raised, arith, refl, ap, Bool-cases, inl, inr,
}
use geldstrom.Gateway.{
  OperationType, PendingOperationSession, DomainError, is_pending, validate_session,
  validate_connector_result, cap_session_expires_at, pending_confirmation, completed, failed,
  expired, accounts, balances, transactions, tan_methods, OperationStatus,
}
use geldstrom.Gateway.Iban.{Texts}
use geldstrom.Gateway.Sessions.{Store, create, get, is_full, stored}
use geldstrom.Gateway.Sessions.Invariant.{create-cases}
use geldstrom.Gateway.Poll.{Services, PollRaise, PollOperationInput, authenticate}
use geldstrom.Gateway.Fetch.{
  FetchResult, FetchEnvelope, FetchRaise, invalid_session, new_session, store_valid, delivered,
  at_institute, of_consumer, fetch_operation, start_of, ordered, resolve_date_range, lifted,
  ask_transactions, list_accounts, get_balances, get_tan_methods, fetch_transactions,
  BankingConnector, FetchTransactionsInput,
}

-- The time of a result lies ahead.
abbrev pub IsAhead : ℕ → Option ℕ → Type 0
IsAhead now none = Unit
IsAhead now (some t) = now < t

-- A result that passes the validator of its model, and whose time lies ahead.
unfoldable pub IsSound : {A : Type 0} → ℕ → FetchResult A → Type 0
IsSound now r =
    (validate_connector_result r.status r.session_state r.expires_at r.failure_reason ≡ ok tt)
    × IsAhead now r.expires_at

cap-ahead :
    (now ttl : ℕ) (o : Option ℕ)
    → 0 < ttl
    → IsAhead now o
    → leb (cap_session_expires_at o now ttl) now ≡ false
unfolding cap_session_expires_at
cap-ahead now ttl none h a = ground arith
cap-ahead now ttl (some t) h a = ground arith

cap-within : (now ttl : ℕ) (o : Option ℕ) → cap_session_expires_at o now ttl ≤ now + ttl
unfolding cap_session_expires_at
cap-within now ttl none = omega arith
cap-within now ttl (some t) = ground arith

state-given :
    (status : OperationStatus) (state : String) (e : Option ℕ) (f : Option String)
    → is_pending status ≡ true
    → validate_connector_result status state e f ≡ ok tt
    → str_eq state "" ≡ false
unfolding validate_connector_result
state-given pending_confirmation state e f p v = elim (Bool-cases (str_eq state "")) [
  | inl blank ↦ let w = simp blank at v in cc
  | inr given ↦ given
]
state-given completed state e f p v = cc
state-given failed state e f p v = cc
state-given expired state e f p v = cc

create-room :
    (s : PendingOperationSession) (store : Store)
    → is_full store s ≡ false
    → create s store ≡ (ok tt, stored store s)
unfolding create
create-room s store room = rw room refl

start-valid :
    (start_date : Option ℕ) (end_date : ℕ) (d : DomainError)
    → start_of start_date end_date ≢ raised (invalid_session d)
start-valid (some start) end_date d = λ q. cc q
start-valid none end_date d = elim (Bool-cases (leb end_date 90)) [
  | inl e ↦ rw e (λ q. cc q)
  | inr e ↦ rw e (λ q. cc q)
]

ordered-valid :
    (end_date : ℕ) (start : Outcome FetchRaise ℕ) (d : DomainError)
    → start ≢ raised (invalid_session d)
    → ordered end_date start ≢ raised (invalid_session d)
ordered-valid end_date (raised e) d ne =
    λ q. let same : e ≡ invalid_session d = cc in ne (ap raised same)
ordered-valid end_date (ok start) d ne = elim (Bool-cases (ltb end_date start)) [
  | inl e ↦ rw e (λ q. cc q)
  | inr e ↦ rw e (λ q. cc q)
]

range-valid :
    (now : ℕ) (start_date end_date : Option ℕ) (d : DomainError)
    → resolve_date_range now start_date end_date ≢ raised (invalid_session d)
unfolding resolve_date_range
range-valid now start_date end_date d = ordered-valid _ _ d (start-valid start_date _ d)

module _ (services : Services) (is_blank : String → Bool) (new_operation_id : String) where
  open services use {Institute, get_by_blz, now, ttl}

  new_session-valid :
      {A : Type 0} (operation_type : OperationType) (consumer_id : String) (r : FetchResult A)
      → is_blank new_operation_id ≡ false
      → 0 < ttl
      → is_pending r.status ≡ true
      → IsSound now r
      → validate_session is_blank
          (new_session services is_blank new_operation_id operation_type consumer_id r)
        ≡ ok tt
  unfolding validate_session IsSound
  new_session-valid operation_type consumer_id r b h p (v, a) =
      let given = state-given r.status r.session_state r.expires_at r.failure_reason p v in
      simp (b, given, cap-ahead now ttl r.expires_at h a)

  -- The session that is stored for an envelope: it is the consumer's, of this kind, passes the
  -- validator, ends at most a life from now, and stands under the envelope's id, where the store is else
  -- as it was.
  pub Opened :
      {A : Type 0}
      → OperationType
      → String
      → Store
      → FetchEnvelope A
      → Store
      → PendingOperationSession
      → Type 0
  Opened operation_type consumer_id store envelope store' s =
      (s.consumer_id ≡ consumer_id)
      × (s.operation_type ≡ operation_type)
      × (validate_session is_blank s ≡ ok tt)
      × (s.expires_at ≤ now + ttl)
      × (envelope.operation_id ≡ some s.operation_id)
      × (envelope.expires_at ≡ some s.expires_at)
      × (get s.operation_id store' ≡ some s)
      × ((k : String) → s.operation_id ≢ k → get k store' ≡ get k store)

  -- What a command leaves: after a raise, which is not of the session's validator, and after a reply
  -- that is not pending the store is as it was; after a pending reply it has opened a session.
  abbrev pub Opens :
      {A : Type 0}
      → OperationType
      → Outcome PollRaise String
      → Store
      → Outcome FetchRaise (FetchEnvelope A) × Store
      → Type 0
  Opens operation_type consumer store (raised e, store') =
      (store' ≡ store) × ((d : DomainError) → e ≢ invalid_session d)
  Opens operation_type consumer store (ok envelope, store') =
      ((is_pending envelope.status ≡ false) × (store' ≡ store))
      ⊎ ((is_pending envelope.status ≡ true)
          × (consumer_id : String) × (s : PendingOperationSession) × (consumer ≡ ok consumer_id)
          × Opened operation_type consumer_id store envelope store' s)

  -- The outcome of the connector, in a command.
  abbrev SoundCall : {A : Type 0} → Outcome FetchRaise (FetchResult A) → Type 0
  SoundCall (ok r) = IsSound now r
  SoundCall (raised e) = (d : DomainError) → e ≢ invalid_session d

  store_valid-Opens :
      {A : Type 0} (operation_type : OperationType) (consumer_id : String) (r : FetchResult A)
      (store : Store)
      → is_blank new_operation_id ≡ false
      → 0 < ttl
      → is_pending r.status ≡ true
      → IsSound now r
      → let s = new_session services is_blank new_operation_id operation_type consumer_id r in
        Opens {A = A} operation_type
          (ok consumer_id)
          store
          (store_valid services is_blank new_operation_id s store (validate_session is_blank s))
  unfolding Opened
  store_valid-Opens operation_type consumer_id r store b h p sound =
      let s = new_session services is_blank new_operation_id operation_type consumer_id r in
      let valid = new_session-valid operation_type consumer_id r b h p sound in
      elim (create-cases s store) [
        | inl (full, e) ↦ rw valid (rw e (refl, λ d. λ q. cc q))
        | inr (room, own, others) ↦
            let made = create-room s store room in
            let within = cap-within now ttl r.expires_at in
            rw valid (
              rw made (
                inr (
                  refl,
                  consumer_id,
                  s,
                  refl,
                  (
                    refl,
                    refl,
                    valid,
                    within,
                    refl,
                    refl,
                    rw made at own,
                    λ k ne. rw made at others k ne,
                  ),
                )))
      ]

  delivered-Opens :
      {A : Type 0} (keep : List A → List A) (operation_type : OperationType) (consumer_id : String)
      (store : Store) (call : Outcome FetchRaise (FetchResult A))
      → is_blank new_operation_id ≡ false
      → 0 < ttl
      → SoundCall call
      → Opens operation_type
          (ok consumer_id)
          store
          (delivered services is_blank new_operation_id keep operation_type consumer_id store call)
  delivered-Opens keep operation_type consumer_id store (raised e) b h sound = (refl, sound)
  delivered-Opens keep operation_type consumer_id store (ok r) b h sound =
      elim (Bool-cases (is_pending r.status)) [
        | inl p ↦ rw p (store_valid-Opens operation_type consumer_id r store b h p sound)
        | inr p ↦ rw p (inl (p, refl))
      ]

  at_institute-SoundCall :
      {A : Type 0} (call : Institute → Outcome FetchRaise (FetchResult A)) (o : Option Institute)
      → ((i : Institute) → SoundCall (call i))
      → SoundCall (at_institute services is_blank new_operation_id call o)
  at_institute-SoundCall call none sound = λ d. λ q. cc q
  at_institute-SoundCall call (some i) sound = sound i

  of_consumer-Opens :
      {A : Type 0} (keep : List A → List A) (operation_type : OperationType) (store : Store)
      (call : Outcome FetchRaise (FetchResult A)) (consumer : Outcome PollRaise String)
      → is_blank new_operation_id ≡ false
      → 0 < ttl
      → SoundCall call
      → Opens operation_type consumer store
          (of_consumer services is_blank new_operation_id keep operation_type call store consumer)
  of_consumer-Opens keep operation_type store call (raised e) b h sound = (refl, λ d. λ q. cc q)
  of_consumer-Opens keep operation_type store call (ok consumer_id) b h sound =
      delivered-Opens keep operation_type consumer_id store call b h sound

  pub fetch_operation-Opens :
      {A : Type 0} (keep : List A → List A) (operation_type : OperationType)
      (call : Institute → Outcome FetchRaise (FetchResult A)) (blz key : String) (store : Store)
      → is_blank new_operation_id ≡ false
      → 0 < ttl
      → ((i : Institute) → SoundCall (call i))
      → Opens operation_type (authenticate services key).0 store (
          fetch_operation services is_blank new_operation_id keep operation_type call blz key store)
  unfolding fetch_operation
  fetch_operation-Opens keep operation_type call blz key store b h sound =
      of_consumer-Opens keep operation_type store _ (authenticate services key).0 b h
        (at_institute-SoundCall call (get_by_blz blz) sound)

  -- What comes from the connector is sound.
  abbrev pub SoundReply : {A : Type 0} → Outcome PollRaise (FetchResult A) → Type 0
  SoundReply (ok r) = IsSound now r
  SoundReply (raised e) = Unit

  -- Whatever is asked of the connector, its replies are sound.
  pub record IsSoundConnector (connector : BankingConnector Institute) : Type 0 where
    pub sound_accounts :
        (a : PollOperationInput) (i : Institute) → SoundReply (connector.list_accounts_at a i)
    pub sound_balances :
        (a : PollOperationInput) (i : Institute) → SoundReply (connector.get_balances_at a i)
    pub sound_tan_methods :
        (a : PollOperationInput) (i : Institute) → SoundReply (connector.get_tan_methods_at a i)
    pub sound_transactions :
        (a : PollOperationInput) (i : Institute) (iban : List ℕ) (start end_date : ℕ)
        → SoundReply (connector.fetch_transactions_at a i iban start end_date)

  lifted-SoundCall :
      {A : Type 0} (reply : Outcome PollRaise (FetchResult A))
      → SoundReply reply
      → SoundCall (lifted reply)
  lifted-SoundCall (ok r) sound = sound
  lifted-SoundCall (raised e) sound = λ d. λ q. cc q

  module _ (connector : BankingConnector Institute) (laws : IsSoundConnector connector) where
    ask-SoundCall :
        (access : PollOperationInput) (i : Institute) (iban : Option (List ℕ))
        (range : Outcome FetchRaise (ℕ × ℕ))
        → ((d : DomainError) → range ≢ raised (invalid_session d))
        → SoundCall
            (ask_transactions services is_blank new_operation_id connector access i iban range)
    ask-SoundCall access i iban (raised e) ne = λ d. λ q. ne d (ap raised q)
    ask-SoundCall access i none (ok range) ne = λ d. λ q. cc q
    ask-SoundCall access i (some iban) (ok (start, end_date)) ne =
        lifted-SoundCall _ (laws.sound_transactions access i iban start end_date)

    -- With an id that is not blank, a life that is not empty and a connector whose replies are sound,
    -- each of the four commands either raises and leaves the store, never for the validator of the
    -- session; or returns a reply that is not pending and leaves the store; or returns a pending reply
    -- and has stored, under the reply's id and nowhere else, a session of the authenticated consumer
    -- and the command's kind that passes the validator and ends at most a life from now.
    pub commands-Opens :
        (texts : Texts) (request : PollOperationInput)
        (transactions_request : FetchTransactionsInput texts.Raw) (key : String) (store : Store)
        → is_blank new_operation_id ≡ false
        → 0 < ttl
        → let consumer = (authenticate services key).0 in
          Opens accounts consumer store
            (list_accounts services is_blank new_operation_id connector request key store)
          × Opens balances consumer store
              (get_balances services is_blank new_operation_id connector request key store)
          × Opens tan_methods consumer store
              (get_tan_methods services is_blank new_operation_id connector request key store)
          × Opens transactions consumer store (
              fetch_transactions services is_blank new_operation_id connector texts
                transactions_request key store)
    unfolding list_accounts get_balances get_tan_methods fetch_transactions
    commands-Opens texts request transactions_request key store b h = (
      fetch_operation-Opens _ accounts _ request.blz key store b h
          (λ i. lifted-SoundCall _ (laws.sound_accounts request i)),
      fetch_operation-Opens _ balances _ request.blz key store b h
          (λ i. lifted-SoundCall _ (laws.sound_balances request i)),
      fetch_operation-Opens _ tan_methods _ request.blz key store b h
          (λ i. lifted-SoundCall _ (laws.sound_tan_methods request i)),
      fetch_operation-Opens _ transactions _ transactions_request.access.blz key store b h (λ i.
          ask-SoundCall transactions_request.access i _ _
            (range-valid now transactions_request.start_date transactions_request.end_date)),
    )
