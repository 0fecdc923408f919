-- ===== src/Gateway/Poll/Lifecycle.antt =====
-- How polls change a session: its states as a relation, over any sequence of polls.
use mathlib.Core.Path.{subst}
use geldstrom.Prelude.{
  ℕ, ◌+◌, ◌≤◌, ◌≡◌, ◌≢◌, refl, ap, ◌∙◌, true, [], ◌∷◌, Option, none, some, String, str_eq, Outcome,
  ok, raised, arith, Bool-cases, inl, inr, eq_iff,
}
use geldstrom.Gateway.{
  PendingOperationSession, OperationStatus, ResumeResult, expired, is_pending,
  cap_session_expires_at, pending_confirmation, completed, failed,
}
use geldstrom.Gateway.Dict.{find, str_eq-false, str_eq-ne, find-put_self, find-put_other}
use geldstrom.Gateway.Sessions.{Store, get, update}
use geldstrom.Gateway.Sessions.Invariant.{Sessions, Keyed, WellFormed, Fresh, operations-WellFormed}
use geldstrom.Gateway.Poll.Advances.{Advances, AdvancesAt, AdvancesAt-refl, AdvancesAt-trans}
use geldstrom.Gateway.Poll.{
  Services, PollRaise, PollOperationInput, authenticate, poll_operation, poll_session, poll_bank,
  after_result, settle, resume_at, authenticated_poll,
}

cap-bound : (o : Option ℕ) (now ttl : ℕ) → cap_session_expires_at o now ttl ≤ now + ttl
unfolding cap_session_expires_at
cap-bound none now ttl = omega arith
cap-bound (some t) now ttl = ground arith

Fresh-find :
    (k : String) (d : Sessions) (s : PendingOperationSession) → Fresh k d → find k d ≢ some s
unfolding find
Fresh-find k [] s f h = cc
Fresh-find k ((j, t) ∷ d) s (ne, f) h =
    let below : find k d ≡ some s = simp (str_eq-false j k ne) at h in Fresh-find k d s f below

find-Keyed :
    (k : String) (d : Sessions) (s : PendingOperationSession)
    → Keyed d
    → find k d ≡ some s
    → s.operation_id ≡ k
unfolding find
find-Keyed k [] s h e = cc
find-Keyed k ((j, t) ∷ d) s (own, f, h) e = elim (Bool-cases (str_eq j k)) [
  | inl q ↦ let here : some t ≡ some s = simp q at e in let same : j ≡ k = (eq_iff j k).0 q in cc
  | inr q ↦ let below : find k d ≡ some s = simp q at e in find-Keyed k d s h below
]

not_expired : (status : OperationStatus) → is_pending status ≡ true → status ≢ expired
not_expired pending_confirmation h = λ e. cc e
not_expired completed h = cc
not_expired failed h = cc
not_expired expired h = cc

module _ (services : Services) where
  open services use {Institute, ttl, get_by_blz, resume_operation}

  after_result-Advances :
      (operation_id : String) (status : OperationStatus) (result : ResumeResult)
      (s : PendingOperationSession)
      → is_pending s.status ≡ true
      → Advances ttl s (after_result services operation_id status result s).0
  unfolding Advances
  after_result-Advances operation_id pending_confirmation result s p = (
    refl,
    refl,
    refl,
    refl,
    inr (p, not_expired s.status p),
    inr (cap-bound result.expires_at s.created_at ttl),
  )
  after_result-Advances operation_id completed result s p =
      (refl, refl, refl, refl, inr (p, λ e. cc e), inl refl)
  after_result-Advances operation_id status result s p =
      (refl, refl, refl, refl, inr (p, λ e. cc e), inl refl)

  -- What a poll leaves under an id is what was there, or what it becomes.
  Moves : Store → Store → Type 0
  Moves store store' =
      WellFormed store' × ((k : String) → AdvancesAt ttl (get k store) (get k store'))

  Moves-refl : (store : Store) → WellFormed store → Moves store store
  unfolding Moves
  Moves-refl store w = (w, λ k. AdvancesAt-refl ttl (get k store))

  update-Moves :
      (store : Store) (s s' : PendingOperationSession)
      → WellFormed store
      → get s.operation_id store ≡ some s
      → Advances ttl s s'
      → Moves store (update s' store)
  unfolding Moves Advances get update
  update-Moves store s s' w held advance =
      let held' : get s'.operation_id store ≡ some s = rw advance.0 held in
      (
        (operations-WellFormed store s' "" 0 w).3 s held',
        λ k. elim (Bool-cases (str_eq s'.operation_id k)) [
          | inl e ↦
              let same : s'.operation_id ≡ k = (eq_iff _ _).0 e in
              subst (λ k. AdvancesAt ttl (get k store) (get k (update s' store))) same
                (rw held' (rw (find-put_self s'.operation_id s' store.sessions) advance))
          | inr e ↦
              rw (find-put_other s'.operation_id k s' store.sessions (str_eq-ne _ _ e))
                (AdvancesAt-refl ttl (get k store))
        ],
      )

  settle-Moves :
      (operation_id : String) (s : PendingOperationSession) (store : Store)
      (r : Outcome PollRaise ResumeResult)
      → WellFormed store
      → get s.operation_id store ≡ some s
      → is_pending s.status ≡ true
      → Moves store (settle services operation_id s store r).1
  settle-Moves operation_id s store (raised e) w held p = Moves-refl store w
  settle-Moves operation_id s store (ok result) w held p =
      update-Moves store s _ w held (after_result-Advances operation_id result.status result s p)

  resume_at-Moves :
      (operation_id : String) (request : PollOperationInput) (s : PendingOperationSession)
      (store : Store) (o : Option Institute)
      → WellFormed store
      → get s.operation_id store ≡ some s
      → is_pending s.status ≡ true
      → Moves store (resume_at services operation_id request s store o).1
  resume_at-Moves operation_id request s store none w held p = Moves-refl store w
  resume_at-Moves operation_id request s store (some institute) w held p =
      settle-Moves operation_id s store _ w held p

  poll_session-Moves :
      (operation_id : String) (request : PollOperationInput) (consumer_id : String) (store : Store)
      (o : Option PendingOperationSession)
      → get operation_id store ≡ o
      → WellFormed store
      → Moves store (poll_session services operation_id request consumer_id o store).1
  unfolding poll_bank WellFormed get
  poll_session-Moves operation_id request consumer_id store none held w = Moves-refl store w
  poll_session-Moves operation_id request consumer_id store (some s) held w =
      let own = find-Keyed operation_id store.sessions s w.0 held in
      elim (Bool-cases (str_eq s.consumer_id consumer_id)) [
        | inr e ↦ rw e (Moves-refl store w)
        | inl e ↦ rw e (elim (Bool-cases (is_pending s.status)) [
          | inr f ↦ rw f (Moves-refl store w)
          | inl f ↦ rw f (
              resume_at-Moves operation_id request s store _ w
                (ap (λ k. find k store.sessions) own ∙ held) f)
        ])
      ]

  authenticated-Moves :
      (operation_id : String) (request : PollOperationInput) (store : Store)
      (r : Outcome PollRaise String)
      → WellFormed store
      → Moves store (authenticated_poll services operation_id request store r).1
  authenticated-Moves operation_id request store (raised e) w = Moves-refl store w
  authenticated-Moves operation_id request store (ok consumer_id) w =
      poll_session-Moves operation_id request consumer_id store _ refl w

-- What any polls, of any callers, at any times and with any answers of the bank, make of a store.
pub data Polls (ttl : ℕ) : Store → Store → Type 1 where
  start : {store : Store} → Polls ttl store store
  poll :
      {store store' : Store} (services : Services) (operation_id : String)
      (request : PollOperationInput) (key : String)
      → services.ttl ≡ ttl
      → Polls ttl store store'
      → Polls ttl store (poll_operation services operation_id request key store').1

-- Over any sequence of polls, a well-formed store stays well-formed, and what it holds under each id is
-- as it was or what it may become: no session appears or disappears, none changes its owner, kind or
-- time of creation, one that is not pending does not change at all, none becomes EXPIRED, and none
-- gets a time that ends later than its creation and the gateway's limit.
pub Polls-Advances :
    {ttl : ℕ} {store store' : Store}
    → WellFormed store
    → Polls ttl store store'
    → WellFormed store' × ((k : String) → AdvancesAt ttl (get k store) (get k store'))
unfolding Moves poll_operation
Polls-Advances {ttl = ttl} {store = store} w start = (w, λ k. AdvancesAt-refl ttl (get k store))
Polls-Advances {ttl = ttl} {store = store} w
      (poll {store' = store'} services operation_id request key e before) =
    let (w', held) = Polls-Advances w before in
    let (w'', moved) =
      authenticated-Moves services operation_id request store' (authenticate services key).0 w' in
    (
      w'',
      λ k. AdvancesAt-trans ttl _ _ _ (held k) (
          subst
            (λ t.
              AdvancesAt t (get k store')
                (get k (poll_operation services operation_id request key store').1))
            e (moved k)),
    )
