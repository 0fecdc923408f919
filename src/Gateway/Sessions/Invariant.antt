-- ===== src/Gateway/Sessions/Invariant.antt =====
-- The store holds at most its capacity, one session under each id and each under its own id.
use geldstrom.Prelude.{
  ℕ, ◌≤◌, ◌<◌, ◌≡◌, ◌≢◌, refl, sym, true, false, List, [], ◌∷◌, Option, none, some, String, str_eq,
  length, arith, Bool-cases, ◌⊎◌, inl, inr, eq_iff, leb, ok, raised,
}
use geldstrom.Gateway.{PendingOperationSession}
use geldstrom.Gateway.Dict.{
  Dict, find, put, remove, str_eq-ne, length-put, length-put_known, length-remove, find-put_self,
  find-put_other,
}
use geldstrom.Gateway.Sessions.{
  Store, at_capacity, is_full, is_full_without, create, get, update, delete, stale_operation_ids,
  remove_all, expire_stale,
}

abbrev pub Sessions : Type 0
Sessions = Dict PendingOperationSession

-- No entry has this key.
abbrev pub Fresh : String → Sessions → Type 0
Fresh k [] = Unit
Fresh k ((j, s) ∷ d) = (j ≢ k) × Fresh k d

-- The keys are different, and each is its session's id.
abbrev pub Keyed : Sessions → Type 0
Keyed [] = Unit
Keyed ((k, s) ∷ d) = (s.operation_id ≡ k) × Fresh k d × Keyed d

-- A store within its capacity, whose sessions stand under their own ids.
unfoldable pub WellFormed : Store → Type 0
WellFormed store = Keyed store.sessions × (length store.sessions ≤ store.max_sessions)

Fresh-put :
    (k j : String) (s : PendingOperationSession) (d : Sessions)
    → j ≢ k
    → Fresh k d
    → Fresh k (put j s d)
unfolding put
Fresh-put k j s [] h f = (h, tt)
Fresh-put k j s ((i, t) ∷ d) h (ne, f) = elim (Bool-cases (str_eq i j)) [
  | inl e ↦ simp e (ne, f)
  | inr e ↦ simp e (ne, Fresh-put k j s d h f)
]

Fresh-remove : (k j : String) (d : Sessions) → Fresh k d → Fresh k (remove j d)
unfolding remove
Fresh-remove k j [] f = tt
Fresh-remove k j ((i, t) ∷ d) (ne, f) = elim (Bool-cases (str_eq i j)) [
  | inl e ↦ simp e f
  | inr e ↦ simp e (ne, Fresh-remove k j d f)
]

Keyed-put : (s : PendingOperationSession) (d : Sessions) → Keyed d → Keyed (put s.operation_id s d)
unfolding put
Keyed-put s [] h = (refl, tt, tt)
Keyed-put s ((i, t) ∷ d) (own, f, h) = elim (Bool-cases (str_eq i s.operation_id)) [
  | inl e ↦ let own' = sym ((eq_iff _ _).0 e) in simp e (own', f, h)
  | inr e ↦
      let ne = str_eq-ne i s.operation_id e in
      simp e (own, Fresh-put i s.operation_id s d (λ q. ne (sym q)) f, Keyed-put s d h)
]

Keyed-remove : (k : String) (d : Sessions) → Keyed d → Keyed (remove k d)
unfolding remove
Keyed-remove k [] h = tt
Keyed-remove k ((i, t) ∷ d) (own, f, h) = elim (Bool-cases (str_eq i k)) [
  | inl e ↦ simp e h
  | inr e ↦ simp e (own, Fresh-remove i k d f, Keyed-remove k d h)
]

Keyed-remove_all : (ids : List String) (d : Sessions) → Keyed d → Keyed (remove_all ids d)
unfolding remove_all
Keyed-remove_all [] d h = h
Keyed-remove_all (k ∷ ids) d h = Keyed-remove_all ids (remove k d) (Keyed-remove k d h)

length-remove_all : (ids : List String) (d : Sessions) → length (remove_all ids d) ≤ length d
unfolding remove_all
length-remove_all [] d = omega arith
length-remove_all (k ∷ ids) d =
    let a = length-remove_all ids (remove k d) in let b = length-remove k d in omega (arith, a, b)

length-stored :
    (limit : ℕ) (s : PendingOperationSession) (d : Sessions) (o : Option PendingOperationSession)
    → find s.operation_id d ≡ o
    → (elim o [ some held ↦ false | none ↦ leb limit (length d) ]) ≡ false
    → length d ≤ limit
    → length (put s.operation_id s d) ≤ limit
length-stored limit s d (some held) e room size =
    let same = length-put_known s.operation_id s held d e in omega (arith, same, size)
length-stored limit s d none e room size =
    let more = length-put s.operation_id s d in
    let below : length d < limit = ground arith in omega (arith, more, below)

create-WellFormed :
    (s : PendingOperationSession) (store : Store) → WellFormed store → WellFormed (create s store).1
unfolding create WellFormed
create-WellFormed s store (keyed, size) = elim (Bool-cases (is_full store s)) [
  | inl full ↦ simp full (keyed, size)
  | inr room ↦ simp room (
    Keyed-put s store.sessions keyed,
    length-stored store.max_sessions s store.sessions _ refl room size,
  )
]

-- From a well-formed store, the store is well-formed after a creation, a deletion and an expiry, and
-- after an update of a session that the store holds.
pub operations-WellFormed :
    (store : Store) (s : PendingOperationSession) (operation_id : String) (now : ℕ)
    → WellFormed store
    → WellFormed (create s store).1
      × WellFormed (delete operation_id store)
      × WellFormed (expire_stale now store).1
      × ((held : PendingOperationSession)
          → get s.operation_id store ≡ some held
          → WellFormed (update s store))
unfolding delete expire_stale get update WellFormed
operations-WellFormed store s operation_id now (keyed, size) =
    let ids = stale_operation_ids now store.sessions in
    let removed = length-remove operation_id store.sessions in
    let expired = length-remove_all ids store.sessions in
    (
      create-WellFormed s store (keyed, size),
      (Keyed-remove operation_id store.sessions keyed, omega (arith, removed, size)),
      (Keyed-remove_all ids store.sessions keyed, omega (arith, expired, size)),
      λ held e.
          let same = length-put_known s.operation_id s held store.sessions e in
          (Keyed-put s store.sessions keyed, omega (arith, same, size)),
    )

-- What a creation finds: no session under the id in a store at its capacity; or a session under it, or
-- room.
abbrev pub HasRoom : PendingOperationSession → Store → Type 0
HasRoom s store =
    ((held : PendingOperationSession) × (get s.operation_id store ≡ some held))
    ⊎ (length store.sessions < store.max_sessions)

is_full-cases :
    (store : Store) (o : Option PendingOperationSession)
    → ((is_full_without store o ≡ true) × (o ≡ none) × (store.max_sessions ≤ length store.sessions))
      ⊎ ((is_full_without store o ≡ false)
          × (((held : PendingOperationSession) × (o ≡ some held))
              ⊎ (length store.sessions < store.max_sessions)))
is_full-cases store (some held) = inr (refl, inl (held, refl))
is_full-cases store none = elim (Bool-cases (leb store.max_sessions (length store.sessions))) [
  | inl f ↦ inl (f, refl, ground arith)
  | inr f ↦ inr (f, inr (ground arith))
]

-- By the test that a creation makes.
pub create-cases :
    (s : PendingOperationSession) (store : Store)
    → ((is_full store s ≡ true) × (create s store ≡ (raised at_capacity, store)))
      ⊎ ((is_full store s ≡ false)
          × (get s.operation_id (create s store).1 ≡ some s)
          × ((k : String) → s.operation_id ≢ k → get k (create s store).1 ≡ get k store))
unfolding create get
create-cases s store = elim (Bool-cases (is_full store s)) [
  | inl full ↦ inl (full, simp full)
  | inr room ↦ inr (
    room,
    simp room (find-put_self s.operation_id s store.sessions),
    λ k h. simp room (find-put_other s.operation_id k s store.sessions h),
  )
]

-- A creation raises and leaves the store where the store holds no session under the id and is at its
-- capacity; and where it holds one or has room, it raises nothing, the store then returns the session for
-- its id and what it returned for every other id, and its capacity is the same.
pub create_lem :
    (s : PendingOperationSession) (store : Store)
    → ((get s.operation_id store ≡ none)
        × (store.max_sessions ≤ length store.sessions)
        × (create s store ≡ (raised at_capacity, store)))
      ⊎ (HasRoom s store
          × ((create s store).0 ≡ ok tt)
          × (get s.operation_id (create s store).1 ≡ some s)
          × ((k : String) → s.operation_id ≢ k → get k (create s store).1 ≡ get k store)
          × ((create s store).1.max_sessions ≡ store.max_sessions))
unfolding create get
create_lem s store = elim (is_full-cases store (find s.operation_id store.sessions)) [
  | inl (full, missing, size) ↦ inl (missing, size, simp full)
  | inr (room, why) ↦ inr (
    why,
    simp room,
    simp room (find-put_self s.operation_id s store.sessions),
    λ k h. simp room (find-put_other s.operation_id k s store.sessions h),
    simp room,
  )
]
