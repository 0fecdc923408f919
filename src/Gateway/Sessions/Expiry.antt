-- ===== src/Gateway/Sessions/Expiry.antt =====
-- What an expiry of the store removes.
use geldstrom.Prelude.{
  ℕ, ◌+◌, ◌≡◌, ◌≢◌, refl, sym, ap, ◌∙◌, List, [], ◌∷◌, String, if◌then◌else◌, length, arith,
  Bool-cases, inl, inr,
}
use geldstrom.Gateway.{PendingOperationSession}
use geldstrom.Gateway.Dict.{str_eq_refl, remove, str_eq-false}
use geldstrom.Gateway.Sessions.{Store, is_stale, stale_operation_ids, remove_all, expire_stale}
use geldstrom.Gateway.Sessions.Invariant.{Sessions, Fresh, Keyed, WellFormed}

-- The sessions that an expiry keeps.
abbrev pub not_stale : ℕ → Sessions → Sessions
not_stale now [] = []
not_stale now ((k, s) ∷ d) = if is_stale now s then not_stale now d else (k, s) ∷ not_stale now d

-- No id of the list is this key.
abbrev Outside : String → List String → Type 0
Outside k [] = Unit
Outside k (i ∷ ids) = (k ≢ i) × Outside k ids

stale-Outside :
    (now : ℕ) (k : String) (d : Sessions) → Fresh k d → Outside k (stale_operation_ids now d)
unfolding stale_operation_ids
stale-Outside now k [] f = tt
stale-Outside now k ((j, s) ∷ d) (ne, f) = elim (Bool-cases (is_stale now s)) [
  | inl e ↦ simp e ((λ q. ne (sym q)), stale-Outside now k d f)
  | inr e ↦ simp e (stale-Outside now k d f)
]

remove_all-keep :
    (k : String) (s : PendingOperationSession) (ids : List String) (d : Sessions)
    → Outside k ids
    → remove_all ids ((k, s) ∷ d) ≡ (k, s) ∷ remove_all ids d
unfolding remove_all remove
remove_all-keep k s [] d h = refl
remove_all-keep k s (i ∷ ids) d (ne, h) =
    rw (str_eq-false k i ne) (remove_all-keep k s ids (remove i d) h)

remove_self : (k : String) (s : PendingOperationSession) (d : Sessions) → remove k ((k, s) ∷ d) ≡ d
unfolding remove
remove_self k s d = rw (str_eq_refl k) refl

expire_keeps :
    (now : ℕ) (d : Sessions) → Keyed d → remove_all (stale_operation_ids now d) d ≡ not_stale now d
unfolding remove_all remove stale_operation_ids
expire_keeps now [] h = refl
expire_keeps now ((k, s) ∷ d) (own, f, h) = elim (Bool-cases (is_stale now s)) [
  | inl e ↦
      simp e
        (ap (remove_all (stale_operation_ids now d)) (remove_self k s d) ∙ expire_keeps now d h)
  | inr e ↦
      simp e
        (remove_all-keep k s _ d (stale-Outside now k d f) ∙ ap (◌∷◌ (k, s)) (expire_keeps now d h))
]

length-not_stale :
    (now : ℕ) (d : Sessions)
    → length (stale_operation_ids now d) + length (not_stale now d) ≡ length d
unfolding stale_operation_ids
length-not_stale now [] = refl
length-not_stale now ((k, s) ∷ d) =
    let ih = length-not_stale now d in
    elim (Bool-cases (is_stale now s)) [
      | inl e ↦ simp e (omega (arith, ih))
      | inr e ↦ simp e (omega (arith, ih))
    ]

-- On a well-formed store, an expiry keeps, in their order, exactly the sessions that are not both past
-- their time and in a final state, and returns the number of those that it removed.
pub expire_stale_lem :
    (now : ℕ) (store : Store)
    → WellFormed store
    → ((expire_stale now store).1.sessions ≡ not_stale now store.sessions)
      × ((expire_stale now store).0 + length (expire_stale now store).1.sessions
          ≡ length store.sessions)
unfolding expire_stale WellFormed
expire_stale_lem now store (keyed, size) =
    let kept = expire_keeps now store.sessions keyed in
    let counted = length-not_stale now store.sessions in
    (kept, ap (λ d. length (stale_operation_ids now store.sessions) + length d) kept ∙ counted)
