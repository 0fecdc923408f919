-- ===== src/Gateway/RateLimit/Window.antt =====
-- The rate limiter against a window that is computed from all times, and its use of memory.
use geldstrom.Prelude.{
  ℕ, suc, ◌≤◌, ◌<◌, ◌≡◌, refl, ap, ◌∙◌, Bool, true, false, List, [], ◌∷◌, ◌++◌, Option, none, some,
  String, leb, ltb, if◌then◌else◌, length, starts_with, All, arith, Bool-cases, inl, inr,
}
use geldstrom.Gateway.Dict.{
  find, remove, find-put_self, length-put, length-put_known, length-remove,
}
use geldstrom.Gateway.RateLimit.{
  Buckets, max_buckets, has_left, trim, freed, trimmed, evicted, opened, limited, dispatch,
}

-- The times that are in the window.
abbrev pub recent : ℕ → List ℕ → List ℕ
recent now [] = []
recent now (t ∷ ts) = if has_left now t then recent now ts else t ∷ recent now ts

abbrev pub times : Option (List ℕ) → List ℕ
times none = []
times (some ts) = ts

abbrev pub IsAscending : List ℕ → Type 0
IsAscending [] = Unit
IsAscending (t ∷ ts) = All (λ u. t ≤ u) ts × IsAscending ts

recent-All :
    (now t : ℕ) (ts : List ℕ) → has_left now t ≡ false → All (λ u. t ≤ u) ts → recent now ts ≡ ts
recent-All now t [] h a = refl
recent-All now t (u ∷ us) h (le, a) =
    let stays : has_left now u ≡ false = ground arith in
    rw stays (ap (◌∷◌ u) (recent-All now t us h a))

trim-recent : (now : ℕ) (ts : List ℕ) → IsAscending ts → trim now ts ≡ recent now ts
unfolding trim
trim-recent now [] h = refl
trim-recent now (t ∷ ts) (least, h) = elim (Bool-cases (has_left now t)) [
  | inl e ↦ rw e (trim-recent now ts h)
  | inr e ↦ let all = recent-All now t ts e least in rw e (rw all refl)
]

-- The bucket that a request finds, and where it is.
abbrev IsOpened : String → List ℕ → List ℕ × Buckets → Type 0
IsOpened key ts (bucket, buckets) = (bucket ≡ ts) × (find key buckets ≡ some bucket)

freed-IsOpened :
    (key : String) (buckets : Buckets) (ts : List ℕ)
    → IsOpened key ts (opened key (freed key buckets ts))
freed-IsOpened key buckets [] = (refl, find-put_self key [] (evicted (remove key buckets)))
freed-IsOpened key buckets (t ∷ ts) = (refl, find-put_self key (t ∷ ts) buckets)

trimmed-IsOpened :
    (key : String) (now : ℕ) (buckets : Buckets) (o : Option (List ℕ))
    → IsOpened key (trim now (times o)) (opened key (trimmed key now buckets o))
unfolding trim
trimmed-IsOpened key now buckets none = (refl, find-put_self key [] (evicted buckets))
trimmed-IsOpened key now buckets (some ts) = freed-IsOpened key buckets (trim now ts)

-- The answer and the bucket behind a request, for the times that are in its window.
abbrev pub Limits : ℕ → String → ℕ → List ℕ → Bool × Buckets → Type 0
Limits limit key now ts (allowed, buckets) =
    (allowed ≡ ltb (length ts) limit)
    × (find key buckets ≡ some (if ltb (length ts) limit then ts ++ now ∷ [] else ts))

limited-Limits :
    (limit : ℕ) (key : String) (now : ℕ) (ts : List ℕ) (r : List ℕ × Buckets)
    → IsOpened key ts r
    → Limits limit key now ts (limited limit key now r)
limited-Limits limit key now ts (bucket, buckets) (same, found) =
    elim (Bool-cases (leb limit (length ts))) [
      | inl full ↦
          let no_room : ltb (length ts) limit ≡ false = ground arith in
          let full' : leb limit (length bucket) ≡ true = rw same full in
          simp (full', no_room) (refl, found ∙ ap some same)
      | inr free ↦
          let room : ltb (length ts) limit ≡ true = ground arith in
          let free' : leb limit (length bucket) ≡ false = rw same free in
          let held = find-put_self key (bucket ++ now ∷ []) buckets in
          simp (free', room) (refl, held ∙ ap (λ b. some (b ++ now ∷ [])) same)
    ]

All-recent : (P : ℕ → Type 0) (now : ℕ) (ts : List ℕ) → All P ts → All P (recent now ts)
All-recent P now [] a = tt
All-recent P now (t ∷ ts) (p, a) = elim (Bool-cases (has_left now t)) [
  | inl e ↦ rw e (All-recent P now ts a)
  | inr e ↦ rw e (p, All-recent P now ts a)
]

recent-IsAscending : (now : ℕ) (ts : List ℕ) → IsAscending ts → IsAscending (recent now ts)
recent-IsAscending now [] h = tt
recent-IsAscending now (t ∷ ts) (least, h) = elim (Bool-cases (has_left now t)) [
  | inl e ↦ rw e (recent-IsAscending now ts h)
  | inr e ↦ rw e (All-recent (λ u. t ≤ u) now ts least, recent-IsAscending now ts h)
]

All-last : (P : ℕ → Type 0) (ts : List ℕ) (u : ℕ) → All P ts → P u → All P (ts ++ u ∷ [])
All-last P [] u a p = (p, tt)
All-last P (t ∷ ts) u (q, a) p = (q, All-last P ts u a p)

append-IsAscending :
    (ts : List ℕ) (u : ℕ) → IsAscending ts → All (λ t. t ≤ u) ts → IsAscending (ts ++ u ∷ [])
append-IsAscending [] u h a = (tt, tt)
append-IsAscending (t ∷ ts) u (least, h) (le, a) =
    (All-last (λ u. t ≤ u) ts u least le, append-IsAscending ts u h a)

-- For a request that is no health probe, where the times of the caller ascend and none is later than
-- now: it goes on exactly when fewer than `limit` of all these times are in the window that ends now;
-- the caller's bucket then holds these and, if it goes on, now; and the bucket's times ascend again,
-- with none later than now.
pub dispatch-recent :
    (limit : ℕ) (path key : String) (now : ℕ) (buckets : Buckets)
    → starts_with path "/health" ≡ false
    → IsAscending (times (find key buckets))
    → All (λ t. t ≤ now) (times (find key buckets))
    → Limits limit key now
        (recent now (times (find key buckets)))
        (dispatch limit path key now buckets)
      × IsAscending (times (find key (dispatch limit path key now buckets).1))
      × All (λ t. t ≤ now) (times (find key (dispatch limit path key now buckets).1))
unfolding dispatch
dispatch-recent limit path key now buckets probe ascending before =
    let ts = recent now (times (find key buckets)) in
    let trimmed' = trim-recent now (times (find key buckets)) ascending in
    let opened' = trimmed-IsOpened key now buckets (find key buckets) in
    let r = opened key (trimmed key now buckets (find key buckets)) in
    let answer = limited-Limits limit key now ts r (opened'.0 ∙ trimmed', opened'.1) in
    let sorted = recent-IsAscending now (times (find key buckets)) ascending in
    let past = All-recent (λ t. t ≤ now) now (times (find key buckets)) before in
    rw probe (
      answer,
      rw answer.1 (if_ascending (ltb (length ts) limit) ts sorted past),
      rw answer.1 (if_past (ltb (length ts) limit) ts past),
    )
  where
    if_ascending :
        (b : Bool) (ts : List ℕ)
        → IsAscending ts
        → All (λ t. t ≤ now) ts
        → IsAscending (if b then ts ++ now ∷ [] else ts)
    if_ascending true ts h a = append-IsAscending ts now h a
    if_ascending false ts h a = h

    if_past :
        (b : Bool) (ts : List ℕ)
        → All (λ t. t ≤ now) ts
        → All (λ t. t ≤ now) (if b then ts ++ now ∷ [] else ts)
    if_past true ts a = All-last (λ t. t ≤ now) ts now a (omega arith)
    if_past false ts a = a

evicted-room :
    (buckets : Buckets) → length buckets ≤ max_buckets → length (evicted buckets) < max_buckets
evicted-room [] h = omega arith
evicted-room (b ∷ bs) h = elim (Bool-cases (leb max_buckets (suc (length bs)))) [
  | inl e ↦ rw e (omega arith)
  | inr e ↦ rw e (ground arith)
]

freed-bound :
    (key : String) (buckets : Buckets) (old new : List ℕ)
    → find key buckets ≡ some old
    → length (freed key buckets new).1 ≤ length buckets
freed-bound key buckets old [] held = length-remove key buckets
freed-bound key buckets old (t ∷ ts) held =
    let same = length-put_known key (t ∷ ts) old buckets held in omega (arith, same)

trimmed-bound :
    (key : String) (now : ℕ) (buckets : Buckets) (o : Option (List ℕ))
    → find key buckets ≡ o
    → length (trimmed key now buckets o).1 ≤ length buckets
trimmed-bound key now buckets none held = omega arith
trimmed-bound key now buckets (some ts) held = freed-bound key buckets ts (trim now ts) held

opened-bound :
    (key : String) (r : Option (List ℕ) × Buckets)
    → length r.1 ≤ max_buckets
    → length (opened key r).1 ≤ max_buckets
opened-bound key (none, buckets) h =
    let room = evicted-room buckets h in
    let more = length-put key [] (evicted buckets) in omega (arith, room, more)
opened-bound key (some ts, buckets) h = h

limited-bound :
    (limit : ℕ) (key : String) (now : ℕ) (r : List ℕ × Buckets)
    → find key r.1 ≡ some r.0
    → length (limited limit key now r).1 ≡ length r.1
limited-bound limit key now (ts, buckets) held = elim (Bool-cases (leb limit (length ts))) [
  | inl e ↦ rw e refl
  | inr e ↦ rw e (length-put_known key (ts ++ now ∷ []) ts buckets held)
]

-- A request never leaves more buckets than the cap, where there were not more before.
pub dispatch-bound :
    (limit : ℕ) (path key : String) (now : ℕ) (buckets : Buckets)
    → length buckets ≤ max_buckets
    → length (dispatch limit path key now buckets).1 ≤ max_buckets
unfolding dispatch
dispatch-bound limit path key now buckets h =
    let r = trimmed key now buckets (find key buckets) in
    let fewer = trimmed-bound key now buckets (find key buckets) refl in
    let fits = opened-bound key r (omega (arith, fewer, h)) in
    let same =
      limited-bound limit key now (opened key r)
        (trimmed-IsOpened key now buckets (find key buckets)).1 in
    elim (Bool-cases (starts_with path "/health")) [
      | inl e ↦ rw e h
      | inr e ↦ rw e (omega (arith, same, fits))
    ]
