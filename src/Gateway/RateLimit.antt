-- ===== src/Gateway/RateLimit.antt =====
-- presentation/http/middleware/rate_limit.py: `RateLimitMiddleware`. A time of the monotonic clock is a
-- number of microseconds, and the key is the hash that stands for the caller.
pub mod Window
use geldstrom.Prelude.{
  ℕ, ◌+◌, Bool, true, false, List, [], ◌∷◌, ◌++◌, Option, none, some, String, leb, if◌then◌else◌,
  length, starts_with,
}
use geldstrom.Gateway.Dict.{Dict, find, put, remove}

abbrev pub Buckets : Type 0
Buckets = Dict (List ℕ)

-- self._window
abbrev pub window : ℕ
window = 60000000

-- _MAX_BUCKETS
abbrev pub max_buckets : ℕ
max_buckets = 50000

-- bucket[0] <= cutoff, where the cutoff is the time less the window
abbrev pub has_left : ℕ → ℕ → Bool
has_left now t = leb (t + window) now

-- The loop that trims the times that have left the window.
unfoldable pub trim : ℕ → List ℕ → List ℕ
trim now [] = []
trim now (t ∷ ts) = let rest = trim now ts in if has_left now t then rest else t ∷ ts

abbrev pub freed : String → Buckets → List ℕ → Option (List ℕ) × Buckets
freed key buckets [] = (none, remove key buckets)
freed key buckets (t ∷ ts) = (some (t ∷ ts), put key (t ∷ ts) buckets)

abbrev pub trimmed : String → ℕ → Buckets → Option (List ℕ) → Option (List ℕ) × Buckets
trimmed key now buckets none = (none, buckets)
trimmed key now buckets (some bucket) = freed key buckets (trim now bucket)

abbrev pub without_oldest : Buckets → Buckets
without_oldest [] = []
without_oldest (b ∷ bs) = bs

abbrev pub evicted : Buckets → Buckets
evicted buckets = if leb max_buckets (length buckets) then without_oldest buckets else buckets

abbrev pub opened : String → Option (List ℕ) × Buckets → List ℕ × Buckets
opened key (none, buckets) = ([], put key [] (evicted buckets))
opened key (some bucket, buckets) = (bucket, buckets)

abbrev pub limited : ℕ → String → ℕ → List ℕ × Buckets → Bool × Buckets
limited limit key now (bucket, buckets) =
    if leb limit (length bucket)
    then (false, buckets)
    else (true, put key (bucket ++ now ∷ []) buckets)

-- Whether the request goes on to the application, or is answered with 429.
unfoldable pub dispatch : ℕ → String → String → ℕ → Buckets → Bool × Buckets
unfolding trim
dispatch limit path key now buckets =
    if starts_with path "/health"
    then (true, buckets)
    else limited limit key now (opened key (trimmed key now buckets (find key buckets)))
