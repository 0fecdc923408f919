-- ===== src/Tan/Injection.antt =====
-- Where `inject_hktan_for_business_segments` puts an HKTAN.
use geldstrom.Prelude.{
  ◌≡◌, Bool, true, false, ◌&&◌, List, [], ◌∷◌, Option, none, some, String, str_eq, if◌then◌else◌,
  All, leb, ℕ,
}
use geldstrom.Segments.{Segment, header, body, hktan}
use geldstrom.Parameters.{ParameterStore}
use geldstrom.Tan.{
  is_business, find_highest_hitans, get_hktan_class, segment_requires_tan, build_hktan_for_segment,
  with_hktan,
}

abbrev pub is_hktan : Segment → Bool
is_hktan s = str_eq (header s).type "HKTAN"

abbrev pub is_some : Option Segment → Bool
is_some none = false
is_some (some s) = true

-- A business segment for which the bank asks a TAN, in a dialog that can build an HKTAN.
abbrev pub needs_tan : ParameterStore → Segment → Bool
needs_tan p s =
    is_business (header s).type
    && segment_requires_tan p (header s).type
    && is_some (build_hktan_for_segment p (header s).type)

abbrev pub without_hktan : List Segment → List Segment
without_hktan [] = []
without_hktan (s ∷ ss) = if is_hktan s then without_hktan ss else s ∷ without_hktan ss

abbrev pub starts_hktan : List Segment → Bool
starts_hktan [] = false
starts_hktan (s ∷ ss) = is_hktan s

-- An HKTAN of process 4 without a task reference, of the class for the highest HITANS of the bank, and
-- with the type of the request from version 6 on.
abbrev pub IsHktanFor : ParameterStore → String → Segment → Type 0
IsHktanFor p t tan =
    (hitans : Segment) × (version : ℕ) × (find_highest_hitans p.bpd.segments ≡ some hitans)
    × (get_hktan_class (header hitans).version ≡ some version)
    × ((header tan).type ≡ "HKTAN")
    × ((header tan).version ≡ version)
    × (body tan ≡ hktan "4" (if leb 6 version then some t else none) none)

-- What stands behind a segment that needs an HKTAN.
abbrev pub FollowedBy : ParameterStore → Segment → List Segment → Type 0
FollowedBy p s [] = ⊥
FollowedBy p s (tan ∷ ss) = IsHktanFor p (header s).type tan

-- An HKTAN stands behind each segment that needs one, with what it asks for, and behind no other.
abbrev pub IsPaired : ParameterStore → List Segment → Type 0
IsPaired p [] = Unit
IsPaired p (s ∷ ss) =
    (needs_tan p s ≡ starts_hktan ss) × (needs_tan p s ≡ true → FollowedBy p s ss) × IsPaired p ss

-- What the loop appends for one segment.
abbrev Bare : ParameterStore → Segment → Type 0
Bare p s = (with_hktan p s ≡ s ∷ []) × (needs_tan p s ≡ false)

abbrev Paired : ParameterStore → Segment → Type 0
Paired p s =
    (tan : Segment) × (with_hktan p s ≡ s ∷ tan ∷ [])
    × (needs_tan p s ≡ true)
    × (is_hktan tan ≡ true)
    × IsHktanFor p (header s).type tan

abbrev IsPlain : List Segment → Type 0
IsPlain = All (λ s. is_hktan s ≡ false)
