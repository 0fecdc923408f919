-- ===== src/Operations/Versions/Highest.antt =====
-- The class that `find_highest_supported_version` chooses.
use mathlib.Core.Path.{subst}
use geldstrom.Prelude.{
  ℕ, ◌≤◌, ◌≡◌, ◌∙◌, ◌⊎◌, refl, sym, Bool, true, false, ◌&&◌, List, [], ◌∷◌, Option, none, some,
  String, str_eq, ◌==◌, if◌then◌else◌, Outcome, ok, raised, arith, Bool-cases, Option-cases, inl,
  inr,
}
use geldstrom.Segments.{Segment, Segments, header, find_segments, is_type}
use geldstrom.Clients.{ClientRaise, unsupported}
use geldstrom.Operations.Versions.{
  SegmentClass, class_at, param_name, is_some, is_known, is_higher, highest_of, missing, chosen,
  find_highest_supported_version,
}

-- Some parameter segment has the version.
abbrev pub is_offered : ℕ → List Segment → Bool
is_offered version [] = false
is_offered version (s ∷ ss) =
    let rest = is_offered version ss in if (header s).version == version then true else rest

abbrev pub IsAtLeast : ℕ → Option Segment → Type 0
IsAtLeast version none = Unit
IsAtLeast version (some best) = (header best).version ≤ version

-- What the loop makes of `best`.
abbrev pub IsHighestOf : List SegmentClass → Option Segment → List Segment → Option Segment → Type 0
IsHighestOf classes best ss none =
    (best ≡ none)
    × ((version : ℕ) → is_offered version ss ≡ true → is_known classes version ≡ false)
IsHighestOf classes best ss (some s) =
    ((best ≡ some s)
      ⊎ ((is_offered (header s).version ss ≡ true) × (is_known classes (header s).version ≡ true)))
    × IsAtLeast (header s).version best
    × ((version : ℕ)
        → is_offered version ss ≡ true
        → is_known classes version ≡ true
        → version ≤ (header s).version)

-- What the choice of a class returns.
abbrev pub IsHighest :
    List SegmentClass
    → List Segment
    → Option String
    → Outcome ClientRaise (Option SegmentClass)
    → Type 0
IsHighest classes ss message (ok (some k)) =
    (class_at k.version classes ≡ some k)
    × (is_offered k.version ss ≡ true)
    × ((version : ℕ)
        → is_offered version ss ≡ true
        → is_known classes version ≡ true
        → version ≤ k.version)
IsHighest classes ss message r =
    (r ≡ missing message)
    × ((version : ℕ) → is_offered version ss ≡ true → is_known classes version ≡ false)

later_offered :
    (version : ℕ) (s : Segment) (ss : List Segment)
    → is_offered version ss ≡ true
    → is_offered version (s ∷ ss) ≡ true
later_offered version s ss h = elim (Bool-cases ((header s).version == version)) [
  | inl e ↦ rw e refl
  | inr e ↦ rw e h
]

offered_head : (s : Segment) (ss : List Segment) → is_offered (header s).version (s ∷ ss) ≡ true
offered_head s ss =
    let e : ((header s).version == (header s).version) ≡ true = ground arith in rw e refl

-- The segment at the head has the version, or one behind it.
offered-cases :
    (version : ℕ) (s : Segment) (ss : List Segment)
    → is_offered version (s ∷ ss) ≡ true
    → ((header s).version ≡ version) ⊎ (is_offered version ss ≡ true)
offered-cases version s ss h = elim (Bool-cases ((header s).version == version)) [
  | inl e ↦ inl (ground arith)
  | inr e ↦ inr (simp e at h)
]

some_of : (o : Option SegmentClass) → is_some o ≡ true → (k : SegmentClass) × (o ≡ some k)
some_of none h = cc
some_of (some k) h = (k, refl)

both : (a b : Bool) → (a && b) ≡ true → (a ≡ true) × (b ≡ true)
both true true h = (refl, refl)
both true false h = cc
both false b h = cc

class_at-version :
    (version : ℕ) (classes : List SegmentClass) (k : SegmentClass)
    → class_at version classes ≡ some k
    → k.version ≡ version
class_at-version version [] k h = cc
class_at-version version (j ∷ js) k h = elim (Option-cases (class_at version js)) [
  | inl e ↦ elim (Bool-cases (j.version == version)) [
    | inl f ↦ ground arith
    | inr f ↦ let h' : none ≡ some k = simp (e, f) at h in cc
  ]
  | inr (later, e) ↦ class_at-version version js k (e ∙ (simp e at h))
]

above :
    (version : ℕ) (best : Option Segment) (t : Segment)
    → is_higher version best ≡ true
    → version ≤ (header t).version
    → IsAtLeast (header t).version best
above version none t h least = tt
above version (some b) t h least = ground arith

-- A segment that takes the place of the best before it.
taken-IsHighestOf :
    (classes : List SegmentClass) (best : Option Segment) (s : Segment) (ss : List Segment)
    (r : Option Segment)
    → is_known classes (header s).version ≡ true
    → is_higher (header s).version best ≡ true
    → IsHighestOf classes (some s) ss r
    → IsHighestOf classes best (s ∷ ss) r
taken-IsHighestOf classes best s ss none known higher (e, rest) = cc
taken-IsHighestOf classes best s ss (some t) known higher (origin, least, bound) = (
  elim origin [
    | inl e ↦
        let same : s ≡ t = cc in
        inr (
          subst
            (λ x.
              (is_offered (header x).version (s ∷ ss) ≡ true)
              × (is_known classes (header x).version ≡ true))
            same (offered_head s ss, known))
    | inr (o, k) ↦ inr (later_offered (header t).version s ss o, k)
  ],
  above (header s).version best t higher least,
  λ version o k. elim (offered-cases version s ss o) [
    | inl e ↦ omega (arith, e, least)
    | inr o' ↦ bound version o' k
  ],
)

-- The best is as high as a segment that is known and does not take its place.
below :
    (version : ℕ) (known : Bool) (b : Option Segment) (n : ℕ)
    → (known && is_higher version b) ≡ false
    → known ≡ true
    → IsAtLeast n b
    → version ≤ n
below version true none n h k least = cc
below version true (some b) n h k least = ground arith
below version false b n h k least = cc

unknown : (known : Bool) → (known && true) ≡ false → known ≡ false
unknown true h = cc
unknown false h = refl

-- A segment that does not.
passed-IsHighestOf :
    (classes : List SegmentClass) (best : Option Segment) (s : Segment) (ss : List Segment)
    (r : Option Segment)
    → (is_known classes (header s).version && is_higher (header s).version best) ≡ false
    → IsHighestOf classes best ss r
    → IsHighestOf classes best (s ∷ ss) r
passed-IsHighestOf classes none s ss none h (e, rest) = (
  refl,
  λ version o. elim (offered-cases version s ss o) [
    | inl e ↦
        subst (λ n. is_known classes n ≡ false) e (unknown (is_known classes (header s).version) h)
    | inr o' ↦ rest version o'
  ],
)
passed-IsHighestOf classes (some b) s ss none h (e, rest) = cc
passed-IsHighestOf classes best s ss (some t) h (origin, least, bound) = (
  elim origin [ inl e ↦ inl e | inr (o, k) ↦ inr (later_offered (header t).version s ss o, k) ],
  least,
  λ version o k. elim (offered-cases version s ss o) [
    | inl e ↦
        let known : is_known classes (header s).version ≡ true =
          subst (λ n. is_known classes n ≡ true) (sym e) k in
        let under =
          below (header s).version (is_known classes (header s).version) best (header t).version h
            known least in
        omega (arith, e, under)
    | inr o' ↦ bound version o' k
  ],
)

highest_of-IsHighestOf :
    (classes : List SegmentClass) (best : Option Segment) (ss : List Segment)
    → IsHighestOf classes best ss (highest_of classes best ss)
unfolding highest_of
highest_of-IsHighestOf classes none [] = (refl, λ version h. cc)
highest_of-IsHighestOf classes (some b) [] = (inl refl, omega arith, λ version h. cc)
highest_of-IsHighestOf classes best (s ∷ ss) =
    let test = is_known classes (header s).version && is_higher (header s).version best in
    elim (Bool-cases test) [
      | inl e ↦
          let (known, higher) =
            both (is_known classes (header s).version) (is_higher (header s).version best) e in
          rw e (
            taken-IsHighestOf classes best s ss (highest_of classes (some s) ss) known higher
              (highest_of-IsHighestOf classes (some s) ss))
      | inr e ↦ rw e (
          passed-IsHighestOf classes best s ss (highest_of classes best ss) e
            (highest_of-IsHighestOf classes best ss))
    ]

missing-IsHighest :
    (classes : List SegmentClass) (ss : List Segment) (message : Option String)
    (r : Outcome ClientRaise (Option SegmentClass))
    → r ≡ missing message
    → ((version : ℕ) → is_offered version ss ≡ true → is_known classes version ≡ false)
    → IsHighest classes ss message r
missing-IsHighest classes ss none (ok (some k)) e rest = cc
missing-IsHighest classes ss (some m) (ok (some k)) e rest = elim (Bool-cases (str_eq m "")) [
  | inl empty ↦ let e' : ok (some k) ≡ ok none = simp empty at e in cc
  | inr full ↦ let e' : ok (some k) ≡ raised unsupported = simp full at e in cc
]
missing-IsHighest classes ss message (ok none) e rest = (e, rest)
missing-IsHighest classes ss message (raised u) e rest = (e, rest)

chosen-IsHighest :
    (classes : List SegmentClass) (ss : List Segment) (message : Option String) (r : Option Segment)
    → IsHighestOf classes none ss r
    → IsHighest classes ss message (chosen classes message r)
chosen-IsHighest classes ss message none (e, rest) =
    missing-IsHighest classes ss message (missing message) refl rest
chosen-IsHighest classes ss message (some t) (inl e, least, bound) = cc
chosen-IsHighest classes ss message (some t) (inr (o, known), least, bound) =
    let (k, e) = some_of (class_at (header t).version classes) known in
    let same = class_at-version (header t).version classes k e in
    rw e (
      subst
        (λ n.
          (class_at n classes ≡ some k)
          × (is_offered n ss ≡ true)
          × ((version : ℕ)
              → is_offered version ss ≡ true
              → is_known classes version ≡ true
              → version ≤ n))
        (sym same) (e, o, bound))

-- Whatever parameter segments the bank has sent, the class chosen is the one that the program has for its
-- version, the bank offers that version, and no version that both have is higher; and where none is
-- chosen, no version is on both sides, and the call raises where it is given a message to raise with.
pub find_highest_supported_version-IsHighest :
    (bpd_segments : Segments) (k : SegmentClass) (ks : List SegmentClass) (message : Option String)
    → IsHighest
        (k ∷ ks)
        (find_segments (is_type (param_name k.segment_type)) bpd_segments)
        message
        (find_highest_supported_version bpd_segments k ks message)
unfolding find_highest_supported_version
find_highest_supported_version-IsHighest bpd_segments k ks message =
    let ss = find_segments (is_type (param_name k.segment_type)) bpd_segments in
    chosen-IsHighest (k ∷ ks) ss message (highest_of (k ∷ ks) none ss)
      (highest_of-IsHighestOf (k ∷ ks) none ss)
