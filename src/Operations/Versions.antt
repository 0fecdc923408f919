-- ===== src/Operations/Versions.antt =====
-- fints/operations/helpers.py: the highest version of a segment that the bank and this program support.
-- A class is known by its type and its version.
pub mod Highest
use mathlib.Core.Path.{subst}
use Prim.Native.String.{len, slice, ◌++◌ as text_append}
use geldstrom.Prelude.{
  ℕ, ◌≤◌, ◌≡◌, ◌∙◌, ◌⊎◌, refl, sym, Bool, true, false, ◌&&◌, List, [], ◌∷◌, Option, none, some,
  String, str_eq, ◌==◌, ltb, if◌then◌else◌, Outcome, ok, raised, arith, Bool-cases, Option-cases,
  inl, inr,
}
use geldstrom.Segments.{Segment, Segments, header, find_segments, is_type}
use geldstrom.Clients.{ClientRaise, unsupported}

pub record SegmentClass : Type 0 where
  pub segment_type : String
  pub version : ℕ

-- version_map.get(version), of the dictionary in which a later class takes its version's place
abbrev pub class_at : ℕ → List SegmentClass → Option SegmentClass
class_at version [] = none
class_at version (k ∷ ks) =
    let rest = class_at version ks in
    elim rest [ some later ↦ some later | none ↦ if k.version == version then some k else none ]

-- f"HI{type[2:]}S"
abbrev pub param_name : String → String
param_name type = text_append "HI" (text_append (slice type 2 (len type)) "S")

-- version in version_map
abbrev pub is_some : Option SegmentClass → Bool
is_some none = false
is_some (some k) = true

abbrev pub is_known : List SegmentClass → ℕ → Bool
is_known classes version = is_some (class_at version classes)

-- highest is None or version > highest.header.version
abbrev pub is_higher : ℕ → Option Segment → Bool
is_higher version none = true
is_higher version (some best) = ltb (header best).version version

-- The loop over the parameter segments.
unfoldable pub highest_of : List SegmentClass → Option Segment → List Segment → Option Segment
highest_of classes best [] = best
highest_of classes best (s ∷ ss) =
    let version = (header s).version in
    highest_of classes (if is_known classes version && is_higher version best then some s else best)
      ss

-- `if raise_if_missing`
abbrev pub missing : Option String → Outcome ClientRaise (Option SegmentClass)
missing none = ok none
missing (some message) = if str_eq message "" then ok none else raised unsupported

abbrev pub chosen :
    List SegmentClass → Option String → Option Segment → Outcome ClientRaise (Option SegmentClass)
chosen classes raise_if_missing none = missing raise_if_missing
chosen classes raise_if_missing (some s) = ok (class_at (header s).version classes)

-- Of the classes `k ∷ ks`, so that there is a first one.
unfoldable pub find_highest_supported_version :
    Segments
    → SegmentClass
    → List SegmentClass
    → Option String
    → Outcome ClientRaise (Option SegmentClass)
unfolding highest_of
find_highest_supported_version bpd_segments k ks raise_if_missing =
    chosen (k ∷ ks) raise_if_missing
      (highest_of (k ∷ ks) none (find_segments (is_type (param_name k.segment_type)) bpd_segments))
