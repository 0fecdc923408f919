-- ===== src/Tests/Versions.antt =====
-- The choice of a version of HKSAL with a bank that offers versions 6 and 9.
use geldstrom.Prelude.{[], ◌∷◌, ◌≡◌, refl, some, none, String, ℕ, ok}
use geldstrom.Segments.{
  Segment, Segments, segment, other, nil, of_list, find_segments, find_in, is_type,
}
use geldstrom.Operations.Versions.{
  SegmentClass, param_name, highest_of, find_highest_supported_version,
}
use geldstrom.Operations.Versions.Highest.{IsHighest, find_highest_supported_version-IsHighest}

abbrev hksal : ℕ → SegmentClass
hksal version = record { segment_type = "HKSAL"; version = version }

abbrev parameter : String → ℕ → Segment
parameter type version =
    segment (record { type = type; number = 1; version = version; reference = none }) (other none)
      nil

abbrev parameters : Segments
parameters =
    of_list (
      parameter "HISALS" 9
      ∷ parameter "HISALS" 5
      ∷ parameter "HIKAZS" 7
      ∷ parameter "HISALS" 6
      ∷ [])

chosen_version :
    find_highest_supported_version parameters (hksal 7) (hksal 6 ∷ hksal 5 ∷ []) none
    ≡ ok (some (hksal 6))
unfolding find_highest_supported_version highest_of find_segments find_in
chosen_version = refl

find_highest_supported_version-IsHighest_example :
    IsHighest
      (hksal 7 ∷ hksal 6 ∷ hksal 5 ∷ [])
      (find_segments (is_type (param_name "HKSAL")) parameters)
      none
      (find_highest_supported_version parameters (hksal 7) (hksal 6 ∷ hksal 5 ∷ []) none)
find_highest_supported_version-IsHighest_example =
    find_highest_supported_version-IsHighest parameters (hksal 7) (hksal 6 ∷ hksal 5 ∷ []) none
