-- ===== src/Tan.antt =====
-- fints/dialog/tan_strategies: which HKTAN a strategy adds to the segments of a request, and how it
-- handles the answer.
pub mod Injection
use geldstrom.Prelude.{
  ℕ, zero, suc, Bool, true, false, not, ◌&&◌, ◌||◌, List, [], ◌∷◌, ◌++◌, Option, none, some, String,
  str_eq, leb, ltb, ◌==◌, if◌then◌else◌, Outcome, ok, raised,
}
use geldstrom.Segments.{
  Header, Body, hipins1, hitan, hktan, Segment, segment, Segments, nil, header, find_segments,
  find_segment_first, is_type,
}
use geldstrom.Responses.{DialogResponse, Processed, get_response_by_code, find_raw_first}
use geldstrom.Parameters.{ParameterStore}

-- seg_type and seg_type not in DIALOG_SEGMENTS
abbrev pub is_business : String → Bool
is_business t = not (
    str_eq t ""
    || str_eq t "HKIDN"
    || str_eq t "HKVVB"
    || str_eq t "HKEND"
    || str_eq t "HKSYN"
    || str_eq t "HKTAN")

-- The loop of `find_highest_hitans`: the first of the highest version.
unfoldable pub highest : Option Segment → List Segment → Option Segment
highest best [] = best
highest none (s ∷ ss) = highest (some s) ss
highest (some b) (s ∷ ss) =
    highest (if ltb (header b).version (header s).version then some s else some b) ss

unfoldable pub find_highest_hitans : Segments → Option Segment
unfolding highest find_segments
find_highest_hitans bpd_segments = highest none (find_segments (is_type "HITANS") bpd_segments)

-- The version of the class that `get_hktan_class` gives: `HKTAN_VERSIONS` has 2, 6 and 7.
unfoldable pub get_hktan_class : ℕ → Option ℕ
get_hktan_class v =
    if leb 7 v then some 7 else if v == 6 then some 6 else if leb 2 v then some 2 else none

abbrev pub is_hipins1 : Segment → Bool
is_hipins1 (segment h (hipins1 requirements) inner) = true
is_hipins1 _ = false

-- The loop over `transaction_tans_required`, and what follows it.
unfoldable pub tan_required : String → List (String × Bool) → Bool
tan_required segment_type [] = true
tan_required segment_type ((transaction, required) ∷ rest) =
    if str_eq transaction segment_type then required else tan_required segment_type rest

abbrev pub requirements_of : Segment → List (String × Bool)
requirements_of (segment h (hipins1 requirements) inner) = requirements
requirements_of _ = []

unfoldable pub segment_requires_tan : ParameterStore → String → Bool
unfolding tan_required find_segment_first
segment_requires_tan parameters segment_type =
    elim (find_segment_first is_hipins1 parameters.bpd.segments) [
      | none ↦ true
      | some hipins ↦ tan_required segment_type (requirements_of hipins)
    ]

-- hktan_class(tan_process=…), its other fields as given
abbrev pub make_hktan : ℕ → String → Option String → Option String → Segment
make_hktan version process segment_type task_reference =
    segment (record { type = "HKTAN"; number = 0; version = version; reference = none })
      (hktan process segment_type task_reference) nil

abbrev pub hktan_of : String → Option ℕ → Option Segment
hktan_of segment_type none = none
hktan_of segment_type (some version) =
    some (make_hktan version "4" (if leb 6 version then some segment_type else none) none)

abbrev pub hktan_for : String → Option Segment → Option Segment
hktan_for segment_type none = none
hktan_for segment_type (some hitans) =
    hktan_of segment_type (get_hktan_class (header hitans).version)

unfoldable pub build_hktan_for_segment : ParameterStore → String → Option Segment
unfolding find_highest_hitans get_hktan_class
build_hktan_for_segment parameters segment_type =
    hktan_for segment_type (find_highest_hitans parameters.bpd.segments)

-- The segments that the loop appends for one segment.
unfoldable pub with_hktan : ParameterStore → Segment → List Segment
with_hktan parameters s =
    let seg_type = (header s).type in
    if is_business seg_type && segment_requires_tan parameters seg_type
    then elim (build_hktan_for_segment parameters seg_type) [
      | none ↦ s ∷ []
      | some tan ↦ s ∷ tan ∷ []
    ]
    else s ∷ []

unfoldable pub inject_hktan_for_business_segments : List Segment → ParameterStore → List Segment
unfolding with_hktan
inject_hktan_for_business_segments [] parameters = []
inject_hktan_for_business_segments (s ∷ ss) parameters =
    with_hktan parameters s ++ inject_hktan_for_business_segments ss parameters

-- `NoTanStrategy`, and `DecoupledTanStrategy` with its security function.
pub data TanStrategy : Type 0 where
  no_tan : TanStrategy
  decoupled : String → TanStrategy

abbrev pub is_two_step : TanStrategy → Bool
is_two_step no_tan = false
is_two_step (decoupled f) = true

abbrev pub security_function : TanStrategy → String
security_function no_tan = "999"
security_function (decoupled f) = f

unfoldable pub prepare_segments : TanStrategy → List Segment → ParameterStore → List Segment
unfolding inject_hktan_for_business_segments
prepare_segments no_tan segments parameters = segments
prepare_segments (decoupled f) segments parameters =
    inject_hktan_for_business_segments segments parameters

-- `ChallengeResult`; the response text is read by no caller here.
pub record ChallengeResult : Type 0 where
  pub cancelled : Bool
  pub error : Option String
  pub detach : Bool

-- `challenge_handler.present_challenge`, which the caller of the client supplies, as a function of
-- the HITAN that the challenge shows.
abbrev pub ChallengeHandler : Type 0
ChallengeHandler = Segment → ChallengeResult

-- What a strategy may raise: `DecoupledTANPending` with the challenge's HITAN and the task reference,
-- or `ValueError`.
pub data TanRaise : Type 0 where
  pending : Segment → String → TanRaise
  cancelled_by_user handler_error : TanRaise

-- bool(text), where `None` is falsy too
abbrev pub given : Option String → Option String
given none = none
given (some t) = if str_eq t "" then none else some t

abbrev pub task_reference_of : Segment → Option String
task_reference_of (segment h (hitan task_reference) inner) = given task_reference
task_reference_of _ = none

abbrev pub present :
    Segment → String → Option ChallengeHandler → Outcome TanRaise (Option Processed)
present challenge task_ref none = ok none
present challenge task_ref (some handler) =
    let result = handler challenge in
    if result.cancelled then raised cancelled_by_user else elim (given result.error) [
      | some e ↦ raised handler_error
      | none ↦ if result.detach then raised (pending challenge task_ref) else ok none
    ]

unfoldable pub handle_decoupled :
    Processed → Option ChallengeHandler → Outcome TanRaise (Option Processed)
unfolding find_raw_first
handle_decoupled response handler = elim (find_raw_first response (is_type "HITAN")) [
  | none ↦ ok none
  | some challenge ↦ elim (task_reference_of challenge) [
    | none ↦ ok none
    | some task_ref ↦ present challenge task_ref handler
  ]
]

unfoldable pub handle_response :
    TanStrategy → Processed → Option ChallengeHandler → Outcome TanRaise (Option Processed)
unfolding handle_decoupled get_response_by_code
handle_response no_tan response handler = ok none
handle_response (decoupled f) response handler = elim (get_response_by_code response "3955") [
  | none ↦ ok none
  | some r ↦ handle_decoupled response handler
]
