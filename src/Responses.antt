-- ===== src/Responses.antt =====
-- fints/dialog/responses.py: what the dialog takes from a message of the bank. The callbacks of
-- `ResponseProcessor` are not modelled: their exceptions are swallowed and nothing else uses them.
use Prim.Native.Char.{code}
use geldstrom.Prelude.{
  ℕ, Bool, true, false, ◌&&◌, ◌||◌, List, [], ◌∷◌, ◌++◌, Option, none, some, String, str_eq,
  starts_with, char_at?, ◌==◌, if◌then◌else◌,
}
use geldstrom.Segments.{
  Entry, hnhbk3, hirmg2, hirms2, hibpa3, hiupa4, Segment, segment, Segments, header, find_segments,
  find_segment_first, is_type, of_list,
}
use geldstrom.Segments.Message.{is_hirms2}

pub record DialogResponse : Type 0 where
  pub code : String
  pub text : String
  pub parameters : List String

abbrev pub is_success : DialogResponse → Bool
is_success r = starts_with r.code "0"

abbrev pub is_error : DialogResponse → Bool
is_error r = starts_with r.code "9"

pub record Processed : Type 0 where
  pub dialog_id : String
  pub message_number : ℕ
  pub global_responses : List DialogResponse
  pub segment_responses : List DialogResponse
  pub bpd_version : Option ℕ
  pub upd_version : Option ℕ
  pub bpd_segments : Option Segments
  pub upd_segments : Option Segments
  pub bpa : Option Segment
  pub upa : Option Segment
  pub raw_response : Option Segments

abbrev pub all_responses : Processed → List DialogResponse
all_responses p = p.global_responses ++ p.segment_responses

-- `next((r for r in responses if r.is_error), None)`
unfoldable pub first_error : List DialogResponse → Option DialogResponse
first_error [] = none
first_error (r ∷ rs) = if is_error r then some r else first_error rs

unfoldable pub any_error : List DialogResponse → Bool
any_error [] = false
any_error (r ∷ rs) = is_error r || any_error rs

unfoldable pub has_errors : Processed → Bool
unfolding any_error
has_errors p = any_error (all_responses p)

unfoldable pub find_code : String → List DialogResponse → Option DialogResponse
find_code c [] = none
find_code c (r ∷ rs) = if str_eq r.code c then some r else find_code c rs

unfoldable pub get_response_by_code : Processed → String → Option DialogResponse
unfolding find_code
get_response_by_code p c = find_code c (all_responses p)

unfoldable pub find_raw_first : Processed → (Segment → Bool) → Option Segment
unfolding find_segment_first
find_raw_first p matches = elim p.raw_response [
  | none ↦ none
  | some raw ↦ find_segment_first matches raw
]

-- DialogResponse(code=…, text=…, parameters=tuple(resp.parameters) if resp.parameters else ())
abbrev pub to_response : Entry → DialogResponse
to_response e = record {
  code = e.code;
  text = e.text;
  parameters = elim e.parameters [ none ↦ [] | some ps ↦ ps ];
}

unfoldable pub to_responses : List Entry → List DialogResponse
to_responses [] = []
to_responses (e ∷ es) = to_response e ∷ to_responses es

abbrev pub is_hirmg2 : Segment → Bool
is_hirmg2 (segment h (hirmg2 es) inner) = true
is_hirmg2 _ = false

abbrev pub answers_of : Segment → List Entry
answers_of (segment h (hirmg2 es) inner) = es
answers_of (segment h (hirms2 es) inner) = es
answers_of _ = []

-- The double loop of `_extract_global_responses` and `_extract_segment_responses`.
unfoldable pub extract_responses : List Segment → List DialogResponse
unfolding to_responses
extract_responses [] = []
extract_responses (s ∷ ss) = to_responses (answers_of s) ++ extract_responses ss

abbrev pub is_hnhbk3 : Segment → Bool
is_hnhbk3 (segment h (hnhbk3 d n) inner) = true
is_hnhbk3 _ = false

abbrev pub is_hibpa3 : Segment → Bool
is_hibpa3 (segment h (hibpa3 v n) inner) = true
is_hibpa3 _ = false

abbrev pub is_hiupa4 : Segment → Bool
is_hiupa4 (segment h (hiupa4 v) inner) = true
is_hiupa4 _ = false

abbrev char_is : String → ℕ → ℕ → Bool
char_is s i c = elim (char_at? s i) [ none ↦ false | some d ↦ code d == c ]

-- len(t) == 6 and t[1] == "I" and t[5] == "S"
abbrev pub is_bpd_type : String → Bool
is_bpd_type t = elim (char_at? t 6) [ none ↦ char_is t 1 b'I' && char_is t 5 b'S' | some c ↦ false ]

unfoldable pub is_bpd_segment : Segment → Bool
is_bpd_segment s = is_bpd_type (header s).type

abbrev pub dialog_id_of : Option Segment → String
dialog_id_of (some (segment h (hnhbk3 d n) inner)) = d
dialog_id_of _ = "0"

abbrev pub message_number_of : Option Segment → ℕ
message_number_of (some (segment h (hnhbk3 d n) inner)) = n
message_number_of _ = 0

abbrev pub bpd_version_of : Option Segment → Option ℕ
bpd_version_of (some (segment h (hibpa3 v n) inner)) = some v
bpd_version_of _ = none

abbrev pub upd_version_of : Option Segment → Option ℕ
upd_version_of (some (segment h (hiupa4 v) inner)) = some v
upd_version_of _ = none

-- `ResponseProcessor.process`; BPD and UPD segments are taken only beside a HIBPA and a HIUPA.
unfoldable pub process : Segments → Processed
unfolding find_segment_first extract_responses is_bpd_segment
process response =
    let header = find_segment_first is_hnhbk3 response in
    let bpa = find_segment_first is_hibpa3 response in
    let upa = find_segment_first is_hiupa4 response in
    record {
      dialog_id = dialog_id_of header;
      message_number = message_number_of header;
      global_responses = extract_responses (find_segments is_hirmg2 response);
      segment_responses = extract_responses (find_segments is_hirms2 response);
      bpd_version = bpd_version_of bpa;
      upd_version = upd_version_of upa;
      bpd_segments = elim bpa [
        | none ↦ none
        | some s ↦ some (of_list (find_segments is_bpd_segment response))
      ];
      upd_segments = elim upa [
        | none ↦ none
        | some s ↦ some (of_list (find_segments (is_type "HIUPD") response))
      ];
      bpa = bpa;
      upa = upa;
      raw_response = some response;
    }
