-- ===== src/Tests/Pages.antt =====
-- A bank that serves two pages, the second without HKTAN, and the paginator on it.
use geldstrom.Prelude.{
  ◌≡◌, ◌≢◌, refl, sym, Bool, true, false, List, [], ◌∷◌, Option, none, some, String, ok,
}
use geldstrom.Segments.{Segment, segment, of_list, other, hirms2, is_type, find_in, find_segments}
use geldstrom.Segments.Message.{
  referring, response_segments, with_code, entries_with_code, responses,
}
use geldstrom.Responses.{
  Processed, process, get_response_by_code, find_code, extract_responses, to_responses,
}
use geldstrom.Dialog.Envelope.{plain_segment}
use geldstrom.Paging.{
  Port, fetch, extract_from_response, extract_all, get_touchdown_point, first_parameter,
}
use geldstrom.Paging.Bank.{Bank, Delivers, Accepts}
use geldstrom.Paging.Bounds.{WithinLimit, fetch-WithinLimit}
use geldstrom.Paging.Complete.{Returns, expected, fetch_complete}
use geldstrom.Tests.Client

abbrev answering : String → Segment → Segment
answering type (segment h b inner) = segment (record h { type = type; reference = some 3 }) b inner

abbrev page_of : String → Segment
page_of name = answering "HICAZ" (plain_segment "HICAZ" 1 (other (some name)))

abbrev more_at : String → Segment
more_at t = answering "HIRMS" (
    plain_segment "HIRMS" 2
      (hirms2 (record { code = "3040"; text = "more"; parameters = some (t ∷ []) } ∷ [])))

abbrev first_answer : Processed
first_answer = process (of_list (more_at "t1" ∷ page_of "p1" ∷ []))

abbrev second_answer : Processed
second_answer = process (of_list (page_of "p2" ∷ []))

-- The state tells whether the first page is out.
abbrev a_port : Port String
a_port = record {
  State = Bool;
  send = λ request s. (ok (first_answer, 3), true);
  send_without_tan = λ request s. (ok (second_answer, 3), true);
}

abbrev a_request : Option String → Segment
a_request t = plain_segment "HKCAZ" 1 (other t)

abbrev content : Segment → Option String
content (segment h (other c) inner) = c
content _ = none

abbrev is_page : Segment → Bool
is_page = is_type "HICAZ"

abbrev IsReady : Option String → List (List String) → Bool → Type 0
IsReady none (p ∷ q ∷ []) false = (p ≡ "p1" ∷ []) × (q ≡ "p2" ∷ [])
IsReady (some t) (p ∷ []) true = p ≡ "p2" ∷ []
IsReady _ _ _ = ⊥

serves_first_page :
    (page : List String) (rest : List (List String)) (s : Bool)
    → IsReady none (page ∷ rest) s
    → Delivers a_port a_request is_page content IsReady page rest (ok (first_answer, 3), true)
unfolding extract_from_response extract_all get_touchdown_point first_parameter response_segments
    responses referring with_code entries_with_code find_in find_segments process
serves_first_page page (q ∷ []) false (p1, p2) = (sym p1, ("t1", refl, (λ e. cc e), p2))
serves_first_page page [] s h = absurd h
serves_first_page page (q ∷ []) true h = absurd h
serves_first_page page (q ∷ r ∷ rs) s h = absurd h

serves_second_page :
    (t : String) (page : List String) (rest : List (List String)) (s : Bool)
    → IsReady (some t) (page ∷ rest) s
    → Delivers a_port a_request is_page content IsReady page rest (ok (second_answer, 3), true)
      × Accepts a_port a_request is_page content (ok (second_answer, 3), true)
unfolding extract_from_response extract_all get_touchdown_point first_parameter response_segments
    responses referring with_code entries_with_code find_in find_segments process
    get_response_by_code find_code extract_responses to_responses
serves_second_page t page [] true h = ((sym h, refl), refl)
serves_second_page t page [] false h = absurd h
serves_second_page t page (q ∷ rs) s h = absurd h

false_ne_true : false ≢ true
false_ne_true = λ e. cc e

abbrev a_bank : Bank a_port a_request is_page content
a_bank = record {
  Ready = IsReady;
  needs_tan = false;
  serves_first = serves_first_page;
  serves_with_tan = λ t page rest s e h. absurd (false_ne_true e);
  rejects = λ t pages s e h. absurd (false_ne_true e);
  serves_without_tan = λ t page rest s e h. serves_second_page t page rest s h;
}

fetch_complete_example :
    Returns
      (fetch a_port a_request is_page content 2 none false)
      (expected 2 0 [] (("p1" ∷ []) ∷ ("p2" ∷ []) ∷ []))
fetch_complete_example =
    fetch_complete a_port a_request is_page content a_bank 1 ("p1" ∷ []) (("p2" ∷ []) ∷ []) false
      (refl, refl)

fetch-WithinLimit_example : WithinLimit 2 (fetch a_port a_request is_page content 2 none false)
fetch-WithinLimit_example = fetch-WithinLimit a_port a_request is_page content 2 none false
