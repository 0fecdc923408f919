-- ===== src/Paging.antt =====
-- fints/operations/pagination.py: the loop of `TouchdownPaginator.fetch` over a port that sends one
-- request segment. `transform_items` is a function of the items that the loop returns.
pub mod Bounds
pub mod Bank
pub mod Complete
pub mod Requests
use geldstrom.Prelude.{
  ℕ, zero, suc, ◌+◌, Bool, true, false, ◌&&◌, List, [], ◌∷◌, ◌++◌, Option, none, some, String,
  str_eq, leb, if◌then◌else◌, Outcome, ok, raised,
}
use geldstrom.Segments.{Entry, Segment, Segments}
use geldstrom.Segments.Message.{response_segments, responses}
use geldstrom.Responses.{DialogResponse, Processed, get_response_by_code}

-- What the paginator uses of a dialog: a segment is sent with the strategy's HKTAN or without, and
-- comes back with the number that it has in its message.
pub record Port (E : Type 0) : Type 1 where
  pub State : Type 0
  pub send : Segment → State → Outcome E (Processed × ℕ) × State
  pub send_without_tan : Segment → State → Outcome E (Processed × ℕ) × State

pub record PaginatedResult (A : Type 0) : Type 0 where
  pub items : List A
  pub pages_fetched : ℕ
  pub has_more : Bool

-- The items of the segments for which `extract_items` gives one.
unfoldable pub extract_all : {A : Type 0} → (Segment → Option A) → List Segment → List A
extract_all extract [] = []
extract_all extract (s ∷ ss) =
    let rest = extract_all extract ss in elim (extract s) [ none ↦ rest | some item ↦ item ∷ rest ]

unfoldable pub extract_from_response :
    {A : Type 0} → (Segment → Bool) → (Segment → Option A) → Processed → ℕ → List A
unfolding extract_all
extract_from_response is_response extract response number = elim response.raw_response [
  | none ↦ []
  | some raw ↦ extract_all extract (response_segments raw number is_response)
]

-- The first parameter of the first entry that has one.
unfoldable pub first_parameter : List Entry → Option String
first_parameter [] = none
first_parameter (e ∷ es) =
    let rest = first_parameter es in
    elim e.parameters [ none ↦ rest | some ps ↦ elim ps [ [] ↦ rest | p ∷ more ↦ some p ] ]

unfoldable pub get_touchdown_point : Processed → ℕ → Option String
unfolding first_parameter
get_touchdown_point response number = elim response.raw_response [
  | none ↦ none
  | some raw ↦ first_parameter (responses raw number (some "3040"))
]

-- not touchdown_point
abbrev pub is_falsy : Option String → Bool
is_falsy none = true
is_falsy (some t) = str_eq t ""

-- touchdown_point is not None and page >= self._max_pages
abbrev pub more_left : ℕ → ℕ → Option String → Bool
more_left max_pages page none = false
more_left max_pages page (some t) = leb max_pages page

abbrev pub is_rejected : Processed → Bool
is_rejected response = elim (get_response_by_code response "9370") [ none ↦ false | some r ↦ true ]

module _ {E A : Type 0} (port : Port E) (segment_factory : Option String → Segment)
    (is_response : Segment → Bool) (extract : Segment → Option A) where
  open port use {State, send, send_without_tan}

  -- The answer, what is known of the bank behind it, and the state.
  abbrev pub Sent : Type 0
  Sent = Outcome E (Processed × ℕ) × Option Bool × State

  abbrev pub knowing : Option Bool → Outcome E (Processed × ℕ) × State → Sent
  knowing needs_tan (r, s) = (r, needs_tan, s)

  -- The first continuation: without HKTAN, and again with it when the bank rejects that.
  abbrev pub tried : Segment → Outcome E (Processed × ℕ) × State → Sent
  tried again (raised e, s) = (raised e, none, s)
  tried again (ok (response, number), s) =
      if is_rejected response
      then knowing (some true) (send again s)
      else (ok (response, number), some false, s)

  unfoldable pub send_page : Option String → Option Bool → State → Sent
  send_page none needs_tan s = knowing needs_tan (send (segment_factory none) s)
  send_page (some t) (some true) s = knowing (some true) (send (segment_factory (some t)) s)
  send_page (some t) (some false) s =
      knowing (some false) (send_without_tan (segment_factory (some t)) s)
  send_page (some t) none s =
      tried (segment_factory (some t)) (send_without_tan (segment_factory (some t)) s)

  abbrev pub result : ℕ → ℕ → Option String → List A → PaginatedResult A
  result max_pages page touchdown items = record {
    items = items;
    pages_fetched = page;
    has_more = more_left max_pages page touchdown;
  }

  -- What follows the request for page `page`; `rest` is the loop from there on.
  abbrev pub next_page :
      ℕ
      → ℕ
      → List A
      → (Option String → Option Bool → List A → State → Outcome E (PaginatedResult A) × State)
      → Sent
      → Outcome E (PaginatedResult A) × State
  next_page max_pages page items rest (raised e, needs_tan, s) = (raised e, s)
  next_page max_pages page items rest (ok (response, number), needs_tan, s) =
      let items' = items ++ extract_from_response is_response extract response number in
      let touchdown = get_touchdown_point response number in
      if is_falsy touchdown
      then (ok (result max_pages page touchdown items'), s)
      else rest touchdown needs_tan items' s

  -- The loop, with the rounds that `max_pages` leaves.
  unfoldable pub pages :
      ℕ
      → ℕ
      → ℕ
      → Option String
      → Option Bool
      → List A
      → State
      → Outcome E (PaginatedResult A) × State
  unfolding send_page extract_from_response get_touchdown_point
  pages max_pages zero page touchdown needs_tan items s =
      (ok (result max_pages page touchdown items), s)
  pages max_pages (suc rounds) page touchdown needs_tan items s =
      next_page max_pages (page + 1) items (pages max_pages rounds (page + 1))
        (send_page touchdown needs_tan s)

  unfoldable pub fetch : ℕ → Option String → State → Outcome E (PaginatedResult A) × State
  unfolding pages
  fetch max_pages initial_touchdown s = pages max_pages max_pages 0 initial_touchdown none [] s
