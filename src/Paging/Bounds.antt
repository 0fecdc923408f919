-- ===== src/Paging/Bounds.antt =====
-- How many pages the paginator fetches, whatever the bank answers.
use geldstrom.Prelude.{
  ℕ, zero, suc, ◌+◌, ◌≤◌, ◌≡◌, Bool, true, List, [], ◌++◌, Option, none, some, String, Outcome, ok,
  raised, arith, Bool-cases, inl, inr,
}
use geldstrom.Segments.{Segment}
use geldstrom.Paging.{
  Port, PaginatedResult, Sent, next_page, pages, fetch, result, is_falsy, extract_from_response,
  get_touchdown_point,
}

-- Of a result: its pages are at most the limit, and are the limit where more is left.
pub WithinLimit : {E A S : Type 0} → ℕ → Outcome E (PaginatedResult A) × S → Type 0
WithinLimit max_pages (raised e, s) = Unit
WithinLimit max_pages (ok r, s) =
    (r.pages_fetched ≤ max_pages) × (r.has_more ≡ true → r.pages_fetched ≡ max_pages)

module _ {E A : Type 0} (port : Port E) (segment_factory : Option String → Segment)
    (is_response : Segment → Bool) (extract : Segment → Option A) where
  open port use {State}

  result-WithinLimit :
      (max_pages page : ℕ) (touchdown : Option String) (items : List A) (s : State)
      → page ≤ max_pages
      → WithinLimit {E = E} max_pages
          (ok (result port segment_factory is_response extract max_pages page touchdown items), s)
  unfolding WithinLimit
  result-WithinLimit max_pages page none items s h = (h, λ e. cc e)
  result-WithinLimit max_pages page (some t) items s h = (h, λ e. ground arith)

  next_page-WithinLimit :
      (max_pages page : ℕ) (items : List A)
      (rest : Option String → Option Bool → List A → State → Outcome E (PaginatedResult A) × State)
      (sent : Sent port segment_factory is_response extract)
      → page ≤ max_pages
      → ((t : Option String) (n : Option Bool) (i : List A) (s : State)
          → WithinLimit max_pages (rest t n i s))
      → WithinLimit max_pages
          (next_page port segment_factory is_response extract max_pages page items rest sent)
  unfolding WithinLimit
  next_page-WithinLimit max_pages page items rest (raised e, n, s) h k = tt
  next_page-WithinLimit max_pages page items rest (ok (response, number), n, s) h k =
      elim (Bool-cases (is_falsy (get_touchdown_point response number))) [
        | inl f ↦ rw f (
            result-WithinLimit max_pages page (get_touchdown_point response number)
              (items ++ extract_from_response is_response extract response number) s h)
        | inr f ↦ rw f (k _ _ _ _)
      ]

  pages-WithinLimit :
      (max_pages rounds page : ℕ) (t : Option String) (n : Option Bool) (items : List A) (s : State)
      → page + rounds ≤ max_pages
      → WithinLimit max_pages
          (pages port segment_factory is_response extract max_pages rounds page t n items s)
  unfolding pages
  pages-WithinLimit max_pages zero page t n items s h =
      result-WithinLimit max_pages page t items s (omega arith)
  pages-WithinLimit max_pages (suc rounds) page t n items s h =
      next_page-WithinLimit max_pages (page + 1) items _ _ (omega arith)
        (λ t' n' i' s'. pages-WithinLimit max_pages rounds (page + 1) t' n' i' s' (omega arith))

  -- Whatever the bank answers, a fetch that returns has fetched at most `max_pages` pages, and has
  -- fetched exactly as many where it says that there is more.
  pub fetch-WithinLimit :
      (max_pages : ℕ) (initial_touchdown : Option String) (s : State)
      → WithinLimit max_pages
          (fetch port segment_factory is_response extract max_pages initial_touchdown s)
  unfolding fetch
  fetch-WithinLimit max_pages initial_touchdown s =
      pages-WithinLimit max_pages max_pages 0 initial_touchdown none [] s (omega arith)
