-- ===== src/Paging/Complete.antt =====
-- The paginator fetches what a bank serves, page after page, and stops where the bank or the limit says.
use geldstrom.Prelude.{
  ℕ, zero, suc, ◌+◌, ◌≡◌, refl, sym, Bool, true, false, List, [], ◌∷◌, ◌++◌, append_assoc,
  append-nil, Option, none, some, String, str_eq, ltb, length, take, Outcome, ok, raised, arith,
  ◌≢◌, Bool-cases, inl, inr, eq_iff,
}
use geldstrom.Segments.{Segment}
use geldstrom.Responses.{Processed}
use geldstrom.Paging.{
  Port, PaginatedResult, Sent, send_page, next_page, pages, fetch, knowing, tried,
}
use geldstrom.Paging.Bank.{Bank, Delivers, Rejects, Accepts}

abbrev pub concat : {A : Type 0} → List (List A) → List A
concat [] = []
concat (xs ∷ xss) = xs ++ concat xss

-- The result of fetching `rounds` more of the pages that are left.
abbrev pub expected : {A : Type 0} → ℕ → ℕ → List A → List (List A) → PaginatedResult A
expected rounds page items rest = record {
  items = items ++ concat (take rounds rest);
  pages_fetched = page + length (take rounds rest);
  has_more = ltb rounds (length rest);
}

-- The fetch returns, and with this result.
abbrev pub Returns :
    {E A S : Type 0} → Outcome E (PaginatedResult A) × S → PaginatedResult A → Type 0
Returns (raised e, s) r = ⊥
Returns (ok r', s) r = r' ≡ r

take-nil : {A : Type 0} (n : ℕ) → take {A = A} n [] ≡ []
take-nil zero = refl
take-nil (suc n) = refl

result-eq :
    {A : Type 0} {xs ys : List A} {m n : ℕ} {b c : Bool}
    → xs ≡ ys
    → m ≡ n
    → b ≡ c
    → ◌≡◌ {A = PaginatedResult A}
        (record { items = xs; pages_fetched = m; has_more = b })
        (record { items = ys; pages_fetched = n; has_more = c })
result-eq h k l = rw h (rw k (rw l refl))

expected-suc :
    {A : Type 0} (rounds page : ℕ) (items p : List A) (rest : List (List A))
    → expected rounds (page + 1) (items ++ p) rest ≡ expected (suc rounds) page items (p ∷ rest)
expected-suc rounds page items p rest =
    result-eq (append_assoc items p _) (omega arith) (ground arith)

not_empty : (t : String) → t ≢ "" → str_eq t "" ≡ false
not_empty t h = elim (Bool-cases (str_eq t "")) [
  | inl e ↦ absurd (h ((eq_iff _ _).0 e))
  | inr e ↦ e
]

module _ {E A : Type 0} (port : Port E) (segment_factory : Option String → Segment)
    (is_response : Segment → Bool) (extract : Segment → Option A)
    (bank : Bank port segment_factory is_response extract) where
  open port use {State, send, send_without_tan}
  open bank use {Ready, needs_tan, serves_first, serves_with_tan, rejects, serves_without_tan}

  abbrev run_pages :
      ℕ
      → ℕ
      → ℕ
      → Option String
      → Option Bool
      → List A
      → State
      → Outcome E (PaginatedResult A) × State
  run_pages = pages port segment_factory is_response extract

  abbrev follow :
      ℕ
      → ℕ
      → ℕ
      → List A
      → Sent port segment_factory is_response extract
      → Outcome E (PaginatedResult A) × State
  follow max_pages rounds page items =
      next_page port segment_factory is_response extract max_pages page items
        (run_pages max_pages rounds page)

  -- What the paginator has learned is true of the bank.
  abbrev Knows : Option Bool → Type 0
  Knows none = Unit
  Knows (some b) = needs_tan ≡ b

  -- From a continuation on, the loop returns what is left of the pages.
  Continues : ℕ → ℕ → ℕ → Type 0
  Continues max_pages rounds page =
      (t : String) (p : List A) (ps : List (List A)) (n : Option Bool) (items : List A) (s : State)
      → Ready (some t) (p ∷ ps) s
      → Knows n
      → Returns (run_pages max_pages rounds page (some t) n items s)
          (expected rounds page items (p ∷ ps))

  follow-Returns :
      (max_pages rounds page : ℕ) (p : List A) (ps : List (List A)) (n : Option Bool)
      (items : List A) (out : Outcome E (Processed × ℕ) × State)
      → Continues max_pages rounds page
      → Knows n
      → Delivers port segment_factory is_response extract Ready p ps out
      → Returns
          (follow max_pages rounds page items
            (knowing port segment_factory is_response extract n out))
          (expected rounds page (items ++ p) ps)
  unfolding Continues
  follow-Returns max_pages rounds page p [] n items (ok (response, number), s) continue' known
        (carried, stop) =
      rw stop (
        rw carried
          (rw (take-nil rounds) (result-eq (sym (append-nil _)) (omega arith) (ground arith))))
  follow-Returns max_pages rounds page p (q ∷ ps) n items (ok (response, number), s) continue' known
        (carried, (t, e, nonempty, ready)) =
      rw e (rw (not_empty t nonempty) (rw carried (continue' t q ps n (items ++ p) s ready known)))
  follow-Returns max_pages rounds page p ps n items (raised e, s) continue' known h = absurd h

  tried-rejected :
      (R : State → Type 0) (again : Segment) (out : Outcome E (Processed × ℕ) × State)
      → Rejects port segment_factory is_response extract R out
      → (tried port segment_factory is_response extract again out
          ≡ knowing port segment_factory is_response extract (some true) (send again out.1))
        × R out.1
  tried-rejected R again (ok (response, number), s) (unwanted, r) = (rw unwanted refl, r)
  tried-rejected R again (raised e, s) h = absurd h

  tried-accepted :
      (again : Segment) (out : Outcome E (Processed × ℕ) × State)
      → Accepts port segment_factory is_response extract out
      → tried port segment_factory is_response extract again out
        ≡ knowing port segment_factory is_response extract (some false) out
  tried-accepted again (ok (response, number), s) wanted = rw wanted refl
  tried-accepted again (raised e, s) h = absurd h

  pages-Continues :
      (max_pages rounds page : ℕ) → page + rounds ≡ max_pages → Continues max_pages rounds page
  unfolding Continues pages send_page
  pages-Continues max_pages zero page h t p ps n items s ready known =
      result-eq (sym (append-nil _)) (omega arith) (ground arith)
  pages-Continues max_pages (suc rounds) page h t p ps (some true) items s ready known =
      rw (sym (expected-suc rounds page items p ps)) (
        follow-Returns max_pages rounds (page + 1) p ps (some true) items _
          (pages-Continues max_pages rounds (page + 1) (omega arith)) known
          (serves_with_tan t p ps s known ready))
  pages-Continues max_pages (suc rounds) page h t p ps (some false) items s ready known =
      rw (sym (expected-suc rounds page items p ps)) (
        follow-Returns max_pages rounds (page + 1) p ps (some false) items _
          (pages-Continues max_pages rounds (page + 1) (omega arith)) known
          (serves_without_tan t p ps s known ready).0)
  pages-Continues max_pages (suc rounds) page h t p ps none items s ready known =
      elim (Bool-cases needs_tan) [
        | inl wanted ↦
            let (e, ready') =
              tried-rejected (Ready (some t) (p ∷ ps)) (segment_factory (some t)) _
                (rejects t (p ∷ ps) s wanted ready) in
            rw (sym (expected-suc rounds page items p ps)) (
              rw e (
                follow-Returns max_pages rounds (page + 1) p ps (some true) items _
                  (pages-Continues max_pages rounds (page + 1) (omega arith)) wanted
                  (serves_with_tan t p ps _ wanted ready')))
        | inr unwanted ↦
            let (delivers, accepts) = serves_without_tan t p ps s unwanted ready in
            let e = tried-accepted (segment_factory (some t)) _ accepts in
            rw (sym (expected-suc rounds page items p ps)) (
              rw e (
                follow-Returns max_pages rounds (page + 1) p ps (some false) items _
                  (pages-Continues max_pages rounds (page + 1) (omega arith)) unwanted delivers))
      ]

  -- From a state in which the bank is ready with at least one page, a fetch with a limit of at least
  -- one returns; its items are those of the pages up to the limit, in order, it counts these pages,
  -- and it says that there is more where the bank has more pages than the limit. That holds for a
  -- bank that wants HKTAN on continuations and for one that does not.
  pub fetch_complete :
      (limit : ℕ) (p : List A) (ps : List (List A)) (s : State)
      → Ready none (p ∷ ps) s
      → Returns
          (fetch port segment_factory is_response extract (suc limit) none s)
          (expected (suc limit) 0 [] (p ∷ ps))
  unfolding fetch pages send_page
  fetch_complete limit p ps s ready = rw (sym (expected-suc limit 0 [] p ps)) (
      follow-Returns (suc limit) limit 1 p ps none [] _
        (pages-Continues (suc limit) limit 1 (omega arith)) tt (serves_first p ps s ready))
