-- ===== src/Paging/Bank.antt =====
-- What the paginator expects of a bank that serves a list of pages: an interface of its states and laws.
use geldstrom.Prelude.{
  ℕ, ◌≡◌, ◌≢◌, Bool, true, false, List, [], ◌∷◌, Option, none, some, String, Outcome, ok, raised,
}
use geldstrom.Segments.{Segment}
use geldstrom.Responses.{Processed}
use geldstrom.Paging.{Port, extract_from_response, get_touchdown_point, is_rejected}

-- The answer holds one page, and a touchdown point for the rest where there is a rest.
abbrev pub Next : {S : Type 0} → (Option String → S → Type 0) → Bool → Option String → S → Type 0
Next ready true touchdown s = touchdown ≡ none
Next ready false touchdown s = (t : String) × (touchdown ≡ some t) × (t ≢ "") × ready (some t) s

abbrev pub is_empty : {A : Type 0} → List A → Bool
is_empty [] = true
is_empty (x ∷ xs) = false

module _ {E A : Type 0} (port : Port E) (segment_factory : Option String → Segment)
    (is_response : Segment → Bool) (extract : Segment → Option A) where
  open port use {State, send, send_without_tan}

  -- This page is delivered, and the bank is ready for the rest.
  abbrev pub Delivers :
      (Option String → List (List A) → State → Type 0)
      → List A
      → List (List A)
      → Outcome E (Processed × ℕ) × State
      → Type 0
  Delivers ready page rest (raised e, s) = ⊥
  Delivers ready page rest (ok (response, number), s) =
      (extract_from_response is_response extract response number ≡ page)
      × Next (λ t. ready t rest) (is_empty rest) (get_touchdown_point response number) s

  abbrev pub Accepts : Outcome E (Processed × ℕ) × State → Type 0
  Accepts (raised e, s) = ⊥
  Accepts (ok (response, number), s) = is_rejected response ≡ false

  abbrev pub Rejects : (State → Type 0) → Outcome E (Processed × ℕ) × State → Type 0
  Rejects ready (raised e, s) = ⊥
  Rejects ready (ok (response, number), s) = (is_rejected response ≡ true) × ready s

  -- A bank that wants HKTAN on a continuation and rejects it with 9370 otherwise, or one that serves
  -- a continuation without it. `Ready t ps s`: in state `s`, the pages from touchdown `t` on are `ps`.
  pub record Bank : Type 1 where
    pub Ready : Option String → List (List A) → State → Type 0
    pub needs_tan : Bool
    pub serves_first :
        (page : List A) (rest : List (List A)) (s : State)
        → Ready none (page ∷ rest) s
        → Delivers Ready page rest (send (segment_factory none) s)
    pub serves_with_tan :
        (t : String) (page : List A) (rest : List (List A)) (s : State)
        → needs_tan ≡ true
        → Ready (some t) (page ∷ rest) s
        → Delivers Ready page rest (send (segment_factory (some t)) s)
    pub rejects :
        (t : String) (pages : List (List A)) (s : State)
        → needs_tan ≡ true
        → Ready (some t) pages s
        → Rejects (Ready (some t) pages) (send_without_tan (segment_factory (some t)) s)
    pub serves_without_tan :
        (t : String) (page : List A) (rest : List (List A)) (s : State)
        → needs_tan ≡ false
        → Ready (some t) (page ∷ rest) s
        → Delivers Ready page rest (send_without_tan (segment_factory (some t)) s)
          × Accepts (send_without_tan (segment_factory (some t)) s)
