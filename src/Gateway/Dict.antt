-- ===== src/Gateway/Dict.antt =====
-- A Python dictionary with text keys as the list of its entries in the order of insertion.
use geldstrom.Prelude.{
  suc, ◌≤◌, ◌≡◌, ◌≢◌, refl, sym, ap, ◌∙◌, true, false, List, [], ◌∷◌, Option, none, some, String,
  str_eq, if◌then◌else◌, length, arith, Bool-cases, inl, inr, eq_iff,
}

abbrev pub Dict : Type 0 → Type 0
Dict V = List (String × V)

-- d.get(k)
unfoldable pub find : {V : Type 0} → String → Dict V → Option V
find k [] = none
find k ((k', v) ∷ d) = let rest = find k d in if str_eq k' k then some v else rest

-- d[k] = v
unfoldable pub put : {V : Type 0} → String → V → Dict V → Dict V
put k v [] = (k, v) ∷ []
put k v ((k', w) ∷ d) = let rest = put k v d in if str_eq k' k then (k', v) ∷ d else (k', w) ∷ rest

-- d.pop(k, None)
unfoldable pub remove : {V : Type 0} → String → Dict V → Dict V
remove k [] = []
remove k ((k', w) ∷ d) = let rest = remove k d in if str_eq k' k then d else (k', w) ∷ rest

pub str_eq_refl : (k : String) → str_eq k k ≡ true
str_eq_refl k = (eq_iff k k).1 refl

pub str_eq-false : (k k' : String) → k ≢ k' → str_eq k k' ≡ false
str_eq-false k k' h = elim (Bool-cases (str_eq k k')) [
  | inl e ↦ absurd (h ((eq_iff k k').0 e))
  | inr e ↦ e
]

pub str_eq-ne : (k k' : String) → str_eq k k' ≡ false → k ≢ k'
str_eq-ne k k' h e = let t = (eq_iff k k').1 e in cc

module _ {V : Type 0} where
  -- The entry for the key, after an assignment.
  pub find-put_self : (k : String) (v : V) (d : Dict V) → find k (put k v d) ≡ some v
  unfolding find put
  find-put_self k v [] = rw (str_eq_refl k) refl
  find-put_self k v ((k', w) ∷ d) = elim (Bool-cases (str_eq k' k)) [
    | inl e ↦ simp e
    | inr e ↦ simp e (find-put_self k v d)
  ]

  pub find-put_other :
      (k k' : String) (v : V) (d : Dict V) → k ≢ k' → find k' (put k v d) ≡ find k' d
  unfolding find put
  find-put_other k k' v [] h = rw (str_eq-false k k' h) refl
  find-put_other k k' v ((j, w) ∷ d) h = elim (Bool-cases (str_eq j k)) [
    | inl e ↦
        let no_key = str_eq-false j k' (λ q. h (sym ((eq_iff j k).0 e) ∙ q)) in simp (e, no_key)
    | inr e ↦ elim (Bool-cases (str_eq j k')) [
      | inl f ↦ simp (e, f)
      | inr f ↦ simp (e, f) (find-put_other k k' v d h)
    ]
  ]

  pub find-remove_other : (k k' : String) (d : Dict V) → k ≢ k' → find k' (remove k d) ≡ find k' d
  unfolding find remove
  find-remove_other k k' [] h = refl
  find-remove_other k k' ((j, w) ∷ d) h = elim (Bool-cases (str_eq j k)) [
    | inl e ↦
        let no_key = str_eq-false j k' (λ q. h (sym ((eq_iff j k).0 e) ∙ q)) in simp (e, no_key)
    | inr e ↦ elim (Bool-cases (str_eq j k')) [
      | inl f ↦ simp (e, f)
      | inr f ↦ simp (e, f) (find-remove_other k k' d h)
    ]
  ]

  pub length-put_known :
      (k : String) (v w : V) (d : Dict V) → find k d ≡ some w → length (put k v d) ≡ length d
  unfolding find put
  length-put_known k v w [] h = cc
  length-put_known k v w ((j, u) ∷ d) h = elim (Bool-cases (str_eq j k)) [
    | inl e ↦ simp e
    | inr e ↦
        let below : find k d ≡ some w = simp e at h in
        simp e (ap suc (length-put_known k v w d below))
  ]

  pub length-put : (k : String) (v : V) (d : Dict V) → length (put k v d) ≤ suc (length d)
  unfolding put
  length-put k v [] = omega arith
  length-put k v ((j, u) ∷ d) =
      let ih = length-put k v d in
      elim (Bool-cases (str_eq j k)) [
        | inl e ↦ simp e (omega arith)
        | inr e ↦ simp e (omega (arith, ih))
      ]

  pub length-remove : (k : String) (d : Dict V) → length (remove k d) ≤ length d
  unfolding remove
  length-remove k [] = omega arith
  length-remove k ((j, u) ∷ d) =
      let ih = length-remove k d in
      elim (Bool-cases (str_eq j k)) [
        | inl e ↦ simp e (omega arith)
        | inr e ↦ simp e (omega (arith, ih))
      ]
