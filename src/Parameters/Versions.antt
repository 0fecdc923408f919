-- ===== src/Parameters/Versions.antt =====
-- Parameter data never go back to an older version.
use geldstrom.Prelude.{
  ℕ, ◌≤◌, ◌≡◌, ◌⊎◌, inl, inr, refl, Option, none, some, List, [], ◌∷◌, arith, Bool-cases, leb, ◌∙◌,
}
use geldstrom.Segments.{Segment, Segments}
use geldstrom.Responses.{Processed}
use geldstrom.Parameters.{
  BankParameters, UserParameters, ParameterStore, bank_name_of, update_bpd, update_upd,
  update_from_response,
}

-- The store after the responses of a dialog, in the order in which they arrive.
unfoldable pub update_all : ParameterStore → List Processed → ParameterStore
update_all store [] = store
update_all store (p ∷ ps) = update_all (update_from_response store p) ps

-- A version that a response brings with its segments is at most `n`.
abbrev pub AtMost : ℕ → Option ℕ → Option Segments → Type 0
AtMost n (some v) (some ss) = v ≤ n
AtMost n _ _ = Unit

abbrev pub OffersAtMost : ParameterStore → List Processed → Type 0
OffersAtMost store [] = Unit
OffersAtMost store (p ∷ ps) =
    AtMost store.bpd.version p.bpd_version p.bpd_segments
    × AtMost store.upd.version p.upd_version p.upd_segments
    × OffersAtMost store ps

-- Some response brings these parameter data: the version, its segments and their BPA or UPA, and the
-- name of the bank is that of the BPA.
abbrev pub BringsBpd : BankParameters → List Processed → Type 0
BringsBpd b [] = ⊥
BringsBpd b (p ∷ ps) =
    ((p.bpd_version ≡ some b.version)
      × (p.bpd_segments ≡ some b.segments)
      × (p.bpa ≡ b.bpa)
      × (bank_name_of p.bpa ≡ b.bank_name))
    ⊎ BringsBpd b ps

abbrev pub BringsUpd : UserParameters → List Processed → Type 0
BringsUpd b [] = ⊥
BringsUpd b (p ∷ ps) =
    ((p.upd_version ≡ some b.version) × (p.upd_segments ≡ some b.segments) × (p.upa ≡ b.upa))
    ⊎ BringsUpd b ps

bpd_grows :
    (b : BankParameters) (bpa : Option Segment) (v : Option ℕ) (ss : Option Segments)
    → (b.version ≤ (update_bpd b bpa v ss).version) × AtMost (update_bpd b bpa v ss).version v ss
unfolding update_bpd
bpd_grows b bpa none ss = (omega arith, tt)
bpd_grows b bpa (some v) none = (omega arith, tt)
bpd_grows b bpa (some v) (some ss) = (ground arith, ground arith)

upd_grows :
    (b : UserParameters) (upa : Option Segment) (v : Option ℕ) (ss : Option Segments)
    → (b.version ≤ (update_upd b upa v ss).version) × AtMost (update_upd b upa v ss).version v ss
unfolding update_upd
upd_grows b upa none ss = (omega arith, tt)
upd_grows b upa (some v) none = (omega arith, tt)
upd_grows b upa (some v) (some ss) = (ground arith, ground arith)

AtMost-le : (n m : ℕ) (v : Option ℕ) (ss : Option Segments) → n ≤ m → AtMost n v ss → AtMost m v ss
AtMost-le n m none ss h k = tt
AtMost-le n m (some v) none h k = tt
AtMost-le n m (some v) (some ss) h k = omega arith

bpd_source :
    (b : BankParameters) (bpa : Option Segment) (v : Option ℕ) (ss : Option Segments)
    → (update_bpd b bpa v ss ≡ b)
      ⊎ ((v ≡ some (update_bpd b bpa v ss).version)
          × (ss ≡ some (update_bpd b bpa v ss).segments)
          × (bpa ≡ (update_bpd b bpa v ss).bpa)
          × (bank_name_of bpa ≡ (update_bpd b bpa v ss).bank_name))
unfolding update_bpd
bpd_source b bpa none ss = inl refl
bpd_source b bpa (some v) none = inl refl
bpd_source b bpa (some v) (some ss) = elim (Bool-cases (leb b.version v)) [
  | inl newer ↦ rw newer (inr (refl, refl, refl, refl))
  | inr older ↦ rw older (inl refl)
]

upd_source :
    (b : UserParameters) (upa : Option Segment) (v : Option ℕ) (ss : Option Segments)
    → (update_upd b upa v ss ≡ b)
      ⊎ ((v ≡ some (update_upd b upa v ss).version)
          × (ss ≡ some (update_upd b upa v ss).segments)
          × (upa ≡ (update_upd b upa v ss).upa))
unfolding update_upd
upd_source b upa none ss = inl refl
upd_source b upa (some v) none = inl refl
upd_source b upa (some v) (some ss) = elim (Bool-cases (leb b.version v)) [
  | inl newer ↦ rw newer (inr (refl, refl, refl))
  | inr older ↦ rw older (inl refl)
]

update_all_grows :
    (store : ParameterStore) (ps : List Processed)
    → (store.bpd.version ≤ (update_all store ps).bpd.version)
      × (store.upd.version ≤ (update_all store ps).upd.version)
      × OffersAtMost (update_all store ps) ps
unfolding update_all update_from_response
update_all_grows store [] = (omega arith, omega arith, tt)
update_all_grows store (p ∷ ps) =
    let (b, u, rest) = update_all_grows (update_from_response store p) ps in
    let (bg, ba) = bpd_grows store.bpd p.bpa p.bpd_version p.bpd_segments in
    let (ug, ua) = upd_grows store.upd p.upa p.upd_version p.upd_segments in
    (
      omega arith,
      omega arith,
      (
        AtMost-le _ _ p.bpd_version p.bpd_segments b ba,
        AtMost-le _ _ p.upd_version p.upd_segments u ua,
        rest,
      ),
    )

update_all_source :
    (store : ParameterStore) (ps : List Processed)
    → (((update_all store ps).bpd ≡ store.bpd) ⊎ BringsBpd (update_all store ps).bpd ps)
      × (((update_all store ps).upd ≡ store.upd) ⊎ BringsUpd (update_all store ps).upd ps)
unfolding update_all update_from_response
update_all_source store [] = (inl refl, inl refl)
update_all_source store (p ∷ ps) =
    let (b, u) = update_all_source (update_from_response store p) ps in
    (
      elim b [
        | inr later ↦ inr (inr later)
        | inl same ↦ elim (bpd_source store.bpd p.bpa p.bpd_version p.bpd_segments) [
          | inl kept ↦ inl (same ∙ kept)
          | inr new ↦ inr (inl (rw same new))
        ]
      ],
      elim u [
        | inr later ↦ inr (inr later)
        | inl same ↦ elim (upd_source store.upd p.upa p.upd_version p.upd_segments) [
          | inl kept ↦ inl (same ∙ kept)
          | inr new ↦ inr (inl (rw same new))
        ]
      ],
    )

-- After any responses, the bank's and the user's parameter data are those held before or those that
-- one of the responses brought, version, segments, BPA or UPA, and the bank's name together; and neither those held before nor any that a response brought with
-- its segments has a higher version.
pub update_all_newest :
    (store : ParameterStore) (ps : List Processed)
    → (((update_all store ps).bpd ≡ store.bpd) ⊎ BringsBpd (update_all store ps).bpd ps)
      × (((update_all store ps).upd ≡ store.upd) ⊎ BringsUpd (update_all store ps).upd ps)
      × (store.bpd.version ≤ (update_all store ps).bpd.version)
      × (store.upd.version ≤ (update_all store ps).upd.version)
      × OffersAtMost (update_all store ps) ps
update_all_newest store ps =
    let (b, u) = update_all_source store ps in
    let (bg, ug, offers) = update_all_grows store ps in (b, u, bg, ug, offers)
