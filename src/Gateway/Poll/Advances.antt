-- ===== src/Gateway/Poll/Advances.antt =====
-- What may become of a session by polls.
use geldstrom.Prelude.{
  ℕ, ◌+◌, ◌≤◌, ◌≡◌, ◌≢◌, ◌⊎◌, refl, sym, ap, ◌∙◌, true, false, Option, none, some, arith, inl, inr,
}
use geldstrom.Gateway.{PendingOperationSession, expired, is_pending}

-- A session may become this one: it belongs to the same consumer, operation and time, it was pending if
-- it is not the same session, its state is not then EXPIRED, and its time runs at most to the limit.
unfoldable pub Advances : ℕ → PendingOperationSession → PendingOperationSession → Type 0
Advances ttl s s' =
    (s'.operation_id ≡ s.operation_id)
    × (s'.consumer_id ≡ s.consumer_id)
    × (s'.operation_type ≡ s.operation_type)
    × (s'.created_at ≡ s.created_at)
    × ((s' ≡ s) ⊎ ((is_pending s.status ≡ true) × (s'.status ≢ expired)))
    × ((s'.expires_at ≡ s.expires_at) ⊎ (s'.expires_at ≤ s.created_at + ttl))

abbrev pub AdvancesAt : ℕ → Option PendingOperationSession → Option PendingOperationSession → Type 0
AdvancesAt ttl none none = Unit
AdvancesAt ttl (some s) (some s') = Advances ttl s s'
AdvancesAt ttl _ _ = ⊥

pub Advances-refl : (ttl : ℕ) (s : PendingOperationSession) → Advances ttl s s
unfolding Advances
Advances-refl ttl s = (refl, refl, refl, refl, inl refl, inl refl)

pub Advances-trans :
    (ttl : ℕ) (s t u : PendingOperationSession)
    → Advances ttl s t
    → Advances ttl t u
    → Advances ttl s u
unfolding Advances
Advances-trans ttl s t u (a, b, c, d, e, f) (a', b', c', d', e', f') = (
  a' ∙ a,
  b' ∙ b,
  c' ∙ c,
  d' ∙ d,
  elim e' [
    | inl same ↦ (elim e [ inl same' ↦ inl (same ∙ same') | inr (p, q) ↦ inr (p, rw same q) ])
    | inr (p', q') ↦ (elim e [ inl same' ↦ inr (rw (sym same') p', q') | inr (p, q) ↦ inr (p, q') ])
  ],
  elim f' [
    | inl same ↦ (elim f [
      | inl same' ↦ inl (same ∙ same')
      | inr below ↦ inr (omega (arith, same, below))
    ])
    | inr below ↦ inr (omega (arith, below, d))
  ],
)

pub AdvancesAt-refl : (ttl : ℕ) (o : Option PendingOperationSession) → AdvancesAt ttl o o
AdvancesAt-refl ttl none = tt
AdvancesAt-refl ttl (some s) = Advances-refl ttl s

pub AdvancesAt-trans :
    (ttl : ℕ) (a b c : Option PendingOperationSession)
    → AdvancesAt ttl a b
    → AdvancesAt ttl b c
    → AdvancesAt ttl a c
AdvancesAt-trans ttl none none none h k = tt
AdvancesAt-trans ttl (some a) (some b) (some c) h k = Advances-trans ttl a b c h k
AdvancesAt-trans ttl none (some b) c h k = absurd h
AdvancesAt-trans ttl (some a) none c h k = absurd h
AdvancesAt-trans ttl none none (some c) h k = absurd k
AdvancesAt-trans ttl (some a) (some b) none h k = absurd k

-- A session that was there and final is there as it was.
pub AdvancesAt-final :
    (ttl : ℕ) (s : PendingOperationSession) (o : Option PendingOperationSession)
    → is_pending s.status ≡ false
    → AdvancesAt ttl (some s) o
    → o ≡ some s
unfolding Advances
AdvancesAt-final ttl s none f h = absurd h
AdvancesAt-final ttl s (some t) f (a, b, c, d, inl same, e) = ap some same
AdvancesAt-final ttl s (some t) f (a, b, c, d, inr (p, q), e) = cc
