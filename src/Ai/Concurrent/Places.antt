-- ===== src/Ai/Concurrent/Places.antt =====
-- The places of all requests after one of them has moved.
use tech_trends.Base.{
  ℕ, zero, suc, ◌+◌, ◌≤◌, ◌<◌, ◌≡◌, ◌≢◌, refl, ap, subst, ◌⊎◌, inl, inr, Bool-cases, Bool, true,
  false, if◌then◌else◌, ◌==◌, ==_iff, arith,
}
use tech_trends.Ai.Concurrent.{Place, calling, moved}

-- What holds of the request that moved where it is now, and of the others where they were.
pub moved-All :
    (C : ℕ → Place → Type 0) (i : ℕ) (p : Place) (place : ℕ → Place)
    → C i p
    → ((j : ℕ) → i ≢ j → C j (place j))
    → (j : ℕ) → C j (moved i p place j)
moved-All C i p place own others j = at (i == j) refl
  where
    at : (b : Bool) → (i == j) ≡ b → C j (if b then p else place j)
    at true h = subst (λ k. C k p) ((==_iff i j).0 h) own
    at false h = others j (λ e. ground (arith, ==_iff i j))

abbrev pub is_call : Place → ℕ
is_call (calling since) = 1
is_call p = 0

-- How many of the first `n` requests are in the call of the model.
unfoldable pub call_count : (ℕ → Place) → ℕ → ℕ
call_count place zero = 0
call_count place (suc n) = call_count place n + is_call (place n)

call_count-beyond :
    (i : ℕ) (p : Place) (place : ℕ → Place) (n : ℕ)
    → n ≤ i
    → call_count (moved i p place) n ≡ call_count place n
unfolding call_count
call_count-beyond i p place zero h = refl
call_count-beyond i p place (suc n) h = ground (arith, call_count-beyond i p place n, ==_iff i n)

pub call_count-moved :
    (i : ℕ) (p : Place) (place : ℕ → Place) (n : ℕ)
    → i < n
    → call_count (moved i p place) n + is_call (place i) ≡ call_count place n + is_call p
unfolding call_count
call_count-moved i p place zero h = absurd (omega (arith, h))
call_count-moved i p place (suc n) h =
    ground (arith, call_count-moved i p place n, call_count-beyond i p place n, ==_iff i n)

pub call_count-ge : (place : ℕ → Place) (n i : ℕ) → i < n → is_call (place i) ≤ call_count place n
unfolding call_count
call_count-ge place zero i h = absurd (omega (arith, h))
call_count-ge place (suc n) i h = elim (Bool-cases (i == n)) [
  | inl same ↦ omega (arith, ap (λ k. is_call (place k)) ((==_iff i n).0 same))
  | inr differ ↦ omega (arith, call_count-ge place n i (ground (arith, ==_iff i n)))
]

call_cases : (p : Place) → (is_call p ≡ 0) ⊎ ((since : ℕ) × (p ≡ calling since))
call_cases (calling since) = inr (since, refl)
call_cases p = inl refl

-- When the count is positive, some request is in the call.
pub call_count-some :
    (place : ℕ → Place) (n : ℕ)
    → 0 < call_count place n
    → (i : ℕ) × (since : ℕ) × (i < n) × (place i ≡ calling since)
unfolding call_count
call_count-some place zero h = absurd (omega (arith, h))
call_count-some place (suc n) h = elim (call_cases (place n)) [
  | inr (since, e) ↦ (n, since, omega arith, e)
  | inl free ↦
      let (i, since, less, e) = call_count-some place n (omega (arith, h, free)) in
      (i, since, omega (arith, less), e)
]
