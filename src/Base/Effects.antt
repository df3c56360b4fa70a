-- ===== src/Base/Effects.antt =====
-- Results and effects: a promise that may reject, over the state that it may change.
use mathlib.Core.Path.{◌≡◌, refl, sym, subst}
use mathlib.Core.Logic.{◌⊎◌, inl, inr}

pub data Result {ℓ κ} (E : Type ℓ) (A : Type κ) : Type (ℓ ⊔ κ) where
  ok : A → Result E A
  err : E → Result E A

-- The state comes back after a rejection too: what was written stays written.
abbrev pub Action : Type 0 → Type 0 → Type 0 → Type 0
Action S E A = S → Result E A × S

module _ {S E A : Type 0} where
  abbrev pub pure : A → Action S E A
  pure a s = (ok a, s)

  abbrev pub throw : E → Action S E A
  throw e s = (err e, s)

infixl 5 ◌>>=◌ ◌>>◌
abbrev pub ◌>>=◌ : {S E A B : Type 0} → Action S E A → (A → Action S E B) → Action S E B
◌>>=◌ m f s = let (r, s') = m s in elim r [ ok a ↦ f a s' | err e ↦ (err e, s') ]

abbrev pub ◌>>◌ : {S E B : Type 0} → Action S E (Unit {0}) → Action S E B → Action S E B
m >> k = m >>= λ _. k

module _ {ℓ κ} {E : Type ℓ} {A : Type κ} where
  pub ok_injective : {a b : A} → ◌≡◌ {A = Result E A} (ok a) (ok b) → a ≡ b
  ok_injective p = cc

  pub err_injective : {a b : E} → ◌≡◌ {A = Result E A} (err a) (err b) → a ≡ b
  err_injective p = cc

  pub err-ne-ok : {a : A} {e : E} → ¬ (◌≡◌ {A = Result E A} (err e) (ok a))
  err-ne-ok p = cc

-- What a call's outcome is, whatever the state before it.
pub Result-cases {ℓ κ} :
    {E : Type ℓ} {A : Type κ} (r : Result E A) → ((a : A) × (r ≡ ok a)) ⊎ ((e : E) × (r ≡ err e))
Result-cases (ok a) = inl (a, refl)
Result-cases (err e) = inr (e, refl)

module _ {S E A : Type 0} where
  -- What holds of the result and the state after a call that succeeds, and after one that rejects.
  pub record Post (Q : A → S → Type 0) (R : E → S → Type 0) (o : Result E A × S) : Type 0 where
    pub on_ok : (a : A) → o.0 ≡ ok a → Q a o.1
    pub on_err : (e : E) → o.0 ≡ err e → R e o.1

  pub Post-ok :
      {Q : A → S → Type 0} {R : E → S → Type 0} {a : A} {s : S} → Q a s → Post Q R (ok a, s)
  Post-ok {Q} {s} q = record {
    on_ok = λ b e. subst (λ c. Q c s) (ok_injective e) q;
    on_err = λ e h. absurd (cc);
  }

  pub Post-err :
      {Q : A → S → Type 0} {R : E → S → Type 0} {e : E} {s : S} → R e s → Post Q R (err e, s)
  Post-err {R} {s} r = record {
    on_ok = λ b e. absurd (cc);
    on_err = λ e h. subst (λ c. R c s) (err_injective h) r;
  }

  -- A fact about the state alone.
  pub Post_always : {Q : S → Type 0} {o : Result E A × S} → Q o.1 → Post (λ _ t. Q t) (λ _ t. Q t) o
  Post_always q = record { on_ok = λ a e. q; on_err = λ e h. q }

  pub Post-map :
      {Q Q' : A → S → Type 0} {R R' : E → S → Type 0} {o : Result E A × S}
      → Post Q R o
      → ((a : A) (t : S) → Q a t → Q' a t)
      → ((e : E) (t : S) → R e t → R' e t)
      → Post Q' R' o
  Post-map {o} h f g = record {
    on_ok = λ a e. f a o.1 (h.on_ok a e);
    on_err = λ e p. g e o.1 (h.on_err e p);
  }

-- The rule for a sequence: the first part establishes what the second needs.
pub Post->>= :
    {S E A B : Type 0} {P : A → S → Type 0} {Q : B → S → Type 0} {R : E → S → Type 0}
    (m : Action S E A) (f : A → Action S E B) (s : S)
    → Post P R (m s)
    → ((a : A) (t : S) → P a t → Post Q R (f a t))
    → Post Q R ((m >>= f) s)
Post->>= {S} {E} {A} {B} {P} {Q} {R} m f s h k = go (m s).0 (m s).1 h
  where
    go :
        (r : Result E A) (t : S)
        → Post P R (r, t)
        → Post Q R (elim r [ ok a ↦ f a t | err e ↦ (err e, t) ])
    go (ok a) t p = k a t (p.on_ok a refl)
    go (err e) t p = Post-err (p.on_err e refl)

-- A call whose result is only reworked: the call itself succeeded, and left its state.
pub >>=-pure-eq-ok :
    {S E A B : Type 0} (m : Action S E A) (g : A → B) (s : S) (b : B)
    → ((m >>= λ a. pure (g a)) s).0 ≡ ok b
    → (a : A) × ((m s).0 ≡ ok a) × (b ≡ g a) × (((m >>= λ a. pure (g a)) s).1 ≡ (m s).1)
>>=-pure-eq-ok m g s b h = elim (Result-cases (m s).0) [
  | inl (a, e) ↦ (a, e, sym (ok_injective (rw (e, ◌>>=◌) at h)), rw (e, ◌>>=◌))
  | inr (x, e) ↦ absurd (err-ne-ok (rw (e, ◌>>=◌) at h))
]

-- A sequence that succeeds: its first part did, and the rest from where that ended.
pub >>=-eq-ok :
    {S E A B : Type 0} (m : Action S E A) (f : A → Action S E B) (s : S) (b : B)
    → ((m >>= f) s).0 ≡ ok b
    → (a : A) × ((m s).0 ≡ ok a) × ((f a (m s).1).0 ≡ ok b)
>>=-eq-ok m f s b h = elim (Result-cases (m s).0) [
  | inl (a, e) ↦ (a, e, rw (e, ◌>>=◌) at h)
  | inr (x, e) ↦ absurd (err-ne-ok (rw (e, ◌>>=◌) at h))
]
