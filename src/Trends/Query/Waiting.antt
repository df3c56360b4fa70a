-- ===== src/Trends/Query/Waiting.antt =====
-- What becomes of the requests, one by one, and the map of those that await a load.
use mathlib.Core.List.{Perm, perm_append_singleton}
use mathlib.Core.List.Perm
use tech_trends.Base.{
  ℕ, ◌≡◌, ◌↔◌, refl, sym, ap, ◌∙◌, subst, inl, inr, Bool, true, false, if◌then◌else◌, List, [], ◌∷◌,
  ◌++◌, map, append_assoc, map-append, Option, none, some, arith, Bool-cases, Result, ok, err,
}
use tech_trends.Trends.World.{Failure}
use tech_trends.Trends.Query.{or_null, has, join}

-- Where a request stands: it awaits the load of a key, or it has its outcome.
pub data Status (K A : Type 0) : Type 0 where
  awaits : K → Status K A
  has_outcome : A → Status K A

abbrev pub Asked : Type 0 → Type 0 → Type 0
Asked K A = List (ℕ × Status K A)

module _ {K : Type 0} where
  -- The requests that await each load of the map.
  abbrev pub awaiting : List (K × List ℕ) → List (ℕ × K)
  awaiting [] = []
  awaiting ((key, whos) ∷ m) = map (λ who. (who, key)) whos ++ awaiting m

  abbrev pub keys : List (K × List ℕ) → List K
  keys m = map (λ e. e.0) m

  pub awaiting-append :
      (m : List (K × List ℕ)) (key : K) (who : ℕ)
      → awaiting (m ++ (key, who ∷ []) ∷ []) ≡ awaiting m ++ (who, key) ∷ []
  awaiting-append [] key who = refl
  awaiting-append ((k, whos) ∷ m) key who =
      ap (λ l. map (λ w. (w, k)) whos ++ l) (awaiting-append m key who)
      ∙ sym (append_assoc (map (λ w. (w, k)) whos) (awaiting m) ((who, key) ∷ []))

  -- A member in the middle, and at the end.
  Perm_to_end :
      (front back : List (ℕ × K)) (x : ℕ × K)
      → Perm ((front ++ x ∷ []) ++ back) ((front ++ back) ++ x ∷ [])
  Perm_to_end front back x =
      subst (λ l. Perm l ((front ++ back) ++ x ∷ [])) (sym (append_assoc front (x ∷ []) back))
        (subst (Perm (front ++ x ∷ back)) (sym (append_assoc front back (x ∷ [])))
          (Perm.append_left front (Perm.symm (perm_append_singleton x back))))

module _ {K A : Type 0} where
  -- What is cached is the outcome at once; a read that misses or fails leads to a load.
  abbrev pub first_status : K → Result Failure (Option A) → Status K A
  first_status key (ok (some a)) = has_outcome a
  first_status key (ok none) = awaits key
  first_status key (err e) = awaits key

  abbrev pub outcomes : Asked K A → List (ℕ × A)
  outcomes [] = []
  outcomes ((who, awaits key) ∷ rs) = outcomes rs
  outcomes ((who, has_outcome a) ∷ rs) = (who, a) ∷ outcomes rs

  abbrev pub waiting_for : Asked K A → List (ℕ × K)
  waiting_for [] = []
  waiting_for ((who, awaits key) ∷ rs) = (who, key) ∷ waiting_for rs
  waiting_for ((who, has_outcome a) ∷ rs) = waiting_for rs

  pub outcomes-append : (rs more : Asked K A) → outcomes (rs ++ more) ≡ outcomes rs ++ outcomes more
  outcomes-append [] more = refl
  outcomes-append ((who, awaits key) ∷ rs) more = outcomes-append rs more
  outcomes-append ((who, has_outcome a) ∷ rs) more = ap (◌∷◌ (who, a)) (outcomes-append rs more)

  pub waiting_for-append :
      (rs more : Asked K A) → waiting_for (rs ++ more) ≡ waiting_for rs ++ waiting_for more
  waiting_for-append [] more = refl
  waiting_for-append ((who, awaits key) ∷ rs) more =
      ap (◌∷◌ (who, key)) (waiting_for-append rs more)
  waiting_for-append ((who, has_outcome a) ∷ rs) more = waiting_for-append rs more

  pub first_status-hit :
      (key : K) (read : Result Failure (Option A)) (a : A)
      → or_null read ≡ some a
      → first_status key read ≡ has_outcome a
  first_status-hit key (ok (some b)) a e = cc
  first_status-hit key (ok none) a e = absurd (cc)
  first_status-hit key (err x) a e = absurd (cc)

  pub first_status-miss :
      (key : K) (read : Result Failure (Option A))
      → or_null read ≡ none
      → first_status key read ≡ awaits key
  first_status-miss key (ok (some b)) e = absurd (cc)
  first_status-miss key (ok none) e = refl
  first_status-miss key (err x) e = refl

module _ {K A : Type 0} (same : K → K → Bool) (same_iff : (j k : K) → (same j k ≡ true) ↔ (j ≡ k))
    (stored : A → Bool) where
  -- No key twice.
  abbrev pub Distinct : List K → Type 0
  Distinct [] = Unit
  Distinct (k ∷ ks) = (has same stored k ks ≡ false) × Distinct ks

  -- A load of the key ends: all who await it have its outcome.
  abbrev pub settled_status : K → A → Status K A → Status K A
  settled_status key outcome (awaits k) = if same key k then has_outcome outcome else awaits k
  settled_status key outcome (has_outcome a) = has_outcome a

  abbrev pub settled : K → A → List (ℕ × Status K A) → List (ℕ × Status K A)
  settled key outcome rs = map (λ r. (r.0, settled_status key outcome r.1)) rs

  pub Perm-awaiting-join :
      (who : ℕ) (key : K) (m : List (K × List ℕ))
      → has same stored key (keys m) ≡ true
      → Perm (awaiting (join same stored who key m)) (awaiting m ++ (who, key) ∷ [])
  Perm-awaiting-join who key [] h = absurd (ground arith)
  Perm-awaiting-join who key ((k, whos) ∷ m) h = elim (Bool-cases (same key k)) [
    | inl e ↦ rw e (
        subst (λ l. Perm l ((map (λ w. (w, k)) whos ++ awaiting m) ++ (who, key) ∷ []))
          (sym (ap (λ l. l ++ awaiting m) (joined whos e)))
          (Perm_to_end (map (λ w. (w, k)) whos) (awaiting m) (who, key)))
    | inr e ↦ rw e (
        subst (Perm (map (λ w. (w, k)) whos ++ awaiting (join same stored who key m)))
          (sym (append_assoc (map (λ w. (w, k)) whos) (awaiting m) ((who, key) ∷ [])))
          (Perm.append_left (map (λ w. (w, k)) whos) (Perm-awaiting-join who key m (ground arith))))
  ]
    where
      joined :
          (ws : List ℕ)
          → same key k ≡ true
          → map {B = ℕ × K} (λ w. (w, k)) (ws ++ who ∷ []) ≡ map (λ w. (w, k)) ws ++ (who, key) ∷ []
      joined ws e =
          map-append (λ w. (w, k)) ws (who ∷ [])
          ∙ ap (λ j. map (λ w. (w, k)) ws ++ (who, j) ∷ []) (sym ((same_iff key k).0 e))
