-- ===== src/Trends/Query/Settled.antt =====
-- The requests and the map of loads when a load settles.
use mathlib.Core.List.{Perm, perm_middle, filter_map, filter_map-append}
use mathlib.Core.List.Perm
use tech_trends.Base.{
  ℕ, ◌≡◌, ◌↔◌, refl, sym, ap, ◌∙◌, subst, inl, inr, Bool, true, false, if◌then◌else◌, List, [], ◌∷◌,
  ◌++◌, map, append-nil, Option, none, some, arith, Bool-cases,
}
use tech_trends.Trends.Query.Waiting.{
  Status, awaits, has_outcome, outcomes, waiting_for, awaiting, keys, Distinct, settled,
}
use tech_trends.Trends.Query.{has, waiters, drop_load}

module _ {K A : Type 0} (same : K → K → Bool) (same_iff : (j k : K) → (same j k ≡ true) ↔ (j ≡ k))
    (stored : A → Bool) where
  module _ (key : K) (outcome : A) where
    abbrev relieved : ℕ × K → Option (ℕ × A)
    relieved (who, k) = if same key k then some (who, outcome) else none

    abbrev remaining : ℕ × K → Option (ℕ × K)
    remaining (who, k) = if same key k then none else some (who, k)

    outcomes-settled :
        (rs : List (ℕ × Status K A))
        → Perm
            (outcomes (settled same same_iff stored key outcome rs))
            (outcomes rs ++ filter_map relieved (waiting_for rs))
    unfolding filter_map
    outcomes-settled [] = Perm.rfl
    outcomes-settled ((who, has_outcome a) ∷ rs) = Perm.cons (who, a) (outcomes-settled rs)
    outcomes-settled ((who, awaits k) ∷ rs) = elim (Bool-cases (same key k)) [
      | inl e ↦ rw e (
          Perm.trans (Perm.cons (who, outcome) (outcomes-settled rs))
            (Perm.symm (perm_middle (outcomes rs) (filter_map relieved (waiting_for rs)))))
      | inr e ↦ rw e (outcomes-settled rs)
    ]

    waiting_for-settled :
        (rs : List (ℕ × Status K A))
        → waiting_for (settled same same_iff stored key outcome rs)
          ≡ filter_map remaining (waiting_for rs)
    unfolding filter_map
    waiting_for-settled [] = refl
    waiting_for-settled ((who, has_outcome a) ∷ rs) = waiting_for-settled rs
    waiting_for-settled ((who, awaits k) ∷ rs) = elim (Bool-cases (same key k)) [
      | inl e ↦ rw e (waiting_for-settled rs)
      | inr e ↦ rw e (ap (◌∷◌ (who, k)) (waiting_for-settled rs))
    ]

    -- The waiters of one key.
    relieved-same :
        (k : K)
        → same key k ≡ true
        → (whos : List ℕ)
        → filter_map relieved (map (λ w. (w, k)) whos) ≡ map (λ w. (w, outcome)) whos
    unfolding filter_map
    relieved-same k e [] = refl
    relieved-same k e (who ∷ whos) = rw e (ap (◌∷◌ (who, outcome)) (relieved-same k e whos))

    relieved-other :
        (k : K)
        → same key k ≡ false
        → (whos : List ℕ) → filter_map relieved (map (λ w. (w, k)) whos) ≡ []
    unfolding filter_map
    relieved-other k e [] = refl
    relieved-other k e (who ∷ whos) = rw e (relieved-other k e whos)

    remaining-same :
        (k : K)
        → same key k ≡ true
        → (whos : List ℕ) → filter_map remaining (map (λ w. (w, k)) whos) ≡ []
    unfolding filter_map
    remaining-same k e [] = refl
    remaining-same k e (who ∷ whos) = rw e (remaining-same k e whos)

    remaining-other :
        (k : K)
        → same key k ≡ false
        → (whos : List ℕ) → filter_map remaining (map (λ w. (w, k)) whos) ≡ map (λ w. (w, k)) whos
    unfolding filter_map
    remaining-other k e [] = refl
    remaining-other k e (who ∷ whos) = rw e (ap (◌∷◌ (who, k)) (remaining-other k e whos))

    relieved_none :
        (m : List (K × List ℕ))
        → has same stored key (keys m) ≡ false
        → filter_map relieved (awaiting m) ≡ []
    unfolding filter_map
    relieved_none [] h = refl
    relieved_none ((k, whos) ∷ m) h =
        filter_map-append relieved (map (λ w. (w, k)) whos) (awaiting m)
        ∙ ap (λ l. l ++ filter_map relieved (awaiting m)) (relieved-other k (ground arith) whos)
        ∙ relieved_none m (ground arith)

    remaining_all :
        (m : List (K × List ℕ))
        → has same stored key (keys m) ≡ false
        → filter_map remaining (awaiting m) ≡ awaiting m
    unfolding filter_map
    remaining_all [] h = refl
    remaining_all ((k, whos) ∷ m) h =
        filter_map-append remaining (map (λ w. (w, k)) whos) (awaiting m)
        ∙ ap (λ l. l ++ filter_map remaining (awaiting m)) (remaining-other k (ground arith) whos)
        ∙ ap (λ l. map (λ w. (w, k)) whos ++ l) (remaining_all m (ground arith))

    absent :
        (k : K) (ks : List K)
        → same key k ≡ true
        → has same stored k ks ≡ false
        → has same stored key ks ≡ false
    absent k ks e h = ap (λ j. has same stored j ks) ((same_iff key k).0 e) ∙ h

    relieved-waiters :
        (m : List (K × List ℕ))
        → Distinct same same_iff stored (keys m)
        → filter_map relieved (awaiting m) ≡ map (λ w. (w, outcome)) (waiters same stored key m)
    unfolding filter_map
    relieved-waiters [] d = refl
    relieved-waiters ((k, whos) ∷ m) (fresh, d) = elim (Bool-cases (same key k)) [
      | inl e ↦ rw e (
          filter_map-append relieved (map (λ w. (w, k)) whos) (awaiting m)
          ∙ ap (λ l. l ++ filter_map relieved (awaiting m)) (relieved-same k e whos)
          ∙ ap (λ l. map (λ w. (w, outcome)) whos ++ l)
              (relieved_none m (absent k (keys m) e fresh))
          ∙ append-nil (map (λ w. (w, outcome)) whos))
      | inr e ↦ rw e (
          filter_map-append relieved (map (λ w. (w, k)) whos) (awaiting m)
          ∙ ap (λ l. l ++ filter_map relieved (awaiting m)) (relieved-other k e whos)
          ∙ relieved-waiters m d)
    ]

    remaining-drop_load :
        (m : List (K × List ℕ))
        → Distinct same same_iff stored (keys m)
        → filter_map remaining (awaiting m) ≡ awaiting (drop_load same stored key m)
    unfolding filter_map
    remaining-drop_load [] d = refl
    remaining-drop_load ((k, whos) ∷ m) (fresh, d) = elim (Bool-cases (same key k)) [
      | inl e ↦ rw e (
          filter_map-append remaining (map (λ w. (w, k)) whos) (awaiting m)
          ∙ ap (λ l. l ++ filter_map remaining (awaiting m)) (remaining-same k e whos)
          ∙ remaining_all m (absent k (keys m) e fresh))
      | inr e ↦ rw e (
          filter_map-append remaining (map (λ w. (w, k)) whos) (awaiting m)
          ∙ ap (λ l. l ++ filter_map remaining (awaiting m)) (remaining-other k e whos)
          ∙ ap (λ l. map (λ w. (w, k)) whos ++ l) (remaining-drop_load m d))
    ]

    -- The map and the requests after a load of the key has ended.
    pub Perm-settled-outcomes :
        (rs : List (ℕ × Status K A)) (answers : List (ℕ × A)) (m : List (K × List ℕ))
        → Distinct same same_iff stored (keys m)
        → Perm answers (outcomes rs)
        → Perm (awaiting m) (waiting_for rs)
        → Perm
            (answers ++ map (λ w. (w, outcome)) (waiters same stored key m))
            (outcomes (settled same same_iff stored key outcome rs))
    Perm-settled-outcomes rs answers m d given waiting =
        Perm.trans
          (Perm.append given (
            subst (λ l. Perm l (filter_map relieved (waiting_for rs))) (relieved-waiters m d)
              (Perm.filter_map relieved waiting)))
          (Perm.symm (outcomes-settled rs))

    pub Perm-settled-waiting :
        (rs : List (ℕ × Status K A)) (m : List (K × List ℕ))
        → Distinct same same_iff stored (keys m)
        → Perm (awaiting m) (waiting_for rs)
        → Perm
            (awaiting (drop_load same stored key m))
            (waiting_for (settled same same_iff stored key outcome rs))
    Perm-settled-waiting rs m d waiting =
        subst (λ l. Perm l (waiting_for (settled same same_iff stored key outcome rs)))
          (remaining-drop_load m d)
          (subst (Perm (filter_map remaining (awaiting m))) (sym (waiting_for-settled rs))
            (Perm.filter_map remaining waiting))
