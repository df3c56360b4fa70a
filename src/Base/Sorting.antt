-- ===== src/Base/Sorting.antt =====
-- A stable sort, as `Array.prototype.sort` and `ORDER BY` give it.
use Prim.Native.Nat.{suc}
use mathlib.Core.Path.{◌≡◌, refl, ap, ◌∙◌}
use mathlib.Core.Logic.{inl, inr}
use mathlib.Core.Bool.{Bool, true, false, ◌&&◌}
use mathlib.Core.List.{List, [], ◌∷◌}
use native.Mathlib.Omega.{arith}
use tech_trends.Base.Tests.{if◌then◌else◌, Bool-cases}
use tech_trends.Base.Lists.{length, keep, All, All-map}

module _ {A : Type 0} (le : A → A → Bool) where
  abbrev pub insert_sorted : A → List A → List A
  insert_sorted x [] = x ∷ []
  insert_sorted x (y ∷ ys) = if le x y then x ∷ y ∷ ys else y ∷ insert_sorted x ys

  -- The first of two members that tie stays first.
  unfoldable pub sort_by : List A → List A
  sort_by [] = []
  sort_by (x ∷ xs) = insert_sorted x (sort_by xs)

  pub record IsOrder : Type 0 where
    pub total : (a b : A) → le a b ≡ false → le b a ≡ true
    pub trans : (a b c : A) → le a b ≡ true → le b c ≡ true → le a c ≡ true

  abbrev pub IsSorted : List A → Type 0
  IsSorted [] = Unit
  IsSorted (x ∷ xs) = All (λ y. le x y ≡ true) xs × IsSorted xs

  -- Those that tie with `x`.
  abbrev pub ties : A → A → Bool
  ties x y = le x y && le y x

  -- Each member and all that tie with it stand as before, in the same order and number.
  abbrev pub IsStable : List A → List A → Type 0
  IsStable xs ys = (x : A) → keep (ties x) ys ≡ keep (ties x) xs

module _ {A : Type 0} (le : A → A → Bool) (P : A → Type 0) where
  pub All-insert_sorted : (x : A) (xs : List A) → P x → All P xs → All P (insert_sorted le x xs)
  All-insert_sorted x [] p h = (p, tt)
  All-insert_sorted x (y ∷ ys) p (q, h) = elim (Bool-cases (le x y)) [
    | inl e ↦ rw e (p, (q, h))
    | inr e ↦ rw e (q, All-insert_sorted x ys p h)
  ]

  pub All-sort_by : (xs : List A) → All P xs → All P (sort_by le xs)
  unfolding sort_by
  All-sort_by [] h = tt
  All-sort_by (x ∷ xs) (p, h) = All-insert_sorted x (sort_by le xs) p (All-sort_by xs h)

module _ {A : Type 0} (le : A → A → Bool) where
  length-insert_sorted : (x : A) (xs : List A) → length (insert_sorted le x xs) ≡ suc (length xs)
  length-insert_sorted x [] = refl
  length-insert_sorted x (y ∷ ys) = ground (arith, length-insert_sorted x ys)

  pub length-sort_by : (xs : List A) → length (sort_by le xs) ≡ length xs
  unfolding sort_by
  length-sort_by [] = refl
  length-sort_by (x ∷ xs) = length-insert_sorted x (sort_by le xs) ∙ ap suc (length-sort_by xs)

module _ {A : Type 0} (le : A → A → Bool) (order : IsOrder le) where
  IsSorted-insert_sorted :
      (x : A) (xs : List A) → IsSorted le xs → IsSorted le (insert_sorted le x xs)
  IsSorted-insert_sorted x [] h = (tt, tt)
  IsSorted-insert_sorted x (y ∷ ys) (below, h) = elim (Bool-cases (le x y)) [
    | inl e ↦ rw e ((e, All-map (λ z. order.trans x y z e) ys below), (below, h))
    | inr e ↦ rw e (
      All-insert_sorted le (λ z. le y z ≡ true) x ys (order.total x y e) below,
      IsSorted-insert_sorted x ys h,
    )
  ]

  pub IsSorted-sort_by : (xs : List A) → IsSorted le (sort_by le xs)
  unfolding sort_by
  IsSorted-sort_by [] = tt
  IsSorted-sort_by (x ∷ xs) = IsSorted-insert_sorted x (sort_by le xs) (IsSorted-sort_by xs)

  -- Of two that do not come in order only one ties with `k`.
  ties_apart : (k x y : A) → le x y ≡ false → ties le k x ≡ true → ties le k y ≡ false
  ties_apart k x y e t = ground (arith, order.trans x k y)

  keep-insert_sorted :
      (k x : A) (xs : List A) → keep (ties le k) (insert_sorted le x xs) ≡ keep (ties le k) (x ∷ xs)
  keep-insert_sorted k x [] = refl
  keep-insert_sorted k x (y ∷ ys) = elim (Bool-cases (le x y)) [
    | inl e ↦ rw e refl
    | inr e ↦ rw e (elim (Bool-cases (ties le k x)) [
      | inl t ↦ rw (ties_apart k x y e t) (keep-insert_sorted k x ys)
      | inr f ↦ ground (arith, keep-insert_sorted k x ys)
    ])
  ]

  pub sort_by-IsStable : (xs : List A) → IsStable le xs (sort_by le xs)
  unfolding sort_by
  sort_by-IsStable [] k = refl
  sort_by-IsStable (x ∷ xs) k =
      keep-insert_sorted k x (sort_by le xs) ∙ ground (arith, sort_by-IsStable xs k)
