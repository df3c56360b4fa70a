-- ===== src/Base/Rows.antt =====
-- The order of sorted rows, and the pages that they are cut into.
use Prim.Native.Nat.{ℕ, zero, suc, ◌+◌, ◌*◌, ◌≤◌}
use mathlib.Core.Path.{◌≡◌, refl, sym, ap, ap₂, ◌∙◌}
use mathlib.Core.Logic.{inl, inr}
use mathlib.Core.Logic.Or
use mathlib.Core.Bool.{Bool, true, Bool-set}
use mathlib.Core.List.{
  List, [], ◌∷◌, ◌++◌, map, Mem, not-mem-nil, Perm, mem-cons_self, mem-cons_of_mem,
  eq-or-mem_of_mem-cons,
}
use mathlib.Core.List.Perm
use native.Mathlib.Omega.{arith}
use native.Mathlib.Numerals.{unary_clauses}
use tech_trends.Base.Tests.{Bool-cases}
use tech_trends.Base.Lists.{length, take, drop, concat, All}
use tech_trends.Base.Sorting.{insert_sorted, sort_by, IsOrder, IsSorted, IsSorted-sort_by}

module _ {A : Type 0} (le : A → A → Bool) where
  insert_sorted-perm : (x : A) (xs : List A) → Perm (insert_sorted le x xs) (x ∷ xs)
  insert_sorted-perm x [] = Perm.rfl
  insert_sorted-perm x (y ∷ ys) = elim (Bool-cases (le x y)) [
    | inl e ↦ rw e Perm.rfl
    | inr e ↦ rw e (Perm.trans (Perm.cons y (insert_sorted-perm x ys)) (Perm.swap x y ys))
  ]

  pub sort_by-perm : (xs : List A) → Perm (sort_by le xs) xs
  unfolding sort_by
  sort_by-perm [] = Perm.rfl
  sort_by-perm (x ∷ xs) =
      Perm.trans (insert_sorted-perm x (sort_by le xs)) (Perm.cons x (sort_by-perm xs))

  -- No two members tie.
  abbrev pub IsStrict : List A → Type 0
  IsStrict xs = (x y : A) → Mem x xs → Mem y xs → le x y ≡ true → le y x ≡ true → x ≡ y

module _ {A : Type 0} (le : A → A → Bool) (order : IsOrder le) where
  le_refl : (x : A) → le x x ≡ true
  le_refl x = elim (Bool-cases (le x x)) [ inl e ↦ e | inr e ↦ order.total x x e ]

  below : (x : A) (ys : List A) → All (λ y. le x y ≡ true) ys → (y : A) → Mem y ys → le x y ≡ true
  below x [] h y m = absurd (not-mem-nil m)
  below x (z ∷ zs) (p, h) y m =
      Or.elim (Bool-set (le x y) true) (eq-or-mem_of_mem-cons m) (λ e. rw e p) (below x zs h y)

  head_le :
      (x y : A) (xs ys : List A) → IsSorted le (x ∷ xs) → Perm (y ∷ ys) (x ∷ xs) → le x y ≡ true
  head_le x y xs ys (h, _) p = below x (x ∷ xs) (le_refl x, h) y ((Perm.mem_iff p).0 mem-cons_self)

  pub IsSorted-eq_of_perm :
      (l r : List A) → IsSorted le l → IsSorted le r → Perm l r → IsStrict le l → l ≡ r
  IsSorted-eq_of_perm [] r _ _ p _ = Perm.nil-eq p
  IsSorted-eq_of_perm (a ∷ l) [] _ _ p _ = Perm.eq-nil p
  IsSorted-eq_of_perm (a ∷ l) (b ∷ r) sl sr p strict =
      let heads =
        strict a b mem-cons_self ((Perm.mem_iff p).1 mem-cons_self)
          (head_le a b l r sl (Perm.symm p)) (head_le b a r l sr p) in
      ap₂ ◌∷◌ heads (
        IsSorted-eq_of_perm l r sl.1 sr.1
          (Perm.cons_inv (Perm.trans p (Perm.symm (Perm.cons' heads Perm.rfl))))
          (λ x y m n. strict x y (mem-cons_of_mem a m) (mem-cons_of_mem a n)))

  pub IsSorted-eq-sort_by :
      (l xs : List A) → IsSorted le l → Perm l xs → IsStrict le xs → l ≡ sort_by le xs
  IsSorted-eq-sort_by l xs s p strict =
      IsSorted-eq_of_perm l (sort_by le xs) s (IsSorted-sort_by le order xs)
        (Perm.trans p (Perm.symm (sort_by-perm le xs)))
        (λ x y m n. strict x y ((Perm.mem_iff p).0 m) ((Perm.mem_iff p).0 n))

-- The numbers from `k` on, `n` of them.
abbrev pub count_from : ℕ → ℕ → List ℕ
count_from k zero = []
count_from k (suc n) = k ∷ count_from (suc k) n

zero_add : (n : ℕ) → 0 + n ≡ n
zero_add n = omega arith

suc_add : (m n : ℕ) → suc m + n ≡ suc (m + n)
suc_add m n = omega arith

pub zero_mul : (n : ℕ) → 0 * n ≡ 0
zero_mul n = omega arith

module _ {ℓ} {A : Type ℓ} where
  pub take_all : (n : ℕ) (xs : List A) → length xs ≤ n → take n xs ≡ xs
  take_all zero [] h = refl
  take_all zero (x ∷ xs) h = absurd (omega arith)
  take_all (suc n) [] h = refl
  take_all (suc n) (x ∷ xs) h = ap (◌∷◌ x) (take_all n xs (omega arith))

  take_add : (m n : ℕ) (xs : List A) → take (m + n) xs ≡ take m xs ++ take n (drop m xs)
  take_add zero n xs = ap (λ m. take m xs) (zero_add n)
  take_add (suc m) zero [] = simp unary_clauses
  take_add (suc m) (suc n) [] = simp unary_clauses
  take_add (suc m) n (x ∷ xs) =
      ap (λ k. take k (x ∷ xs)) (suc_add m n) ∙ ap (◌∷◌ x) (take_add m n xs)

  drop_add : (m n : ℕ) (xs : List A) → drop (m + n) xs ≡ drop n (drop m xs)
  drop_add zero n xs = ap (λ m. drop m xs) (zero_add n)
  drop_add (suc m) zero [] = simp unary_clauses
  drop_add (suc m) (suc n) [] = simp unary_clauses
  drop_add (suc m) n (x ∷ xs) = ap (λ k. drop k (x ∷ xs)) (suc_add m n) ∙ drop_add m n xs

  drop_next : (size k : ℕ) (xs : List A) → drop size (drop (k * size) xs) ≡ drop (suc k * size) xs
  drop_next size k xs = sym (drop_add (k * size) size xs) ∙ ap (λ m. drop m xs) (omega arith)

  -- Parts of one size, from the `k`-th on, join to what they were cut from.
  pub concat-parts :
      (size : ℕ) (xs : List A) (k n : ℕ)
      → concat (map (λ i. take size (drop (i * size) xs)) (count_from k n))
        ≡ take (n * size) (drop (k * size) xs)
  concat-parts size xs k zero = ap (λ m. take m (drop (k * size) xs)) (sym (zero_mul size))
  concat-parts size xs k (suc n) =
      ap (take size (drop (k * size) xs) ++◌) (concat-parts size xs (suc k) n)
      ∙ ap (λ r. take size (drop (k * size) xs) ++ take (n * size) r) (sym (drop_next size k xs))
      ∙ sym (take_add size (n * size) (drop (k * size) xs))
      ∙ ap (λ m. take m (drop (k * size) xs)) (omega arith)
