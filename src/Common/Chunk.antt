-- ===== src/Common/Chunk.antt =====
-- common/utils/array.util.ts
use tech_trends.Base.{
  ℕ, zero, suc, ◌+◌, ◌-◌, ◌≤◌, ◌<◌, ◌≡◌, refl, sym, ap, ◌∙◌, inl, inr, List, [], ◌∷◌, Option, none,
  some, arith, ltb, if◌then◌else◌, Bool-cases, Option-cases, some_injective, subst, length, take,
  drop, concat, All, All-take, All-drop, length-take, length-drop, take-append-drop,
}

module _ {ℓ} {A : Type ℓ} where
  abbrev push : List A → Option (List (List A)) → Option (List (List A))
  push chunk none = none
  push chunk (some chunks) = some (chunk ∷ chunks)

  -- The `for` loop from index `i`, on fuel: `none` is a loop that has not ended within it.
  unfoldable pub chunk_from : ℕ → List A → ℕ → ℕ → Option (List (List A))
  chunk_from zero array size i = none
  chunk_from (suc fuel) array size i =
      let rest = chunk_from fuel array size (i + size) in
      if ltb i (length array) then push (take size (drop i array)) rest else some []

  -- With a positive size the loop runs at most once for each member, so this fuel is enough.
  unfoldable pub chunk_array : List A → ℕ → Option (List (List A))
  unfolding chunk_from
  chunk_array array size = chunk_from (suc (length array)) array size 0

  drop-length : (n : ℕ) (xs : List A) → length xs ≤ n → drop n xs ≡ []
  drop-length zero [] h = refl
  drop-length zero (x ∷ xs) h = absurd (omega arith)
  drop-length (suc n) [] h = refl
  drop-length (suc n) (x ∷ xs) h = drop-length n xs (omega arith)

  drop-drop : (n i j : ℕ) (xs : List A) → i + n ≡ j → drop n (drop i xs) ≡ drop j xs
  drop-drop n zero j xs e = ap (λ k. drop k xs) (omega arith)
  drop-drop n (suc i) j [] e = drop-length n [] (omega arith) ∙ sym (drop-length j [] (omega arith))
  drop-drop n (suc i) zero (x ∷ xs) e = absurd (omega arith)
  drop-drop n (suc i) (suc j) (x ∷ xs) e = drop-drop n i j xs (omega arith)

  -- Chunks that join to `rest`, each of 1 to `size` members.
  pub record IsCut (rest : List A) (size : ℕ) (chunks : List (List A)) : Type ℓ where
    pub joined : concat chunks ≡ rest
    pub sized : All (λ chunk. (1 ≤ length chunk) × (length chunk ≤ size)) chunks

  chunk_from-IsCut :
      (fuel : ℕ) (array : List A) (size i : ℕ)
      → 0 < size
      → length array - i < fuel
      → (chunks : List (List A)) × (chunk_from fuel array size i ≡ some chunks)
        × IsCut (drop i array) size chunks
  unfolding chunk_from
  chunk_from-IsCut zero array size i pos h = absurd (omega arith)
  chunk_from-IsCut (suc fuel) array size i pos h = elim (Bool-cases (ltb i (length array))) [
    | inr over ↦
        ([], rw over, record { joined = sym (drop-length i array (ground arith)); sized = tt })
    | inl more ↦
        let (chunks, e, cut) = chunk_from-IsCut fuel array size (i + size) pos (ground arith) in
        (
          take size (drop i array) ∷ chunks,
          rw (more, e),
          record {
            joined =
                rw (cut.joined, ← drop-drop size i (i + size) array refl)
                  (take-append-drop size (drop i array));
            sized = (
              (
                ground (arith, length-take size (drop i array), length-drop i array),
                ground (arith, length-take size (drop i array)),
              ),
              cut.sized,
            );
          },
        )
  ]

-- With a positive size the loop ends; its chunks join to the array again, in order, and each has at
-- least one and at most `size` members.
pub chunk_array-IsCut {ℓ} :
    {A : Type ℓ} (array : List A) (size : ℕ)
    → 0 < size
    → (chunks : List (List A)) × (chunk_array array size ≡ some chunks) × IsCut array size chunks
unfolding chunk_array
chunk_array-IsCut array size h = chunk_from-IsCut (suc (length array)) array size 0 h (omega arith)

-- With size 0 and a member to place, the loop runs out of any fuel.
pub chunk_from_size_zero {ℓ} :
    {A : Type ℓ} (fuel : ℕ) (array : List A) → 0 < length array → chunk_from fuel array 0 0 ≡ none
unfolding chunk_from
chunk_from_size_zero zero array h = refl
chunk_from_size_zero (suc fuel) array h = ground (arith, chunk_from_size_zero fuel array h)

module _ {ℓ κ} {A : Type ℓ} (P : A → Type κ) where
  chunk_from-All :
      (fuel : ℕ) (array : List A) (size i : ℕ) (chunks : List (List A))
      → All P array
      → chunk_from fuel array size i ≡ some chunks
      → All (All P) chunks
  unfolding chunk_from
  chunk_from-All zero array size i chunks h e = absurd (cc)
  chunk_from-All (suc fuel) array size i chunks h e = elim (Bool-cases (ltb i (length array))) [
    | inr over ↦ subst (All (All P)) (some_injective (rw over at e)) tt
    | inl more ↦ elim (Option-cases (chunk_from fuel array size (i + size))) [
      | inl missing ↦ absurd (ground arith)
      | inr (rest, found) ↦ subst (All (All P)) (some_injective (rw (more, found) at e)) (
        All-take P size _ (All-drop P i array h),
        chunk_from-All fuel array size (i + size) rest h found,
      )
    ]
  ]

  -- What holds of every member of the array holds of every member of every chunk.
  pub chunk_array-All :
      (array : List A) (size : ℕ) (chunks : List (List A))
      → All P array
      → chunk_array array size ≡ some chunks
      → All (All P) chunks
  unfolding chunk_array
  chunk_array-All array size = chunk_from-All (suc (length array)) array size 0
