-- ===== src/Trends/Store/Hybrid/Joined.antt =====
-- The candidates of both searches, joined and looked up in the table.
use mathlib.Core.Logic.{∥∥₁_elim, ∥∥₁_map, ∨₁_prop, ◌∨₁◌}
use mathlib.Core.Logic.Or
use mathlib.Core.List.{
  Mem, Mem-prop, Perm, Permᴰ, mem-cons_self, mem-cons_of_mem, mem-append, mem-map, map-map,
  map-append, not-mem-nil, eq-or-mem_of_mem-cons,
}
use mathlib.Core.List.Perm
use tech_trends.Base.{
  ℕ, suc, ◌≤◌, ◌≡◌, ◌==◌, ==_iff, refl, sym, ap, ◌∙◌, subst, Bool, true, Bool-cases, List, [], ◌∷◌,
  ◌++◌, none, some, Option-cases, inl, inr, arith, length, length-append, map, keep, concat,
  append-nil, Mem-map, All, All-of_Mem, Mem-keep, All-append, All-of_map, All-keep, All-perm,
  All-Mem, All-map,
}
use tech_trends.Trends.Data.{TechTrend}
use tech_trends.Trends.Store.{SelectQuery}
use tech_trends.Trends.Store.Selected.{passes}
use tech_trends.Trends.Store.Hybrid.{
  Candidate, row_numbers, IsCandidates, rank_of, from_keyword, is_vector_only, from_vector, Scored,
  full_outer_join, rrf_entry, rrf, join_one, join_rows,
}
use tech_trends.Trends.Store.Hybrid.Fused.{ids-row_numbers, join_rows-id}

module _ {A : Type 0} where
  length-Permᴰ : {xs ys : List A} → Permᴰ xs ys → length xs ≡ length ys
  length-Permᴰ Permᴰ.nil = refl
  length-Permᴰ (Permᴰ.cons e d) = ap suc (length-Permᴰ d)
  length-Permᴰ (Permᴰ.swap e f) = refl
  length-Permᴰ (Permᴰ.trans c d) = length-Permᴰ c ∙ length-Permᴰ d

  pub length-Perm : (xs ys : List A) → Perm xs ys → length xs ≡ length ys
  length-Perm xs ys p = ∥∥₁_elim p (hlevel) length-Permᴰ

  pub nil_of_length : (xs : List A) → length xs ≡ 0 → xs ≡ []
  nil_of_length [] h = refl
  nil_of_length (x ∷ xs) h = absurd (omega arith)

  pub Mem-of_keep : (p : A → Bool) (xs : List A) (x : A) → Mem x xs → p x ≡ true → Mem x (keep p xs)
  Mem-of_keep p [] x m e = m
  Mem-of_keep p (y ∷ ys) x m e = elim (Bool-cases (p y)) [
    | inl t ↦ rw t (
        Or.elim Mem-prop (eq-or-mem_of_mem-cons m) (λ q. rw q mem-cons_self)
          (λ n. mem-cons_of_mem y (Mem-of_keep p ys x n e)))
    | inr f ↦ rw f (
        Or.elim Mem-prop (eq-or-mem_of_mem-cons m) (λ q. absurd (ground arith))
          (λ n. Mem-of_keep p ys x n e))
  ]

module _ (q : SelectQuery) (limit : ℕ) (rows : List TechTrend) (cs : List Candidate)
    (h : IsCandidates q limit rows cs) where
  length-row_numbers : (k : ℕ) (full : List TechTrend) → length (row_numbers k full) ≡ length full
  length-row_numbers k [] = refl
  length-row_numbers k (row ∷ full) = ap suc (length-row_numbers (suc k) full)

  pub none_left_out : length (keep (passes q.conditions) rows) ≤ limit → h.left_out ≡ []
  none_left_out few = nil_of_length h.left_out (
      omega (
        arith,
        few,
        h.enough,
        length-Perm _ _ h.full_perm,
        length-Perm _ _ h.chosen,
        length-append cs h.left_out,
        length-row_numbers 1 h.full,
      ))

  -- With room for all, every row that passes is a candidate.
  pub IsCandidates-Mem :
      length (keep (passes q.conditions) rows) ≤ limit
      → (row : TechTrend) → Mem row rows
      → passes q.conditions row ≡ true
      → Mem row.id (map (λ c. c.0) cs)
  IsCandidates-Mem few row m pass =
      let full = (Perm.mem_iff h.full_perm).1 (Mem-of_keep (passes q.conditions) rows row m pass) in
      let numbered =
        subst (Mem row.id) (sym (ids-row_numbers 1 h.full)) (Mem-map (λ r. r.id) row h.full full) in
      subst (λ l. Mem row.id (map (λ c. c.0) l)) (ap (cs ++◌) (none_left_out few) ∙ append-nil cs)
        ((Perm.mem_iff (Perm.map (λ c. c.0) h.chosen)).1 numbered)

pub rank_of-some :
    (id : ℕ) (rank : ℕ) (cs : List Candidate)
    → rank_of id cs ≡ some rank
    → Mem id (map (λ c. c.0) cs)
rank_of-some id rank [] e = absurd (cc)
rank_of-some id rank ((i, r) ∷ cs) e = elim (Bool-cases (id == i)) [
  | inl t ↦ rw ((==_iff id i).0 t) mem-cons_self
  | inr f ↦ mem-cons_of_mem i (rank_of-some id rank cs (rw f at e))
]

module _ (ks vs : List Candidate) where
  pub joined_keyword :
      (id : ℕ) → Mem id (map (λ c. c.0) ks) → Mem id (map (λ j. j.0) (full_outer_join ks vs))
  unfolding full_outer_join
  joined_keyword id m =
      subst (Mem id)
        (sym (
          map-append (λ j. j.0) (map (from_keyword vs) ks)
            (map from_vector (keep (is_vector_only ks) vs))))
        (mem-append.1 (Or.inl (subst (Mem id) (sym (map-map (λ j. j.0) (from_keyword vs) ks)) m)))

  joined_vector_only :
      (v : Candidate)
      → Mem v vs
      → rank_of v.0 ks ≡ none
      → Mem v.0 (map (λ j. j.0) (full_outer_join ks vs))
  unfolding full_outer_join
  joined_vector_only v m e =
      subst (Mem v.0)
        (sym (
          map-append (λ j. j.0) (map (from_keyword vs) ks)
            (map from_vector (keep (is_vector_only ks) vs))))
        (mem-append.1 (
          Or.inr (
            subst (Mem v.0) (sym (map-map (λ j. j.0) from_vector (keep (is_vector_only ks) vs))) (
              Mem-map (λ c. c.0) v _
                (Mem-of_keep (is_vector_only ks) vs v m (ground (arith, e)))))))

  joined_candidate : (v : Candidate) → Mem v vs → Mem v.0 (map (λ j. j.0) (full_outer_join ks vs))
  joined_candidate v m = elim (Option-cases (rank_of v.0 ks)) [
    | inl alone ↦ joined_vector_only v m alone
    | inr (rank, both) ↦ joined_keyword v.0 (rank_of-some v.0 rank ks both)
  ]

  pub joined_vector :
      (id : ℕ) → Mem id (map (λ c. c.0) vs) → Mem id (map (λ j. j.0) (full_outer_join ks vs))
  joined_vector id m = ∥∥₁_elim (mem-map.0 m) Mem-prop go
    where
      go : (v : Candidate) × Mem v vs × (v.0 ≡ id) → Mem id (map (λ j. j.0) (full_outer_join ks vs))
      go (v, n, e) =
          subst (λ i. Mem i (map (λ j. j.0) (full_outer_join ks vs))) e (joined_candidate v n)

pub join_rows-Mem :
    (rows : List TechTrend) (row : TechTrend) (es : List (ℕ × ℕ))
    → Mem row rows
    → Mem row.id (map (λ e. e.0) es)
    → Mem row (map (λ r. r.0) (join_rows rows es))
unfolding join_rows
join_rows-Mem rows row [] m n = absurd (not-mem-nil n)
join_rows-Mem rows row (e ∷ es) m n =
    subst (Mem row)
      (sym (map-append (λ r. r.0) (join_one rows e) (concat (map (join_one rows) es))))
      (mem-append.1 (
        Or.elim ∨₁_prop (eq-or-mem_of_mem-cons n)
          (λ same. Or.inl (
            Mem-map (λ r. r.0) (row, e.1) (join_one rows e)
              (Mem-map (λ (r : TechTrend). (r, e.1)) row _
                (Mem-of_keep (λ r. r.id == e.0) rows row m ((==_iff row.id e.0).1 same)))))
          (λ later. Or.inr (join_rows-Mem rows row es m later))))

-- Every candidate is a row of the table that is in the list, under its identifier.
module _ (q : SelectQuery) (limit : ℕ) (rows : List TechTrend) (cs : List Candidate)
    (h : IsCandidates q limit rows cs) where
  candidate_row :
      (id : ℕ)
      → Mem id (map (λ c. c.0) cs)
      → ∥ ((row : TechTrend) × Mem row rows × (row.id ≡ id)) ∥₁
  candidate_row id m =
      let numbered =
        (Perm.mem_iff (Perm.map (λ c. c.0) h.chosen)).0
          (subst (Mem id) (sym (map-append (λ c. c.0) cs h.left_out)) (mem-append.1 (Or.inl m))) in
      ∥∥₁_map (mem-map.0 (subst (Mem id) (ids-row_numbers 1 h.full) numbered)) (λ (row, n, e).
        (row, Mem-keep (passes q.conditions) rows row ((Perm.mem_iff h.full_perm).0 n), e))

  pub candidates-listed :
      (inverse : ℕ → ℕ) (rrf_k : ℕ) (ks vs : List Candidate) (full : List Scored)
      → Perm full (join_rows rows (rrf inverse rrf_k ks vs))
      → ((id : ℕ) → Mem id (map (λ c. c.0) cs) → Mem id (map (λ j. j.0) (full_outer_join ks vs)))
      → All (λ c. Mem c.0 (map (λ r. r.0.id) full)) cs
  unfolding rrf
  candidates-listed inverse rrf_k ks vs full perm joined = All-of_Mem cs (λ c m.
      let n = Mem-map (λ c. c.0) c cs m in
      ∥∥₁_elim (candidate_row c.0 n) Mem-prop (λ (row, k, e).
        let entry =
          subst (Mem row.id) (sym (map-map (λ e. e.0) (rrf_entry inverse rrf_k) _))
            (subst (λ i. Mem i (map (λ j. j.0) (full_outer_join ks vs))) (sym e) (joined c.0 n)) in
        let scored =
          (Perm.mem_iff (Perm.map (λ r. r.0) perm)).1
            (join_rows-Mem rows row (rrf inverse rrf_k ks vs) k entry) in
        subst (λ i. Mem i (map (λ r. r.0.id) full)) e
          (subst (Mem row.id) (map-map (λ row. row.id) (λ r. r.0) full)
            (Mem-map (λ row. row.id) row _ scored))))

-- An entry of the join is a candidate of one of the lists.
abbrev pub IsRanked : List Candidate → List Candidate → ℕ → Type 0
IsRanked ks vs id = Mem id (map (λ c. c.0) ks) ∨₁ Mem id (map (λ c. c.0) vs)

pub joined-IsRanked :
    (ks vs : List Candidate) → All (λ j. IsRanked ks vs j.0) (full_outer_join ks vs)
unfolding full_outer_join
joined-IsRanked ks vs =
    All-append _ _ _
      (All-of_map _ (from_keyword vs) ks
        (All-of_Mem ks (λ c m. Or.inl (Mem-map (λ c. c.0) c ks m))))
      (All-of_map _ from_vector _ (
        All-keep _ (is_vector_only ks) vs
          (All-of_Mem vs (λ c m. Or.inr (Mem-map (λ c. c.0) c vs m)))))

pub full-IsRanked :
    (inverse : ℕ → ℕ) (rrf_k : ℕ) (ks vs : List Candidate) (rows : List TechTrend)
    (full : List Scored)
    → Perm full (join_rows rows (rrf inverse rrf_k ks vs))
    → All (λ r. IsRanked ks vs r.0.id) full
unfolding rrf
full-IsRanked inverse rrf_k ks vs rows full perm =
    All-perm (λ r. ∨₁_prop) _ full (Perm.symm perm)
      (All-map
        (λ r m.
          All-Mem (λ id. ∨₁_prop) _
            (All-of_map _ (λ e. e.0) _
              (All-of_map _ (rrf_entry inverse rrf_k) _ (joined-IsRanked ks vs)))
            r.0.id m)
        _ (join_rows-id rows (rrf inverse rrf_k ks vs)))
