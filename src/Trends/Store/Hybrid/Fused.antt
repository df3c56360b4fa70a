-- ===== src/Trends/Store/Hybrid/Fused.antt =====
-- The fused list of a hybrid search.
use mathlib.Core.Bool.{Bool-set}
use mathlib.Core.List.{
  Mem, Nodup, Nodup-cons, Nodup-nil, not-mem-nil, eq-or-mem_of_mem-cons, mem-cons_self,
  mem-cons_of_mem, mem-append, map-map,
}
use mathlib.Core.List.Perm
use mathlib.Core.Logic.Or
use tech_trends.Base.{
  ℕ, suc, ◌≡◌, ◌==◌, refl, sym, ap, subst, Bool, true, List, [], ◌∷◌, ◌++◌, none, arith, inl, inr,
  Option-cases, map, keep, All, All-append, All-map, All-keep, All-of_keep, Mem-keep, All-of_Mem,
  Keyed, Keyed-eq, Keyed-keep, Keyed-perm, Keyed-of_append, Keyed-append, Keyed-map, All-Mem,
  All-keep_pass, All-of_map,
}
use tech_trends.Trends.Data.{TechTrend}
use tech_trends.Trends.Store.{SelectQuery}
use tech_trends.Trends.Store.Selected.{passes, TechTrend-IsSet}
use tech_trends.Trends.Store.Hybrid.{
  Candidate, row_numbers, IsCandidates, rank_of, full_outer_join, from_keyword, from_vector,
  is_vector_only, rrf_entry, rrf, join_one, join_rows,
}

pub ids-row_numbers :
    (k : ℕ) (rows : List TechTrend) → map (λ c. c.0) (row_numbers k rows) ≡ map (λ row. row.id) rows
ids-row_numbers k [] = refl
ids-row_numbers k (row ∷ rows) = ap (◌∷◌ row.id) (ids-row_numbers (suc k) rows)

-- Whatever row of the table has the identifier passes.
abbrev pub AllHit : (TechTrend → Bool) → List TechTrend → ℕ → Type 0
AllHit hit rows id = (row : TechTrend) → Mem row rows → row.id ≡ id → hit row ≡ true

AllHit-IsProp :
    (hit : TechTrend → Bool) (rows : List TechTrend) (id : ℕ) → IsProp (AllHit hit rows id)
AllHit-IsProp hit rows id = hlevel

AllHit-row_numbers :
    (hit : TechTrend → Bool) (rows : List TechTrend)
    → Keyed (λ row. row.id) rows
    → (full : List TechTrend) → All (λ row. Mem row rows × (hit row ≡ true)) full
    → (k : ℕ) → All (λ c. AllHit hit rows c.0) (row_numbers k full)
AllHit-row_numbers hit rows keyed [] h k = tt
AllHit-row_numbers hit rows keyed (x ∷ xs) ((m, p), h) k = (
  λ row n e.
      subst (λ r. hit r ≡ true)
        (sym (Keyed-eq (λ row. row.id) TechTrend-IsSet rows keyed row x n m e)) p,
  AllHit-row_numbers hit rows keyed xs h (suc k),
)

module _ (q : SelectQuery) (limit : ℕ) (rows : List TechTrend) (keyed : Keyed (λ row. row.id) rows)
    (cs : List Candidate) (h : IsCandidates q limit rows cs) where
  full-Keyed : Keyed (λ row. row.id) h.full
  full-Keyed =
      Keyed-perm (λ row. row.id) (keep (passes q.conditions) rows) h.full (Perm.symm h.full_perm)
        (Keyed-keep (λ row. row.id) (passes q.conditions) rows keyed)

  -- No identifier is twice among the candidates.
  pub IsCandidates-Keyed : Keyed (λ c. c.0) cs
  IsCandidates-Keyed =
      Keyed-of_append (λ c. c.0) cs h.left_out
        (Keyed-perm (λ c. c.0) (row_numbers 1 h.full) (cs ++ h.left_out) (Perm.symm h.chosen)
          (subst Nodup (sym (ids-row_numbers 1 h.full)) full-Keyed))

  module _ (hit : TechTrend → Bool)
      (sound : (row : TechTrend) → passes q.conditions row ≡ true → hit row ≡ true) where
    pub IsCandidates-AllHit : All (λ c. AllHit hit rows c.0) cs
    IsCandidates-AllHit = All-of_Mem cs (λ c m.
        All-Mem (λ c. AllHit-IsProp hit rows c.0) (row_numbers 1 h.full)
          (AllHit-row_numbers hit rows keyed h.full
            (All-of_Mem h.full (λ row n.
              let kept = (Perm.mem_iff h.full_perm).0 n in
              (
                Mem-keep (passes q.conditions) rows row kept,
                All-Mem (λ row. Bool-set (hit row) true) (keep (passes q.conditions) rows)
                    (All-of_keep (λ row. hit row ≡ true) (passes q.conditions) sound rows) row kept,
              )))
            1)
          c ((Perm.mem_iff h.chosen).0 (mem-append.1 (Or.inl m))))

module _ (inverse : ℕ → ℕ) (rrf_k : ℕ) where
  module _ (hit : TechTrend → Bool) (rows : List TechTrend) where
    pub AllHit-rrf :
        (ks vs : List Candidate)
        → All (λ c. AllHit hit rows c.0) ks
        → All (λ c. AllHit hit rows c.0) vs
        → All (λ e. AllHit hit rows e.0) (rrf inverse rrf_k ks vs)
    unfolding rrf full_outer_join
    AllHit-rrf ks vs h k = All-of_map _ (rrf_entry inverse rrf_k) (full_outer_join ks vs) (
        All-append _ _ _ (All-of_map _ _ ks h)
          (All-of_map _ _ _ (All-keep _ (is_vector_only ks) vs k)))

    join_one-hit : (e : ℕ × ℕ) → AllHit hit rows e.0 → All (λ r. hit r.0 ≡ true) (join_one rows e)
    join_one-hit (id, score) h =
        All-of_map _ (λ row. (row, score)) (keep (λ row. row.id == id) rows)
          (All-keep_pass _ (λ row. row.id == id) rows
            (All-of_Mem rows (λ row m e. h row m (ground arith))))

    pub join_rows-hit :
        (es : List (ℕ × ℕ))
        → All (λ e. AllHit hit rows e.0) es
        → All (λ r. hit r.0 ≡ true) (join_rows rows es)
    unfolding join_rows
    join_rows-hit [] h = tt
    join_rows-hit (e ∷ es) (p, h) = All-append _ _ _ (join_one-hit e p) (join_rows-hit es h)

rank_of-none : (id : ℕ) (cs : List Candidate) → rank_of id cs ≡ none → ¬ Mem id (map (λ c. c.0) cs)
rank_of-none id [] e m = not-mem-nil m
rank_of-none id ((i, rank) ∷ cs) e m =
    Or.elim (hlevel) (eq-or-mem_of_mem-cons m) (λ p. ground arith)
      (rank_of-none id cs (ground arith))

not-joined :
    (ks vs : List Candidate)
    → All (λ v. ¬ Mem v.0 (map (λ c. c.0) ks)) (keep (is_vector_only ks) vs)
not-joined ks vs =
    All-of_keep _ (is_vector_only ks)
      (λ v e. rank_of-none v.0 ks (elim (Option-cases (rank_of v.0 ks)) [
        | inl p ↦ p
        | inr (r, p) ↦ absurd (ground (arith, p))
      ]))
      vs

pub full_outer_join-Keyed :
    (ks vs : List Candidate)
    → Keyed (λ c. c.0) ks
    → Keyed (λ c. c.0) vs
    → Keyed (λ j. j.0) (full_outer_join ks vs)
unfolding full_outer_join
full_outer_join-Keyed ks vs h k =
    Keyed-append (λ j. j.0) _ _ (Keyed-map (λ j. j.0) _ ks h)
      (Keyed-map (λ j. j.0) _ _ (Keyed-keep (λ c. c.0) (is_vector_only ks) vs k))
      (λ id m n.
        All-Mem (λ j. hlevel) _
          (All-of_map (λ j. ¬ Mem j (map (λ c. c.0) ks)) (λ j. j.0) _
            (All-of_map _ from_vector _ (not-joined ks vs)))
          id n (subst (Mem id) (map-map (λ j. j.0) (from_keyword vs) ks) m))

pub rrf-Keyed :
    (inverse : ℕ → ℕ) (rrf_k : ℕ) (ks vs : List Candidate)
    → Keyed (λ c. c.0) ks
    → Keyed (λ c. c.0) vs
    → Keyed (λ e. e.0) (rrf inverse rrf_k ks vs)
unfolding rrf
rrf-Keyed inverse rrf_k ks vs h k =
    Keyed-map (λ e. e.0) (rrf_entry inverse rrf_k) (full_outer_join ks vs)
      (full_outer_join-Keyed ks vs h k)

join_one-id : (rows : List TechTrend) (e : ℕ × ℕ) → All (λ r. r.0.id ≡ e.0) (join_one rows e)
join_one-id rows (id, score) =
    All-of_map _ (λ row. (row, score)) _
      (All-of_keep _ (λ row. row.id == id) (λ row p. ground arith) rows)

pub join_rows-id :
    (rows : List TechTrend) (es : List (ℕ × ℕ))
    → All (λ r. Mem r.0.id (map (λ e. e.0) es)) (join_rows rows es)
unfolding join_rows
join_rows-id rows [] = tt
join_rows-id rows (e ∷ es) =
    All-append _ _ _ (All-map (λ r p. rw p mem-cons_self) _ (join_one-id rows e))
      (All-map (λ r m. mem-cons_of_mem e.0 m) _ (join_rows-id rows es))

pub join_rows-Keyed :
    (rows : List TechTrend) (es : List (ℕ × ℕ))
    → Keyed (λ row. row.id) rows
    → Keyed (λ e. e.0) es
    → Keyed (λ r. r.0.id) (join_rows rows es)
unfolding join_rows
join_rows-Keyed rows [] keyed h = Nodup-nil
join_rows-Keyed rows (e ∷ es) keyed h =
    let (apart, rest) = Nodup-cons.0 h in
    Keyed-append (λ r. r.0.id) _ _
      (Keyed-map (λ r. r.0.id) (λ row. (row, e.1)) _ (Keyed-keep (λ row. row.id) _ rows keyed))
      (join_rows-Keyed rows es keyed rest)
      (λ id m n. apart (
        subst (λ j. Mem j (map (λ e. e.0) es))
          (All-Mem (λ j. hlevel) _ (All-of_map (λ j. j ≡ e.0) (λ r. r.0.id) _ (join_one-id rows e))
            id m)
          (All-Mem (λ j. hlevel) _
            (All-of_map (λ j. Mem j (map (λ e. e.0) es)) (λ r. r.0.id) _ (join_rows-id rows es)) id
            n)))
