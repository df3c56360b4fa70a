-- ===== src/Trends/Store/Hybrid/Ranks.antt =====
-- The scores of a hybrid search, from the ranks in both lists.
use mathlib.Core.List.{Mem, Nodup-cons}
use tech_trends.Base.{
  ℕ, ◌+◌, ◌≤◌, ◌≡◌, ◌≢◌, ◌==◌, refl, sym, ap, ◌∙◌, subst, List, [], ◌∷◌, Option, none, some, arith,
  inl, inr, Option-cases, map, keep, All, All-append, All-map, All-of_keep, All-keep, All-of_Mem,
  All-both, ==_iff, Mem-map, Keyed, All-of_map, All-Mem,
}
use tech_trends.Trends.Data.{TechTrend}
use tech_trends.Trends.Store.Hybrid.{
  Candidate, rank_of, full_outer_join, is_vector_only, rank_score, rrf_entry, rrf, join_one,
  join_rows,
}

rank_of-Keyed :
    (cs : List Candidate) → Keyed (λ c. c.0) cs → All (λ c. rank_of c.0 cs ≡ some c.1) cs
rank_of-Keyed [] h = tt
rank_of-Keyed ((i, rank) ∷ cs) h =
    let (apart, rest) = Nodup-cons.0 h in
    (
      ground arith,
      All-of_Mem cs (λ c m.
          let other = All-Mem (λ c. hlevel) cs (rank_of-Keyed cs rest) c m in
          let ne : c.0 ≢ i =
            λ e. apart (subst (λ j. Mem j (map (λ c. c.0) cs)) e (Mem-map (λ c. c.0) c cs m)) in
          ground (arith, other, ne)),
    )

rank_of-kept :
    (ks vs : List Candidate) → All (λ v. rank_of v.0 ks ≡ none) (keep (is_vector_only ks) vs)
rank_of-kept ks vs =
    All-of_keep _ (is_vector_only ks)
      (λ v e. elim (Option-cases (rank_of v.0 ks)) [
        | inl p ↦ p
        | inr (r, p) ↦ absurd (ground (arith, p))
      ])
      vs

module _ (inverse : ℕ → ℕ) (rrf_k : ℕ) (ks vs : List Candidate) where
  -- The score of an identifier: what its two ranks give.
  abbrev pub fused_score : ℕ → ℕ
  fused_score id =
      rank_score inverse rrf_k (rank_of id ks) + rank_score inverse rrf_k (rank_of id vs)

  pub rrf-fused_score :
      Keyed (λ c. c.0) ks
      → Keyed (λ c. c.0) vs
      → All (λ e. e.1 ≡ fused_score e.0) (rrf inverse rrf_k ks vs)
  unfolding rrf full_outer_join
  rrf-fused_score h k = All-of_map _ (rrf_entry inverse rrf_k) (full_outer_join ks vs) (
      All-append _ _ _ (All-of_map _ _ ks (All-map (λ c e. rw e refl) ks (rank_of-Keyed ks h))) (
        All-of_map _ _ _ (
          All-map (λ c (e, f). rw (e, f) refl) _
            (All-both _ _ _ (rank_of-kept ks vs)
              (All-keep _ (is_vector_only ks) vs (rank_of-Keyed vs k))))))

  join_one-score :
      (rows : List TechTrend) (e : ℕ × ℕ)
      → e.1 ≡ fused_score e.0
      → All (λ r. r.1 ≡ fused_score r.0.id) (join_one rows e)
  join_one-score rows (id, score) h =
      All-of_map _ (λ row. (row, score)) _
        (All-of_keep _ (λ row. row.id == id)
          (λ row p. h ∙ ap fused_score (sym ((==_iff row.id id).0 p))) rows)

  pub join_rows-score :
      (rows : List TechTrend) (es : List (ℕ × ℕ))
      → All (λ e. e.1 ≡ fused_score e.0) es
      → All (λ r. r.1 ≡ fused_score r.0.id) (join_rows rows es)
  unfolding join_rows
  join_rows-score rows [] h = tt
  join_rows-score rows (e ∷ es) (p, h) =
      All-append _ _ _ (join_one-score rows e p) (join_rows-score rows es h)

-- At least as good a rank; a candidate of the list comes before one that is not.
abbrev pub IsNoWorse : Option ℕ → Option ℕ → Type 0
IsNoWorse a none = Unit
IsNoWorse none (some n) = ⊥
IsNoWorse (some m) (some n) = m ≤ n

module _ (inverse : ℕ → ℕ) (rrf_k : ℕ) (antitone : (m n : ℕ) → m ≤ n → inverse n ≤ inverse m) where
  rank_score-le :
      (a b : Option ℕ) → IsNoWorse a b → rank_score inverse rrf_k b ≤ rank_score inverse rrf_k a
  rank_score-le none none h = omega arith
  rank_score-le (some m) none h = omega arith
  rank_score-le none (some n) h = absurd h
  rank_score-le (some m) (some n) h = antitone (rrf_k + m) (rrf_k + n) (omega (arith, h))

  -- Where a larger rank never has the larger quotient, an article at least as good as another in both
  -- lists has at least its score.
  pub fused_score-le :
      (ks vs : List Candidate) (a b : ℕ)
      → IsNoWorse (rank_of a ks) (rank_of b ks)
      → IsNoWorse (rank_of a vs) (rank_of b vs)
      → fused_score inverse rrf_k ks vs b ≤ fused_score inverse rrf_k ks vs a
  fused_score-le ks vs a b h k = omega (
    arith,
    rank_score-le (rank_of a ks) (rank_of b ks) h,
    rank_score-le (rank_of a vs) (rank_of b vs) k,
  )
