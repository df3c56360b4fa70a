-- ===== src/Trends/Store/Hybrid/Complete.antt =====
-- The hits of a hybrid search that has room for all candidates.
use mathlib.Core.List.{Mem, map-map}
use mathlib.Core.List.Perm
use tech_trends.Base.{
  ◌∙◌, ℕ, ◌≤◌, ◌≡◌, sym, subst, true, Bool-cases, List, inl, inr, arith, ◌⊎◌, length, map, keep,
  All, All-of_Mem, All-keep_pass, ok, Action,
}
use tech_trends.Trends.Data.{TechTrend, Vector}
use tech_trends.Trends.World.{Failure}
use tech_trends.Trends.Store.{SearchParams, SearchResult, Database}
use tech_trends.Trends.Store.Selected.{passes, Laws}
use tech_trends.Trends.Store.Pages.{page_rows}
use tech_trends.Trends.Store.Hybrid.{
  Scored, full_outer_join, rrf_entry, rrf, keyword_candidates, vector_candidates, HybridQuery,
  hybrid_query, IsHybrid, search_hybrid, HybridLaws,
}
use tech_trends.Trends.Store.Hybrid.Answer.{
  is_hybrid_hit, is_hybrid_hit-conditions, IsRanking, IsHybrid-IsRanking, answered_page,
}
use tech_trends.Trends.Store.Hybrid.Joined.{
  IsCandidates-Mem, joined_keyword, joined_vector, join_rows-Mem,
}

module _ (db : Database) where
  -- A hit passes one of the two searches.
  hit_cases :
      (params : SearchParams) (vector : Vector) (row : TechTrend)
      → is_hybrid_hit db params vector row ≡ true
      → (passes (keyword_candidates db params.search params.filters).conditions row ≡ true)
        ⊎ (passes (vector_candidates db vector params.filters).conditions row ≡ true)
  unfolding keyword_candidates vector_candidates
  hit_cases params vector row hit =
      let h = sym (is_hybrid_hit-conditions db params vector row) ∙ hit in
      elim (Bool-cases (db.is_match params.search row)) [
        | inl match ↦ inl (ground (arith, match))
        | inr differ ↦ inr (ground (arith, differ))
      ]

  module _ (inverse : ℕ → ℕ) (params : SearchParams) (vector : Vector) (limit : ℕ)
      (rows answer : List TechTrend)
      (h : IsHybrid db inverse (hybrid_query db limit params vector) rows answer) where
    IsHybrid-Mem :
        length (keep (passes (keyword_candidates db params.search params.filters).conditions) rows)
          ≤ limit
        → length (keep (passes (vector_candidates db vector params.filters).conditions) rows)
          ≤ limit
        → (row : TechTrend) → Mem row rows
        → is_hybrid_hit db params vector row ≡ true
        → Mem row (map (λ r. r.0) h.full)
    unfolding hybrid_query rrf
    IsHybrid-Mem few_matches few_near row m hit =
        let joined : Mem row.id (map (λ j. j.0) (full_outer_join h.ks h.vs)) =
          elim (hit_cases params vector row hit) [
            | inl matches ↦
                joined_keyword h.ks h.vs row.id
                  (IsCandidates-Mem _ limit rows h.ks h.ks_chosen few_matches row m matches)
            | inr near ↦
                joined_vector h.ks h.vs row.id
                  (IsCandidates-Mem _ limit rows h.vs h.vs_chosen few_near row m near)
          ] in
        (Perm.mem_iff (Perm.map (λ r. r.0) h.full_perm)).1 (
          join_rows-Mem rows row (rrf inverse 60 h.ks h.vs) m (
            subst (Mem row.id)
              (sym (map-map (λ e. e.0) (rrf_entry inverse 60) (full_outer_join h.ks h.vs))) joined))

  module _ (get_hybrid : HybridQuery → Action db.State Failure (List TechTrend))
      (count_hybrid : HybridQuery → Action db.State Failure ℕ) (candidate_limit : ℕ) where
    -- Where neither search has more rows than the limit of candidates, a hybrid search that is answered
    -- has a page of a ranking, as it is for every hybrid search, that leaves no hit out: every row of
    -- the table that is a hit of one of the searches is in it.
    pub search_hybrid_complete :
        (inverse : ℕ → ℕ)
        → Laws db
        → HybridLaws db get_hybrid count_hybrid candidate_limit inverse
        → (params : SearchParams) (vector : Vector) (s : db.State) (result : SearchResult)
        → length (
            keep
              (passes (keyword_candidates db params.search params.filters).conditions)
              (db.rows s))
          ≤ candidate_limit
        → length (keep (passes (vector_candidates db vector params.filters).conditions) (db.rows s))
          ≤ candidate_limit
        → (search_hybrid db get_hybrid count_hybrid candidate_limit params vector s).0 ≡ ok result
        → (full : List Scored) × IsRanking db inverse params vector candidate_limit (db.rows s) full
          × (result.found ≡ page_rows params.page params.limit (map (λ r. r.0) full))
          × All
              (λ row. Mem row (map (λ r. r.0) full))
              (keep (is_hybrid_hit db params vector) (db.rows s))
    search_hybrid_complete inverse laws hybrid params vector s result few_matches few_near e =
        let (answer, h, paged, total) =
          answered_page db get_hybrid count_hybrid candidate_limit inverse hybrid params vector s
            result e in
        (
          h.full,
          IsHybrid-IsRanking db inverse params vector candidate_limit (db.rows s) answer
              (laws.id_key s) h,
          paged,
          All-keep_pass _ (is_hybrid_hit db params vector) (db.rows s) (
              All-of_Mem (db.rows s) (λ row m.
                IsHybrid-Mem inverse params vector candidate_limit (db.rows s) answer h few_matches
                  few_near row m)),
        )
