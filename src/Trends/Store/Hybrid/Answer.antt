-- ===== src/Trends/Store/Hybrid/Answer.antt =====
-- What a hybrid search answers.
use mathlib.Core.Bool.{Bool-set}
use mathlib.Core.List.{Mem}
use mathlib.Core.List.Perm
use tech_trends.Base.{
  All-map, Option, none, some, inl, inr, Option-cases, false, leb, ℕ, ◌+◌, ◌-◌, ◌*◌, ◌≤◌, ◌≡◌, sym,
  ap, ◌∙◌, subst, Bool, true, ◌&&◌, ◌||◌, List, arith, length, length-append, length-map,
  length-keep-le, map, keep, All, take, map-take, map-drop, Keyed, Keyed-perm, All-perm, refl,
  fun_ext, ordered, IsSorted, ok, >>=-pure-eq-ok, >>=-eq-ok, pure, ◌>>=◌, Action,
}
use tech_trends.Trends.Data.{TechTrend, Vector}
use tech_trends.Trends.World.{Failure}
use tech_trends.Trends.Query.{page_offset}
use tech_trends.Trends.Store.{SearchParams, SearchResult, Database}
use tech_trends.Trends.Store.Selected.{passes, Laws}
use tech_trends.Trends.Store.Orders.{is_listed}
use tech_trends.Trends.Store.Pages.{page_rows}
use tech_trends.Trends.Store.Hybrid.{
  rank_of, rank_score, Candidate, IsCandidates, full_outer_join, from_keyword, is_vector_only,
  from_vector, rrf, Scored, join_rows, hybrid_order, keyword_candidates, vector_candidates, is_near,
  HybridQuery, hybrid_query, IsHybrid, IsHybridCount, search_hybrid, HybridLaws,
}
use tech_trends.Trends.Store.Precedence.{larger_first, is_in, is_in-is_listed}
use tech_trends.Trends.Store.Hybrid.Joined.{
  IsRanked, full-IsRanked, candidates-listed, joined_keyword, joined_vector,
}
use tech_trends.Trends.Store.Hybrid.Fused.{
  IsCandidates-Keyed, IsCandidates-AllHit, AllHit-rrf, join_rows-hit, rrf-Keyed, join_rows-Keyed,
}
use tech_trends.Trends.Store.Hybrid.Ranks.{fused_score, rrf-fused_score, join_rows-score}

-- What an identifier scores by its rank in one list: the quotient of 60 and the rank, or nothing.
abbrev pub share : (ℕ → ℕ) → Option ℕ → ℕ
share inverse none = 0
share inverse (some rank) = inverse (60 + rank)

abbrev pub score_of : (ℕ → ℕ) → List Candidate → List Candidate → ℕ → ℕ
score_of inverse ks vs id = share inverse (rank_of id ks) + share inverse (rank_of id vs)

share-rank_score :
    (inverse : ℕ → ℕ) (rank : Option ℕ) → rank_score inverse 60 rank ≡ share inverse rank
share-rank_score inverse none = refl
share-rank_score inverse (some rank) = refl

score_of-fused_score :
    (inverse : ℕ → ℕ) (ks vs : List Candidate) (id : ℕ)
    → fused_score inverse 60 ks vs id ≡ score_of inverse ks vs id
score_of-fused_score inverse ks vs id =
    rw (share-rank_score inverse (rank_of id ks), share-rank_score inverse (rank_of id vs)) refl

module _ (db : Database) where
  -- An embedding that is there, and not too far away.
  abbrev is_within : Vector → Option Vector → Bool
  is_within vector none = false
  is_within vector (some v) = leb (db.distance v vector) db.vector_distance_threshold

  -- A row that either search may find.
  abbrev pub is_hybrid_hit : SearchParams → Vector → TechTrend → Bool
  is_hybrid_hit params vector row =
      is_in db params.filters row
      && (db.is_match params.search row || is_within vector row.embedding)

  is_within-is_near :
      (vector : Vector) (row : TechTrend) → is_within vector row.embedding ≡ is_near db vector row
  is_within-is_near vector row = elim (Option-cases row.embedding) [
    | inl e ↦ rw e refl
    | inr (v, e) ↦ rw e refl
  ]

  -- The same by the conditions of the two queries.
  pub is_hybrid_hit-conditions :
      (params : SearchParams) (vector : Vector) (row : TechTrend)
      → is_hybrid_hit params vector row ≡ (
          is_listed db params.filters row
          && (db.is_match params.search row || is_near db vector row))
  is_hybrid_hit-conditions params vector row =
      rw (is_in-is_listed db params.filters row, is_within-is_near vector row) refl

  keyword_candidates-hit :
      (params : SearchParams) (vector : Vector) (row : TechTrend)
      → passes (keyword_candidates db params.search params.filters).conditions row ≡ true
      → is_hybrid_hit params vector row ≡ true
  unfolding keyword_candidates
  keyword_candidates-hit params vector row h =
      is_hybrid_hit-conditions params vector row ∙ ground arith

  vector_candidates-hit :
      (params : SearchParams) (vector : Vector) (row : TechTrend)
      → passes (vector_candidates db vector params.filters).conditions row ≡ true
      → is_hybrid_hit params vector row ≡ true
  unfolding vector_candidates
  vector_candidates-hit params vector row h =
      is_hybrid_hit-conditions params vector row ∙ ground arith

  -- Whether a scored row may come before another one: the larger score, the later date, the larger
  -- identifier.
  abbrev pub may_outrank : Scored → Scored → Bool
  may_outrank a b = larger_first a.1 b.1 (
      larger_first (db.time a.0.created_at) (db.time b.0.created_at)
        (larger_first a.0.id b.0.id true))

  may_outrank_eq : may_outrank ≡ ordered (hybrid_order db)
  unfolding ordered
  may_outrank_eq = fun_ext (λ a. fun_ext (λ b. refl))

  -- The scored rows that a hybrid search pages through, in order: the candidates of both searches and
  -- no other row, each identifier once, each row a hit, and each score that of the ranks in the two
  -- lists of candidates.
  pub record IsRanking (inverse : ℕ → ℕ) (params : SearchParams) (vector : Vector) (limit : ℕ)
      (rows : List TechTrend) (full : List Scored) : Type 0 where
    pub ks : List Candidate
    pub vs : List Candidate
    pub ks_chosen : IsCandidates (keyword_candidates db params.search params.filters) limit rows ks
    pub vs_chosen : IsCandidates (vector_candidates db vector params.filters) limit rows vs
    pub keyword_listed : All (λ c. Mem c.0 (map (λ r. r.0.id) full)) ks
    pub vector_listed : All (λ c. Mem c.0 (map (λ r. r.0.id) full)) vs
    pub ranked : All (λ r. IsRanked ks vs r.0.id) full
    pub sorted : IsSorted may_outrank full
    pub keyed : Keyed (λ r. r.0.id) full
    pub hits : All (λ r. is_hybrid_hit params vector r.0 ≡ true) full
    pub scores : All (λ r. r.1 ≡ score_of inverse ks vs r.0.id) full

  length-full_outer_join :
      (ks vs : List Candidate) → length (full_outer_join ks vs) ≤ length ks + length vs
  unfolding full_outer_join
  length-full_outer_join ks vs = omega (
    arith,
    length-append (map (from_keyword vs) ks) (map from_vector (keep (is_vector_only ks) vs)),
    length-map (from_keyword vs) ks,
    length-map from_vector (keep (is_vector_only ks) vs),
    length-keep-le (is_vector_only ks) vs,
  )

  pub IsHybrid-IsRanking :
      (inverse : ℕ → ℕ) (params : SearchParams) (vector : Vector) (limit : ℕ)
      (rows answer : List TechTrend)
      → Keyed (λ row. row.id) rows
      → (h : IsHybrid db inverse (hybrid_query db limit params vector) rows answer)
      → IsRanking inverse params vector limit rows h.full
  unfolding hybrid_query
  IsHybrid-IsRanking inverse params vector limit rows answer keyed h =
      let ks_keyed = IsCandidates-Keyed _ limit rows keyed h.ks h.ks_chosen in
      let vs_keyed = IsCandidates-Keyed _ limit rows keyed h.vs h.vs_chosen in
      let joined = join_rows rows (rrf inverse 60 h.ks h.vs) in
      let perm = Perm.symm h.full_perm in
      record {
        ks = h.ks;
        vs = h.vs;
        ks_chosen = h.ks_chosen;
        vs_chosen = h.vs_chosen;
        keyword_listed =
            candidates-listed _ limit rows h.ks h.ks_chosen inverse 60 h.ks h.vs h.full h.full_perm
              (joined_keyword h.ks h.vs);
        vector_listed =
            candidates-listed _ limit rows h.vs h.vs_chosen inverse 60 h.ks h.vs h.full h.full_perm
              (joined_vector h.ks h.vs);
        ranked = full-IsRanked inverse 60 h.ks h.vs rows h.full h.full_perm;
        sorted = subst (λ o. IsSorted o h.full) (sym may_outrank_eq) h.full_sorted;
        keyed =
            Keyed-perm (λ r. r.0.id) joined h.full perm
              (join_rows-Keyed rows _ keyed (rrf-Keyed inverse 60 h.ks h.vs ks_keyed vs_keyed));
        hits =
            All-perm (λ r. Bool-set _ true) joined h.full perm
              (join_rows-hit inverse 60 (is_hybrid_hit params vector) rows _ (
                AllHit-rrf inverse 60 (is_hybrid_hit params vector) rows h.ks h.vs
                  (IsCandidates-AllHit _ limit rows keyed h.ks h.ks_chosen
                    (is_hybrid_hit params vector) (keyword_candidates-hit params vector))
                  (IsCandidates-AllHit _ limit rows keyed h.vs h.vs_chosen
                    (is_hybrid_hit params vector) (vector_candidates-hit params vector))));
        scores =
            All-map (λ r e. e ∙ score_of-fused_score inverse h.ks h.vs r.0.id) h.full
              (All-perm (λ r. hlevel) joined h.full perm
                (join_rows-score inverse 60 h.ks h.vs rows _
                  (rrf-fused_score inverse 60 h.ks h.vs ks_keyed vs_keyed)));
      }

  IsHybridCount-le :
      (params : SearchParams) (vector : Vector) (limit : ℕ) (rows : List TechTrend) (n : ℕ)
      → IsHybridCount db (hybrid_query db limit params vector) rows n
      → n ≤ 2 * limit
  unfolding hybrid_query
  IsHybridCount-le params vector limit rows n h =
      omega (
        arith,
        h.count_eq,
        length-full_outer_join h.ks h.vs,
        h.ks_chosen.enough,
        h.vs_chosen.enough,
      )

  module _ (get_hybrid : HybridQuery → Action db.State Failure (List TechTrend))
      (count_hybrid : HybridQuery → Action db.State Failure ℕ) (candidate_limit : ℕ) where
    -- What the database answered to the two statements of an answered search.
    pub answered_page :
        (inverse : ℕ → ℕ)
        → HybridLaws db get_hybrid count_hybrid candidate_limit inverse
        → (params : SearchParams) (vector : Vector) (s : db.State) (result : SearchResult)
        → (search_hybrid db get_hybrid count_hybrid candidate_limit params vector s).0 ≡ ok result
        → (answer : List TechTrend) × (h : IsHybrid db inverse
            (hybrid_query db candidate_limit params vector)
            (db.rows s)
            answer)
          × (result.found ≡ page_rows params.page params.limit (map (λ r. r.0) h.full))
          × (result.total_count ≤ 2 * candidate_limit)
    unfolding search_hybrid page_offset hybrid_query
    answered_page inverse hybrid params vector s result e =
        let q = hybrid_query db candidate_limit params vector in
        let (data_rows, f, g) =
          >>=-eq-ok (get_hybrid q)
            (λ data_rows.
              count_hybrid q >>= λ n. pure (record { found = data_rows; total_count = n }))
            s result e in
        let (n, counted, same, _) =
          >>=-pure-eq-ok (count_hybrid q) (λ n. record { found = data_rows; total_count = n })
            (get_hybrid q s).1 result g in
        let h = hybrid.get_hybrid_ok q s data_rows f in
        (
          data_rows,
          h,
          ap (λ r. r.found) same
              ∙ h.answer_eq
              ∙ map-take (λ r. r.0) params.limit _
              ∙ ap (take params.limit)
                  (map-drop (λ r. r.0) ((params.page - 1) * params.limit) h.full),
          subst (λ m. m ≤ 2 * candidate_limit) (sym (ap (λ r. r.total_count) same))
              (IsHybridCount-le params vector candidate_limit (db.rows (get_hybrid q s).1) n
                (hybrid.count_hybrid_ok q (get_hybrid q s).1 n counted)),
        )

    -- A hybrid search that is answered has a page of one ranking. The ranking lists every candidate of
    -- both searches, which are as many as there are up to the limit, and nothing else; each identifier
    -- once; each row a hit of one of the searches with the filters. It goes by the scores that the
    -- ranks in both lists give, the largest first, and where they tie by later dates, then by larger
    -- identifiers. The total count is at most twice the limit of candidates.
    pub search_hybrid_lem :
        (inverse : ℕ → ℕ)
        → Laws db
        → HybridLaws db get_hybrid count_hybrid candidate_limit inverse
        → (params : SearchParams) (vector : Vector) (s : db.State) (result : SearchResult)
        → (search_hybrid db get_hybrid count_hybrid candidate_limit params vector s).0 ≡ ok result
        → (full : List Scored) × IsRanking inverse params vector candidate_limit (db.rows s) full
          × (result.found ≡ page_rows params.page params.limit (map (λ r. r.0) full))
          × (result.total_count ≤ 2 * candidate_limit)
    search_hybrid_lem inverse laws hybrid params vector s result e =
        let (answer, h, paged, total) = answered_page inverse hybrid params vector s result e in
        (
          h.full,
          IsHybrid-IsRanking inverse params vector candidate_limit (db.rows s) answer
              (laws.id_key s) h,
          paged,
          total,
        )
