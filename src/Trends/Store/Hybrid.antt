-- ===== src/Trends/Store/Hybrid.antt =====
-- `searchHybrid`: the candidates of a keyword and of a vector search, fused by their ranks.
pub mod Fused
pub mod Joined
pub mod Ranks
pub mod Answer
pub mod Complete
use mathlib.Core.List.{Perm}
use tech_trends.Base.{
  ℕ, suc, ◌+◌, ◌≤◌, ◌≡◌, ◌==◌, Bool, true, false, not, ◌&&◌, ◌||◌, if◌then◌else◌, List, [], ◌∷◌,
  ◌++◌, Option, none, some, is_some, leb, length, map, keep, concat, min, Text, Action, pure, ok,
  ◌>>=◌, Column, ascending, descending, ordered, IsSorted, take, drop,
}
use tech_trends.Trends.Data.{TechTrend, Vector}
use tech_trends.Trends.World.{Failure}
use tech_trends.Trends.Query.{page_offset}
use tech_trends.Trends.Store.{
  SelectQuery, create_query_builder, Database, SearchParams, SearchResult, ListCountParams,
  is_of_source, is_of_day, created_at,
}
use tech_trends.Trends.Store.Selected.{passes}
use tech_trends.Trends.Store.Related.{distance_to}

-- `SELECT trend.id, ROW_NUMBER() OVER (ORDER BY …) AS rank … LIMIT …`: an identifier and its rank.
abbrev pub Candidate : Type 0
Candidate = ℕ × ℕ

abbrev pub row_numbers : ℕ → List TechTrend → List Candidate
row_numbers k [] = []
row_numbers k (row ∷ rows) = (row.id, k) ∷ row_numbers (suc k) rows

-- `LIMIT` stands without an order of the result: the rows that it leaves out may be any.
pub record IsCandidates (q : SelectQuery) (limit : ℕ) (rows : List TechTrend)
    (candidates : List Candidate) : Type 0 where
  pub full : List TechTrend
  pub full_perm : Perm full (keep (passes q.conditions) rows)
  pub full_sorted : IsSorted (ordered q.order) full
  pub left_out : List Candidate
  pub chosen : Perm (candidates ++ left_out) (row_numbers 1 full)
  pub enough : length candidates ≡ min limit (length full)

pub record HybridQuery : Type 0 where
  pub keyword : SelectQuery
  pub vector : SelectQuery
  pub candidate_limit : ℕ
  pub rrf_k : ℕ
  pub skipped : ℕ
  pub taken : ℕ

abbrev pub rank_of : ℕ → List Candidate → Option ℕ
rank_of id [] = none
rank_of id ((i, rank) ∷ cs) = if id == i then some rank else rank_of id cs

abbrev pub Joined : Type 0
Joined = ℕ × Option ℕ × Option ℕ

abbrev pub from_keyword : List Candidate → Candidate → Joined
from_keyword vs (id, rank) = (id, some rank, rank_of id vs)

abbrev pub is_vector_only : List Candidate → Candidate → Bool
is_vector_only ks v = not (is_some (rank_of v.0 ks))

abbrev pub from_vector : Candidate → Joined
from_vector (id, rank) = (id, none, some rank)

-- `keyword_ranked k FULL OUTER JOIN vector_ranked v ON k.id = v.id`
unfoldable pub full_outer_join : List Candidate → List Candidate → List Joined
full_outer_join ks vs = map (from_keyword vs) ks ++ map from_vector (keep (is_vector_only ks) vs)

module _ (inverse : ℕ → ℕ) (rrf_k : ℕ) where
  -- `COALESCE(1.0 / (60 + rank), 0)`
  abbrev pub rank_score : Option ℕ → ℕ
  rank_score none = 0
  rank_score (some rank) = inverse (rrf_k + rank)

  -- An identifier is once in each of the two lists, so `DISTINCT` has nothing to drop.
  abbrev pub rrf_entry : Joined → ℕ × ℕ
  rrf_entry (id, k, v) = (id, rank_score k + rank_score v)

  unfoldable pub rrf : List Candidate → List Candidate → List (ℕ × ℕ)
  unfolding full_outer_join
  rrf ks vs = map rrf_entry (full_outer_join ks vs)

-- `rrf JOIN tbl_tech_trends trend ON trend.id = rrf.id`
abbrev pub Scored : Type 0
Scored = TechTrend × ℕ

abbrev pub join_one : List TechTrend → ℕ × ℕ → List Scored
join_one rows (id, score) = map (λ row. (row, score)) (keep (λ row. row.id == id) rows)

unfoldable pub join_rows : List TechTrend → List (ℕ × ℕ) → List Scored
join_rows rows entries = concat (map (join_one rows) entries)

module _ (db : Database) where
  abbrev pub hybrid_order : List (Column Scored)
  hybrid_order =
      descending (λ r. r.1) ∷ descending (λ r. created_at db r.0) ∷ descending (λ r. r.0.id) ∷ []

  unfoldable pub keyword_candidates : Text → ListCountParams → SelectQuery
  keyword_candidates search filters = record create_query_builder {
    conditions =
        is_of_source filters.source ∷ is_of_day db filters.is_new ∷ db.is_match search ∷ [];
    order =
        descending (db.ts_rank search)
        ∷ descending (created_at db)
        ∷ descending (λ row. row.id)
        ∷ [];
  }

  abbrev pub is_near : Vector → TechTrend → Bool
  is_near vector row =
      is_some row.embedding && leb (distance_to db vector row) db.vector_distance_threshold

  unfoldable pub vector_candidates : Vector → ListCountParams → SelectQuery
  vector_candidates vector filters = record create_query_builder {
    conditions = is_of_source filters.source ∷ is_of_day db filters.is_new ∷ is_near vector ∷ [];
    order =
        ascending (distance_to db vector)
        ∷ descending (created_at db)
        ∷ descending (λ row. row.id)
        ∷ [];
  }

  unfoldable pub hybrid_query : ℕ → SearchParams → Vector → HybridQuery
  unfolding keyword_candidates vector_candidates
  hybrid_query candidate_limit params vector = record {
    keyword = keyword_candidates params.search params.filters;
    vector = vector_candidates vector params.filters;
    candidate_limit = candidate_limit;
    rrf_k = 60;
    skipped = page_offset params.page params.limit;
    taken = params.limit;
  }

  -- What the answer to the statement is, with `inverse` for the quotients.
  pub record IsHybrid (inverse : ℕ → ℕ) (q : HybridQuery) (rows answer : List TechTrend)
      : Type 0 where
    pub ks : List Candidate
    pub vs : List Candidate
    pub ks_chosen : IsCandidates q.keyword q.candidate_limit rows ks
    pub vs_chosen : IsCandidates q.vector q.candidate_limit rows vs
    pub full : List Scored
    pub full_perm : Perm full (join_rows rows (rrf inverse q.rrf_k ks vs))
    pub full_sorted : IsSorted (ordered hybrid_order) full
    pub answer_eq : answer ≡ map (λ r. r.0) (take q.taken (drop q.skipped full))

  -- The count is another statement, which chooses its candidates anew.
  pub record IsHybridCount (q : HybridQuery) (rows : List TechTrend) (n : ℕ) : Type 0 where
    pub ks : List Candidate
    pub vs : List Candidate
    pub ks_chosen : IsCandidates q.keyword q.candidate_limit rows ks
    pub vs_chosen : IsCandidates q.vector q.candidate_limit rows vs
    pub count_eq : n ≡ length (full_outer_join ks vs)

  module _ (get_hybrid : HybridQuery → Action db.State Failure (List TechTrend))
      (count_hybrid : HybridQuery → Action db.State Failure ℕ) (candidate_limit : ℕ) where
    unfoldable pub search_hybrid : SearchParams → Vector → Action db.State Failure SearchResult
    unfolding hybrid_query
    search_hybrid params vector = do
      data_rows ← get_hybrid (hybrid_query candidate_limit params vector)
      total_count ← count_hybrid (hybrid_query candidate_limit params vector)
      pure (record { found = data_rows; total_count = total_count })

    pub record HybridLaws (inverse : ℕ → ℕ) : Type 0 where
      pub get_hybrid_ok :
          (q : HybridQuery) (s : db.State) (answer : List TechTrend)
          → (get_hybrid q s).0 ≡ ok answer
          → IsHybrid inverse q (db.rows s) answer
      pub count_hybrid_ok :
          (q : HybridQuery) (s : db.State) (n : ℕ)
          → (count_hybrid q s).0 ≡ ok n
          → IsHybridCount q (db.rows s) n
