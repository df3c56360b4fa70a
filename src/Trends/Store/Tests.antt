-- ===== src/Trends/Store/Tests.antt =====
-- Lists and searches of the two rows of the demonstration.
use mathlib.Core.List.{Mem, Perm}
use mathlib.Core.Bool.{true}
use tech_trends.Base.{
  ℕ, ◌*◌, ◌≤◌, ◌≡◌, ◌≢◌, refl, false, List, [], ◌∷◌, none, arith, map, length, concat, min, keep,
  All, units, ok, count_from, IsSorted, sort_by, ordered,
}
use tech_trends.Trends.Data.{TechTrend}
use tech_trends.Trends.Query.{total_pages, page_offset}
use tech_trends.Trends.Store.{
  ListCountParams, ListTrendsParams, SearchParams, SearchResult, like_desc, list_trends,
  count_trends, apply_list_filters, list_query, keyword_count_query, keyword_query, search_keyword,
}
use tech_trends.Trends.Store.Orders.{listed}
use tech_trends.Trends.Store.Pages.{page_rows, list_trends_lem, list_trends_pages}
use tech_trends.Trends.Store.Related.{
  is_related, related_query, find_related_by_embedding, nearest_first,
  find_related_by_embedding_lem,
}
use tech_trends.Trends.Store.Hybrid.{
  Scored, rrf, full_outer_join, join_rows, hybrid_query, keyword_candidates, vector_candidates,
  search_hybrid,
}
use tech_trends.Trends.Store.Hybrid.Complete.{search_hybrid_complete}
use tech_trends.Trends.Store.Hybrid.Answer.{is_hybrid_hit, IsRanking, search_hybrid_lem}
use tech_trends.Trends.Store.Demo.{
  row_of, table, demo, demo_laws, demo_inverse, demo_hybrid, demo_hybrid_count, demo_hybrid_laws,
}

abbrev dev_to : ListCountParams
dev_to = record { source = units "dev.to"; is_new = false }

abbrev most_liked : ℕ → ListTrendsParams
most_liked page = record { filters = dev_to; page = page; limit = 1; sort = like_desc }

abbrev ant : TechTrend
ant = row_of 1 "ant" 10

abbrev antelope : TechTrend
antelope = row_of 2 "antelope" 30

first_page : (list_trends demo (most_liked 1) tt).0 ≡ ok (antelope ∷ [])
unfolding list_trends list_query apply_list_filters page_offset sort_by ordered
first_page = refl

list_trends_lem_example : antelope ∷ [] ≡ page_rows 1 1 (listed demo like_desc dev_to table)
list_trends_lem_example =
    list_trends_lem demo demo_laws (most_liked 1) tt (antelope ∷ []) first_page

abbrev liked_page : ℕ → List TechTrend
liked_page page = page_rows page 1 (antelope ∷ ant ∷ [])

two_listed : (count_trends demo dev_to tt).0 ≡ ok 2
unfolding count_trends apply_list_filters
two_listed = refl

liked_pages : (page : ℕ) → (list_trends demo (most_liked page) tt).0 ≡ ok (liked_page page)
unfolding list_trends list_query apply_list_filters page_offset sort_by ordered
liked_pages page = refl

list_trends_pages_example :
    (2 ≡ length (listed demo like_desc dev_to table))
    × (concat (map liked_page (count_from 1 (total_pages 2 1)))
        ≡ listed demo like_desc dev_to table)
list_trends_pages_example =
    list_trends_pages demo demo_laws dev_to like_desc 1 2 tt liked_page (omega arith) two_listed
      (λ page p q. liked_pages page)

abbrev search_ant : ℕ → SearchParams
search_ant page = record {
  filters = dev_to;
  page = page;
  limit = 1;
  search = units "ant";
  sort = none;
}

abbrev ant_page : ℕ → SearchResult
ant_page page = record { found = page_rows page 1 (antelope ∷ ant ∷ []); total_count = 2 }

ant_pages : (page : ℕ) → (search_keyword demo (search_ant page) tt).0 ≡ ok (ant_page page)
unfolding search_keyword keyword_query keyword_count_query page_offset sort_by ordered
ant_pages page = refl

one_related : (find_related_by_embedding demo 1 (units "1" ∷ []) 5 tt).0 ≡ ok (antelope ∷ [])
unfolding find_related_by_embedding related_query sort_by
one_related = refl

find_related_by_embedding_lem_example :
    (length {A = TechTrend} (antelope ∷ [])
      ≡ min 5 (length (keep (is_related demo 1 (units "1" ∷ [])) table)))
    × All (λ row. (row.id ≢ 1) × (is_related demo 1 (units "1" ∷ []) row ≡ true)) (antelope ∷ [])
    × ((rest : List TechTrend) × Perm
          (antelope ∷ rest)
          (keep (is_related demo 1 (units "1" ∷ [])) table)
        × IsSorted (nearest_first demo 1 (units "1" ∷ [])) (antelope ∷ rest))
find_related_by_embedding_lem_example =
    find_related_by_embedding_lem demo 1 (units "1" ∷ []) demo_laws 5 tt (antelope ∷ []) one_related

abbrev fused_ant : SearchResult
fused_ant = record { found = antelope ∷ []; total_count = 2 }

fused :
    (search_hybrid demo demo_hybrid demo_hybrid_count 50 (search_ant 1) (units "1" ∷ []) tt).0
    ≡ ok fused_ant
unfolding search_hybrid hybrid_query keyword_candidates vector_candidates page_offset sort_by
    ordered rrf full_outer_join join_rows
fused = refl

search_hybrid_lem_example :
    (full : List Scored) × IsRanking demo demo_inverse (search_ant 1) (units "1" ∷ []) 50 table full
    × (fused_ant.found ≡ page_rows 1 1 (map (λ r. r.0) full))
    × (2 ≤ 2 * 50)
search_hybrid_lem_example =
    search_hybrid_lem demo demo_hybrid demo_hybrid_count 50 demo_inverse demo_laws demo_hybrid_laws
      (search_ant 1) (units "1" ∷ []) tt fused_ant fused

-- A page with room for more than there is.
abbrev wide_search : SearchParams
wide_search = record (search_ant 1) { limit = 10 }

abbrev fused_both : SearchResult
fused_both = record { found = antelope ∷ ant ∷ []; total_count = 2 }

fused_wide :
    (search_hybrid demo demo_hybrid demo_hybrid_count 50 wide_search (units "1" ∷ []) tt).0
    ≡ ok fused_both
unfolding search_hybrid hybrid_query keyword_candidates vector_candidates page_offset sort_by
    ordered rrf full_outer_join join_rows
fused_wide = refl

search_hybrid_complete_example :
    (full : List Scored) × IsRanking demo demo_inverse wide_search (units "1" ∷ []) 50 table full
    × (fused_both.found ≡ page_rows 1 10 (map (λ r. r.0) full))
    × All
        (λ row. Mem row (map (λ r. r.0) full))
        (keep (is_hybrid_hit demo wide_search (units "1" ∷ [])) table)
unfolding keyword_candidates vector_candidates
search_hybrid_complete_example =
    search_hybrid_complete demo demo_hybrid demo_hybrid_count 50 demo_inverse demo_laws
      demo_hybrid_laws wide_search (units "1" ∷ []) tt fused_both (omega arith) (omega arith)
      fused_wide
