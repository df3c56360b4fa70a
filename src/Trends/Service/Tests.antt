-- ===== src/Trends/Service/Tests.antt =====
-- A keyword search over the two rows of the store's demonstration, one to a page.
use tech_trends.Base.{
  ℕ, ◌≡◌, refl, [], ◌∷◌, Option, none, some, map, length, concat, count_from, units, Text, Action,
  err, ok, sort_by, ordered,
}
use tech_trends.Common.Text.Matchers.{trim}
use tech_trends.Trends.Data.{Vector}
use tech_trends.Trends.World.{Failure}
use tech_trends.Trends.Query.{page_offset, total_pages}
use tech_trends.Trends.Store.{
  SearchParams, SearchResult, search_keyword, keyword_query, keyword_count_query,
}
use tech_trends.Trends.Store.Pages.{page_rows}
use tech_trends.Trends.Store.Demo.{row_of, table, demo, demo_laws}
use tech_trends.Trends.Service.{SearchTrendsQuery, TrendsPage, search_by_type, search_trends}
use tech_trends.Trends.Service.Answers.{at_page, wanted, search_trends_pages}

abbrev no_embedding : Text → Unit {0} → Option Vector × Unit {0}
no_embedding query s = (none, s)

abbrev no_hybrid : SearchParams → Vector → Action Unit Failure SearchResult
no_hybrid params vector s = (err (units "down"), s)

abbrev one_each : SearchTrendsQuery
one_each = record {
  list = record { page = none; limit = some 1; source = none; is_new = none; sort = none };
  search = units " ant ";
  search_type = none;
}

abbrev ant_pages : ℕ → TrendsPage
ant_pages page = record {
  found = page_rows page 1 (row_of 2 "antelope" 30 ∷ row_of 1 "ant" 10 ∷ []);
  total_count = 2;
  total_pages = 2;
  items_per_page = 1;
  current_page = page;
}

pages_answered :
    (page : ℕ)
    → (search_trends no_embedding (search_keyword demo) no_hybrid (at_page page one_each) tt).0
      ≡ ok (ant_pages page)
unfolding search_trends search_by_type search_keyword keyword_query keyword_count_query page_offset
    sort_by ordered total_pages trim
pages_answered page = refl

search_trends_pages_example :
    let all_hits = wanted demo one_each table in
    (2 ≡ length all_hits)
    × (concat (map (λ page. (ant_pages page).found) (count_from 1 2)) ≡ all_hits)
search_trends_pages_example =
    search_trends_pages demo demo_laws no_embedding no_hybrid one_each tt ant_pages refl
      (λ page p. pages_answered page)
