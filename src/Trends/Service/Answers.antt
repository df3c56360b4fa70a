-- ===== src/Trends/Service/Answers.antt =====
-- The pages of a search, over the store.
use tech_trends.Base.{
  Bool, false, none, List, keep, refl, sort_by, units, Option-cases, inl, inr, true, ℕ, ◌≤◌, ◌<◌,
  ◌≡◌, ap, ◌∙◌, Option, some, map, length, concat, count_from, arith, ok, Action, >>=-pure-eq-ok,
  Text,
}
use tech_trends.Trends.Data.{TechTrend, Vector}
use tech_trends.Trends.World.{Failure}
use tech_trends.Trends.Query.{total_pages}
use tech_trends.Trends.Store.{
  SortOption, relevance, ListCountParams, SearchParams, SearchResult, Database, search_keyword,
}
use tech_trends.Common.Text.Matchers.{trim}
use tech_trends.Trends.Store.Precedence.{may_precede, may_precede_eq, is_match_in, is_match_in_eq}
use tech_trends.Trends.Store.Selected.{Laws, select}
use tech_trends.Trends.Store.Orders.{hits}
use tech_trends.Trends.Store.Pages.{page_rows, search_keyword_lem, concat-page_rows}
use tech_trends.Trends.Service.{
  ListTrendsQuery, SearchTrendsQuery, keyword, TrendsPage, filters_of, with_default, limit_of,
  is_valid_list, trends_page, search_params, search_by_type, search_trends,
}

-- The same query for another page.
abbrev pub at_page : ℕ → SearchTrendsQuery → SearchTrendsQuery
at_page page query = record query {
  list = record query.list { page = some page };
  search_type = some keyword;
}

-- A limit that is let through, or left to its default, is positive.
limit_of-pos : (query : ListTrendsQuery) → is_valid_list query ≡ true → 0 < limit_of query
limit_of-pos query valid = elim (Option-cases query.limit) [
  | inl missing ↦ rw missing (omega arith)
  | inr (n, given) ↦ rw given (ground (arith, given, valid))
]

-- What a search asks for: in all sources or one, in all days or today, and by which order.
abbrev pub asked_source : Option Text → Text
asked_source none = units "ALL"
asked_source (some source) = source

abbrev pub asked_new : Option Bool → Bool
asked_new none = false
asked_new (some is_new) = is_new

abbrev pub asked_sort : Option SortOption → SortOption
asked_sort none = relevance
asked_sort (some sort) = sort

module _ (db : Database) where
  -- The rows that match the trimmed words, in the order that the query asks for.
  unfoldable pub wanted : SearchTrendsQuery → List TechTrend → List TechTrend
  wanted query rows = sort_by (may_precede db (trim query.search) (asked_sort query.list.sort)) (
      keep
        (is_match_in db (trim query.search) (record {
          source = asked_source query.list.source;
          is_new = asked_new query.list.is_new;
        }))
        rows)

  asked_filters :
      (source : Option Text) (is_new : Option Bool)
      → ◌≡◌ {A = ListCountParams}
          (record { source = asked_source source; is_new = asked_new is_new })
          (record {
            source = with_default (units "ALL") source;
            is_new = with_default false is_new;
          })
  asked_filters none none = refl
  asked_filters none (some n) = refl
  asked_filters (some t) none = refl
  asked_filters (some t) (some n) = refl

  asked_sort-with_default :
      (sort : Option SortOption) → asked_sort sort ≡ with_default relevance sort
  asked_sort-with_default none = refl
  asked_sort-with_default (some sort) = refl

  hits-wanted :
      (query : SearchTrendsQuery) (rows : List TechTrend)
      → hits db (search_params (at_page 1 query)) rows ≡ wanted query rows
  unfolding hits select wanted
  hits-wanted query rows =
      rw
        (
          may_precede_eq db (trim query.search) (asked_sort query.list.sort),
          asked_sort-with_default query.list.sort,
          asked_filters query.list.source query.list.is_new,
          is_match_in_eq db (trim query.search) (filters_of query.list),
        )
        refl

module _ (db : Database) (laws : Laws db) (embed : Text → db.State → Option Vector × db.State)
    (search_hybrid : SearchParams → Vector → Action db.State Failure SearchResult) where
  keyword_page :
      (query : SearchTrendsQuery) (page : ℕ) (s : db.State) (p : TrendsPage)
      → (search_trends embed (search_keyword db) search_hybrid (at_page page query) s).0 ≡ ok p
      → (result : SearchResult) × ((search_keyword db (search_params (at_page page query)) s).0
          ≡ ok result)
        × (p ≡ trends_page (at_page page query).list result.found result.total_count)
  unfolding search_trends search_by_type
  keyword_page query page s p h =
      let (result, e, same, _) =
        >>=-pure-eq-ok (search_keyword db (search_params (at_page page query)))
          (λ result. trends_page (at_page page query).list result.found result.total_count) s p h in
      (result, e, same)

  found_page :
      (query : SearchTrendsQuery) (page : ℕ) (s : db.State) (p : TrendsPage)
      → (search_trends embed (search_keyword db) search_hybrid (at_page page query) s).0 ≡ ok p
      → p.found
        ≡ page_rows page
            (limit_of query.list)
            (hits db (search_params (at_page 1 query)) (db.rows s))
  unfolding hits
  found_page query page s p h =
      let (result, e, same) = keyword_page query page s p h in
      ap (λ p. p.found) same
      ∙ (search_keyword_lem db laws (search_params (at_page page query)) s result e).0

  -- For a query that passes validation: a client that reads from the first page of a keyword search
  -- how many there are, and fetches them all from a table that stays the same, has all rows of the
  -- source and the day asked for that match the trimmed words; they come in the order asked for, by
  -- relevance where none is, and where they tie the ones of later dates first, then those of larger
  -- identifiers, or the other way round for the ascending orders. The total count that it reads is
  -- their number.
  pub search_trends_pages :
      (query : SearchTrendsQuery) (s : db.State) (pages : ℕ → TrendsPage)
      → is_valid_list query.list ≡ true
      → ((page : ℕ)
          → 1 ≤ page
          → (search_trends embed (search_keyword db) search_hybrid (at_page page query) s).0
            ≡ ok (pages page))
      → let all_hits = wanted db query (db.rows s) in
        ((pages 1).total_count ≡ length all_hits)
        × (concat (map (λ page. (pages page).found) (count_from 1 (pages 1).total_pages))
            ≡ all_hits)
  search_trends_pages query s pages valid h =
      let pos = limit_of-pos query.list valid in
      let all_hits = hits db (search_params (at_page 1 query)) (db.rows s) in
      let (first, e, same) = keyword_page query 1 s (pages 1) (h 1 (omega arith)) in
      let (_, counted) = search_keyword_lem db laws (search_params (at_page 1 query)) s first e in
      let total = ap (λ p. p.total_count) same ∙ counted in
      let meant = hits-wanted db query (db.rows s) in
      (
        total ∙ ap length meant,
        ap (λ n. concat (map (λ page. (pages page).found) (count_from 1 n)))
              (ap (λ p. p.total_pages) same ∙ ap (λ n. total_pages n (limit_of query.list)) counted)
            ∙ concat-page_rows (λ page. (pages page).found) (limit_of query.list) all_hits pos
                (λ page p _. found_page query page s (pages page) (h page p))
            ∙ meant,
      )
