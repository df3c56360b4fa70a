-- ===== src/Trends/Service.antt =====
-- trends-query.service.ts: what lists, searches and the sources answer, over the store, the cache and
-- the embedding of a search.
pub mod Answers
mod Tests
use tech_trends.Base.{
  leb, ◌&&◌, true, Bool, ℕ, ltb, Bool, true, false, if◌then◌else◌, List, [], ◌∷◌, Option, none,
  some, length, Text, units, Result, ok, err, Action, pure, ◌>>=◌,
}
use tech_trends.Common.Text.Matchers.{trim}
use tech_trends.Trends.Data.{TechTrend, Vector}
use tech_trends.Trends.World.{Failure}
use tech_trends.Trends.Query.{or_null, total_pages}
use tech_trends.Trends.Store.{
  SortOption, created_desc, relevance, ListCountParams, ListTrendsParams, SearchParams,
  SearchResult,
}

-- A query as it comes in: what is missing has a default.
pub record ListTrendsQuery : Type 0 where
  pub page : Option ℕ
  pub limit : Option ℕ
  pub source : Option Text
  pub is_new : Option Bool
  pub sort : Option SortOption

pub data SearchType : Type 0 where
  hybrid : SearchType
  keyword : SearchType

pub record SearchTrendsQuery : Type 0 where
  pub list : ListTrendsQuery
  pub search : Text
  pub search_type : Option SearchType

pub record TrendsPage : Type 0 where
  pub found : List TechTrend
  pub total_count : ℕ
  pub total_pages : ℕ
  pub items_per_page : ℕ
  pub current_page : ℕ

abbrev pub with_default {ℓ} : {A : Type ℓ} → A → Option A → A
with_default d none = d
with_default d (some a) = a

abbrev pub filters_of : ListTrendsQuery → ListCountParams
filters_of query = record {
  source = with_default (units "ALL") query.source;
  is_new = with_default false query.is_new;
}

abbrev pub page_of : ListTrendsQuery → ℕ
page_of query = with_default 1 query.page

abbrev pub limit_of : ListTrendsQuery → ℕ
limit_of query = with_default 5 query.limit

-- What the validation of a query lets through, field by field: `Min` and `Max` of a number that is
-- given.
abbrev pub is_at_least : ℕ → Option ℕ → Bool
is_at_least n none = true
is_at_least n (some m) = leb n m

abbrev pub is_at_most : ℕ → Option ℕ → Bool
is_at_most n none = true
is_at_most n (some m) = leb m n

abbrev pub is_valid_list : ListTrendsQuery → Bool
is_valid_list query =
    is_at_least 1 query.page && (is_at_least 1 query.limit && is_at_most 100 query.limit)

abbrev pub trends_page : ListTrendsQuery → List TechTrend → ℕ → TrendsPage
trends_page query found total_count = record {
  found = found;
  total_count = total_count;
  total_pages = total_pages total_count (limit_of query);
  items_per_page = limit_of query;
  current_page = page_of query;
}

abbrev pub list_params : ListTrendsQuery → ListTrendsParams
list_params query = record {
  filters = filters_of query;
  page = page_of query;
  limit = limit_of query;
  sort = with_default created_desc query.sort;
}

abbrev pub search_params : SearchTrendsQuery → SearchParams
search_params query = record {
  filters = filters_of query.list;
  page = page_of query.list;
  limit = limit_of query.list;
  search = trim query.search;
  sort = some (with_default relevance query.list.sort);
}

-- A handler that catches answers with a page, or with 500.
pub data Answer (A : Type 0) : Type 0 where
  answer : A → Answer A
  internal_server_error : Answer A

abbrev pub caught : {A : Type 0} → Result Failure A → Answer A
caught (ok a) = answer a
caught (err e) = internal_server_error

module _ {S : Type 0} (list_trends : ListTrendsParams → Action S Failure (List TechTrend))
    (get_list_count : ListCountParams → Action S Failure ℕ) where
  unfoldable pub list_page : ListTrendsQuery → Action S Failure TrendsPage
  list_page query = do
    found ← list_trends (list_params query)
    total_count ← get_list_count (filters_of query)
    pure (trends_page query found total_count)

  unfoldable pub list_answer : ListTrendsQuery → S → Answer TrendsPage × S
  unfolding list_page
  list_answer query s = let (r, t) = list_page query s in (caught r, t)

module _ {S : Type 0} (embed_search_query : Text → S → Option Vector × S)
    (search_keyword : SearchParams → Action S Failure SearchResult)
    (search_hybrid : SearchParams → Vector → Action S Failure SearchResult) where
  unfoldable pub search_by_vector : SearchParams → Option Vector → Action S Failure SearchResult
  search_by_vector params none = search_keyword params
  search_by_vector params (some []) = search_keyword params
  search_by_vector params (some (x ∷ v)) = search_hybrid params (x ∷ v)

  unfoldable pub search_by_type : SearchType → SearchParams → Action S Failure SearchResult
  unfolding search_by_vector
  search_by_type keyword params s = search_keyword params s
  search_by_type hybrid params s =
      let (vector, t) = embed_search_query params.search s in search_by_vector params vector t

  unfoldable pub search_trends : SearchTrendsQuery → Action S Failure TrendsPage
  unfolding search_by_type
  search_trends query = do
    result ← search_by_type (with_default hybrid query.search_type) (search_params query)
    pure (trends_page query.list result.found result.total_count)

module _ {S : Type 0} (get_sources : Action S Failure (Option (List Text)))
    (find_unique_sources : Action S Failure (List Text))
    (set_sources : List Text → Action S Failure (Unit {0})) where
  -- The outcome of the cache write is not awaited, and its failure only logged.
  abbrev pub write_cache : Action S Failure (Unit {0}) → S → S
  write_cache write s = (write s).1

  abbrev pub sources_loaded : Result Failure (List Text) → S → Answer (List Text) × S
  sources_loaded (ok sources) s = (answer sources, write_cache (set_sources sources) s)
  sources_loaded (err e) s = (internal_server_error, s)

  abbrev pub sources_after : Option (List Text) → S → Answer (List Text) × S
  sources_after (some sources) s = (answer sources, s)
  sources_after none s = let (r, t) = find_unique_sources s in sources_loaded r t

  unfoldable pub get_unique_sources : S → Answer (List Text) × S
  get_unique_sources s = let (r, t) = get_sources s in sources_after (or_null r) t
