-- ===== src/Trends/Store.antt =====
-- The queries of tech-trend.repository.ts that serve pages, over a database that answers them.
pub mod Selected
pub mod Orders
pub mod Precedence
pub mod Pages
pub mod Related
pub mod Hybrid
pub mod Demo
mod Tests
use tech_trends.Base.{
  ℕ, ◌+◌, ◌-◌, ◌*◌, ◌&&◌, not, ◌||◌, Bool, true, false, if◌then◌else◌, leb, ltb, List, [], ◌∷◌,
  ◌++◌, Option, none, some, map, keep, length, Text, units, text_eq, Action, pure, ◌>>=◌, Column,
  ascending, descending, descending_nulls_last,
}
use tech_trends.Trends.Data.{TechTrend, JsDate, Vector}
use tech_trends.Trends.World.{Failure}
use tech_trends.Trends.Query.{page_offset}

pub data SortOption : Type 0 where
  created_desc : SortOption
  created_asc : SortOption
  mined_desc : SortOption
  mined_asc : SortOption
  like_desc : SortOption
  view_desc : SortOption
  comment_desc : SortOption
  relevance : SortOption

pub record ListCountParams : Type 0 where
  pub source : Text
  pub is_new : Bool

pub record ListTrendsParams : Type 0 where
  pub filters : ListCountParams
  pub page : ℕ
  pub limit : ℕ
  pub sort : SortOption

pub record SearchParams : Type 0 where
  pub filters : ListCountParams
  pub page : ℕ
  pub limit : ℕ
  pub search : Text
  pub sort : Option SortOption

pub record SearchResult : Type 0 where
  pub found : List TechTrend
  pub total_count : ℕ

-- `SELECT … WHERE … ORDER BY … LIMIT … OFFSET …`, as a query builder or a text gives it.
pub record SelectQuery : Type 0 where
  pub conditions : List (TechTrend → Bool)
  pub order : List (Column TechTrend)
  pub skipped : ℕ
  pub taken : Option ℕ

abbrev pub create_query_builder : SelectQuery
create_query_builder = record { conditions = []; order = []; skipped = 0; taken = none }

abbrev pub and_where : (TechTrend → Bool) → SelectQuery → SelectQuery
and_where p qb = record qb { conditions = qb.conditions ++ p ∷ [] }

abbrev pub order_by : Column TechTrend → SelectQuery → SelectQuery
order_by c qb = record qb { order = c ∷ [] }

abbrev pub add_order_by : Column TechTrend → SelectQuery → SelectQuery
add_order_by c qb = record qb { order = qb.order ++ c ∷ [] }

-- The database, on one day, with the order of its dates, `@@` and `ts_rank` of its text search, the
-- distance of two vectors, and the settings for distances. A number with a fraction is there as a
-- natural number, in the same order.
pub record Database : Type 1 where
  pub State : Type 0
  pub rows : State → List TechTrend
  pub get_many : SelectQuery → Action State Failure (List TechTrend)
  pub get_count : SelectQuery → Action State Failure ℕ
  pub get_distinct_sources : Action State Failure (List Text)
  pub current_date : ℕ
  pub time : JsDate → ℕ
  pub is_match : Text → TechTrend → Bool
  pub ts_rank : Text → TechTrend → ℕ
  pub distance : Vector → Vector → ℕ
  pub related_distance_threshold : ℕ
  pub vector_distance_threshold : ℕ

abbrev pub ms_per_day : ℕ
ms_per_day = 86400000

abbrev pub or_relevance : Option SortOption → SortOption
or_relevance none = relevance
or_relevance (some sort) = sort

abbrev pub is_of_source : Text → TechTrend → Bool
is_of_source source row = text_eq source (units "ALL") || text_eq row.source source

module _ (db : Database) where
  -- `mined_at >= CURRENT_DATE`, and before the next day.
  abbrev pub is_mined_from_today : TechTrend → Bool
  is_mined_from_today row = leb db.current_date row.mined_at

  abbrev pub is_mined_before_tomorrow : TechTrend → Bool
  is_mined_before_tomorrow row = ltb row.mined_at (db.current_date + ms_per_day)

  unfoldable pub apply_list_filters : ListCountParams → SelectQuery → SelectQuery
  apply_list_filters params qb =
      let by_source =
        if not (text_eq params.source (units "ALL"))
        then and_where (λ row. text_eq row.source params.source) qb
        else qb in
      if params.is_new
      then and_where is_mined_before_tomorrow (and_where is_mined_from_today by_source)
      else by_source

  abbrev pub created_at : TechTrend → ℕ
  created_at row = db.time row.created_at

  abbrev pub order_list : SortOption → SelectQuery → SelectQuery
  order_list mined_desc qb =
      add_order_by (descending created_at) (order_by (descending (λ row. row.mined_at)) qb)
  order_list mined_asc qb =
      add_order_by (ascending created_at) (order_by (ascending (λ row. row.mined_at)) qb)
  order_list like_desc qb =
      add_order_by (descending created_at)
        (order_by (descending_nulls_last (λ row. row.like_count)) qb)
  order_list view_desc qb =
      add_order_by (descending created_at)
        (order_by (descending_nulls_last (λ row. row.view_count)) qb)
  order_list comment_desc qb =
      add_order_by (descending created_at)
        (order_by (descending_nulls_last (λ row. row.comment_count)) qb)
  order_list created_asc qb = order_by (ascending created_at) qb
  order_list created_desc qb = order_by (descending created_at) qb
  order_list relevance qb = order_by (descending created_at) qb

  unfoldable pub list_query : ListTrendsParams → SelectQuery
  unfolding apply_list_filters
  list_query params =
      record (add_order_by (descending (λ row. row.id))
        (order_list params.sort (apply_list_filters params.filters create_query_builder))) {
          skipped = page_offset params.page params.limit;
          taken = some params.limit;
        }

  unfoldable pub list_trends : ListTrendsParams → Action db.State Failure (List TechTrend)
  unfolding list_query
  list_trends params = db.get_many (list_query params)

  unfoldable pub count_trends : ListCountParams → Action db.State Failure ℕ
  unfolding apply_list_filters
  count_trends params = db.get_count (apply_list_filters params create_query_builder)

  -- A row without a text for its source is left out.
  unfoldable pub find_unique_sources : Action db.State Failure (List Text)
  find_unique_sources = do
    sources ← db.get_distinct_sources
    pure (keep (λ source. ltb 0 (length source)) sources)

  -- `ORDER BY` of a keyword search.
  abbrev pub order_search : Text → SortOption → List (Column TechTrend)
  order_search search created_desc = descending created_at ∷ descending (λ row. row.id) ∷ []
  order_search search created_asc = ascending created_at ∷ ascending (λ row. row.id) ∷ []
  order_search search mined_desc =
      descending (λ row. row.mined_at) ∷ descending created_at ∷ descending (λ row. row.id) ∷ []
  order_search search mined_asc =
      ascending (λ row. row.mined_at) ∷ ascending created_at ∷ ascending (λ row. row.id) ∷ []
  order_search search like_desc =
      descending_nulls_last (λ row. row.like_count)
      ∷ descending created_at
      ∷ descending (λ row. row.id)
      ∷ []
  order_search search view_desc =
      descending_nulls_last (λ row. row.view_count)
      ∷ descending created_at
      ∷ descending (λ row. row.id)
      ∷ []
  order_search search comment_desc =
      descending_nulls_last (λ row. row.comment_count)
      ∷ descending created_at
      ∷ descending (λ row. row.id)
      ∷ []
  order_search search relevance =
      descending (db.ts_rank search) ∷ descending created_at ∷ descending (λ row. row.id) ∷ []

  -- The `WHERE` of a search: the source, the day, and more.
  abbrev pub is_of_day : Bool → TechTrend → Bool
  is_of_day is_new row = not is_new || (is_mined_from_today row && is_mined_before_tomorrow row)

  unfoldable pub keyword_count_query : Text → ListCountParams → SelectQuery
  keyword_count_query search filters = record create_query_builder {
    conditions = is_of_source filters.source ∷ is_of_day filters.is_new ∷ db.is_match search ∷ [];
  }

  unfoldable pub keyword_query : SearchParams → SelectQuery
  unfolding keyword_count_query
  keyword_query params = record (keyword_count_query params.search params.filters) {
    order = order_search params.search (or_relevance params.sort);
    skipped = page_offset params.page params.limit;
    taken = some params.limit;
  }

  unfoldable pub search_keyword : SearchParams → Action db.State Failure SearchResult
  unfolding keyword_query keyword_count_query
  search_keyword params = do
    data_rows ← db.get_many (keyword_query params)
    total_count ← db.get_count (keyword_count_query params.search params.filters)
    pure (record { found = data_rows; total_count = total_count })
