-- ===== src/Trends/Store/Orders.antt =====
-- Which rows lists and keyword searches are about, and the columns that order them.
use tech_trends.Base.{
  ◌≡◌, refl, ap, ◌∙◌, inl, inr, Bool, ◌&&◌, Bool-cases, List, [], ◌∷◌, ◌++◌, arith, Text, units,
  text_eq, Column, descending,
}
use tech_trends.Trends.Data.{TechTrend}
use tech_trends.Trends.Store.{
  SortOption, created_desc, created_asc, mined_desc, mined_asc, like_desc, view_desc, comment_desc,
  relevance, ListCountParams, ListTrendsParams, SearchParams, SelectQuery, create_query_builder,
  Database, apply_list_filters, list_query, order_list, order_search, or_relevance, is_of_source,
  is_of_day,
}
use tech_trends.Trends.Store.Selected.{passes, HasId, select}

module _ (db : Database) where
  -- The rows that a list or a count is about.
  abbrev pub is_listed : ListCountParams → TechTrend → Bool
  is_listed filters row = is_of_source filters.source row && is_of_day db filters.is_new row

  abbrev pub is_hit : Text → ListCountParams → TechTrend → Bool
  is_hit search filters row = is_listed filters row && db.is_match search row

  -- The columns that a list comes out ordered by.
  abbrev pub list_columns : SortOption → List (Column TechTrend)
  list_columns sort =
      (order_list db sort create_query_builder).order ++ descending (λ row. row.id) ∷ []

  -- All rows of a list, and of a search, in order.
  unfoldable pub listed : SortOption → ListCountParams → List TechTrend → List TechTrend
  unfolding select
  listed sort filters = select (list_columns sort) (is_listed filters)

  unfoldable pub hits : SearchParams → List TechTrend → List TechTrend
  unfolding select
  hits params =
      select (order_search db params.search (or_relevance params.sort))
        (is_hit params.search params.filters)

  pub passes-apply_list_filters :
      (filters : ListCountParams) (row : TechTrend)
      → passes (apply_list_filters db filters create_query_builder).conditions row
        ≡ is_listed filters row
  unfolding apply_list_filters
  passes-apply_list_filters filters row = elim (Bool-cases (text_eq filters.source (units "ALL"))) [
    | inl e ↦ elim (Bool-cases filters.is_new) [
      | inl n ↦ rw (e, n) ground arith
      | inr n ↦ rw (e, n) ground arith
    ]
    | inr e ↦ elim (Bool-cases filters.is_new) [
      | inl n ↦ rw (e, n) ground arith
      | inr n ↦ rw (e, n) ground arith
    ]
  ]

  pub search_order-HasId : (search : Text) (sort : SortOption) → HasId (order_search db search sort)
  search_order-HasId search created_desc a b (_, ((p, q), _)) = ground arith
  search_order-HasId search created_asc a b (_, ((p, q), _)) = ground arith
  search_order-HasId search mined_desc a b (_, (_, ((p, q), _))) = ground arith
  search_order-HasId search mined_asc a b (_, (_, ((p, q), _))) = ground arith
  search_order-HasId search like_desc a b (_, (_, ((p, q), _))) = ground arith
  search_order-HasId search view_desc a b (_, (_, ((p, q), _))) = ground arith
  search_order-HasId search comment_desc a b (_, (_, ((p, q), _))) = ground arith
  search_order-HasId search relevance a b (_, (_, ((p, q), _))) = ground arith

  order_list-conditions :
      (sort : SortOption) (qb : SelectQuery) → (order_list db sort qb).conditions ≡ qb.conditions
  order_list-conditions created_desc qb = refl
  order_list-conditions created_asc qb = refl
  order_list-conditions mined_desc qb = refl
  order_list-conditions mined_asc qb = refl
  order_list-conditions like_desc qb = refl
  order_list-conditions view_desc qb = refl
  order_list-conditions comment_desc qb = refl
  order_list-conditions relevance qb = refl

  -- What the builder held before has no say in the order.
  order_list-order :
      (sort : SortOption) (qb : SelectQuery)
      → (order_list db sort qb).order ≡ (order_list db sort create_query_builder).order
  order_list-order created_desc qb = refl
  order_list-order created_asc qb = refl
  order_list-order mined_desc qb = refl
  order_list-order mined_asc qb = refl
  order_list-order like_desc qb = refl
  order_list-order view_desc qb = refl
  order_list-order comment_desc qb = refl
  order_list-order relevance qb = refl

  pub list_columns-HasId : (sort : SortOption) → HasId (list_columns sort)
  list_columns-HasId created_desc a b (_, ((p, q), _)) = ground arith
  list_columns-HasId created_asc a b (_, ((p, q), _)) = ground arith
  list_columns-HasId mined_desc a b (_, (_, ((p, q), _))) = ground arith
  list_columns-HasId mined_asc a b (_, (_, ((p, q), _))) = ground arith
  list_columns-HasId like_desc a b (_, (_, ((p, q), _))) = ground arith
  list_columns-HasId view_desc a b (_, (_, ((p, q), _))) = ground arith
  list_columns-HasId comment_desc a b (_, (_, ((p, q), _))) = ground arith
  list_columns-HasId relevance a b (_, ((p, q), _)) = ground arith

  pub order-list_query :
      (params : ListTrendsParams) → (list_query db params).order ≡ list_columns params.sort
  unfolding list_query
  order-list_query params =
      ap (λ cs. cs ++ descending (λ row. row.id) ∷ [])
        (order_list-order params.sort (apply_list_filters db params.filters create_query_builder))

  pub passes-list_query :
      (params : ListTrendsParams) (row : TechTrend)
      → passes (list_query db params).conditions row ≡ is_listed params.filters row
  unfolding list_query
  passes-list_query params row =
      ap (λ ps. passes ps row)
        (order_list-conditions params.sort
          (apply_list_filters db params.filters create_query_builder))
      ∙ passes-apply_list_filters params.filters row
