-- ===== src/Trends/Store/Pages.antt =====
-- The pages that lists and searches answer with.
use mathlib.Core.Path.{ap₂}
use native.Mathlib.Nat.{lt-div-mul-add}
use tech_trends.Base.{
  ℕ, zero, suc, ◌+◌, ◌-◌, ◌*◌, ◌≤◌, ◌<◌, ◌≡◌, refl, sym, subst, ap, ◌∙◌, List, ◌∷◌, map, length,
  take, drop, concat, ok, arith, Text, count_from, zero_mul, take_all, concat-parts, >>=-pure-eq-ok,
  >>=-eq-ok, pure, ◌>>=◌,
}
use tech_trends.Trends.Data.{TechTrend}
use tech_trends.Trends.Query.{total_pages, page_offset}
use tech_trends.Trends.Store.{
  SortOption, ListCountParams, ListTrendsParams, SearchParams, SearchResult, create_query_builder,
  Database, apply_list_filters, list_query, list_trends, count_trends, keyword_count_query,
  keyword_query, search_keyword, order_search, or_relevance,
}
use tech_trends.Trends.Store.Selected.{
  passes, Laws, HasId, select, IsSelected-select, length-select,
}
use tech_trends.Trends.Store.Orders.{
  is_listed, is_hit, list_columns, listed, hits, passes-apply_list_filters, passes-list_query,
  order-list_query, list_columns-HasId, search_order-HasId,
}

-- A page of a list of rows.
abbrev pub page_rows : ℕ → ℕ → List TechTrend → List TechTrend
page_rows page limit rows = take limit (drop ((page - 1) * limit) rows)

one_page :
    (found : ℕ → List TechTrend) (limit : ℕ) (rows : List TechTrend) (k n : ℕ)
    → ((page : ℕ) → k < page → page ≤ k + n → found page ≡ page_rows page limit rows)
    → map found (count_from (suc k) n)
      ≡ map (λ i. take limit (drop (i * limit) rows)) (count_from k n)
one_page found limit rows k zero h = refl
one_page found limit rows k (suc n) h =
    ap₂ ◌∷◌
      (h (suc k) (omega arith) (omega arith)
        ∙ ap (λ i. take limit (drop (i * limit) rows)) (omega arith))
      (one_page found limit rows (suc k) n (λ page p q. h page (omega arith) (omega arith)))

length-le-total_pages : (n limit : ℕ) → 0 < limit → n ≤ total_pages n limit * limit
unfolding total_pages
length-le-total_pages n limit pos = omega (arith, lt-div-mul-add {a = n + (limit - 1)} pos)

-- The pages of a list, as many as are announced, join to it.
pub concat-page_rows :
    (found : ℕ → List TechTrend) (limit : ℕ) (rows : List TechTrend)
    → 0 < limit
    → ((page : ℕ)
        → 1 ≤ page
        → page ≤ total_pages (length rows) limit
        → found page ≡ page_rows page limit rows)
    → concat (map found (count_from 1 (total_pages (length rows) limit))) ≡ rows
concat-page_rows found limit rows pos h =
    let n = total_pages (length rows) limit in
    ap concat (one_page found limit rows 0 n (λ page p q. h page (omega arith) (omega arith)))
    ∙ concat-parts limit rows 0 n
    ∙ ap (λ k. take (n * limit) (drop k rows)) (zero_mul limit)
    ∙ take_all (n * limit) rows (length-le-total_pages (length rows) limit pos)

module _ (db : Database) (laws : Laws db) where
  -- A list that is answered is the page of the rows of its source and day, in the one order that its
  -- columns leave.
  pub list_trends_lem :
      (params : ListTrendsParams) (s : db.State) (found : List TechTrend)
      → (list_trends db params s).0 ≡ ok found
      → found
        ≡ page_rows params.page params.limit (listed db params.sort params.filters (db.rows s))
  unfolding list_trends list_query page_offset listed
  list_trends_lem params s found e =
      IsSelected-select (list_query db params) (is_listed db params.filters) (db.rows s) found
        (laws.get_many_ok (list_query db params) s found e)
        (subst HasId (sym (order-list_query db params)) (list_columns-HasId db params.sort))
        (laws.id_key s) (passes-list_query db params)
      ∙ ap
          (λ cs.
            page_rows params.page params.limit
              (select cs (is_listed db params.filters) (db.rows s)))
          (order-list_query db params)

  count_trends_lem :
      (sort : SortOption) (filters : ListCountParams) (s : db.State) (n : ℕ)
      → (count_trends db filters s).0 ≡ ok n
      → n ≡ length (listed db sort filters (db.rows s))
  unfolding count_trends listed
  count_trends_lem sort filters s n e =
      laws.get_count_ok (apply_list_filters db filters create_query_builder) s n e
      ∙ length-select (list_columns db sort) _ (is_listed db filters) (db.rows s)
          (passes-apply_list_filters db filters)

  -- With a positive limit, on a table that stays the same: the count of a list is the number of its
  -- rows, and the answers to all pages that the count announces join to these rows, in order.
  pub list_trends_pages :
      (filters : ListCountParams) (sort : SortOption) (limit n : ℕ) (s : db.State)
      (found : ℕ → List TechTrend)
      → 0 < limit
      → (count_trends db filters s).0 ≡ ok n
      → ((page : ℕ)
          → 1 ≤ page
          → page ≤ total_pages n limit
          → (list_trends db
              (record { filters = filters; page = page; limit = limit; sort = sort })
              s).0
            ≡ ok (found page))
      → (n ≡ length (listed db sort filters (db.rows s)))
        × (concat (map found (count_from 1 (total_pages n limit)))
            ≡ listed db sort filters (db.rows s))
  list_trends_pages filters sort limit n s found pos count pages =
      let counted = count_trends_lem sort filters s n count in
      (
        counted,
        ap (λ m. concat (map found (count_from 1 (total_pages m limit)))) counted
            ∙ concat-page_rows found limit (listed db sort filters (db.rows s)) pos (λ page p q.
              list_trends_lem
                (record { filters = filters; page = page; limit = limit; sort = sort }) s
                (found page)
                (pages page p (subst (λ m. page ≤ total_pages m limit) (sym counted) q))),
      )

  passes-keyword_query :
      (search : Text) (filters : ListCountParams) (row : TechTrend)
      → passes (keyword_count_query db search filters).conditions row ≡ is_hit db search filters row
  unfolding keyword_count_query
  passes-keyword_query search filters row = ground arith

  -- A keyword search that is answered has the page of its hits, in the one order that its columns
  -- leave, and their number.
  pub search_keyword_lem :
      (params : SearchParams) (s : db.State) (result : SearchResult)
      → (search_keyword db params s).0 ≡ ok result
      → (result.found ≡ page_rows params.page params.limit (hits db params (db.rows s)))
        × (result.total_count ≡ length (hits db params (db.rows s)))
  unfolding search_keyword keyword_query keyword_count_query page_offset hits
  search_keyword_lem params s result e =
      let q = keyword_query db params in
      let count = db.get_count (keyword_count_query db params.search params.filters) in
      let (data_rows, f, g) =
        >>=-eq-ok (db.get_many q)
          (λ data_rows. count >>= λ n. pure (record { found = data_rows; total_count = n })) s
          result e in
      let (n, counted, same, _) =
        >>=-pure-eq-ok count (λ n. record { found = data_rows; total_count = n })
          (db.get_many q s).1 result g in
      (
        ap (λ r. r.found) same
            ∙ IsSelected-select q (is_hit db params.search params.filters) (db.rows s) data_rows
                (laws.get_many_ok q s data_rows f)
                (search_order-HasId db params.search (or_relevance params.sort)) (laws.id_key s)
                (passes-keyword_query params.search params.filters),
        ap (λ r. r.total_count) same
            ∙ laws.get_count_ok (keyword_count_query db params.search params.filters)
                (db.get_many q s).1 n counted
            ∙ length-select (order_search db params.search (or_relevance params.sort))
                (passes (keyword_count_query db params.search params.filters).conditions)
                (is_hit db params.search params.filters) (db.rows (db.get_many q s).1)
                (passes-keyword_query params.search params.filters)
            ∙ ap (λ rows. length (hits db params rows)) (laws.get_many_quiet q s),
      )
