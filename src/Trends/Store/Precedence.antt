-- ===== src/Trends/Store/Precedence.antt =====
-- What lists and searches ask for: the rows of a source and a day, and the order of two rows.
use tech_trends.Base.{
  ℕ, ◌+◌, ◌&&◌, ap, inl, inr, arith, leb, text_eq, units, Bool-cases, ◌≡◌, refl, fun_ext, Bool,
  true, false, ltb, if◌then◌else◌, Option, none, some, Text, ordered, nulls_last_before,
}
use tech_trends.Trends.Data.{TechTrend}
use tech_trends.Trends.Store.{
  SortOption, created_desc, created_asc, mined_desc, mined_asc, like_desc, view_desc, comment_desc,
  relevance, ListCountParams, Database, order_search,
}
use tech_trends.Trends.Store.Orders.{is_listed, is_hit}

-- The larger number first; `rest` decides where they tie.
abbrev pub larger_first : ℕ → ℕ → Bool → Bool
larger_first m n rest = if ltb n m then true else if ltb m n then false else rest

abbrev pub smaller_first : ℕ → ℕ → Bool → Bool
smaller_first m n rest = if ltb m n then true else if ltb n m then false else rest

-- A row without the number comes after those with one.
abbrev pub known_larger_first : Option ℕ → Option ℕ → Bool → Bool
known_larger_first (some m) (some n) rest = larger_first m n rest
known_larger_first (some m) none rest = true
known_larger_first none (some n) rest = false
known_larger_first none none rest = rest

module _ (db : Database) where
  abbrev newer_first : TechTrend → TechTrend → Bool
  newer_first a b =
      larger_first (db.time a.created_at) (db.time b.created_at) (larger_first a.id b.id true)

  abbrev older_first : TechTrend → TechTrend → Bool
  older_first a b =
      smaller_first (db.time a.created_at) (db.time b.created_at) (smaller_first a.id b.id true)

  -- Whether a row may come before another one in the answer to a search.
  unfoldable pub may_precede : Text → SortOption → TechTrend → TechTrend → Bool
  may_precede search created_desc a b = newer_first a b
  may_precede search created_asc a b = older_first a b
  may_precede search mined_desc a b = larger_first a.mined_at b.mined_at (newer_first a b)
  may_precede search mined_asc a b = smaller_first a.mined_at b.mined_at (older_first a b)
  may_precede search like_desc a b = known_larger_first a.like_count b.like_count (newer_first a b)
  may_precede search view_desc a b = known_larger_first a.view_count b.view_count (newer_first a b)
  may_precede search comment_desc a b =
      known_larger_first a.comment_count b.comment_count (newer_first a b)
  may_precede search relevance a b =
      larger_first (db.ts_rank search a) (db.ts_rank search b) (newer_first a b)

  known_larger_first-column :
      (m n : Option ℕ) (rest : Bool)
      → known_larger_first m n rest
        ≡ (if nulls_last_before m n then true else if nulls_last_before n m then false else rest)
  known_larger_first-column (some m) (some n) rest = refl
  known_larger_first-column (some m) none rest = refl
  known_larger_first-column none (some n) rest = refl
  known_larger_first-column none none rest = refl

  may_precede-ordered :
      (search : Text) (sort : SortOption) (a b : TechTrend)
      → may_precede search sort a b ≡ ordered (order_search db search sort) a b
  unfolding may_precede ordered
  may_precede-ordered search created_desc a b = refl
  may_precede-ordered search created_asc a b = refl
  may_precede-ordered search mined_desc a b = refl
  may_precede-ordered search mined_asc a b = refl
  may_precede-ordered search like_desc a b =
      known_larger_first-column a.like_count b.like_count (newer_first a b)
  may_precede-ordered search view_desc a b =
      known_larger_first-column a.view_count b.view_count (newer_first a b)
  may_precede-ordered search comment_desc a b =
      known_larger_first-column a.comment_count b.comment_count (newer_first a b)
  may_precede-ordered search relevance a b = refl

  pub may_precede_eq :
      (search : Text) (sort : SortOption)
      → may_precede search sort ≡ ordered (order_search db search sort)
  may_precede_eq search sort = fun_ext (λ a. fun_ext (λ b. may_precede-ordered search sort a b))

  -- The rows of one source, or of all of them.
  abbrev pub is_in_source : Text → TechTrend → Bool
  is_in_source source row = if text_eq source (units "ALL") then true else text_eq row.source source

  -- The rows that were mined on the day of the database, or all rows.
  abbrev pub is_in_day : Bool → TechTrend → Bool
  is_in_day false row = true
  is_in_day true row =
      leb db.current_date row.mined_at && ltb row.mined_at (db.current_date + 86400000)

  abbrev pub is_in : ListCountParams → TechTrend → Bool
  is_in filters row = is_in_source filters.source row && is_in_day filters.is_new row

  pub is_in-is_listed :
      (filters : ListCountParams) (row : TechTrend) → is_in filters row ≡ is_listed db filters row
  is_in-is_listed filters row = elim (Bool-cases (text_eq filters.source (units "ALL"))) [
    | inl e ↦ elim (Bool-cases filters.is_new) [
      | inl n ↦ rw (e, n) ground arith
      | inr n ↦ rw (e, n) ground arith
    ]
    | inr e ↦ elim (Bool-cases filters.is_new) [
      | inl n ↦ rw (e, n) ground arith
      | inr n ↦ rw (e, n) ground arith
    ]
  ]

  -- The rows of a source and a day that match the words.
  abbrev pub is_match_in : Text → ListCountParams → TechTrend → Bool
  is_match_in search filters row = is_in filters row && db.is_match search row

  pub is_match_in_eq :
      (search : Text) (filters : ListCountParams)
      → is_match_in search filters ≡ is_hit db search filters
  is_match_in_eq search filters =
      fun_ext (λ row. ap (λ b. b && db.is_match search row) (is_in-is_listed filters row))
