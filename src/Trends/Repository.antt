-- ===== src/Trends/Repository.antt =====
-- tech-trend.repository.ts, as far as the collecting pipeline uses it.
use tech_trends.Base.{
  ℕ, Bool, ◌&&◌, List, [], ◌∷◌, map, leb, Text, text_eq, contains, Action, pure, ◌>>=◌,
}
use tech_trends.Trends.Data.{TrendColumns, TechTrend, SavedArticleInfo}
use tech_trends.Trends.World.{World, Failure}

-- `where: { source, mined_at: MoreThanOrEqual(sinceDate) }`
abbrev pub is_saved_since : Text → ℕ → TechTrend → Bool
is_saved_since source since row = text_eq row.source source && leb since row.mined_at

-- `where: { source, source_id: In(sourceIds) }`
abbrev pub is_existing : Text → List Text → TechTrend → Bool
is_existing source source_ids row = text_eq row.source source && contains row.source_id source_ids

module _ (w : World) where
  unfoldable pub count_saved_since : Text → ℕ → Action w.State Failure ℕ
  count_saved_since source since = w.count (is_saved_since source since)

  unfoldable pub find_existing_source_ids : Text → List Text → Action w.State Failure (List Text)
  find_existing_source_ids source [] = pure []
  find_existing_source_ids source (id ∷ ids) = do
    found ← w.find (is_existing source (id ∷ ids))
    pure (map (λ row. row.source_id) found)

  unfoldable pub save_trend : TrendColumns → Action w.State Failure TechTrend
  save_trend columns = w.save columns

-- `find` with the rows that pass, ordered by `mined_at`.
module _ {S : Type 0}
    (find_by_mined_at : (TechTrend → Bool) → Action S Failure (List TechTrend)) where
  unfoldable pub find_saved_since : Text → ℕ → Action S Failure (List SavedArticleInfo)
  find_saved_since source since = do
    rows ← find_by_mined_at (is_saved_since source since)
    pure (
        map
          (λ (row : TechTrend). record {
            id = row.id;
            source_id = row.source_id;
            title = row.title;
            url = row.link_url;
          })
          rows)
