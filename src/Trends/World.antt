-- ===== src/Trends/World.antt =====
-- What the pipeline calls: the table behind `TechTrendRepository`, the chosen scraper, and the three
-- operations of `AiService`, each with what the pipeline relies on.
use tech_trends.Base.{
  ℕ, ◌≤◌, ◌≡◌, Bool, true, false, List, [], ◌∷◌, ◌++◌, Option, Text, Action, ok, err, length, keep,
  All, if◌then◌else◌,
}
use tech_trends.Trends.Data.{
  Article, ArticleDetails, BatchEvaluationItem, FinalSummaryResult, TrendColumns, TechTrend, Vector,
}

-- The message of a rejected promise.
abbrev pub Failure : Type 0
Failure = Text

-- Whether some member passes.
abbrev pub any {ℓ} : {A : Type ℓ} → (A → Bool) → List A → Bool
any p [] = false
any p (x ∷ xs) = if p x then true else any p xs

pub record World : Type 1 where
  pub State : Type 0
  -- The rows of the table, oldest first, and the time in milliseconds.
  pub rows : State → List TechTrend
  pub clock : State → ℕ
  -- `SELECT`, `COUNT` and `INSERT` on the table.
  pub find : (TechTrend → Bool) → Action State Failure (List TechTrend)
  pub count : (TechTrend → Bool) → Action State Failure ℕ
  pub save : TrendColumns → Action State Failure TechTrend
  -- `IArticleScraper`.
  pub source_name : Text
  pub get_articles : Action State Failure (List Article)
  pub get_article_details : Text → Action State Failure (Option ArticleDetails)
  -- `AiService`.
  pub filter_batch_with_ai : List BatchEvaluationItem → Action State Failure (List Text)
  pub summarize_content_with_ai : Text → Text → Action State Failure (Option FinalSummaryResult)
  pub vector_embedding_with_ai : List Text → Action State Failure (List Vector)
  pub delay_seconds : ℕ → State → State

-- A step that writes nothing to the table; time goes on.
pub record IsQuiet (w : World) (s t : w.State) : Type 0 where
  pub same_rows : w.rows t ≡ w.rows s
  pub later : w.clock s ≤ w.clock t

-- A successful insert appends one row with the given columns, stamped with the time of the insert.
pub record IsInserted (w : World) (columns : TrendColumns) (row : TechTrend) (s t : w.State)
    : Type 0 where
  pub appended : w.rows t ≡ w.rows s ++ row ∷ []
  pub given : row.columns ≡ columns
  pub stamped : w.clock s ≤ row.mined_at
  pub later : w.clock s ≤ w.clock t

-- While a job runs, nothing else writes to the table (the worker takes one job at a time).
pub record Laws (w : World) : Type 0 where
  pub find_quiet : (p : TechTrend → Bool) (s : w.State) → IsQuiet w s (w.find p s).1
  pub find_ok :
      (p : TechTrend → Bool) (s : w.State) (found : List TechTrend)
      → (w.find p s).0 ≡ ok found
      → (q : TechTrend → Bool) → any q found ≡ any q (keep p (w.rows s))
  pub count_quiet : (p : TechTrend → Bool) (s : w.State) → IsQuiet w s (w.count p s).1
  pub count_ok :
      (p : TechTrend → Bool) (s : w.State) (n : ℕ)
      → (w.count p s).0 ≡ ok n
      → n ≡ length (keep p (w.rows s))
  pub save_ok :
      (columns : TrendColumns) (s : w.State) (row : TechTrend)
      → (w.save columns s).0 ≡ ok row
      → IsInserted w columns row s (w.save columns s).1
  pub save_err :
      (columns : TrendColumns) (s : w.State) (e : Failure)
      → (w.save columns s).0 ≡ err e
      → IsQuiet w s (w.save columns s).1
  pub get_articles_quiet : (s : w.State) → IsQuiet w s (w.get_articles s).1
  pub get_articles_source :
      (s : w.State) (articles : List Article)
      → (w.get_articles s).0 ≡ ok articles
      → All (λ a. a.source ≡ w.source_name) articles
  pub get_article_details_quiet :
      (id : Text) (s : w.State) → IsQuiet w s (w.get_article_details id s).1
  pub filter_quiet :
      (items : List BatchEvaluationItem) (s : w.State)
      → IsQuiet w s (w.filter_batch_with_ai items s).1
  pub summarize_quiet :
      (title content : Text) (s : w.State)
      → IsQuiet w s (w.summarize_content_with_ai title content s).1
  pub embedding_quiet :
      (texts : List Text) (s : w.State) → IsQuiet w s (w.vector_embedding_with_ai texts s).1
  pub delay_quiet : (n : ℕ) (s : w.State) → IsQuiet w s (w.delay_seconds n s)
