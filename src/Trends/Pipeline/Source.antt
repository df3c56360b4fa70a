-- ===== src/Trends/Pipeline/Source.antt =====
-- `processSource` as a whole.
use tech_trends.Base.{
  ℕ, ◌-◌, ◌≡◌, refl, sym, inl, inr, List, [], ◌∷◌, keep, length, All, Result, Action, pure, ◌>>=◌,
  Post, Post-ok, Post-map, Post->>=, Bool, Bool-cases, leb, subst, Text,
}
use tech_trends.Common.Time.{get_today_start_utc}
use tech_trends.Trends.Data.{Article, TechTrend, ScrapeJobResult}
use tech_trends.Trends.World.{World, Laws, IsQuiet}
use tech_trends.Trends.Repository.{is_saved_since, count_saved_since}
use tech_trends.Trends.Pipeline.Steps.{Config, BatchResult, nothing}
use tech_trends.Trends.Pipeline.{
  Stop, lift, exclude_existing_articles, process_new, process_articles, collect, process_source,
}
use tech_trends.Trends.Pipeline.Saving.{Adds, Adds-nothing}
use tech_trends.Trends.Pipeline.Batches.{IsQuiet-trans}
use tech_trends.Trends.Pipeline.Fresh.{IsNew, Excluded, exclude_existing_articles-Post}
use tech_trends.Trends.Pipeline.Job.{Within, Within-later, process_new-Within, lift-Post}

-- How many rows of the source are stamped at `since` or later.
abbrev pub saved_since : Text → ℕ → List TechTrend → ℕ
saved_since source since rows = length (keep (is_saved_since source since) rows)

module _ (w : World) (laws : Laws w) (config : Config) where
  abbrev New : w.State → Article → Type 0
  New s = IsNew w.source_name (w.rows s)

  -- A rejected call before the batches has appended nothing.
  stopped :
      (s : w.State) {t : w.State} (most : ℕ)
      → IsQuiet w s t
      → (b : BatchResult) × Adds w (New s) s t nothing b most
  stopped s most q = (nothing, Adds-nothing w (New s) nothing most q)

  process_articles-Within :
      (baseline : ℕ) (articles : List Article) (s t : w.State)
      → IsQuiet w s t
      → All (λ x. x.source ≡ w.source_name) articles
      → Within w laws config
          (New s)
          (config.target_save_count - baseline)
          s
          nothing
          (process_articles w config baseline articles t)
  unfolding process_articles
  process_articles-Within baseline [] s t q h = Post-ok (Adds-nothing w (New s) nothing _ q)
  process_articles-Within baseline (a ∷ rest) s t q h =
      Post->>= (lift (exclude_existing_articles w config (a ∷ rest) w.source_name))
        (process_new w config baseline) t
        (lift-Post {Q = Excluded w laws config t}
          {R = λ u. (b : BatchResult) × Adds w (New s) s u nothing b most}
          (exclude_existing_articles w config (a ∷ rest) w.source_name) t
          (Post-map (exclude_existing_articles-Post w laws config a rest t h) (λ kept u x. x)
            (λ e u x. stopped s most (IsQuiet-trans w q x))))
        (λ kept u x. Within-later w laws config (New s) most (IsQuiet-trans w q x.0) (
          process_new-Within w laws config (New s) baseline kept u
            (subst (λ rows. All (IsNew w.source_name rows) kept) q.same_rows x.1)))
    where
      most : ℕ
      most = config.target_save_count - baseline

  collect-Within :
      (baseline : ℕ) (s t : w.State)
      → IsQuiet w s t
      → Within w laws config
          (New s)
          (config.target_save_count - baseline)
          s
          nothing
          (collect w config baseline t)
  unfolding collect
  collect-Within baseline s t q = elim (Bool-cases (leb config.target_save_count baseline)) [
    | inl reached ↦ rw reached (Post-ok (Adds-nothing w (New s) nothing _ q))
    | inr below ↦ rw below (
        Post->>= (lift w.get_articles) (process_articles w config baseline) t
          (lift-Post
            {Q = λ articles u. IsQuiet w s u × All (λ x. x.source ≡ w.source_name) articles}
            {R = λ u. (b : BatchResult) × Adds w (New s) s u nothing b most} w.get_articles t
            (record {
              on_ok = λ articles e. (quiet, laws.get_articles_source t articles e);
              on_err = λ e h. stopped s most quiet;
            }))
          (λ articles u x. process_articles-Within baseline articles s u x.0 x.1))
  ]
    where
      most : ℕ
      most = config.target_save_count - baseline

      quiet : IsQuiet w s (w.get_articles t).1
      quiet = IsQuiet-trans w q (laws.get_articles_quiet t)

  -- How a job ends: with a report of what it appended, or with rows within the same bound.
  pub record Reported (s t : w.State) (result : ScrapeJobResult) (most : ℕ) : Type 0 where
    pub named : result.source_name ≡ w.source_name
    pub total : BatchResult
    pub adds : Adds w (New s) s t nothing total most
    pub count : result.saved_count ≡ total.saved_count
    pub articles : result.saved_articles ≡ total.saved_articles

  abbrev pub left : w.State → ℕ
  left s =
      config.target_save_count
      - saved_since w.source_name (get_today_start_utc (w.clock s)) (w.rows s)

  abbrev pub Ends : w.State → Result Stop ScrapeJobResult × w.State → Type 0
  Ends s o =
      Post (λ result t. Reported s t result (left s))
        (λ _ t. (b : BatchResult) × Adds w (New s) s t nothing b (left s)) o

  pub process_source-Ends : (s : w.State) → Ends s (process_source w config s)
  unfolding process_source count_saved_since
  process_source-Ends s =
      Post->>= (lift (w.count p)) rest s
        (lift-Post {Q = λ baseline t. IsQuiet w s t × (baseline ≡ length (keep p (w.rows s)))}
          {R = λ t. (b : BatchResult) × Adds w (New s) s t nothing b (left s)} (w.count p) s
          (record {
            on_ok = λ n e. (laws.count_quiet p s, laws.count_ok p s n e);
            on_err = λ e h. stopped s (left s) (laws.count_quiet p s);
          }))
        (λ baseline t x.
          subst (λ n. Ends s (rest n t)) (sym x.1)
            (Post->>= (collect w config (length (keep p (w.rows s)))) report t
              (collect-Within (length (keep p (w.rows s))) s t x.0)
              (λ total u y.
                Post-ok {Q = λ result t. Reported s t result (left s)} (record {
                  named = refl;
                  total = total;
                  adds = y;
                  count = refl;
                  articles = refl;
                }))))
    where
      p : TechTrend → Bool
      p = is_saved_since w.source_name (get_today_start_utc (w.clock s))

      report : BatchResult → Action w.State Stop ScrapeJobResult
      report total = pure (record {
        source_name = w.source_name;
        saved_count = total.saved_count;
        saved_articles = total.saved_articles;
      })

      rest : ℕ → Action w.State Stop ScrapeJobResult
      rest n = collect w config n >>= report
