-- ===== src/Trends/Pipeline.antt =====
-- trends-pipeline.service.ts: collecting one source, from the scraper to the table.
pub mod Steps
pub mod Saving
pub mod Batches
pub mod Fresh
pub mod Job
pub mod Source
pub mod Quota
mod Tests
use tech_trends.Base.{
  ℕ, ◌+◌, ◌-◌, ◌++◌, List, [], ◌∷◌, Option, none, some, leb, if◌then◌else◌, not, map, keep, length,
  Text, contains, Result, ok, err, Action, pure, throw, ◌>>=◌,
}
use tech_trends.Common.Chunk.{chunk_array}
use tech_trends.Common.Time.{get_today_start_utc}
use tech_trends.Trends.Data.{Article, SavedArticleInfo, ScrapeJobResult}
use tech_trends.Trends.World.{World, Failure}
use tech_trends.Trends.Repository.{count_saved_since, find_existing_source_ids}
use Steps.{
  Config, DetailsMap, SummarizedArticle, EmbeddedArticle, BatchResult, nothing,
  fetch_batch_details_map, has_details, select_valuable_articles, summarize_articles,
  generate_embeddings_for_articles, save_trends,
}

-- How a job can end other than with a result: a rejected promise, or a loop that never ends.
pub data Stop : Type 0 where
  rejected : Failure → Stop
  hangs : Stop

-- A rejected promise is thrown on.
abbrev pub lift : {S A : Type 0} → Action S Failure A → Action S Stop A
lift m s = let (r, t) = m s in elim r [ ok a ↦ (ok a, t) | err e ↦ (err (rejected e), t) ]

-- `savedCount += …; savedArticles.push(…)`
abbrev pub add_batch : BatchResult → BatchResult → BatchResult
add_batch total batch = record {
  saved_count = total.saved_count + batch.saved_count;
  saved_articles = total.saved_articles ++ batch.saved_articles;
}

module _ (w : World) (config : Config) where
  unfoldable pub exclude_existing_articles :
      List Article → Text → Action w.State Failure (List Article)
  exclude_existing_articles articles source_name = do
    existing ← find_existing_source_ids w source_name (map (λ a. a.id) articles)
    pure (keep (λ a. not (contains a.id existing)) articles)

  -- The parts of `processBatch`, each behind the check that something is left.
  unfoldable pub save_embedded : List EmbeddedArticle → Action w.State Failure BatchResult
  save_embedded [] s = (ok nothing, s)
  save_embedded (e ∷ rest) s = let (saved, t) = save_trends w config (e ∷ rest) s in (ok saved, t)

  unfoldable pub embed_summarized : List SummarizedArticle → Action w.State Failure BatchResult
  unfolding save_embedded
  embed_summarized [] = pure nothing
  embed_summarized (a ∷ rest) = do
    embedded ← generate_embeddings_for_articles w config (a ∷ rest)
    save_embedded embedded

  unfoldable pub summarize_valuable :
      DetailsMap → ℕ → List Article → Action w.State Failure BatchResult
  unfolding embed_summarized
  summarize_valuable details limit [] s = (ok nothing, s)
  summarize_valuable details limit (a ∷ rest) s =
      let (summarized, t) = summarize_articles w config (a ∷ rest) details limit s in
      embed_summarized summarized t

  unfoldable pub evaluate_valid : DetailsMap → ℕ → List Article → Action w.State Failure BatchResult
  unfolding summarize_valuable
  evaluate_valid details limit [] = pure nothing
  evaluate_valid details limit (a ∷ rest) = do
    valuable ← select_valuable_articles w config (a ∷ rest) details
    summarize_valuable details limit valuable

  unfoldable pub process_batch : List Article → ℕ → Action w.State Failure BatchResult
  unfolding evaluate_valid
  process_batch batch limit s =
      let (details, t) = fetch_batch_details_map w config (map (λ a. a.id) batch) s in
      evaluate_valid details limit (keep (has_details details) batch) t

  -- The loop over the batches, with what was saved so far.
  unfoldable pub process_batches :
      ℕ → List (List Article) → BatchResult → Action w.State Stop BatchResult
  process_batches saved_baseline [] total = pure total
  process_batches saved_baseline (batch ∷ batches) total =
      let so_far = saved_baseline + total.saved_count in
      let rest = do
        result ← lift (process_batch batch (config.target_save_count - so_far))
        process_batches saved_baseline batches (add_batch total result)
      in if leb config.target_save_count so_far then pure total else rest

  unfoldable pub in_batches : ℕ → List Article → Action w.State Stop BatchResult
  unfolding process_batches
  in_batches saved_baseline articles = elim (chunk_array articles config.batch_size) [
    | none ↦ throw hangs
    | some batches ↦ process_batches saved_baseline batches nothing
  ]

  unfoldable pub process_new : ℕ → List Article → Action w.State Stop BatchResult
  unfolding in_batches
  process_new saved_baseline [] = pure nothing
  process_new saved_baseline (a ∷ rest) = in_batches saved_baseline (a ∷ rest)

  unfoldable pub process_articles : ℕ → List Article → Action w.State Stop BatchResult
  unfolding process_new
  process_articles saved_baseline [] = pure nothing
  process_articles saved_baseline (a ∷ rest) = do
    new_articles ← lift (exclude_existing_articles (a ∷ rest) w.source_name)
    process_new saved_baseline new_articles

  unfoldable pub collect : ℕ → Action w.State Stop BatchResult
  unfolding process_articles
  collect saved_baseline =
      if leb config.target_save_count saved_baseline
      then pure nothing
      else do articles ← lift w.get_articles; process_articles saved_baseline articles

  -- `processSource`; `executeScraperByName` adds logging only, once the scraper is found.
  unfoldable pub process_source : Action w.State Stop ScrapeJobResult
  unfolding collect
  process_source s =
      (do
        saved_baseline ← lift (count_saved_since w w.source_name (get_today_start_utc (w.clock s)))
        total ← collect saved_baseline
        pure (record {
          source_name = w.source_name;
          saved_count = total.saved_count;
          saved_articles = total.saved_articles;
        }))
        s
