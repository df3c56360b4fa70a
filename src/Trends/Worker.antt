-- ===== src/Trends/Worker.antt =====
-- The collecting side put together: trends.worker.ts runs a job of the queue, `executeScraperByName`
-- finds its scraper in scraper.factory.ts, and trends-pipeline.service.ts runs it over the table and
-- over ai.service.ts.
pub mod Calm
pub mod Jobs
pub mod Day
mod Tests
use tech_trends.Base.{
  ℕ, ◌*◌, Bool, List, Option, none, some, Text, Result, ok, err, Action, ◌≤◌, ◌≡◌,
}
use tech_trends.Common.Time.{delay_seconds}
use tech_trends.Trends.Data.{
  Article, ArticleDetails, BatchEvaluationItem, FinalSummaryResult, ScrapeJobResult, TrendColumns,
  TechTrend, Vector,
}
use tech_trends.Trends.World.{World, Failure}
use tech_trends.Ai.Retry.{Floats, RetryFailure}
use tech_trends.Ai.Models.{Models, filter_batch_with_ai, vector_embedding_with_ai}
use tech_trends.Ai.Summary.{ParsedSummary, SummaryResult, summarize_content_with_ai}
use tech_trends.Trends.Scrapers.Site.{Site, source_name, get_articles, get_article_details}
use tech_trends.Trends.Pipeline.Steps.{Config}
use tech_trends.Trends.Pipeline.{Stop, rejected, process_source}
use tech_trends.Trends.Queue.{scraper_map, execute_scraper_by_name}

-- What the program is put together from: the table and the clock, the clients of the models, and the
-- three sites.
pub record Parts : Type 1 where
  pub State : Type 0
  pub rows : State → List TechTrend
  pub clock : State → ℕ
  pub find : (TechTrend → Bool) → Action State Failure (List TechTrend)
  pub count : (TechTrend → Bool) → Action State Failure ℕ
  pub save : TrendColumns → Action State Failure TechTrend
  pub floats : Floats
  pub models : Models State
  pub parse_summary : Text → Result Text ParsedSummary
  -- The summary as the type of its consumer, and the message of what is thrown.
  pub as_final : SummaryResult → FinalSummaryResult
  pub message : RetryFailure → Failure
  pub dev_to_site : Site State
  pub geek_news_site : Site State
  pub stack_overflow_site : Site State

module _ (p : Parts) where
  -- A call of the AI service, as its callers see it reject.
  abbrev pub as_failure :
      {A B : Type 0} → (A → B) → Action p.State RetryFailure A → Action p.State Failure B
  as_failure f m s =
      let (r, t) = m s in elim r [ ok a ↦ (ok (f a), t) | err e ↦ (err (p.message e), t) ]

  -- The pipeline's world with one of the scrapers.
  abbrev pub world_of : Site p.State → World
  world_of site = record {
    State = p.State;
    rows = p.rows;
    clock = p.clock;
    find = p.find;
    count = p.count;
    save = p.save;
    source_name = source_name site;
    get_articles = get_articles site;
    get_article_details = get_article_details site;
    filter_batch_with_ai =
        λ items. as_failure (λ ids. ids) (filter_batch_with_ai p.floats p.models items);
    summarize_content_with_ai = λ title content.
        as_failure (λ r. some (p.as_final r))
          (summarize_content_with_ai p.floats p.models.complete p.models.sleep p.parse_summary title
            content);
    vector_embedding_with_ai =
        λ texts. as_failure (λ vs. vs) (vector_embedding_with_ai p.floats p.models texts);
    delay_seconds = delay_seconds p.models.sleep;
  }

  abbrev pub scrapers : List (Text × Site p.State)
  scrapers = scraper_map source_name p.dev_to_site p.geek_news_site p.stack_overflow_site

  -- `process` of the worker: the data of a job is the name of its source.
  unfoldable pub process : Config → Text → Action p.State Stop ScrapeJobResult
  unfolding execute_scraper_by_name
  process config job_data =
      execute_scraper_by_name source_name rejected (λ site. process_source (world_of site) config)
        scrapers job_data
