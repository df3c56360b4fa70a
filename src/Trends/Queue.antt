-- ===== src/Trends/Queue.antt =====
-- The queue of the jobs: `dispatchAllScrapersToQueue` and `executeScraperByName` of
-- trends-pipeline.service.ts, and scraper.factory.ts.
pub mod Held
pub mod Dispatch
pub mod Days
mod Tests
use tech_trends.Base.{
  ℕ, ◌≤◌, Bool, true, false, List, [], ◌∷◌, ◌++◌, Option, none, some, map, if◌then◌else◌, Text,
  units, text_eq, lookup, insert, Result, ok, err, Action, pure, ◌>>=◌, ◌≡◌,
}
use tech_trends.Common.Dates.{get_today_date_string}
use tech_trends.Trends.World.{Failure}

-- `new Map([…])` of the three scrapers, by their names.
module _ {Scraper : Type 0} (source_name : Scraper → Text) where
  abbrev pub scraper_map : Scraper → Scraper → Scraper → List (Text × Scraper)
  scraper_map dev_to geek_news stack_overflow =
      insert (source_name stack_overflow) stack_overflow
        (insert (source_name geek_news) geek_news (insert (source_name dev_to) dev_to []))

  abbrev pub or_unknown : Text → Option Scraper → Result Failure Scraper
  or_unknown name none = err (units "[ScraperFactory] 등록되지 않은 스크래퍼 소스입니다: " ++ name)
  or_unknown name (some scraper) = ok scraper

  unfoldable pub get_scraper : List (Text × Scraper) → Text → Result Failure Scraper
  get_scraper scrapers name = or_unknown name (lookup name scrapers)

  unfoldable pub get_all_source_names : List (Text × Scraper) → List Text
  get_all_source_names scrapers = map (λ e. e.0) scrapers

  -- `executeScraperByName`, and the worker's `process` of a job, whose data is the name. What the
  -- pipeline rejects with is passed on.
  unfoldable pub execute_scraper_by_name :
      {S Error Job : Type 0}
      → (Failure → Error)
      → (Scraper → Action S Error Job)
      → List (Text × Scraper)
      → Text
      → Action S Error Job
  unfolding get_scraper
  execute_scraper_by_name unknown process_source scrapers name s =
      elim (get_scraper scrapers name) [
        | ok scraper ↦ process_source scraper s
        | err e ↦ (err (unknown e), s)
      ]

unfoldable pub job_id_of : Text → Text → Text
job_id_of today source_name = source_name ++ (units "-" ++ today)

-- The queue of the library, and the clock: a job has an identifier and its data, the source.
pub record JobQueue : Type 1 where
  pub State : Type 0
  pub now : State → ℕ
  pub jobs : State → List (Text × Text)
  pub get_job : Text → Action State Failure (Option Text)
  pub get_state : Text → Action State Failure Text
  pub add : Text → Text → Action State Failure (Unit {0})

abbrev pub holds : Text → List (Text × Text) → Bool
holds job_id [] = false
holds job_id ((id, source) ∷ jobs) = if text_eq job_id id then true else holds job_id jobs

-- `add` of an identifier that the queue holds is ignored.
abbrev pub with_job : Text → Text → List (Text × Text) → List (Text × Text)
with_job job_id source jobs = if holds job_id jobs then jobs else jobs ++ (job_id, source) ∷ []

-- The clock does not go back. While a dispatch runs nobody else changes the queue: no other dispatch
-- adds a job, and no worker takes one out (a completed job is removed from the queue).
pub record JobQueueLaws (q : JobQueue) : Type 0 where
  pub get_job_jobs : (job_id : Text) (s : q.State) → q.jobs (q.get_job job_id s).1 ≡ q.jobs s
  pub get_state_jobs : (job_id : Text) (s : q.State) → q.jobs (q.get_state job_id s).1 ≡ q.jobs s
  pub get_job_none :
      (job_id : Text) (s : q.State)
      → (q.get_job job_id s).0 ≡ ok none
      → holds job_id (q.jobs s) ≡ false
  pub get_job_some :
      (job_id source : Text) (s : q.State)
      → (q.get_job job_id s).0 ≡ ok (some source)
      → holds job_id (q.jobs s) ≡ true
  pub add_ok :
      (job_id source : Text) (s : q.State) (done : Unit {0})
      → (q.add job_id source s).0 ≡ ok done
      → q.jobs (q.add job_id source s).1 ≡ with_job job_id source (q.jobs s)
  pub get_job_now : (job_id : Text) (s : q.State) → q.now s ≤ q.now (q.get_job job_id s).1
  pub get_state_now : (job_id : Text) (s : q.State) → q.now s ≤ q.now (q.get_state job_id s).1
  pub add_now : (job_id source : Text) (s : q.State) → q.now s ≤ q.now (q.add job_id source s).1

module _ (q : JobQueue) where
  -- A job that is there is not registered again.
  abbrev pub register : Text → Text → Option Text → Action q.State Failure (Unit {0})
  register job_id source_name (some existing) = do state ← q.get_state job_id; pure tt
  register job_id source_name none = q.add job_id source_name

  abbrev pub look_up : Text → Text → Action q.State Failure (Unit {0})
  look_up job_id source_name = do existing ← q.get_job job_id; register job_id source_name existing

  -- The date is read anew for each source.
  abbrev pub dispatch_one : Text → Action q.State Failure (Unit {0})
  dispatch_one source_name s =
      look_up (job_id_of (get_today_date_string (q.now s)) source_name) source_name s

  unfoldable pub dispatch_all_scrapers_to_queue : List Text → Action q.State Failure (Unit {0})
  dispatch_all_scrapers_to_queue [] = pure tt
  dispatch_all_scrapers_to_queue (source_name ∷ names) = do
    done ← dispatch_one source_name
    dispatch_all_scrapers_to_queue names
