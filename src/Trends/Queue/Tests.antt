-- ===== src/Trends/Queue/Tests.antt =====
-- A queue that is a list, with a clock that an added job moves on.
use tech_trends.Base.{
  ℕ, ◌+◌, ◌≡◌, refl, true, false, List, [], ◌∷◌, Option, none, some, if◌then◌else◌, Text, units,
  text_eq, ok, All, Post, decimal, ◌↔◌, ok_injective, arith,
}
use tech_trends.Common.Time.{kst_day}
use tech_trends.Common.Dates.{get_today_date_string, date_of, date_text, days_in_month}
use tech_trends.Trends.Queue.Days.{job_id_of_lem}
use tech_trends.Trends.Queue.{
  job_id_of, JobQueue, JobQueueLaws, holds, with_job, dispatch_all_scrapers_to_queue,
}
use tech_trends.Trends.Queue.Held.{HasJob}
use tech_trends.Trends.Queue.Dispatch.{
  Dispatched, dispatch_all_scrapers_to_queue-Dispatched, dispatch_all_scrapers_to_queue_again,
}

abbrev Jobs : Type 0
Jobs = List (Text × Text)

abbrev job_in : Text → Jobs → Option Text
job_in id [] = none
job_in id ((i, source) ∷ jobs) = if text_eq id i then some source else job_in id jobs

abbrev queue : JobQueue
queue = record {
  State = Jobs × ℕ;
  now = λ s. s.1;
  jobs = λ s. s.0;
  get_job = λ id s. (ok (job_in id s.0), s);
  get_state = λ id s. (ok (units "waiting"), s);
  add = λ id source s. (ok tt, (with_job id source s.0, s.1 + 1000));
}

none_held : (id : Text) (s : Jobs) → job_in id s ≡ none → holds id s ≡ false
none_held id [] e = refl
none_held id ((i, source) ∷ s) e = ground (arith, none_held id s)

some_held : (id source : Text) (s : Jobs) → job_in id s ≡ some source → holds id s ≡ true
some_held id source [] e = absurd (cc)
some_held id source ((i, t) ∷ s) e = ground (arith, some_held id source s)

queue-Laws : JobQueueLaws queue
queue-Laws = record {
  get_job_jobs = λ id s. refl;
  get_state_jobs = λ id s. refl;
  get_job_none = λ id s e. none_held id s.0 (ok_injective e);
  get_job_some = λ id source s e. some_held id source s.0 (ok_injective e);
  add_ok = λ id source s done e. refl;
  get_job_now = λ id s. omega arith;
  get_state_now = λ id s. omega arith;
  add_now = λ id source s. omega arith;
}

abbrev names : List Text
names = units "dev.to" ∷ units "geeknews" ∷ []

-- Half past eleven at night in Korea on the first of March 1970, where one source has its job.
abbrev start : Jobs × ℕ
start = ((units "geeknews-1970-03-01", units "geeknews") ∷ [], 5_149_800_000)

abbrev once : Jobs × ℕ
once = (dispatch_all_scrapers_to_queue queue names start).1

dispatch_all_scrapers_to_queue-Dispatched_example :
    Post
      (λ _ t. Dispatched queue queue-Laws names start t × All (HasJob 5_149_800_000 t.1 t.0) names)
      (λ _ _. Unit {0})
      (dispatch_all_scrapers_to_queue queue names start)
dispatch_all_scrapers_to_queue-Dispatched_example =
    dispatch_all_scrapers_to_queue-Dispatched queue queue-Laws names start

dispatch_all_scrapers_to_queue_again_example :
    queue.jobs (dispatch_all_scrapers_to_queue queue names once).1 ≡ queue.jobs once
unfolding dispatch_all_scrapers_to_queue job_id_of get_today_date_string decimal days_in_month
    date_text date_of
dispatch_all_scrapers_to_queue_again_example =
    dispatch_all_scrapers_to_queue_again queue queue-Laws names once tt (refl, (refl, tt)) refl refl

-- The second of two sources is reached after midnight.
past_midnight :
    (dispatch_all_scrapers_to_queue queue names ([], 5_151_599_500)).1.0
    ≡ (units "dev.to-1970-03-01", units "dev.to")
      ∷ (units "geeknews-1970-03-02", units "geeknews")
      ∷ []
unfolding dispatch_all_scrapers_to_queue job_id_of get_today_date_string decimal days_in_month
    date_text date_of
past_midnight = refl

-- Half past eleven at night in Korea on the first of March 1970, and an hour later.
late : get_today_date_string 5_149_800_000 ≡ units "1970-03-01"
unfolding get_today_date_string decimal days_in_month date_text date_of
late = refl

leap_day : date_text (date_of 789) ≡ units "1972-02-29"
unfolding date_text date_of decimal days_in_month
leap_day = refl

job_id_of_lem_example :
    (job_id_of (get_today_date_string 5_149_800_000) (units "geeknews")
      ≡ job_id_of (get_today_date_string 5_153_400_000) (units "geeknews"))
    ↔ ((units "geeknews" ≡ units "geeknews") × (kst_day 5_149_800_000 ≡ kst_day 5_153_400_000))
job_id_of_lem_example =
    job_id_of_lem (units "geeknews") (units "geeknews") 5_149_800_000 5_153_400_000
