-- ===== src/Trends/Worker/Day.antt =====
-- All the jobs of a day, of whatever sources, one after another.
use tech_trends.Base.{
  ℕ, ◌≤◌, ◌≡◌, ◌≢◌, refl, sym, ap, ◌∙◌, subst, inl, inr, false, List, [], ◌∷◌, arith, max, Text,
  text_eq, text_eq_iff, Bool-cases, Option-cases, All, All-map, lookup,
}
use tech_trends.Common.Time.{get_today_start_utc}
use tech_trends.Trends.Data.{TechTrend}
use tech_trends.Trends.Scrapers.Site.{source_name}
use tech_trends.Trends.Pipeline.Steps.{Config}
use tech_trends.Trends.Pipeline.Source.{saved_since}
use tech_trends.Trends.Pipeline.Quota.{saved_since-append, process_source-le-target}
use tech_trends.Trends.Worker.{Parts, world_of, scrapers, process}
use tech_trends.Trends.Worker.Jobs.{
  Later, PartsLaws, world_of-Laws, scrapers-found, execute-found, execute-missing, run, Ran,
  process_lem,
}

-- Rows of another source do not count.
saved_since-other :
    (source name : Text) (since : ℕ) (new : List TechTrend)
    → source ≢ name
    → All (λ row. row.source ≡ name) new
    → saved_since source since new ≡ 0
saved_since-other source name since [] other _ = refl
saved_since-other source name since (row ∷ new) other (here, rest) =
    elim (Bool-cases (text_eq row.source source)) [
      | inl same ↦ absurd (other (sym ((text_eq_iff row.source source).0 same) ∙ here))
      | inr differ ↦ rw differ (saved_since-other source name since new other rest)
    ]

module _ (p : Parts) (laws : PartsLaws p) (config : Config) where
  abbrev today_of : Text → p.State → p.State → ℕ
  today_of source s t = saved_since source (get_today_start_utc (p.clock s)) (p.rows t)

  unchanged :
      (source : Text) (s t : p.State)
      → p.rows t ≡ p.rows s
      → today_of source s t ≤ max config.target_save_count (today_of source s s)
  unchanged source s t same = rw same (omega arith)

  other-le-target :
      (name source : Text) (s : p.State)
      → source ≢ name
      → Ran p config name s
      → today_of source s (process p config name s).1
        ≤ max config.target_save_count (today_of source s s)
  other-le-target name source s other ran = rw (ran.appended) (
      omega (
        arith,
        saved_since-append source (get_today_start_utc (p.clock s)) (p.rows s) ran.new,
        saved_since-other source name (get_today_start_utc (p.clock s)) ran.new other
            (All-map (λ row h. h.0) ran.new ran.fresh),
      ))

  own-le-target :
      (name : Text) (s : p.State)
      → today_of name s (process p config name s).1
        ≤ max config.target_save_count (today_of name s s)
  unfolding process
  own-le-target name s = elim (Option-cases (lookup name (scrapers p))) [
    | inl missing ↦ unchanged name s (process p config name s).1 (
        ap (λ o. p.rows o.1)
          (execute-missing source_name (run p config) (scrapers p) name s missing))
    | inr (site, found) ↦
        let (named, calm) = scrapers-found p name site laws found in
        subst (λ t. today_of name s t ≤ max config.target_save_count (today_of name s s))
          (sym (
            ap (λ o. o.1)
              (execute-found source_name (run p config) (scrapers p) name s site found)))
          (subst
            (λ n.
              today_of n s (run p config site s).1 ≤ max config.target_save_count (today_of n s s))
            named
            (process_source-le-target (world_of p site) (world_of-Laws p site laws calm) config s))
  ]

  -- One job, for the source that it is of, and for any other.
  job-le-target :
      (name source : Text) (s : p.State)
      → today_of source s (process p config name s).1
        ≤ max config.target_save_count (today_of source s s)
  job-le-target name source s = elim (Bool-cases (text_eq source name)) [
    | inl same ↦
        subst
          (λ n.
            today_of n s (process p config name s).1
            ≤ max config.target_save_count (today_of n s s))
          (sym ((text_eq_iff source name).0 same)) (own-le-target name s)
    | inr differ ↦ elim (process_lem p laws config name s) [
      | inl ran ↦ other-le-target name source s (λ e. apart differ e) ran
      | inr (missing, refused) ↦
          unchanged source s (process p config name s).1 (ap (λ o. p.rows o.1) refused)
    ]
  ]
    where
      apart : text_eq source name ≡ false → ¬ (source ≡ name)
      apart differ e = ground (arith, text_eq_iff source name)

  -- Jobs of the queue that begin on one Korean day; between them time passes, and nothing else writes.
  pub data Jobs (since : ℕ) : p.State → p.State → Type 0 where
    none_left : {s : p.State} → Jobs since s s
    idle : {s t u : p.State} → Later p s t → Jobs since t u → Jobs since s u
    job :
        {s t : p.State} (name : Text)
        → get_today_start_utc (p.clock s) ≡ since
        → Jobs since (process p config name s).1 t
        → Jobs since s t

  -- Whatever jobs begin on one day, of whichever sources, in any order and as often as the queue
  -- repeats them, and however each ends: of each source, the rows stamped that day are then at most
  -- the target, or as many as before the first job where that was more.
  pub Jobs-le-target :
      (since : ℕ) {s t : p.State}
      → Jobs since s t
      → (source : Text)
      → saved_since source since (p.rows t)
        ≤ max config.target_save_count (saved_since source since (p.rows s))
  Jobs-le-target since none_left source = omega arith
  Jobs-le-target since (idle (same, _) more) source =
      let rest = Jobs-le-target since more source in rw (sym same) rest
  Jobs-le-target since (job {s} name today more) source =
      let one = job-le-target name source s in
      let rest = Jobs-le-target since more source in omega (arith, rw today at one, rest)
