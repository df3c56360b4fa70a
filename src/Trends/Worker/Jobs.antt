-- ===== src/Trends/Worker/Jobs.antt =====
-- What a job of the queue does to the table, whichever its source is.
use tech_trends.Base.{
  ℕ, ◌*◌, ◌≤◌, ◌≡◌, refl, sym, ap, ◌∙◌, subst, inl, inr, ◌⊎◌, Bool, false, List, [], ◌∷◌, ◌++◌, map,
  none, some, arith, Text, text_eq, text_eq_iff, Bool-cases, keep, length, All, Result-cases, ok,
  err, Action, lookup, insert, lookup-insert, some_injective, append_cancel_left, Option-cases,
  units,
}
use tech_trends.Trends.Data.{TrendColumns, TechTrend, ScrapeJobResult}
use tech_trends.Trends.World.{IsQuiet, Laws, any, Failure}
use tech_trends.Ai.Models.{filter_batch_with_ai, vector_embedding_with_ai}
use tech_trends.Ai.Summary.{summarize_content_with_ai}
use tech_trends.Ai.Retry.{RetryFailure}
use tech_trends.Trends.Scrapers.Site.{Site, source_name}
use tech_trends.Trends.Scrapers.Source.{get_articles-source_name}
use tech_trends.Trends.Pipeline.Steps.{Config, to_info}
use tech_trends.Trends.Pipeline.{Stop, rejected, process_source}
use tech_trends.Trends.Pipeline.Fresh.{is_row_of}
use tech_trends.Trends.Pipeline.Quota.{process_source_appends_new, process_source_reports}
use tech_trends.Trends.Queue.{get_scraper, execute_scraper_by_name}
use tech_trends.Trends.Worker.{Parts, as_failure, world_of, scrapers, process}
use tech_trends.Trends.Worker.Calm.{
  IsCalm, IsCalmSite, get_articles-IsCalm, get_article_details-IsCalm, filter_batch_with_ai-IsCalm,
  summarize_content_with_ai-IsCalm, vector_embedding_with_ai-IsCalm,
}

abbrev pub unregistered : Text → Stop
unregistered name = rejected (units "[ScraperFactory] 등록되지 않은 스크래퍼 소스입니다: " ++ name)

module _ {Scraper S Job : Type 0} (named : Scraper → Text) (run : Scraper → Action S Stop Job)
    (m : List (Text × Scraper)) (name : Text) (s : S) where
  pub execute-found :
      (scraper : Scraper)
      → lookup name m ≡ some scraper
      → execute_scraper_by_name named rejected run m name s ≡ run scraper s
  unfolding execute_scraper_by_name get_scraper
  execute-found scraper e = rw (e, execute_scraper_by_name)

  pub execute-missing :
      lookup name m ≡ none
      → execute_scraper_by_name named rejected run m name s ≡ (err (unregistered name), s)
  unfolding execute_scraper_by_name get_scraper
  execute-missing e = rw (e, execute_scraper_by_name)

module _ (p : Parts) where
  -- The table as it was, at a later time.
  abbrev pub Later : p.State → p.State → Type 0
  Later s t = (p.rows t ≡ p.rows s) × (p.clock s ≤ p.clock t)

  pub Later-refl : (s : p.State) → Later s s
  Later-refl s = (refl, omega arith)

  pub Later-trans : (s t u : p.State) → Later s t → Later t u → Later s u
  Later-trans s t u (e, h) (f, k) = (f ∙ e, omega (arith, h, k))

  abbrev pub Calm : {E A : Type 0} → Action p.State E A → Type 0
  Calm m = IsCalm Later Later-refl Later-trans m

  -- The table finds, counts and appends; nothing else touches it while a job runs, and time goes on.
  pub record PartsLaws : Type 0 where
    pub find_calm : (q : TechTrend → Bool) → Calm (p.find q)
    pub find_ok :
        (q : TechTrend → Bool) (s : p.State) (found : List TechTrend)
        → (p.find q s).0 ≡ ok found
        → (t : TechTrend → Bool) → any t found ≡ any t (keep q (p.rows s))
    pub count_calm : (q : TechTrend → Bool) → Calm (p.count q)
    pub count_ok :
        (q : TechTrend → Bool) (s : p.State) (n : ℕ)
        → (p.count q s).0 ≡ ok n
        → n ≡ length (keep q (p.rows s))
    pub save_ok :
        (columns : TrendColumns) (s : p.State) (row : TechTrend)
        → (p.save columns s).0 ≡ ok row
        → (p.rows (p.save columns s).1 ≡ p.rows s ++ row ∷ [])
          × (row.columns ≡ columns)
          × (p.clock s ≤ row.mined_at)
          × (p.clock s ≤ p.clock (p.save columns s).1)
    pub save_err :
        (columns : TrendColumns) (s : p.State) (e : Failure)
        → (p.save columns s).0 ≡ err e
        → Later s (p.save columns s).1
    pub sleep_calm : (n : ℕ) (s : p.State) → Later s (p.models.sleep n s)
    pub complete_calm : (prompt : Text) → Calm (p.models.complete prompt)
    pub embed_content_calm : (texts : List Text) → Calm (p.models.embed_content texts)
    pub dev_to_calm : IsCalmSite Later Later-refl Later-trans p.dev_to_site
    pub geek_news_calm : IsCalmSite Later Later-refl Later-trans p.geek_news_site
    pub stack_overflow_calm : IsCalmSite Later Later-refl Later-trans p.stack_overflow_site

  as_failure-Calm :
      {A B : Type 0} (f : A → B) (m : Action p.State RetryFailure A)
      → Calm m
      → Calm (as_failure p f m)
  as_failure-Calm f m h s = elim (Result-cases (m s).0) [
    | inl (a, e) ↦ rw (e, as_failure) (h s)
    | inr (x, e) ↦ rw (e, as_failure) (h s)
  ]

  quiet : (site : Site p.State) {s t : p.State} → Later s t → IsQuiet (world_of p site) s t
  quiet site (same, later) = record { same_rows = same; later = later }

  -- With any scraper whose calls leave the table alone, the parts are a world of the pipeline.
  pub world_of-Laws :
      (site : Site p.State)
      → PartsLaws
      → IsCalmSite Later Later-refl Later-trans site
      → Laws (world_of p site)
  world_of-Laws site laws calm = record {
    find_quiet = λ q s. quiet site (laws.find_calm q s);
    find_ok = laws.find_ok;
    count_quiet = λ q s. quiet site (laws.count_calm q s);
    count_ok = laws.count_ok;
    save_ok = λ columns s row e.
        let (appended, given, stamped, later) = laws.save_ok columns s row e in
        record { appended = appended; given = given; stamped = stamped; later = later };
    save_err = λ columns s x e. quiet site (laws.save_err columns s x e);
    get_articles_quiet =
        λ s. quiet site (get_articles-IsCalm Later Later-refl Later-trans site calm s);
    get_articles_source = λ s articles e. get_articles-source_name site s articles e;
    get_article_details_quiet =
        λ id s. quiet site (get_article_details-IsCalm Later Later-refl Later-trans site id calm s);
    filter_quiet = λ items s. quiet site (
        as_failure-Calm (λ ids. ids) (filter_batch_with_ai p.floats p.models items)
          (filter_batch_with_ai-IsCalm Later Later-refl Later-trans p.floats p.models
            laws.sleep_calm laws.complete_calm laws.embed_content_calm items)
          s);
    summarize_quiet = λ title content s. quiet site (
        as_failure-Calm (λ r. some (p.as_final r))
          (summarize_content_with_ai p.floats p.models.complete p.models.sleep p.parse_summary title
            content)
          (summarize_content_with_ai-IsCalm Later Later-refl Later-trans p.floats p.models
            laws.sleep_calm laws.complete_calm laws.embed_content_calm p.parse_summary title
            content)
          s);
    embedding_quiet = λ texts s. quiet site (
        as_failure-Calm (λ vs. vs) (vector_embedding_with_ai p.floats p.models texts)
          (vector_embedding_with_ai-IsCalm Later Later-refl Later-trans p.floats p.models
            laws.sleep_calm laws.complete_calm laws.embed_content_calm texts)
          s);
    delay_quiet = λ n s. quiet site (laws.sleep_calm (n * 1000) s);
  }

  -- A scraper that is found by a name has that name, and its calls leave the table alone.
  pub scrapers-found :
      (name : Text) (site : Site p.State)
      → PartsLaws
      → lookup name (scrapers p) ≡ some site
      → (source_name site ≡ name) × IsCalmSite Later Later-refl Later-trans site
  scrapers-found name site laws e =
      inserted p.stack_overflow_site
        (insert (source_name p.geek_news_site) p.geek_news_site
          (insert (source_name p.dev_to_site) p.dev_to_site []))
        laws.stack_overflow_calm
        (inserted p.geek_news_site (insert (source_name p.dev_to_site) p.dev_to_site [])
          laws.geek_news_calm (inserted p.dev_to_site [] laws.dev_to_calm (λ e. cc)))
        e
    where
      Found : List (Text × Site p.State) → Type 0
      Found m =
          lookup name m ≡ some site
          → (source_name site ≡ name) × IsCalmSite Later Later-refl Later-trans site

      inserted :
          (v : Site p.State) (m : List (Text × Site p.State))
          → IsCalmSite Later Later-refl Later-trans v
          → Found m
          → Found (insert (source_name v) v m)
      inserted v m calm found e = elim (Bool-cases (text_eq name (source_name v))) [
        | inl same ↦
            let v_is : v ≡ site =
              some_injective (sym (rw same) ∙ sym (lookup-insert name (source_name v) v m) ∙ e) in
            subst (λ w. (source_name w ≡ name) × IsCalmSite Later Later-refl Later-trans w) v_is
              (sym ((text_eq_iff name (source_name v)).0 same), calm)
        | inr other ↦ found (sym (rw other) ∙ sym (lookup-insert name (source_name v) v m) ∙ e)
      ]

  abbrev pub run : Config → Site p.State → Action p.State Stop ScrapeJobResult
  run config site = process_source (world_of p site) config

  -- What a job has done to the table when it ends, where its source is registered.
  pub record Ran (config : Config) (name : Text) (s : p.State) : Type 0 where
    pub new : List TechTrend
    pub appended : p.rows (process p config name s).1 ≡ p.rows s ++ new
    pub fresh :
        All
          (λ row. (row.source ≡ name) × (any (is_row_of name row.source_id) (p.rows s) ≡ false))
          new
    pub reports :
        (result : ScrapeJobResult)
        → (process p config name s).0 ≡ ok result
        → (result.source_name ≡ name)
          × (result.saved_articles ≡ map to_info new)
          × (result.saved_count ≡ length new)

  -- A job of the queue whose data is the name of one of the three sources appends to the table, however
  -- it ends: only rows of that source, none of an article that the table had of it; and where it
  -- returns, it reports that source and these rows. With any other data it is rejected at once, and
  -- changes nothing.
  pub process_lem :
      (laws : PartsLaws) (config : Config) (name : Text) (s : p.State)
      → Ran config name s
        ⊎ ((lookup name (scrapers p) ≡ none)
            × (process p config name s ≡ (err (unregistered name), s)))
  unfolding process
  process_lem laws config name s = elim (Option-cases (lookup name (scrapers p))) [
    | inl missing ↦
        inr (missing, execute-missing source_name (run config) (scrapers p) name s missing)
    | inr (site, found) ↦ inl (ran site found (scrapers-found name site laws found))
  ]
    where
      ran :
          (site : Site p.State)
          → lookup name (scrapers p) ≡ some site
          → (source_name site ≡ name) × IsCalmSite Later Later-refl Later-trans site
          → Ran config name s
      ran site found (named, calm) =
          let laws_of = world_of-Laws site laws calm in
          let same = execute-found source_name (run config) (scrapers p) name s site found in
          let (new, appended, fresh) =
            process_source_appends_new (world_of p site) laws_of config s in
          record {
            new = new;
            appended = ap (λ o. p.rows o.1) same ∙ appended;
            fresh =
                subst
                  (λ n.
                    All
                      (λ row.
                        (row.source ≡ n) × (any (is_row_of n row.source_id) (p.rows s) ≡ false))
                      new)
                  named fresh;
            reports = λ result e.
                let (source, _, (listed, list_eq, infos, count)) =
                  process_source_reports (world_of p site) laws_of config s result
                    (ap (λ o. o.0) (sym same) ∙ e) in
                let one = append_cancel_left (p.rows s) listed new (sym list_eq ∙ appended) in
                (source ∙ named, infos ∙ ap (map to_info) one, count ∙ ap length one);
          }
