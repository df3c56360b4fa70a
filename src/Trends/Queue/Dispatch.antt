-- ===== src/Trends/Queue/Dispatch.antt =====
-- What a dispatch leaves in the queue.
use mathlib.Core.List.{
  Mem, Mem-prop, mem-cons_self, mem-cons_of_mem, not-mem-nil, eq-or-mem_of_mem-cons,
}
use mathlib.Core.Logic.Or
use tech_trends.Base.{
  ◌≤◌, ◌≡◌, refl, sym, ap, ◌∙◌, true, false, List, [], ◌∷◌, ◌++◌, append_assoc, append-nil, Option,
  none, some, arith, subst, Text, Result, ok, All, All-append, All-map, All-Mem, Post, Post-ok,
  Post->>=, pure, Post-map,
}
use tech_trends.Common.Time.{kst_day}
use tech_trends.Common.Dates.{get_today_date_string_lem}
use tech_trends.Trends.World.{Failure}
use tech_trends.Trends.Queue.Held.{
  holds-last, id_at, IsFresh, HasJob, wider, HasJob-append, HasJob-earlier,
}
use tech_trends.Trends.Queue.{
  job_id_of, JobQueue, JobQueueLaws, holds, with_job, register, dispatch_one,
  dispatch_all_scrapers_to_queue,
}

module _ (q : JobQueue) (laws : JobQueueLaws q) where
  -- Fresh jobs were appended, and nothing else happened to the queue.
  pub record Dispatched (names : List Text) (s t : q.State) : Type 0 where
    pub later : q.now s ≤ q.now t
    pub new : List (Text × Text)
    pub appended : q.jobs t ≡ q.jobs s ++ new
    pub fresh : All (IsFresh names (q.now s) (q.now t) (q.jobs s)) new

  abbrev Registers : List Text → q.State → Result Failure (Unit {0}) × q.State → Type 0
  Registers names s o =
      Post (λ _ t. Dispatched names s t × All (HasJob (q.now s) (q.now t) (q.jobs t)) names)
        (λ _ _. Unit) o

  unchanged :
      (names : List Text) (s t : q.State)
      → q.now s ≤ q.now t
      → q.jobs t ≡ q.jobs s
      → Dispatched names s t
  unchanged names s t late e = record {
    later = late;
    new = [];
    appended = e ∙ sym (append-nil (q.jobs s));
    fresh = tt;
  }

  Dispatched-trans :
      (name : Text) (names : List Text) (s t u : q.State)
      → Dispatched (name ∷ []) s t
      → Dispatched names t u
      → Dispatched (name ∷ names) s u
  Dispatched-trans name names s t u d e = record {
    later = omega (arith, d.later, e.later);
    new = d.new ++ e.new;
    appended = e.appended ∙ ap (λ l. l ++ e.new) d.appended ∙ append_assoc (q.jobs s) d.new e.new;
    fresh =
        All-append _ d.new e.new
          (All-map
            (wider (q.jobs s) (q.jobs s) [] (λ n m. first n m) (omega arith) e.later
              (sym (append-nil (q.jobs s))))
            d.new d.fresh)
          (All-map
            (wider (q.jobs t) (q.jobs s) d.new (λ n m. mem-cons_of_mem name m) d.later (omega arith)
              d.appended)
            e.new e.fresh);
  }
    where
      first : (n : Text) → Mem n (name ∷ []) → Mem n (name ∷ names)
      first n m =
          Or.elim Mem-prop (eq-or-mem_of_mem-cons m) (λ p. rw p mem-cons_self)
            (λ k. absurd (not-mem-nil k))

  -- The identifier is that of the instant at which the date was read.
  register-Registers :
      (name : Text) (s t : q.State) (existing : Option Text)
      → q.now s ≤ q.now t
      → q.jobs t ≡ q.jobs s
      → (q.get_job (id_at (q.now s) name) s).0 ≡ ok existing
      → Registers (name ∷ []) s (register q (id_at (q.now s) name) name existing t)
  register-Registers name s t (some source) late same e =
      let id = id_at (q.now s) name in
      Post->>= {P = λ _ u. (q.jobs u ≡ q.jobs s) × (q.now s ≤ q.now u)} (q.get_state id)
        (λ _. pure tt) t
        (record {
          on_ok = λ state e.
              (laws.get_state_jobs id t ∙ same, omega (arith, late, laws.get_state_now id t));
          on_err = λ x e. tt;
        })
        (λ state u kept.
          Post-ok
            {Q = λ _ v.
              Dispatched (name ∷ []) s v × All (HasJob (q.now s) (q.now v) (q.jobs v)) (name ∷ [])}
            (
              unchanged (name ∷ []) s u kept.1 kept.0,
              (
                (
                  q.now s,
                  omega arith,
                  kept.1,
                  subst (λ js. holds id js ≡ true) (sym kept.0) (laws.get_job_some _ source s e),
                ),
                tt,
              ),
            ))
  register-Registers name s t none late same e =
      let id = id_at (q.now s) name in
      let absent = laws.get_job_none id s e in
      record {
        on_ok = λ done good.
            let after : q.now s ≤ q.now (q.add id name t).1 =
              omega (arith, late, laws.add_now id name t) in
            let added =
              laws.add_ok id name t done good ∙ ap (with_job id name) same ∙ rw absent refl in
            (
              record {
                later = after;
                new = (id, name) ∷ [];
                appended = added;
                fresh = ((mem-cons_self, (q.now s, omega arith, after, refl), absent), tt);
              },
              (
                (
                  q.now s,
                  omega arith,
                  after,
                  subst (λ js. holds id js ≡ true) (sym added) (holds-last id name (q.jobs s)),
                ),
                tt,
              ),
            );
        on_err = λ x bad. tt;
      }

  dispatch_one-Registers :
      (name : Text) (s : q.State) → Registers (name ∷ []) s (dispatch_one q name s)
  dispatch_one-Registers name s =
      let id = id_at (q.now s) name in
      Post->>=
        {P = λ existing t.
          (q.now s ≤ q.now t) × (q.jobs t ≡ q.jobs s) × ((q.get_job id s).0 ≡ ok existing)}
        (q.get_job id) (register q id name) s
        (record {
          on_ok = λ existing e. (laws.get_job_now id s, laws.get_job_jobs id s, e);
          on_err = λ x e. tt;
        })
        (λ existing t h. register-Registers name s t existing h.0 h.1 h.2)

  -- A dispatch that succeeds has, for every source, a job of a day on which it ran. It has appended
  -- only jobs of these sources that were not there, each under the identifier of its source and of an
  -- instant between the start and the end of the dispatch, and changed no other.
  pub dispatch_all_scrapers_to_queue-Dispatched :
      (names : List Text) (s : q.State)
      → Post
          (λ _ t. Dispatched names s t × All (HasJob (q.now s) (q.now t) (q.jobs t)) names)
          (λ _ _. Unit {0})
          (dispatch_all_scrapers_to_queue q names s)
  unfolding dispatch_all_scrapers_to_queue
  dispatch_all_scrapers_to_queue-Dispatched [] s = Post-ok (unchanged [] s s (omega arith) refl, tt)
  dispatch_all_scrapers_to_queue-Dispatched (name ∷ names) s =
      Post->>= (dispatch_one q name) (λ _. dispatch_all_scrapers_to_queue q names) s
        (dispatch_one-Registers name s)
        (λ done t h.
          Post-map (dispatch_all_scrapers_to_queue-Dispatched names t)
            (λ done' u k. (
              Dispatched-trans name names s t u h.0 k.0,
              (
                HasJob-append (q.jobs t) k.0.new (q.jobs u) k.0.later k.0.appended name h.1.0,
                All-map (HasJob-earlier (q.jobs u) h.0.later) names k.1,
              ),
            ))
            (λ x u k. tt))

  nothing_new :
      (names : List Text) (s t : q.State)
      → kst_day (q.now s) ≡ kst_day (q.now t)
      → All (λ name. holds (id_at (q.now s) name) (q.jobs s) ≡ true) names
      → (job : Text × Text) → ¬ IsFresh names (q.now s) (q.now t) (q.jobs s) job
  nothing_new names s t day held job (m, (i, a, b, named), new) =
      let same : kst_day i ≡ kst_day (q.now s) = omega (arith, day, a, b) in
      let id =
        named ∙ ap (λ d. job_id_of d job.1) ((get_today_date_string_lem i (q.now s)).1 same) in
      true-ne-false (
        sym (All-Mem (λ name. hlevel) names held job.1 m)
        ∙ sym (ap (λ j. holds j (q.jobs s)) id)
        ∙ new)
    where
      true-ne-false : ¬ (true ≡ false)
      true-ne-false r = cc

  -- Where every source has its job of the day already, a dispatch that starts and ends on that Korean
  -- day and succeeds leaves the queue as it is.
  pub dispatch_all_scrapers_to_queue_again :
      (names : List Text) (s : q.State) (done : Unit {0})
      → All (λ name. holds (id_at (q.now s) name) (q.jobs s) ≡ true) names
      → (dispatch_all_scrapers_to_queue q names s).0 ≡ ok done
      → kst_day (q.now s) ≡ kst_day (q.now (dispatch_all_scrapers_to_queue q names s).1)
      → q.jobs (dispatch_all_scrapers_to_queue q names s).1 ≡ q.jobs s
  dispatch_all_scrapers_to_queue_again names s done held e day =
      let d = ((dispatch_all_scrapers_to_queue-Dispatched names s).on_ok done e).0 in
      d.appended ∙ ap (λ new. q.jobs s ++ new) (nothing d.new d.fresh) ∙ append-nil (q.jobs s)
    where
      end : q.State
      end = (dispatch_all_scrapers_to_queue q names s).1

      nothing :
          (new : List (Text × Text))
          → All (IsFresh names (q.now s) (q.now end) (q.jobs s)) new
          → new ≡ []
      nothing [] h = refl
      nothing (job ∷ new) (p, h) = absurd (nothing_new names s end day held job p)
