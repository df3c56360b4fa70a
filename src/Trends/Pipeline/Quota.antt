-- ===== src/Trends/Pipeline/Quota.antt =====
-- A whole job: the target of the day, the report, and the rows appended.
use tech_trends.Base.{
  ℕ, suc, ◌+◌, ◌≤◌, ◌≡◌, refl, sym, ap, ◌∙◌, inl, inr, true, false, Bool, List, [], ◌∷◌, ◌++◌, map,
  keep, arith, max, length, length-append, length-keep-le, All, All-map, ok, subst, Text,
  text_eq_iff, Result-cases,
}
use tech_trends.Common.Time.{get_today_start_utc}
use tech_trends.Trends.Data.{TechTrend, ScrapeJobResult}
use tech_trends.Trends.World.{World, Laws, any}
use tech_trends.Trends.Repository.{is_saved_since}
use tech_trends.Trends.Pipeline.Steps.{Config, BatchResult, nothing, to_info, to_columns}
use tech_trends.Trends.Pipeline.{process_source}
use tech_trends.Trends.Pipeline.Saving.{Adds, Stems}
use tech_trends.Trends.Pipeline.Fresh.{IsNew, is_row_of}
use tech_trends.Trends.Pipeline.Source.{saved_since, left, process_source-Ends}

keep-append {ℓ} :
    {A : Type ℓ} (p : A → Bool) (xs ys : List A) → keep p (xs ++ ys) ≡ keep p xs ++ keep p ys
keep-append p [] ys = refl
keep-append p (x ∷ xs) ys = ground (arith, keep-append p xs ys)

pub saved_since-append :
    (source : Text) (since : ℕ) (old new : List TechTrend)
    → saved_since source since (old ++ new)
      ≡ saved_since source since old + saved_since source since new
saved_since-append source since old new =
    ap length (keep-append (is_saved_since source since) old new)
    ∙ length-append (keep (is_saved_since source since) old) _

-- Rows that all count.
length-keep-All {ℓ} :
    {A : Type ℓ} (p : A → Bool) (xs : List A)
    → All (λ x. p x ≡ true) xs
    → length (keep p xs) ≡ length xs
length-keep-All p [] h = refl
length-keep-All p (x ∷ xs) (e, h) = rw e (ap suc (length-keep-All p xs h))

get_today_start_utc-le : (now : ℕ) → get_today_start_utc now ≤ now
unfolding get_today_start_utc
get_today_start_utc-le now = omega arith

module _ (w : World) (laws : Laws w) (config : Config) where
  abbrev since_today : w.State → ℕ
  since_today s = get_today_start_utc (w.clock s)

  -- However the job ends, this was appended.
  process_source-Adds :
      (s : w.State)
      → (b : BatchResult) × Adds w
          (IsNew w.source_name (w.rows s))
          s
          (process_source w config s).1
          nothing
          b
          (left w laws config s)
  process_source-Adds s = elim (Result-cases (process_source w config s).0) [
    | inl (result, e) ↦
        let r = (process_source-Ends w laws config s).on_ok result e in (r.total, r.adds)
    | inr (stop, e) ↦ (process_source-Ends w laws config s).on_err stop e
  ]

  -- However a job ends, with a report, an error or a loop without end after part of the work: the
  -- rows of its source stamped since the start of the Korean day it began on are then at most the
  -- target, or as many as before where that was more.
  pub process_source-le-target :
      (s : w.State)
      → saved_since w.source_name
          (get_today_start_utc (w.clock s))
          (w.rows (process_source w config s).1)
        ≤ max config.target_save_count
            (saved_since w.source_name (get_today_start_utc (w.clock s)) (w.rows s))
  process_source-le-target s =
      let (b, x) = process_source-Adds s in
      rw (x.grows.appended) (
        omega (
          arith,
          saved_since-append w.source_name (since_today s) (w.rows s) x.new,
          length-keep-le (is_saved_since w.source_name (since_today s)) x.new,
          x.bounded,
        ))

  -- The source and the identifier of a row made from a new article.
  abbrev IsNewRow : w.State → TechTrend → Type 0
  IsNewRow s row =
      (row.source ≡ w.source_name)
      × (any (is_row_of w.source_name row.source_id) (w.rows s) ≡ false)

  new_row :
      (s : w.State) (row : TechTrend)
      → Stems w (IsNew w.source_name (w.rows s)) row
      → IsNewRow s row
  unfolding to_columns
  new_row s row (item, (named, fresh), made) = (
    ap (λ c. c.source) made ∙ named,
    subst (λ id. any (is_row_of w.source_name id) (w.rows s) ≡ false)
        (sym (ap (λ c. c.source_id) made)) fresh,
  )

  -- Such a row, stamped after the job began, counts for today.
  counts_today :
      (s : w.State) (row : TechTrend)
      → row.source ≡ w.source_name
      → w.clock s ≤ row.mined_at
      → is_saved_since w.source_name (since_today s) row ≡ true
  counts_today s row named h =
      ground (arith, text_eq_iff row.source w.source_name, get_today_start_utc-le (w.clock s))

  All-counts_today :
      (s : w.State) (new : List TechTrend)
      → All (Stems w (IsNew w.source_name (w.rows s))) new
      → All (λ row. w.clock s ≤ row.mined_at) new
      → All (λ row. is_saved_since w.source_name (since_today s) row ≡ true) new
  All-counts_today s [] _ _ = tt
  All-counts_today s (row ∷ rows) (m, ms) (h, hs) =
      (counts_today s row (new_row s row m).0 h, All-counts_today s rows ms hs)

  -- Every row that a job appends, however it ends, is of its source and of an identifier for which
  -- the table had no row of that source when the job began.
  pub process_source_appends_new :
      (s : w.State)
      → (new : List TechTrend) × (w.rows (process_source w config s).1 ≡ w.rows s ++ new)
        × All
            (λ row.
              (row.source ≡ w.source_name)
              × (any (is_row_of w.source_name row.source_id) (w.rows s) ≡ false))
            new
  process_source_appends_new s =
      let (b, x) = process_source-Adds s in
      (x.new, x.grows.appended, All-map (new_row s) x.new x.grows.stem)

  -- What a job that returns reports: its source; the rows that it appended, in order; their number,
  -- which is also by how much the rows of the source stamped since the start of the day grew.
  pub process_source_reports :
      (s : w.State) (result : ScrapeJobResult)
      → (process_source w config s).0 ≡ ok result
      → (result.source_name ≡ w.source_name)
        × (saved_since w.source_name
              (get_today_start_utc (w.clock s))
              (w.rows (process_source w config s).1)
            ≡ saved_since w.source_name (get_today_start_utc (w.clock s)) (w.rows s)
              + result.saved_count)
        × ((new : List TechTrend) × (w.rows (process_source w config s).1 ≡ w.rows s ++ new)
            × (result.saved_articles ≡ map to_info new)
            × (result.saved_count ≡ length new))
  process_source_reports s result e =
      let r = (process_source-Ends w laws config s).on_ok result e in
      let x = r.adds in
      let today = is_saved_since w.source_name (since_today s) in
      (
        r.named,
        rw (x.grows.appended) (
            omega (
              arith,
              saved_since-append w.source_name (since_today s) (w.rows s) x.new,
              length-keep-All today x.new (All-counts_today s x.new x.grows.stem x.grows.stamped),
              x.saved_count,
              r.count,
            )),
        (
          x.new,
          x.grows.appended,
          r.articles ∙ x.saved_articles,
          omega (arith, r.count, x.saved_count),
        ),
      )

  -- The attempts of a job that begin on one Korean day; between them the queue only waits.
  pub data Attempts (since : ℕ) : w.State → w.State → Type 0 where
    here : {s : w.State} → Attempts since s s
    next :
        {s t : w.State}
        → get_today_start_utc (w.clock s) ≡ since
        → Attempts since (process_source w config s).1 t
        → Attempts since s t

  -- However many attempts begin on one day, and however each ends, the rows of the source stamped
  -- that day are then at most the target, or as many as before the first where that was more.
  pub Attempts-le-target :
      (since : ℕ) {s t : w.State}
      → Attempts since s t
      → saved_since w.source_name since (w.rows t)
        ≤ max config.target_save_count (saved_since w.source_name since (w.rows s))
  Attempts-le-target since here = omega arith
  Attempts-le-target since (next {s} same more) =
      let one = process_source-le-target s in
      let rest = Attempts-le-target since more in omega (arith, rw same at one, rest)
