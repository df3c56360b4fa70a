-- ===== src/Trends/Queue/Held.antt =====
-- Jobs that a queue holds, and those that a stretch of time adds.
use mathlib.Core.List.{Mem}
use tech_trends.Base.{
  ℕ, ◌≤◌, ◌≡◌, refl, sym, true, false, List, [], ◌∷◌, ◌++◌, arith, subst, Text, text_eq_refl,
}
use tech_trends.Common.Dates.{get_today_date_string}
use tech_trends.Trends.Queue.{job_id_of, holds}

holds-append :
    (id : Text) (js ks : List (Text × Text)) → holds id js ≡ true → holds id (js ++ ks) ≡ true
holds-append id [] ks h = absurd (ground arith)
holds-append id ((i, s) ∷ js) ks h = ground (arith, holds-append id js ks)

holds-append_false :
    (id : Text) (js ks : List (Text × Text)) → holds id (js ++ ks) ≡ false → holds id js ≡ false
holds-append_false id [] ks h = refl
holds-append_false id ((i, s) ∷ js) ks h = ground (arith, holds-append_false id js ks)

pub holds-last : (id s : Text) (js : List (Text × Text)) → holds id (js ++ (id, s) ∷ []) ≡ true
holds-last id s [] = rw (text_eq_refl id)
holds-last id s ((i, t) ∷ js) = ground (arith, holds-last id s js)

-- The identifier of a source's job at an instant.
abbrev pub id_at : ℕ → Text → Text
id_at instant name = job_id_of (get_today_date_string instant) name

-- A job of one of the sources, under the identifier of an instant of a stretch of time, that was not
-- there.
abbrev pub IsFresh : List Text → ℕ → ℕ → List (Text × Text) → Text × Text → Type 0
IsFresh names from to before job =
    (Mem job.1 names)
    × ((instant : ℕ) × (from ≤ instant) × (instant ≤ to) × (job.0 ≡ id_at instant job.1))
    × (holds job.0 before ≡ false)

-- The source has a job of an instant of a stretch of time.
abbrev pub HasJob : ℕ → ℕ → List (Text × Text) → Text → Type 0
HasJob from to jobs name =
    (instant : ℕ) × (from ≤ instant) × (instant ≤ to) × (holds (id_at instant name) jobs ≡ true)

pub wider :
    (before before' added : List (Text × Text)) {names more : List Text} {from from' to to' : ℕ}
    → ((name : Text) → Mem name names → Mem name more)
    → from' ≤ from
    → to ≤ to'
    → before ≡ before' ++ added
    → (job : Text × Text) → IsFresh names from to before job
    → IsFresh more from' to' before' job
wider before before' added among early late e job (m, (i, a, b, named), new) = (
  among job.1 m,
  (i, omega (arith, a, early), omega (arith, b, late), named),
  holds-append_false job.0 before' added (subst (λ js. holds job.0 js ≡ false) e new),
)

pub HasJob-append :
    (jobs new jobs' : List (Text × Text)) {from to to' : ℕ}
    → to ≤ to'
    → jobs' ≡ jobs ++ new
    → (name : Text) → HasJob from to jobs name
    → HasJob from to' jobs' name
HasJob-append jobs new jobs' late e name (i, a, b, held) = (
  i,
  a,
  omega (arith, b, late),
  subst (λ js. holds (id_at i name) js ≡ true) (sym e) (holds-append _ jobs new held),
)

pub HasJob-earlier :
    (jobs : List (Text × Text)) {from from' to : ℕ}
    → from' ≤ from
    → (name : Text) → HasJob from to jobs name
    → HasJob from' to jobs name
HasJob-earlier jobs early name (i, a, b, held) = (i, omega (arith, a, early), b, held)
