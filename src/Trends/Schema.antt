-- ===== src/Trends/Schema.antt =====
-- The table that database/migrations creates: its columns, its constraints, and an `INSERT` into it.
pub mod Rows
mod Tests
use tech_trends.Base.{
  ℕ, ◌+◌, ◌-◌, ◌^◌, Bool, ◌&&◌, ◌||◌, ltb, if◌then◌else◌, List, [], ◌∷◌, ◌++◌, Option, none, some,
  text_eq, Result, ok, err,
}
use tech_trends.Trends.Data.{TrendColumns, TechTrend}
use tech_trends.Trends.World.{Failure, any}

-- UQ_link_url and UQ_source_source_id.
abbrev pub clashes : TrendColumns → TechTrend → Bool
clashes c row =
    text_eq row.link_url c.link_url
    || (text_eq row.source c.source && text_eq row.source_id c.source_id)

pub record Table : Type 0 where
  pub rows : List TechTrend
  pub next_id : ℕ  -- of the sequence

-- The numbers of an `integer` end here, and with them the sequence.
abbrev pub max_id : ℕ
max_id = 2 ^ 31 - 1

-- Why an insert fails: a value that its column refuses, a sequence at its end, a key that is taken.
pub record Refusals : Type 0 where
  pub misfit : Failure
  pub exhausted : Failure
  pub duplicate : Failure

-- An insert at a time. `accept` is what the server makes of the values by the types of their columns,
-- none where it refuses them; what it accepts is what it stores and compares. The number that an
-- insert takes from the sequence is gone also where it fails.
abbrev pub insert_accepted :
    Refusals → ℕ → Table → Option TrendColumns → Result Failure TechTrend × Table
insert_accepted why now t none = (err why.misfit, record t { next_id = t.next_id + 1 })
insert_accepted why now t (some stored) =
    let row : TechTrend = record { columns = stored; id = t.next_id; mined_at = now } in
    if any (clashes stored) t.rows
    then (err why.duplicate, record t { next_id = t.next_id + 1 })
    else (ok row, record { rows = t.rows ++ row ∷ []; next_id = t.next_id + 1 })

unfoldable pub insert :
    (TrendColumns → Option TrendColumns)
    → Refusals
    → ℕ
    → TrendColumns
    → Table
    → Result Failure TechTrend × Table
insert accept why now c t =
    if ltb max_id t.next_id then (err why.exhausted, t) else insert_accepted why now t (accept c)
