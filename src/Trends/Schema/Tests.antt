-- ===== src/Trends/Schema/Tests.antt =====
-- Inserts into a table of one row.
use tech_trends.Base.{
  ◌≡◌, refl, Option, [], ◌∷◌, ◌++◌, none, some, Text, units, Result, ◌==◌, length, if◌then◌else◌,
}
use tech_trends.Trends.Data.{new_date, TrendColumns, TechTrend}
use tech_trends.Trends.World.{Failure}
use tech_trends.Trends.Schema.{Refusals, Table, insert}

abbrev columns : Text → Text → TrendColumns
columns id link = record {
  source = units "dev.to";
  source_id = id;
  title = units "t ";
  short_summary = [];
  long_summary = none;
  link_url = link;
  technical_tags = none;
  view_count = some 5;
  like_count = none;
  comment_count = none;
  embedding = none;
  created_at = new_date (units "2026-09-05");
}

abbrev one_row : Table
one_row = record {
  rows = (record { columns = columns (units "1") (units "uu"); id = 1; mined_at = 10 }) ∷ [];
  next_id = 2;
}

-- A server that cuts a title's last blank off, as for `varchar` where it is too long, and refuses a
-- link of one sign.
abbrev without_blank : Text → Text
without_blank [] = []
without_blank (c ∷ []) = if c == b' ' then [] else c ∷ []
without_blank (c ∷ d ∷ s) = c ∷ without_blank (d ∷ s)

abbrev accept : TrendColumns → Option TrendColumns
accept c =
    if length c.link_url == 1 then none else some (record c { title = without_blank c.title })

abbrev refusals : Refusals
refusals = record {
  misfit = units "type";
  exhausted = units "sequence";
  duplicate = units "unique";
}

abbrev try_insert : TrendColumns → Table
try_insert c = (insert accept refusals 20 c one_row).1

second :
    (try_insert (columns (units "2") (units "vv"))).rows
    ≡ one_row.rows
      ++ (record {
        columns = record (columns (units "2") (units "vv")) { title = units "t" };
        id = 2;
        mined_at = 20;
      })
        ∷ []
unfolding insert
second = refl

same_link : (try_insert (columns (units "2") (units "uu"))).rows ≡ one_row.rows
unfolding insert
same_link = refl

abbrev second_try : Result Failure TechTrend × Table
second_try = insert accept refusals 20 (columns (units "2") (units "vv")) one_row
