-- ===== src/Trends/Pipeline/Tests.antt =====
-- A small world in which every call answers, and the pipeline run in it.
use native.Mathlib.Nat.{le_refl}
use tech_trends.Base.{
  ℕ, ◌+◌, ◌≡◌, refl, false, List, [], ◌∷◌, ◌++◌, map, keep, length, some, none, ok, Text, units,
  arith, All, subst, ok_injective,
}
use tech_trends.Common.Time.{get_today_start_utc}
use tech_trends.Common.Text.{sanitize_and_filter}
use tech_trends.Common.Chunk.{chunk_array}
use tech_trends.Trends.Data.{
  Article, ArticleDetails, FinalSummaryResult, ScrapeJobResult, TrendColumns, TechTrend,
}
use tech_trends.Trends.World.{World, Laws, IsQuiet, IsInserted, any}
use tech_trends.Trends.Pipeline.Steps.{
  Config, EmbeddedArticle, to_info, to_columns, fetch_batch_details_map, select_valuable_articles,
  summarize_articles, generate_embeddings_for_articles, save_trends, build_embedding_text,
}
use tech_trends.Trends.Pipeline.{
  process_source, exclude_existing_articles, process_batch, process_batches, collect,
}
use tech_trends.Trends.Repository.{count_saved_since, find_existing_source_ids, save_trend}
use tech_trends.Trends.Pipeline.Fresh.{is_row_of}
use tech_trends.Trends.Pipeline.Quota.{
  process_source_appends_new, process_source_reports, Attempts, here, next,
}
use tech_trends.Trends.Pipeline.Source.{saved_since}

record Demo : Type 0 where
  table : List TechTrend
  time : ℕ

abbrev article : Text → Article
article id = record {
  id = id;
  title = units "t";
  url = units "u";
  created_at = units "2026-09-05";
  source = units "dev.to";
}

abbrev details : ArticleDetails
details = record {
  content = units "x<b>y";
  view_count = none;
  like_count = some 12;
  comment_count = some 3;
}

abbrev summary : FinalSummaryResult
summary = record { title = units "s"; short_summary = []; long_summary = []; tags = none }

abbrev row_at : ℕ → TrendColumns → TechTrend
row_at time columns = record { columns = columns; id = 7; mined_at = time }

abbrev demo : World
demo = record {
  State = Demo;
  rows = λ s. s.table;
  clock = λ s. s.time;
  find = λ p s. (ok (keep p s.table), s);
  count = λ p s. (ok (length (keep p s.table)), s);
  save = λ c s. (ok (row_at s.time c), record s { table = s.table ++ row_at s.time c ∷ [] });
  source_name = units "dev.to";
  get_articles =
      λ s. (ok (article (units "1") ∷ article (units "2") ∷ article (units "3") ∷ []), s);
  get_article_details = λ id s. (ok (some details), s);
  filter_batch_with_ai = λ items s. (ok (map (λ i. i.id) items), s);
  summarize_content_with_ai = λ title content s. (ok (some summary), s);
  vector_embedding_with_ai = λ texts s. (ok (map (λ t. units "0.5" ∷ []) texts), s);
  delay_seconds = λ n s. record s { time = s.time + n };
}

same : (s : Demo) → IsQuiet demo s s
same s = record { same_rows = refl; later = le_refl _ }

demo-Laws : Laws demo
demo-Laws = record {
  find_quiet = λ p s. same s;
  find_ok = λ p s found e q. cc;
  count_quiet = λ p s. same s;
  count_ok = λ p s n e. cc;
  save_ok = λ c s row e.
      subst (λ r. IsInserted demo c r s (demo.save c s).1) (ok_injective e)
        (record { appended = refl; given = refl; stamped = le_refl _; later = le_refl _ });
  save_err = λ c s e h. absurd (cc);
  get_articles_quiet = same;
  get_articles_source = λ s articles e.
      subst (All (λ a. a.source ≡ units "dev.to")) (ok_injective e) (refl, (refl, (refl, tt)));
  get_article_details_quiet = λ id s. same s;
  filter_quiet = λ items s. same s;
  summarize_quiet = λ title content s. same s;
  embedding_quiet = λ texts s. same s;
  delay_quiet = λ n s. record { same_rows = refl; later = omega arith };
}

abbrev config : Config
config = record {
  target_save_count = 3;
  batch_size = 2;
  ai_delay_seconds = 3;
  text_snippet_length = 600;
  text_content_length = 5000;
}

-- One row is there already, of an article that the scraper finds again.
abbrev start : Demo
unfolding to_columns
start = record { table = row_at 1_000_000_000 (to_columns known) ∷ []; time = 1_000_000_000 }
  where
    known : EmbeddedArticle
    known = record {
      summarized = record {
        article = article (units "2");
        article_details = details;
        summary = summary;
      };
      embedding_vector = [];
    }

-- The parts that a run of the job computes with.
run : Unit {0}
unfolding process_source exclude_existing_articles process_batch process_batches collect
    count_saved_since find_existing_source_ids fetch_batch_details_map select_valuable_articles
    summarize_articles generate_embeddings_for_articles save_trends save_trend chunk_array
    sanitize_and_filter build_embedding_text to_columns to_info get_today_start_utc
run = tt

saved_ids :
    map (λ row. row.source_id) (process_source demo config start).1.table
    ≡ units "2" ∷ units "1" ∷ units "3" ∷ []
unfolding run
saved_ids = refl

abbrev today : ℕ
today = get_today_start_utc 1_000_000_000

process_source_appends_new_example :
    (new : List TechTrend) × (demo.rows (process_source demo config start).1
      ≡ demo.rows start ++ new)
    × All
        (λ row.
          (row.source ≡ demo.source_name)
          × (any (is_row_of demo.source_name row.source_id) (demo.rows start) ≡ false))
        new
process_source_appends_new_example = process_source_appends_new demo demo-Laws config start

abbrev report : ScrapeJobResult
report = record {
  source_name = units "dev.to";
  saved_count = 2;
  saved_articles =
      record { id = 7; source_id = units "1"; title = units "s"; url = units "u" }
      ∷ record { id = 7; source_id = units "3"; title = units "s"; url = units "u" }
      ∷ [];
}

reported : (process_source demo config start).0 ≡ ok report
unfolding run
reported = refl

process_source_reports_example :
    (report.source_name ≡ demo.source_name)
    × (saved_since demo.source_name today (demo.rows (process_source demo config start).1)
        ≡ saved_since demo.source_name today (demo.rows start) + report.saved_count)
    × ((new : List TechTrend) × (demo.rows (process_source demo config start).1
          ≡ demo.rows start ++ new)
        × (report.saved_articles ≡ map to_info new)
        × (report.saved_count ≡ length new))
unfolding start
process_source_reports_example = process_source_reports demo demo-Laws config start report reported

-- Two attempts on one day, 6 seconds apart.
two_attempts :
    Attempts demo demo-Laws config today start
      (process_source demo config (process_source demo config start).1).1
unfolding run
two_attempts = next refl (next refl here)
