-- ===== src/Trends/Worker/Tests.antt =====
-- Jobs over a table, one site that lists an article, and models that answer.
use native.Mathlib.Nat.{le_refl}
use tech_trends.Base.{
  sym, some_injective, ℕ, zero, suc, ◌+◌, ◌≡◌, ◌⊎◌, Result, ◌≤◌, refl, false, ltb, [], ◌∷◌, map,
  keep, length, some, none, ok, err, units, arith, lookup, value_from, sort_by, max, decimal,
}
use tech_trends.Trends.Data.{Vector, TrendColumns, TechTrend}
use tech_trends.Ai.Summary.{texts}
use tech_trends.Trends.Scrapers.DevTo.{DevToItem, DevToBody}
use tech_trends.Trends.Scrapers.Site.{dev_to, geek_news, stack_overflow}
use tech_trends.Common.Chunk.{chunk_array}
use tech_trends.Common.Time.{get_today_start_utc}
use tech_trends.Common.Text.{sanitize_and_filter}
use tech_trends.Common.Text.Matchers.{trim}
use tech_trends.Trends.World.{Failure}
use tech_trends.Trends.Schema.{Refusals, Table, insert}
use tech_trends.Trends.Schema.Rows.{insert-eq-ok, insert-eq-err}
use tech_trends.Ai.Models.{filter_batch_with_ai, vector_embedding_with_ai}
use tech_trends.Ai.Summary.{summarize_content_with_ai}
use tech_trends.Trends.Repository.{count_saved_since, find_existing_source_ids, save_trend}
use tech_trends.Trends.Scrapers.DevTo.{get_articles, get_article_details}
use tech_trends.Trends.Pipeline.Steps.{
  Config, fetch_batch_details_map, select_valuable_articles, summarize_articles,
  generate_embeddings_for_articles, save_trends, build_embedding_text, to_columns,
}
use tech_trends.Trends.Pipeline.{
  process_source, exclude_existing_articles, process_batch, process_batches, collect,
}
use tech_trends.Trends.Worker.{Parts, scrapers, process}
use tech_trends.Trends.Pipeline.Source.{saved_since}
use tech_trends.Trends.Worker.Day.{job, idle, none_left, Jobs-le-target}
use tech_trends.Trends.Worker.Jobs.{PartsLaws, Ran, unregistered, process_lem}

record Demo : Type 0 where
  table : Table
  time : ℕ

abbrev refusals : Refusals
refusals = record {
  misfit = units "type";
  exhausted = units "sequence";
  duplicate = units "unique";
}

abbrev try_insert : TrendColumns → Demo → Result Failure TechTrend × Table
try_insert c s = insert some refusals s.time c s.table

abbrev halves : ℕ → Vector
halves zero = []
halves (suc n) = units "0.5" ∷ halves n

abbrev item : DevToItem
item = record {
  id = 1;
  title = units "t";
  url = units "u";
  published_at = some (units "2026-01-02T03:04:05Z");
  positive_reactions_count = some 20;
  comments_count = some 2;
}

abbrev body : DevToBody
body = record {
  body_markdown = some (units "text");
  positive_reactions_count = some 20;
  comments_count = some 2;
}

abbrev parts : Parts
parts = record {
  State = Demo;
  rows = λ s. s.table.rows;
  clock = λ s. s.time;
  find = λ q s. (ok (keep q s.table.rows), s);
  count = λ q s. (ok (length (keep q s.table.rows)), s);
  save = λ c s. ((try_insert c s).0, record s { table = (try_insert c s).1 });
  floats = record {
    Float = ℕ;
    parse_float = value_from 0;
    is_nan = λ x. false;
    is_positive = λ x. ltb 0 x;
    ceil_ms = λ x. x;
  };
  models = record {
    complete = λ prompt s. (ok (some (units "{}")), s);
    embed_content = λ texts s. (ok (some (some (halves 1536) ∷ [])), s);
    sleep = λ ms s. record s { time = s.time + ms };
    build_filter_batch_prompt = λ items. units "p";
    parse_evaluation = λ raw. ok (some (units "1" ∷ []));
  };
  parse_summary = λ raw. ok (record {
    title = none;
    short_summary = texts [];
    long_summary = some (units "long");
    tags = texts [];
  });
  as_final = λ r. record {
    title = r.title;
    short_summary = [];
    long_summary = r.long_summary;
    tags = r.tags;
  };
  message = λ e. units "failed";
  dev_to_site = dev_to (λ s. (ok (some (item ∷ [])), s)) (λ id s. (ok (some body), s));
  geek_news_site =
      geek_news (λ s. (err (units "down"), s)) (λ t. ok t) (λ id s. (ok [], s)) (λ t. t) (λ t. t)
        (λ s. s);
  stack_overflow_site =
      stack_overflow (λ s. (ok none, s)) (λ n. ok []) (λ id s. (ok none, s)) (λ id s. (ok none, s));
}

parts-Laws : PartsLaws parts
parts-Laws = record {
  find_calm = λ q s. (refl, le_refl _);
  find_ok = λ q s found e t. cc;
  count_calm = λ q s. (refl, le_refl _);
  count_ok = λ q s n e. cc;
  save_ok = λ c s row e.
      let (appended, given, stamped) = insert-eq-ok some refusals s.time c s.table row e in
      (appended, sym (some_injective given), omega (arith, stamped), le_refl _);
  save_err = λ c s x e. (insert-eq-err some refusals s.time c s.table x e, le_refl _);
  sleep_calm = λ n s. (refl, omega arith);
  complete_calm = λ prompt s. (refl, le_refl _);
  embed_content_calm = λ texts s. (refl, le_refl _);
  dev_to_calm = (λ s. (refl, le_refl _), λ id s. (refl, le_refl _));
  geek_news_calm = (λ s. (refl, le_refl _), λ id s. (refl, le_refl _), λ s. (refl, le_refl _));
  stack_overflow_calm =
      (λ s. (refl, le_refl _), λ id s. (refl, le_refl _), λ id s. (refl, le_refl _));
}

abbrev config : Config
config = record {
  target_save_count = 1;
  batch_size = 2;
  ai_delay_seconds = 3;
  text_snippet_length = 600;
  text_content_length = 5000;
}

abbrev start : Demo
start = record { table = record { rows = []; next_id = 1 }; time = 1_773_585_000_000 }

process_lem_example :
    Ran parts config (units "dev.to") start
    ⊎ ((lookup (units "dev.to") (scrapers parts) ≡ none)
        × (process parts config (units "dev.to") start
            ≡ (err (unregistered (units "dev.to")), start)))
process_lem_example = process_lem parts parts-Laws config (units "dev.to") start

-- The article of the site is in the table afterwards, and a source that nobody knows is refused.
saved :
    map (λ row. row.source_id) (process parts config (units "dev.to") start).1.table.rows
    ≡ units "1" ∷ []
unfolding process process_source count_saved_since get_articles sort_by exclude_existing_articles
    find_existing_source_ids chunk_array process_batch fetch_batch_details_map get_article_details
    trim decimal select_valuable_articles filter_batch_with_ai summarize_articles
    summarize_content_with_ai generate_embeddings_for_articles vector_embedding_with_ai save_trends
    save_trend process_batches collect sanitize_and_filter build_embedding_text to_columns
    get_today_start_utc insert
saved = refl

refused : process parts config (units "devto") start ≡ (err (unregistered (units "devto")), start)
unfolding process
refused = refl

abbrev once : Demo
once = (process parts config (units "dev.to") start).1

-- A job of the first site, a minute, and the same job once more.
Jobs-le-target_example :
    saved_since
      (units "dev.to")
      (get_today_start_utc start.time)
      (process parts config (units "dev.to") (parts.models.sleep 60_000 once)).1.table.rows
    ≤ max config.target_save_count
        (saved_since (units "dev.to") (get_today_start_utc start.time) start.table.rows)
unfolding process process_source count_saved_since get_articles sort_by exclude_existing_articles
    find_existing_source_ids chunk_array process_batch fetch_batch_details_map get_article_details
    trim decimal select_valuable_articles filter_batch_with_ai summarize_articles
    summarize_content_with_ai generate_embeddings_for_articles vector_embedding_with_ai save_trends
    save_trend process_batches collect sanitize_and_filter build_embedding_text to_columns
    get_today_start_utc
Jobs-le-target_example =
    Jobs-le-target parts parts-Laws config (get_today_start_utc start.time) {s = start}
      (job (units "dev.to") refl (
        idle {t = parts.models.sleep 60_000 once} (refl, omega arith)
          (job (units "dev.to") refl none_left)))
      (units "dev.to")
