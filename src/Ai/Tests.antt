-- ===== src/Ai/Tests.antt =====
-- A call that answers after two failures, and searches on a small server.
use tech_trends.Base.{
  take, ℕ, ◌+◌, ◌*◌, ◌<◌, ◌≡◌, refl, ◌⊎◌, false, List, [], ◌∷◌, none, some, arith, ltb,
  if◌then◌else◌, length, Text, units, ok, err, Action, value_from,
}
use tech_trends.Common.Text.Matchers.{trim}
use tech_trends.Redis.Demo.{Table, put, server, client, empty}
use tech_trends.Ai.Prompts.{build_summarize_content_prompt}
use tech_trends.Ai.Summary.{text, texts, summary_of}
use tech_trends.Ai.Retry.{ApiError, Floats, execute_with_retry}
use tech_trends.Ai.Retry.Laws.{Failed, Last, execute_with_retry_lem}
use tech_trends.Ai.Models.{Models}
use tech_trends.Ai.Search.{Embedder, wait_for_cache, max_polls, normalize_keyword, is_kept}
use tech_trends.Ai.Search.Waiting.{Polled, Decides, wait_for_cache_lem}

abbrev floats : Floats
floats = record {
  Float = ℕ;
  parse_float = value_from 0;
  is_nan = λ x. false;
  is_positive = λ x. ltb 0 x;
  ceil_ms = λ x. x * 1000;
}

abbrev unavailable : ApiError
unavailable = record {
  status = some 503;
  response_status = none;
  status_code = none;
  message = some (units "busy");
  error_message = none;
  headers = none;
  response_headers = none;
  error_headers = none;
}

-- The state is the time in milliseconds; the model is busy for five seconds.
abbrev busy : Action ℕ ApiError ℕ
busy now = if ltb now 5000 then (err unavailable, now) else (ok 7, now)

abbrev later : ℕ → ℕ → ℕ
later ms now = now + ms

answered : execute_with_retry floats busy later 3 2000 0 ≡ (ok 7, 6000)
unfolding execute_with_retry
answered = refl

execute_with_retry_lem_example :
    (errors : List ApiError) × (t : ℕ) × Failed floats busy later 3 2000 1 errors 0 t
    × (length errors < 3)
    × Last floats busy later 3 2000
        (length errors)
        t
        (execute_with_retry floats busy later 3 2000 0)
execute_with_retry_lem_example = execute_with_retry_lem floats busy later 3 2000 0 (omega arith)

abbrev embedder : Embedder Table
embedder = record {
  Json = Text;
  parse = λ text. some text;
  array_of = λ text. some (text ∷ []);
  stringify = λ v. units "[0.5]";
  to_lower_case = λ text. text;
  vector_embedding_with_ai = λ texts s. (ok ((units "0.5" ∷ []) ∷ []), s);
  sleep = λ ms s. server.elapse ms s;
  embedding_model_name = units "m";
  embedding_ttl_seconds = 60;
}

normalized : normalize_keyword (λ s. s) (units "react!  hooks 알려줘") ≡ units "react hooks"
unfolding normalize_keyword trim is_kept
normalized = refl

abbrev locked : Table
locked = put (units "l") (some (units "r", some 10_000)) empty

wait_for_cache_lem_example :
    (n : ℕ) × (t : Table) × Polled server client embedder (units "c") (units "l") n locked t
    × (((n ≡ max_polls)
          × (wait_for_cache server client embedder (units "c") (units "l") locked ≡ (ok none, t)))
        ⊎ ((n < max_polls)
            × Decides server client embedder
                (units "c")
                (units "l")
                t
                (wait_for_cache server client embedder (units "c") (units "l") locked)))
wait_for_cache_lem_example =
    wait_for_cache_lem server client embedder (units "c") (units "l") locked

-- A model that is busy for five seconds, and then embeds.
abbrev models : Models ℕ
models = record {
  complete = λ prompt now. (ok none, now);
  embed_content =
      λ texts now. if ltb now 5000 then (err unavailable, now) else (ok (some (none ∷ [])), now);
  sleep = later;
  build_filter_batch_prompt = λ items. units "p";
  parse_evaluation = λ raw. ok none;
}

-- An answer that leaves out the title and the short summary.
sparse_summary :
    summary_of (units "t") (record {
      title = none;
      short_summary = text none;
      long_summary = some (units "l");
      tags = texts (units "a" ∷ units "b" ∷ []);
    })
    ≡ record {
      title = units "t";
      short_summary = none ∷ [];
      long_summary = units "l";
      tags = some (units "a, b");
    }
unfolding summary_of
sparse_summary = refl

-- The first words of a prompt.
prompt_start :
    take 12 (build_summarize_content_prompt (units "t") (units "c")) ≡ units "당신은 IT 트렌드 전"
unfolding build_summarize_content_prompt
prompt_start = refl
