-- ===== src/Ai/Search.antt =====
-- `embedSearchQuery`, `waitForCache` and `normalizeKeyword`: the embedding of a search text, computed
-- by one request at a time and cached.
pub mod Laws
pub mod Waiting
use tech_trends.Base.{
  ℕ, zero, suc, ◌+◌, Bool, true, false, ◌&&◌, ◌||◌, List, [], ◌∷◌, ◌++◌, Option, none, some, leb,
  ◌==◌, if◌then◌else◌, Text, units, contains, Result, ok, err, Action, pure, throw, ◌>>=◌,
}
use tech_trends.Common.Text.Matchers.{is_space, trim}
use tech_trends.Redis.Server.{Server, Client}
use tech_trends.Redis.Service.{
  acquire_lock, release_lock, Cached, parsed, raw, get_cache, set_cache, exists,
}
use tech_trends.Trends.Data.{Vector}

abbrev phrases : List Text
phrases =
    units "에 대해"
    ∷ units "대해서"
    ∷ units "알려줘"
    ∷ units "뭐야"
    ∷ units "무엇인가요"
    ∷ units "검색해줘"
    ∷ units "찾아줘"
    ∷ units "설명해줘"
    ∷ units "알려주세요"
    ∷ []

-- /(에 대해|…|알려주세요)$/: the first place from which a phrase runs to the end.
unfoldable pub strip_phrase : Text → Text
strip_phrase [] = []
strip_phrase (c ∷ s) = if contains (c ∷ s) phrases then [] else c ∷ strip_phrase s

-- The class of /[^\w\sㄱ-ㅎ가-힣+#.-]/, which is removed outside of it.
unfoldable pub is_kept : ℕ → Bool
unfolding is_space
is_kept c =
    (leb b'A' c && leb c b'Z')
    || (leb b'a' c && leb c b'z')
    || (leb b'0' c && leb c b'9')
    || c == b'_'
    || is_space c
    || (leb 0x3131 c && leb c 0x314e)
    || (leb 0xac00 c && leb c 0xd7a3)
    || c == b'+'
    || c == b'#'
    || c == b'.'
    || c == b'-'

unfoldable pub remove_marks : Text → Text
remove_marks [] = []
remove_marks (c ∷ s) = if is_kept c then c ∷ remove_marks s else remove_marks s

-- /\s+/ to one space; the flag says that a run of spaces has begun.
unfoldable pub collapse_from : Bool → Text → Text
collapse_from run [] = []
collapse_from run (c ∷ s) =
    let in_run = collapse_from true s in
    let after = collapse_from false s in
    if is_space c then (if run then in_run else 32 ∷ in_run) else c ∷ after

-- `toLowerCase` is the language's.
unfoldable pub normalize_keyword : (Text → Text) → Text → Text
unfolding strip_phrase remove_marks collapse_from
normalize_keyword to_lower_case [] = []
normalize_keyword to_lower_case (c ∷ s) =
    trim (collapse_from false (remove_marks (strip_phrase (to_lower_case (c ∷ s)))))

-- A vector that is there and has members.
abbrev pub usable : Option Vector → Option Vector
usable none = none
usable (some []) = none
usable (some (x ∷ v)) = some (x ∷ v)

abbrev pub first_vector : List Vector → Option Vector
first_vector [] = none
first_vector (v ∷ vectors) = usable (some v)

-- What the search needs beside Redis: JSON, with the array that a value is, if it is one, the call of
-- the model behind its semaphore, and the wait during which other requests run.
pub record Embedder (S : Type 0) : Type 1 where
  pub Json : Type 0
  pub parse : Text → Option Json
  pub array_of : Json → Option Vector
  pub stringify : Vector → Text
  pub to_lower_case : Text → Text
  pub vector_embedding_with_ai : List Text → Action S Text (List Vector)
  pub sleep : ℕ → S → S
  pub embedding_model_name : Text
  pub embedding_ttl_seconds : ℕ

abbrev pub max_polls : ℕ
max_polls = 25

abbrev pub poll_ms : ℕ
poll_ms = 200

abbrev pub lock_ttl_ms : ℕ
lock_ttl_ms = 10_000

abbrev pub cache_key_of : Text → Text → Text
cache_key_of model normalized_query = units "emb:" ++ (model ++ (units ":" ++ normalized_query))

abbrev pub lock_key_of : Text → Text
lock_key_of cache_key = units "lock:" ++ cache_key

module _ (srv : Server) (c : Client srv) (e : Embedder c.State) where
  abbrev pub read_vector : Option (Cached e.Json) → Option Vector
  read_vector none = none
  read_vector (some (raw text)) = none
  read_vector (some (parsed j)) = usable (e.array_of j)

  unfoldable pub cached_vector : Text → Action c.State Text (Option Vector)
  cached_vector cache_key = do found ← get_cache srv c e.parse cache_key; pure (read_vector found)

  -- What a poll does with the vector read; `rest` is the next round.
  abbrev pub polled :
      Text
      → Action c.State Text (Option Vector)
      → Option Vector
      → Action c.State Text (Option Vector)
  polled lock_key rest (some v) = pure (some v)
  polled lock_key rest none = do
    lock_exists ← exists srv c lock_key
    if lock_exists then rest else pure none

  unfoldable pub poll_from : Text → Text → ℕ → Action c.State Text (Option Vector)
  unfolding cached_vector
  poll_from cache_key lock_key zero s = (ok none, s)
  poll_from cache_key lock_key (suc left) s =
      let rest = poll_from cache_key lock_key left in
      (do cached ← cached_vector cache_key; polled lock_key rest cached) (e.sleep poll_ms s)

  unfoldable pub wait_for_cache : Text → Text → Action c.State Text (Option Vector)
  unfolding poll_from
  wait_for_cache cache_key lock_key = poll_from cache_key lock_key max_polls

  abbrev pub store : Text → Option Vector → Action c.State Text (Option Vector)
  store cache_key none = pure none
  store cache_key (some v) = do
    done ← set_cache srv c cache_key (e.stringify v) e.embedding_ttl_seconds
    pure (some v)

  -- The body of the inner `try`.
  unfoldable pub compute : Text → Text → Action c.State Text (Option Vector)
  compute normalized_query cache_key = do
    vectors ← e.vector_embedding_with_ai (normalized_query ∷ [])
    store cache_key (first_vector vectors)

  -- With its `finally`: a failing release replaces the outcome.
  unfoldable pub compute_locked : Text → Text → Text → Text → Action c.State Text (Option Vector)
  unfolding compute
  compute_locked normalized_query cache_key lock_key lock_value s =
      let (outcome, t) = compute normalized_query cache_key s in
      let (released, u) = release_lock srv c lock_key lock_value t in
      elim released [ ok b ↦ (outcome, u) | err failure ↦ (err failure, u) ]

  abbrev pub after_lock : Text → Text → Text → Option Text → Action c.State Text (Option Vector)
  after_lock normalized_query cache_key lock_key none = wait_for_cache cache_key lock_key
  after_lock normalized_query cache_key lock_key (some lock_value) =
      compute_locked normalized_query cache_key lock_key lock_value

  abbrev pub after_cache :
      Text → Text → Text → Text → Option Vector → Action c.State Text (Option Vector)
  after_cache fresh_value normalized_query cache_key lock_key (some v) = pure (some v)
  after_cache fresh_value normalized_query cache_key lock_key none = do
    lock_value ← acquire_lock srv c lock_key lock_ttl_ms fresh_value
    after_lock normalized_query cache_key lock_key lock_value

  -- The outer `try`; `fresh_value` is the random value of the lock.
  unfoldable pub embed_normalized : Text → Text → Action c.State Text (Option Vector)
  unfolding cached_vector wait_for_cache compute_locked
  embed_normalized fresh_value normalized_query =
      let cache_key = cache_key_of e.embedding_model_name normalized_query in
      let lock_key = lock_key_of cache_key in
      (do
        cached ← cached_vector cache_key
        after_cache fresh_value normalized_query cache_key lock_key cached)

  abbrev pub caught : Result Text (Option Vector) → Option Vector
  caught (ok v) = v
  caught (err failure) = none

  -- The check of the query, trimmed, comes first.
  abbrev pub embed_trimmed : Text → Text → Text → c.State → Option Vector × c.State
  embed_trimmed fresh_value query [] s = (none, s)
  embed_trimmed fresh_value query (a ∷ rest) s =
      let (outcome, t) = embed_normalized fresh_value (normalize_keyword e.to_lower_case query) s in
      (caught outcome, t)

  unfoldable pub embed_search_query : Text → Text → c.State → Option Vector × c.State
  unfolding embed_normalized
  embed_search_query fresh_value query s = embed_trimmed fresh_value query (trim query) s
