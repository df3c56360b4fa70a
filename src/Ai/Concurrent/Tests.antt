-- ===== src/Ai/Concurrent/Tests.antt =====
-- Two requests of one query.
use native.Mathlib.Decide.{dec_lt}
use tech_trends.Base.{ℕ, ◌≡◌, ◌≤◌, refl, arith, [], ◌∷◌, some, decimal, units}
use tech_trends.Redis.Service.{release_script}
use tech_trends.Common.Text.Matchers.{trim}
use tech_trends.Ai.Search.{normalize_keyword, is_kept, embed_search_query}
use tech_trends.Ai.Concurrent.{
  permits, arriving, here, later, pick, wait, proceed, calling, answered, turn, normalized,
}
use tech_trends.Redis.Demo.{server, server-Laws, client, empty}
use tech_trends.Ai.Concurrent.Holders.{held_since_unique}
use tech_trends.Ai.Concurrent.Places.{call_count}
use tech_trends.Ai.Concurrent.Permits.{call_count-le}
use tech_trends.Ai.Concurrent.Progress.{moves_of, Prospect, moves_of_lem}
use tech_trends.Ai.Concurrent.Answers.{IsEmbedding, IsSoundCache, answered-IsEmbedding}
use tech_trends.Ai.Concurrent.Alone.{direct, run_alone, run_alone_lem}
use tech_trends.Ai.Concurrent.Cached.{IsCached, IsServed, comes, cached-IsServed}
use tech_trends.Ai.Concurrent.Demo.{
  half, crowd, crowd-RequestsLaws, crowd-distinct, Run, at_start, pause, acts,
}

-- Request 0 alone takes the lock, calls the model, stores the vector, releases the lock and answers.
alone : (acts at_start (0 ∷ 0 ∷ 0 ∷ 0 ∷ 0 ∷ 0 ∷ 0 ∷ [])).last.place 0 ≡ answered (some half)
unfolding acts turn normalized normalize_keyword trim is_kept release_script dec_lt pause decimal
alone = refl

-- While request 0 calls the model, request 1 waits, and answers what request 0 has stored.
abbrev shared : Run
shared = acts (pause 200 (acts at_start (0 ∷ 0 ∷ 0 ∷ 0 ∷ 1 ∷ 1 ∷ 1 ∷ 0 ∷ 0 ∷ 0 ∷ []))) (1 ∷ [])

shared_answer : shared.last.place 1 ≡ answered (some half)
unfolding acts turn normalized normalize_keyword trim is_kept release_script dec_lt pause decimal
shared_answer = refl

-- Request 1 reads the cache before request 0 stores its vector, and asks for the lock after request 0
-- has released it: it calls the model again.
abbrev overtaken : Run
overtaken = acts at_start (0 ∷ 0 ∷ 1 ∷ 1 ∷ 0 ∷ 0 ∷ 0 ∷ 0 ∷ 0 ∷ 1 ∷ 1 ∷ [])

overtaken_calls :
    (overtaken.last.place 0 ≡ answered (some half)) × (overtaken.last.place 1 ≡ calling 0)
unfolding acts turn normalized normalize_keyword trim is_kept release_script dec_lt pause decimal
overtaken_calls = (refl, refl)

-- A call of the model that takes ten seconds outlives its lock.
abbrev expired : Run
expired = acts (pause 10_000 (acts at_start (0 ∷ 0 ∷ 0 ∷ 0 ∷ []))) (1 ∷ 1 ∷ 1 ∷ 1 ∷ [])

expired_calls : (expired.last.place 0 ≡ calling 0) × (expired.last.place 1 ≡ calling 10_000)
unfolding acts turn normalized normalize_keyword trim is_kept release_script dec_lt pause decimal
expired_calls = (refl, refl)

abbrev calls_once : Run
calls_once = acts at_start (0 ∷ 0 ∷ 0 ∷ 0 ∷ 1 ∷ 1 ∷ 1 ∷ [])

held_since_unique_example : ◌≡◌ {A = ℕ} 0 0
unfolding acts turn normalized normalize_keyword trim is_kept release_script dec_lt pause decimal
held_since_unique_example =
    held_since_unique server server-Laws client crowd 2 0 empty calls_once.last crowd-distinct
      calls_once.reach 0 0 0 0 refl refl refl (omega arith) (omega arith)

call_count-le_example :
    (call_count expired.last.place 2 ≡ expired.last.running)
    × (call_count expired.last.place 2 ≤ permits)
call_count-le_example = call_count-le server client crowd 2 0 empty expired.last expired.reach

moves_of_lem_example :
    (moves_of server client crowd 1 shared.reach ≤ 53)
    × Prospect server client crowd 2 1 shared.last
moves_of_lem_example = moves_of_lem server client crowd 2 0 empty shared.last shared.reach 1

empty-IsSoundCache : IsSoundCache server server-Laws client crowd crowd-RequestsLaws empty
empty-IsSoundCache i v h = cc

answered-IsEmbedding_example : IsEmbedding crowd (normalized server client crowd 1) half
unfolding acts turn normalized normalize_keyword trim is_kept release_script dec_lt pause decimal
answered-IsEmbedding_example =
    answered-IsEmbedding server server-Laws client crowd crowd-RequestsLaws 2 0 empty shared.last
      empty-IsSoundCache shared.reach 1 half refl

-- Request 0 has answered, and request 1 comes half a minute later.
abbrev stored : Run
stored = acts at_start (0 ∷ 0 ∷ 0 ∷ 0 ∷ 0 ∷ 0 ∷ 0 ∷ [])

stored-IsCached :
    IsCached server server-Laws client crowd crowd-RequestsLaws 1 60_000 stored.last.now
      stored.last.keyspace
unfolding acts turn normalized normalize_keyword trim is_kept release_script dec_lt pause decimal
stored-IsCached = record {
  text = units "0.5";
  ms = 60_000;
  vector = half;
  entry = refl;
  lasts = omega arith;
  reads = refl;
}

cached-IsServed_example : IsServed (answered (some half))
unfolding acts turn normalized normalize_keyword trim is_kept release_script dec_lt pause decimal
cached-IsServed_example =
    cached-IsServed server server-Laws client crowd crowd-RequestsLaws 2 0 empty stored.last _
      empty-IsSoundCache stored.reach 1 60_000 stored-IsCached (omega arith) comes
      (later (later (later here (wait 30_000)) (pick 1 (omega arith) (proceed refl)))
        (pick 1 (omega arith) (proceed refl)))
      (omega arith)

run_alone_lem_example :
    let o =
      embed_search_query server (direct server) crowd.embedder (decimal 0) (units "c") empty in
    run_alone server crowd 0 53 arriving empty ≡ (answered o.0, o.1)
run_alone_lem_example = run_alone_lem server crowd 0 empty
