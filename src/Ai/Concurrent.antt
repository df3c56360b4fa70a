-- ===== src/Ai/Concurrent.antt =====
-- `embedSearchQuery` and `waitForCache` as many requests of one process run them at once: each command
-- of Redis, each start and end of a call of the model and each pause is a step of its own, and the
-- steps of the requests interleave in any order.
pub mod Places
pub mod Frame
pub mod Holders
pub mod Permits
pub mod Answers
pub mod Cached
pub mod Alone
mod Demo
mod Tests
pub mod Diagram
pub mod Progress
use tech_trends.Base.{
  ℕ, zero, suc, ◌+◌, ◌-◌, ◌*◌, ◌<◌, ◌≡◌, ◌==◌, Bool, true, false, ltb, leb, if◌then◌else◌, List,
  Option, none, some, Text,
}
use tech_trends.Common.Text.Matchers.{trim}
use tech_trends.Redis.Server.{Server, Client}
use tech_trends.Redis.Service.{release_script, read_cache}
use tech_trends.Trends.Data.{Vector}
use tech_trends.Ai.Search.{
  Embedder, cache_key_of, lock_key_of, normalize_keyword, read_vector, first_vector, max_polls,
  poll_ms, lock_ttl_ms,
}

-- `new Semaphore(3)`
abbrev pub permits : ℕ
permits = 3

-- Where a request stands, with the locals that are live there. `since`, which the code does not keep,
-- is when the request took the lock.
pub data Place : Type 0 where
  arriving : Place  -- before the check of the query
  reading : Place  -- before `getCache`
  locking : Place  -- before `acquireLock`
  sleeping : (left wake : ℕ) → Place  -- in the pause of a round, with `left` rounds after it
  checking : (left : ℕ) → Place  -- before `exists`
  queued : (since : ℕ) → Place  -- before the semaphore
  calling : (since : ℕ) → Place  -- in the call of the model
  storing : (since : ℕ) → (v : Vector) → Place  -- before `setCache`
  releasing : (since : ℕ) → (outcome : Option Vector) → Place  -- before `releaseLock`
  answered : (outcome : Option Vector) → Place

-- The head of the loop of `waitForCache`, with `left` rounds to go.
abbrev pub next_round : ℕ → ℕ → Place
next_round now zero = answered none
next_round now (suc left) = sleeping left (now + poll_ms)

abbrev pub after_check : Text → Place
after_check t = elim t [ List.[] ↦ answered none | List.◌∷◌ a rest ↦ reading ]

abbrev pub after_read : Place → Option Vector → Place
after_read missed none = missed
after_read missed (some v) = answered (some v)

abbrev pub after_reply : ℕ → Option Vector → Place
after_reply since none = releasing since none
after_reply since (some v) = storing since v

-- The places whose next step is the request's own: a request in a pause is ready after it.
abbrev pub is_ready : ℕ → Place → Bool
is_ready now (sleeping left wake) = leb wake now
is_ready now (queued since) = false
is_ready now (calling since) = false
is_ready now (answered outcome) = false
is_ready now p = true

-- Where that step is a command of Redis.
abbrev pub is_command : Place → Bool
is_command arriving = false
is_command p = true

-- Where a command that is rejected leads: to the outer `catch`, or to the `finally` first.
abbrev pub rejected : Place → Place
rejected (storing since v) = releasing since none
rejected p = answered none

abbrev pub moved : ℕ → Place → (ℕ → Place) → ℕ → Place
moved i p place j = if i == j then p else place j

-- The requests: the query of each, and the value drawn for its lock, which differs from the others'.
-- `Replies` says what the model may reply for a query.
pub record Requests (S : Type 0) : Type 1 where
  pub embedder : Embedder S
  pub open embedder use *
  pub query : ℕ → Text
  pub lock_value : ℕ → Text
  pub Replies : Text → List Vector → Type 0

module _ (srv : Server) (c : Client srv) (r : Requests c.State) where
  unfoldable pub normalized : ℕ → Text
  normalized i = normalize_keyword r.to_lower_case (r.query i)

  abbrev pub cache_key : ℕ → Text
  cache_key i = cache_key_of r.embedding_model_name (normalized i)

  abbrev pub lock_key : ℕ → Text
  lock_key i = lock_key_of (cache_key i)

  -- `getCache`, and the check of what it returns.
  abbrev pub read_at : Text → srv.Keyspace → Option Vector
  read_at key s = read_vector srv c r.embedder (read_cache r.parse (srv.get key s))

  abbrev pub written : Text → Vector → srv.Keyspace → srv.Keyspace
  written key v s =
      if ltb 0 r.embedding_ttl_seconds
      then srv.set_px key (r.stringify v) (r.embedding_ttl_seconds * 1000) s
      else srv.set key (r.stringify v) s

  -- The next step of request `i` at the server, and where the request is after it.
  unfoldable pub turn : ℕ → ℕ → Place → srv.Keyspace → Place × srv.Keyspace
  turn i now arriving s = (after_check (trim (r.query i)), s)
  turn i now reading s = (after_read locking (read_at (cache_key i) s), s)
  turn i now locking s =
      let (set, t) = srv.set_px_nx (lock_key i) (r.lock_value i) lock_ttl_ms s in
      (if set then queued now else next_round now max_polls, t)
  turn i now (sleeping left wake) s = (after_read (checking left) (read_at (cache_key i) s), s)
  turn i now (checking left) s =
      (if srv.exists (lock_key i) s then next_round now left else answered none, s)
  turn i now (storing since v) s = (releasing since (some v), written (cache_key i) v s)
  turn i now (releasing since outcome) s =
      (answered outcome, (release_script srv (lock_key i) (r.lock_value i) s).1)
  turn i now (queued since) s = (queued since, s)
  turn i now (calling since) s = (calling since, s)
  turn i now (answered outcome) s = (answered outcome, s)

  -- A move of request `i`: its own step, a command that is rejected, which the server may have run or
  -- not, the start of the call of the model under the semaphore, and the end of the call.
  pub data Move (i now running : ℕ) (s : srv.Keyspace)
      : Place → ℕ → srv.Keyspace → Place → Type 0 where
    proceed :
        {p : Place}
        → is_ready now p ≡ true
        → Move i now running s p running (turn i now p s).1 (turn i now p s).0
    reject :
        {p : Place} (ran : Bool)
        → is_ready now p ≡ true
        → is_command p ≡ true
        → Move i now running s p running (if ran then (turn i now p s).1 else s) (rejected p)
    call :
        {since : ℕ}
        → running < permits
        → Move i now running s (queued since) (running + 1) s (calling since)
    reply :
        {since : ℕ} {vectors : List Vector}
        → r.Replies (normalized i) vectors
        → Move i now running s
            (calling since)
            (running - 1)
            s
            (after_reply since (first_vector vectors))
    fail : {since : ℕ} → Move i now running s (calling since) (running - 1) s (releasing since none)

  -- The clock, the keyspace, the permits that are taken, and every request.
  pub record System : Type 0 where
    pub now : ℕ
    pub keyspace : srv.Keyspace
    pub running : ℕ
    pub place : ℕ → Place

  -- One step of the first `n` requests, or time that passes.
  pub data Step (n : ℕ) (y : System) : System → Type 0 where
    pick :
        (i : ℕ) {running : ℕ} {s : srv.Keyspace} {p : Place}
        → i < n
        → Move i y.now y.running y.keyspace (y.place i) running s p
        → Step n y
            (record { now = y.now; keyspace = s; running = running; place = moved i p y.place })
    wait : (d : ℕ) → Step n y (record y { now = y.now + d; keyspace = srv.elapse d y.keyspace })

  pub data Reach (n : ℕ) (y : System) : System → Type 0 where
    here : Reach n y y
    later : {u v : System} → Reach n y u → Step n u v → Reach n y v

  -- Every request is about to arrive.
  abbrev pub opened : ℕ → srv.Keyspace → System
  opened now s = record { now = now; keyspace = s; running = 0; place = λ i. arriving }
