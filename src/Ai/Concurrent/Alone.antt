-- ===== src/Ai/Concurrent/Alone.antt =====
-- The steps of a request that no other interrupts, and whose commands all answer, beside
-- `embedSearchQuery` as Ai.Search has it.
use tech_trends.Base.{
  ℕ, zero, suc, ◌*◌, ◌≤◌, ◌≡◌, refl, sym, ap, ◌∙◌, inl, inr, Bool, true, false, if◌then◌else◌, List,
  [], ◌∷◌, Option, none, some, arith, ltb, Bool-cases, Text, Result, ok, err, Action, pure, ◌>>=◌,
  ◌<◌,
}
use tech_trends.Common.Text.Matchers.{trim}
use tech_trends.Redis.Server.{Server, Client}
use tech_trends.Redis.Service.{
  release_script, get_cache, set_cache, exists, acquire_lock, release_lock,
}
use tech_trends.Trends.Data.{Vector}
use tech_trends.Ai.Search.{
  first_vector, poll_ms, max_polls, store, poll_from, polled, cached_vector, wait_for_cache,
  compute, compute_locked, after_lock, after_cache, embed_trimmed, lock_ttl_ms, embed_normalized,
  embed_search_query, caught,
}
use tech_trends.Ai.Concurrent.{
  Place, arriving, locking, sleeping, checking, queued, calling, releasing, answered, after_reply,
  after_check, after_read, next_round, Requests, normalized, cache_key, lock_key, read_at, turn,
}

-- A connection over which every command answers.
abbrev pub direct : (srv : Server) → Client srv
direct srv = record {
  State = srv.Keyspace;
  keyspace = λ s. s;
  call = λ A f s. (ok (f s).0, (f s).1);
}

module _ (srv : Server) (r : Requests srv.Keyspace) where
  abbrev pub replied : ℕ → Result Text (List Vector) → Place
  replied since (ok vectors) = after_reply since (first_vector vectors)
  replied since (err failure) = releasing since none

  -- The next step of request `i` alone: the model is called, and a pause passes, in between.
  unfoldable pub step_alone : ℕ → Place → srv.Keyspace → Place × srv.Keyspace
  step_alone i (queued since) s = (calling since, s)
  step_alone i (calling since) s =
      let (reply, t) = r.vector_embedding_with_ai (normalized srv (direct srv) r i ∷ []) s in
      (replied since reply, t)
  step_alone i (sleeping left wake) s =
      turn srv (direct srv) r i 0 (sleeping left wake) (r.sleep poll_ms s)
  step_alone i p s = turn srv (direct srv) r i 0 p s

  unfoldable pub run_alone : ℕ → ℕ → Place → srv.Keyspace → Place × srv.Keyspace
  run_alone i zero p s = (p, s)
  run_alone i (suc fuel) p s = let (q, t) = step_alone i p s in run_alone i fuel q t

  -- Where the request is at the end of what the sequential code does.
  abbrev ends : Result Text (Option Vector) × srv.Keyspace → Place × srv.Keyspace
  ends o = (answered (caught srv (direct srv) r.embedder o.0), o.1)

  run_alone-answered :
      (i fuel : ℕ) (o : Option Vector) (s : srv.Keyspace)
      → run_alone i fuel (answered o) s ≡ (answered o, s)
  unfolding run_alone step_alone turn
  run_alone-answered i zero o s = refl
  run_alone-answered i (suc fuel) o s = run_alone-answered i fuel o s

  module _ (i : ℕ) where
    abbrev key : Text
    key = cache_key srv (direct srv) r i

    abbrev lock : Text
    lock = lock_key srv (direct srv) r i

    abbrev rounds : ℕ → Action srv.Keyspace Text (Option Vector)
    rounds left = poll_from srv (direct srv) r.embedder key lock left

    either-round :
        (left fuel : ℕ) (b : Bool) (t : srv.Keyspace)
        → run_alone i fuel (next_round 0 left) t ≡ ends (rounds left t)
        → run_alone i fuel (if b then next_round 0 left else answered none) t
          ≡ ends ((if b then rounds left else pure none) t)
    either-round left fuel true t h = h
    either-round left fuel false t h = run_alone-answered i fuel none t

    after_poll :
        (left fuel : ℕ) (v : Option Vector) (t : srv.Keyspace)
        → 0 < fuel
        → ((n : ℕ) → suc n ≡ fuel → run_alone i n (next_round 0 left) t ≡ ends (rounds left t))
        → run_alone i fuel (after_read (checking left) v) t
          ≡ ends (polled srv (direct srv) r.embedder lock (rounds left) v t)
    unfolding run_alone step_alone turn exists
    after_poll left fuel (some v) t pos h = run_alone-answered i fuel (some v) t
    after_poll left zero none t pos h = absurd (omega (arith, pos))
    after_poll left (suc n) none t pos h = either-round left n (srv.exists lock t) t (h n refl)

    -- The wait.
    run_alone-next_round :
        (left fuel : ℕ) (s : srv.Keyspace)
        → left * 2 ≤ fuel
        → run_alone i fuel (next_round 0 left) s ≡ ends (rounds left s)
    unfolding run_alone step_alone turn poll_from cached_vector get_cache
    run_alone-next_round zero fuel s h = run_alone-answered i fuel none s
    run_alone-next_round (suc left) zero s h = absurd (omega (arith, h))
    run_alone-next_round (suc left) (suc n) s h =
        after_poll left n (read_at srv (direct srv) r key t) t (omega (arith, h))
          (λ m e. run_alone-next_round left m t (omega (arith, h, e)))
      where
        t : srv.Keyspace
        t = r.sleep poll_ms s

    -- The release, after an outcome.
    abbrev freed :
        Result Text (Option Vector) × srv.Keyspace → Result Text (Option Vector) × srv.Keyspace
    freed o = (o.0, (release_script srv lock (r.lock_value i) o.1).1)

    run_alone-releasing :
        (fuel : ℕ) (o : Option Vector) (outcome : Result Text (Option Vector)) (t : srv.Keyspace)
        → caught srv (direct srv) r.embedder outcome ≡ o
        → run_alone i (suc fuel) (releasing 0 o) t ≡ ends (freed (outcome, t))
    unfolding run_alone step_alone turn
    run_alone-releasing fuel o outcome t e =
        run_alone-answered i fuel o _
        ∙ ap (λ v. (answered v, (release_script srv lock (r.lock_value i) t).1)) (sym e)

    run_alone-after_reply :
        (fuel : ℕ) (v : Option Vector) (t : srv.Keyspace)
        → run_alone i (suc (suc fuel)) (after_reply 0 v) t
          ≡ ends (freed (store srv (direct srv) r.embedder key v t))
    unfolding run_alone step_alone turn set_cache
    run_alone-after_reply fuel none t = run_alone-releasing (suc fuel) none (ok none) t refl
    run_alone-after_reply fuel (some v) t = elim (Bool-cases (ltb 0 r.embedding_ttl_seconds)) [
      | inl pos ↦ rw pos (run_alone-releasing fuel (some v) (ok (some v)) _ refl)
      | inr never ↦ rw never (run_alone-releasing fuel (some v) (ok (some v)) _ refl)
    ]

    run_alone-replied :
        (fuel : ℕ) (reply : Result Text (List Vector)) (t u : srv.Keyspace)
        → run_alone i (suc (suc fuel)) (replied 0 reply) u
          ≡ ends (
              freed (
                ((λ (x : srv.Keyspace). (reply, u)) >>= λ vectors.
                store srv (direct srv) r.embedder key (first_vector vectors))
                  t))
    run_alone-replied fuel (ok vectors) t u = run_alone-after_reply fuel (first_vector vectors) u
    run_alone-replied fuel (err x) t u = run_alone-releasing (suc fuel) none (err x) u refl

    -- The computation under the lock.
    run_alone-queued :
        (fuel : ℕ) (t : srv.Keyspace)
        → run_alone i (suc (suc (suc (suc fuel)))) (queued 0) t
          ≡ ends (
              compute_locked srv
                (direct srv)
                r.embedder
                (normalized srv (direct srv) r i)
                key
                lock
                (r.lock_value i)
                t)
    unfolding run_alone step_alone turn compute_locked compute release_lock
    run_alone-queued fuel t =
        let o = r.vector_embedding_with_ai (normalized srv (direct srv) r i ∷ []) t in
        run_alone-replied fuel o.0 t o.1

    run_alone-locked :
        (fuel : ℕ) (set : Bool) (t : srv.Keyspace)
        → 50 ≤ fuel
        → run_alone i fuel (if set then queued 0 else next_round 0 max_polls) t
          ≡ ends (
              after_lock srv
                (direct srv)
                r.embedder
                (normalized srv (direct srv) r i)
                key
                lock
                (if set then some (r.lock_value i) else none)
                t)
    unfolding wait_for_cache
    run_alone-locked fuel false t h = run_alone-next_round max_polls fuel t h
    run_alone-locked (suc (suc (suc (suc fuel)))) true t h = run_alone-queued fuel t
    run_alone-locked zero true t h = absurd (omega (arith, h))
    run_alone-locked (suc zero) true t h = absurd (omega (arith, h))
    run_alone-locked (suc (suc zero)) true t h = absurd (omega (arith, h))
    run_alone-locked (suc (suc (suc zero))) true t h = absurd (omega (arith, h))

    run_alone-read :
        (fuel : ℕ) (v : Option Vector) (t : srv.Keyspace)
        → 50 ≤ fuel
        → run_alone i (suc fuel) (after_read locking v) t
          ≡ ends (
              after_cache srv
                (direct srv)
                r.embedder
                (r.lock_value i)
                (normalized srv (direct srv) r i)
                key
                lock
                v
                t)
    unfolding run_alone step_alone turn acquire_lock
    run_alone-read fuel (some v) t h = run_alone-answered i (suc fuel) (some v) t
    run_alone-read fuel none t h =
        let set = srv.set_px_nx lock (r.lock_value i) lock_ttl_ms t in
        run_alone-locked fuel set.0 set.1 h

    run_alone-checked :
        (query : Text) (s : srv.Keyspace)
        → run_alone i 52 (after_check query) s ≡ (
            let o =
              embed_trimmed srv (direct srv) r.embedder (r.lock_value i) (r.query i) query s in
            (answered o.0, o.1))
    unfolding run_alone step_alone turn embed_normalized cached_vector get_cache normalized
    run_alone-checked [] s = run_alone-answered i 52 none s
    run_alone-checked (a ∷ query) s =
        run_alone-read 50 (read_at srv (direct srv) r key s) s (omega arith)

  -- Over a connection on which every command answers, the steps of a request that no other interrupts
  -- are `embedSearchQuery`: 53 of them end in its answer, and in the keyspace that it leaves.
  pub run_alone_lem :
      (i : ℕ) (s : srv.Keyspace)
      → let o = embed_search_query srv (direct srv) r.embedder (r.lock_value i) (r.query i) s in
        run_alone i 53 arriving s ≡ (answered o.0, o.1)
  unfolding run_alone step_alone turn embed_search_query
  run_alone_lem i s = run_alone-checked i (trim (r.query i)) s
