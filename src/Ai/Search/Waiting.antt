-- ===== src/Ai/Search/Waiting.antt =====
-- The wait for another request's vector.
use tech_trends.Base.{
  ℕ, zero, suc, ◌<◌, ◌≡◌, refl, ◌⊎◌, inl, inr, Bool, true, false, Option, none, some, arith, Text,
  Result, Result-cases, ok, err, ◌>>=◌,
}
use tech_trends.Redis.Server.{Server, Client}
use tech_trends.Redis.Service.{exists}
use tech_trends.Trends.Data.{Vector}
use tech_trends.Ai.Search.{Embedder, cached_vector, poll_from, wait_for_cache, max_polls, poll_ms}

module _ (srv : Server) (c : Client srv) (e : Embedder c.State) (cache_key lock_key : Text) where
  -- A poll: the wait, then the read of the cache, and the look at the lock after it.
  abbrev pub read : c.State → Result Text (Option Vector) × c.State
  read s = cached_vector srv c e cache_key (e.sleep poll_ms s)

  abbrev pub look : c.State → Result Text Bool × c.State
  look s = exists srv c lock_key (read s).1

  -- Polls that found no vector, and the lock still there.
  pub data Polled : ℕ → c.State → c.State → Type 0 where
    none_yet : {s : c.State} → Polled 0 s s
    again :
        {n : ℕ} {s t : c.State}
        → (read s).0 ≡ ok none
        → (look s).0 ≡ ok true
        → Polled n (look s).1 t
        → Polled (suc n) s t

  -- The poll in state `t` that ends the wait.
  pub data Decides (t : c.State) : Result Text (Option Vector) × c.State → Type 0 where
    found : {v : Vector} → (read t).0 ≡ ok (some v) → Decides t (ok (some v), (read t).1)
    unlocked : (read t).0 ≡ ok none → (look t).0 ≡ ok false → Decides t (ok none, (look t).1)
    unread : {x : Text} → (read t).0 ≡ err x → Decides t (err x, (read t).1)
    unseen : {x : Text} → (read t).0 ≡ ok none → (look t).0 ≡ err x → Decides t (err x, (look t).1)

  abbrev Waits : ℕ → c.State → Result Text (Option Vector) × c.State → Type 0
  Waits left s o =
      (n : ℕ) × (t : c.State) × Polled n s t
      × (((n ≡ left) × (o ≡ (ok none, t))) ⊎ ((n < left) × Decides t o))

  poll_from-Waits :
      (left : ℕ) (s : c.State) → Waits left s (poll_from srv c e cache_key lock_key left s)
  unfolding poll_from
  poll_from-Waits zero s = (0, s, none_yet, inl (refl, refl))
  poll_from-Waits (suc left) s = elim (Result-cases (read s).0) [
    | inr (x, bad) ↦ rw (bad, ◌>>=◌) (0, s, none_yet, inr (omega arith, unread bad))
    | inl (some v, hit) ↦ rw (hit, ◌>>=◌) (0, s, none_yet, inr (omega arith, found hit))
    | inl (none, miss) ↦ elim (Result-cases (look s).0) [
      | inr (x, bad) ↦ rw (miss, bad, ◌>>=◌) (0, s, none_yet, inr (omega arith, unseen miss bad))
      | inl (false, free) ↦
          rw (miss, free, ◌>>=◌) (0, s, none_yet, inr (omega arith, unlocked miss free))
      | inl (true, locked) ↦
          rw (miss, locked, ◌>>=◌) (later (poll_from-Waits left (look s).1) miss locked)
    ]
  ]
    where
      later :
          {o : Result Text (Option Vector) × c.State}
          → Waits left (look s).1 o
          → (read s).0 ≡ ok none
          → (look s).0 ≡ ok true
          → Waits (suc left) s o
      later (n, t, polls, inl (same, out)) miss locked =
          (suc n, t, again miss locked polls, inl (omega arith, out))
      later (n, t, polls, inr (less, out)) miss locked =
          (suc n, t, again miss locked polls, inr (omega arith, out))

  -- The wait ends within 25 polls. Either all of them found no vector and the lock still there, and it
  -- answers none; or an earlier poll decides it: by a vector, by the lock gone with no vector read, or
  -- by a command that is rejected.
  pub wait_for_cache_lem :
      (s : c.State)
      → (n : ℕ) × (t : c.State) × Polled n s t
        × (((n ≡ max_polls) × (wait_for_cache srv c e cache_key lock_key s ≡ (ok none, t)))
            ⊎ ((n < max_polls) × Decides t (wait_for_cache srv c e cache_key lock_key s)))
  unfolding wait_for_cache
  wait_for_cache_lem s = poll_from-Waits max_polls s
