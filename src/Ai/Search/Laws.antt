-- ===== src/Ai/Search/Laws.antt =====
-- What a search gets from the embedding, the polls on the way there, and its lock.
use tech_trends.Base.{
  ℕ, zero, suc, ◌≡◌, ◌≢◌, refl, sym, ap, ◌∙◌, inl, inr, Bool, true, false, List, [], ◌∷◌, ◌++◌,
  units, Option, none, some, if◌then◌else◌, Text, Result, Result-cases, ok, err, Action, pure, Post,
  Post-ok, Post-err, Post->>=,
}
use tech_trends.Redis.Server.{Server, ServerLaws, Client, ClientLaws, value_of}
use tech_trends.Redis.Service.{
  acquire_lock, release_lock, Cached, parsed, raw, get_cache, set_cache, exists,
}
use tech_trends.Redis.Lock.{release_lock_lem}
use tech_trends.Trends.Data.{Vector}
use tech_trends.Common.Text.Matchers.{trim}
use tech_trends.Ai.Search.{
  Embedder, usable, first_vector, read_vector, cached_vector, polled, poll_from, wait_for_cache,
  store, compute, compute_locked, after_lock, after_cache, embed_normalized, caught, embed_trimmed,
  embed_search_query, max_polls, poll_ms, lock_ttl_ms, normalize_keyword,
}

-- None, or a vector with members.
abbrev pub IsUsable : Option Vector → Type 0
IsUsable none = Unit
IsUsable (some v) = v ≢ []

usable-IsUsable : (v : Option Vector) → IsUsable (usable v)
usable-IsUsable none = tt
usable-IsUsable (some []) = tt
usable-IsUsable (some (x ∷ v)) = λ h. cc

first_vector-IsUsable : (vs : List Vector) → IsUsable (first_vector vs)
first_vector-IsUsable [] = tt
first_vector-IsUsable (v ∷ vs) = usable-IsUsable (some v)

module _ (srv : Server) (c : Client srv) (e : Embedder c.State) where
  -- The outcome is usable where there is one.
  abbrev Usable : Result Text (Option Vector) × c.State → Type 0
  Usable o = Post (λ v _. IsUsable v) (λ _ _. Unit) o

  abbrev anything :
      {A : Type 0} (o : Result Text A × c.State) → Post (λ _ _. Unit {0}) (λ _ _. Unit {0}) o
  anything o = record { on_ok = λ a h. tt; on_err = λ x h. tt }

  read_vector-IsUsable : (found : Option (Cached e.Json)) → IsUsable (read_vector srv c e found)
  read_vector-IsUsable none = tt
  read_vector-IsUsable (some (raw text)) = tt
  read_vector-IsUsable (some (parsed j)) = usable-IsUsable (e.array_of j)

  cached_vector-Usable : (key : Text) (s : c.State) → Usable (cached_vector srv c e key s)
  unfolding cached_vector
  cached_vector-Usable key s =
      Post->>= (get_cache srv c e.parse key) (λ found. pure (read_vector srv c e found)) s
        (anything _) (λ found t _. Post-ok (read_vector-IsUsable found))

  polled-Usable :
      (lock_key : Text) (rest : Action c.State Text (Option Vector)) (v : Option Vector)
      (s : c.State)
      → ((t : c.State) → Usable (rest t))
      → IsUsable v
      → Usable (polled srv c e lock_key rest v s)
  polled-Usable lock_key rest (some v) s r h = Post-ok h
  polled-Usable lock_key rest none s r h =
      Post->>= (exists srv c lock_key) (λ b. if b then rest else pure none) s (anything _)
        (λ b t _. chosen b t)
    where
      chosen : (b : Bool) (t : c.State) → Usable ((if b then rest else pure none) t)
      chosen true t = r t
      chosen false t = Post-ok tt

  poll_from-Usable :
      (cache_key lock_key : Text) (left : ℕ) (s : c.State)
      → Usable (poll_from srv c e cache_key lock_key left s)
  unfolding poll_from
  poll_from-Usable cache_key lock_key zero s = Post-ok tt
  poll_from-Usable cache_key lock_key (suc left) s =
      let rest = poll_from srv c e cache_key lock_key left in
      Post->>= (cached_vector srv c e cache_key) (polled srv c e lock_key rest) (e.sleep poll_ms s)
        (cached_vector-Usable cache_key _)
        (λ v t h. polled-Usable lock_key rest v t (poll_from-Usable cache_key lock_key left) h)

  store-Usable :
      (key : Text) (v : Option Vector) (s : c.State) → IsUsable v → Usable (store srv c e key v s)
  store-Usable key none s h = Post-ok tt
  store-Usable key (some v) s h =
      Post->>= (set_cache srv c key (e.stringify v) e.embedding_ttl_seconds) (λ _. pure (some v)) s
        (anything _) (λ _ t _. Post-ok h)

  compute_locked-Usable :
      (query cache_key lock_key value : Text) (s : c.State)
      → Usable (compute_locked srv c e query cache_key lock_key value s)
  unfolding compute_locked compute
  compute_locked-Usable query cache_key lock_key value s =
      let computed =
        Post->>= (e.vector_embedding_with_ai (query ∷ []))
          (λ vs. store srv c e cache_key (first_vector vs)) s (anything _)
          (λ vs t _. store-Usable cache_key (first_vector vs) t (first_vector-IsUsable vs)) in
      elim (Result-cases
        (release_lock srv c lock_key value (compute srv c e query cache_key s).1).0) [
          | inl (b, good) ↦
              rw (good, compute_locked) (record { on_ok = computed.on_ok; on_err = λ x h. tt })
          | inr (x, bad) ↦ rw (bad, compute_locked) (Post-err tt)
        ]

  after_lock-Usable :
      (query cache_key lock_key : Text) (lock : Option Text) (s : c.State)
      → Usable (after_lock srv c e query cache_key lock_key lock s)
  unfolding wait_for_cache
  after_lock-Usable query cache_key lock_key none s =
      poll_from-Usable cache_key lock_key max_polls s
  after_lock-Usable query cache_key lock_key (some value) s =
      compute_locked-Usable query cache_key lock_key value s

  after_cache-Usable :
      (fresh query cache_key lock_key : Text) (v : Option Vector) (s : c.State)
      → IsUsable v
      → Usable (after_cache srv c e fresh query cache_key lock_key v s)
  after_cache-Usable fresh query cache_key lock_key (some v) s h = Post-ok h
  after_cache-Usable fresh query cache_key lock_key none s h =
      Post->>= (acquire_lock srv c lock_key lock_ttl_ms fresh)
        (after_lock srv c e query cache_key lock_key) s (anything _)
        (λ lock t _. after_lock-Usable query cache_key lock_key lock t)

  embed_normalized-Usable :
      (fresh query : Text) (s : c.State) → Usable (embed_normalized srv c e fresh query s)
  unfolding embed_normalized
  embed_normalized-Usable fresh query s =
      let cache_key = units "emb:" ++ (e.embedding_model_name ++ (units ":" ++ query)) in
      Post->>= (cached_vector srv c e cache_key)
        (after_cache srv c e fresh query cache_key (units "lock:" ++ cache_key)) s
        (cached_vector-Usable cache_key s)
        (λ v t h. after_cache-Usable fresh query cache_key (units "lock:" ++ cache_key) v t h)

  caught-IsUsable :
      (r : Result Text (Option Vector))
      → ((v : Option Vector) → r ≡ ok v → IsUsable v)
      → IsUsable (caught srv c e r)
  caught-IsUsable (ok v) h = h v refl
  caught-IsUsable (err x) h = tt

  -- A search never fails over its embedding: whatever rejects, and whoever holds the lock, the answer
  -- is none or a vector that has members, never an empty one.
  pub embed_search_query-IsUsable :
      (fresh query : Text) (s : c.State) → IsUsable (embed_search_query srv c e fresh query s).0
  unfolding embed_search_query
  embed_search_query-IsUsable fresh query s = trimmed (trim query)
    where
      trimmed : (t : Text) → IsUsable (embed_trimmed srv c e fresh query t s).0
      trimmed [] = tt
      trimmed (a ∷ rest) =
          caught-IsUsable _
            (embed_normalized-Usable fresh (normalize_keyword e.to_lower_case query) s).on_ok

module _ (srv : Server) (laws : ServerLaws srv) (c : Client srv) (client : ClientLaws srv c)
    (e : Embedder c.State) where
  -- However the computation ends, where the release that follows it answers, the lock no longer holds
  -- the value of this request, and the outcome is that of the computation.
  pub compute_locked-release :
      (query cache_key lock_key value : Text) (s : c.State) (b : Bool)
      → (release_lock srv c lock_key value (compute srv c e query cache_key s).1).0 ≡ ok b
      → let o = compute_locked srv c e query cache_key lock_key value s in
        (o.0 ≡ (compute srv c e query cache_key s).0)
        × (value_of (srv.entry (c.keyspace o.1) lock_key) ≢ some value)
  unfolding compute_locked
  compute_locked-release query cache_key lock_key value s b h =
      elim (release_lock_lem srv laws c client lock_key value (compute srv c e query cache_key s).1
        b h) [
          | inl (freed, held, gone) ↦
              rw (h, compute_locked) (refl, λ p. none-ne-some (sym (ap value_of gone) ∙ p))
          | inr (kept, other, same) ↦
              rw (h, compute_locked)
                (refl, λ p. other (sym (ap (λ k. value_of (srv.entry k lock_key)) same) ∙ p))
        ]
    where
      none-ne-some : {a : Text} → ¬ (◌≡◌ {A = Option Text} none (some a))
      none-ne-some p = cc
