-- ===== src/Ai/Concurrent/Frame.antt =====
-- The step of one request, and the parts of the keyspace that are not its own.
use tech_trends.Base.{
  ℕ, ◌*◌, ◌<◌, ◌≡◌, ◌≢◌, refl, sym, ap, ◌∙◌, ◌⊎◌, inl, inr, true, false, Option, none, some, arith,
  ltb, some_injective, Option-cases, Bool-cases, Text, text_eq, text_eq_iff,
}
use tech_trends.Redis.Server.{Server, ServerLaws, Client, Entry, value_of}
use tech_trends.Redis.Service.{release_script}
use tech_trends.Trends.Data.{Vector}
use tech_trends.Ai.Search.{lock_ttl_ms}
use tech_trends.Ai.Concurrent.{
  Place, arriving, reading, locking, sleeping, checking, queued, calling, storing, releasing,
  answered, Requests, lock_key, cache_key, written, turn,
}

module _ (srv : Server) (laws : ServerLaws srv) where
  -- A lock on any key leaves what a key holds.
  set_px_nx-keeps :
      (key w k : Text) (ms : ℕ) (s : srv.Keyspace) (e : Entry)
      → 0 < ms
      → srv.entry s k ≡ some e
      → srv.entry (srv.set_px_nx key w ms s).1 k ≡ some e
  set_px_nx-keeps key w k ms s e pos held = elim (Option-cases (srv.entry s key)) [
    | inr (other, taken) ↦ rw (laws.set_px_nx_taken key w ms s other taken) held
    | inl free ↦ elim (Bool-cases (text_eq k key)) [
      | inl same ↦
          absurd
            (none-ne-some (sym free ∙ ap (srv.entry s) (sym ((text_eq_iff k key).0 same)) ∙ held))
      | inr differ ↦
          rw (laws.set_px_nx_free key w ms s pos free)
            (laws.entry-set_px key w ms k s pos ∙ rw differ held)
    ]
  ]
    where
      none-ne-some : {a : Entry} → ¬ (◌≡◌ {A = Option Entry} none (some a))
      none-ne-some p = cc

  -- A release leaves what another key holds, and what the same key holds with another value.
  release_script-keeps :
      (key w k v : Text) (ttl : Option ℕ) (s : srv.Keyspace)
      → (text_eq k key ≡ false) ⊎ (w ≢ v)
      → srv.entry s k ≡ some (v, ttl)
      → srv.entry (release_script srv key w s).1 k ≡ some (v, ttl)
  unfolding release_script
  release_script-keeps key w k v ttl s other held =
      let found = laws.get_lem key s in
      elim (Option-cases (value_of (srv.entry s key))) [
        | inl free ↦ rw (found, free) held
        | inr (h, taken) ↦ elim (Bool-cases (text_eq h w)) [
          | inr differ ↦ rw (found, taken, differ) held
          | inl equal ↦ elim (Bool-cases (text_eq k key)) [
            | inr apart ↦ rw (found, taken, equal) (laws.entry-del key k s ∙ rw apart held)
            | inl same ↦ absurd (
                clash other same
                  (some_injective (
                    sym taken
                    ∙ ap (λ j. value_of (srv.entry s j)) (sym ((text_eq_iff k key).0 same))
                    ∙ ap value_of held))
                  ((text_eq_iff h w).0 equal))
          ]
        ]
      ]
    where
      clash :
          {h : Text} → (text_eq k key ≡ false) ⊎ (w ≢ v) → text_eq k key ≡ true → h ≡ v → h ≡ w → ⊥
      clash (inl apart) same p q = true-ne-false (sym same ∙ apart)
        where
          true-ne-false : ¬ (true ≡ false)
          true-ne-false p = cc
      clash (inr differ) same p q = differ (sym q ∙ p)

  -- A lock, or a release, on another key.
  set_px_nx-apart :
      (key w k : Text) (ms : ℕ) (s : srv.Keyspace)
      → 0 < ms
      → text_eq k key ≡ false
      → srv.entry (srv.set_px_nx key w ms s).1 k ≡ srv.entry s k
  set_px_nx-apart key w k ms s pos apart = elim (Option-cases (srv.entry s key)) [
    | inr (other, taken) ↦ rw (laws.set_px_nx_taken key w ms s other taken)
    | inl free ↦
        rw (laws.set_px_nx_free key w ms s pos free) (laws.entry-set_px key w ms k s pos ∙ rw apart)
  ]

  release_script-apart :
      (key w k : Text) (s : srv.Keyspace)
      → text_eq k key ≡ false
      → srv.entry (release_script srv key w s).1 k ≡ srv.entry s k
  unfolding release_script
  release_script-apart key w k s apart =
      let found = laws.get_lem key s in
      elim (Option-cases (value_of (srv.entry s key))) [
        | inl free ↦ rw (found, free)
        | inr (h, taken) ↦ elim (Bool-cases (text_eq h w)) [
          | inr differ ↦ rw (found, taken, differ)
          | inl equal ↦ rw (found, taken, equal) (laws.entry-del key k s ∙ rw apart)
        ]
      ]

module _ (srv : Server) (laws : ServerLaws srv) (c : Client srv) (r : Requests c.State) where
  pub written-keeps :
      (key k : Text) (v : Vector) (s : srv.Keyspace)
      → text_eq k key ≡ false
      → srv.entry (written srv c r key v s) k ≡ srv.entry s k
  written-keeps key k v s apart = elim (Bool-cases (ltb 0 r.embedding_ttl_seconds)) [
    | inl pos ↦ rw pos (laws.entry-set_px key (r.stringify v) _ k s (ground arith) ∙ rw apart)
    | inr never ↦ rw never (laws.entry-set key (r.stringify v) k s ∙ rw apart)
  ]

  -- Whatever step a request takes, the lock of another request keeps its value and its time.
  pub turn-lock :
      (i j now : ℕ) (p : Place) (s : srv.Keyspace) (v : Text) (ttl : Option ℕ)
      → (r.lock_value i ≢ v)
      → srv.entry s (lock_key srv c r j) ≡ some (v, ttl)
      → srv.entry (turn srv c r i now p s).1 (lock_key srv c r j) ≡ some (v, ttl)
  unfolding turn
  turn-lock i j now locking s v ttl other held =
      set_px_nx-keeps srv laws _ _ _ lock_ttl_ms s _ (omega arith) held
  turn-lock i j now (storing since w) s v ttl other held = written-keeps _ _ w s refl ∙ held
  turn-lock i j now (releasing since outcome) s v ttl other held =
      release_script-keeps srv laws _ _ _ v ttl s (inr other) held
  turn-lock i j now arriving s v ttl other held = held
  turn-lock i j now reading s v ttl other held = held
  turn-lock i j now (sleeping left wake) s v ttl other held = held
  turn-lock i j now (checking left) s v ttl other held = held
  turn-lock i j now (queued since) s v ttl other held = held
  turn-lock i j now (calling since) s v ttl other held = held
  turn-lock i j now (answered outcome) s v ttl other held = held

  -- The step writes the vector of request `i` at the key of request `j`.
  pub record Writes (i j : ℕ) (p : Place) (entry : Option Entry) : Type 0 where
    pub since : ℕ
    pub vector : Vector
    pub storing_here : p ≡ storing since vector
    pub same_key : cache_key srv c r j ≡ cache_key srv c r i
    pub entry_written : entry ≡ some (r.stringify vector, some (r.embedding_ttl_seconds * 1000))

  -- The only step that changes what is cached for a query is the store of a request of that query.
  pub turn-cache :
      (i j now : ℕ) (p : Place) (s : srv.Keyspace)
      → 0 < r.embedding_ttl_seconds
      → let after = srv.entry (turn srv c r i now p s).1 (cache_key srv c r j) in
        (after ≡ srv.entry s (cache_key srv c r j)) ⊎ Writes i j p after
  unfolding turn
  turn-cache i j now locking s pos =
      inl (set_px_nx-apart srv laws _ _ _ lock_ttl_ms s (omega arith) refl)
  turn-cache i j now (releasing since outcome) s pos =
      inl (release_script-apart srv laws _ _ _ s refl)
  turn-cache i j now (storing since v) s pos =
      elim (Bool-cases (text_eq (cache_key srv c r j) (cache_key srv c r i))) [
        | inr apart ↦ inl (written-keeps _ _ v s apart)
        | inl same ↦ inr (record {
          since = since;
          vector = v;
          storing_here = refl;
          same_key = (text_eq_iff _ _).0 same;
          entry_written =
              rw positive
                (laws.entry-set_px _ _ _ (cache_key srv c r j) s (omega (arith, pos)) ∙ rw same);
        })
      ]
    where
      positive : ltb 0 r.embedding_ttl_seconds ≡ true
      positive = ground (arith, pos)
  turn-cache i j now arriving s pos = inl refl
  turn-cache i j now reading s pos = inl refl
  turn-cache i j now (sleeping left wake) s pos = inl refl
  turn-cache i j now (checking left) s pos = inl refl
  turn-cache i j now (queued since) s pos = inl refl
  turn-cache i j now (calling since) s pos = inl refl
  turn-cache i j now (answered outcome) s pos = inl refl
