-- ===== src/Redis/Lock.antt =====
-- The distributed lock: what clients do to it, and who holds it.
pub mod Progress
use tech_trends.Base.{
  ℕ, ◌+◌, ◌-◌, ◌<◌, ◌≡◌, ◌≢◌, refl, sym, ap, ◌∙◌, inl, inr, ◌⊎◌, Bool, true, false, List, [], ◌∷◌,
  ◌++◌, Option, none, some, arith, ◌==◌, if◌then◌else◌, Option-cases, Bool-cases, some_injective,
  Text, text_eq, text_eq_iff, text_eq_refl, ok, All, >>=-pure-eq-ok,
}
use tech_trends.Redis.Server.{Server, ServerLaws, Client, ClientLaws, Entry, value_of}
use tech_trends.Redis.Service.{release_script, acquire_lock, release_lock}

-- What clients do to one lock, and time.
pub data LockEvent : Type 0 where
  acquire : Text → ℕ → LockEvent
  release : Text → LockEvent
  wait : ℕ → LockEvent

abbrev pub elapsed : List LockEvent → ℕ
elapsed [] = 0
elapsed (acquire w ms ∷ es) = elapsed es
elapsed (release w ∷ es) = elapsed es
elapsed (wait d ∷ es) = d + elapsed es

-- An attempt to acquire has a positive time, as the server asks.
abbrev pub IsTimed : LockEvent → Type 0
IsTimed (acquire w ms) = 0 < ms
IsTimed (release w) = Unit
IsTimed (wait d) = Unit

-- The event is not the release by `v` itself.
abbrev pub NotReleasedBy : Text → LockEvent → Type 0
NotReleasedBy v (acquire w ms) = Unit
NotReleasedBy v (release w) = w ≢ v
NotReleasedBy v (wait d) = Unit

module _ (srv : Server) (key : Text) where
  -- One event at the server: the values that got the lock, and the keyspace after it.
  unfoldable pub lock_step : LockEvent → srv.Keyspace → List Text × srv.Keyspace
  lock_step (acquire w ms) s =
      let (set, t) = srv.set_px_nx key w ms s in (if set then w ∷ [] else [], t)
  lock_step (release w) s = ([], (release_script srv key w s).1)
  lock_step (wait d) s = ([], srv.elapse d s)

  unfoldable pub lock_run : List LockEvent → srv.Keyspace → List Text × srv.Keyspace
  unfolding lock_step
  lock_run [] s = ([], s)
  lock_run (e ∷ es) s =
      let (got, t) = lock_step e s in let (more, u) = lock_run es t in (got ++ more, u)

module _ (srv : Server) (laws : ServerLaws srv) (key v : Text) where
  remaining : (m n : ℕ) → m ≡ n → ◌≡◌ {A = Option Entry} (some (v, some m)) (some (v, some n))
  remaining m n e = ap (λ k. some (v, some k)) e

  -- A release by somebody else does nothing.
  release_other :
      (w : Text) (s : srv.Keyspace) {ms : ℕ}
      → srv.entry s key ≡ some (v, some ms)
      → w ≢ v
      → release_script srv key w s ≡ (0, s)
  unfolding release_script
  release_other w s held other = elim (Bool-cases (text_eq v w)) [
    | inl same ↦ absurd (other (sym ((text_eq_iff v w).0 same)))
    | inr differ ↦ rw (laws.get_lem key s ∙ ap value_of held, differ)
  ]

  within :
      (e : LockEvent) (es : List LockEvent) (ms : ℕ) → elapsed (e ∷ es) < ms → elapsed (e ∷ []) < ms
  within (acquire w t) es ms h = omega arith
  within (release w) es ms h = omega arith
  within (wait d) es ms h = omega arith

  rest :
      (e : LockEvent) (es : List LockEvent) (ms : ℕ)
      → elapsed (e ∷ es) < ms
      → elapsed es < ms - elapsed (e ∷ [])
  rest (acquire w t) es ms h = omega arith
  rest (release w) es ms h = omega arith
  rest (wait d) es ms h = omega arith

  total :
      (e : LockEvent) (es : List LockEvent) (ms : ℕ)
      → ms - elapsed (e ∷ []) - elapsed es ≡ ms - elapsed (e ∷ es)
  total (acquire w t) es ms = omega arith
  total (release w) es ms = omega arith
  total (wait d) es ms = omega arith

  -- While `v` holds the lock an event that is no release by `v` gives it to nobody.
  lock_step_held :
      (e : LockEvent) (ms : ℕ) (s : srv.Keyspace)
      → srv.entry s key ≡ some (v, some ms)
      → elapsed (e ∷ []) < ms
      → NotReleasedBy v e
      → ((lock_step srv key e s).0 ≡ [])
        × (srv.entry (lock_step srv key e s).1 key ≡ some (v, some (ms - elapsed (e ∷ []))))
  unfolding lock_step release_script
  lock_step_held (acquire w ttl) ms s held h _ =
      rw (laws.set_px_nx_taken key w ttl s (v, some ms) held)
        (refl, held ∙ remaining _ _ (omega arith))
  lock_step_held (release w) ms s held h other = (
    refl,
    ap (λ o. srv.entry o.1 key) (release_other w s held other) ∙ held ∙ remaining _ _ (omega arith),
  )
  lock_step_held (wait d) ms s held h _ = (refl, ground (arith, laws.entry-elapse d key s))

  -- Whatever others do to the lock that `v` holds, until its time runs out or `v` releases it: nobody
  -- else acquires it, and `v` still holds it, with the rest of its time.
  pub lock_run_held :
      (es : List LockEvent) (ms : ℕ) (s : srv.Keyspace)
      → srv.entry s key ≡ some (v, some ms)
      → elapsed es < ms
      → All (NotReleasedBy v) es
      → ((lock_run srv key es s).0 ≡ [])
        × (srv.entry (lock_run srv key es s).1 key ≡ some (v, some (ms - elapsed es)))
  unfolding lock_run
  lock_run_held [] ms s held h _ = (refl, held ∙ remaining _ _ (omega arith))
  lock_run_held (e ∷ es) ms s held h (n, ns) =
      let (none_now, held') = lock_step_held e ms s held (within e es ms h) n in
      let (none_later, held'') = lock_run_held es _ _ held' (rest e es ms h) ns in
      (rw none_now none_later, held'' ∙ remaining _ _ (total e es ms))

module _ (srv : Server) (laws : ServerLaws srv) (c : Client srv) (client : ClientLaws srv c) where
  -- `acquireLock` with a positive time that answers: either the key was free, and now holds the caller's value for the
  -- given time, or it was taken, and nothing changed.
  pub acquire_lock_lem :
      (key : Text) (ttl_ms : ℕ) (value : Text) (s : c.State) (r : Option Text)
      → 0 < ttl_ms
      → (acquire_lock srv c key ttl_ms value s).0 ≡ ok r
      → let before = c.keyspace s in
        let after = c.keyspace (acquire_lock srv c key ttl_ms value s).1 in
        ((r ≡ some value)
          × (srv.entry before key ≡ none)
          × (srv.entry after key ≡ some (value, some ttl_ms)))
        ⊎ ((r ≡ none) × ((e : Entry) × (srv.entry before key ≡ some e)) × (after ≡ before))
  unfolding acquire_lock
  acquire_lock_lem key ttl_ms value s r pos h =
      let set = srv.set_px_nx key value ttl_ms in
      let (done, called, reply, state) =
        >>=-pure-eq-ok (c.call Bool set) (λ (b : Bool). if b then some value else none) s r h in
      let (same, effect) = client.call_ok Bool set s done called in
      elim (Option-cases (srv.entry (c.keyspace s) key)) [
        | inl free ↦
            let e = laws.set_px_nx_free key value ttl_ms (c.keyspace s) pos free in
            inl (
              reply ∙ rw (same, e) refl,
              free,
              ap (λ t. srv.entry (c.keyspace t) key) state
                  ∙ ap (λ t. srv.entry t key) effect
                  ∙ rw e (
                      laws.entry-set_px key value ttl_ms key (c.keyspace s) pos
                      ∙ rw (text_eq_refl key)),
            )
        | inr (held, taken) ↦
            let e = laws.set_px_nx_taken key value ttl_ms (c.keyspace s) held taken in
            inr (
              reply ∙ rw (same, e) refl,
              (held, taken),
              ap c.keyspace state ∙ effect ∙ ap (λ o. o.1) e,
            )
      ]

  -- `releaseLock` that answers: either the lock held the caller's value, and is free now, or it did
  -- not, and nothing changed.
  pub release_lock_lem :
      (key value : Text) (s : c.State) (r : Bool)
      → (release_lock srv c key value s).0 ≡ ok r
      → let before = c.keyspace s in
        let after = c.keyspace (release_lock srv c key value s).1 in
        ((r ≡ true) × (value_of (srv.entry before key) ≡ some value) × (srv.entry after key ≡ none))
        ⊎ ((r ≡ false) × (value_of (srv.entry before key) ≢ some value) × (after ≡ before))
  unfolding release_lock release_script
  release_lock_lem key value s r h =
      let script = release_script srv key value in
      let (done, called, reply, state) = >>=-pure-eq-ok (c.call ℕ script) (λ n. n == 1) s r h in
      let (same, effect) = client.call_ok ℕ script s done called in
      let found = laws.get_lem key (c.keyspace s) in
      elim (Option-cases (value_of (srv.entry (c.keyspace s) key))) [
        | inl free ↦ inr (
          reply ∙ rw (same, found, free) refl,
          λ e. none-ne-some (sym free ∙ e),
          ap c.keyspace state ∙ effect ∙ rw (found, free) refl,
        )
        | inr (held, taken) ↦ elim (Bool-cases (text_eq held value)) [
          | inl equal ↦ inl (
            reply ∙ rw (same, found, taken, equal) refl,
            taken ∙ ap some ((text_eq_iff held value).0 equal),
            ap (λ t. srv.entry (c.keyspace t) key) state
                ∙ ap (λ t. srv.entry t key) effect
                ∙ rw (found, taken, equal)
                    (laws.entry-del key key (c.keyspace s) ∙ rw (text_eq_refl key)),
          )
          | inr differ ↦ inr (
            reply ∙ rw (same, found, taken, differ) refl,
            λ e. differ_held differ (some_injective (sym taken ∙ e)),
            ap c.keyspace state ∙ effect ∙ rw (found, taken, differ) refl,
          )
        ]
      ]
    where
      none-ne-some : {a : Text} → ¬ (◌≡◌ {A = Option Text} none (some a))
      none-ne-some p = cc

      differ_held : {a : Text} → text_eq a value ≡ false → ¬ (a ≡ value)
      differ_held {a} differ e = true-ne-false (sym ((text_eq_iff a value).1 e) ∙ differ)
        where
          true-ne-false : ¬ (true ≡ false)
          true-ne-false p = cc
