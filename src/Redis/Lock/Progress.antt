-- ===== src/Redis/Lock/Progress.antt =====
-- A lock whose holder does not release it.
use tech_trends.Base.{
  ℕ, ◌-◌, ◌≤◌, ◌<◌, ◌≡◌, ◌≢◌, refl, ap, ◌∙◌, inl, inr, true, false, List, [], ◌∷◌, ◌++◌, none, some,
  arith, ltb, All, Bool-cases, Text, text_eq, text_eq_refl,
}
use tech_trends.Redis.Server.{Server, ServerLaws, Entry, value_of, aged}
use tech_trends.Redis.Service.{release_script, release_found}
use tech_trends.Redis.Lock.{
  LockEvent, acquire, release, wait, elapsed, IsTimed, lock_step, lock_run,
}

module _ (srv : Server) (laws : ServerLaws srv) (key : Text) where
  cons-ne-nil : {x : Text} {xs : List Text} → (x ∷ xs) ≢ []
  cons-ne-nil p = cc

  -- Releases and time keep a free lock free.
  release_free :
      (w : Text) (s : srv.Keyspace)
      → srv.entry s key ≡ none
      → srv.entry (release_script srv key w s).1 key ≡ none
  unfolding release_script release_found
  release_free w s free = rw (laws.get_lem key s ∙ ap value_of free) free

  release_own :
      (w : Text) (e : Entry) (s : srv.Keyspace)
      → srv.entry s key ≡ some e
      → text_eq e.0 w ≡ true
      → srv.entry (release_script srv key w s).1 key ≡ none
  unfolding release_script release_found
  release_own w e s held own =
      rw (laws.get_lem key s ∙ ap value_of held, own)
        (laws.entry-del key key s ∙ rw (text_eq_refl key) refl)

  release_foreign :
      (w : Text) (e : Entry) (s : srv.Keyspace)
      → srv.entry s key ≡ some e
      → text_eq e.0 w ≡ false
      → srv.entry (release_script srv key w s).1 key ≡ some e
  unfolding release_script release_found
  release_foreign w e s held differ = rw (laws.get_lem key s ∙ ap value_of held, differ) held

  -- A free lock goes to the first who asks.
  free_progress :
      (es : List LockEvent) (w : Text) (ms : ℕ) (s : srv.Keyspace)
      → 0 < ms
      → All IsTimed es
      → srv.entry s key ≡ none
      → (lock_run srv key (es ++ acquire w ms ∷ []) s).0 ≢ []
  unfolding lock_run lock_step
  free_progress [] w ms s pos _ free = rw (laws.set_px_nx_free key w ms s pos free) cons-ne-nil
  free_progress (acquire v ttl ∷ es) w ms s pos (timed, _) free =
      rw (laws.set_px_nx_free key v ttl s timed free) cons-ne-nil
  free_progress (release v ∷ es) w ms s pos (_, ts) free =
      free_progress es w ms _ pos ts (release_free v s free)
  free_progress (wait d ∷ es) w ms s pos (_, ts) free =
      free_progress es w ms _ pos ts (laws.entry-elapse d key s ∙ ap (aged d) free)

  -- Whatever clients do to a lock that has some time left, each attempt with a positive time, and
  -- whoever crashed while holding it: once the time left has passed, an attempt to acquire the lock
  -- finds that it has gone to somebody since, if not to this attempt.
  pub lock_run_progress :
      (es : List LockEvent) (w : Text) (ms ttl : ℕ) (holder : Text) (s : srv.Keyspace)
      → srv.entry s key ≡ some (holder, some ttl)
      → 0 < ms
      → All IsTimed es
      → 0 < ttl
      → ttl ≤ elapsed es
      → (lock_run srv key (es ++ acquire w ms ∷ []) s).0 ≢ []
  unfolding lock_run lock_step
  lock_run_progress [] w ms ttl holder s held now _ pos h = absurd (omega arith)
  lock_run_progress (acquire v t ∷ es) w ms ttl holder s held now (_, ts) pos h =
      rw (laws.set_px_nx_taken key v t s (holder, some ttl) held)
        (lock_run_progress es w ms ttl holder s held now ts pos h)
  lock_run_progress (release v ∷ es) w ms ttl holder s held now (_, ts) pos h =
      elim (Bool-cases (text_eq holder v)) [
        | inl own ↦ free_progress es w ms _ now ts (release_own v (holder, some ttl) s held own)
        | inr differ ↦
            lock_run_progress es w ms ttl holder _
              (release_foreign v (holder, some ttl) s held differ) now ts pos h
      ]
  lock_run_progress (wait d ∷ es) w ms ttl holder s held now (_, ts) pos h =
      elim (Bool-cases (ltb d ttl)) [
        | inl within ↦
            lock_run_progress es w ms (ttl - d) holder (srv.elapse d s)
              (laws.entry-elapse d key s ∙ ap (aged d) held ∙ rw within refl) now ts (ground arith)
              (ground arith)
        | inr over ↦
            free_progress es w ms (srv.elapse d s) now ts
              (laws.entry-elapse d key s ∙ ap (aged d) held ∙ rw over refl)
      ]
