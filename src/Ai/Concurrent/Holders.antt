-- ===== src/Ai/Concurrent/Holders.antt =====
-- Who holds the lock of a query while many requests run.
use tech_trends.Base.{
  ℕ, zero, suc, ◌+◌, ◌-◌, ◌≤◌, ◌<◌, ◌≡◌, ◌≢◌, refl, sym, ap, ◌∙◌, inl, inr, Bool, true, false, [],
  ◌∷◌, Option, none, some, arith, if◌then◌else◌, some_injective, Option-cases, Text, text_eq_refl,
}
use tech_trends.Common.Text.Matchers.{trim}
use tech_trends.Redis.Server.{Server, ServerLaws, Client, Entry, aged}
use tech_trends.Trends.Data.{Vector}
use tech_trends.Ai.Search.{first_vector, lock_ttl_ms, max_polls}
use tech_trends.Ai.Concurrent.{
  Place, arriving, reading, locking, sleeping, checking, queued, calling, storing, releasing,
  answered, next_round, after_check, after_read, after_reply, rejected, Requests, cache_key,
  lock_key, read_at, turn, Move, proceed, reject, call, reply, fail, System, Step, pick, wait,
  Reach, here, later, opened,
}
use tech_trends.Ai.Concurrent.Places.{moved-All}
use tech_trends.Ai.Concurrent.Frame.{turn-lock, written-keeps}

-- Since when a request holds its lock: from `acquireLock` to `releaseLock`.
abbrev pub held_since : Place → Option ℕ
held_since (queued since) = some since
held_since (calling since) = some since
held_since (storing since v) = some since
held_since (releasing since outcome) = some since
held_since p = none

none-ne-some : {t : ℕ} → ¬ (◌≡◌ {A = Option ℕ} none (some t))
none-ne-some p = cc

after_check-free : (text : Text) → held_since (after_check text) ≡ none
after_check-free [] = refl
after_check-free (a ∷ rest) = refl

after_read-free :
    (p : Place) (v : Option Vector) → held_since p ≡ none → held_since (after_read p v) ≡ none
after_read-free p none h = h
after_read-free p (some v) h = refl

next_round-free : (now left : ℕ) → held_since (next_round now left) ≡ none
next_round-free now zero = refl
next_round-free now (suc left) = refl

after_reply-since : (t : ℕ) (v : Option Vector) → held_since (after_reply t v) ≡ some t
after_reply-since t none = refl
after_reply-since t (some v) = refl

pub aged-live :
    (d ms : ℕ) (v : Text) → d < ms → aged d (some (v, some ms)) ≡ some (v, some (ms - d))
aged-live d ms v h = ground arith

either-free :
    (b : Bool) (p q : Place)
    → held_since p ≡ none
    → held_since q ≡ none
    → held_since (if b then p else q) ≡ none
either-free true p q g h = g
either-free false p q g h = h

module _ (srv : Server) (laws : ServerLaws srv) (c : Client srv) (r : Requests c.State) where
  -- What holds of request `i` that took its lock at `t`.
  abbrev pub Held : ℕ → ℕ → srv.Keyspace → ℕ → Type 0
  Held i now s t =
      (t ≤ now)
      × (now < t + lock_ttl_ms
          → srv.entry s (lock_key srv c r i) ≡ some (r.lock_value i, some (t + lock_ttl_ms - now)))

  -- A move of one request keeps what another one holds.
  Move-other :
      {i now running : ℕ} {s : srv.Keyspace} {p : Place} {running' : ℕ} {s' : srv.Keyspace}
      {p' : Place} (j t : ℕ)
      → Move srv c r i now running s p running' s' p'
      → r.lock_value i ≢ r.lock_value j
      → Held j now s t
      → Held j now s' t
  Move-other {i} {now} {s = s} {p = p} j t (proceed _) other (past, held) =
      (past, λ h. turn-lock srv laws c r i j now p s _ _ other (held h))
  Move-other {i} {now} {s = s} {p = p} j t (reject true _ _) other (past, held) =
      (past, λ h. turn-lock srv laws c r i j now p s _ _ other (held h))
  Move-other j t (reject false _ _) other h = h
  Move-other j t (call _) other h = h
  Move-other j t (reply _) other h = h
  Move-other j t fail other h = h

  -- The request that moves: what it holds after the step it holds from before, or takes now.
  turn-own :
      (i now : ℕ) (p : Place) (s : srv.Keyspace) (t : ℕ)
      → ((u : ℕ) → held_since p ≡ some u → Held i now s u)
      → held_since (turn srv c r i now p s).0 ≡ some t
      → Held i now (turn srv c r i now p s).1 t
  unfolding turn
  turn-own i now arriving s t old e =
      absurd (none-ne-some (sym (after_check-free (trim (r.query i))) ∙ e))
  turn-own i now reading s t old e = absurd (
      none-ne-some
        (sym (after_read-free locking (read_at srv c r (cache_key srv c r i) s) refl) ∙ e))
  turn-own i now (sleeping left wake) s t old e = absurd (
      none-ne-some
        (sym (after_read-free (checking left) (read_at srv c r (cache_key srv c r i) s) refl) ∙ e))
  turn-own i now (storing since v) s t old e =
      let (past, held) = old t e in
      (past, λ h. written-keeps srv laws c r _ (lock_key srv c r i) v s refl ∙ held h)
  turn-own i now (checking left) s t old e = absurd (
      none-ne-some (
        sym (either-free (srv.exists (lock_key srv c r i) s) _ _ (next_round-free now left) refl)
        ∙ e))
  turn-own i now locking s t old e =
      let key = lock_key srv c r i in
      let value = r.lock_value i in
      elim (Option-cases (srv.entry s key)) [
        | inr (other, taken) ↦
            let kept = laws.set_px_nx_taken key value lock_ttl_ms s other taken in
            absurd (none-ne-some (sym (ap (λ o. placed o.0) kept) ∙ e))
        | inl free ↦
            let set = laws.set_px_nx_free key value lock_ttl_ms s (omega arith) free in
            let now_is : now ≡ t = some_injective (sym (ap (λ o. placed o.0) set) ∙ e) in
            (
              omega (arith, now_is),
              λ h.
                  ap (λ o. srv.entry o.1 key) set
                  ∙ laws.entry-set_px key value lock_ttl_ms key s (omega arith)
                  ∙ rw (text_eq_refl key) (ap (λ k. some (value, some k)) (omega (arith, now_is))),
            )
      ]
    where
      placed : Bool → Option ℕ
      placed set = held_since (if set then queued now else next_round now max_polls)
  turn-own i now (releasing since outcome) s t old e = absurd (none-ne-some e)
  turn-own i now (queued since) s t old e = old t e
  turn-own i now (calling since) s t old e = old t e
  turn-own i now (answered outcome) s t old e = absurd (none-ne-some e)

  rejected-free :
      (p : Place) (t : ℕ) → held_since (rejected p) ≡ some t → (v : Vector) × (p ≡ storing t v)
  rejected-free (storing since v) t e = (v, ap (λ k. storing k v) (some_injective e))
  rejected-free p t e = absurd (none-ne-some e)

  Move-own :
      {i now running : ℕ} {s : srv.Keyspace} {p : Place} {running' : ℕ} {s' : srv.Keyspace}
      {p' : Place} (t : ℕ)
      → Move srv c r i now running s p running' s' p'
      → ((u : ℕ) → held_since p ≡ some u → Held i now s u)
      → held_since p' ≡ some t
      → Held i now s' t
  unfolding turn
  Move-own {i} {now} {s = s} {p = p} t (proceed _) old e = turn-own i now p s t old e
  Move-own {p = p} t (reject false _ _) old e = old t (ap held_since (rejected-free p t e).1)
  Move-own {i} {now} {s = s} {p = p} t (reject true _ _) old e =
      turn-own i now p s t old
        (ap (λ q. held_since (turn srv c r i now q s).0) (rejected-free p t e).1)
  Move-own t (call _) old e = old t e
  Move-own t (reply {since} {vectors} _) old e =
      old t (sym (after_reply-since since (first_vector vectors)) ∙ e)
  Move-own t fail old e = old t e

  -- Every request that has taken its lock holds it until the time of the lock runs out.
  abbrev pub AllHeld : System srv c r → Type 0
  AllHeld y = (i t : ℕ) → held_since (y.place i) ≡ some t → Held i y.now y.keyspace t

  Held-wait :
      (i now d t : ℕ) (s : srv.Keyspace) → Held i now s t → Held i (now + d) (srv.elapse d s) t
  Held-wait i now d t s (past, held) = (
    omega (arith, past),
    λ h.
        laws.entry-elapse d (lock_key srv c r i) s
        ∙ ap (aged d) (held (omega arith))
        ∙ aged-live _ _ _ (omega arith)
        ∙ ap (λ k. some (r.lock_value i, some k)) (omega arith),
  )

  Step-AllHeld :
      {n : ℕ} {y z : System srv c r}
      → ((i j : ℕ) → r.lock_value i ≡ r.lock_value j → i ≡ j)
      → Step srv c r n y z
      → AllHeld y
      → AllHeld z
  Step-AllHeld {y = y} distinct (wait d) all = λ i t e. Held-wait i y.now d t y.keyspace (all i t e)
  Step-AllHeld {y = y} distinct (pick j {s = s} {p = p} _ mv) all =
      moved-All (λ i q. (t : ℕ) → held_since q ≡ some t → Held i y.now s t) j p y.place
        (λ t. Move-own t mv (all j))
        (λ i differ t e. Move-other i t mv (λ h. differ (distinct j i h)) (all i t e))

  pub Reach-AllHeld :
      {n : ℕ} {y z : System srv c r}
      → ((i j : ℕ) → r.lock_value i ≡ r.lock_value j → i ≡ j)
      → Reach srv c r n y z
      → AllHeld y
      → AllHeld z
  Reach-AllHeld distinct here all = all
  Reach-AllHeld distinct (later before step) all =
      Step-AllHeld distinct step (Reach-AllHeld distinct before all)

  -- Where the values drawn for the locks differ, whatever the order of the steps of all the requests
  -- from the first on: two requests of one query that both took the lock less than ten seconds ago,
  -- and have not given it back, are the same request.
  pub held_since_unique :
      (n now : ℕ) (s : srv.Keyspace) (y : System srv c r)
      → ((i j : ℕ) → r.lock_value i ≡ r.lock_value j → i ≡ j)
      → Reach srv c r n (opened srv c r now s) y
      → (i j t u : ℕ) → lock_key srv c r i ≡ lock_key srv c r j
      → held_since (y.place i) ≡ some t
      → held_since (y.place j) ≡ some u
      → y.now < t + lock_ttl_ms
      → y.now < u + lock_ttl_ms
      → i ≡ j
  held_since_unique n now s y distinct reach i j t u same_query at_i at_j fresh_i fresh_j =
      let all = Reach-AllHeld distinct reach (λ k v e. absurd (none-ne-some e)) in
      distinct i j (
        ap holder (
          some_injective (
            sym ((all i t at_i).1 fresh_i)
            ∙ ap (srv.entry y.keyspace) same_query
            ∙ (all j u at_j).1 fresh_j)))
    where
      holder : Entry → Text
      holder o = o.0
