-- ===== src/Ai/Concurrent/Cached.antt =====
-- Requests that come, or wait, while a vector of their query is cached.
use tech_trends.Base.{
  ℕ, zero, suc, ◌+◌, ◌-◌, ◌*◌, ◌≤◌, ◌<◌, ◌≡◌, refl, sym, ap, ◌∙◌, subst, inl, inr, Bool, true,
  false, none, if◌then◌else◌, [], ◌∷◌, Option, some, arith, Text,
}
use tech_trends.Common.Text.Matchers.{trim}
use tech_trends.Redis.Server.{Server, ServerLaws, Client, value_of, aged}
use tech_trends.Trends.Data.{Vector}
use tech_trends.Ai.Concurrent.{
  Place, arriving, reading, locking, sleeping, checking, storing, releasing, answered, read_at,
  after_check, after_read, next_round, lock_key, rejected, Requests, cache_key, turn, Move, proceed,
  reject, call, reply, fail, System, Step, pick, wait, Reach, here, later, opened,
}
use tech_trends.Ai.Concurrent.Places.{moved-All}
use tech_trends.Ai.Concurrent.Holders.{aged-live}
use tech_trends.Ai.Concurrent.Frame.{turn-cache}
use tech_trends.Ai.Concurrent.Answers.{
  RequestsLaws, vector_at, read_text, read_text-stringify, read_at-entry, IsSoundCache,
  IsSoundPlace, IsSound, Step-IsSound, Reach-IsSound,
}

-- A request that is not between a cache that had no vector and a call of the model: it comes, waits for
-- another request's vector, has its own, or has answered.
pub data IsServed : Place → Type 0 where
  comes : IsServed arriving
  reads_cache : IsServed reading
  pauses : {left wake : ℕ} → IsServed (sleeping left wake)
  looks : {left : ℕ} → IsServed (checking left)
  stores : {since : ℕ} {v : Vector} → IsServed (storing since v)
  frees : {since : ℕ} {outcome : Option Vector} → IsServed (releasing since outcome)
  has_answered : {outcome : Option Vector} → IsServed (answered outcome)

after_check-IsServed : (text : Text) → IsServed (after_check text)
after_check-IsServed [] = has_answered
after_check-IsServed (a ∷ rest) = reads_cache

rejected-IsServed : {p : Place} → IsServed p → IsServed (rejected p)
rejected-IsServed comes = has_answered
rejected-IsServed reads_cache = has_answered
rejected-IsServed pauses = has_answered
rejected-IsServed looks = has_answered
rejected-IsServed stores = frees
rejected-IsServed frees = has_answered
rejected-IsServed has_answered = has_answered

looked-IsServed :
    (b : Bool) (now left : ℕ) → IsServed (if b then next_round now left else answered none)
looked-IsServed true now zero = has_answered
looked-IsServed true now (suc left) = pauses
looked-IsServed false now left = has_answered

module _ (srv : Server) (laws : ServerLaws srv) (c : Client srv) (r : Requests c.State)
    (requests : RequestsLaws r) where
  -- A vector of the query of request `i` is cached, until the time `until` at least.
  pub record IsCached (i until now : ℕ) (s : srv.Keyspace) : Type 0 where
    pub text : Text
    pub ms : ℕ
    pub vector : Vector
    pub entry : srv.entry s (cache_key srv c r i) ≡ some (text, some ms)
    pub lasts : until ≤ now + ms
    pub reads : read_text srv laws c r requests (some text) ≡ some vector

  turn-IsCached :
      (i j until now : ℕ) (p : Place) (s : srv.Keyspace)
      → until ≤ now + r.embedding_ttl_seconds * 1000
      → IsSoundPlace srv laws c r requests j p
      → IsCached i until now s
      → IsCached i until now (turn srv c r j now p s).1
  turn-IsCached i j until now p s short sound cached =
      elim (turn-cache srv laws c r j i now p s requests.ttl_positive) [
        | inl same ↦ record {
          text = cached.text;
          ms = cached.ms;
          vector = cached.vector;
          entry = same ∙ cached.entry;
          lasts = cached.lasts;
          reads = cached.reads;
        }
        | inr w ↦ record {
          text = r.stringify w.vector;
          ms = r.embedding_ttl_seconds * 1000;
          vector = w.vector;
          entry = w.entry_written;
          lasts = short;
          reads =
              read_text-stringify srv laws c r requests _ w.vector
                (sound w.vector (ap vector_at w.storing_here));
        }
      ]

  elapse-IsCached :
      (i until now d : ℕ) (s : srv.Keyspace)
      → now + d < until
      → IsCached i until now s
      → IsCached i until (now + d) (srv.elapse d s)
  elapse-IsCached i until now d s early cached = record {
    text = cached.text;
    ms = cached.ms - d;
    vector = cached.vector;
    entry =
        laws.entry-elapse d (cache_key srv c r i) s
        ∙ ap (aged d) cached.entry
        ∙ aged-live d cached.ms cached.text (omega (arith, early, cached.lasts));
    lasts = omega (arith, early, cached.lasts);
    reads = cached.reads;
  }

  cached-read :
      (i until now : ℕ) (s : srv.Keyspace)
      → IsCached i until now s
      → (v : Vector) × (read_at srv c r (cache_key srv c r i) s ≡ some v)
  cached-read i until now s cached = (
    cached.vector,
    read_at-entry srv laws c r requests (cache_key srv c r i) s
        ∙ ap (λ o. read_text srv laws c r requests (value_of o)) cached.entry
        ∙ cached.reads,
  )

  turn-IsServed :
      (i until now : ℕ) (p : Place) (s : srv.Keyspace)
      → IsCached i until now s
      → IsServed p
      → IsServed (turn srv c r i now p s).0
  unfolding turn
  turn-IsServed i until now p s cached comes = after_check-IsServed (trim (r.query i))
  turn-IsServed i until now p s cached reads_cache =
      subst (λ o. IsServed (after_read locking o)) (sym (cached-read i until now s cached).1)
        has_answered
  turn-IsServed i until now p s cached (pauses {left}) =
      subst (λ o. IsServed (after_read (checking left) o))
        (sym (cached-read i until now s cached).1) has_answered
  turn-IsServed i until now p s cached (looks {left}) =
      looked-IsServed (srv.exists (lock_key srv c r i) s) now left
  turn-IsServed i until now p s cached stores = frees
  turn-IsServed i until now p s cached frees = has_answered
  turn-IsServed i until now p s cached has_answered = has_answered

  Move-IsServed :
      {i now running : ℕ} {s : srv.Keyspace} {p : Place} {running' : ℕ} {s' : srv.Keyspace}
      {p' : Place} (until : ℕ)
      → Move srv c r i now running s p running' s' p'
      → IsCached i until now s
      → IsServed p
      → IsServed p'
  Move-IsServed {i} {now} {s = s} {p = p} until (proceed _) cached h =
      turn-IsServed i until now p s cached h
  Move-IsServed until (reject _ _ _) cached h = rejected-IsServed h
  Move-IsServed until (call _) cached h = elim h [ ]
  Move-IsServed until (reply _) cached h = elim h [ ]
  Move-IsServed until fail cached h = elim h [ ]

  Move-IsCached :
      {j now running : ℕ} {s : srv.Keyspace} {p : Place} {running' : ℕ} {s' : srv.Keyspace}
      {p' : Place} (i until : ℕ)
      → Move srv c r j now running s p running' s' p'
      → until ≤ now + r.embedding_ttl_seconds * 1000
      → IsSoundPlace srv laws c r requests j p
      → IsCached i until now s
      → IsCached i until now s'
  Move-IsCached {j} {now} {s = s} {p = p} i until (proceed _) short sound cached =
      turn-IsCached i j until now p s short sound cached
  Move-IsCached {j} {now} {s = s} {p = p} i until (reject true _ _) short sound cached =
      turn-IsCached i j until now p s short sound cached
  Move-IsCached i until (reject false _ _) short sound cached = cached
  Move-IsCached i until (call _) short sound cached = cached
  Move-IsCached i until (reply _) short sound cached = cached
  Move-IsCached i until fail short sound cached = cached

  -- What stays true of the system from then on, until that time.
  record Serves (i until : ℕ) (y : System srv c r) : Type 0 where
    sound : IsSound srv laws c r requests y
    short : until ≤ y.now + r.embedding_ttl_seconds * 1000
    cached : IsCached i until y.now y.keyspace
    served : IsServed (y.place i)

  Step-Serves :
      {n i until : ℕ} {y z : System srv c r}
      → Step srv c r n y z
      → z.now < until
      → Serves i until y
      → Serves i until z
  Step-Serves {n} {i} {until} {y} (wait d) early now_serves = record {
    sound = Step-IsSound srv laws c r requests {n = n} {y = y} (wait d) now_serves.sound;
    short = omega (arith, now_serves.short);
    cached = elapse-IsCached i until y.now d y.keyspace early now_serves.cached;
    served = now_serves.served;
  }
  Step-Serves {n} {i} {until} {y} (pick j {p = p} less mv) early now_serves = record {
    sound = Step-IsSound srv laws c r requests (pick j less mv) now_serves.sound;
    short = now_serves.short;
    cached = Move-IsCached i until mv now_serves.short (now_serves.sound.1 j) now_serves.cached;
    served =
        moved-All (λ k q. k ≡ i → IsServed q) j p y.place
          (λ e.
            Move-IsServed until mv
              (subst (λ k. IsCached k until y.now y.keyspace) (sym e) now_serves.cached)
              (subst (λ k. IsServed (y.place k)) (sym e) now_serves.served))
          (λ k _ e. subst (λ k. IsServed (y.place k)) (sym e) now_serves.served) i refl;
  }

  Step-now : {n : ℕ} {y z : System srv c r} → Step srv c r n y z → y.now ≤ z.now
  Step-now (wait d) = omega arith
  Step-now (pick i less mv) = omega arith

  Reach-Serves :
      {n i until : ℕ} {y z : System srv c r}
      → Reach srv c r n y z
      → z.now < until
      → Serves i until y
      → Serves i until z
  Reach-Serves here early serves = serves
  Reach-Serves {until = until} (later {u} before step) early serves =
      let sooner : u.now < until = omega (arith, early, Step-now step) in
      Step-Serves step early (Reach-Serves before sooner serves)

  -- While a vector of its query is cached, for no longer than entries are kept from then on: a request
  -- that is not already on its way from a cache without one to the model does not get there. Whether
  -- it is yet to come or waits for another request's vector, it never takes the lock and never calls
  -- the model, whatever the others do. What was cached at first is sound.
  pub cached-IsServed :
      (n now : ℕ) (s : srv.Keyspace) (y z : System srv c r)
      → IsSoundCache srv laws c r requests s
      → Reach srv c r n (opened srv c r now s) y
      → (i until : ℕ) → IsCached i until y.now y.keyspace
      → until ≤ y.now + r.embedding_ttl_seconds * 1000
      → IsServed (y.place i)
      → Reach srv c r n y z
      → z.now < until
      → IsServed (z.place i)
  cached-IsServed n now s y z cache before i until cached short place after early =
      (Reach-Serves after early (record {
        sound = Reach-IsSound srv laws c r requests before (cache, λ j v e. cc);
        short = short;
        cached = cached;
        served = place;
      })).served
