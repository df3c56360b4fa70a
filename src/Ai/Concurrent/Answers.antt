-- ===== src/Ai/Concurrent/Answers.antt =====
-- What concurrent requests answer.
use tech_trends.Base.{
  ℕ, zero, suc, ◌<◌, ◌≡◌, refl, sym, ap, ◌∙◌, subst, ◌⊎◌, inl, inr, Bool, true, if◌then◌else◌,
  false, List, [], ◌∷◌, Option, none, some, some_injective, append_cancel_left, units, Bool-cases,
  ltb, Text,
}
use tech_trends.Common.Text.Matchers.{trim}
use tech_trends.Redis.Server.{Server, ServerLaws, Client, Entry, value_of, aged}
use tech_trends.Redis.Service.{read_cache}
use tech_trends.Trends.Data.{Vector}
use tech_trends.Ai.Search.{first_vector, usable, read_vector, lock_ttl_ms, max_polls}
use tech_trends.Ai.Concurrent.{
  Place, arriving, reading, locking, sleeping, checking, queued, calling, storing, releasing,
  answered, next_round, after_check, after_read, after_reply, rejected, Requests, normalized,
  cache_key, lock_key, read_at, turn, Move, proceed, reject, call, reply, fail, System, Step, pick,
  wait, Reach, here, later, opened,
}
use tech_trends.Ai.Concurrent.Places.{moved-All}
use tech_trends.Ai.Concurrent.Frame.{turn-cache}

module _ {S : Type 0} (r : Requests S) where
  -- The vector is one that the model gives for the text.
  abbrev pub IsEmbedding : Text → Vector → Type 0
  IsEmbedding text v =
      (vectors : List Vector) × r.Replies text vectors × (first_vector vectors ≡ some v)

  -- JSON keeps the vectors of the model, no JSON is the empty text, and entries expire.
  pub record RequestsLaws : Type 0 where
    pub parse_empty : r.parse [] ≡ none
    pub parse_stringify :
        (text : Text) (v : Vector)
        → IsEmbedding text v
        → (j : r.Json) × (r.parse (r.stringify v) ≡ some j) × (r.array_of j ≡ some v)
    pub ttl_positive : 0 < r.embedding_ttl_seconds

usable-first_vector :
    (vectors : List Vector) (v : Vector) → first_vector vectors ≡ some v → usable (some v) ≡ some v
usable-first_vector [] v h = cc
usable-first_vector ([] ∷ vectors) v h = cc
usable-first_vector ((x ∷ w) ∷ vectors) v h = rw (sym (some_injective h))

-- The vector that a request carries.
abbrev pub vector_at : Place → Option Vector
vector_at (storing since v) = some v
vector_at (releasing since outcome) = outcome
vector_at (answered outcome) = outcome
vector_at p = none

none-ne-some : {v : Vector} → ¬ (◌≡◌ {A = Option Vector} none (some v))
none-ne-some p = cc

vector_at-after_check : (text : Text) → vector_at (after_check text) ≡ none
vector_at-after_check [] = refl
vector_at-after_check (a ∷ rest) = refl

vector_at-after_read :
    (p : Place) (o : Option Vector) → vector_at p ≡ none → vector_at (after_read p o) ≡ o
vector_at-after_read p none h = h
vector_at-after_read p (some v) h = refl

vector_at-next_round : (now left : ℕ) → vector_at (next_round now left) ≡ none
vector_at-next_round now zero = refl
vector_at-next_round now (suc left) = refl

vector_at-after_reply : (t : ℕ) (o : Option Vector) → vector_at (after_reply t o) ≡ o
vector_at-after_reply t none = refl
vector_at-after_reply t (some v) = refl

vector_at-either :
    (b : Bool) (p q : Place)
    → vector_at p ≡ none
    → vector_at q ≡ none
    → vector_at (if b then p else q) ≡ none
vector_at-either true p q g h = g
vector_at-either false p q g h = h

vector_at-rejected : (p : Place) → vector_at (rejected p) ≡ none
vector_at-rejected (storing since v) = refl
vector_at-rejected p = refl

pub aged-value :
    (d : ℕ) (o : Option Entry) → (value_of (aged d o) ≡ none) ⊎ (value_of (aged d o) ≡ value_of o)
aged-value d none = inl refl
aged-value d (some (w, none)) = inr refl
aged-value d (some (w, some ms)) = elim (Bool-cases (ltb d ms)) [
  | inl live ↦ inr (rw live)
  | inr over ↦ inl (rw over)
]

module _ (srv : Server) (laws : ServerLaws srv) (c : Client srv) (r : Requests c.State)
    (requests : RequestsLaws r) where
  -- What a text reads as.
  abbrev pub read_text : Option Text → Option Vector
  read_text o = read_vector srv c r.embedder (read_cache r.parse o)

  -- A vector of the model that is written reads back.
  pub read_text-stringify :
      (text : Text) (v : Vector) → IsEmbedding r text v → read_text (some (r.stringify v)) ≡ some v
  read_text-stringify text v (vectors, replied, first) =
      let (j, parses, array) = requests.parse_stringify text v (vectors, replied, first) in
      parsed_text (r.stringify v) j parses ∙ ap usable array ∙ usable-first_vector vectors v first
    where
      parsed_text :
          (w : Text) (j : r.Json) → r.parse w ≡ some j → read_text (some w) ≡ usable (r.array_of j)
      parsed_text [] j h = absurd (none-ne-some (sym requests.parse_empty ∙ h))
        where
          none-ne-some : ¬ (◌≡◌ {A = Option r.Json} none (some j))
          none-ne-some p = cc
      parsed_text (a ∷ w) j h = rw h refl

  pub read_at-entry :
      (key : Text) (s : srv.Keyspace)
      → read_at srv c r key s ≡ read_text (value_of (srv.entry s key))
  read_at-entry key s = ap read_text (laws.get_lem key s)

  -- The vectors that a request carries, and those that are cached, are of the query they stand for.
  abbrev pub IsSoundPlace : ℕ → Place → Type 0
  IsSoundPlace i p = (v : Vector) → vector_at p ≡ some v → IsEmbedding r (normalized srv c r i) v

  abbrev pub IsSoundCache : srv.Keyspace → Type 0
  IsSoundCache s =
      (i : ℕ) (v : Vector)
      → read_at srv c r (cache_key srv c r i) s ≡ some v
      → IsEmbedding r (normalized srv c r i) v

  turn-IsSoundPlace :
      (i now : ℕ) (p : Place) (s : srv.Keyspace)
      → IsSoundCache s
      → IsSoundPlace i p
      → IsSoundPlace i (turn srv c r i now p s).0
  unfolding turn
  turn-IsSoundPlace i now arriving s cache old v e =
      absurd (none-ne-some (sym (vector_at-after_check (trim (r.query i))) ∙ e))
  turn-IsSoundPlace i now reading s cache old v e =
      cache i v (sym (vector_at-after_read locking _ refl) ∙ e)
  turn-IsSoundPlace i now (sleeping left w) s cache old v e =
      cache i v (sym (vector_at-after_read (checking left) _ refl) ∙ e)
  turn-IsSoundPlace i now locking s cache old v e = absurd (
      none-ne-some (
        sym (
          vector_at-either (srv.set_px_nx (lock_key srv c r i) (r.lock_value i) lock_ttl_ms s).0
            (queued now) (next_round now max_polls) refl (vector_at-next_round now max_polls))
        ∙ e))
  turn-IsSoundPlace i now (checking left) s cache old v e = absurd (
      none-ne-some (
        sym (
          vector_at-either (srv.exists (lock_key srv c r i) s) (next_round now left) (answered none)
            (vector_at-next_round now left) refl)
        ∙ e))
  turn-IsSoundPlace i now (storing since w) s cache old v e = old v e
  turn-IsSoundPlace i now (releasing since o) s cache old v e = old v e
  turn-IsSoundPlace i now (calling since) s cache old v e = old v e
  turn-IsSoundPlace i now (queued since) s cache old v e = old v e
  turn-IsSoundPlace i now (answered o) s cache old v e = old v e

  same_query :
      (i j : ℕ)
      → cache_key srv c r i ≡ cache_key srv c r j
      → normalized srv c r i ≡ normalized srv c r j
  same_query i j e =
      append_cancel_left (units ":") _ _
        (append_cancel_left r.embedding_model_name _ _ (append_cancel_left (units "emb:") _ _ e))

  turn-IsSoundCache :
      (i now : ℕ) (p : Place) (s : srv.Keyspace)
      → IsSoundCache s
      → IsSoundPlace i p
      → IsSoundCache (turn srv c r i now p s).1
  turn-IsSoundCache i now p s cache old j v e =
      elim (turn-cache srv laws c r i j now p s requests.ttl_positive) [
        | inl same ↦ cache j v (
            read_at-entry (cache_key srv c r j) s
            ∙ ap (λ o. read_text (value_of o)) (sym same)
            ∙ sym (read_at-entry (cache_key srv c r j) (turn srv c r i now p s).1)
            ∙ e)
        | inr w ↦
            let mine = old w.vector (ap vector_at w.storing_here) in
            let back : w.vector ≡ v = some_injective (
              sym (read_text-stringify _ w.vector mine)
              ∙ sym (ap (λ o. read_text (value_of o)) w.entry_written)
              ∙ sym (read_at-entry (cache_key srv c r j) (turn srv c r i now p s).1)
              ∙ e) in
            subst (λ q. IsEmbedding r q v) (sym (same_query j i w.same_key))
              (subst (IsEmbedding r (normalized srv c r i)) back mine)
      ]

  elapse-IsSoundCache : (d : ℕ) (s : srv.Keyspace) → IsSoundCache s → IsSoundCache (srv.elapse d s)
  elapse-IsSoundCache d s cache j v e =
      let key = cache_key srv c r j in
      let read : read_text (value_of (aged d (srv.entry s key))) ≡ some v =
        ap (λ o. read_text (value_of o)) (sym (laws.entry-elapse d key s))
        ∙ sym (read_at-entry key (srv.elapse d s))
        ∙ e in
      elim (aged-value d (srv.entry s key)) [
        | inl gone ↦ absurd (none-ne-some (sym (ap read_text gone) ∙ read))
        | inr kept ↦ cache j v (read_at-entry key s ∙ ap read_text (sym kept) ∙ read)
      ]

  -- The requests and the cache are sound together.
  abbrev pub IsSound : System srv c r → Type 0
  IsSound y = IsSoundCache y.keyspace × ((i : ℕ) → IsSoundPlace i (y.place i))

  Move-IsSound :
      {i now running : ℕ} {s : srv.Keyspace} {p : Place} {running' : ℕ} {s' : srv.Keyspace}
      {p' : Place}
      → Move srv c r i now running s p running' s' p'
      → IsSoundCache s
      → IsSoundPlace i p
      → IsSoundCache s' × IsSoundPlace i p'
  Move-IsSound {i} {now} {s = s} {p = p} (proceed _) cache old =
      (turn-IsSoundCache i now p s cache old, turn-IsSoundPlace i now p s cache old)
  Move-IsSound {i} {now} {s = s} {p = p} (reject true _ _) cache old = (
    turn-IsSoundCache i now p s cache old,
    λ v e. absurd (none-ne-some (sym (vector_at-rejected p) ∙ e)),
  )
  Move-IsSound {p = p} (reject false _ _) cache old =
      (cache, λ v e. absurd (none-ne-some (sym (vector_at-rejected p) ∙ e)))
  Move-IsSound (call _) cache old = (cache, old)
  Move-IsSound (reply {since} {vectors} replied) cache old = (
    cache,
    λ v e. (vectors, replied, sym (vector_at-after_reply since (first_vector vectors)) ∙ e),
  )
  Move-IsSound fail cache old = (cache, old)

  pub Step-IsSound : {n : ℕ} {y z : System srv c r} → Step srv c r n y z → IsSound y → IsSound z
  Step-IsSound {y = y} (wait d) (cache, sound) = (elapse-IsSoundCache d y.keyspace cache, sound)
  Step-IsSound {y = y} (pick i {p = p} less mv) (cache, sound) =
      let (cache', own) = Move-IsSound mv cache (sound i) in
      (cache', moved-All IsSoundPlace i p y.place own (λ j _. sound j))

  pub Reach-IsSound : {n : ℕ} {y z : System srv c r} → Reach srv c r n y z → IsSound y → IsSound z
  Reach-IsSound here sound = sound
  Reach-IsSound (later before step) sound = Step-IsSound step (Reach-IsSound before sound)

  -- Where what is cached at the start is sound: whatever the order of the steps, a vector that a
  -- request answers is one that the model gave for the normalised query of this very request.
  pub answered-IsEmbedding :
      (n now : ℕ) (s : srv.Keyspace) (y : System srv c r)
      → IsSoundCache s
      → Reach srv c r n (opened srv c r now s) y
      → (i : ℕ) (v : Vector) → y.place i ≡ answered (some v)
      → IsEmbedding r (normalized srv c r i) v
  answered-IsEmbedding n now s y cache reach i v e =
      (Reach-IsSound reach (cache, λ j w h. absurd (none-ne-some h))).1 i v (ap vector_at e)
