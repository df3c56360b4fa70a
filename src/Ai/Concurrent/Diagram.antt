-- ===== src/Ai/Concurrent/Diagram.antt =====
-- The places of one request as a diagram, with the keyspace left out.
use tech_trends.Base.{
  ℕ, zero, suc, ◌+◌, ◌*◌, ◌<◌, ◌≡◌, refl, Bool, true, false, if◌then◌else◌, [], ◌∷◌, Option, none,
  some, arith, Text,
}
use tech_trends.Common.Text.Matchers.{trim}
use tech_trends.Redis.Server.{Server, Client}
use tech_trends.Trends.Data.{Vector}
use tech_trends.Ai.Search.{first_vector, max_polls, lock_ttl_ms}
use tech_trends.Ai.Concurrent.Places.{is_call}
use tech_trends.Ai.Concurrent.{
  Place, arriving, reading, locking, sleeping, checking, queued, calling, storing, releasing,
  answered, next_round, after_check, after_read, after_reply, rejected, is_ready, is_command,
  Requests, cache_key, lock_key, read_at, turn, Move, proceed, reject, call, reply, fail,
}

infix 40 ◌⟶◌
pub data ◌⟶◌ : Place → Place → Type 0 where
  enter : arriving ⟶ reading
  refuse : arriving ⟶ answered none
  hit : {v : Vector} → reading ⟶ answered (some v)
  miss : reading ⟶ locking
  lock : {t : ℕ} → locking ⟶ queued t
  busy : {w : ℕ} → locking ⟶ sleeping 24 w
  found : {left w : ℕ} {v : Vector} → sleeping left w ⟶ answered (some v)
  look : {left w : ℕ} → sleeping left w ⟶ checking left
  again : {left w : ℕ} → checking (suc left) ⟶ sleeping left w
  give_up : {left : ℕ} → checking left ⟶ answered none
  start : {t : ℕ} → queued t ⟶ calling t
  embedded : {t : ℕ} {v : Vector} → calling t ⟶ storing t v
  nothing : {t : ℕ} → calling t ⟶ releasing t none
  stored : {t : ℕ} {v : Vector} → storing t v ⟶ releasing t (some v)
  unstored : {t : ℕ} {v : Vector} → storing t v ⟶ releasing t none
  released : {t : ℕ} {o : Option Vector} → releasing t o ⟶ answered o
  unreleased : {t : ℕ} {o : Option Vector} → releasing t o ⟶ answered none
  unread : reading ⟶ answered none
  unlocked : locking ⟶ answered none
  unfound : {left w : ℕ} → sleeping left w ⟶ answered none

after_check-goes : (text : Text) → arriving ⟶ after_check text
after_check-goes [] = refuse
after_check-goes (a ∷ rest) = enter

reading-goes : (v : Option Vector) → reading ⟶ after_read locking v
reading-goes none = miss
reading-goes (some v) = hit

sleeping-goes : (left w : ℕ) (v : Option Vector) → sleeping left w ⟶ after_read (checking left) v
sleeping-goes left w none = look
sleeping-goes left w (some v) = found

locking-goes : (b : Bool) (now : ℕ) → locking ⟶ (if b then queued now else next_round now max_polls)
locking-goes true now = lock
locking-goes false now = busy

checking-goes :
    (b : Bool) (now left : ℕ) → checking left ⟶ (if b then next_round now left else answered none)
checking-goes true now zero = give_up
checking-goes true now (suc left) = again
checking-goes false now left = give_up

reply-goes : (t : ℕ) (v : Option Vector) → calling t ⟶ after_reply t v
reply-goes t none = nothing
reply-goes t (some v) = embedded

pub reject-goes :
    (now : ℕ) (p : Place) → is_ready now p ≡ true → is_command p ≡ true → p ⟶ rejected p
reject-goes now arriving h k = cc
reject-goes now reading h k = unread
reject-goes now locking h k = unlocked
reject-goes now (sleeping left w) h k = unfound
reject-goes now (checking left) h k = give_up
reject-goes now (storing t v) h k = unstored
reject-goes now (releasing t o) h k = unreleased
reject-goes now (queued t) h k = cc
reject-goes now (calling t) h k = cc
reject-goes now (answered o) h k = cc

module _ (srv : Server) (c : Client srv) (r : Requests c.State) where
  pub turn-goes :
      (i now : ℕ) (p : Place) (s : srv.Keyspace)
      → is_ready now p ≡ true
      → p ⟶ (turn srv c r i now p s).0
  unfolding turn
  turn-goes i now arriving s h = after_check-goes (trim (r.query i))
  turn-goes i now reading s h = reading-goes (read_at srv c r (cache_key srv c r i) s)
  turn-goes i now (sleeping left w) s h =
      sleeping-goes left w (read_at srv c r (cache_key srv c r i) s)
  turn-goes i now locking s h =
      locking-goes (srv.set_px_nx (lock_key srv c r i) (r.lock_value i) lock_ttl_ms s).0 now
  turn-goes i now (checking left) s h = checking-goes (srv.exists (lock_key srv c r i) s) now left
  turn-goes i now (storing since v) s h = stored
  turn-goes i now (releasing since outcome) s h = released
  turn-goes i now (calling since) s h = cc
  turn-goes i now (queued since) s h = cc
  turn-goes i now (answered outcome) s h = cc

  -- Every move of a request is an edge.
  pub Move-goes :
      {i now running : ℕ} {s : srv.Keyspace} {p : Place} {running' : ℕ} {s' : srv.Keyspace}
      {p' : Place}
      → Move srv c r i now running s p running' s' p'
      → p ⟶ p'
  Move-goes {i} {now} {s = s} {p = p} (proceed ready) = turn-goes i now p s ready
  Move-goes {now = now} {p = p} (reject _ ready command) = reject-goes now p ready command
  Move-goes (call _) = start
  Move-goes (reply {since} {vectors} _) = reply-goes since (first_vector vectors)
  Move-goes fail = nothing

-- An upper bound on the moves that a request at a place still makes.
abbrev pub moves_left : Place → ℕ
moves_left arriving = 53
moves_left reading = 52
moves_left locking = 51
moves_left (sleeping left wake) = left * 2 + 2
moves_left (checking left) = left * 2 + 1
moves_left (queued since) = 4
moves_left (calling since) = 3
moves_left (storing since v) = 2
moves_left (releasing since outcome) = 1
moves_left (answered outcome) = 0

pub moves_left-less : {p q : Place} → p ⟶ q → moves_left q < moves_left p
moves_left-less enter = omega arith
moves_left-less refuse = omega arith
moves_left-less hit = omega arith
moves_left-less miss = omega arith
moves_left-less lock = omega arith
moves_left-less busy = omega arith
moves_left-less found = omega arith
moves_left-less look = omega arith
moves_left-less again = omega arith
moves_left-less give_up = omega arith
moves_left-less start = omega arith
moves_left-less embedded = omega arith
moves_left-less nothing = omega arith
moves_left-less stored = omega arith
moves_left-less unstored = omega arith
moves_left-less released = omega arith
moves_left-less unreleased = omega arith
moves_left-less unread = omega arith
moves_left-less unlocked = omega arith
moves_left-less unfound = omega arith

-- A step of a request's own is no end and no start of a call of the model.
pub is_ready-call :
    (now : ℕ) {p q : Place} → p ⟶ q → is_ready now p ≡ true → (is_call p ≡ 0) × (is_call q ≡ 0)
is_ready-call now enter h = (refl, refl)
is_ready-call now refuse h = (refl, refl)
is_ready-call now hit h = (refl, refl)
is_ready-call now miss h = (refl, refl)
is_ready-call now lock h = (refl, refl)
is_ready-call now busy h = (refl, refl)
is_ready-call now found h = (refl, refl)
is_ready-call now look h = (refl, refl)
is_ready-call now again h = (refl, refl)
is_ready-call now give_up h = (refl, refl)
is_ready-call now start h = cc
is_ready-call now embedded h = cc
is_ready-call now nothing h = cc
is_ready-call now stored h = (refl, refl)
is_ready-call now unstored h = (refl, refl)
is_ready-call now released h = (refl, refl)
is_ready-call now unreleased h = (refl, refl)
is_ready-call now unread h = (refl, refl)
is_ready-call now unlocked h = (refl, refl)
is_ready-call now unfound h = (refl, refl)
