-- ===== src/Ai/Concurrent/Permits.antt =====
-- The requests that are in the call of the model at once, and the permits that they take.
use tech_trends.Base.{ℕ, zero, suc, ◌+◌, ◌≤◌, ◌≡◌, refl, Option, none, some, arith}
use tech_trends.Redis.Server.{Server, Client}
use tech_trends.Trends.Data.{Vector}
use tech_trends.Ai.Search.{first_vector}
use tech_trends.Ai.Concurrent.{
  permits, Place, arriving, after_reply, Requests, Move, proceed, reject, call, reply, fail, System,
  Step, pick, wait, Reach, here, later, opened,
}
use tech_trends.Ai.Concurrent.Diagram.{turn-goes, reject-goes, is_ready-call}
use tech_trends.Ai.Concurrent.Places.{call_count, is_call, call_count-moved, call_count-ge}

after_reply-call : (t : ℕ) (v : Option Vector) → is_call (after_reply t v) ≡ 0
after_reply-call t none = refl
after_reply-call t (some v) = refl

module _ (srv : Server) (c : Client srv) (r : Requests c.State) where
  Move-running :
      {i now running : ℕ} {s : srv.Keyspace} {p : Place} {running' : ℕ} {s' : srv.Keyspace}
      {p' : Place}
      → Move srv c r i now running s p running' s' p'
      → is_call p ≤ running
      → running ≤ permits
      → (running' + is_call p ≡ running + is_call p') × (running' ≤ permits)
  Move-running {i} {now} {s = s} {p = p} (proceed ready) h k =
      let (from, to) = is_ready-call now (turn-goes srv c r i now p s ready) ready in
      (omega (arith, from, to), k)
  Move-running {now = now} {p = p} (reject _ ready command) h k =
      let (from, to) = is_ready-call now (reject-goes now p ready command) ready in
      (omega (arith, from, to), k)
  Move-running (call few) h k = (omega arith, omega (arith, few))
  Move-running (reply {since} {vectors} _) h k =
      (omega (arith, h, after_reply-call since (first_vector vectors)), omega (arith, k))
  Move-running fail h k = (omega (arith, h), omega (arith, k))

  -- The permits that are taken are the calls under way.
  abbrev Counted : ℕ → System srv c r → Type 0
  Counted n y = (call_count y.place n ≡ y.running) × (y.running ≤ permits)

  Step-Counted : {n : ℕ} {y z : System srv c r} → Step srv c r n y z → Counted n y → Counted n z
  Step-Counted (wait d) counted = counted
  Step-Counted {n} {y} (pick i {p = p} less mv) (counted, few) =
      let (change, few') =
        Move-running mv (omega (arith, counted, call_count-ge y.place n i less)) few in
      (omega (arith, counted, change, call_count-moved i p y.place n less), few')

  call_count-start : (n : ℕ) → call_count (λ i. arriving) n ≡ 0
  unfolding call_count
  call_count-start zero = refl
  call_count-start (suc n) = omega (arith, call_count-start n)

  -- In every order of the steps of `n` requests, the permits that are taken are the calls of the model
  -- under way, and these are at most three.
  pub call_count-le :
      (n now : ℕ) (s : srv.Keyspace) (y : System srv c r)
      → Reach srv c r n (opened srv c r now s) y
      → (call_count y.place n ≡ y.running) × (call_count y.place n ≤ permits)
  call_count-le n now s y reach =
      let (counted, few) = all reach in (counted, omega (arith, counted, few))
    where
      all : {z : System srv c r} → Reach srv c r n (opened srv c r now s) z → Counted n z
      all here = (call_count-start n, omega arith)
      all (later before step) = Step-Counted step (all before)
