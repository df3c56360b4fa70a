-- ===== src/Ai/Concurrent/Progress.antt =====
-- How many moves requests have left, and which of them can move.
use tech_trends.Base.{
  ℕ, ◌+◌, ◌-◌, ◌≤◌, ◌<◌, ◌≡◌, refl, sym, ap, ◌∙◌, subst, inl, inr, true, leb, Option, none, arith,
  ◌==◌, ==_iff, if◌then◌else◌, ltb, Bool-cases,
}
use tech_trends.Redis.Server.{Server, Client}
use tech_trends.Trends.Data.{Vector}
use tech_trends.Ai.Concurrent.{
  permits, Place, arriving, reading, locking, sleeping, checking, queued, calling, storing,
  releasing, answered, is_ready, Requests, Move, proceed, call, fail, System, moved, pick, wait,
  Reach, here, later, opened,
}
use tech_trends.Ai.Concurrent.Places.{call_count, moved-All}
use tech_trends.Ai.Concurrent.Diagram.{Move-goes, moves_left, moves_left-less}
use tech_trends.Ai.Concurrent.Permits.{call_count-le}

moved-less :
    (j i : ℕ) (p : Place) (place : ℕ → Place)
    → moves_left p < moves_left (place j)
    → (if j == i then 1 else 0) + moves_left (moved j p place i) ≤ moves_left (place i)
moved-less j i p place less =
    moved-All (λ k q. (if j == k then 1 else 0) + moves_left q ≤ moves_left (place k)) j p place
      (ground (arith, ==_iff j j)) (λ k differ. ground (arith, ==_iff j k)) i

module _ (srv : Server) (c : Client srv) (r : Requests c.State) where
  -- The moves of request `i` on the way.
  unfoldable pub moves_of : {n : ℕ} {y z : System srv c r} → ℕ → Reach srv c r n y z → ℕ
  moves_of i here = 0
  moves_of i (later before (pick j less mv)) = moves_of i before + (if j == i then 1 else 0)
  moves_of i (later before (wait d)) = moves_of i before

  moves_of-bound :
      {n : ℕ} {y z : System srv c r} (i : ℕ) (reach : Reach srv c r n y z)
      → moves_of i reach + moves_left (z.place i) ≤ moves_left (y.place i)
  unfolding moves_of
  moves_of-bound i here = omega arith
  moves_of-bound i (later before (wait d)) = moves_of-bound i before
  moves_of-bound i (later {u} before (pick j {p = p} less mv)) = omega (
    arith,
    moves_of-bound i before,
    moved-less j i p u.place (moves_left-less (Move-goes srv c r mv)),
  )

  -- What request `i` can do next.
  pub data Prospect (n i : ℕ) (y : System srv c r) : Type 0 where
    done : {o : Option Vector} → y.place i ≡ answered o → Prospect n i y
    moves :
        {running : ℕ} {s : srv.Keyspace} {p : Place}
        → Move srv c r i y.now y.running y.keyspace (y.place i) running s p
        → Prospect n i y
    pauses : {left wake : ℕ} → y.place i ≡ sleeping left wake → y.now < wake → Prospect n i y
    queues :
        {since : ℕ} → y.place i ≡ queued since → call_count y.place n ≡ permits → Prospect n i y

  -- Every request makes at most 53 moves, however the requests and the time are ordered. Until it has
  -- answered it has a move to make now, or it is in a pause that a clock ends, or it waits for a
  -- permit while three requests are in calls of the model.
  pub moves_of_lem :
      (n now : ℕ) (s : srv.Keyspace) (y : System srv c r)
      (reach : Reach srv c r n (opened srv c r now s) y) (i : ℕ)
      → (moves_of i reach ≤ 53) × Prospect n i y
  moves_of_lem n now s y reach i = (omega (arith, moves_of-bound i reach), at (y.place i) refl)
    where
      counted : (call_count y.place n ≡ y.running) × (call_count y.place n ≤ permits)
      counted = call_count-le srv c r n now s y reach

      own : is_ready y.now (y.place i) ≡ true → Prospect n i y
      own h = moves (proceed h)

      at : (p : Place) → y.place i ≡ p → Prospect n i y
      at (answered o) e = done e
      at (queued since) e = elim (Bool-cases (ltb y.running permits)) [
        | inl few ↦ moves (
            subst
              (λ p.
                Move srv c r i y.now y.running y.keyspace p (y.running + 1) y.keyspace
                  (calling since))
              (sym e) (call (ground arith)))
        | inr full ↦ queues e (ground (arith, counted))
      ]
      at (calling since) e = moves (
          subst
            (λ p.
              Move srv c r i y.now y.running y.keyspace p (y.running - 1) y.keyspace
                (releasing since none))
            (sym e) fail)
      at (sleeping left wake) e = elim (Bool-cases (leb wake y.now)) [
        | inl ready ↦ own (ap (is_ready y.now) e ∙ ready)
        | inr early ↦ pauses e (ground arith)
      ]
      at arriving e = own (ap (is_ready y.now) e)
      at reading e = own (ap (is_ready y.now) e)
      at locking e = own (ap (is_ready y.now) e)
      at (checking left) e = own (ap (is_ready y.now) e)
      at (storing since v) e = own (ap (is_ready y.now) e)
      at (releasing since outcome) e = own (ap (is_ready y.now) e)
