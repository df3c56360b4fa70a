-- ===== src/Ai/Concurrent/Demo.antt =====
-- Requests of one query over a small server, and reachable states of them by evaluation.
use native.Mathlib.Decide.{dec_lt}
use tech_trends.Base.{
  ℕ, ◌+◌, ◌-◌, ◌<◌, ◌≡◌, refl, sym, ap, ◌∙◌, subst, Bool, true, false, List, [], ◌∷◌, Option, none,
  some, arith, decimal, decimal_injective, Text, units, ok,
}
use tech_trends.Redis.Demo.{Table, server, client, empty}
use tech_trends.Trends.Data.{Vector}
use tech_trends.Ai.Search.{Embedder, first_vector}
use tech_trends.Ai.Concurrent.{
  permits, Place, queued, calling, storing, is_ready, Requests, Move, proceed, call, reply, System,
  pick, wait, Reach, here, later, opened,
}
use tech_trends.Ai.Concurrent.Answers.{RequestsLaws}

abbrev pub half : Vector
half = units "0.5" ∷ []

abbrev parse_text : Text → Option Text
parse_text [] = none
parse_text (a ∷ text) = some (a ∷ text)

abbrev embedder : Embedder Table
embedder = record {
  Json = Text;
  parse = parse_text;
  array_of = λ text. some (text ∷ []);
  stringify = λ v. units "0.5";
  to_lower_case = λ text. text;
  vector_embedding_with_ai = λ texts s. (ok (half ∷ []), s);
  sleep = λ ms s. server.elapse ms s;
  embedding_model_name = units "m";
  embedding_ttl_seconds = 60;
}

abbrev pub crowd : Requests Table
crowd = record {
  embedder = embedder;
  query = λ i. units "c";
  lock_value = λ i. decimal i;
  Replies = λ text vectors. vectors ≡ half ∷ [];
}

pub crowd-RequestsLaws : RequestsLaws crowd
crowd-RequestsLaws = record {
  parse_empty = refl;
  parse_stringify = λ text v h. (units "0.5", refl, ap first_vector (sym h.1) ∙ h.2);
  ttl_positive = omega arith;
}

pub crowd-distinct : (i j : ℕ) → crowd.lock_value i ≡ crowd.lock_value j → i ≡ j
crowd-distinct i j e = decimal_injective i j e

pub record Run : Type 1 where
  pub last : System server client crowd
  pub reach : Reach server client crowd 2 (opened server client crowd 0 empty) last

abbrev pub at_start : Run
at_start = record { last = opened server client crowd 0 empty; reach = here }

abbrev pick_of :
    (u : Run) (i : ℕ) {running : ℕ} {s : Table} {p : Place}
    → i < 2
    → Move server client crowd i u.last.now u.last.running u.last.keyspace
        (u.last.place i)
        running
        s
        p
    → Run
pick_of u i less mv = record { last = _; reach = later u.reach (pick i less mv) }

own_move : (i : ℕ) (u : Run) (b : Bool) → is_ready u.last.now (u.last.place i) ≡ b → i < 2 → Run
own_move i u true ready less = pick_of u i less (proceed ready)
own_move i u false stopped less = u

at_place : (i : ℕ) (u : Run) (p : Place) → u.last.place i ≡ p → i < 2 → Run
unfolding own_move dec_lt
at_place i u (queued since) e less = elim (dec_lt u.last.running permits) [
  | yes few ↦ pick_of u i less (
      subst
        (λ q.
          Move server client crowd i u.last.now u.last.running u.last.keyspace q
            (u.last.running + 1) u.last.keyspace (calling since))
        (sym e) (call few))
  | no full ↦ u
]
at_place i u (calling since) e less = pick_of u i less (
    subst
      (λ q.
        Move server client crowd i u.last.now u.last.running u.last.keyspace q (u.last.running - 1)
          u.last.keyspace (storing since half))
      (sym e) (reply {vectors = half ∷ []} refl))
at_place i u p e less = own_move i u (is_ready u.last.now (u.last.place i)) refl less

-- Request `i` makes its next move, if it has one; the model replies.
unfoldable pub act : Run → ℕ → Run
unfolding at_place dec_lt
act u i = elim (dec_lt i 2) [ yes less ↦ at_place i u (u.last.place i) refl less | no _ ↦ u ]

unfoldable pub pause : ℕ → Run → Run
pause d u = record { last = _; reach = later u.reach (wait d) }

unfoldable pub acts : Run → List ℕ → Run
unfolding act
acts u [] = u
acts u (i ∷ more) = acts (act u i) more
