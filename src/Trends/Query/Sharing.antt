-- ===== src/Trends/Query/Sharing.antt =====
-- The requests that share a load.
use mathlib.Core.List.{Perm}
use mathlib.Core.List.Perm
use tech_trends.Base.{
  ℕ, ◌≡◌, ◌↔◌, refl, sym, ap, ◌∙◌, subst, inl, inr, Bool, true, false, List, [], ◌∷◌, ◌++◌, map,
  append-nil, map-append, Option, arith, Bool-cases, Option-cases, Result,
}
use tech_trends.Trends.World.{Failure}
use tech_trends.Trends.Query.{
  Loads, no_loads, or_null, has, join, drop_load, drop_key, cache_read, load_settled,
}
use tech_trends.Trends.Query.Settled.{Perm-settled-outcomes, Perm-settled-waiting}
use tech_trends.Trends.Query.Waiting.{
  Asked, awaits, has_outcome, first_status, outcomes, waiting_for, awaiting, keys, Distinct,
  settled, outcomes-append, waiting_for-append, awaiting-append, first_status-hit,
  first_status-miss, Perm-awaiting-join,
}

module _ {K A : Type 0} (same : K → K → Bool) (same_iff : (j k : K) → (same j k ≡ true) ↔ (j ≡ k))
    (stored : A → Bool) where
  keys-join :
      (request : ℕ) (key : K) (m : List (K × List ℕ))
      → keys (join same stored request key m) ≡ keys m
  keys-join request key [] = refl
  keys-join request key ((k, waiting) ∷ m) = elim (Bool-cases (same key k)) [
    | inl e ↦ rw e refl
    | inr e ↦ rw e (ap (◌∷◌ k) (keys-join request key m))
  ]

  keys-drop_load :
      (key : K) (m : List (K × List ℕ))
      → keys (drop_load same stored key m) ≡ drop_key same stored key (keys m)
  keys-drop_load key [] = refl
  keys-drop_load key ((k, waiting) ∷ m) = elim (Bool-cases (same key k)) [
    | inl e ↦ rw e refl
    | inr e ↦ rw e (ap (◌∷◌ k) (keys-drop_load key m))
  ]

  has-append :
      (j key : K) (ks : List K)
      → has same stored j ks ≡ false
      → same j key ≡ false
      → has same stored j (ks ++ key ∷ []) ≡ false
  has-append j key [] h e = rw e
  has-append j key (k ∷ ks) h e = ground (arith, has-append j key ks)

  symmetric : (j k : K) → same j k ≡ false → same k j ≡ false
  symmetric j k h = ground (arith, same_iff j k, same_iff k j)

  Distinct-append :
      (key : K) (ks : List K)
      → has same stored key ks ≡ false
      → Distinct same same_iff stored ks
      → Distinct same same_iff stored (ks ++ key ∷ [])
  Distinct-append key [] h d = (refl, tt)
  Distinct-append key (k ∷ ks) h (fresh, d) =
      let differ : same key k ≡ false = ground arith in
      (has-append k key ks fresh (symmetric key k differ), Distinct-append key ks (ground arith) d)

  has-drop_key :
      (j key : K) (ks : List K)
      → has same stored j ks ≡ false
      → has same stored j (drop_key same stored key ks) ≡ false
  has-drop_key j key [] h = refl
  has-drop_key j key (k ∷ ks) h = ground (arith, has-drop_key j key ks)

  Distinct-drop_key :
      (key : K) (ks : List K)
      → Distinct same same_iff stored ks
      → Distinct same same_iff stored (drop_key same stored key ks)
  Distinct-drop_key key [] d = tt
  Distinct-drop_key key (k ∷ ks) (fresh, d) = elim (Bool-cases (same key k)) [
    | inl e ↦ rw e d
    | inr e ↦ rw e (has-drop_key k key ks fresh, Distinct-drop_key key ks d)
  ]

  -- What requests, interleaved in any way with the loads that settle, lead to, with what becomes of
  -- each request: it has what it read of the cache, or it awaits its key and has the outcome of the
  -- first load of the key that settles from then on.
  pub data Reached : Asked K A → Loads K A → Type 0 where
    start : Reached [] no_loads
    request :
        {rs : Asked K A} {st : Loads K A} (who : ℕ) (key : K) (read : Result Failure (Option A))
        → Reached rs st
        → Reached (rs ++ (who, first_status key read) ∷ []) (cache_read same stored who key read st)
    settle :
        {rs : Asked K A} {st : Loads K A} (key : K) (outcome : A)
        → has same stored key st.running ≡ true
        → Reached rs st
        → Reached
            (settled same same_iff stored key outcome rs)
            (load_settled same stored key outcome st)

  pub record IsShared (rs : Asked K A) (st : Loads K A) : Type 0 where
    pub mapped : keys st.pending ≡ st.running
    pub single : Distinct same same_iff stored st.running
    pub given : Perm st.answers (outcomes rs)
    pub waiting : Perm (awaiting st.pending) (waiting_for rs)

  -- A request that is given its outcome at once.
  given-append :
      (rs : Asked K A) (answers : List (ℕ × A)) (who : ℕ) (a : A)
      → Perm answers (outcomes rs)
      → Perm (answers ++ (who, a) ∷ []) (outcomes (rs ++ (who, has_outcome a) ∷ []))
  given-append rs answers who a p =
      subst (Perm (answers ++ (who, a) ∷ [])) (sym (outcomes-append rs ((who, has_outcome a) ∷ [])))
        (Perm.append_right ((who, a) ∷ []) p)

  waiting-same :
      (rs : Asked K A) (m : List (ℕ × K)) (who : ℕ) (a : A)
      → Perm m (waiting_for rs)
      → Perm m (waiting_for (rs ++ (who, has_outcome a) ∷ []))
  waiting-same rs m who a p =
      subst (Perm m)
        (sym (waiting_for-append rs ((who, has_outcome a) ∷ []) ∙ append-nil (waiting_for rs))) p

  -- A request that is left to await a key.
  given-same :
      (rs : Asked K A) (answers : List (ℕ × A)) (who : ℕ) (key : K)
      → Perm answers (outcomes rs)
      → Perm answers (outcomes (rs ++ (who, awaits key) ∷ []))
  given-same rs answers who key p =
      subst (Perm answers)
        (sym (outcomes-append rs ((who, awaits key) ∷ []) ∙ append-nil (outcomes rs))) p

  waiting-append :
      (rs : Asked K A) (m m' : List (ℕ × K)) (who : ℕ) (key : K)
      → Perm m' (m ++ (who, key) ∷ [])
      → Perm m (waiting_for rs)
      → Perm m' (waiting_for (rs ++ (who, awaits key) ∷ []))
  waiting-append rs m m' who key q p =
      subst (Perm m') (sym (waiting_for-append rs ((who, awaits key) ∷ [])))
        (Perm.trans q (Perm.append_right ((who, key) ∷ []) p))

  cache_read-IsShared :
      (rs : Asked K A) (who : ℕ) (key : K) (read : Result Failure (Option A)) (st : Loads K A)
      → IsShared rs st
      → IsShared (rs ++ (who, first_status key read) ∷ []) (cache_read same stored who key read st)
  unfolding cache_read
  cache_read-IsShared rs who key read st h = elim (Option-cases (or_null read)) [
    | inr (a, hit) ↦
        rw (hit, cache_read, first_status-hit key read a hit)
          (record {
            mapped = h.mapped;
            single = h.single;
            given = given-append rs st.answers who a h.given;
            waiting = waiting-same rs (awaiting st.pending) who a h.waiting;
          })
    | inl miss ↦ elim (Bool-cases (has same stored key (keys st.pending))) [
      | inl there ↦
          rw (miss, there, cache_read, first_status-miss key read miss)
            (record {
              mapped = keys-join who key st.pending ∙ h.mapped;
              single = h.single;
              given = given-same rs st.answers who key h.given;
              waiting =
                  waiting-append rs (awaiting st.pending) _ who key
                    (Perm-awaiting-join same same_iff stored who key st.pending there) h.waiting;
            })
      | inr free ↦
          rw (miss, free, cache_read, first_status-miss key read miss)
            (record {
              mapped =
                  map-append (λ e. e.0) st.pending ((key, who ∷ []) ∷ [])
                  ∙ ap (λ ks. ks ++ key ∷ []) h.mapped;
              single = Distinct-append key st.running (rw h.mapped at free) h.single;
              given = given-same rs st.answers who key h.given;
              waiting =
                  waiting-append rs (awaiting st.pending) _ who key
                    (subst (Perm (awaiting (st.pending ++ (key, who ∷ []) ∷ [])))
                      (awaiting-append st.pending key who) Perm.rfl)
                    h.waiting;
            })
    ]
  ]

  load_settled-IsShared :
      (rs : Asked K A) (key : K) (outcome : A) (st : Loads K A)
      → IsShared rs st
      → IsShared
          (settled same same_iff stored key outcome rs)
          (load_settled same stored key outcome st)
  unfolding load_settled
  load_settled-IsShared rs key outcome st h =
      let single = subst (Distinct same same_iff stored) (sym h.mapped) h.single in
      record {
        mapped = keys-drop_load key st.pending ∙ ap (drop_key same stored key) h.mapped;
        single = Distinct-drop_key key st.running h.single;
        given =
            Perm-settled-outcomes same same_iff stored key outcome rs st.answers st.pending single
              h.given h.waiting;
        waiting =
            Perm-settled-waiting same same_iff stored key outcome rs st.pending single h.waiting;
      }

  Reached-IsShared : {rs : Asked K A} {st : Loads K A} → Reached rs st → IsShared rs st
  Reached-IsShared start = record {
    mapped = refl;
    single = tt;
    given = Perm.rfl;
    waiting = Perm.rfl;
  }
  Reached-IsShared (request {rs} {st} who key read more) =
      cache_read-IsShared rs who key read st (Reached-IsShared more)
  Reached-IsShared (settle {rs} {st} key outcome runs more) =
      load_settled-IsShared rs key outcome st (Reached-IsShared more)

  -- However requests and settling loads interleave: no key is loaded twice at a time; the loads that
  -- run are those of the map; the answers given are, in some order, the outcome of each request that
  -- has one, which is what it read of the cache, or that of the first load of its key to settle after
  -- it; the others are those that await the load of their key; and once no load runs none is left.
  pub Reached_lem :
      {rs : Asked K A} {st : Loads K A}
      → Reached rs st
      → Distinct same same_iff stored st.running
        × (map (λ e. e.0) st.pending ≡ st.running)
        × Perm st.answers (outcomes rs)
        × Perm (awaiting st.pending) (waiting_for rs)
        × (st.running ≡ [] → waiting_for rs ≡ [])
  Reached_lem {rs} {st} r =
      let h = Reached-IsShared r in
      (
        h.single,
        h.mapped,
        h.given,
        h.waiting,
        λ e. Perm.eq-nil (
            subst (Perm (waiting_for rs)) (none_waits st.pending (h.mapped ∙ e))
              (Perm.symm h.waiting)),
      )
    where
      none_waits : (m : List (K × List ℕ)) → keys m ≡ [] → awaiting m ≡ []
      none_waits [] e = refl
      none_waits (x ∷ m) e = absurd (cc)
