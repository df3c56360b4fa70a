-- ===== src/Redis/Throttle/Burst.antt =====
-- A burst of requests with no pause.
use tech_trends.Base.{
  ℕ, zero, suc, ◌+◌, ◌-◌, ◌≤◌, ◌<◌, ◌≡◌, refl, sym, ap, ◌∙◌, inl, inr, true, false, List, [], ◌∷◌,
  Option, none, some, arith, ltb, ◌==◌, if◌then◌else◌, Bool-cases, Text, text_eq, text_eq_iff,
  text_eq_refl, Bool, units, decimal, min,
}
use tech_trends.Redis.Server.{Server, ServerLaws, Entry, ttl_of}
use tech_trends.Redis.Service.{throttle_verdict, throttle_increment, block_key_of, is_positive}
use tech_trends.Redis.Throttle.{
  Traffic, request, passed, key-ne-block_key, step, step_blocked, step_later, step_first,
}

abbrev pub requests : ℕ → List Traffic
requests zero = []
requests (suc n) = request ∷ requests n

block_key-ne-key : (key : Text) → text_eq (block_key_of key) key ≡ false
block_key-ne-key key = elim (Bool-cases (text_eq (block_key_of key) key)) [
  | inr differ ↦ differ
  | inl same ↦
      let e =
        (text_eq_iff key (block_key_of key)).1
          (sym ((text_eq_iff (block_key_of key) key).0 same)) in
      absurd (true-ne-false (sym e ∙ key-ne-block_key key))
]
  where
    true-ne-false : ¬ (true ≡ false)
    true-ne-false p = cc

module _ (srv : Server) (laws : ServerLaws srv) (key : Text) (ttl_ms limit block_ms : ℕ)
    (positive : 0 < ttl_ms) (lasting : 0 < block_ms) where
  abbrev next : srv.Keyspace → srv.Keyspace
  next s = (step srv laws key ttl_ms limit block_ms positive lasting s).1

  abbrev blocks : srv.Keyspace → Option Entry
  blocks s = srv.entry s (block_key_of key)

  verdict_blocks :
      (hits : ℕ) (s : srv.Keyspace)
      → blocks (throttle_verdict srv key (block_key_of key) limit block_ms hits s).1
        ≡ (if ltb limit hits then some (units "1", some block_ms) else blocks s)
  unfolding throttle_verdict
  verdict_blocks hits s = elim (Bool-cases (ltb limit hits)) [
    | inl over ↦ rw over (
        laws.entry-set_px (block_key_of key) (units "1") block_ms (block_key_of key) s lasting
        ∙ rw (text_eq_refl (block_key_of key)))
    | inr under ↦ rw under
  ]

  -- Setting the counter's time leaves the block key alone.
  expire_blocks :
      (first : Bool) (s : srv.Keyspace)
      → blocks (if first then srv.pexpire key ttl_ms s else s) ≡ blocks s
  expire_blocks false s = refl
  expire_blocks true s =
      laws.entry-pexpire key ttl_ms (block_key_of key) s positive ∙ rw (block_key-ne-key key)

  -- A counted request sets the block key exactly when it is over the limit.
  blocks-next :
      (s : srv.Keyspace) (n : ℕ)
      → (srv.incr key s).0 ≡ n
      → is_positive (srv.pttl (block_key_of key) s) ≡ false
      → blocks (next s) ≡ (if ltb limit n then some (units "1", some block_ms) else blocks s)
  unfolding throttle_increment
  blocks-next s n e free =
      let before =
        expire_blocks ((srv.incr key s).0 == 1) (srv.incr key s).1
        ∙ laws.incr_other key (block_key_of key) s (block_key-ne-key key) in
      rw (free, next, throttle_increment) (verdict_blocks (srv.incr key s).0 _ ∙ rw (before, e))

  -- While the block runs nothing passes.
  passed_blocked :
      (m : ℕ) (s : srv.Keyspace)
      → is_positive (srv.pttl (block_key_of key) s) ≡ true
      → passed srv key ttl_ms limit block_ms (requests m) s ≡ 0
  unfolding passed
  passed_blocked zero s h = refl
  passed_blocked (suc m) s h =
      let (same, refused) = step_blocked srv laws key ttl_ms limit block_ms positive lasting s h in
      let more =
        passed_blocked m (next s)
          (ap (λ t. is_positive (srv.pttl (block_key_of key) t)) same ∙ h) in
      ground arith

  open_of :
      (s : srv.Keyspace) → blocks s ≡ none → is_positive (srv.pttl (block_key_of key) s) ≡ false
  open_of s h = ap is_positive (laws.pttl_lem (block_key_of key) s ∙ ap ttl_of h)

  closed_of :
      (s : srv.Keyspace)
      → blocks s ≡ some (units "1", some block_ms)
      → is_positive (srv.pttl (block_key_of key) s) ≡ true
  closed_of s h = ap is_positive (laws.pttl_lem (block_key_of key) s ∙ ap ttl_of h) ∙ ground arith

  -- The rest of a burst, when `n` requests have been counted and none refused.
  passed_open :
      (m n left : ℕ) (s : srv.Keyspace)
      → 0 < n
      → n ≤ limit
      → srv.entry s key ≡ some (decimal n, some left)
      → blocks s ≡ none
      → passed srv key ttl_ms limit block_ms (requests m) s ≡ min m (limit - n)
  unfolding passed
  passed_open zero n left s pos le counts h = omega arith
  passed_open (suc m) n left s pos le counts h =
      let free = open_of s h in
      let (counted, verdict) =
        step_later srv laws key ttl_ms limit block_ms positive lasting n left s pos counts free in
      let block = blocks-next s (n + 1) (laws.incr_count key n (some left) s counts).0 free in
      elim (Bool-cases (ltb limit (n + 1))) [
        | inl over ↦
            let more = passed_blocked m (next s) (closed_of (next s) (block ∙ rw over)) in
            ground arith
        | inr under ↦
            let more =
              passed_open m (n + 1) left (next s) (omega arith) (ground arith) counted
                (block ∙ rw under h) in
            ground arith
      ]

  -- With positive window and block times, no counter and no block running, exactly the first `limit` of `m` requests in a row pass.
  pub passed-requests :
      (m : ℕ) (s : srv.Keyspace)
      → srv.entry s key ≡ none
      → srv.entry s (block_key_of key) ≡ none
      → passed srv key ttl_ms limit block_ms (requests m) s ≡ min m limit
  unfolding passed
  passed-requests zero s counts h = omega arith
  passed-requests (suc m) s counts h =
      let free = open_of s h in
      let (counted, verdict) =
        step_first srv laws key ttl_ms limit block_ms positive lasting s counts free in
      let block = blocks-next s 1 (laws.incr_missing key s counts).0 free in
      elim (Bool-cases (ltb limit 1)) [
        | inl over ↦
            let more = passed_blocked m (next s) (closed_of (next s) (block ∙ rw over)) in
            ground arith
        | inr under ↦
            let more =
              passed_open m 1 ttl_ms (next s) (omega arith) (ground arith) counted
                (block ∙ rw under h) in
            ground arith
      ]
