-- ===== src/Redis/Throttle.antt =====
-- The throttle script, and the requests of one tracker over time.
pub mod Burst
use tech_trends.Base.{
  ℕ, zero, suc, ◌+◌, ◌-◌, ◌≤◌, ◌<◌, ◌≡◌, ◌≢◌, refl, sym, ap, ◌∙◌, inl, inr, ◌⊎◌, Bool, true, false,
  List, [], ◌∷◌, ◌++◌, Option, none, some, arith, ltb, ◌==◌, if◌then◌else◌, Option-cases,
  Bool-cases, Text, text_eq, text_eq_iff, text_eq_refl, units, decimal, length, length-append, min,
}
use tech_trends.Redis.Server.{Server, ServerLaws, Entry, value_of, ttl_of, with_ttl, aged}
use tech_trends.Redis.Service.{
  ScriptReply, throttle_verdict, throttle_increment, block_key_of, is_positive,
}

pub key-ne-block_key : (key : Text) → text_eq key (block_key_of key) ≡ false
key-ne-block_key key = elim (Bool-cases (text_eq key (block_key_of key))) [
  | inr differ ↦ differ
  | inl same ↦ absurd (
      omega (
        arith,
        ap length ((text_eq_iff key (block_key_of key)).0 same),
        length-append key (units ":block"),
      ))
]

-- Requests of one tracker, and time.
pub data Traffic : Type 0 where
  request : Traffic
  wait : ℕ → Traffic

abbrev pub duration : List Traffic → ℕ
duration [] = 0
duration (request ∷ es) = duration es
duration (wait d ∷ es) = d + duration es

-- One request more, where the script did not block it.
abbrev pub count_passed : ScriptReply → ℕ → ℕ
count_passed r n = if r.blocked == 1 then n else suc n

module _ (srv : Server) (key : Text) (ttl_ms limit block_ms : ℕ) where
  -- How many requests are let through.
  unfoldable pub passed : List Traffic → srv.Keyspace → ℕ
  passed [] s = 0
  passed (wait d ∷ es) s = passed es (srv.elapse d s)
  passed (request ∷ es) s =
      let (reply, t) = throttle_increment srv key (block_key_of key) ttl_ms limit block_ms s in
      count_passed reply (passed es t)

module _ (srv : Server) (laws : ServerLaws srv) (key : Text) (ttl_ms limit block_ms : ℕ)
    (positive : 0 < ttl_ms) (lasting : 0 < block_ms) where
  abbrev pub step : srv.Keyspace → ScriptReply × srv.Keyspace
  step = throttle_increment srv key (block_key_of key) ttl_ms limit block_ms

  -- The counter stands at `n` with `left` milliseconds to go.
  abbrev pub Counts : ℕ → ℕ → srv.Keyspace → Type 0
  Counts n left s = srv.entry s key ≡ some (decimal n, some left)

  -- A verdict leaves the counter alone, and blocks exactly above the limit.
  verdict_lem :
      (hits n left : ℕ) (s : srv.Keyspace)
      → Counts n left s
      → let o = throttle_verdict srv key (block_key_of key) limit block_ms hits s in
        Counts n left o.1 × (o.0.blocked ≡ (if ltb limit hits then 1 else 0))
  unfolding throttle_verdict
  verdict_lem hits n left s h = elim (Bool-cases (ltb limit hits)) [
    | inl over ↦ rw over (
      laws.entry-set_px (block_key_of key) (units "1") block_ms key s lasting
          ∙ rw (key-ne-block_key key) h,
      refl,
    )
    | inr under ↦ rw under (h, refl)
  ]

  -- A block that still runs: the request is refused, and nothing changes.
  pub step_blocked :
      (s : srv.Keyspace)
      → is_positive (srv.pttl (block_key_of key) s) ≡ true
      → ((step s).1 ≡ s) × ((step s).0.blocked ≡ 1)
  unfolding throttle_increment
  step_blocked s h = rw h (refl, refl)

  abbrev pub IsOpen : srv.Keyspace → Type 0
  IsOpen s = is_positive (srv.pttl (block_key_of key) s) ≡ false

  -- The outcome of a request that is counted as number `n` of its window.
  abbrev pub Counted : ℕ → ℕ → ScriptReply × srv.Keyspace → Type 0
  Counted n left o = Counts n left o.1 × (o.0.blocked ≡ (if ltb limit n then 1 else 0))

  pub step_later :
      (n left : ℕ) (s : srv.Keyspace)
      → 0 < n
      → Counts n left s
      → IsOpen s
      → Counted (n + 1) left (step s)
  unfolding throttle_increment
  step_later n left s pos h free =
      let (hits, counted) = laws.incr_count key n (some left) s h in
      let several : ((n + 1) == 1) ≡ false = ground arith in
      rw (free, hits, several) (verdict_lem (n + 1) (n + 1) left _ counted)

  pub step_first :
      (s : srv.Keyspace) → srv.entry s key ≡ none → IsOpen s → Counted 1 ttl_ms (step s)
  unfolding throttle_increment
  step_first s h free =
      let (hits, counted) = laws.incr_missing key s h in
      rw (free, hits)
        (verdict_lem 1 1 ttl_ms _ (
          laws.entry-pexpire key ttl_ms key (srv.incr key s).1 positive
          ∙ rw (text_eq_refl key, counted) refl))

  Counts-elapse :
      (n left d : ℕ) (s : srv.Keyspace)
      → Counts n left s
      → d < left
      → Counts n (left - d) (srv.elapse d s)
  Counts-elapse n left d s h lt = laws.entry-elapse d key s ∙ ap (aged d) h ∙ ground arith

  -- Once a window has counted `n` requests, at most `limit - n` more pass in the time left to it.
  passed_counted :
      (es : List Traffic) (n left : ℕ) (s : srv.Keyspace)
      → 0 < n
      → Counts n left s
      → duration es < left
      → passed srv key ttl_ms limit block_ms es s ≤ limit - n
  unfolding passed
  passed_counted [] n left s pos h lt = omega arith
  passed_counted (wait d ∷ es) n left s pos h lt =
      passed_counted es n (left - d) (srv.elapse d s) pos (Counts-elapse n left d s h (omega arith))
        (omega arith)
  passed_counted (request ∷ es) n left s pos h lt =
      elim (Bool-cases (is_positive (srv.pttl (block_key_of key) s))) [
        | inl blocked ↦
            let (same, refused) = step_blocked s blocked in
            let more =
              passed_counted es n left (step s).1 pos (ap (λ t. srv.entry t key) same ∙ h) lt in
            ground arith
        | inr free ↦
            let (counted, verdict) = step_later n left s pos h free in
            let more = passed_counted es (n + 1) left (step s).1 (omega arith) counted lt in
            ground arith
      ]

  -- With positive window and block times, from a keyspace without a counter for the tracker on: in a stretch of requests and waits shorter
  -- than the window, at most `limit` requests pass, whatever block was running at its start.
  pub passed-le-limit :
      (es : List Traffic) (s : srv.Keyspace)
      → srv.entry s key ≡ none
      → duration es < ttl_ms
      → passed srv key ttl_ms limit block_ms es s ≤ limit
  unfolding passed
  passed-le-limit [] s h lt = omega arith
  passed-le-limit (wait d ∷ es) s h lt =
      passed-le-limit es (srv.elapse d s) (laws.entry-elapse d key s ∙ ap (aged d) h) (omega arith)
  passed-le-limit (request ∷ es) s h lt =
      elim (Bool-cases (is_positive (srv.pttl (block_key_of key) s))) [
        | inl blocked ↦
            let (same, refused) = step_blocked s blocked in
            let more = passed-le-limit es (step s).1 (ap (λ t. srv.entry t key) same ∙ h) lt in
            ground arith
        | inr free ↦
            let (counted, verdict) = step_first s h free in
            let more = passed_counted es 1 ttl_ms (step s).1 (omega arith) counted lt in
            ground arith
      ]
