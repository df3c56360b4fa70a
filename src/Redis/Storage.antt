-- ===== src/Redis/Storage.antt =====
-- redis-throttler.storage.ts: the keys of the throttle, and the storage that lets a request through
-- when Redis fails.
use tech_trends.Base.{
  ℕ, ◌+◌, ◌*◌, ◌/◌, ◌≤◌, ◌<◌, ◌≡◌, refl, inl, inr, ◌⊎◌, Bool, false, List, [], ◌∷◌, ◌++◌, Option,
  none, some, arith, ltb, if◌then◌else◌, Bool-cases, Text, units, take, ok, err, Result,
}
use tech_trends.Redis.Server.{Server, Client}
use tech_trends.Redis.Service.{ThrottleIncrementResult, increment_throttle}

abbrev pub max_tracker_length : ℕ
max_tracker_length = 64

abbrev pub redis_failure_log_interval_ms : ℕ
redis_failure_log_interval_ms = 30_000

-- `req.ip`, where it is a text.
unfoldable pub get_redis_throttle_tracker : Option Text → Text
get_redis_throttle_tracker none = take max_tracker_length (units "unknown")
get_redis_throttle_tracker (some ip) = take max_tracker_length ip

-- The class and the handler of the route come from the framework's context.
unfoldable pub create_redis_throttle_key : Text → Text → Text → Text → Text
create_redis_throttle_key controller handler tracker throttler_name =
    units "throttle:v1"
    ++ (units ":"
        ++ (throttler_name
            ++ (units ":" ++ (controller ++ (units ":" ++ (handler ++ (units ":" ++ tracker)))))))

pub record ThrottleReply : Type 0 where
  pub total_hits : ℕ
  pub time_to_expire : ℕ
  pub is_blocked : Bool
  pub time_to_block_expire : ℕ

-- `Math.ceil(ms / 1000)`
abbrev pub ceil_seconds : ℕ → ℕ
ceil_seconds ms = (ms + 999) / 1000

abbrev pub allowed : ThrottleReply
allowed = record {
  total_hits = 0;
  time_to_expire = 0;
  is_blocked = false;
  time_to_block_expire = 0;
}

-- The storage's field, and the times of the warnings written, newest first.
pub record Log : Type 0 where
  pub last_redis_failure_log_at : ℕ
  pub warnings : List ℕ

-- `now - last < interval`, also where the clock went back.
unfoldable pub log_redis_failure : ℕ → Log → Log
log_redis_failure now log =
    if ltb now (log.last_redis_failure_log_at + redis_failure_log_interval_ms)
    then log
    else record { last_redis_failure_log_at = now; warnings = now ∷ log.warnings }

-- The two branches of `increment`, on the outcome of the call.
unfoldable pub to_reply : ℕ → Log → Result Text ThrottleIncrementResult → ThrottleReply × Log
unfolding log_redis_failure
to_reply now log (ok r) = (
  record {
    total_hits = r.total_hits;
    time_to_expire = ceil_seconds r.ttl_remaining_ms;
    is_blocked = r.is_blocked;
    time_to_block_expire = ceil_seconds r.block_ttl_remaining_ms;
  },
  log,
)
to_reply now log (err e) = (allowed, log_redis_failure now log)

module _ (srv : Server) (c : Client srv) where
  unfoldable pub increment : Text → ℕ → ℕ → ℕ → ℕ → Log → c.State → ThrottleReply × Log × c.State
  unfolding to_reply
  increment key ttl limit block_duration now log s =
      let (result, t) = increment_throttle srv c key ttl limit block_duration s in
      let (reply, log') = to_reply now log result in (reply, log', t)

-- Two warnings are at least the interval apart, newest first.
abbrev pub Spaced : List ℕ → Type 0
Spaced [] = Unit
Spaced (t ∷ []) = Unit
Spaced (t ∷ u ∷ ts) = (u + redis_failure_log_interval_ms ≤ t) × Spaced (u ∷ ts)

-- The field holds the time of the newest warning.
pub record IsLog (log : Log) : Type 0 where
  pub spaced : Spaced log.warnings
  pub newest :
      (log.warnings ≡ []) ⊎ ((ts : List ℕ) × (log.warnings ≡ log.last_redis_failure_log_at ∷ ts))

log_redis_failure-IsLog : (now : ℕ) (log : Log) → IsLog log → IsLog (log_redis_failure now log)
unfolding log_redis_failure
log_redis_failure-IsLog now log h =
    elim (Bool-cases (ltb now (log.last_redis_failure_log_at + redis_failure_log_interval_ms))) [
      | inl early ↦ rw early h
      | inr due ↦ rw due (record {
        spaced = spaced_now (ground arith) h.newest;
        newest = inr (log.warnings, refl);
      })
    ]
  where
    spaced_now :
        log.last_redis_failure_log_at + redis_failure_log_interval_ms ≤ now
        → (log.warnings ≡ [])
          ⊎ ((ts : List ℕ) × (log.warnings ≡ log.last_redis_failure_log_at ∷ ts))
        → Spaced (now ∷ log.warnings)
    spaced_now later (inl e) = rw e tt
    spaced_now later (inr (ts, e)) = rw e (later, rw e at h.spaced)

-- A call of `increment` always answers. Where Redis fails, the request is allowed and no warning
-- follows another within the interval; where it answers, the reply says what the script said, the
-- time to its expiry and the time of the block both rounded up to seconds, and nothing is logged.
pub to_reply_lem :
    (now : ℕ) (log : Log) (result : Result Text ThrottleIncrementResult)
    → IsLog log
    → let (reply, log') = to_reply now log result in
      IsLog log'
      × (((e : Text) × (result ≡ err e) × (reply ≡ allowed))
          ⊎ ((r : ThrottleIncrementResult) × (result ≡ ok r)
              × (log' ≡ log)
              × (reply.total_hits ≡ r.total_hits)
              × (reply.is_blocked ≡ r.is_blocked)
              × (r.ttl_remaining_ms ≤ 1000 * reply.time_to_expire)
              × (1000 * reply.time_to_expire < r.ttl_remaining_ms + 1000)
              × (r.block_ttl_remaining_ms ≤ 1000 * reply.time_to_block_expire)
              × (1000 * reply.time_to_block_expire < r.block_ttl_remaining_ms + 1000)))
unfolding to_reply
to_reply_lem now log (ok r) h =
    (h, inr (r, refl, refl, refl, refl, omega arith, omega arith, omega arith, omega arith))
to_reply_lem now log (err e) h = (log_redis_failure-IsLog now log h, inl (e, refl, refl))
