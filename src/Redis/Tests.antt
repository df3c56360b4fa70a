-- ===== src/Redis/Tests.antt =====
-- The lock and the throttle on a small server.
use tech_trends.Base.{
  ◌+◌, ◌*◌, ◌≤◌, ◌<◌, ◌≡◌, ◌≢◌, refl, sym, inr, ◌⊎◌, Bool, true, false, [], ◌∷◌, Option, none, some,
  arith, Text, text_eq, if◌then◌else◌, text_eq_iff, units, ok, err, Result,
}
use tech_trends.Redis.Server.{Entry, value_of}
use tech_trends.Redis.Service.{ThrottleIncrementResult, acquire_lock, release_lock}
use tech_trends.Redis.Lock.{
  acquire, release, wait, lock_run, lock_run_held, acquire_lock_lem, release_lock_lem,
}
use tech_trends.Redis.Config.{get_redis_connection_config}
use tech_trends.Redis.Lock.Progress.{lock_run_progress}
use tech_trends.Redis.Throttle
use tech_trends.Redis.Throttle.Burst.{requests, passed-requests}
use tech_trends.Redis.Storage.{Log, IsLog, ThrottleReply, allowed, to_reply, to_reply_lem}
use tech_trends.Redis.Demo.{Table, put, server, server-Laws, client, client-Laws, empty}

abbrev lock_key : Text
lock_key = units "lock"

abbrev held : Table
held = put lock_key (some (units "a", some 100)) empty

true-ne-false : ¬ (true ≡ false)
true-ne-false p = cc

-- The lock that `a` took a while ago.
lock_run_held_example :
    let es = acquire (units "b") 50 ∷ wait 60 ∷ release (units "b") ∷ acquire (units "c") 10 ∷ [] in
    ((lock_run server lock_key es held).0 ≡ [])
    × (server.entry (lock_run server lock_key es held).1 lock_key ≡ some (units "a", some 40))
lock_run_held_example =
    lock_run_held server server-Laws lock_key (units "a")
      (acquire (units "b") 50 ∷ wait 60 ∷ release (units "b") ∷ acquire (units "c") 10 ∷ []) 100
      held refl (omega arith)
      (tt, (tt, (λ e. true-ne-false (sym ((text_eq_iff (units "b") (units "a")).1 e)), (tt, tt))))

lock_run_progress_example :
    (lock_run server lock_key
      (wait 60 ∷ acquire (units "b") 50 ∷ wait 40 ∷ acquire (units "c") 10 ∷ [])
      held).0
    ≢ []
lock_run_progress_example =
    lock_run_progress server server-Laws lock_key (wait 60 ∷ acquire (units "b") 50 ∷ wait 40 ∷ [])
      (units "c") 10 100 (units "a") held refl (omega arith) (tt, (omega arith, (tt, tt)))
      (omega arith) (omega arith)

passed-requests_example : Throttle.passed server lock_key 1000 2 500 (requests 5) empty ≡ 2
passed-requests_example =
    passed-requests server server-Laws lock_key 1000 2 500 (omega arith) (omega arith) 5 empty refl
      refl

passed-le-limit_example :
    Throttle.passed server lock_key 1000 2 500
      (Throttle.request
        ∷ Throttle.request
        ∷ Throttle.wait 300
        ∷ Throttle.request
        ∷ Throttle.wait 600
        ∷ Throttle.request
        ∷ [])
      empty
    ≤ 2
passed-le-limit_example =
    Throttle.passed-le-limit server server-Laws lock_key 1000 2 500 (omega arith) (omega arith)
      (Throttle.request
        ∷ Throttle.request
        ∷ Throttle.wait 300
        ∷ Throttle.request
        ∷ Throttle.wait 600
        ∷ Throttle.request
        ∷ [])
      empty refl (omega arith)

abbrev acquired : Result Text (Option Text) × Table
acquired = acquire_lock server client lock_key 90 (units "a") empty

acquire_lock_lem_example :
    ((some (units "a") ≡ some (units "a"))
      × (server.entry empty lock_key ≡ none)
      × (server.entry acquired.1 lock_key ≡ some (units "a", some 90)))
    ⊎ ((some (units "a") ≡ none)
        × ((e : Entry) × (server.entry empty lock_key ≡ some e))
        × (acquired.1 ≡ empty))
unfolding acquire_lock
acquire_lock_lem_example =
    acquire_lock_lem server server-Laws client client-Laws lock_key 90 (units "a") empty
      (some (units "a")) (omega arith) refl

abbrev released : Result Text Bool × Table
released = release_lock server client lock_key (units "b") held

release_lock_lem_example :
    ((false ≡ true)
      × (value_of (server.entry held lock_key) ≡ some (units "b"))
      × (server.entry released.1 lock_key ≡ none))
    ⊎ ((false ≡ false)
        × (value_of (server.entry held lock_key) ≢ some (units "b"))
        × (released.1 ≡ held))
unfolding release_lock
release_lock_lem_example =
    release_lock_lem server server-Laws client client-Laws lock_key (units "b") held false refl

abbrev log : Log
log = record { last_redis_failure_log_at = 1000; warnings = 1000 ∷ [] }

abbrev reply : ThrottleReply × Log
reply = to_reply 40_000 log (err (units "ECONNRESET"))

to_reply_lem_example :
    IsLog reply.1
    × (((e : Text) × (◌≡◌ {A = Result Text ThrottleIncrementResult}
            (err (units "ECONNRESET"))
            (err e))
          × (reply.0 ≡ allowed))
        ⊎ ((r : ThrottleIncrementResult) × (err (units "ECONNRESET") ≡ ok r)
            × (reply.1 ≡ log)
            × (reply.0.total_hits ≡ r.total_hits)
            × (reply.0.is_blocked ≡ r.is_blocked)
            × (r.ttl_remaining_ms ≤ 1000 * reply.0.time_to_expire)
            × (1000 * reply.0.time_to_expire < r.ttl_remaining_ms + 1000)
            × (r.block_ttl_remaining_ms ≤ 1000 * reply.0.time_to_block_expire)
            × (1000 * reply.0.time_to_block_expire < r.block_ttl_remaining_ms + 1000)))
to_reply_lem_example =
    to_reply_lem 40_000 log (err (units "ECONNRESET"))
      (record { spaced = tt; newest = inr ([], refl) })

-- Nothing set but an empty password.
default_connection :
    get_redis_connection_config
      (λ s. none)
      (λ name. if text_eq name (units "REDIS_QUEUE_PASSWORD") then some [] else none)
      (units "REDIS_QUEUE")
    ≡ record { host = units "localhost"; port = 6379; password = none }
unfolding get_redis_connection_config
default_connection = refl
