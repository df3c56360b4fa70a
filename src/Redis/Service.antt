-- ===== src/Redis/Service.antt =====
-- redis.service.ts: each method is one command, or one script that the server runs as a whole.
use tech_trends.Base.{
  ℕ, ◌+◌, ◌-◌, ◌*◌, Bool, false, ltb, ◌==◌, if◌then◌else◌, max, Option, none, some, Text, units,
  text_eq, ◌++◌, [], ◌∷◌, Action, pure, ◌>>=◌,
}
use tech_trends.Redis.Server.{Server, Client}

-- Lua's `tonumber`, on a text of decimal digits.
abbrev number_from : ℕ → Text → ℕ
number_from n [] = n
number_from n (c ∷ s) = number_from (n * 10 + (c - b'0')) s

unfoldable pub to_number : Text → ℕ
to_number s = number_from 0 s

-- `x > 0` and `Math.max(0, x)`, on a reply of `PTTL`.
abbrev pub is_positive : Option (Option ℕ) → Bool
is_positive none = false
is_positive (some none) = false
is_positive (some (some n)) = ltb 0 n

abbrev pub clamped : Option (Option ℕ) → ℕ
clamped none = 0
clamped (some none) = 0
clamped (some (some n)) = n

-- What the script returns.
pub record ScriptReply : Type 0 where
  pub hits : ℕ
  pub ttl : Option (Option ℕ)
  pub blocked : ℕ
  pub block_ttl : Option (Option ℕ)

pub record ThrottleIncrementResult : Type 0 where
  pub total_hits : ℕ
  pub ttl_remaining_ms : ℕ
  pub is_blocked : Bool
  pub block_ttl_remaining_ms : ℕ

abbrev count_of : Option Text → ℕ
count_of none = to_number (units "0")
count_of (some v) = to_number v

abbrev pub block_key_of : Text → Text
block_key_of key = key ++ units ":block"

unfoldable pub to_result : ScriptReply → ThrottleIncrementResult
to_result r = record {
  total_hits = r.hits;
  ttl_remaining_ms = clamped r.ttl;
  is_blocked = r.blocked == 1;
  block_ttl_remaining_ms = clamped r.block_ttl;
}

module _ (srv : Server) where
  -- The last part of THROTTLE_INCREMENT_LUA: the counter is set, and is compared with the limit.
  unfoldable pub throttle_verdict :
      Text → Text → ℕ → ℕ → ℕ → srv.Keyspace → ScriptReply × srv.Keyspace
  throttle_verdict key block_key limit block_ms hits s =
      if ltb limit hits
      then (
        record { hits = hits; ttl = srv.pttl key s; blocked = 1; block_ttl = some (some block_ms) },
        srv.set_px block_key (units "1") block_ms s,
      )
      else (record { hits = hits; ttl = srv.pttl key s; blocked = 0; block_ttl = some (some 0) }, s)

  -- THROTTLE_INCREMENT_LUA
  unfoldable pub throttle_increment :
      Text → Text → ℕ → ℕ → ℕ → srv.Keyspace → ScriptReply × srv.Keyspace
  unfolding throttle_verdict
  throttle_increment key block_key ttl_ms limit block_ms s =
      let block_ttl = srv.pttl block_key s in
      if is_positive block_ttl
      then (
        record {
          hits = count_of (srv.get key s);
          ttl = srv.pttl key s;
          blocked = 1;
          block_ttl = block_ttl;
        },
        s,
      )
      else let (hits, counted) = srv.incr key s in
        throttle_verdict key block_key limit block_ms hits
          (if hits == 1 then srv.pexpire key ttl_ms counted else counted)

  -- The script of `releaseLock`, with the reply of its `get`.
  unfoldable pub release_found : Text → Text → Option Text → srv.Keyspace → ℕ × srv.Keyspace
  release_found key value none s = (0, s)
  release_found key value (some held) s = if text_eq held value then (1, srv.del key s) else (0, s)

  unfoldable pub release_script : Text → Text → srv.Keyspace → ℕ × srv.Keyspace
  unfolding release_found
  release_script key value s = release_found key value (srv.get key s) s

-- What `getCache` returns for a text: what it parses to, or the text itself.
pub data Cached (J : Type 0) : Type 0 where
  parsed : J → Cached J
  raw : Text → Cached J

abbrev pub or_raw : {J : Type 0} → Text → Option J → Cached J
or_raw text none = raw text
or_raw text (some j) = parsed j

abbrev pub read_cache : {J : Type 0} → (Text → Option J) → Option Text → Option (Cached J)
read_cache parse none = none
read_cache parse (some []) = none
read_cache parse (some (a ∷ text)) = some (or_raw (a ∷ text) (parse (a ∷ text)))

module _ (srv : Server) (c : Client srv) where
  -- The random value is drawn by the caller of the model.
  unfoldable pub acquire_lock : Text → ℕ → Text → Action c.State Text (Option Text)
  acquire_lock key ttl_ms lock_value = do
    set ← c.call Bool (srv.set_px_nx key lock_value ttl_ms)
    pure (if set then some lock_value else none)

  unfoldable pub release_lock : Text → Text → Action c.State Text Bool
  unfolding release_script
  release_lock key value = do result ← c.call ℕ (release_script srv key value); pure (result == 1)

  -- An empty text counts as missing; `parse` is `JSON.parse`, none where it throws.
  unfoldable pub get_cache :
      {J : Type 0} → (Text → Option J) → Text → Action c.State Text (Option (Cached J))
  get_cache parse key = do
    found ← c.call (Option Text) (λ s. (srv.get key s, s))
    pure (read_cache parse found)

  -- The value is serialised already; a time to live of 0 means no expiry.
  unfoldable pub set_cache : Text → Text → ℕ → Action c.State Text (Unit {0})
  set_cache key serialized ttl_seconds =
      if ltb 0 ttl_seconds
      then c.call (Unit {0}) (λ s. (tt, srv.set_px key serialized (ttl_seconds * 1000) s))
      else c.call (Unit {0}) (λ s. (tt, srv.set key serialized s))

  unfoldable pub del_cache : Text → Action c.State Text (Unit {0})
  del_cache key = c.call (Unit {0}) (λ s. (tt, srv.del key s))

  unfoldable pub exists : Text → Action c.State Text Bool
  exists key = c.call Bool (λ s. (srv.exists key s, s))

  unfoldable pub increment_throttle : Text → ℕ → ℕ → ℕ → Action c.State Text ThrottleIncrementResult
  unfolding throttle_increment to_result
  increment_throttle key ttl_ms limit block_duration_ms = do
    result ← c.call ScriptReply (
        throttle_increment srv key (block_key_of key) (max 1 ttl_ms) limit
          (max 1 block_duration_ms))
    pure (to_result result)
