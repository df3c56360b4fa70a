-- ===== src/Redis/Config.antt =====
-- redis.config.ts: the connection settings from the environment.
use tech_trends.Base.{ℕ, zero, suc, [], ◌∷◌, ◌++◌, Option, none, some, Text, units}

pub record RedisConnectionConfig : Type 0 where
  pub host : Text
  pub port : ℕ
  pub password : Option Text

-- `a || b` on texts and on numbers; `Number` of no number counts as none.
abbrev pub host_or : Text → Option Text → Text
host_or b none = b
host_or b (some []) = b
host_or b (some (c ∷ s)) = c ∷ s

abbrev pub port_or : ℕ → Option ℕ → ℕ
port_or b none = b
port_or b (some zero) = b
port_or b (some (suc n)) = suc n

abbrev pub or_undefined : Option Text → Option Text
or_undefined none = none
or_undefined (some []) = none
or_undefined (some (c ∷ s)) = some (c ∷ s)

abbrev pub number_of : (Text → Option ℕ) → Option Text → Option ℕ
number_of number none = none
number_of number (some s) = number s

unfoldable pub get_redis_connection_config :
    (Text → Option ℕ) → (Text → Option Text) → Text → RedisConnectionConfig
get_redis_connection_config number env prefix = record {
  host = host_or (units "localhost") (env (prefix ++ units "_HOST"));
  port = port_or 6379 (number_of number (env (prefix ++ units "_PORT")));
  password = or_undefined (env (prefix ++ units "_PASSWORD"));
}
