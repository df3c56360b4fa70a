-- ===== src/Trends/Cache.antt =====
-- trends-cache.constants.ts and trends-cache.service.ts: the keys and times of what is cached.
pub mod Keys
pub mod Entries
mod Tests
use tech_trends.Base.{
  ℕ, zero, suc, ◌*◌, Bool, true, false, List, [], ◌∷◌, ◌++◌, Option, none, some, Text, units,
  decimal, Action,
}
use tech_trends.Redis.Server.{Server, Client}
use tech_trends.Redis.Service.{Cached, get_cache, set_cache, del_cache}

unfoldable pub trends_sources_cache_key : Text
trends_sources_cache_key = units "trends:sources"

unfoldable pub trend_detail_cache_key : ℕ → Text
trend_detail_cache_key id = units "trends:detail:" ++ decimal id

unfoldable pub trend_related_cache_key : ℕ → ℕ → Text
trend_related_cache_key id limit =
    units "trends:related:" ++ (decimal id ++ (units ":limit:" ++ decimal limit))

abbrev pub bool_text : Bool → Text
bool_text true = units "true"
bool_text false = units "false"

unfoldable pub trend_list_count_cache_key : Text → Bool → Text
trend_list_count_cache_key source is_new =
    units "trends:count:" ++ (source ++ (units ":" ++ bool_text is_new))

-- A whole number: `pos n` is n, and `negsuc n` is -(n + 1).
pub data ℤ : Type 0 where
  pos : ℕ → ℤ
  negsuc : ℕ → ℤ

-- `Number(setting) || default`: only what is missing, no number or 0 gives way to the default.
abbrev pub or_seconds : Option ℤ → ℕ → ℤ
or_seconds none default_seconds = pos default_seconds
or_seconds (some (pos zero)) default_seconds = pos default_seconds
or_seconds (some (pos (suc n))) default_seconds = pos (suc n)
or_seconds (some (negsuc n)) default_seconds = negsuc n

-- The settings of the environment, as whole numbers; none is a setting that is missing or no number.
pub record TtlSettings : Type 0 where
  pub sources : Option ℤ
  pub detail : Option ℤ
  pub related : Option ℤ

-- `ttlSeconds > 0` decides in `setCache`, which has 0 here for all that is not.
abbrev pub ttl_argument : ℤ → ℕ
ttl_argument (pos n) = n
ttl_argument (negsuc n) = 0

abbrev pub sources_cache_ttl_seconds : TtlSettings → ℤ
sources_cache_ttl_seconds t = or_seconds t.sources 86400

abbrev pub detail_cache_ttl_seconds : TtlSettings → ℤ
detail_cache_ttl_seconds t = or_seconds t.detail 900

abbrev pub related_cache_ttl_seconds : TtlSettings → ℤ
related_cache_ttl_seconds t = or_seconds t.related 300

abbrev pub list_count_cache_ttl_seconds : ℕ
list_count_cache_ttl_seconds = 180

-- The values are serialised already; `parse` is that of `getCache`.
module _ (srv : Server) (c : Client srv) (ttl : TtlSettings) where
  unfoldable pub get_sources :
      {J : Type 0} → (Text → Option J) → Action c.State Text (Option (Cached J))
  unfolding trends_sources_cache_key
  get_sources parse = get_cache srv c parse trends_sources_cache_key

  unfoldable pub set_sources : Text → Action c.State Text (Unit {0})
  unfolding trends_sources_cache_key
  set_sources value =
      set_cache srv c trends_sources_cache_key value (ttl_argument (sources_cache_ttl_seconds ttl))

  unfoldable pub invalidate_sources : Action c.State Text (Unit {0})
  unfolding trends_sources_cache_key
  invalidate_sources = del_cache srv c trends_sources_cache_key

  unfoldable pub get_detail :
      {J : Type 0} → (Text → Option J) → ℕ → Action c.State Text (Option (Cached J))
  unfolding trend_detail_cache_key
  get_detail parse id = get_cache srv c parse (trend_detail_cache_key id)

  unfoldable pub set_detail : ℕ → Text → Action c.State Text (Unit {0})
  unfolding trend_detail_cache_key
  set_detail id value =
      set_cache srv c (trend_detail_cache_key id) value
        (ttl_argument (detail_cache_ttl_seconds ttl))

  unfoldable pub get_related :
      {J : Type 0} → (Text → Option J) → ℕ → ℕ → Action c.State Text (Option (Cached J))
  unfolding trend_related_cache_key
  get_related parse id limit = get_cache srv c parse (trend_related_cache_key id limit)

  unfoldable pub set_related : ℕ → ℕ → Text → Action c.State Text (Unit {0})
  unfolding trend_related_cache_key
  set_related id limit value =
      set_cache srv c (trend_related_cache_key id limit) value
        (ttl_argument (related_cache_ttl_seconds ttl))

  unfoldable pub get_list_count :
      {J : Type 0} → (Text → Option J) → Text → Bool → Action c.State Text (Option (Cached J))
  unfolding trend_list_count_cache_key
  get_list_count parse source is_new =
      get_cache srv c parse (trend_list_count_cache_key source is_new)

  unfoldable pub set_list_count : Text → Bool → Text → Action c.State Text (Unit {0})
  unfolding trend_list_count_cache_key
  set_list_count source is_new value =
      set_cache srv c (trend_list_count_cache_key source is_new) value list_count_cache_ttl_seconds
