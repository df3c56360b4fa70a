-- ===== src/Trends/Cache/Tests.antt =====
-- The cache on a small server.
use tech_trends.Base.{◌≡◌, ◌≢◌, refl, none, some, units}
use tech_trends.Redis.Demo.{server, server-Laws, client, client-Laws, empty}
use tech_trends.Redis.Service.{set_cache}
use tech_trends.Trends.Cache.{pos, negsuc, TtlSettings, set_detail, trend_related_cache_key}
use tech_trends.Trends.Cache.Keys.{CacheKey, related, detail, key_text, key_text_injective}
use tech_trends.Trends.Cache.Entries.{expiry, set, set_lem}

key_text_injective_example : related 1 5 ≡ related 1 5
unfolding trend_related_cache_key
key_text_injective_example = key_text_injective (related 1 5) (related 1 5) refl

abbrev settings : TtlSettings
settings = record { sources = some (pos 60); detail = some (negsuc 0); related = some (pos 0) }

set_lem_example :
    let after =
      client.keyspace
        (set server server-Laws client client-Laws settings (detail 7) (units "{}") empty).1 in
    (server.entry after (key_text (detail 7)) ≡ some (units "{}", none))
    × ((j : CacheKey)
        → j ≢ detail 7
        → server.entry after (key_text j) ≡ server.entry (client.keyspace empty) (key_text j))
unfolding set_detail set_cache
set_lem_example =
    set_lem server server-Laws client client-Laws settings (detail 7) (units "{}") empty tt refl

related_default : expiry settings (related 1 5) ≡ some 300000
related_default = refl
