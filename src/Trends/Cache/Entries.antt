-- ===== src/Trends/Cache/Entries.antt =====
-- What a write to the cache leaves there.
use tech_trends.Base.{
  ℕ, zero, suc, ◌*◌, ◌<◌, ◌≡◌, ◌≢◌, refl, sym, ap, ◌∙◌, inl, inr, true, false, Option, none, some,
  arith, ltb, if◌then◌else◌, Bool-cases, Text, text_eq, text_eq_iff, text_eq_refl, ok, Action,
}
use tech_trends.Redis.Server.{Server, ServerLaws, Client, ClientLaws}
use tech_trends.Redis.Service.{set_cache}
use tech_trends.Trends.Cache.{
  ℤ, pos, negsuc, ttl_argument, TtlSettings, sources_cache_ttl_seconds, detail_cache_ttl_seconds,
  related_cache_ttl_seconds, list_count_cache_ttl_seconds, or_seconds, set_sources, set_detail,
  set_related, set_list_count,
}
use tech_trends.Trends.Cache.Keys.{
  CacheKey, sources, detail, related, list_count, key_text, key_text_injective,
}

abbrev pub ttl_seconds : TtlSettings → CacheKey → ℕ
ttl_seconds ttl sources = ttl_argument (sources_cache_ttl_seconds ttl)
ttl_seconds ttl (detail id) = ttl_argument (detail_cache_ttl_seconds ttl)
ttl_seconds ttl (related id limit) = ttl_argument (related_cache_ttl_seconds ttl)
ttl_seconds ttl (list_count source is_new) = list_count_cache_ttl_seconds

-- The milliseconds to live after a write with such a time, where the entry expires at all.
abbrev expires : ℕ → Option ℕ
expires zero = none
expires (suc n) = some (suc n * 1000)

-- What a setting comes to, with the seconds that stand in for it.
abbrev pub expiry_of : Option ℤ → ℕ → Option ℕ
expiry_of none default_seconds = some (default_seconds * 1000)
expiry_of (some (pos zero)) default_seconds = some (default_seconds * 1000)
expiry_of (some (pos (suc n))) default_seconds = some (suc n * 1000)
expiry_of (some (negsuc n)) default_seconds = none

-- A day for the sources, 15 minutes for an article, 5 for its related ones, and 3 for a count.
abbrev pub expiry : TtlSettings → CacheKey → Option ℕ
expiry ttl sources = expiry_of ttl.sources 86400
expiry ttl (detail id) = expiry_of ttl.detail 900
expiry ttl (related id limit) = expiry_of ttl.related 300
expiry ttl (list_count source is_new) = some 180000

module _ (srv : Server) (laws : ServerLaws srv) (c : Client srv) (client : ClientLaws srv c)
    (ttl : TtlSettings) where
  -- The write of the service for each key.
  abbrev pub set : CacheKey → Text → Action c.State Text (Unit {0})
  set sources value = set_sources srv c ttl value
  set (detail id) value = set_detail srv c ttl id value
  set (related id limit) value = set_related srv c ttl id limit value
  set (list_count source is_new) value = set_list_count srv c ttl source is_new value

  set-set_cache :
      (k : CacheKey) (value : Text)
      → set k value ≡ set_cache srv c (key_text k) value (ttl_seconds ttl k)
  unfolding set_sources set_detail set_related set_list_count
  set-set_cache sources value = refl
  set-set_cache (detail id) value = refl
  set-set_cache (related id limit) value = refl
  set-set_cache (list_count source is_new) value = refl

  -- What `setCache` makes of each setting.
  expires-or_seconds :
      (setting : Option ℤ) (default_seconds : ℕ)
      → 0 < default_seconds
      → expires (ttl_argument (or_seconds setting default_seconds))
        ≡ expiry_of setting default_seconds
  expires-or_seconds none zero h = absurd (omega (arith, h))
  expires-or_seconds none (suc n) h = refl
  expires-or_seconds (some (pos zero)) zero h = absurd (omega (arith, h))
  expires-or_seconds (some (pos zero)) (suc n) h = refl
  expires-or_seconds (some (pos (suc n))) d h = refl
  expires-or_seconds (some (negsuc n)) d h = refl

  expires-ttl_seconds : (k : CacheKey) → expires (ttl_seconds ttl k) ≡ expiry ttl k
  expires-ttl_seconds sources = expires-or_seconds ttl.sources 86400 (omega arith)
  expires-ttl_seconds (detail id) = expires-or_seconds ttl.detail 900 (omega arith)
  expires-ttl_seconds (related id limit) = expires-or_seconds ttl.related 300 (omega arith)
  expires-ttl_seconds (list_count source is_new) = refl

  other_key : (j k : CacheKey) → j ≢ k → text_eq (key_text j) (key_text k) ≡ false
  other_key j k h = elim (Bool-cases (text_eq (key_text j) (key_text k))) [
    | inl same ↦
        absurd (h (key_text_injective j k ((text_eq_iff (key_text j) (key_text k)).0 same)))
    | inr differ ↦ differ
  ]

  -- A write that answers is a `SET`, with an expiry or without.
  set_cache-entry :
      (key value : Text) (seconds : ℕ) (s : c.State) (done : Unit {0}) (at : Text)
      → (set_cache srv c key value seconds s).0 ≡ ok done
      → srv.entry (c.keyspace (set_cache srv c key value seconds s).1) at
        ≡ (if text_eq at key then some (value, expires seconds) else srv.entry (c.keyspace s) at)
  unfolding set_cache
  set_cache-entry key value zero s done at h =
      ap (λ t. srv.entry t at)
        ((client.call_ok (Unit {0}) (λ t. (tt, srv.set key value t)) s done h).1)
      ∙ laws.entry-set key value at (c.keyspace s)
  set_cache-entry key value (suc n) s done at h =
      let positive : ltb 0 (suc n) ≡ true = ground arith in
      rw (positive, set_cache)
        (ap (λ t. srv.entry t at)
          ((client.call_ok (Unit {0}) (λ t. (tt, srv.set_px key value (suc n * 1000) t)) s done
            (rw (positive, set_cache) at h)).1))
      ∙ laws.entry-set_px key value (suc n * 1000) at (c.keyspace s) (omega arith)

  -- A write that answers leaves under its key the value, and changes no other thing that is cached. A
  -- setting that is missing, no number or 0 leaves the time to live that is its key's default, and a
  -- positive one its seconds; a negative one leaves an entry that never expires. A count of a list
  -- lives for three minutes.
  pub set_lem :
      (k : CacheKey) (value : Text) (s : c.State) (done : Unit {0})
      → (set k value s).0 ≡ ok done
      → let after = c.keyspace (set k value s).1 in
        (srv.entry after (key_text k) ≡ some (value, expiry ttl k))
        × ((j : CacheKey)
            → j ≢ k
            → srv.entry after (key_text j) ≡ srv.entry (c.keyspace s) (key_text j))
  set_lem k value s done h =
      let same = set-set_cache k value in
      let at_key = λ (j : CacheKey).
        ap (λ f. srv.entry (c.keyspace (f s).1) (key_text j)) same
        ∙ set_cache-entry (key_text k) value (ttl_seconds ttl k) s done (key_text j)
            (sym (ap (λ f. (f s).0) same) ∙ h) in
      (
        at_key k
            ∙ rw (text_eq_refl (key_text k)) (ap (λ o. some (value, o)) (expires-ttl_seconds k)),
        λ j differ. at_key j ∙ rw (other_key j k differ) refl,
      )
