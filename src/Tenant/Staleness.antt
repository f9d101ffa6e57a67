-- ===== src/Tenant/Staleness.antt =====
-- How old an answer of the cache can be.
use openviking_admin.Prelude.{
  ℕ, ◌+◌, ◌≤◌, ◌<◌, String, ◌≡◌, ◌⊎◌, Option, none, some, List, [], ◌∷◌, get, HasUniqueKeys,
}
use openviking_admin.Tenant.{
  CacheEntry, Cache, Repository, config_of, resolve_cache_ttl_ms, get_isolation_config, invalidate,
  cleanup_expired,
}

module _ (repo : Repository) (ttl : Option ℕ) where
  -- The value was the answer of the repository to a question, and the lifetime counts from when it
  -- was there.
  abbrev pub Source : ℕ → String → CacheEntry → Type 0
  Source now key entry =
      (t : ℕ) × (u : ℕ) × (t ≤ u)
      × (u ≤ now)
      × (u + resolve_cache_ttl_ms ttl ≡ entry.expires_at)
      × (config_of (repo t key) ≡ some entry.value)

  pub record IsSourced (now : ℕ) (cache : Cache) : Type 0 where
    pub unique : HasUniqueKeys cache
    pub sourced :
        (key : String) (entry : CacheEntry) → get key cache ≡ some entry → Source now key entry

  -- What happens to the cache: time passes, it is asked, a tenant is changed, it is swept.
  pub data CacheEvent : Type 0 where
    passes : (time : ℕ) → CacheEvent
    asks : (tenant_id : String) (query_ms : ℕ) → CacheEvent
    invalidates : (tenant_id : String) → CacheEvent
    sweeps : CacheEvent

  abbrev pub run : List CacheEvent → ℕ × Cache → ℕ × Cache
  run [] s = s
  run (passes time ∷ events) (now, cache) = run events (now + time, cache)
  run (asks k query_ms ∷ events) (now, cache) =
      run events (now + query_ms, (get_isolation_config repo ttl now query_ms k cache).1)
  run (invalidates k ∷ events) (now, cache) = run events (now, invalidate k cache)
  run (sweeps ∷ events) (now, cache) = run events (now, (cleanup_expired now cache).0)

  -- The lifetime that is set, if it is a positive one, or ten minutes.
  abbrev pub IsLifetime : ℕ → Type 0
  IsLifetime life =
      ((ttl ≡ some life) × (0 < life)) ⊎ (((ttl ≡ none) ⊎ (ttl ≡ some 0)) × (life ≡ 600000))
