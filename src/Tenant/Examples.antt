-- ===== src/Tenant/Examples.antt =====
-- Tests of the cache of tenants, and its theorems at concrete caches.
use openviking_admin.Prelude.{
  List, String, ◌≡◌, refl, none, some, [], ◌∷◌, str_eq, if◌then◌else◌, ltb, get, set,
}
use openviking_admin.Tenant.{
  Tenant, Repository, config_of, resolve_cache_ttl_ms, load, get_isolation_config,
}
use openviking_admin.Tenant.Staleness.{CacheEvent, passes, asks, sweeps}

abbrev tenant : String → Tenant
tenant level = record { id = "1"; tenant_id = "t"; isolation_level = level; db_config = none }

-- The tenant moves to its own database at 1000.
abbrev repo : Repository
repo now id =
    if str_eq id "t" then some (if ltb now 1000 then tenant "small" else tenant "large") else none

-- The old level is still answered.
stale_answer :
    (get_isolation_config repo none 1200 3 "t" (get_isolation_config repo none 500 3 "t" []).1).0
    ≡ config_of (some (tenant "small"))
unfolding get_isolation_config load resolve_cache_ttl_ms get set
stale_answer = refl

abbrev events : List (CacheEvent repo none)
events = asks "t" 3 ∷ passes 700 ∷ sweeps ∷ []
