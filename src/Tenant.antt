-- ===== src/Tenant.antt =====
-- apps/server/src/tenant/tenant-cache.service.ts: where the data of a tenant is, kept for a while. The
-- repository of tenants changes under the cache: it is a function of the time. Times are
-- milliseconds.
pub mod Staleness
pub mod Identity
pub mod Pool
pub mod Guard
mod Examples
use openviking_admin.Prelude.{
  ℕ, ◌+◌, ◌*◌, String, Bool, not, Option, none, some, if◌then◌else◌, ltb, get, set, delete, Map,
  sweep,
}

pub record DbConfig : Type 0 where
  pub host : Option String
  pub port : Option ℕ
  pub username : Option String
  pub password : Option String
  pub database : Option String

pub record Tenant : Type 0 where
  pub id : String
  pub tenant_id : String
  pub isolation_level : String
  pub db_config : Option DbConfig

pub record IsolationConfig : Type 0 where
  pub tenant_id : String
  pub level : String
  pub db_config : Option DbConfig

pub record CacheEntry : Type 0 where
  pub value : IsolationConfig
  pub expires_at : ℕ

abbrev pub Cache : Type 0
Cache = Map CacheEntry

-- What `findByTenantId` answers at a time.
abbrev pub Repository : Type 0
Repository = ℕ → String → Option Tenant

abbrev pub config_of : Option Tenant → Option IsolationConfig
config_of none = none
config_of (some tenant) = some (record {
  tenant_id = tenant.tenant_id;
  level = tenant.isolation_level;
  db_config = tenant.db_config;
})

-- The setting as a number, where it is a finite one; the default is ten minutes.
unfoldable pub resolve_cache_ttl_ms : Option ℕ → ℕ
resolve_cache_ttl_ms none = 10 * 60000
resolve_cache_ttl_ms (some ttl_ms) = if ltb 0 ttl_ms then ttl_ms else 10 * 60000

abbrev pub is_live : ℕ → CacheEntry → Bool
is_live now entry = ltb now entry.expires_at

-- Asks the repository at `now`, and keeps what it answers when it has: the clock is read again
-- after `query_ms`. Nothing else is taken to change the cache in between.
unfoldable pub load :
    Repository → Option ℕ → ℕ → ℕ → String → Cache → Option IsolationConfig × Cache
unfolding resolve_cache_ttl_ms set
load repo ttl now query_ms tenant_id cache = elim (config_of (repo now tenant_id)) [
  | none ↦ (none, cache)
  | some config ↦ (
    some config,
    set tenant_id
        (record { value = config; expires_at = now + query_ms + resolve_cache_ttl_ms ttl }) cache,
  )
]

unfoldable pub get_isolation_config :
    Repository → Option ℕ → ℕ → ℕ → String → Cache → Option IsolationConfig × Cache
unfolding load get delete
get_isolation_config repo ttl now query_ms tenant_id cache = elim (get tenant_id cache) [
  | none ↦ load repo ttl now query_ms tenant_id cache
  | some cached ↦
      if is_live now cached
      then (some cached.value, cache)
      else load repo ttl now query_ms tenant_id (delete tenant_id cache)
]

-- By the id of the tenant's record, or else by its name, as far as the cache is concerned. The
-- lookups before are taken to need no time.
unfoldable pub get_isolation_config_by_tenant_record_id :
    Repository → Repository → Option ℕ → ℕ → ℕ → String → Cache → Option IsolationConfig × Cache
unfolding get_isolation_config
get_isolation_config_by_tenant_record_id find_by_id repo ttl now query_ms record_id cache =
    elim (find_by_id now record_id) [
      | some tenant ↦ get_isolation_config repo ttl now query_ms tenant.tenant_id cache
      | none ↦ elim (repo now record_id) [
        | some tenant ↦ get_isolation_config repo ttl now query_ms tenant.tenant_id cache
        | none ↦ (none, cache)
      ]
    ]

unfoldable pub invalidate : String → Cache → Cache
unfolding delete
invalidate tenant_id cache = delete tenant_id cache

unfoldable pub cleanup_expired : ℕ → Cache → Cache × ℕ
unfolding sweep
cleanup_expired now cache = sweep (λ entry. not (is_live now entry)) cache
