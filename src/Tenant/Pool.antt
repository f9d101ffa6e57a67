-- ===== src/Tenant/Pool.antt =====
-- apps/server/src/common/dynamic-datasource.service.ts: the connections to the databases of tenants
-- that have one of their own. Opening one and destroying one take time, in which other requests
-- come: a source in flight is being opened, also after its entry among the pending ones is
-- gone, an opened one is open, and a closing one is still open while its destruction goes on. A
-- source is told apart by a number. The loop of the shutdown is taken without other calls in
-- between.
pub mod Sources
pub mod Kept
pub mod Openings
pub mod Evictions
pub mod Connections
mod Examples
use mathlib.Core.Path.{subst}
use openviking_admin.Prelude.{
  ℕ, zero, suc, ◌+◌, ◌-◌, ◌*◌, ◌≤◌, ◌<◌, String, ◌≡◌, refl, sym, ap, ◌∙◌, ◌≢◌, ◌↔◌, ◌⊎◌, inl, inr,
  Bool, true, false, not, ◌&&◌, ◌||◌, Option, none, some, List, [], ◌∷◌, ◌++◌, map, arith, eq_iff,
  str_eq, str_eq_refl, str_eq→≡, str_ne, if◌then◌else◌, Bool-cases, if_holds, Option-cases, truthy,
  or_else, Result, ok, err, ◌>>=◌, ◌>>◌, is_ok, Result-cases, In, In-if, In-filter, In-append,
  In-append_left, In-append_right, length, length-append, ltb, leb, ◌==◌, get, set, delete, Map,
  sweep, HasUniqueKeys, fresh, modify, mapped, get-modify, modify-HasUniqueKeys, get-set,
  get-delete, get-sweep, set-HasUniqueKeys, delete-HasUniqueKeys, sweep-HasUniqueKeys, take,
  In-take, length-take, insert_by, sort_by, In-sort_by, take-sort_by,
}
use openviking_admin.Tenant.{DbConfig}

pub record Options : Type 0 where
  pub host : Option String
  pub port : ℕ
  pub username : Option String
  pub password : Option String
  pub database : Option String

pub record DataSource : Type 0 where
  pub id : ℕ
  pub tenant_id : String
  pub options : Options

pub record Pool : Type 0 where
  pub pool : Map DataSource
  pub last_used_at : Map ℕ
  pub pending_initializations : Map DataSource
  pub in_flight : List DataSource
  pub opened : List DataSource
  pub closing : List DataSource
  pub next_id : ℕ

abbrev pub empty_pool : Pool
empty_pool = record {
  pool = [];
  last_used_at = [];
  pending_initializations = [];
  in_flight = [];
  opened = [];
  closing = [];
  next_id = 0;
}

-- `Number(dbConfig.port) || 5432`
abbrev pub port_of : Option ℕ → ℕ
port_of none = 5432
port_of (some port) = if port == 0 then 5432 else port

abbrev pub options_of : DbConfig → Options
options_of config = record {
  host = config.host;
  port = port_of config.port;
  username = config.username;
  password = config.password;
  database = config.database;
}

unfoldable pub is_among : ℕ → List DataSource → Bool
is_among id [] = false
is_among id (source ∷ sources) = source.id == id || is_among id sources

abbrev pub is_initialized : DataSource → Pool → Bool
is_initialized source p = is_among source.id p.opened || is_among source.id p.closing

unfoldable pub without : ℕ → List DataSource → List DataSource
without id [] = []
without id (source ∷ sources) =
    let rest = without id sources in if source.id == id then rest else source ∷ rest

unfoldable pub find : ℕ → List DataSource → Option DataSource
find id [] = none
find id (source ∷ sources) =
    let rest = find id sources in if source.id == id then some source else rest

-- `if (ds.isInitialized) await ds.destroy()`, until it is done.
abbrev pub destroy : DataSource → Pool → Pool
destroy source p = record p {
  opened = without source.id p.opened;
  closing = without source.id p.closing;
}

-- The end of an awaited `ds.destroy()`.
unfoldable pub end_destroy : ℕ → Pool → Pool
unfolding without
end_destroy id p = record p { closing = without id p.closing }

-- What a request for a source gets at once: a source, or the end of an opening to wait for.
pub data Answer : Type 0 where
  ready : DataSource → Answer
  joins starts : Answer

abbrev pub made : String → DbConfig → Pool → DataSource
made tenant_id config p = record {
  id = p.next_id;
  tenant_id = tenant_id;
  options = options_of config;
}

abbrev pub started : String → DbConfig → Pool → Pool
started tenant_id config p = record p {
  pending_initializations = set tenant_id (made tenant_id config p) p.pending_initializations;
  in_flight = made tenant_id config p ∷ p.in_flight;
  next_id = p.next_id + 1;
}

abbrev pub join_or_start : String → DbConfig → Pool → Answer × Pool
join_or_start tenant_id config p = elim (get tenant_id p.pending_initializations) [
  | some _ ↦ (joins, p)
  | none ↦ (starts, started tenant_id config p)
]

unfoldable pub get_tenant_data_source : ℕ → String → DbConfig → Pool → Answer × Pool
unfolding get set delete is_among
get_tenant_data_source now tenant_id config p = elim (get tenant_id p.pool) [
  | none ↦ join_or_start tenant_id config p
  | some source ↦
      if is_initialized source p
      then (ready source, record p { last_used_at = set tenant_id now p.last_used_at })
      else join_or_start tenant_id config (record p {
        pool = delete tenant_id p.pool;
        last_used_at = delete tenant_id p.last_used_at;
      })
]

abbrev pub settled : DataSource → Pool → Pool
settled source p = record p {
  pending_initializations = delete source.tenant_id p.pending_initializations;
  in_flight = without source.id p.in_flight;
}

abbrev pub connected : ℕ → DataSource → Pool → Pool
connected now source p = record (settled source p) {
  pool = set source.tenant_id source p.pool;
  last_used_at = set source.tenant_id now p.last_used_at;
  opened = source ∷ p.opened;
}

-- The end of `initializeTenantDataSource`, and of the call that waits for it: the connection was
-- made, or it failed.
unfoldable pub initialize_tenant_data_source : Bool → ℕ → ℕ → Pool → Pool
unfolding get set delete without find
initialize_tenant_data_source connects now id p = elim (find id p.in_flight) [
  | none ↦ p
  | some source ↦ if connects then connected now source p else settled source p
]

abbrev pub closed_idle : String → DataSource → Pool → Pool
closed_idle tenant_id source p = record p {
  pool = delete tenant_id p.pool;
  last_used_at = delete tenant_id p.last_used_at;
  opened = without source.id p.opened;
  closing = if is_initialized source p then source ∷ p.closing else p.closing;
}

-- One turn of the loop of `evictIdleTenants`, up to its await.
unfoldable pub evict_if_idle : ℕ → ℕ → String → Pool → Pool × ℕ
unfolding get delete without is_among
evict_if_idle max_idle_ms now tenant_id p = elim (get tenant_id p.pool) [
  | none ↦ (p, 0)
  | some source ↦
      if ltb (now - or_else (get tenant_id p.last_used_at) 0) max_idle_ms
      then (p, 0)
      else (closed_idle tenant_id source p, 1)
]

-- The loop, where nothing else comes in its awaits.
evict_each : ℕ → ℕ → Map DataSource → Pool → ℕ → Pool × ℕ
unfolding evict_if_idle end_destroy
evict_each max_idle_ms now [] p evicted = (p, evicted)
evict_each max_idle_ms now ((tenant_id, source) ∷ entries) p evicted =
    let (q, n) = evict_if_idle max_idle_ms now tenant_id p in
    evict_each max_idle_ms now entries (end_destroy source.id q) (evicted + n)

unfoldable pub evict_idle_tenants : ℕ → ℕ → Pool → Pool × ℕ
unfolding evict_each
evict_idle_tenants max_idle_ms now p =
    if max_idle_ms == 0 then (p, 0) else evict_each max_idle_ms now p.pool p 0

unfoldable pub destroy_each : Map DataSource → Pool → Pool
unfolding without
destroy_each [] p = p
destroy_each ((_, source) ∷ entries) p = destroy_each entries (destroy source p)

-- Clearing the pending ones does not stop an opening.
unfoldable pub on_module_destroy : Pool → Pool
unfolding destroy_each
on_module_destroy p = record (destroy_each p.pool p) {
  pool = [];
  last_used_at = [];
  pending_initializations = [];
}
