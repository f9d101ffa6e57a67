-- ===== src/Tenant/Pool/Examples.antt =====
-- Tests of the pool of connections, and the theorems at concrete runs.
use openviking_admin.Prelude.{
  ℕ, ◌≡◌, refl, ◌≢◌, true, none, some, List, [], ◌∷◌, In, get, set, delete,
}
use openviking_admin.Tenant.{DbConfig}
use openviking_admin.Tenant.Pool.{
  DataSource, empty_pool, options_of, is_among, without, ready, starts, get_tenant_data_source,
  initialize_tenant_data_source, evict_if_idle, evict_idle_tenants, find, end_destroy,
  on_module_destroy,
}
use openviking_admin.Tenant.Pool.Connections.{
  PoolEvent, asks, ends, visits, pool_run, pool_run-on_module_destroy,
  pool_run-get_tenant_data_source,
}

abbrev db : DbConfig
db = record {
  host = some "db.acme";
  port = none;
  username = some "acme";
  password = none;
  database = some "kb";
}

abbrev source : DataSource
source = record { id = 0; tenant_id = "acme"; options = options_of db }

-- Two requests meet one opening, and the clean-up comes before and after the time of idleness.
abbrev events : List PoolEvent
events = asks 1 "acme" db ∷ asks 2 "acme" db ∷ ends true 5 0 ∷ visits 100 50 "acme" ∷ []

-- The clean-up destroys the first connection; a second one is opened before it is closed.
abbrev overlap : List PoolEvent
overlap =
    asks 1 "acme" db
    ∷ ends true 5 0
    ∷ visits 100 105 "acme"
    ∷ asks 106 "acme" db
    ∷ ends true 107 1
    ∷ []

two_open :
    let p = pool_run overlap empty_pool in
    ((p.opened ≡ record source { id = 1 } ∷ []) × (p.closing ≡ source ∷ []))
unfolding pool_run get_tenant_data_source initialize_tenant_data_source evict_if_idle get set delete
    is_among without find end_destroy
two_open = (refl, refl)

-- An opening that the shutdown finds in flight.
abbrev in_flight : List PoolEvent
in_flight = asks 1 "acme" db ∷ []

flies : is_among 0 (pool_run in_flight empty_pool).in_flight ≡ true
unfolding pool_run get_tenant_data_source is_among get set
flies = refl

kept_open : (pool_run events empty_pool).opened ≡ source ∷ []
unfolding pool_run get_tenant_data_source initialize_tenant_data_source evict_if_idle get set delete
    is_among without find end_destroy
kept_open = refl

evicted : (evict_idle_tenants 100 105 (pool_run events empty_pool)).0.opened ≡ []
unfolding pool_run get_tenant_data_source initialize_tenant_data_source evict_if_idle get set delete
    is_among without find end_destroy evict_idle_tenants
evicted = refl

-- A changed configuration is not used as long as the connection is open.
old_database :
    (get_tenant_data_source 60 "acme"
      (record db { host = some "new.acme" })
      (pool_run events empty_pool)).0
    ≡ ready source
unfolding pool_run get_tenant_data_source initialize_tenant_data_source evict_if_idle get set delete
    is_among without find end_destroy
old_database = refl

pool_run-on_module_destroy_example :
    let p = pool_run in_flight empty_pool in
    let left = on_module_destroy p in
    (left.opened ≡ [])
    × (left.in_flight ≡ p.in_flight)
    × ((now id : ℕ)
        → is_among id p.in_flight ≡ true
        → (s : DataSource) × (s.id ≡ id)
          × In s (initialize_tenant_data_source true now id left).opened
          × (get s.tenant_id (initialize_tenant_data_source true now id left).pool ≡ some s))
pool_run-on_module_destroy_example = pool_run-on_module_destroy in_flight

-- The shutdown leaves the connection that is then made open.
leaked :
    (initialize_tenant_data_source true 9 0
      (on_module_destroy (pool_run in_flight empty_pool))).opened
    ≡ source ∷ []
unfolding pool_run get_tenant_data_source initialize_tenant_data_source on_module_destroy get set
    delete is_among without find
leaked = refl

-- It is asked while the first connection is being destroyed.
pool_run-get_tenant_data_source_example :
    ((s : DataSource)
      → (get_tenant_data_source 108 "acme" db (pool_run overlap empty_pool)).0 ≡ ready s
      → (s.tenant_id ≡ "acme") × In s (pool_run overlap empty_pool).opened)
    × ((get_tenant_data_source 108 "acme" db (pool_run overlap empty_pool)).0 ≡ starts
        → (s : DataSource) → In s (pool_run overlap empty_pool).opened
        → s.tenant_id ≢ "acme")
pool_run-get_tenant_data_source_example = pool_run-get_tenant_data_source overlap 108 "acme" db
