-- ===== src/Tenant/Guard/Examples.antt =====
-- Tests of the guards, and the theorems at concrete requests.
use openviking_admin.Prelude.{
  ◌+◌, String, ◌≡◌, refl, ◌≢◌, ◌↔◌, ◌⊎◌, true, false, Option, none, some, [], ◌∷◌, arith, eq_iff,
  str_eq, if◌then◌else◌, truthy, ok, get, set,
}
use openviking_admin.Tenant.{
  Tenant, Cache, IsolationConfig, get_isolation_config_by_tenant_record_id,
}
use openviking_admin.Tenant.Guard.{
  RequestUser, QueryRunner, Request, Environment, GuardState, with_underscores, schema_name,
  acquire_tenant_query_runner, route, can_activate, includes, roles_can_activate, tenant_guard,
  run_guards, serve,
}
use openviking_admin.Prelude.{List}
use openviking_admin.Tenant.Staleness.{CacheEvent, asks, passes}
use openviking_admin.Tenant.Guard.Isolation.{of_user, can_activate_unscoped_iff}
use openviking_admin.Tenant.{get_isolation_config, load, resolve_cache_ttl_ms}
use openviking_admin.Tenant.Guard.Names.{has_underscore, schema_name-ne}
use openviking_admin.Tenant.Guard.Runners.{roles_guards, serve_once, serve_twice}

abbrev medium : Tenant
medium = record { id = "1"; tenant_id = "acme-1"; isolation_level = "medium"; db_config = none }

abbrev env : Environment
env = record {
  now = 10;
  find_by_id = λ now id. if str_eq id "1" then some medium else none;
  find_by_tenant_id = λ now id. if str_eq id "acme-1" then some medium else none;
  cache_ttl_ms = none;
  query_ms = 2;
  data_source_of = λ id db. none;
  connects = true;
  sets_path = λ path. true;
}

abbrev anonymous : Request
anonymous = record {
  user = none;
  tenant_scope = none;
  tenant_schema_name = none;
  tenant_data_source = none;
  tenant_query_runner = none;
}

abbrev viewer : RequestUser
viewer = record { role = "tenant_viewer"; tenant_id = some "1" }

abbrev admin : RequestUser
admin = record { role = "super_admin"; tenant_id = none }

abbrev state : GuardState
state = record { cache = []; open_runners = 0 }

abbrev config : IsolationConfig
config = record { tenant_id = "acme-1"; level = "medium"; db_config = none }

abbrev runner : String → Option QueryRunner
runner path = some (record { search_path = path })

abbrev in_schema : Request
in_schema = record (of_user viewer anonymous) {
  tenant_scope = some "acme-1";
  tenant_schema_name = some "tenant_acme_1";
  tenant_query_runner = runner "\"tenant_acme_1\", public";
}

abbrev filled : Cache
filled = ("acme-1", record { value = config; expires_at = 600012 }) ∷ []

activated :
    can_activate env (of_user viewer anonymous) state
    ≡ (ok true, in_schema, record { cache = filled; open_runners = 1 })
unfolding can_activate route acquire_tenant_query_runner schema_name with_underscores
    get_isolation_config_by_tenant_record_id get_isolation_config load resolve_cache_ttl_ms get set
activated = refl

-- Tenants whose names differ in `-` and `_` only share their schema.
shared_schema : schema_name "acme-1" ≡ schema_name "acme_1"
unfolding schema_name with_underscores
shared_schema = refl

abbrev known : Cache
known = ("acme-1", record { value = config; expires_at = 600002 }) ∷ []

abbrev asked_before : List (CacheEvent env.find_by_tenant_id env.cache_ttl_ms)
asked_before = asks "acme-1" 2 ∷ passes 8 ∷ []

can_activate_unscoped_iff_example :
    (in_schema.tenant_scope ≡ none)
    ↔ ((viewer.role ≡ "super_admin") ⊎ (truthy viewer.tenant_id ≡ false))
can_activate_unscoped_iff_example =
    can_activate_unscoped_iff env anonymous in_schema state
      (record { cache = filled; open_runners = 1 }) viewer activated

acme_no_underscore : has_underscore "acme-1" ≡ false
unfolding has_underscore
acme_no_underscore = refl

abbrev two : String
two = "acme-2"

two_no_underscore : has_underscore two ≡ false
unfolding has_underscore
two_no_underscore = refl

different : ◌≢◌ {A = String} "acme-1" two
different = ground (arith, eq_iff "acme-1" two)

schema_name-ne_example : schema_name "acme-1" ≢ schema_name two
schema_name-ne_example = schema_name-ne "acme-1" two different acme_no_underscore two_no_underscore

abbrev given_back : GuardState
given_back = record { cache = filled; open_runners = 0 }

abbrev leaked : GuardState
leaked = record { cache = []; open_runners = 1 }

served_once :
    serve env
      (tenant_guard ∷ roles_guards (("tenant_viewer" ∷ []) ∷ []))
      (of_user viewer anonymous)
      state
    ≡ (ok true, in_schema, record { cache = filled; open_runners = 0 })
unfolding serve run_guards can_activate route acquire_tenant_query_runner schema_name
    with_underscores get_isolation_config_by_tenant_record_id get_isolation_config load
    resolve_cache_ttl_ms get set roles_can_activate includes
served_once = refl

serve_once_example : given_back.open_runners ≡ 0
serve_once_example =
    serve_once env viewer (("tenant_viewer" ∷ []) ∷ []) anonymous in_schema state given_back refl
      served_once

abbrev in_public : Request
in_public = record (of_user admin anonymous) { tenant_query_runner = runner "public" }

served_twice :
    serve env
      (tenant_guard ∷ tenant_guard ∷ roles_guards (("super_admin" ∷ []) ∷ []))
      (of_user admin anonymous)
      state
    ≡ (ok true, in_public, record { cache = []; open_runners = 1 })
unfolding serve run_guards can_activate acquire_tenant_query_runner roles_can_activate includes
served_twice = refl

-- The role is refused after the guard has taken a connection, which stays taken.
refused_role :
    (serve env
      (tenant_guard ∷ roles_guards (("tenant_admin" ∷ []) ∷ []))
      (of_user admin anonymous)
      state).2.open_runners
    ≡ 1
unfolding serve run_guards can_activate acquire_tenant_query_runner roles_can_activate includes
refused_role = refl

serve_twice_example : leaked.open_runners ≡ state.open_runners + 1
serve_twice_example =
    serve_twice env admin (("super_admin" ∷ []) ∷ []) anonymous in_public state leaked refl
      served_twice
