-- ===== src/Tenant/Guard.antt =====
-- apps/server/src/common: tenant.guard.ts, which sends a request to the data of its tenant,
-- roles.guard.ts, and tenant-cleanup.interceptor.ts, which gives a connection back; and how the
-- framework runs the guards of a route, those of the controller first. The cache is the one of
-- tenant-cache.service.ts; the source for a database of a tenant's own comes from the environment,
-- once it is open.
pub mod Isolation
pub mod Routes
pub mod Names
pub mod Runners
mod Examples
use mathlib.Core.Path.{subst}
use openviking_admin.Prelude.{
  ℕ, zero, suc, ◌+◌, ◌-◌, ◌*◌, ◌≤◌, ◌<◌, String, ◌≡◌, refl, sym, ap, ◌∙◌, ◌≢◌, ◌↔◌, ◌⊎◌, inl, inr,
  Bool, true, false, not, ◌&&◌, ◌||◌, Option, none, some, List, [], ◌∷◌, ◌++◌, map, arith, eq_iff,
  str_eq, str_eq_refl, str_eq→≡, str_ne, if◌then◌else◌, Bool-cases, if_holds, Option-cases, truthy,
  or_else, Result, ok, err, ◌>>=◌, ◌>>◌, is_ok, Result-cases, In, In-if, In-filter, In-append,
  In-append_left, In-append_right, length, length-append, ltb, leb, ◌==◌, get, set, delete, Map,
  sweep, HasUniqueKeys, fresh, modify, mapped, get-modify, modify-HasUniqueKeys, get-set,
  get-delete, get-sweep, set-HasUniqueKeys, delete-HasUniqueKeys, sweep-HasUniqueKeys, take,
  In-take, length-take, insert_by, sort_by, In-sort_by, take-sort_by,
}
use Prim.Native.String
use Prim.Native.Char.{Char, code}
use openviking_admin.Tenant.{
  Tenant, DbConfig, Repository, Cache, IsolationConfig, get_isolation_config_by_tenant_record_id,
}
use openviking_admin.Tenant.Pool.{DataSource}

pub record RequestUser : Type 0 where
  pub role : String
  pub tenant_id : Option String

-- A connection of the default database, after `SET search_path TO`.
pub record QueryRunner : Type 0 where
  pub search_path : String

pub record Request : Type 0 where
  pub user : Option RequestUser
  pub tenant_scope : Option String
  pub tenant_schema_name : Option String
  pub tenant_data_source : Option DataSource
  pub tenant_query_runner : Option QueryRunner

pub data GuardError : Type 0 where
  config_missing database_missing connection_failed : GuardError

-- The time, the tenants by record id and by name, the lifetime in the cache, how long a query takes,
-- the sources of own databases, whether the default database gives a connection, and whether it
-- takes a search path.
pub record Environment : Type 0 where
  pub now : ℕ
  pub find_by_id : Repository
  pub find_by_tenant_id : Repository
  pub cache_ttl_ms : Option ℕ
  pub query_ms : ℕ
  pub data_source_of : String → DbConfig → Option DataSource
  pub connects : Bool
  pub sets_path : String → Bool

-- The cache, and how many connections of the default database are taken.
pub record GuardState : Type 0 where
  pub cache : Cache
  pub open_runners : ℕ

abbrev pub Activation : Type 0
Activation = Result GuardError Bool × Request × GuardState

-- `replace(/-/g, '_')`
unfoldable pub with_underscores : String → String
with_underscores String.[] = String.[]
with_underscores (String.◌∷◌ c s) =
    String.◌∷◌ (if code c == b'-' then "_" else c) (with_underscores s)

unfoldable pub schema_name : String → String
unfolding with_underscores
schema_name tenant_id = String.◌++◌ "tenant_" (with_underscores tenant_id)

-- The search path that goes with the name of a schema.
abbrev pub path_for : Option String → String
path_for schema = elim (if truthy schema then schema else none) [
  | none ↦ "public"
  | some name ↦ String.◌++◌ "\"" (String.◌++◌ name "\", public")
]

unfoldable pub acquire_tenant_query_runner : Environment → Request → GuardState → Activation
acquire_tenant_query_runner env request s =
    let path = path_for request.tenant_schema_name in
    let taken : GuardState = record s { open_runners = s.open_runners + 1 } in
    if env.connects
    then if env.sets_path path
      then (
        ok true,
        record request { tenant_query_runner = some (record { search_path = path }) },
        taken,
      )
      else (err connection_failed, request, taken)
    else (err connection_failed, request, s)

-- A request of a tenant, by where the tenant's data is.
unfoldable pub route : Environment → IsolationConfig → Request → GuardState → Activation
unfolding acquire_tenant_query_runner schema_name
route env config request s =
    let scoped : Request = record request { tenant_scope = some config.tenant_id } in
    if str_eq config.level "large"
    then elim config.db_config [
      | none ↦ (err database_missing, scoped, s)
      | some db ↦ elim (env.data_source_of config.tenant_id db) [
        | none ↦ (err connection_failed, scoped, s)
        | some source ↦ (ok true, record scoped { tenant_data_source = some source }, s)
      ]
    ]
    else acquire_tenant_query_runner env
        (if str_eq config.level "medium"
          then record scoped { tenant_schema_name = some (schema_name config.tenant_id) }
          else scoped)
        s

abbrev pub routed : Environment → Request → GuardState → Option IsolationConfig × Cache → Activation
routed env request s (none, cache) = (err config_missing, request, record s { cache = cache })
routed env request s (some config, cache) = route env config request (record s { cache = cache })

-- The tenant by which a request is routed, if any: not for a super administrator.
abbrev pub tenant_record_id : RequestUser → Option String
tenant_record_id user = if str_eq user.role "super_admin" then none else user.tenant_id

abbrev pub cached_config : Environment → String → Cache → Option IsolationConfig × Cache
cached_config env record_id cache =
    get_isolation_config_by_tenant_record_id env.find_by_id env.find_by_tenant_id env.cache_ttl_ms
      env.now env.query_ms record_id cache

unfoldable pub can_activate : Environment → Request → GuardState → Activation
unfolding route acquire_tenant_query_runner get_isolation_config_by_tenant_record_id
can_activate env request s = elim request.user [
  | none ↦ (ok false, request, s)
  | some user ↦
      let cleared : Request = record request { tenant_scope = none; tenant_schema_name = none } in
      if truthy (tenant_record_id user)
      then routed env cleared s (cached_config env (or_else (tenant_record_id user) "") s.cache)
      else acquire_tenant_query_runner env cleared s
]

-- `requiredRoles.includes(user.role)`
unfoldable pub includes : String → List String → Bool
includes role [] = false
includes role (required ∷ roles) = str_eq required role || includes role roles

unfoldable pub roles_can_activate : List String → Request → Bool
unfolding includes
roles_can_activate [] request = true
roles_can_activate roles request = elim request.user [
  | none ↦ false
  | some user ↦ includes user.role roles
]

-- The guards of a route, in the order in which they run.
pub data RouteGuard : Type 0 where
  tenant_guard : RouteGuard
  roles_guard : List String → RouteGuard

abbrev pub ask_guard : Environment → RouteGuard → Request → GuardState → Activation
ask_guard env tenant_guard request s = can_activate env request s
ask_guard env (roles_guard roles) request s = (ok (roles_can_activate roles request), request, s)

abbrev pub and_then : Activation → (Request → GuardState → Activation) → Activation
and_then (ok true, request, s) next = next request s
and_then (answer, request, s) next = (answer, request, s)

unfoldable pub run_guards : Environment → List RouteGuard → Request → GuardState → Activation
unfolding can_activate roles_can_activate
run_guards env [] request s = (ok true, request, s)
run_guards env (guard ∷ guards) request s =
    and_then (ask_guard env guard request s) (λ r t. run_guards env guards r t)

-- `intercept`, once the handler is done, whether or not it threw.
abbrev pub cleaned_up : Request → GuardState → GuardState
cleaned_up request s = elim request.tenant_query_runner [
  | none ↦ s
  | some _ ↦ record s { open_runners = s.open_runners - 1 }
]

-- The interceptor is in force only where all guards have passed.
abbrev pub cleaned_up_if : Activation → Activation
cleaned_up_if (ok true, request, s) = (ok true, request, cleaned_up request s)
cleaned_up_if (answer, request, s) = (answer, request, s)

-- A request through the guards of a route and its handler.
unfoldable pub serve : Environment → List RouteGuard → Request → GuardState → Activation
unfolding run_guards
serve env guards request s = cleaned_up_if (run_guards env guards request s)
