-- ===== src/Tenant/Guard/Isolation.antt =====
-- Where a request that has passed the guard reads and writes.
use openviking_admin.Prelude.{
  ◌+◌, ◌≡◌, refl, sym, ap, ◌≢◌, ◌↔◌, ◌⊎◌, inl, inr, true, false, Option, none, some, arith, eq_iff,
  str_eq, str_eq→≡, if◌then◌else◌, Bool-cases, Option-cases, truthy, or_else, ok,
}
use openviking_admin.Tenant.{DbConfig, Cache, IsolationConfig}
use openviking_admin.Tenant.Guard.{
  RequestUser, Request, Environment, GuardState, Activation, schema_name, path_for,
  acquire_tenant_query_runner, route, routed, tenant_record_id, cached_config, can_activate,
}

pub acquire_success :
    (env : Environment) (request after : Request) (s t : GuardState)
    → acquire_tenant_query_runner env request s ≡ (ok true, after, t)
    → (after ≡ record request {
      tenant_query_runner = some (record { search_path = path_for request.tenant_schema_name });
    })
      × (t ≡ record s { open_runners = s.open_runners + 1 })
unfolding acquire_tenant_query_runner
acquire_success env request after s t h = elim (Bool-cases env.connects) [
  | inr shut ↦ absurd (ground (arith, shut, h))
  | inl connected ↦ elim (Bool-cases (env.sets_path (path_for request.tenant_schema_name))) [
    | inr refused ↦ absurd (ground (arith, connected, refused, h))
    | inl set_path ↦
        let same = sym (rw (connected, set_path) at h) in
        (ap (λ (x : Activation). x.1) same, ap (λ (x : Activation). x.2) same)
  ]
]

-- The database, or the schema, of the tenant.
pub record IsRouted (env : Environment) (config : IsolationConfig) (before after : Request)
    : Type 0 where
  pub scope : after.tenant_scope ≡ some config.tenant_id
  pub own_database :
      str_eq config.level "large" ≡ true
      → (db : DbConfig) × (config.db_config ≡ some db)
        × (after.tenant_data_source ≡ env.data_source_of config.tenant_id db)
        × (after.tenant_data_source ≢ none)
        × (after.tenant_query_runner ≡ before.tenant_query_runner)
  pub own_schema :
      str_eq config.level "large" ≡ false
      → (after.tenant_data_source ≡ before.tenant_data_source)
        × (after.tenant_query_runner
            ≡ some (record {
              search_path = path_for (
                  if str_eq config.level "medium"
                  then some (schema_name config.tenant_id)
                  else before.tenant_schema_name);
            }))

route-IsRouted :
    (env : Environment) (config : IsolationConfig) (request after : Request) (s t : GuardState)
    → route env config request s ≡ (ok true, after, t)
    → IsRouted env config request after
unfolding route
route-IsRouted env config request after s t h = elim (Bool-cases (str_eq config.level "large")) [
  | inl large ↦ elim (Option-cases config.db_config) [
    | inl e ↦ absurd (ground (arith, large, e, h))
    | inr (db, e) ↦ elim (Option-cases (env.data_source_of config.tenant_id db)) [
      | inl e2 ↦ absurd (ground (arith, large, e, e2, h))
      | inr (source, e2) ↦
          let same = ap (λ (x : Activation). x.1) (rw (large, e, e2) at h) in
          rw (sym same) (record {
            scope = refl;
            own_database = λ _. (db, e, sym e2, λ is. cc, refl);
            own_schema = λ small. absurd (ground (arith, large, small));
          })
    ]
  ]
  | inr shared ↦
      let scoped : Request = record request { tenant_scope = some config.tenant_id } in
      let (same, _) =
        acquire_success env
          (if str_eq config.level "medium"
            then record scoped { tenant_schema_name = some (schema_name config.tenant_id) }
            else scoped)
          after s t (rw shared at h) in
      rw same (record {
        scope = elim (Bool-cases (str_eq config.level "medium")) [
          | inl medium ↦ rw medium refl
          | inr small ↦ rw small refl
        ];
        own_database = λ large. absurd (ground (arith, large, shared));
        own_schema = λ _. elim (Bool-cases (str_eq config.level "medium")) [
          | inl medium ↦ rw medium (refl, refl)
          | inr small ↦ rw small (refl, refl)
        ];
      })
]

abbrev pub cleared : Request → Request
cleared request = record request { tenant_scope = none; tenant_schema_name = none }

abbrev pub of_user : RequestUser → Request → Request
of_user user request = record request { user = some user }

routed-IsRouted :
    (env : Environment) (request after : Request) (s t : GuardState)
    (found : Option IsolationConfig × Cache)
    → routed env request s found ≡ (ok true, after, t)
    → (config : IsolationConfig) × (found.0 ≡ some config) × IsRouted env config request after
routed-IsRouted env request after s t (none, cache) h = absurd (cc)
routed-IsRouted env request after s t (some config, cache) h =
    (config, refl, route-IsRouted env config request after _ t h)

pub can_activate-IsRouted :
    (env : Environment) (request after : Request) (s t : GuardState) (user : RequestUser)
    → truthy (tenant_record_id user) ≡ true
    → can_activate env (of_user user request) s ≡ (ok true, after, t)
    → (config : IsolationConfig) × ((cached_config env
          (or_else (tenant_record_id user) "")
          s.cache).0
        ≡ some config)
      × IsRouted env config (cleared (of_user user request)) after
unfolding can_activate
can_activate-IsRouted env request after s t user scoped h =
    routed-IsRouted env (cleared (of_user user request)) after s t
      (cached_config env (or_else (tenant_record_id user) "") s.cache) (rw scoped at h)

-- A request that passes the guard is free of a scope exactly where its user is a super
-- administrator or has no tenant.
pub can_activate_unscoped_iff :
    (env : Environment) (request after : Request) (s t : GuardState) (user : RequestUser)
    → can_activate env (of_user user request) s ≡ (ok true, after, t)
    → (after.tenant_scope ≡ none) ↔ ((user.role ≡ "super_admin") ⊎ (truthy user.tenant_id ≡ false))
unfolding can_activate
can_activate_unscoped_iff env request after s t user h =
    elim (Bool-cases (truthy (tenant_record_id user))) [
      | inl scoped ↦
          let (config, _, is) = can_activate-IsRouted env request after s t user scoped h in
          (
            λ free. absurd (ground (arith, free, is.scope)),
            λ which. elim which [
              | inl admin ↦ absurd (ground (arith, scoped, admin, eq_iff user.role "super_admin"))
              | inr missing ↦ absurd (ground (arith, scoped, missing))
            ],
          )
      | inr unscoped ↦
          let (same, _) =
            acquire_success env (cleared (of_user user request)) after s t (rw unscoped at h) in
          (
            λ _. elim (Bool-cases (str_eq user.role "super_admin")) [
              | inl admin ↦ inl (str_eq→≡ user.role "super_admin" admin)
              | inr other ↦ inr (rw other at unscoped)
            ],
            λ _. rw same refl,
          )
    ]
