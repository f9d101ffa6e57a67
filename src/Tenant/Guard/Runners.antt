-- ===== src/Tenant/Guard/Runners.antt =====
-- How many connections of the default database a request leaves taken.
use openviking_admin.Prelude.{
  ℕ, ◌+◌, String, ◌≡◌, refl, sym, ap, ◌∙◌, ◌≢◌, ◌⊎◌, inl, inr, true, false, Option, none, some,
  List, [], ◌∷◌, arith, str_eq, if◌then◌else◌, Bool-cases, Option-cases, truthy, or_else, ok, err,
}
use openviking_admin.Tenant.{Cache, IsolationConfig}
use openviking_admin.Tenant.Guard.{
  RequestUser, Request, Environment, GuardState, Activation, schema_name,
  acquire_tenant_query_runner, route, routed, tenant_record_id, cached_config, can_activate,
  roles_can_activate, RouteGuard, tenant_guard, roles_guard, and_then, run_guards, cleaned_up,
  cleaned_up_if, serve,
}
use openviking_admin.Tenant.Guard.Isolation.{acquire_success, of_user, cleared}

-- What the guard takes: a connection with the request, or none.
abbrev Takes : Request → Request → GuardState → GuardState → Type 0
Takes request after s t =
    ((after.tenant_query_runner ≡ request.tenant_query_runner) × (t.open_runners ≡ s.open_runners))
    ⊎ ((after.tenant_query_runner ≢ none) × (t.open_runners ≡ s.open_runners + 1))

acquire-Takes :
    (env : Environment) (request after : Request) (s t : GuardState)
    → acquire_tenant_query_runner env request s ≡ (ok true, after, t)
    → (after.tenant_query_runner ≢ none) × (t.open_runners ≡ s.open_runners + 1)
acquire-Takes env request after s t h =
    let (same, one_more) = acquire_success env request after s t h in
    (rw same (λ is. cc), rw one_more refl)

route-Takes :
    (env : Environment) (config : IsolationConfig) (request after : Request) (s t : GuardState)
    → route env config request s ≡ (ok true, after, t)
    → Takes request after s t
unfolding route
route-Takes env config request after s t h = elim (Bool-cases (str_eq config.level "large")) [
  | inl large ↦ elim (Option-cases config.db_config) [
    | inl e ↦ absurd (ground (arith, large, e, h))
    | inr (db, e) ↦ elim (Option-cases (env.data_source_of config.tenant_id db)) [
      | inl e2 ↦ absurd (ground (arith, large, e, e2, h))
      | inr (source, e2) ↦
          let same = sym (rw (large, e, e2) at h) in
          inl (
            ap (λ (x : Activation). x.1.tenant_query_runner) same,
            ap (λ (x : Activation). x.2.open_runners) same,
          )
    ]
  ]
  | inr shared ↦
      let scoped : Request = record request { tenant_scope = some config.tenant_id } in
      inr (
        acquire-Takes env
          (if str_eq config.level "medium"
            then record scoped { tenant_schema_name = some (schema_name config.tenant_id) }
            else scoped)
          after s t (rw shared at h))
]

routed-Takes :
    (env : Environment) (request after : Request) (s t : GuardState)
    (found : Option IsolationConfig × Cache)
    → routed env request s found ≡ (ok true, after, t)
    → Takes request after s t
routed-Takes env request after s t (none, cache) h = absurd (cc)
routed-Takes env request after s t (some config, cache) h =
    route-Takes env config request after (record s { cache = cache }) t h

activate-Takes :
    (env : Environment) (user : RequestUser) (request after : Request) (s t : GuardState)
    → can_activate env (of_user user request) s ≡ (ok true, after, t)
    → Takes request after s t
unfolding can_activate
activate-Takes env user request after s t h = elim (Bool-cases (truthy (tenant_record_id user))) [
  | inl scoped ↦
      routed-Takes env (cleared (of_user user request)) after s t
        (cached_config env (or_else (tenant_record_id user) "") s.cache) (rw scoped at h)
  | inr unscoped ↦
      inr (acquire-Takes env (cleared (of_user user request)) after s t (rw unscoped at h))
]

-- Guards on roles change nothing.
abbrev pub roles_guards : List (List String) → List RouteGuard
roles_guards [] = []
roles_guards (roles ∷ rest) = roles_guard roles ∷ roles_guards rest

roles_guards_pass :
    (env : Environment) (all : List (List String)) (request after : Request) (s t : GuardState)
    → run_guards env (roles_guards all) request s ≡ (ok true, after, t)
    → (after ≡ request) × (t ≡ s)
unfolding run_guards
roles_guards_pass env [] request after s t h =
    (ap (λ (x : Activation). x.1) (sym h), ap (λ (x : Activation). x.2) (sym h))
roles_guards_pass env (roles ∷ rest) request after s t h =
    elim (Bool-cases (roles_can_activate roles request)) [
      | inl passed ↦ roles_guards_pass env rest request after s t (rw passed at h)
      | inr refused ↦ absurd (ground (arith, refused, h))
    ]

and_then-passed :
    (first : Activation) (next : Request → GuardState → Activation) (after : Request)
    (t : GuardState)
    → and_then first next ≡ (ok true, after, t)
    → (r : Request) × (u : GuardState) × (first ≡ (ok true, r, u))
      × (next r u ≡ (ok true, after, t))
and_then-passed (ok true, r, u) next after t h = (r, u, refl, h)
and_then-passed (ok false, r, u) next after t h = absurd (cc)
and_then-passed (err e, r, u) next after t h = absurd (cc)

cleaned_up_if-passed :
    (run : Activation) (after : Request) (t : GuardState)
    → cleaned_up_if run ≡ (ok true, after, t)
    → (u : GuardState) × (run ≡ (ok true, after, u)) × (t ≡ cleaned_up after u)
cleaned_up_if-passed (ok true, r, u) after t h =
    let same : r ≡ after = ap (λ (x : Activation). x.1) h in
    (
      u,
      ap (λ x. (ok true, x, u)) same,
      ap (λ (x : Activation). x.2) (sym h) ∙ ap (λ x. cleaned_up x u) same,
    )
cleaned_up_if-passed (ok false, r, u) after t h = absurd (cc)
cleaned_up_if-passed (err e, r, u) after t h = absurd (cc)

cleaned_up-taken :
    (after : Request) (u : GuardState) (n : ℕ)
    → after.tenant_query_runner ≢ none
    → u.open_runners ≡ n + 1
    → (cleaned_up after u).open_runners ≡ n
cleaned_up-taken after u n taken e = elim (Option-cases after.tenant_query_runner) [
  | inl is ↦ absurd (taken is)
  | inr (_, is) ↦ rw is (omega (arith, e))
]

cleaned_up-free :
    (after : Request) (u : GuardState)
    → after.tenant_query_runner ≡ none
    → (cleaned_up after u).open_runners ≡ u.open_runners
cleaned_up-free after u free = rw free refl

unscoped-Takes :
    (env : Environment) (user : RequestUser) (request after : Request) (s t : GuardState)
    → request.user ≡ some user
    → truthy (tenant_record_id user) ≡ false
    → can_activate env request s ≡ (ok true, after, t)
    → (after.user ≡ some user)
      × (after.tenant_query_runner ≢ none)
      × (t.open_runners ≡ s.open_runners + 1)
unfolding can_activate
unscoped-Takes env user request after s t e unscoped h =
    let same : request ≡ of_user user request = ap (λ x. record request { user = x }) e in
    let activated : can_activate env (of_user user request) s ≡ (ok true, after, t) =
      ap (λ x. can_activate env x s) (sym same) ∙ h in
    let (is, one_more) =
      acquire_success env (cleared (of_user user request)) after s t (rw unscoped at activated) in
    (rw is refl, rw is (λ n. cc), rw one_more refl)

-- A request that a route with the guard once, and guards on roles after it, lets pass leaves as
-- many connections taken as there were; for a request that comes without one.
pub serve_once :
    (env : Environment) (user : RequestUser) (all : List (List String)) (request after : Request)
    (s t : GuardState)
    → request.tenant_query_runner ≡ none
    → serve env (tenant_guard ∷ roles_guards all) (of_user user request) s ≡ (ok true, after, t)
    → t.open_runners ≡ s.open_runners
unfolding serve run_guards
serve_once env user all request after s t none_yet h =
    let (u, passed, clean) = cleaned_up_if-passed _ after t h in
    let (r, v, first, rest) =
      and_then-passed (can_activate env (of_user user request) s)
        (λ r t. run_guards env (roles_guards all) r t) after u passed in
    let (kept, same) = roles_guards_pass env all r after v u rest in
    elim (activate-Takes env user request r s v first) [
      | inl (runner, as_before) ↦
          ap (λ (x : GuardState). x.open_runners) clean
          ∙ cleaned_up-free after u
              (ap (λ (x : Request). x.tenant_query_runner) kept ∙ runner ∙ none_yet)
          ∙ ap (λ (x : GuardState). x.open_runners) same
          ∙ as_before
      | inr (taken, one_more) ↦
          ap (λ (x : GuardState). x.open_runners) clean
          ∙ cleaned_up-taken after u s.open_runners
              (λ is. taken (ap (λ (x : Request). x.tenant_query_runner) (sym kept) ∙ is))
              (ap (λ (x : GuardState). x.open_runners) same ∙ one_more)
    ]

-- A request of a user without a scope that a route with the guard twice lets pass, as the routes of
-- the editor that save have it from their controller and again of their own, leaves one more
-- connection taken than there were.
pub serve_twice :
    (env : Environment) (user : RequestUser) (all : List (List String)) (request after : Request)
    (s t : GuardState)
    → truthy (tenant_record_id user) ≡ false
    → serve env (tenant_guard ∷ tenant_guard ∷ roles_guards all) (of_user user request) s
      ≡ (ok true, after, t)
    → t.open_runners ≡ s.open_runners + 1
unfolding serve run_guards
serve_twice env user all request after s t unscoped h =
    let (u, passed, clean) = cleaned_up_if-passed _ after t h in
    let (r, v, first, rest) =
      and_then-passed (can_activate env (of_user user request) s)
        (λ r t. run_guards env (tenant_guard ∷ roles_guards all) r t) after u passed in
    let (by_user, _, one_more) =
      unscoped-Takes env user (of_user user request) r s v refl unscoped first in
    let (q, w, second, last) =
      and_then-passed (can_activate env r v) (λ r t. run_guards env (roles_guards all) r t) after u
        rest in
    let (kept, same) = roles_guards_pass env all q after w u last in
    let (_, taken, another) = unscoped-Takes env user r q v w by_user unscoped second in
    ap (λ (x : GuardState). x.open_runners) clean
    ∙ cleaned_up-taken after u (s.open_runners + 1)
        (λ is. taken (ap (λ (x : Request). x.tenant_query_runner) (sym kept) ∙ is))
        (ap (λ (x : GuardState). x.open_runners) same ∙ another ∙ ap (λ n. n + 1) one_more)
