-- ===== src/Capability/Authorization.antt =====
-- apps/server/src/capabilities/application/capability-authorization.service.ts. The role of a
-- principal is any string. The table of weights is an object, so the name of a property that every
-- object inherits finds a function (or an object) there; in an order that is NaN, and every order
-- with NaN is false.
pub mod Agreement
use openviking_admin.Prelude.{
  ℕ, ◌≤◌, String, Option, none, some, Bool, true, false, not, List, [], ◌∷◌, str_eq, leb, ltb,
  truthy, or_else, ◌||◌, Result, ok, err, if◌then◌else◌,
}
use openviking_admin.Capability.Types.{Principal}
use openviking_admin.Capability.Contract.{
  CapabilityContract, CapabilityRoleRequirement, tenant_viewer, tenant_operator, tenant_admin,
  PermissionRequirement, tenant,
}

abbrev pub mem : String → List String → Bool
mem s [] = false
mem s (t ∷ ts) = str_eq t s || mem s ts

-- The properties of `Object.prototype`.
abbrev pub inherited_names : List String
inherited_names =
    "constructor" ∷ "__defineGetter__" ∷ "__defineSetter__" ∷ "hasOwnProperty" ∷ "__lookupGetter__"
    ∷ "__lookupSetter__" ∷ "isPrototypeOf" ∷ "propertyIsEnumerable" ∷ "toString" ∷ "valueOf"
    ∷ "__proto__" ∷ "toLocaleString" ∷ []

pub data JsNumber : Type 0 where
  num : ℕ → JsNumber
  nan : JsNumber

abbrev pub at_least : JsNumber → ℕ → Bool
at_least (num a) b = leb b a
at_least nan b = false

abbrev pub less_than : JsNumber → ℕ → Bool
less_than (num a) b = ltb a b
less_than nan b = false

-- `ROLE_WEIGHT[role] ?? 0`, as a number
unfoldable pub role_weight : String → JsNumber
role_weight role =
    if str_eq role "tenant_viewer"
    then num 1
    else if str_eq role "tenant_operator"
    then num 2
    else if str_eq role "tenant_admin"
    then num 3
    else if str_eq role "super_admin"
    then num 4
    else if mem role inherited_names
    then nan
    else num 0

abbrev pub required_weight : CapabilityRoleRequirement → ℕ
required_weight tenant_viewer = 1
required_weight tenant_operator = 2
required_weight tenant_admin = 3

abbrev needs_tenant : PermissionRequirement → Bool
needs_tenant tenant = true

unfoldable pub resolve_principal_role : Principal → String
resolve_principal_role principal = or_else principal.role "tenant_viewer"

-- The guard of both methods.
abbrev pub lacks_tenant : CapabilityContract → Principal → Bool
lacks_tenant contract principal =
    if needs_tenant contract.permission_requirement then not (truthy principal.tenant_id) else false

unfoldable pub can_access : CapabilityContract → Principal → Bool
can_access contract principal =
    if lacks_tenant contract principal then false else elim contract.minimum_role [
      | none ↦ true
      | some minimum ↦
          at_least (role_weight (resolve_principal_role principal)) (required_weight minimum)
    ]

pub data AuthorizationError : Type 0 where
  tenant_required : AuthorizationError
  role_required : CapabilityRoleRequirement → AuthorizationError

unfoldable pub authorize : CapabilityContract → Principal → Result AuthorizationError (Unit {0})
authorize contract principal =
    if lacks_tenant contract principal then err tenant_required else elim contract.minimum_role [
      | none ↦ ok tt
      | some minimum ↦
          if less_than (role_weight (resolve_principal_role principal)) (required_weight minimum)
          then err (role_required minimum)
          else ok tt
    ]
