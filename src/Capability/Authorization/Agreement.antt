-- ===== src/Capability/Authorization/Agreement.antt =====
-- The two checks of a principal against a contract, against one another and against the roles.
use mathlib.Core.Path.{subst}
use openviking_admin.Prelude.{
  str_eq→≡, ℕ, Bool-cases, inl, inr, str_eq, String, some, true, false, truthy, ◌≡◌, refl, arith,
  is_ok, ok, err,
}
use openviking_admin.Capability.Types.{Principal}
use openviking_admin.Capability.Contract.{CapabilityContract, CapabilityRoleRequirement}
use openviking_admin.Capability.Authorization.{
  tenant_required, mem, inherited_names, num, nan, role_weight, resolve_principal_role, can_access,
  authorize,
}

role_weight-num :
    (role : String) → mem role inherited_names ≡ false → (n : ℕ) × (role_weight role ≡ num n)
unfolding role_weight
role_weight-num role h = elim (Bool-cases (str_eq role "tenant_viewer")) [
  | inl e ↦ (1, rw e)
  | inr e1 ↦ elim (Bool-cases (str_eq role "tenant_operator")) [
    | inl e ↦ (2, rw (e1, e))
    | inr e2 ↦ elim (Bool-cases (str_eq role "tenant_admin")) [
      | inl e ↦ (3, rw (e1, e2, e))
      | inr e3 ↦ elim (Bool-cases (str_eq role "super_admin")) [
        | inl e ↦ (4, rw (e1, e2, e3, e))
        | inr e4 ↦ (0, rw (e1, e2, e3, e4, h))
      ]
    ]
  ]
]

-- No role of the system is spelled like an inherited property.
not_system_role :
    (role system : String)
    → mem system inherited_names ≡ false
    → mem role inherited_names ≡ true
    → str_eq role system ≡ false
not_system_role role system no_system h = elim (Bool-cases (str_eq role system)) [
  | inl e ↦
      let t : mem system inherited_names ≡ true =
        subst (λ r. mem r inherited_names ≡ true) (str_eq→≡ role system e) h in
      cc
  | inr e ↦ e
]

role_weight-nan : (role : String) → mem role inherited_names ≡ true → role_weight role ≡ nan
unfolding role_weight
role_weight-nan role h = rw (
  not_system_role role "tenant_viewer" refl h,
  not_system_role role "tenant_operator" refl h,
  not_system_role role "tenant_admin" refl h,
  not_system_role role "super_admin" refl h,
  h,
)

-- A call is authorised exactly when the catalogue shows the capability, if the principal's role
-- is not spelled like a property that every object inherits.
pub authorize-can_access :
    (contract : CapabilityContract) (principal : Principal)
    → mem (resolve_principal_role principal) inherited_names ≡ false
    → is_ok (authorize contract principal) ≡ can_access contract principal
unfolding authorize can_access
authorize-can_access contract principal h =
    let (n, weight) = role_weight-num (resolve_principal_role principal) h in ground arith

-- A role that is spelled so is authorised for every capability, if it has a tenant, and the
-- catalogue still hides each capability that asks for a role.
pub authorize-inherited_name :
    (contract : CapabilityContract) (principal : Principal) (minimum : CapabilityRoleRequirement)
    → contract.minimum_role ≡ some minimum
    → truthy principal.tenant_id ≡ true
    → mem (resolve_principal_role principal) inherited_names ≡ true
    → (authorize contract principal ≡ ok tt) × (can_access contract principal ≡ false)
unfolding authorize can_access
authorize-inherited_name contract principal minimum m t w =
    ground (arith, role_weight-nan (resolve_principal_role principal) w)

-- Without a tenant nothing is authorised, whatever the role.
pub authorize_no_tenant :
    (contract : CapabilityContract) (principal : Principal)
    → truthy principal.tenant_id ≡ false
    → authorize contract principal ≡ err tenant_required
unfolding authorize
authorize_no_tenant contract principal h = ground arith
