-- ===== src/Capability/Contract/Validity.antt =====
-- The checks of an input and of an output against a contract.
use openviking_admin.Prelude.{◌≡◌, ◌↔◌, refl, List, [], ◌∷◌, Result, ok, err}
use openviking_admin.Capability.Schema.{Value, root, Issue, validate_value}
use openviking_admin.Capability.Schema.Conforms.{Conforms}
use openviking_admin.Capability.Schema.Complete.{validate_value_iff}
use openviking_admin.Capability.Contract.{
  CapabilityContract, ContractError, validate_input, validate_output,
}

ok_of_no_issue :
    (issues : List Issue) (f : Issue → ContractError)
    → let r : Result ContractError (Unit {0}) = elim issues [
      | [] ↦ ok tt
      | issue ∷ _ ↦ err (f issue)
    ] in
      (r ≡ ok tt) ↔ (issues ≡ [])
ok_of_no_issue [] f = (λ _. refl, λ _. refl)
ok_of_no_issue (issue ∷ issues) f = (λ h. cc, λ h. cc)

module _ (contract : CapabilityContract) (v : Value) where
  -- An input is accepted exactly when it conforms to the contract's input schema.
  pub validate_input_iff : (validate_input contract v ≡ ok tt) ↔ Conforms contract.input_schema v
  unfolding validate_input
  validate_input_iff =
      let (to, from) = validate_value_iff contract.input_schema v (root "input") in
      let (no_issue, accepted) =
        ok_of_no_issue (validate_value contract.input_schema v (root "input") [])
          (ContractError.capability_invalid_input contract.id) in
      (λ h. to (no_issue h), λ c. accepted (from c))

  pub validate_output_iff : (validate_output contract v ≡ ok tt) ↔ Conforms contract.output_schema v
  unfolding validate_output
  validate_output_iff =
      let (to, from) = validate_value_iff contract.output_schema v (root "output") in
      let (no_issue, accepted) =
        ok_of_no_issue (validate_value contract.output_schema v (root "output") [])
          (ContractError.capability_downstream_error contract.id) in
      (λ h. to (no_issue h), λ c. accepted (from c))
