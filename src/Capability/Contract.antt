-- ===== src/Capability/Contract.antt =====
-- CapabilityContract of apps/server/src/capabilities/domain/capability.types.ts, and the checks of
-- an input and an output against it in capability-schema-validator.service.ts. Descriptions of
-- single properties are left out of the schemas.
pub mod Validity
use openviking_admin.Prelude.{String, Option, List, [], ◌∷◌, Result, ok, err}
use openviking_admin.Capability.Types.{CapabilityId}
use openviking_admin.Capability.Schema.{CapabilitySchema, Value, root, Issue, validate_value}

pub data CapabilityVersion : Type 0 where
  v1 : CapabilityVersion

pub data CapabilityRoleRequirement : Type 0 where
  tenant_viewer tenant_operator tenant_admin : CapabilityRoleRequirement

pub data PermissionRequirement : Type 0 where
  tenant : PermissionRequirement

pub data AuditLevel : Type 0 where
  standard : AuditLevel

pub data HttpMethod : Type 0 where
  get post delete : HttpMethod

pub record HttpRoute : Type 0 where
  pub method : HttpMethod
  pub path : String

pub record CapabilityContract : Type 0 where
  pub id : CapabilityId
  pub version : CapabilityVersion
  pub display_name : String
  pub description : String
  pub input_schema : CapabilitySchema
  pub output_schema : CapabilitySchema
  pub permission_requirement : PermissionRequirement
  pub minimum_role : Option CapabilityRoleRequirement
  pub audit_level : AuditLevel
  pub http : HttpRoute
  pub cli_command : String

pub data ContractError : Type 0 where
  capability_invalid_input : CapabilityId → Issue → ContractError
  capability_downstream_error : CapabilityId → Issue → ContractError

unfoldable pub validate_input : CapabilityContract → Value → Result ContractError (Unit {0})
validate_input contract input =
    elim (validate_value contract.input_schema input (root "input") []) [
      | [] ↦ ok tt
      | issue ∷ _ ↦ err (capability_invalid_input contract.id issue)
    ]

unfoldable pub validate_output : CapabilityContract → Value → Result ContractError (Unit {0})
validate_output contract output =
    elim (validate_value contract.output_schema output (root "output") []) [
      | [] ↦ ok tt
      | issue ∷ _ ↦ err (capability_downstream_error contract.id issue)
    ]
