-- ===== src/Capability/Execution.antt =====
-- apps/server/src/capabilities/application/capability-execution.service.ts. What the call finds
-- around it is an `Environment`: the clock, what the gateway does with the call, and whether the
-- records of a success and of a rejection can be written (a failure that cannot be recorded is only
-- logged). The state is that of the rate limiter's store, with
-- the effects in the order in which they happen.
pub mod Gates
use openviking_admin.Prelude.{
  ℕ, ◌-◌, String, Option, none, some, Bool, true, false, List, [], ◌∷◌, ◌++◌, Result, ok, err,
  if◌then◌else◌,
}
use openviking_admin.Capability.Types.{
  CapabilityId, Principal, knowledge_bases_list, knowledge_bases_detail, knowledge_bases_delete,
  knowledge_tree_list, knowledge_tree_detail, knowledge_tree_delete, documents_import_create,
  documents_import_status, documents_import_list, documents_import_cancel, documents_import_retry,
  documents_import_events, documents_index_status, documents_index_rebuild, documents_draft_grep,
  documents_extract_guide,
}
use openviking_admin.Capability.Schema.{Value}
use openviking_admin.Capability.Contract.{
  CapabilityContract, CapabilityVersion, ContractError, validate_input, validate_output,
}
use openviking_admin.Capability.Authorization.{AuthorizationError, authorize}
use openviking_admin.Capability.Registry.{get_capability_registry_entry}
use openviking_admin.Capability.Registry.Entry.{CapabilityRegistryEntry, GatewayHandlerName}
use openviking_admin.Capability.RateLimit.Service.{
  CapabilityRateLimitStore, RateLimitDecision, Verdict, allowed, rejected, store_failed,
  assert_allowed,
}

abbrev pub default_capability_timeout_ms : ℕ
default_capability_timeout_ms = 30000

abbrev pub import_capability_timeout_ms : ℕ
import_capability_timeout_ms = 120000

abbrev pub db_capability_timeout_ms : ℕ
db_capability_timeout_ms = 15000

abbrev pub in_memory_capability_timeout_ms : ℕ
in_memory_capability_timeout_ms = 10000

abbrev is_long_running : CapabilityId → Bool
is_long_running documents_import_create = true
is_long_running documents_import_cancel = true
is_long_running documents_import_retry = true
is_long_running documents_index_rebuild = true
is_long_running _ = false

abbrev is_db_only : CapabilityId → Bool
is_db_only knowledge_bases_list = true
is_db_only knowledge_bases_detail = true
is_db_only knowledge_bases_delete = true
is_db_only knowledge_tree_list = true
is_db_only knowledge_tree_detail = true
is_db_only knowledge_tree_delete = true
is_db_only documents_import_status = true
is_db_only documents_import_list = true
is_db_only documents_import_events = true
is_db_only documents_index_status = true
is_db_only _ = false

abbrev is_in_memory : CapabilityId → Bool
is_in_memory documents_draft_grep = true
is_in_memory documents_extract_guide = true
is_in_memory _ = false

unfoldable pub resolve_capability_timeout_ms : CapabilityId → ℕ
resolve_capability_timeout_ms id =
    if is_long_running id
    then import_capability_timeout_ms
    else if is_db_only id
    then db_capability_timeout_ms
    else if is_in_memory id
    then in_memory_capability_timeout_ms
    else default_capability_timeout_ms

-- How the race between the gateway's call and the timer ends: the call returns or throws first,
-- or the timer fires.
pub data GatewayOutcome : Type 0 where
  returned : Value → GatewayOutcome
  threw_error : String → GatewayOutcome
  threw_other : GatewayOutcome
  timer_fired : GatewayOutcome

pub record Environment : Type 0 where
  pub started_at : ℕ
  pub limited_at : ℕ
  pub finished_at : ℕ
  pub gateway : GatewayHandlerName → Principal → Value → GatewayOutcome
  pub success_is_recorded : Bool
  pub rejection_is_recorded : Bool

pub data Effect : Type 0 where
  called_gateway : GatewayHandlerName → Value → Effect
  record_success record_failure record_rejected : Effect

pub data Failure : Type 0 where
  not_found : Failure
  forbidden : AuthorizationError → Failure
  contract_broken : ContractError → Failure
  rate_limited : RateLimitDecision → Failure
  rate_limit_store_failed : Failure
  gateway_failed : String → Failure
  timed_out : CapabilityId → ℕ → Failure
  audit_failed : Failure
  execution_failed : Failure

pub record CapabilityInvocationResult : Type 0 where
  pub result_data : Value
  pub capability : CapabilityId
  pub version : CapabilityVersion
  pub duration_ms : ℕ

-- What a `catch` finds: an `Error`, or something else that was thrown.
abbrev pub Thrown : Type 0
Thrown = Option Failure

module _ (store : CapabilityRateLimitStore) where
  abbrev pub State : Type 0
  State = store.State × List Effect

  abbrev emit : Effect → State → State
  emit e (s, effects) = (s, effects ++ e ∷ [])

  -- The `catch` block.
  unfoldable pub handle :
      Environment → Thrown → State → Result Failure CapabilityInvocationResult × State
  handle env (some (rate_limited d)) s =
      if env.rejection_is_recorded
      then (err (rate_limited d), emit record_rejected s)
      else (err audit_failed, emit record_rejected s)
  handle env (some failure) s = (err failure, emit record_failure s)
  handle env none s = (err execution_failed, emit record_failure s)

  -- The `try` block after the gateway has returned.
  unfoldable pub finish :
      Environment
      → CapabilityContract
      → CapabilityId
      → Value
      → State
      → Result Failure CapabilityInvocationResult × State
  unfolding handle
  finish env contract id output s = elim (validate_output contract output) [
    | err e ↦ handle env (some (contract_broken e)) s
    | ok _ ↦
        if env.success_is_recorded
        then (
          ok (record {
            result_data = output;
            capability = id;
            version = contract.version;
            duration_ms = env.finished_at - env.started_at;
          }),
          emit record_success s,
        )
        else handle env (some audit_failed) (emit record_success s)
  ]

  -- The `try` block.
  unfoldable pub attempt :
      Environment
      → CapabilityRegistryEntry
      → CapabilityId
      → Value
      → Principal
      → State
      → Result Failure CapabilityInvocationResult × State
  unfolding handle finish
  attempt env entry id input principal (s, effects) =
      let (verdict, s') = assert_allowed store principal id env.limited_at s in
      let called = emit (called_gateway entry.gateway_handler input) (s', effects) in
      elim verdict [
        | rejected d ↦ handle env (some (rate_limited d)) (s', effects)
        | store_failed ↦ handle env (some rate_limit_store_failed) (s', effects)
        | allowed decisions ↦ elim (env.gateway entry.gateway_handler principal input) [
          | returned output ↦ finish env entry.contract id output called
          | threw_error message ↦ handle env (some (gateway_failed message)) called
          | threw_other ↦ handle env none called
          | timer_fired ↦ handle env (some (timed_out id (resolve_capability_timeout_ms id))) called
        ]
      ]

  unfoldable pub execute :
      Environment
      → CapabilityId
      → Value
      → Principal
      → State
      → Result Failure CapabilityInvocationResult × State
  unfolding attempt get_capability_registry_entry
  execute env id input principal s = elim (get_capability_registry_entry id) [
    | none ↦ (err not_found, s)
    | some entry ↦ elim (authorize entry.contract principal) [
      | err e ↦ (err (forbidden e), s)
      | ok _ ↦ elim (validate_input entry.contract input) [
        | err e ↦ (err (contract_broken e), s)
        | ok _ ↦ attempt env entry id input principal s
      ]
    ]
  ]
