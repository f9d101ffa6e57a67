-- ===== src/Mcp/Methods.antt =====
-- The credentials and the methods of apps/server/src/mcp/mcp-protocol.service.ts: whom an agent acts
-- for, the tools that are listed, and a call of one. The text that is made of a capability's output
-- is left out: a result names the capability and holds the output. The clock is read once for a
-- message, other than by the execution.
use openviking_admin.Prelude.{
  ℕ, String, Option, none, some, List, str_eq, if◌then◌else◌, Result, ok, err, get,
}
use openviking_admin.Capability.Types.{CapabilityId, Principal, mcp}
use openviking_admin.Capability.Schema.{
  Value, PropertyValues, string, undefined, null, object, no_property_values, property_of,
}
use openviking_admin.Capability.Registry.{capability_registry}
use openviking_admin.Capability.RateLimit.Service.{CapabilityRateLimitStore}
use openviking_admin.Capability.Catalog.{McpToolDefinition, to_mcp_tools_for_principal}
use openviking_admin.Capability.Execution as Execution
use openviking_admin.Capability.Execution.{Failure, not_found, CapabilityInvocationResult, execute}
use openviking_admin.Capability.Credentials as Credentials
use openviking_admin.Capability.Credentials.{
  CredentialError, resolve_principal_from_api_key, resolve_principal_from_jwt,
}
use openviking_admin.Capability.Credentials.Table.{Keys}
use openviking_admin.Mcp.JsonRpc.{
  ValidatedJsonRpcMessage, JsonRpcFault, invalid_params, method_not_found,
}
use openviking_admin.Settings.OvConfig.{either}
use openviking_admin.Mcp.Sessions.{Store, SessionError}

pub data McpCredential : Type 0 where
  api_key_credential session_key_credential : String → McpCredential

abbrev pub value_of : McpCredential → String
value_of (api_key_credential value) = value
value_of (session_key_credential value) = value

-- What `handleMessage` and `createSessionConnection` throw: HTTP 401, 403 and 404.
pub data Refusal : Type 0 where
  missing_credential : Refusal
  bad_credential : CredentialError → Refusal
  bad_session : SessionError → Refusal

-- What is answered as a JSON-RPC error; all but a fault of the message have the code -32603.
pub data RpcError : Type 0 where
  fault : JsonRpcFault → RpcError
  credential_failed : CredentialError → RpcError
  execution_failed : Failure → RpcError

pub data RpcResult : Type 0 where
  tools : List McpToolDefinition → RpcResult
  tool_result : CapabilityId → Value → RpcResult
  server_description no_result : RpcResult

-- `event_id` is the id of the row that answers the message.
pub record Environment : Type 0 where
  pub now : ℕ
  pub event_id : String
  pub credentials : Credentials.Environment
  pub execution : Execution.Environment

unfoldable pub resolve_principal_from_credential :
    Environment → McpCredential → Keys → Result CredentialError Principal × Keys
unfolding resolve_principal_from_api_key resolve_principal_from_jwt
resolve_principal_from_credential env (api_key_credential value) keys =
    resolve_principal_from_api_key env.credentials value mcp env.now keys
resolve_principal_from_credential env (session_key_credential value) keys =
    (resolve_principal_from_jwt env.credentials value mcp, keys)

-- The credential is checked, and its principal not used.
abbrev pub checked :
    McpCredential → Result CredentialError Principal × Keys → Result Refusal McpCredential × Keys
checked credential (ok principal, keys) = (ok credential, keys)
checked credential (err e, keys) = (err (bad_credential e), keys)

unfoldable pub resolve_credential :
    Environment → Option String → Option String → Keys → Result Refusal McpCredential × Keys
unfolding resolve_principal_from_credential
resolve_credential env key session_key keys = elim (either key none) [
  | some value ↦
      checked (api_key_credential value)
        (resolve_principal_from_credential env (api_key_credential value) keys)
  | none ↦ elim (either session_key none) [
    | some value ↦
        checked (session_key_credential value)
          (resolve_principal_from_credential env (session_key_credential value) keys)
    | none ↦ (err missing_credential, keys)
  ]
]

-- The capability that a text names.
unfoldable pub capability_named : String → Option CapabilityId
unfolding get
capability_named name = elim (get name capability_registry) [
  | none ↦ none
  | some entry ↦ some entry.contract.id
]

-- `params?.name`, if it is a text.
abbrev pub name_param : Option PropertyValues → Option String
name_param none = none
name_param (some given) = elim (property_of "name" given) [ string name ↦ some name | _ ↦ none ]

-- `params?.arguments ?? {}`
abbrev pub arguments_param : Option PropertyValues → Value
arguments_param none = object no_property_values
arguments_param (some given) = elim (property_of "arguments" given) [
  | undefined ↦ object no_property_values
  | null ↦ object no_property_values
  | _ ↦ property_of "arguments" given
]

module _ (limiter : CapabilityRateLimitStore) where
  pub record State : Type 0 where
    pub keys : Keys
    pub sessions : Store
    pub execution : Execution.State limiter

  abbrev pub called :
      Result Failure CapabilityInvocationResult × Execution.State limiter
      → State
      → Result RpcError RpcResult × State
  called (ok r, x) s = (ok (tool_result r.capability r.result_data), record s { execution = x })
  called (err e, x) s = (err (execution_failed e), record s { execution = x })

  -- `capabilityExecutionService.execute` on a text.
  unfoldable pub execute_named :
      Environment → String → Value → Principal → State → Result RpcError RpcResult × State
  unfolding capability_named execute
  execute_named env name input principal s = elim (capability_named name) [
    | none ↦ (err (execution_failed not_found), s)
    | some id ↦ called (execute limiter env.execution id input principal s.execution) s
  ]

  -- `tools/list`, with the principal that the credential gives.
  abbrev pub listed :
      Result CredentialError Principal × Keys → State → Result RpcError RpcResult × State
  listed (err e, ks) s = (err (credential_failed e), record s { keys = ks })
  listed (ok principal, ks) s =
      (ok (tools (to_mcp_tools_for_principal principal)), record s { keys = ks })

  -- `tools/call`, with the principal that the credential gives.
  abbrev pub called_by :
      Environment
      → String
      → Value
      → Result CredentialError Principal × Keys
      → State
      → Result RpcError RpcResult × State
  called_by env name input (err e, ks) s = (err (credential_failed e), record s { keys = ks })
  called_by env name input (ok principal, ks) s =
      execute_named env name input principal (record s { keys = ks })

  unfoldable pub resolve_rpc_result :
      Environment
      → McpCredential
      → ValidatedJsonRpcMessage
      → State
      → Result RpcError RpcResult × State
  unfolding execute_named to_mcp_tools_for_principal resolve_principal_from_credential
  resolve_rpc_result env credential message s =
      let principal = resolve_principal_from_credential env credential s.keys in
      if str_eq message.method "tools/list"
      then listed principal s
      else if str_eq message.method "tools/call"
      then elim (name_param message.params) [
        | none ↦ (err (fault invalid_params), s)
        | some name ↦ called_by env name (arguments_param message.params) principal s
      ]
      else if str_eq message.method "initialize"
      then (ok server_description, s)
      else if str_eq message.method "notifications/initialized"
      then (ok no_result, s)
      else (err (fault method_not_found), s)
