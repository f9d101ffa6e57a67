-- ===== src/Mcp/Protocol.antt =====
-- apps/server/src/mcp/mcp-protocol.service.ts: how a message of an agent is answered. The state is
-- that of the keys, of the sessions and of the capabilities' execution. `hash` and `stringify` are
-- SHA-256 and JSON.stringify. The tables can be written.
pub mod Untouched
pub mod Replies
pub mod Calls
use mathlib.Core.Path.{subst}
use openviking_admin.Prelude.{
  ℕ, zero, suc, ◌+◌, ◌-◌, ◌*◌, ◌≤◌, ◌<◌, String, ◌≡◌, refl, sym, ap, ◌∙◌, ◌≢◌, ◌↔◌, ◌⊎◌, inl, inr,
  Bool, true, false, not, ◌&&◌, ◌||◌, Option, none, some, List, [], ◌∷◌, ◌++◌, map, arith, eq_iff,
  str_eq, str_eq_refl, str_eq→≡, str_ne, if◌then◌else◌, Bool-cases, Option-cases, truthy, or_else,
  Result, ok, err, ◌>>=◌, ◌>>◌, is_ok, Result-cases, In, In-append, In-append_left, In-append_right,
  length, length-append, ltb, leb, ◌==◌, get, set, delete, Map, sweep, HasUniqueKeys, fresh, modify,
  mapped, get-modify, modify-HasUniqueKeys, get-set, get-delete, get-sweep, set-HasUniqueKeys,
  delete-HasUniqueKeys, sweep-HasUniqueKeys, take, In-take, length-take, insert_by, sort_by,
  In-sort_by, take-sort_by,
}
use openviking_admin.Capability.Types.{CapabilityId, Principal, mcp}
use openviking_admin.Capability.Schema.{
  Value, PropertyValues, string, undefined, null, object, no_property_values, property_of,
}
use openviking_admin.Capability.Registry.{capability_registry}
use openviking_admin.Capability.RateLimit.Service.{CapabilityRateLimitStore}
use openviking_admin.Capability.Catalog.{McpToolDefinition, to_mcp_tools_for_principal}
use openviking_admin.Capability.Execution as Execution
use openviking_admin.Capability.Execution.{Failure, not_found, CapabilityInvocationResult, execute}
use openviking_admin.Capability.Credentials as Credentials
use openviking_admin.Capability.Credentials.{
  CredentialError, resolve_principal_from_api_key, resolve_principal_from_jwt,
}
use openviking_admin.Capability.Credentials.Table.{Keys}
use openviking_admin.Mcp.JsonRpc.{
  JsonRpcRequest, not_a_record, ValidatedJsonRpcMessage, JsonRpcId, JsonRpcFault, invalid_params,
  method_not_found, validate_json_rpc_message, is_json_rpc_notification, resolve_json_rpc_error_id,
}
use openviking_admin.Settings.OvConfig.{either}
use openviking_admin.Mcp.Events.{enqueue_event}
use openviking_admin.Mcp.Sessions.{
  McpSession, Store, SessionError, create_session, validate_session,
}
use openviking_admin.Mcp.Methods.{
  McpCredential, api_key_credential, session_key_credential, value_of, Refusal, missing_credential,
  bad_credential, bad_session, RpcError, fault, credential_failed, execution_failed, RpcResult,
  tools, tool_result, server_description, no_result, Environment, resolve_principal_from_credential,
  resolve_credential, checked, capability_named, name_param, arguments_param, State, execute_named,
  listed, called, called_by, resolve_rpc_result,
}

pub data Reply : Type 0 where
  result_reply : JsonRpcId → RpcResult → Reply
  error_reply : Option JsonRpcId → RpcError → Reply

pub data Status : Type 0 where
  accepted okay : Status
  failed : RpcError → Status

pub record McpMessageQuery : Type 0 where
  pub session_id : String
  pub session_token : String
  pub key : Option String
  pub session_key : Option String

module _ (limiter : CapabilityRateLimitStore) (hash : String → String)
    (stringify : Reply → String) where
  abbrev pub answer : Environment → String → Reply → State limiter → State limiter
  answer env session_id reply s = record s {
    sessions = record s.sessions {
      events =
          enqueue_event env.event_id session_id (stringify reply) none env.now s.sessions.events;
    };
  }

  -- The `catch` block.
  unfoldable pub answer_error :
      Environment → String → JsonRpcRequest → RpcError → State limiter → Status × State limiter
  unfolding is_json_rpc_notification resolve_json_rpc_error_id enqueue_event
  answer_error env session_id body error s =
      if is_json_rpc_notification body then (failed error, s) else (
        failed error,
        answer env session_id (error_reply (resolve_json_rpc_error_id body) error) s,
      )

  -- The rest of the `try` block, with what the method came to.
  abbrev pub answer_result :
      Environment
      → String
      → JsonRpcRequest
      → Option JsonRpcId
      → Result RpcError RpcResult × State limiter
      → Status × State limiter
  answer_result env session_id body id (err e, s) = answer_error env session_id body e s
  answer_result env session_id body none (ok value, s) = (accepted, s)
  answer_result env session_id body (some id) (ok value, s) =
      (okay, answer env session_id (result_reply id value) s)

  -- `handleMessage` behind the check of the session.
  unfoldable pub respond :
      Environment → String → McpCredential → JsonRpcRequest → State limiter → Status × State limiter
  unfolding validate_json_rpc_message resolve_rpc_result answer_error
  respond env session_id credential body s = elim (validate_json_rpc_message body) [
    | err e ↦ answer_error env session_id body (fault e) s
    | ok message ↦
        answer_result env session_id body message.id
          (resolve_rpc_result limiter env credential message s)
  ]

  -- `handleMessage` with what the check of the session came to.
  abbrev pub respond_valid :
      Environment
      → McpMessageQuery
      → JsonRpcRequest
      → McpCredential
      → Keys
      → Result SessionError McpSession × Store
      → State limiter
      → Result Refusal Status × State limiter
  respond_valid env query body credential ks (err e, sessions) s =
      (err (bad_session e), record s { keys = ks; sessions = sessions })
  respond_valid env query body credential ks (ok session, sessions) s =
      let done =
        respond env query.session_id credential body
          (record s { keys = ks; sessions = sessions }) in
      (ok done.0, done.1)

  -- `handleMessage` with what the check of the credential came to.
  abbrev pub respond_if :
      Environment
      → McpMessageQuery
      → JsonRpcRequest
      → Result Refusal McpCredential × Keys
      → State limiter
      → Result Refusal Status × State limiter
  respond_if env query body (err e, ks) s = (err e, record s { keys = ks })
  respond_if env query body (ok credential, ks) s =
      respond_valid env query body credential ks
        (validate_session hash query.session_id (value_of credential) query.session_token env.now
          s.sessions)
        s

  unfoldable pub handle_message :
      Environment
      → McpMessageQuery
      → JsonRpcRequest
      → State limiter
      → Result Refusal Status × State limiter
  unfolding resolve_credential validate_session respond
  handle_message env query body s =
      respond_if env query body (resolve_credential env query.key query.session_key s.keys) s

  abbrev opened :
      Environment
      → (session_id session_token : String) → Result Refusal McpCredential × Keys
      → State limiter
      → Result Refusal McpCredential × State limiter
  opened env session_id session_token (err e, ks) s = (err e, record s { keys = ks })
  opened env session_id session_token (ok credential, ks) s = (
    ok credential,
    record s {
      keys = ks;
      sessions =
          create_session hash session_id session_token (value_of credential) env.now s.sessions;
    },
  )

  -- The address that is returned names the kind of the credential.
  unfoldable pub create_session_connection :
      Environment
      → (session_id session_token : String) → Option String
      → Option String
      → State limiter
      → Result Refusal McpCredential × State limiter
  unfolding resolve_credential create_session
  create_session_connection env session_id session_token key session_key s =
      opened env session_id session_token (resolve_credential env key session_key s.keys) s
