-- ===== src/Mcp/Protocol/Untouched.antt =====
-- What a message leaves as it was: the calls leave the sessions, the check of a session the events.
use openviking_admin.Prelude.{
  ℕ, String, ◌≡◌, refl, inl, inr, Option, none, some, arith, str_eq, if_holds, Option-cases, Result,
  ok, err,
}
use openviking_admin.Capability.Types.{Principal}
use openviking_admin.Capability.Schema.{Value}
use openviking_admin.Capability.RateLimit.Service.{CapabilityRateLimitStore}
use openviking_admin.Capability.Execution as Execution
use openviking_admin.Capability.Execution.{
  Failure, not_found, CapabilityInvocationResult, execute, Effect,
}
use openviking_admin.Capability.Credentials.{CredentialError}
use openviking_admin.Capability.Credentials.Table.{Keys}
use openviking_admin.Mcp.JsonRpc.{ValidatedJsonRpcMessage, invalid_params}
use openviking_admin.Mcp.Sessions.{Store, validate_session, touch_session, update_session}
use openviking_admin.Mcp.Methods.{
  McpCredential, RpcError, fault, RpcResult, Environment, resolve_principal_from_credential,
  capability_named, name_param, arguments_param, State, execute_named, listed, called, called_by,
  resolve_rpc_result,
}

called-sessions :
    (limiter : CapabilityRateLimitStore)
    (x : Result Failure CapabilityInvocationResult × Execution.State limiter) (s : State limiter)
    → (called limiter x s).1.sessions ≡ s.sessions
called-sessions limiter (ok r, x) s = refl
called-sessions limiter (err e, x) s = refl

execute_named-sessions :
    (limiter : CapabilityRateLimitStore) (env : Environment) (name : String) (input : Value)
    (principal : Principal) (s : State limiter)
    → (execute_named limiter env name input principal s).1.sessions ≡ s.sessions
unfolding execute_named
execute_named-sessions limiter env name input principal s =
    elim (Option-cases (capability_named name)) [
      | inl e ↦ rw (execute_named, e) refl
      | inr (id, e) ↦ rw (execute_named, e) (called-sessions limiter _ s)
    ]

called_by-sessions :
    (limiter : CapabilityRateLimitStore) (env : Environment) (name : String) (input : Value)
    (found : Result CredentialError Principal × Keys) (s : State limiter)
    → (called_by limiter env name input found s).1.sessions ≡ s.sessions
called_by-sessions limiter env name input (err e, ks) s = refl
called_by-sessions limiter env name input (ok principal, ks) s =
    execute_named-sessions limiter env name input principal (record s { keys = ks })

listed-sessions :
    (limiter : CapabilityRateLimitStore) (found : Result CredentialError Principal × Keys)
    (s : State limiter)
    → (listed limiter found s).1.sessions ≡ s.sessions
listed-sessions limiter (err e, ks) s = refl
listed-sessions limiter (ok principal, ks) s = refl

abbrev IsSame :
    (limiter : CapabilityRateLimitStore)
    → State limiter
    → Result RpcError RpcResult × State limiter
    → Type 0
IsSame limiter s x = x.1.sessions ≡ s.sessions

name_param-sessions :
    (limiter : CapabilityRateLimitStore) (env : Environment) (input : Value)
    (found : Result CredentialError Principal × Keys) (s : State limiter) (name : Option String)
    → IsSame limiter s (elim name as (λ _. Result RpcError RpcResult × State limiter) [
      | none ↦ (err (fault invalid_params), s)
      | some named ↦ called_by limiter env named input found s
    ])
name_param-sessions limiter env input found s none = refl
name_param-sessions limiter env input found s (some named) =
    called_by-sessions limiter env named input found s

pub resolve_rpc_result-sessions :
    (limiter : CapabilityRateLimitStore) (env : Environment) (credential : McpCredential)
    (message : ValidatedJsonRpcMessage) (s : State limiter)
    → (resolve_rpc_result limiter env credential message s).1.sessions ≡ s.sessions
unfolding resolve_rpc_result
resolve_rpc_result-sessions limiter env credential message s =
    let found = resolve_principal_from_credential env credential s.keys in
    if_holds (IsSame limiter s) (str_eq message.method "tools/list") _ _
      (listed-sessions limiter found s)
      (if_holds (IsSame limiter s) (str_eq message.method "tools/call") _ _
        (name_param-sessions limiter env (arguments_param message.params) found s
          (name_param message.params))
        (if_holds (IsSame limiter s) (str_eq message.method "initialize") _ _ refl (
          if_holds (IsSame limiter s) (str_eq message.method "notifications/initialized") _ _ refl
            refl)))

pub validate_session-events :
    (hash : String → String) (id credential session_token : String) (now : ℕ) (s : Store)
    → (validate_session hash id credential session_token now s).1.events ≡ s.events
unfolding validate_session touch_session update_session
validate_session-events hash id credential session_token now s = ground arith
