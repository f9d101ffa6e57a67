-- ===== src/Mcp/Protocol/Calls.antt =====
-- When a message of an agent has a capability called.
use mathlib.Core.Path.{subst}
use openviking_admin.Prelude.{
  String, ◌≡◌, refl, sym, ap, ◌∙◌, ◌↔◌, inl, inr, Option, none, some, List, [], Bool-cases, Result,
  ok, err,
}
use openviking_admin.Capability.Types.{knowledge_search, CapabilityId, Principal, id_text}
use openviking_admin.Capability.Schema.Conforms.{Conforms}
use openviking_admin.Capability.Registry.{get_capability_registry_entry}
use openviking_admin.Capability.Registry.Entry.{CapabilityRegistryEntry}
use openviking_admin.Capability.Authorization.{authorize}
use openviking_admin.Capability.RateLimit.Service.{
  CapabilityRateLimitStore, RateLimitDecision, allowed, assert_allowed,
}
use openviking_admin.Capability.Execution as Execution
use openviking_admin.Capability.Execution.{
  Failure, not_found, CapabilityInvocationResult, execute, Effect,
}
use openviking_admin.Capability.Execution.Gates.{gateway_calls, gateway_calls-execute}
use openviking_admin.Capability.Credentials.Table.{Keys}
use openviking_admin.Mcp.JsonRpc.{
  JsonRpcRequest, ValidatedJsonRpcMessage, JsonRpcId, validate_json_rpc_message,
  is_json_rpc_notification,
}
use openviking_admin.Mcp.Sessions.{McpSession, Store, SessionError}
use openviking_admin.Mcp.Methods.{
  McpCredential, RpcError, RpcResult, Environment, resolve_principal_from_credential,
  resolve_credential, capability_named, name_param, arguments_param, State, execute_named, called,
  resolve_rpc_result,
}
use openviking_admin.Mcp.Protocol.{
  Reply, Status, McpMessageQuery, answer_error, answer_result, respond, respond_valid, respond_if,
  handle_message,
}

capability_named-id_text : (id : CapabilityId) → capability_named (id_text id) ≡ some id
unfolding capability_named
capability_named-id_text knowledge_search = refl
capability_named-id_text _ = refl

module _ (limiter : CapabilityRateLimitStore) (hash : String → String) (stringify : Reply → String)
    (env : Environment) where
  answer_error-execution :
      (session_id : String) (body : JsonRpcRequest) (error : RpcError) (s : State limiter)
      → (answer_error limiter hash stringify env session_id body error s).1.execution ≡ s.execution
  unfolding answer_error
  answer_error-execution session_id body error s =
      elim (Bool-cases (is_json_rpc_notification body)) [
        | inl silent ↦ rw (answer_error, silent) refl
        | inr aloud ↦ rw (answer_error, aloud) refl
      ]

  answer_result-execution :
      (session_id : String) (body : JsonRpcRequest) (id : Option JsonRpcId)
      (done : Result RpcError RpcResult × State limiter)
      → (answer_result limiter hash stringify env session_id body id done).1.execution
        ≡ done.1.execution
  answer_result-execution session_id body id (err e, s) = answer_error-execution session_id body e s
  answer_result-execution session_id body none (ok value, s) = refl
  answer_result-execution session_id body (some id) (ok value, s) = refl

  called-execution :
      (x : Result Failure CapabilityInvocationResult × Execution.State limiter) (s : State limiter)
      → (called limiter x s).1.execution ≡ x.1
  called-execution (ok r, x) s = refl
  called-execution (err e, x) s = refl

  module _ (message : ValidatedJsonRpcMessage) (id : CapabilityId)
      (calls : message.method ≡ "tools/call")
      (names : name_param message.params ≡ some (id_text id)) where
    resolve_rpc_result-execution :
        (credential : McpCredential) (principal : Principal) (ks : Keys) (s : State limiter)
        → resolve_principal_from_credential env credential s.keys ≡ (ok principal, ks)
        → (resolve_rpc_result limiter env credential message s).1.execution
          ≡ (execute limiter env.execution id
              (arguments_param message.params)
              principal
              s.execution).1
    unfolding resolve_rpc_result execute_named
    resolve_rpc_result-execution credential principal ks s found =
        rw (resolve_rpc_result, calls, names, found, execute_named, capability_named-id_text id)
          (called-execution
            (execute limiter env.execution id (arguments_param message.params) principal
              s.execution)
            (record s { keys = ks }))

    respond-execution :
        (session_id : String) (body : JsonRpcRequest) (credential : McpCredential)
        (principal : Principal) (ks : Keys) (s : State limiter)
        → validate_json_rpc_message body ≡ ok message
        → resolve_principal_from_credential env credential s.keys ≡ (ok principal, ks)
        → (respond limiter hash stringify env session_id credential body s).1.execution
          ≡ (execute limiter env.execution id
              (arguments_param message.params)
              principal
              s.execution).1
    unfolding respond execute
    respond-execution session_id body credential principal ks s valid found =
        rw (respond, valid)
          (answer_result-execution session_id body message.id
              (resolve_rpc_result limiter env credential message s)
            ∙ resolve_rpc_result-execution credential principal ks s found)

    respond_valid-execution :
        (query : McpMessageQuery) (body : JsonRpcRequest) (credential : McpCredential)
        (principal : Principal) (ks later : Keys) (checked : Result SessionError McpSession × Store)
        (s : State limiter) (status : Status)
        → validate_json_rpc_message body ≡ ok message
        → resolve_principal_from_credential env credential ks ≡ (ok principal, later)
        → (respond_valid limiter hash stringify env query body credential ks checked s).0
          ≡ ok status
        → (respond_valid limiter hash stringify env query body credential ks checked s).1.execution
          ≡ (execute limiter env.execution id
              (arguments_param message.params)
              principal
              s.execution).1
    respond_valid-execution query body credential principal ks later (err e, sessions) s status
          valid found h =
        absurd (cc)
    respond_valid-execution query body credential principal ks later (ok session, sessions) s status
          valid found h =
        respond-execution query.session_id body credential principal later
          (record s { keys = ks; sessions = sessions }) valid found

    handle_message-execution :
        (query : McpMessageQuery) (body : JsonRpcRequest) (s : State limiter) (status : Status)
        (credential : McpCredential) (principal : Principal) (ks later : Keys)
        → validate_json_rpc_message body ≡ ok message
        → resolve_credential env query.key query.session_key s.keys ≡ (ok credential, ks)
        → resolve_principal_from_credential env credential ks ≡ (ok principal, later)
        → (handle_message limiter hash stringify env query body s).0 ≡ ok status
        → (handle_message limiter hash stringify env query body s).1.execution
          ≡ (execute limiter env.execution id
              (arguments_param message.params)
              principal
              s.execution).1
    unfolding handle_message
    handle_message-execution query body s status credential principal ks later valid resolved
          found =
        subst
          (λ r.
            (respond_if limiter hash stringify env query body r s).0 ≡ ok status
            → (respond_if limiter hash stringify env query body r s).1.execution
              ≡ (execute limiter env.execution id (arguments_param message.params) principal
                  s.execution).1)
          (sym resolved)
          (respond_valid-execution query body credential principal ks later _ s status valid found)

    -- A message that is taken, and calls a capability by its name, has the gateway called exactly
    -- when the principal of its credential is authorised for the capability, the arguments conform
    -- to its schema, and the rate limiter lets the call pass.
    pub handle_message-gateway_calls :
        (query : McpMessageQuery) (body : JsonRpcRequest) (s : State limiter) (status : Status)
        (credential : McpCredential) (principal : Principal) (ks later : Keys)
        (entry : CapabilityRegistryEntry) (quota : limiter.State)
        → validate_json_rpc_message body ≡ ok message
        → resolve_credential env query.key query.session_key s.keys ≡ (ok credential, ks)
        → resolve_principal_from_credential env credential ks ≡ (ok principal, later)
        → get_capability_registry_entry id ≡ some entry
        → s.execution ≡ (quota, [])
        → (handle_message limiter hash stringify env query body s).0 ≡ ok status
        → (gateway_calls (handle_message limiter hash stringify env query body s).1.execution.1 ≡ 1)
          ↔ ((authorize entry.contract principal ≡ ok tt)
              × Conforms entry.contract.input_schema (arguments_param message.params)
              × ((ds : List RateLimitDecision) × ((assert_allowed limiter principal id
                      env.execution.limited_at quota).0
                    ≡ allowed ds)))
    handle_message-gateway_calls query body s status credential principal ks later entry quota valid
          resolved found known none_yet h =
        let goes =
          gateway_calls-execute limiter env.execution id entry (arguments_param message.params)
            principal quota known in
        let same =
          handle_message-execution query body s status credential principal ks later valid resolved
            found h
          ∙ ap
              (λ x.
                (execute limiter env.execution id (arguments_param message.params) principal x).1)
              none_yet in
        rw same goes
