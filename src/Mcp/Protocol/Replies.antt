-- ===== src/Mcp/Protocol/Replies.antt =====
-- Which messages are answered, and how often.
use mathlib.Core.Path.{subst}
use openviking_admin.Prelude.{
  ◌+◌, [], ◌∷◌, ◌++◌, String, ◌≡◌, refl, sym, ◌⊎◌, inl, inr, true, false, Option, none, some, arith,
  Bool-cases, Result, ok, err, Result-cases,
}
use openviking_admin.Capability.RateLimit.Service.{CapabilityRateLimitStore}
use openviking_admin.Capability.Credentials.Table.{Keys}
use openviking_admin.Mcp.JsonRpc.{
  JsonRpcRequest, JsonRpcId, validate_json_rpc_message, is_json_rpc_notification,
  resolve_json_rpc_error_id,
}
use openviking_admin.Mcp.JsonRpc.Shape.{
  IsNotification, HasId, HasId-resolve_json_rpc_error_id, is_json_rpc_notification-IsNotification,
  IsNotification-is_json_rpc_notification, validate_json_rpc_message-id, is_notification,
}
use openviking_admin.Mcp.Events.{Events, enqueue_event}
use openviking_admin.Mcp.Sessions.{McpSession, Store, SessionError}
use openviking_admin.Mcp.Methods.{
  McpCredential, value_of, Refusal, RpcError, fault, RpcResult, Environment, resolve_credential,
  State, resolve_rpc_result,
}
use openviking_admin.Mcp.Protocol.{
  Reply, result_reply, error_reply, Status, McpMessageQuery, answer_error, answer_result, respond,
  respond_valid, respond_if, handle_message,
}
use openviking_admin.Mcp.Protocol.Untouched.{resolve_rpc_result-sessions, validate_session-events}

abbrev pub reply_id : Reply → Option JsonRpcId
reply_id (result_reply id value) = some id
reply_id (error_reply id error) = id

-- The message is answered by one new event of its session, which waits for ten minutes and refers
-- to the id of the message, if it is no notification, and by none if it is.
abbrev pub IsAnswered :
    (stringify : Reply → String) → Environment → String → JsonRpcRequest → Events → Events → Type 0
IsAnswered stringify env session_id body before after =
    (IsNotification body × (after ≡ before))
    ⊎ ((IsNotification body → ⊥)
        × ((reply : Reply) × HasId body (reply_id reply)
            × (after
                ≡ before
                  ++ record {
                    id = env.event_id;
                    session_id = session_id;
                    event_type = none;
                    payload = stringify reply;
                    delivered_at = none;
                    expires_at = env.now + 600000;
                    created_at = env.now;
                  }
                    ∷ [])))

-- The same with the names of the code.
abbrev IsEnqueued :
    (stringify : Reply → String) → Environment → String → JsonRpcRequest → Events → Events → Type 0
IsEnqueued stringify env session_id body before after =
    ((is_json_rpc_notification body ≡ true) × (after ≡ before))
    ⊎ ((is_json_rpc_notification body ≡ false)
        × ((reply : Reply) × (reply_id reply ≡ resolve_json_rpc_error_id body)
            × (after
                ≡ enqueue_event env.event_id session_id (stringify reply) none env.now before)))

IsEnqueued-IsAnswered :
    (stringify : Reply → String) (env : Environment) (session_id : String) (body : JsonRpcRequest)
    (before after : Events)
    → IsEnqueued stringify env session_id body before after
    → IsAnswered stringify env session_id body before after
unfolding enqueue_event
IsEnqueued-IsAnswered stringify env session_id body before after h = elim h [
  | inl (is, same) ↦ inl (is_json_rpc_notification-IsNotification body is, same)
  | inr (is_not, (reply, e, added)) ↦ inr (
    λ is. absurd (ground (arith, is_not, IsNotification-is_json_rpc_notification body is)),
    (reply, rw e (HasId-resolve_json_rpc_error_id body), added),
  )
]

module _ (limiter : CapabilityRateLimitStore) (hash : String → String) (stringify : Reply → String)
    (env : Environment) where
  answer_error-IsEnqueued :
      (session_id : String) (body : JsonRpcRequest) (error : RpcError) (s : State limiter)
      → IsEnqueued stringify env session_id body s.sessions.events
          (answer_error limiter hash stringify env session_id body error s).1.sessions.events
  unfolding answer_error
  answer_error-IsEnqueued session_id body error s =
      elim (Bool-cases (is_json_rpc_notification body)) [
        | inl yes_it_is ↦ inl (yes_it_is, rw yes_it_is refl)
        | inr it_is_not ↦ inr (
          it_is_not,
          (error_reply (resolve_json_rpc_error_id body) error, refl, rw it_is_not refl),
        )
      ]

  answer_result-IsEnqueued :
      (session_id : String) (body : JsonRpcRequest) (id : Option JsonRpcId)
      (result : Result RpcError RpcResult) (s : State limiter)
      → id ≡ resolve_json_rpc_error_id body
      → is_notification id ≡ is_json_rpc_notification body
      → IsEnqueued stringify env session_id body s.sessions.events
          (answer_result limiter hash stringify env session_id body id
            (result, s)).1.sessions.events
  answer_result-IsEnqueued session_id body id (err e) s same kind =
      answer_error-IsEnqueued session_id body e s
  answer_result-IsEnqueued session_id body none (ok value) s same kind = inl (sym kind, refl)
  answer_result-IsEnqueued session_id body (some id) (ok value) s same kind =
      inr (sym kind, (result_reply id value, same, refl))

  respond-IsEnqueued :
      (session_id : String) (credential : McpCredential) (body : JsonRpcRequest) (s : State limiter)
      → IsEnqueued stringify env session_id body s.sessions.events
          (respond limiter hash stringify env session_id credential body s).1.sessions.events
  unfolding respond
  respond-IsEnqueued session_id credential body s =
      elim (Result-cases (validate_json_rpc_message body)) [
        | inr (e, h) ↦ rw (respond, h) (answer_error-IsEnqueued session_id body (fault e) s)
        | inl (message, h) ↦
            let (same, kind) = validate_json_rpc_message-id body message h in
            let done = resolve_rpc_result limiter env credential message s in
            rw (respond, h)
              (subst
                (λ (x : Store).
                  IsEnqueued stringify env session_id body x.events
                    (answer_result limiter hash stringify env session_id body message.id
                      done).1.sessions.events)
                (resolve_rpc_result-sessions limiter env credential message s)
                (answer_result-IsEnqueued session_id body message.id done.0 done.1 same kind))
      ]

  respond_valid-IsEnqueued :
      (query : McpMessageQuery) (body : JsonRpcRequest) (credential : McpCredential) (ks : Keys)
      (valid : Result SessionError McpSession × Store) (s : State limiter) (status : Status)
      → valid.1.events ≡ s.sessions.events
      → (respond_valid limiter hash stringify env query body credential ks valid s).0 ≡ ok status
      → IsEnqueued stringify env query.session_id body s.sessions.events
          (respond_valid limiter hash stringify env query body credential ks valid
            s).1.sessions.events
  respond_valid-IsEnqueued query body credential ks (err e, sessions) s status same h = absurd (cc)
  respond_valid-IsEnqueued query body credential ks (ok session, sessions) s status same h =
      subst
        (λ before.
          IsEnqueued stringify env query.session_id body before
            (respond limiter hash stringify env query.session_id credential body
              (record s { keys = ks; sessions = sessions })).1.sessions.events)
        same
        (respond-IsEnqueued query.session_id credential body
          (record s { keys = ks; sessions = sessions }))

  respond_if-IsEnqueued :
      (query : McpMessageQuery) (body : JsonRpcRequest)
      (found : Result Refusal McpCredential × Keys) (s : State limiter) (status : Status)
      → (respond_if limiter hash stringify env query body found s).0 ≡ ok status
      → IsEnqueued stringify env query.session_id body s.sessions.events
          (respond_if limiter hash stringify env query body found s).1.sessions.events
  respond_if-IsEnqueued query body (err e, ks) s status h = absurd (cc)
  respond_if-IsEnqueued query body (ok credential, ks) s status h =
      respond_valid-IsEnqueued query body credential ks _ s status
        (validate_session-events hash query.session_id (value_of credential) query.session_token
          env.now s.sessions)
        h

  handle_message_enqueues :
      (query : McpMessageQuery) (body : JsonRpcRequest) (s : State limiter) (status : Status)
      → (handle_message limiter hash stringify env query body s).0 ≡ ok status
      → IsEnqueued stringify env query.session_id body s.sessions.events
          (handle_message limiter hash stringify env query body s).1.sessions.events
  unfolding handle_message
  handle_message_enqueues query body s status h =
      respond_if-IsEnqueued query body (resolve_credential env query.key query.session_key s.keys) s
        status h

  -- A message that is taken is answered by exactly one event in its session, with the id of the
  -- message, or null where it has no valid one, unless it is a notification: that is answered by
  -- none. The rest of the table of events stays as it is.
  pub handle_message-IsAnswered :
      (query : McpMessageQuery) (body : JsonRpcRequest) (s : State limiter) (status : Status)
      → (handle_message limiter hash stringify env query body s).0 ≡ ok status
      → IsAnswered stringify env query.session_id body s.sessions.events
          (handle_message limiter hash stringify env query body s).1.sessions.events
  handle_message-IsAnswered query body s status h =
      IsEnqueued-IsAnswered stringify env query.session_id body s.sessions.events _
        (handle_message_enqueues query body s status h)

  -- What a message that is refused leaves alone.
  abbrev IsUntouched : State limiter → State limiter → Type 0
  IsUntouched before after =
      (after.sessions.events ≡ before.sessions.events) × (after.execution ≡ before.execution)

  respond_valid-IsUntouched :
      (query : McpMessageQuery) (body : JsonRpcRequest) (credential : McpCredential) (ks : Keys)
      (valid : Result SessionError McpSession × Store) (s : State limiter) (why : Refusal)
      → valid.1.events ≡ s.sessions.events
      → (respond_valid limiter hash stringify env query body credential ks valid s).0 ≡ err why
      → IsUntouched s (respond_valid limiter hash stringify env query body credential ks valid s).1
  respond_valid-IsUntouched query body credential ks (err e, sessions) s why same h = (same, refl)
  respond_valid-IsUntouched query body credential ks (ok session, sessions) s why same h =
      absurd (cc)

  respond_if-IsUntouched :
      (query : McpMessageQuery) (body : JsonRpcRequest)
      (found : Result Refusal McpCredential × Keys) (s : State limiter) (why : Refusal)
      → (respond_if limiter hash stringify env query body found s).0 ≡ err why
      → IsUntouched s (respond_if limiter hash stringify env query body found s).1
  respond_if-IsUntouched query body (err e, ks) s why h = (refl, refl)
  respond_if-IsUntouched query body (ok credential, ks) s why h =
      respond_valid-IsUntouched query body credential ks _ s why
        (validate_session-events hash query.session_id (value_of credential) query.session_token
          env.now s.sessions)
        h

  -- A message that is refused, for its credential or its session, is not answered, uses no quota
  -- and calls no capability.
  pub handle_message_refused :
      (query : McpMessageQuery) (body : JsonRpcRequest) (s : State limiter) (why : Refusal)
      → (handle_message limiter hash stringify env query body s).0 ≡ err why
      → ((handle_message limiter hash stringify env query body s).1.sessions.events
          ≡ s.sessions.events)
        × ((handle_message limiter hash stringify env query body s).1.execution ≡ s.execution)
  unfolding handle_message
  handle_message_refused query body s why h =
      respond_if-IsUntouched query body (resolve_credential env query.key query.session_key s.keys)
        s why h
