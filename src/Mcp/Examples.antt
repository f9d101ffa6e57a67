-- ===== src/Mcp/Examples.antt =====
-- Tests of the protocol of agents, and its theorems at concrete sessions and messages.
use openviking_admin.Prelude.{
  String, ◌≡◌, refl, ◌≢◌, ◌↔◌, inl, true, false, none, some, List, [], ◌∷◌, arith, eq_iff, str_eq,
  if◌then◌else◌, ok, err, is_ok, get, set, delete, sweep, modify, take, insert_by, sort_by,
}
use openviking_admin.Mcp.Events.{
  McpSessionEvent, Events, keep_events, new_event, enqueue_event, pending, order_by_created_at,
  is_listed, mark_delivered, shown, pull_found, pull_pending_events,
}
use openviking_admin.Mcp.Sessions.{
  Store, cleanup_expired_records, update_session, touch_session, close_session, session_not_valid,
  create_session, validate_session,
}
use openviking_admin.Mcp.Sessions.Rows.{Op, creates, touches, step, run, All, IsOther}
use openviking_admin.Capability.Types.{Principal, mcp}
use openviking_admin.Capability.Schema.{
  PropertyValues, string, object, no_property_values, property_of,
}
use openviking_admin.Capability.Schema.Conforms.{Conforms}
use openviking_admin.Capability.Registry.{get_capability_registry_entry}
use openviking_admin.Capability.Authorization.{authorize}
use openviking_admin.Capability.RateLimit.Service.{RateLimitDecision, allowed, assert_allowed}
use openviking_admin.Capability.Execution.{execute}
use openviking_admin.Capability.Execution.Gates.{gateway_calls}
use openviking_admin.Capability.Credentials.{resolve_principal_from_jwt}
use openviking_admin.Mcp.JsonRpc.{
  JsonRpcRequest, ValidatedJsonRpcMessage, members, missing, text, fields, method_not_found,
  validate_json_rpc_message, is_json_rpc_notification,
}
use openviking_admin.Mcp.Events.{Events, enqueue_event}
use openviking_admin.Mcp.Sessions.{
  Store, create_session, validate_session, touch_session, update_session,
}
use openviking_admin.Mcp.Methods.{
  session_key_credential, bad_session, fault, Environment, resolve_principal_from_credential,
  resolve_credential, capability_named, State, execute_named, resolve_rpc_result,
}
use openviking_admin.Mcp.Protocol.{
  Reply, okay, failed, McpMessageQuery, answer_error, respond, handle_message,
}
use openviking_admin.Mcp.Events.Delivery as EventRuns
use openviking_admin.Mcp.Events.Delivery.{pull_pending_events_once}
use openviking_admin.Mcp.Sessions.Closing.{close_session-validate, create_session-validate}
use openviking_admin.Capability.Registry.Search.{knowledge_search_entry}
use openviking_admin.Mcp.Protocol.Replies.{
  IsAnswered, handle_message-IsAnswered, handle_message_refused,
}
use openviking_admin.Mcp.Protocol.Calls.{handle_message-gateway_calls}
use openviking_admin.Mcp.JsonRpc.{integer, integer_id}
use openviking_admin.Capability.Types.{CredentialType, knowledge_search}
use openviking_admin.Capability.Schema.{property_value, array, no_values, validate_value}
use openviking_admin.Capability.Contract.{validate_input, validate_output}
use openviking_admin.Capability.Authorization.{role_weight, resolve_principal_role}
use openviking_admin.Capability.RateLimit.Store as RateLimitStore
use openviking_admin.Capability.RateLimit.Store.{consume}
use openviking_admin.Capability.Execution.{returned}
use openviking_admin.Capability.RateLimit.Service.{in_memory}
use openviking_admin.Capability.Credentials.{
  JwtLikePayload, principal_of_payload, load_ov_config_for_tenant, resolve_tenant_scope, profile_of,
}
use openviking_admin.Settings.OvConfig.{resolve, of_found, resolve_default_ov_config}
use openviking_admin.Tenant.Identity.{find_tenant, build_tenant_identity_where, is_uuid}

abbrev plain : String → String
plain s = s

abbrev one_session : Store
one_session = create_session plain "s1" "t1" "tok" 0 (record { sessions = []; events = [] })

abbrev other_op : List Op
other_op = touches "s2" 5 ∷ creates "s2" "t2" "other" 6 ∷ []

not_s1 : All (IsOther "s1") other_op
not_s1 = (tt, ((λ e. ground (arith, (eq_iff "s2" "s1").1 e)), tt))

close_session-validate_example :
    (validate_session plain "s1" "tok" "t1" 20
      (run plain other_op (close_session "s1" 3 one_session))).0
    ≡ err session_not_valid
unfolding create_session cleanup_expired_records
close_session-validate_example =
    close_session-validate plain "s1" 3 20 one_session other_op "tok" "t1"
      (unfold sweep set get in (refl, tt)) not_s1

still_valid :
    is_ok (validate_session plain "s1" "tok" "t1" 20 (run plain other_op one_session)).0 ≡ true
unfolding validate_session run step create_session cleanup_expired_records sweep set get
    touch_session update_session modify delete
still_valid = refl

create_session-validate_example : (◌≡◌ {A = String} "tok" "tok") × (◌≡◌ {A = String} "t1" "t1")
create_session-validate_example =
    create_session-validate plain "s1" "t1" "tok" 0 20 (record { sessions = []; events = [] })
      other_op "tok" "t1" (λ x y e. e) tt not_s1 still_valid

first_message : is_ok (validate_session plain "s1" "tok" "t1" 10 one_session).0 ≡ true
unfolding validate_session create_session cleanup_expired_records sweep set get
first_message = refl

abbrev hello : McpSessionEvent
hello = new_event "e1" "s1" "hello" none 5

abbrev waiting : Events
waiting = hello ∷ []

hello_sent : (pull_pending_events "s1" 6 waiting).0 ≡ shown hello ∷ []
unfolding pull_pending_events pull_found order_by_created_at pending sort_by insert_by take
hello_sent = refl

nothing_left :
    (pull_pending_events "s1" 7
      (EventRuns.run (EventRuns.cleans 6 ∷ []) (pull_pending_events "s1" 6 waiting).1)).0
    ≡ []
unfolding pull_pending_events pull_found order_by_created_at pending sort_by insert_by take
    mark_delivered is_listed EventRuns.run EventRuns.step keep_events
nothing_left = refl

-- Of two events, the one that was saved between the two polls comes second.
abbrev between_polls : List EventRuns.Op
between_polls = EventRuns.enqueues "e2" "s1" "bye" none 7 ∷ []

bye_sent :
    (pull_pending_events "s1" 8
      (EventRuns.run between_polls (pull_pending_events "s1" 6 waiting).1)).0
    ≡ shown (new_event "e2" "s1" "bye" none 7) ∷ []
unfolding pull_pending_events pull_found order_by_created_at pending sort_by insert_by take
    mark_delivered is_listed EventRuns.run EventRuns.step enqueue_event
bye_sent = refl

pull_pending_events_once_example : ◌≢◌ {A = String} "e2" "e1"
pull_pending_events_once_example =
    pull_pending_events_once "s1" "s1" 6 8 waiting between_polls (shown hello)
      (shown (new_event "e2" "s1" "bye" none 7)) (rw hello_sent (inl refl))
      ((λ e. ground (arith, (eq_iff "e2" "e1").1 e)), tt) (rw bye_sent (inl refl))

abbrev payload : JwtLikePayload
payload = record {
  sub = some "u1";
  username = some "alice";
  role = some "tenant_viewer";
  tenant_id = some "acme";
  scope = none;
  token_type = some "session_key";
}

abbrev env : Environment
env = record {
  now = 10;
  event_id = "e1";
  credentials = record {
    users = [];
    settings = record {
      tenants =
          record {
            id = "t1";
            tenant_id = "acme";
            viking_account = none;
            max_docs = none;
            ov_config = none;
          }
          ∷ [];
      system_config = λ key. none;
      process_env = λ key. some "set";
      decipher = λ text. none;
      parse = λ text. none;
    };
    verify = λ token. if str_eq token "tok" then some payload else none;
  };
  execution = record {
    started_at = 1000;
    limited_at = 1001;
    finished_at = 1040;
    gateway = λ handler principal input.
        returned (object (property_value "items" (array no_values) no_property_values));
    success_is_recorded = true;
    rejection_is_recorded = true;
  };
}

abbrev alice : Principal
alice = record {
  user_id = "u1";
  username = some "alice";
  tenant_id = some "acme";
  role = some "tenant_viewer";
  scope = "tenant";
  credential_type = CredentialType.session_key;
  client_type = mcp;
  ov_config = record { base_url = "set"; api_key = "set"; account = "set"; user = some "set" };
}

abbrev query : McpMessageQuery
query = record { session_id = "s1"; session_token = "t1"; key = none; session_key = some "tok" }

abbrev stringify : Reply → String
stringify reply = "{}"

abbrev state : State in_memory
state = record { keys = []; sessions = one_session; execution = ([], []) }

abbrev search : PropertyValues
search = property_value "name" (string "knowledge.search") (
    property_value "arguments" (object (property_value "query" (string "leave") no_property_values))
      no_property_values)

abbrev call : JsonRpcRequest
call = members (text "2.0") (integer false 7) (text "tools/call") (fields search)

abbrev message : ValidatedJsonRpcMessage
message = record { id = some (integer_id false 7); method = "tools/call"; params = some search }

-- The names that the tests compute with.
running : Unit {0}
unfolding handle_message resolve_credential resolve_principal_from_credential
    resolve_principal_from_jwt principal_of_payload load_ov_config_for_tenant resolve_tenant_scope
    profile_of resolve of_found resolve_default_ov_config find_tenant build_tenant_identity_where
    is_uuid validate_session touch_session update_session create_session cleanup_expired_records
    sweep set get modify delete respond validate_json_rpc_message answer_error
    is_json_rpc_notification
running = tt

resolved : resolve_credential env none (some "tok") [] ≡ (ok (session_key_credential "tok"), [])
unfolding running
resolved = refl

ping_answered :
    (handle_message in_memory plain stringify env query
      (members (text "2.0") missing (text "ping") missing)
      state).0
    ≡ ok (failed (fault method_not_found))
unfolding running resolve_rpc_result
ping_answered = refl

abbrev ping : JsonRpcRequest
ping = members (text "2.0") (text "a") (text "ping") missing

ping_refused :
    (handle_message in_memory plain stringify env query ping state).0
    ≡ ok (failed (fault method_not_found))
unfolding running resolve_rpc_result
ping_refused = refl

handle_message-IsAnswered_example :
    IsAnswered stringify env "s1" ping one_session.events
      (handle_message in_memory plain stringify env query ping state).1.sessions.events
handle_message-IsAnswered_example =
    handle_message-IsAnswered in_memory plain stringify env query ping state
      (failed (fault method_not_found)) ping_refused

abbrev wrong_query : McpMessageQuery
wrong_query = record query { session_token = "t2" }

wrong_token :
    (handle_message in_memory plain stringify env wrong_query ping state).0
    ≡ err (bad_session session_not_valid)
unfolding running resolve_rpc_result
wrong_token = refl

handle_message_refused_example :
    ((handle_message in_memory plain stringify env wrong_query ping state).1.sessions.events
      ≡ one_session.events)
    × ((handle_message in_memory plain stringify env wrong_query ping state).1.execution ≡ ([], []))
handle_message_refused_example =
    handle_message_refused in_memory plain stringify env wrong_query ping state
      (bad_session session_not_valid) wrong_token

call_okay : (handle_message in_memory plain stringify env query call state).0 ≡ ok okay
unfolding running resolve_rpc_result execute_named capability_named execute assert_allowed consume
    RateLimitStore.cleanup_expired validate_input validate_output validate_value authorize
    role_weight resolve_principal_role property_of
call_okay = refl

handle_message-gateway_calls_example :
    (gateway_calls (handle_message in_memory plain stringify env query call state).1.execution.1
      ≡ 1)
    ↔ ((authorize knowledge_search_entry.contract alice ≡ ok tt)
        × Conforms knowledge_search_entry.contract.input_schema
            (object (property_value "query" (string "leave") no_property_values))
        × ((ds : List RateLimitDecision) × ((assert_allowed in_memory alice knowledge_search 1001
                []).0
              ≡ allowed ds)))
unfolding running get_capability_registry_entry property_of
handle_message-gateway_calls_example =
    handle_message-gateway_calls in_memory plain stringify env message knowledge_search refl
      (unfold property_of in refl) query call state _ (session_key_credential "tok") alice [] []
      knowledge_search_entry [] refl resolved refl refl refl call_okay
