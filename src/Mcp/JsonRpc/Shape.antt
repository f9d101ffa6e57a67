-- ===== src/Mcp/JsonRpc/Shape.antt =====
-- What a valid message has to do with its body.
use openviking_admin.Mcp.JsonRpc.{
  JsonRpcRequest, ValidatedJsonRpcMessage, not_a_record, members, missing, text, integer, fields,
  something_else, validate_json_rpc_message, is_json_rpc_notification, resolve_json_rpc_error_id,
  normalize_json_rpc_params, JsonRpcId, Member, text_id, integer_id,
}
use openviking_admin.Capability.Schema.{PropertyValues}
use openviking_admin.Prelude.{
  ℕ, String, refl, eq_iff, ◌≡◌, Bool, true, false, Option, none, some, arith, ok,
}

abbrev pub is_notification : Option JsonRpcId → Bool
is_notification none = true
is_notification (some id) = false

-- A valid message has the id with which an error would be answered, and it is a notification just
-- when an error would not be answered.
pub validate_json_rpc_message-id :
    (body : JsonRpcRequest) (message : ValidatedJsonRpcMessage)
    → validate_json_rpc_message body ≡ ok message
    → (message.id ≡ resolve_json_rpc_error_id body)
      × (is_notification message.id ≡ is_json_rpc_notification body)
unfolding validate_json_rpc_message is_json_rpc_notification resolve_json_rpc_error_id
    normalize_json_rpc_params
validate_json_rpc_message-id not_a_record message h = absurd (cc)
validate_json_rpc_message-id (members jsonrpc missing method params) message h = ground arith
validate_json_rpc_message-id (members jsonrpc (text s) method params) message h = ground arith
validate_json_rpc_message-id (members jsonrpc (integer negative n) method params) message h =
    ground arith
validate_json_rpc_message-id (members jsonrpc (fields given) method params) message h = ground arith
validate_json_rpc_message-id (members jsonrpc something_else method params) message h = ground arith

-- A call without an id.
pub data IsNotification : JsonRpcRequest → Type 0 where
  call_without_id :
      (name : String) (params : Member)
      → IsNotification (members (text "2.0") missing (text name) params)

-- The id to which an answer refers: a text or an integer, or none.
pub data HasId : JsonRpcRequest → Option JsonRpcId → Type 0 where
  of_text :
      (jsonrpc : Member) (s : String) (method params : Member)
      → HasId (members jsonrpc (text s) method params) (some (text_id s))
  of_integer :
      (jsonrpc : Member) (negative : Bool) (n : ℕ) (method params : Member)
      → HasId (members jsonrpc (integer negative n) method params) (some (integer_id negative n))
  of_no_record : HasId not_a_record none
  of_missing : (jsonrpc method params : Member) → HasId (members jsonrpc missing method params) none
  of_object :
      (jsonrpc : Member) (given : PropertyValues) (method params : Member)
      → HasId (members jsonrpc (fields given) method params) none
  of_something_else :
      (jsonrpc method params : Member) → HasId (members jsonrpc something_else method params) none

pub HasId-resolve_json_rpc_error_id :
    (body : JsonRpcRequest) → HasId body (resolve_json_rpc_error_id body)
unfolding resolve_json_rpc_error_id
HasId-resolve_json_rpc_error_id not_a_record = of_no_record
HasId-resolve_json_rpc_error_id (members j missing m p) = of_missing j m p
HasId-resolve_json_rpc_error_id (members j (text s) m p) = of_text j s m p
HasId-resolve_json_rpc_error_id (members j (integer negative n) m p) = of_integer j negative n m p
HasId-resolve_json_rpc_error_id (members j (fields given) m p) = of_object j given m p
HasId-resolve_json_rpc_error_id (members j something_else m p) = of_something_else j m p

method-IsNotification :
    (jsonrpc method params : Member)
    → is_json_rpc_notification (members jsonrpc missing method params) ≡ true
    → IsNotification (members jsonrpc missing method params)
unfolding is_json_rpc_notification
method-IsNotification (text version) (text name) params h =
    let same : version ≡ "2.0" = ground (arith, h, eq_iff version "2.0") in
    rw same (call_without_id name params)
method-IsNotification (text version) missing params h = absurd (cc)
method-IsNotification (text version) (integer negative n) params h = absurd (cc)
method-IsNotification (text version) (fields given) params h = absurd (cc)
method-IsNotification (text version) something_else params h = absurd (cc)
method-IsNotification missing method params h = absurd (cc)
method-IsNotification (integer negative n) method params h = absurd (cc)
method-IsNotification (fields given) method params h = absurd (cc)
method-IsNotification something_else method params h = absurd (cc)

pub is_json_rpc_notification-IsNotification :
    (body : JsonRpcRequest) → is_json_rpc_notification body ≡ true → IsNotification body
unfolding is_json_rpc_notification
is_json_rpc_notification-IsNotification not_a_record h = absurd (cc)
is_json_rpc_notification-IsNotification (members j missing m p) h = method-IsNotification j m p h
is_json_rpc_notification-IsNotification (members j (text s) m p) h = absurd (cc)
is_json_rpc_notification-IsNotification (members j (integer negative n) m p) h = absurd (cc)
is_json_rpc_notification-IsNotification (members j (fields given) m p) h = absurd (cc)
is_json_rpc_notification-IsNotification (members j something_else m p) h = absurd (cc)

pub IsNotification-is_json_rpc_notification :
    (body : JsonRpcRequest) → IsNotification body → is_json_rpc_notification body ≡ true
unfolding is_json_rpc_notification
IsNotification-is_json_rpc_notification _ (call_without_id name params) = refl
