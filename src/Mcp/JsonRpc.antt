-- ===== src/Mcp/JsonRpc.antt =====
-- The messages of apps/server/src/mcp/mcp-protocol.service.ts and mcp.types.ts: what is a request,
-- what a notification, and what is wrong with a message. A message is what JSON parsing gives: of a
-- member it matters whether it is there, and whether it is a text, an integer or an object (which
-- is not an array).
pub mod Shape
use mathlib.Core.Path.{subst}
use openviking_admin.Capability.Schema.{PropertyValues}
use openviking_admin.Prelude.{
  ℕ, zero, suc, ◌+◌, ◌-◌, ◌*◌, ◌≤◌, ◌<◌, String, ◌≡◌, refl, sym, ap, ◌∙◌, ◌≢◌, ◌↔◌, ◌⊎◌, inl, inr,
  Bool, true, false, not, ◌&&◌, ◌||◌, Option, none, some, List, [], ◌∷◌, ◌++◌, arith, eq_iff,
  str_eq, str_eq_refl, str_eq→≡, str_ne, if◌then◌else◌, Bool-cases, Option-cases, truthy, or_else,
  Result, ok, err, ◌>>=◌, ◌>>◌, is_ok, Result-cases, In, In-append, In-append_left, In-append_right,
  length, length-append, ltb, leb, ◌==◌, get, set, delete, Map, sweep, HasUniqueKeys, fresh, modify,
  mapped, get-modify, modify-HasUniqueKeys, get-set, get-delete, get-sweep, set-HasUniqueKeys,
  delete-HasUniqueKeys, sweep-HasUniqueKeys, take, In-take, length-take, insert_by, sort_by,
  In-sort_by, take-sort_by,
}

pub data Member : Type 0 where
  missing : Member
  text : String → Member
  integer : (negative : Bool) → ℕ → Member
  fields : PropertyValues → Member
  something_else : Member

-- An array has none of the members, so it does as well as a body that is no record.
pub data JsonRpcRequest : Type 0 where
  not_a_record : JsonRpcRequest
  members : (jsonrpc id method params : Member) → JsonRpcRequest

pub data JsonRpcId : Type 0 where
  text_id : String → JsonRpcId
  integer_id : (negative : Bool) → ℕ → JsonRpcId

pub data JsonRpcFault : Type 0 where
  invalid_request method_not_found invalid_params : JsonRpcFault

-- No id makes it a notification.
pub record ValidatedJsonRpcMessage : Type 0 where
  pub id : Option JsonRpcId
  pub method : String
  pub params : Option PropertyValues

-- The id, if `isValidJsonRpcId` holds of the member.
abbrev pub valid_id : Member → Option JsonRpcId
valid_id (text s) = some (text_id s)
valid_id (integer negative n) = some (integer_id negative n)
valid_id _ = none

abbrev pub is_missing : Member → Bool
is_missing missing = true
is_missing _ = false

unfoldable pub normalize_json_rpc_params : Member → Result JsonRpcFault (Option PropertyValues)
normalize_json_rpc_params missing = ok none
normalize_json_rpc_params (fields given) = ok (some given)
normalize_json_rpc_params _ = err invalid_params

-- The method, if the version is 2.0 and the method a text.
abbrev pub method_of : (jsonrpc method : Member) → Option String
method_of (text version) (text name) = if str_eq version "2.0" then some name else none
method_of _ _ = none

abbrev with_params :
    Option JsonRpcId → String → Member → Result JsonRpcFault ValidatedJsonRpcMessage
with_params id name params = normalize_json_rpc_params params >>= λ given.
    ok (record { id = id; method = name; params = given })

unfoldable pub validate_json_rpc_message :
    JsonRpcRequest → Result JsonRpcFault ValidatedJsonRpcMessage
unfolding normalize_json_rpc_params
validate_json_rpc_message not_a_record = err invalid_request
validate_json_rpc_message (members jsonrpc id method params) = elim (method_of jsonrpc method) [
  | none ↦ err invalid_request
  | some name ↦ if is_missing id then with_params none name params else elim (valid_id id) [
    | none ↦ err invalid_request
    | some valid ↦ with_params (some valid) name params
  ]
]

unfoldable pub is_json_rpc_notification : JsonRpcRequest → Bool
is_json_rpc_notification not_a_record = false
is_json_rpc_notification (members jsonrpc id method params) =
    is_missing id && (elim (method_of jsonrpc method) [ none ↦ false | some name ↦ true ])

unfoldable pub resolve_json_rpc_error_id : JsonRpcRequest → Option JsonRpcId
resolve_json_rpc_error_id not_a_record = none
resolve_json_rpc_error_id (members jsonrpc id method params) = valid_id id
