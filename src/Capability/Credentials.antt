-- ===== src/Capability/Credentials.antt =====
-- apps/server/src/capabilities/infrastructure/capability-credential.service.ts: who calls, from an
-- API key, a token or a session of the web application; and the keys of a user. The table of keys
-- is the list of its rows, oldest first; the users and the settings are an `Environment`, with the
-- check of a token, which is the JWT library's. The random key and the id of a new row are given.
-- A row that would break the table's primary key or its unique column is not saved. The clock is
-- read once in a call. Times are milliseconds.
pub mod Table
pub mod Runs
pub mod Lookup
pub mod Limits
pub mod Lifetimes
pub mod Revocation
mod Examples
use openviking_admin.Prelude.{
  ℕ, ◌+◌, ◌*◌, String, Bool, true, false, not, ◌&&◌, ◌||◌, Option, none, some, List, [], ◌∷◌, ◌++◌,
  str_eq, leb, truthy, or_else, if◌then◌else◌, Result, ok, err, ◌>>=◌,
}
use openviking_admin.Capability.Types.{
  Principal, OvConfigProfile, CredentialType, api_key, jwt_access_token, capability_access_token,
  session_key, ClientType,
}
use openviking_admin.Capability.Credentials.Table.{
  CapabilityKey, UserRow, Keys, find_by_api_key, find_of_tenant, set_last_used, count_of_user,
  remove_row, is_taken, find_user,
}
use openviking_admin.Capability.Ttl as Ttl
use openviking_admin.Capability.Ttl.{resolve_credential_ttl_seconds}
use openviking_admin.Settings.OvConfig as OvConfig
use openviking_admin.Settings.OvConfig.{ResolvedOvConfig, either, resolve}
use openviking_admin.Tenant.Identity.{find_tenant}

pub record JwtLikePayload : Type 0 where
  pub sub : Option String
  pub username : Option String
  pub role : Option String
  pub tenant_id : Option String
  pub scope : Option String
  pub token_type : Option String

pub record Environment : Type 0 where
  pub users : List UserRow
  pub settings : OvConfig.Environment
  pub verify : String → Option JwtLikePayload

pub data CredentialError : Type 0 where
  invalid_api_key expired_api_key invalid_token token_without_tenant : CredentialError
  user_without_tenant tenant_not_found engine_not_configured : CredentialError
  user_not_found too_many_keys unsupported_ttl key_not_found not_saved : CredentialError

unfoldable pub resolve_tenant_scope : Environment → String → Result CredentialError String
unfolding find_tenant
resolve_tenant_scope env tenant_id = elim (find_tenant env.settings.tenants tenant_id) [
  | none ↦ err tenant_not_found
  | some tenant ↦ ok tenant.tenant_id
]

-- The check of `loadOvConfigForTenant` on what was resolved.
unfoldable pub profile_of : ResolvedOvConfig → Result CredentialError OvConfigProfile
profile_of resolved = elim (either resolved.api_key none) [
  | none ↦ err engine_not_configured
  | some secret ↦ elim (either resolved.base_url none) [
    | none ↦ err engine_not_configured
    | some base_url ↦ ok (record {
      base_url = base_url;
      api_key = secret;
      account = or_else (either resolved.account none) "default";
      user = resolved.user;
    })
  ]
]

unfoldable pub load_ov_config_for_tenant :
    Environment → String → Result CredentialError OvConfigProfile
unfolding profile_of resolve
load_ov_config_for_tenant env tenant_id = profile_of (resolve env.settings (some tenant_id))

abbrev pub username_of : Option UserRow → Option String
username_of none = none
username_of (some user) = some user.username

abbrev pub role_of : Option UserRow → Option String
role_of none = none
role_of (some user) = some user.role

abbrev pub is_expired : ℕ → CapabilityKey → Bool
is_expired now key = elim key.expires_at [ none ↦ false | some t ↦ leb t now ]

-- `resolvePrincipalFromApiKey` after the use of the key is written.
unfoldable pub principal_of_key :
    Environment → ClientType → CapabilityKey → Result CredentialError Principal
unfolding load_ov_config_for_tenant resolve_tenant_scope find_user
principal_of_key env client_type key = do
  ov_config ← load_ov_config_for_tenant env key.tenant_id
  tenant_scope ← resolve_tenant_scope env key.tenant_id
  let user = find_user key.user_id key.tenant_id env.users
  ok (record {
    user_id = key.user_id;
    username = username_of user;
    tenant_id = some tenant_scope;
    role = role_of user;
    scope = "tenant";
    credential_type = api_key;
    client_type = client_type;
    ov_config = ov_config;
  })

unfoldable pub resolve_principal_from_api_key :
    Environment → String → ClientType → ℕ → Keys → Result CredentialError Principal × Keys
unfolding find_by_api_key set_last_used principal_of_key
resolve_principal_from_api_key env text client_type now keys = elim (find_by_api_key text keys) [
  | none ↦ (err invalid_api_key, keys)
  | some key ↦
      if is_expired now key
      then (err expired_api_key, keys)
      else (principal_of_key env client_type key, set_last_used key.id now keys)
]

abbrev credential_type_of : Option String → CredentialType
credential_type_of token_type =
    let type = or_else token_type "jwt_access_token" in
    if str_eq type "capability_access_token"
    then capability_access_token
    else if str_eq type "session_key"
    then session_key
    else jwt_access_token

-- The rest of `resolvePrincipalFromJwt`, with the subject and the tenant of the payload.
unfoldable pub principal_of_payload :
    Environment → ClientType → JwtLikePayload → String → String → Result CredentialError Principal
unfolding load_ov_config_for_tenant resolve_tenant_scope
principal_of_payload env client_type payload sub tenant_id = do
  ov_config ← load_ov_config_for_tenant env tenant_id
  tenant_scope ← resolve_tenant_scope env tenant_id
  ok (record {
    user_id = sub;
    username = payload.username;
    tenant_id = some tenant_scope;
    role = payload.role;
    scope = or_else payload.scope "tenant";
    credential_type = credential_type_of payload.token_type;
    client_type = client_type;
    ov_config = ov_config;
  })

unfoldable pub resolve_principal_from_jwt :
    Environment → String → ClientType → Result CredentialError Principal
unfolding principal_of_payload
resolve_principal_from_jwt env token client_type = elim (env.verify token) [
  | none ↦ err invalid_token
  | some payload ↦ elim (either payload.sub none) [
    | none ↦ err token_without_tenant
    | some sub ↦ elim (either payload.tenant_id none) [
      | none ↦ err token_without_tenant
      | some tenant_id ↦ principal_of_payload env client_type payload sub tenant_id
    ]
  ]
]

-- The user of the web application's session, as the request carries it.
pub record AuthenticatedUser : Type 0 where
  pub id : String
  pub username : String
  pub tenant_id : Option String
  pub role : Option String
  pub scope : Option String

unfoldable pub resolve_principal_from_authenticated_user :
    Environment
    → AuthenticatedUser
    → ClientType
    → Option CredentialType
    → Result CredentialError Principal
unfolding load_ov_config_for_tenant resolve_tenant_scope
resolve_principal_from_authenticated_user env user client_type type =
    elim (either user.tenant_id none) [
      | none ↦ err user_without_tenant
      | some tenant_id ↦ do
        tenant_scope ← resolve_tenant_scope env tenant_id
        ov_config ← load_ov_config_for_tenant env tenant_id
        ok (record {
          user_id = user.id;
          username = some user.username;
          tenant_id = some tenant_scope;
          role = user.role;
          scope = or_else user.scope "tenant";
          credential_type = or_else type jwt_access_token;
          client_type = client_type;
          ov_config = ov_config;
        })
    ]

abbrev pub new_key : (id text user_id tenant_id name : String) → Option ℕ → ℕ → CapabilityKey
new_key id text user_id tenant_id name resolved now = record {
  id = id;
  name = if truthy (some name) then name else "未命名 capability key";
  api_key = text;
  user_id = user_id;
  tenant_id = tenant_id;
  last_used_at = none;
  expires_at = elim resolved [ none ↦ none | some t ↦ some (now + t * 1000) ];
}

-- The count of the keys and the save are taken as one step.
unfoldable pub create_api_key :
    Environment
    → (id text : String) → (user_id tenant_id name : String) → Option (Option ℕ)
    → ℕ
    → Keys
    → Result CredentialError CapabilityKey × Keys
unfolding find_user count_of_user resolve_credential_ttl_seconds is_taken
create_api_key env id text user_id tenant_id name ttl_seconds now keys =
    elim (find_user user_id tenant_id env.users) [
      | none ↦ (err user_not_found, keys)
      | some user ↦
          if not user.active
          then (err user_not_found, keys)
          else if leb 10 (count_of_user user_id keys)
          then (err too_many_keys, keys)
          else elim (resolve_credential_ttl_seconds Ttl.api_key ttl_seconds) [
            | err e ↦ (err unsupported_ttl, keys)
            | ok resolved ↦
                let key = new_key id text user_id tenant_id name resolved now in
                if is_taken id text keys then (err not_saved, keys) else (ok key, keys ++ key ∷ [])
          ]
    ]

unfoldable pub delete_key : String → String → Keys → Result CredentialError (Unit {0}) × Keys
unfolding find_of_tenant remove_row
delete_key id tenant_id keys = elim (find_of_tenant id tenant_id keys) [
  | none ↦ (err key_not_found, keys)
  | some key ↦ (ok tt, remove_row key.id keys)
]
