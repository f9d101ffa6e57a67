-- ===== src/Capability/Exchange.antt =====
-- apps/server/src/capabilities/application/credential-exchange.service.ts. Signing is the JWT
-- library's: `sign` takes the claims and the life in seconds (`expiresIn`). The audit record of an
-- exchange is returned beside the credential.
pub mod Lifetimes
use openviking_admin.Prelude.{ℕ, String, Option, Result, ok, ◌>>=◌, Bool, true}
use openviking_admin.Capability.Types.{Principal}
use openviking_admin.Capability.Ttl.{
  SelectableCredentialType, capability_access_token, session_key, TtlError,
  resolve_credential_ttl_seconds, ensure_numeric_ttl,
}

pub record Claims : Type 0 where
  pub sub : String
  pub username : Option String
  pub role : Option String
  pub tenant_id : Option String
  pub scope : String
  pub token_type : SelectableCredentialType

pub record Credential : Type 0 where
  pub credential_type : SelectableCredentialType
  pub token : String
  pub expires_in_seconds : ℕ

pub data Flow : Type 0 where
  token_exchange session_exchange : Flow

pub record ExchangeRecord : Type 0 where
  pub trace_id : String
  pub request_id : String
  pub principal : Principal
  pub flow : Flow
  pub issued_credential_type : SelectableCredentialType
  pub success : Bool

abbrev pub claims_of : Principal → SelectableCredentialType → Claims
claims_of principal type = record {
  sub = principal.user_id;
  username = principal.username;
  role = principal.role;
  tenant_id = principal.tenant_id;
  scope = principal.scope;
  token_type = type;
}

module _ (sign : Claims → ℕ → String) (principal : Principal) (trace_id request_id : String)
    (ttl_seconds : Option (Option ℕ)) where
  unfoldable pub exchange_access_token : Result TtlError (Credential × ExchangeRecord)
  unfolding resolve_credential_ttl_seconds ensure_numeric_ttl
  exchange_access_token = do
    resolved ← resolve_credential_ttl_seconds capability_access_token ttl_seconds
    expires_in_seconds ← ensure_numeric_ttl resolved
    let access_token = sign (claims_of principal capability_access_token) expires_in_seconds
    ok (
      record {
        credential_type = capability_access_token;
        token = access_token;
        expires_in_seconds = expires_in_seconds;
      },
      record {
        trace_id = trace_id;
        request_id = request_id;
        principal = principal;
        flow = token_exchange;
        issued_credential_type = capability_access_token;
        success = true;
      },
    )

  unfoldable pub exchange_session_key : Result TtlError (Credential × ExchangeRecord)
  unfolding resolve_credential_ttl_seconds ensure_numeric_ttl
  exchange_session_key = do
    resolved ← resolve_credential_ttl_seconds session_key ttl_seconds
    expires_in_seconds ← ensure_numeric_ttl resolved
    let key = sign (claims_of principal session_key) expires_in_seconds
    ok (
      record {
        credential_type = session_key;
        token = key;
        expires_in_seconds = expires_in_seconds;
      },
      record {
        trace_id = trace_id;
        request_id = request_id;
        principal = principal;
        flow = session_exchange;
        issued_credential_type = session_key;
        success = true;
      },
    )
