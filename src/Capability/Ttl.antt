-- ===== src/Capability/Ttl.antt =====
-- apps/server/src/capabilities/domain/credential-ttl.policy.ts, and `ensureNumericTtl` of
-- apps/server/src/capabilities/application/credential-exchange.service.ts. An absent argument is the outer `none`, `null` the inner one.
-- The labels of the options are left out.
use openviking_admin.Prelude.{
  ℕ, ◌*◌, Option, none, some, Bool, true, false, ◌==◌, ◌||◌, List, [], ◌∷◌, Result, ok, err,
  if◌then◌else◌,
}

pub data SelectableCredentialType : Type 0 where
  capability_access_token session_key api_key : SelectableCredentialType

pub record CredentialTtlOption : Type 0 where
  pub value : Option ℕ
  pub default : Bool

pub record CredentialTtlPolicy : Type 0 where
  pub default_ttl_seconds : Option ℕ
  pub options : List CredentialTtlOption

abbrev minutes_15 : ℕ
minutes_15 = 15 * 60

abbrev minutes_30 : ℕ
minutes_30 = 30 * 60

abbrev hour_1 : ℕ
hour_1 = 60 * 60

abbrev hours_2 : ℕ
hours_2 = 2 * 60 * 60

abbrev hours_8 : ℕ
hours_8 = 8 * 60 * 60

abbrev hours_24 : ℕ
hours_24 = 24 * 60 * 60

abbrev days : ℕ → ℕ
days n = n * 24 * 60 * 60

abbrev choice : Option ℕ → CredentialTtlOption
choice v = record { value = v; default = false }

abbrev default_choice : Option ℕ → CredentialTtlOption
default_choice v = record { value = v; default = true }

unfoldable pub get_credential_ttl_policy : SelectableCredentialType → CredentialTtlPolicy
get_credential_ttl_policy capability_access_token = record {
  default_ttl_seconds = some hours_2;
  options =
      choice (some minutes_30)
      ∷ choice (some hour_1)
      ∷ default_choice (some hours_2)
      ∷ choice (some hours_8)
      ∷ choice (some hours_24)
      ∷ [];
}
get_credential_ttl_policy session_key = record {
  default_ttl_seconds = some minutes_30;
  options =
      choice (some minutes_15)
      ∷ default_choice (some minutes_30)
      ∷ choice (some hour_1)
      ∷ choice (some hours_8)
      ∷ [];
}
get_credential_ttl_policy api_key = record {
  default_ttl_seconds = some (days 30);
  options =
      choice (some (days 7))
      ∷ default_choice (some (days 30))
      ∷ choice (some (days 90))
      ∷ choice (some (days 180))
      ∷ choice none
      ∷ [];
}

pub data TtlError : Type 0 where
  unsupported_ttl : SelectableCredentialType → TtlError
  no_unlimited_jwt : TtlError

-- `===` between numbers and null.
abbrev same_ttl : Option ℕ → Option ℕ → Bool
same_ttl none none = true
same_ttl (some a) (some b) = a == b
same_ttl _ _ = false

abbrev offers : List CredentialTtlOption → Option ℕ → Bool
offers [] v = false
offers (o ∷ os) v = same_ttl o.value v || offers os v

unfoldable pub resolve_credential_ttl_seconds :
    SelectableCredentialType → Option (Option ℕ) → Result TtlError (Option ℕ)
unfolding get_credential_ttl_policy
resolve_credential_ttl_seconds type none = ok (get_credential_ttl_policy type).default_ttl_seconds
resolve_credential_ttl_seconds type (some requested) =
    if offers (get_credential_ttl_policy type).options requested
    then ok requested
    else err (unsupported_ttl type)

unfoldable pub ensure_numeric_ttl : Option ℕ → Result TtlError ℕ
ensure_numeric_ttl none = err no_unlimited_jwt
ensure_numeric_ttl (some ttl_seconds) = ok ttl_seconds
