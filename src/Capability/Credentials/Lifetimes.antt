-- ===== src/Capability/Credentials/Lifetimes.antt =====
-- How long a key lives.
use openviking_admin.Prelude.{ℕ, ◌≤◌, ◌≡◌, Option, some, arith, ok}
use openviking_admin.Capability.Ttl as Ttl
use openviking_admin.Capability.Ttl.{resolve_credential_ttl_seconds}

api_key_life :
    (ttl : Option (Option ℕ)) (s : ℕ)
    → resolve_credential_ttl_seconds Ttl.api_key ttl ≡ ok (some s)
    → (604800 ≤ s) × (s ≤ 15552000)
unfolding resolve_credential_ttl_seconds
api_key_life ttl s h = ground arith
