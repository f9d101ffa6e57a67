-- ===== src/Capability/Exchange/Lifetimes.antt =====
-- How long exchanged credentials live.
use openviking_admin.Prelude.{ℕ, ◌≤◌, String, Option, ok, ◌≡◌, arith}
use openviking_admin.Capability.Types.{Principal}
use openviking_admin.Capability.Ttl.{capability_access_token}
use openviking_admin.Capability.Exchange.{
  Claims, Credential, ExchangeRecord, claims_of, exchange_access_token,
}

module _ (sign : Claims → ℕ → String) (principal : Principal) (trace_id request_id : String)
    (ttl_seconds : Option (Option ℕ)) (c : Credential) (r : ExchangeRecord) where
  -- An access token lives between half an hour and a day, and is signed for exactly the life that
  -- is returned with it and for the caller's own identity.
  pub exchange_access_token_bounds :
      exchange_access_token sign principal trace_id request_id ttl_seconds ≡ ok (c, r)
      → (1800 ≤ c.expires_in_seconds)
        × (c.expires_in_seconds ≤ 86400)
        × (c.token ≡ sign (claims_of principal capability_access_token) c.expires_in_seconds)
  unfolding exchange_access_token
  exchange_access_token_bounds = ground arith
