-- ===== src/Capability/Execution/Gates.antt =====
-- What has to hold before the gateway is called, and what holds when a call succeeds.
use openviking_admin.Prelude.{
  is_ok, ap, ◌⊎◌, ◌≢◌, if◌then◌else◌, ℕ, suc, some, false, List, [], ◌∷◌, Result, ok, err, ◌≡◌, ◌↔◌,
  refl, arith, Result-cases, inl, inr,
}
use openviking_admin.Capability.Types.{CapabilityId, Principal}
use openviking_admin.Capability.Schema.{Value}
use openviking_admin.Capability.Schema.Conforms.{Conforms}
use openviking_admin.Capability.Contract.{ContractError, validate_input, validate_output}
use openviking_admin.Capability.Contract.Validity.{validate_input_iff}
use openviking_admin.Capability.Authorization.{AuthorizationError, authorize}
use openviking_admin.Capability.Registry.{get_capability_registry_entry}
use openviking_admin.Capability.Registry.Entry.{CapabilityRegistryEntry}
use openviking_admin.Capability.RateLimit.Service.{
  CapabilityRateLimitStore, RateLimitDecision, Verdict, allowed, rejected, store_failed,
  assert_allowed,
}
use openviking_admin.Capability.Execution.{
  State, returned, Environment, Effect, called_gateway, record_success, record_rejected, Failure,
  forbidden, contract_broken, rate_limited, audit_failed, CapabilityInvocationResult, attempt,
  execute,
}

abbrev pub gateway_calls : List Effect → ℕ
gateway_calls [] = 0
gateway_calls (called_gateway h v ∷ es) = suc (gateway_calls es)
gateway_calls (_ ∷ es) = gateway_calls es

module _ (store : CapabilityRateLimitStore) (env : Environment) (id : CapabilityId)
    (entry : CapabilityRegistryEntry) (input : Value) (principal : Principal)
    (s : store.State) where
  -- The limiter's answer to the call.
  abbrev limited : Verdict × store.State
  limited = assert_allowed store principal id env.limited_at s

  abbrev after : Result Failure CapabilityInvocationResult × State store
  after = execute store env id input principal (s, [])

  abbrev attempted : Result Failure CapabilityInvocationResult × State store
  attempted = attempt store env entry id input principal (s, [])

  attempt_of_allowed :
      (ds : List RateLimitDecision) → limited.0 ≡ allowed ds → gateway_calls attempted.1.1 ≡ 1
  unfolding attempt
  attempt_of_allowed ds h = ground arith

  attempt_of_rejected :
      (d : RateLimitDecision)
      → limited.0 ≡ rejected d
      → attempted ≡ (
        err (if env.rejection_is_recorded then rate_limited d else audit_failed),
        (limited.1, record_rejected ∷ []),
      )
  unfolding attempt
  attempt_of_rejected d h = ground arith

  attempt_of_failed : limited.0 ≡ store_failed → gateway_calls attempted.1.1 ≡ 0
  unfolding attempt
  attempt_of_failed h = ground arith

  attempt_calls :
      (v : Verdict)
      → limited.0 ≡ v
      → gateway_calls attempted.1.1 ≡ 1
      → (ds : List RateLimitDecision) × (limited.0 ≡ allowed ds)
  attempt_calls (allowed ds) e h = (ds, e)
  attempt_calls (rejected d) e h = absurd (
      omega (
        arith,
        h,
        ap (λ (x : Result Failure CapabilityInvocationResult × State store). gateway_calls x.1.1)
            (attempt_of_rejected d e),
      ))
  attempt_calls store_failed e h = absurd (omega (arith, h, attempt_of_failed e))

  attempt_succeeds :
      (r : CapabilityInvocationResult)
      → attempted.0 ≡ ok r
      → (env.gateway entry.gateway_handler principal input ≡ returned r.result_data)
        × (validate_output entry.contract r.result_data ≡ ok tt)
        × (attempted.1.1 ≡ called_gateway entry.gateway_handler input ∷ record_success ∷ [])
  unfolding attempt
  attempt_succeeds r h = ground arith

  module _ (found : get_capability_registry_entry id ≡ some entry) where
    execute-attempt :
        authorize entry.contract principal ≡ ok tt
        → validate_input entry.contract input ≡ ok tt
        → after ≡ attempted
    unfolding execute
    execute-attempt a v = ground arith

    closed_to :
        (e : AuthorizationError)
        → authorize entry.contract principal ≡ err e
        → after ≡ (err (forbidden e), (s, []))
    unfolding execute
    closed_to e h = ground arith

    closed_for :
        (e : ContractError)
        → authorize entry.contract principal ≡ ok tt
        → validate_input entry.contract input ≡ err e
        → after ≡ (err (contract_broken e), (s, []))
    unfolding execute
    closed_for e a h = ground arith

    -- Either a call passes authorisation and validation and is attempted, or it fails and leaves
    -- no trace: no quota is used, nothing is recorded, the gateway is not called.
    gates :
        ((authorize entry.contract principal ≡ ok tt)
          × Conforms entry.contract.input_schema input
          × (after ≡ attempted))
        ⊎ ((is_ok after.0 ≡ false) × (after.1 ≡ (s, [])))
    gates = elim (Result-cases (authorize entry.contract principal)) [
      | inr (e, h) ↦ inr (rw (closed_to e h) refl, rw (closed_to e h) refl)
      | inl (u, a) ↦ elim (Result-cases (validate_input entry.contract input)) [
        | inr (e, h) ↦ inr (rw (closed_for e a h) refl, rw (closed_for e a h) refl)
        | inl (w, v) ↦ inl (a, (validate_input_iff entry.contract input).0 v, execute-attempt a v)
      ]
    ]

    -- The gateway is called exactly when the principal is authorised, the input conforms to the
    -- contract's schema and the rate limiter lets the call pass.
    pub gateway_calls-execute : (gateway_calls after.1.1 ≡ 1) ↔ (
        (authorize entry.contract principal ≡ ok tt)
        × Conforms entry.contract.input_schema input
        × ((ds : List RateLimitDecision) × (limited.0 ≡ allowed ds)))
    gateway_calls-execute = (
      λ h. elim gates [
        | inl (a, c, e) ↦ (a, c, attempt_calls limited.0 refl (rw e at h))
        | inr (failed, untouched) ↦
            absurd (omega (arith, h, ap (λ (x : State store). gateway_calls x.1) untouched))
      ],
      λ (a, c, (ds, h)).
          rw (execute-attempt a ((validate_input_iff entry.contract input).1 c))
            (attempt_of_allowed ds h),
    )

    -- A call that is refused before the rate limiter uses no quota, calls nothing and records
    -- nothing.
    pub execute_refused :
        (authorize entry.contract principal ≢ ok tt) ⊎ ¬ Conforms entry.contract.input_schema input
        → (is_ok after.0 ≡ false) × (after.1 ≡ (s, []))
    execute_refused h = elim gates [
      | inr r ↦ r
      | inl (a, c, e) ↦ absurd (elim h [ inl na ↦ na a | inr nc ↦ nc c ])
    ]
