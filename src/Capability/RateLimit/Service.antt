-- ===== src/Capability/RateLimit/Service.antt =====
-- apps/server/src/capabilities/infrastructure/capability-rate-limit.service.ts over the interface
-- of capability-rate-limit.store.ts. A store is an explicit state; `none` stands for a store call
-- whose promise is rejected. The clock is read once, by the caller. Times of a decision and of a
-- snapshot stay in milliseconds: the code only prints them.
use Prim.Native.String
use openviking_admin.Prelude.{
  ℕ, ◌-◌, String, Option, none, some, Bool, leb, if◌then◌else◌, List, [], ◌∷◌, ◌++◌, map, or_else,
}
use openviking_admin.Capability.Types.{CapabilityId, id_text, client_type_text, Principal}
use openviking_admin.Capability.RateLimit.Store.{
  RateLimitBucketState, RateLimitBucketConsumeResult, Buckets, consume, entries,
}

pub record CapabilityRateLimitStore : Type 1 where
  pub State : Type 0
  pub consume : String → ℕ → ℕ → ℕ → State → Option RateLimitBucketConsumeResult × State
  pub entries : ℕ → State → List (String × RateLimitBucketState) × State

-- The in-memory driver, which never fails.
abbrev pub in_memory : CapabilityRateLimitStore
in_memory = record {
  State = Buckets;
  consume =
      λ key limit w now s. (some (consume key limit w now s).0, (consume key limit w now s).1);
  entries = entries;
}

pub data Scope : Type 0 where
  tenant user client_type capability : Scope

abbrev pub scope_text : Scope → String
scope_text tenant = "tenant"
scope_text user = "user"
scope_text client_type = "clientType"
scope_text capability = "capability"

pub record RateLimitBucketRule : Type 0 where
  pub scope : Scope
  pub limit : ℕ
  pub window_ms : ℕ

pub record RateLimitDecision : Type 0 where
  pub allowed : Bool
  pub scope : Scope
  pub key : String
  pub limit : ℕ
  pub remaining : ℕ
  pub reset_at : ℕ

abbrev pub capability_rate_limit_rules : List RateLimitBucketRule
capability_rate_limit_rules =
    record { scope = tenant; limit = 120; window_ms = 60000 }
    ∷ record { scope = user; limit = 60; window_ms = 60000 }
    ∷ record { scope = client_type; limit = 90; window_ms = 60000 }
    ∷ record { scope = capability; limit = 80; window_ms = 60000 }
    ∷ []

unfoldable pub resolve_subject : Scope → Principal → CapabilityId → String
resolve_subject tenant principal id = or_else principal.tenant_id "anonymous"
resolve_subject user principal id = principal.user_id
resolve_subject client_type principal id =
    String.◌++◌ (client_type_text principal.client_type) (String.◌++◌ ":" (id_text id))
resolve_subject capability principal id = id_text id

unfoldable pub bucket_key : Scope → Principal → CapabilityId → String
unfolding resolve_subject
bucket_key scope principal id =
    String.◌++◌ (scope_text scope) (String.◌++◌ ":" (resolve_subject scope principal id))

-- The decision on a rule, from the bucket that the store returns.
unfoldable pub decide_on :
    RateLimitBucketRule → String → RateLimitBucketConsumeResult → RateLimitDecision
decide_on rule key result = record {
  allowed = leb result.state.count rule.limit;
  scope = rule.scope;
  key = key;
  limit = rule.limit;
  remaining = rule.limit - result.state.count;
  reset_at = result.reset_at;
}

-- What `assertAllowed` does: it returns the decisions, throws the rejected one, or passes on the
-- store's failure.
pub data Verdict : Type 0 where
  allowed : List RateLimitDecision → Verdict
  rejected : RateLimitDecision → Verdict
  store_failed : Verdict

pub record CapabilityRateLimitSnapshot : Type 0 where
  pub generated_at : ℕ
  pub active_buckets : List (String × ℕ × ℕ)
  pub rules : List RateLimitBucketRule

abbrev active_bucket : String × RateLimitBucketState → String × ℕ × ℕ
active_bucket (key, state) = (key, state.count, state.window_started_at)

module _ (store : CapabilityRateLimitStore) where
  open store use {State}

  unfoldable pub consume_rule :
      RateLimitBucketRule → Principal → CapabilityId → ℕ → State → Option RateLimitDecision × State
  unfolding bucket_key decide_on
  consume_rule rule principal id now s =
      let key = bucket_key rule.scope principal id in
      let (result, s') = store.consume key rule.limit rule.window_ms now s in
      elim result [ none ↦ (none, s') | some r ↦ (some (decide_on rule key r), s') ]

  -- The loop of `assertAllowed`.
  unfoldable pub assert_rules :
      List RateLimitBucketRule
      → List RateLimitDecision
      → Principal
      → CapabilityId
      → ℕ
      → State
      → Verdict × State
  unfolding consume_rule
  assert_rules [] decisions principal id now s = (allowed decisions, s)
  assert_rules (rule ∷ rules) decisions principal id now s =
      let (result, s') = consume_rule rule principal id now s in
      elim result [
        | none ↦ (store_failed, s')
        | some decision ↦
            let rest = assert_rules rules (decisions ++ decision ∷ []) principal id now s' in
            if decision.allowed then rest else (rejected decision, s')
      ]

  unfoldable pub assert_allowed : Principal → CapabilityId → ℕ → State → Verdict × State
  unfolding assert_rules
  assert_allowed principal id now s = assert_rules capability_rate_limit_rules [] principal id now s

  -- The clock is read twice: by the store when it lists its entries, and for `generatedAt`.
  unfoldable pub snapshot : ℕ → ℕ → State → CapabilityRateLimitSnapshot × State
  snapshot now generated s =
      let (found, s') = store.entries now s in
      (
        record {
          generated_at = generated;
          active_buckets = map active_bucket found;
          rules = capability_rate_limit_rules;
        },
        s',
      )
