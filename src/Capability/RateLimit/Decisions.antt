-- ===== src/Capability/RateLimit/Decisions.antt =====
-- What the rate limiter is to decide and to charge, from the windows open before a call.
-- `after` is the in-memory store when one rule is consumed.
use openviking_admin.Prelude.{
  ℕ, suc, ◌+◌, ◌-◌, ◌<◌, String, Option, none, some, false, leb, if◌then◌else◌, List, [], ◌∷◌, map,
  get, HasUniqueKeys, str_eq, ◌≡◌, refl, arith,
}
use openviking_admin.Capability.Types.{CapabilityId, Principal}
use openviking_admin.Capability.RateLimit.Store.{RateLimitBucketState, Buckets, consume}
use openviking_admin.Capability.RateLimit.Service.{
  RateLimitBucketRule, RateLimitDecision, bucket_key,
}
use openviking_admin.Capability.RateLimit.Refinement.{while_open, live, tick, get-consume}

-- How many calls an open window counts.
abbrev pub count_of : Option RateLimitBucketState → ℕ
count_of none = 0
count_of (some s) = s.count

while_open_again :
    (now : ℕ) (o : Option RateLimitBucketState)
    → while_open now (while_open now o) ≡ while_open now o
while_open_again now none = refl
while_open_again now (some s) = ground arith

while_open-tick :
    (now w : ℕ) (o : Option RateLimitBucketState)
    → 0 < w
    → while_open now (some (tick w now (while_open now o))) ≡ some (tick w now (while_open now o))
while_open-tick now w none h = ground arith
while_open-tick now w (some s) h = ground arith

-- One call of the store, seen through the open windows.
pub live-consume :
    (key j : String) (limit w now : ℕ) (buckets : Buckets)
    → HasUniqueKeys buckets
    → 0 < w
    → live now j (consume key limit w now buckets).1
      ≡ (if str_eq key j then some (tick w now (live now key buckets)) else live now j buckets)
live-consume key j limit w now buckets u h = ground (
  arith,
  get-consume key limit w now buckets u j,
  while_open-tick now w (get key buckets) h,
  while_open_again now (get j buckets),
)

module _ (principal : Principal) (id : CapabilityId) (now : ℕ) where
  abbrev pub key_of : RateLimitBucketRule → String
  key_of rule = bucket_key rule.scope principal id

  -- The decision on a rule, from the window that is open for it before the call.
  abbrev pub decision_of :
      (String → Option RateLimitBucketState) → RateLimitBucketRule → RateLimitDecision
  decision_of view rule = record {
    allowed = leb (suc (count_of (view (key_of rule)))) rule.limit;
    scope = rule.scope;
    key = key_of rule;
    limit = rule.limit;
    remaining = rule.limit - suc (count_of (view (key_of rule)));
    reset_at =
        (tick rule.window_ms now (view (key_of rule))).window_started_at
        + (tick rule.window_ms now (view (key_of rule))).window_ms;
  }

  -- The decision on the first rule whose window is full.
  abbrev pub first_rejected :
      (String → Option RateLimitBucketState) → List RateLimitBucketRule → Option RateLimitDecision
  first_rejected view [] = none
  first_rejected view (rule ∷ rules) =
      let rest = first_rejected view rules in
      if leb rule.limit (count_of (view (key_of rule))) then some (decision_of view rule) else rest

  -- No two rules use one bucket.
  abbrev pub IsApart : RateLimitBucketRule → List RateLimitBucketRule → Type 0
  IsApart rule [] = Unit
  IsApart rule (r ∷ rules) = (str_eq (key_of rule) (key_of r) ≡ false) × IsApart rule rules

  abbrev pub AreDistinct : List RateLimitBucketRule → Type 0
  AreDistinct [] = Unit
  AreDistinct (rule ∷ rules) = (0 < rule.window_ms) × IsApart rule rules × AreDistinct rules

  -- The rules that a call consumes: those up to the first full one, which is consumed too.
  abbrev pub charged :
      (String → Option RateLimitBucketState) → List RateLimitBucketRule → List RateLimitBucketRule
  charged view [] = []
  charged view (rule ∷ rules) =
      let rest = charged view rules in
      rule ∷ (if leb rule.limit (count_of (view (key_of rule))) then [] else rest)

  abbrev pub uses : String → List RateLimitBucketRule → ℕ
  uses key [] = 0
  uses key (rule ∷ rules) =
      let rest = uses key rules in if str_eq (key_of rule) key then suc rest else rest

  abbrev pub after : RateLimitBucketRule → Buckets → Buckets
  after rule buckets = (consume (key_of rule) rule.limit rule.window_ms now buckets).1

  -- The buckets of the later rules look the same after the first one is consumed.
  module _ (rule : RateLimitBucketRule) (buckets : Buckets) (u : HasUniqueKeys buckets)
      (h : 0 < rule.window_ms) where
    pub live-after :
        (j : String)
        → str_eq (key_of rule) j ≡ false
        → live now j (after rule buckets) ≡ live now j buckets
    live-after j apart =
        ground
          (arith, live-consume (key_of rule) j rule.limit rule.window_ms now buckets u h, apart)

    pub first_rejected-after :
        (rules : List RateLimitBucketRule)
        → IsApart rule rules
        → first_rejected (λ j. live now j (after rule buckets)) rules
          ≡ first_rejected (λ j. live now j buckets) rules
    first_rejected-after [] a = refl
    first_rejected-after (r ∷ rules) (a, as_) =
        rw (live-after (key_of r) a, first_rejected-after rules as_)

    pub charged-after :
        (rules : List RateLimitBucketRule)
        → IsApart rule rules
        → charged (λ j. live now j (after rule buckets)) rules
          ≡ charged (λ j. live now j buckets) rules
    charged-after [] a = refl
    charged-after (r ∷ rules) (a, as_) = rw (live-after (key_of r) a, charged-after rules as_)

    pub decisions-after :
        (rules : List RateLimitBucketRule)
        → IsApart rule rules
        → map (decision_of (λ j. live now j (after rule buckets))) rules
          ≡ map (decision_of (λ j. live now j buckets)) rules
    decisions-after [] a = refl
    decisions-after (r ∷ rules) (a, as_) = rw (live-after (key_of r) a, decisions-after rules as_)
