-- ===== src/Capability/RateLimit/Verdicts.antt =====
-- `assertAllowed` over the in-memory store: its decisions, and the buckets that it leaves.
use openviking_admin.Prelude.{
  ◌≢◌, sym, ◌∙◌, eq_iff, ◌+◌, ◌<◌, str_eq, ℕ, suc, String, Option, none, some, Bool, true, false,
  leb, if◌then◌else◌, List, [], ◌∷◌, ◌++◌, map, HasUniqueKeys, ◌≡◌, refl, arith, ap,
}
use mathlib.Core.List.{append-nil, append_assoc}
use openviking_admin.Capability.RateLimit.Keys.{bucket_key-scope}
use openviking_admin.Capability.Types.{CapabilityId, Principal}
use openviking_admin.Capability.RateLimit.Store.{RateLimitBucketState, Buckets, consume}
use openviking_admin.Capability.RateLimit.Service.{
  bucket_key, Scope, capability, client_type, user, tenant, capability_rate_limit_rules,
  assert_allowed, RateLimitBucketRule, RateLimitDecision, in_memory, decide_on, Verdict, allowed,
  rejected, consume_rule, assert_rules,
}
use openviking_admin.Capability.RateLimit.Refinement.{
  live, tick, state-consume, reset_at-consume, consume-HasUniqueKeys,
}
use openviking_admin.Capability.RateLimit.Decisions.{
  charged-after, uses, live-consume, charged, count_of, key_of, decision_of, first_rejected,
  AreDistinct, after, first_rejected-after, decisions-after,
}

abbrev pub verdict_of : List RateLimitDecision → Option RateLimitDecision → Verdict
verdict_of decisions none = allowed decisions
verdict_of decisions (some d) = rejected d

count-tick : (w now : ℕ) (o : Option RateLimitBucketState) → (tick w now o).count ≡ suc (count_of o)
count-tick w now none = refl
count-tick w now (some s) = omega arith

module _ (principal : Principal) (id : CapabilityId) (now : ℕ) where
  abbrev view : Buckets → String → Option RateLimitBucketState
  view buckets j = live now j buckets

  abbrev room : RateLimitBucketRule → Buckets → Bool
  room rule buckets = leb (suc (count_of (view buckets (key_of principal id now rule)))) rule.limit

  module _ (rule : RateLimitBucketRule) (buckets : Buckets) (u : HasUniqueKeys buckets) where
    decide_on-consume :
        decide_on rule
          (key_of principal id now rule)
          (consume (key_of principal id now rule) rule.limit rule.window_ms now buckets).0
        ≡ decision_of principal id now (view buckets) rule
    unfolding decide_on
    decide_on-consume =
        rw
          (
            reset_at-consume (key_of principal id now rule) rule.limit rule.window_ms now buckets u,
            state-consume (key_of principal id now rule) rule.limit rule.window_ms now buckets u,
            count-tick,
          )
          refl

    assert_rules-cons :
        (rules : List RateLimitBucketRule) (decisions : List RateLimitDecision)
        → assert_rules in_memory (rule ∷ rules) decisions principal id now buckets ≡ (
            if room rule buckets
            then assert_rules in_memory rules
                (decisions ++ decision_of principal id now (view buckets) rule ∷ [])
                principal
                id
                now
                (after principal id now rule buckets)
            else (
              rejected (decision_of principal id now (view buckets) rule),
              after principal id now rule buckets,
            ))
    unfolding assert_rules consume_rule
    assert_rules-cons rules decisions =
        ap
          (λ (d : RateLimitDecision).
            if d.allowed
            then assert_rules in_memory rules (decisions ++ d ∷ []) principal id now
                (after principal id now rule buckets)
            else (rejected d, after principal id now rule buckets))
          decide_on-consume

    charged-cons :
        (rules : List RateLimitBucketRule)
        → charged principal id now (view buckets) (rule ∷ rules)
          ≡ rule ∷ (if room rule buckets then charged principal id now (view buckets) rules else [])
    charged-cons rules = ground arith

    count-after :
        (j : String)
        → 0 < rule.window_ms
        → count_of (view (after principal id now rule buckets) j) ≡ (
            if str_eq (key_of principal id now rule) j
            then suc (count_of (view buckets j))
            else count_of (view buckets j))
    count-after j opens =
        rw
          (live-consume (key_of principal id now rule) j rule.limit rule.window_ms now buckets u
            opens)
          (ground (
            arith,
            eq_iff (key_of principal id now rule) j,
            count-tick rule.window_ms now (view buckets (key_of principal id now rule)),
          ))

    first_rejected-cons :
        (rules : List RateLimitBucketRule)
        → first_rejected principal id now (view buckets) (rule ∷ rules) ≡ (
            if room rule buckets
            then first_rejected principal id now (view buckets) rules
            else some (decision_of principal id now (view buckets) rule))
    first_rejected-cons rules = ground arith

  assert_rules-nil :
      (decisions : List RateLimitDecision) (buckets : Buckets)
      → assert_rules in_memory [] decisions principal id now buckets ≡ (allowed decisions, buckets)
  unfolding assert_rules
  assert_rules-nil decisions buckets = refl

  -- Either the first rule rejects, or the verdict is that of the others.
  verdict-step :
      (b : Bool) (d : RateLimitDecision) (ds later : List RateLimitDecision)
      (o : Option RateLimitDecision) (x : Verdict × Buckets) (s : Buckets)
      → x.0 ≡ verdict_of ((ds ++ d ∷ []) ++ later) o
      → (if b then x else (rejected d, s)).0
        ≡ verdict_of (ds ++ d ∷ later) (if b then o else some d)
  verdict-step true d ds later o x s h = rw append_assoc at h
  verdict-step false d ds later o x s h = refl

  assert_rules-verdict :
      (rules : List RateLimitBucketRule) (decisions : List RateLimitDecision) (buckets : Buckets)
      → HasUniqueKeys buckets
      → AreDistinct principal id now rules
      → (assert_rules in_memory rules decisions principal id now buckets).0
        ≡ verdict_of
            (decisions ++ map (decision_of principal id now (view buckets)) rules)
            (first_rejected principal id now (view buckets) rules)
  assert_rules-verdict [] decisions buckets u d =
      rw (assert_rules-nil decisions buckets, append-nil) refl
  assert_rules-verdict (rule ∷ rules) decisions buckets u (opens, apart, distinct) =
      let d = decision_of principal id now (view buckets) rule in
      let ih =
        assert_rules-verdict rules (decisions ++ d ∷ []) (after principal id now rule buckets)
          (consume-HasUniqueKeys _ rule.limit rule.window_ms now buckets u) distinct in
      rw
        (assert_rules-cons rule buckets u rules decisions, first_rejected-cons rule buckets u rules)
        (verdict-step (room rule buckets) d decisions
          (map (decision_of principal id now (view buckets)) rules)
          (first_rejected principal id now (view buckets) rules)
          (assert_rules in_memory rules (decisions ++ d ∷ []) principal id now
            (after principal id now rule buckets))
          (after principal id now rule buckets)
          (rw
            (
              first_rejected-after principal id now rule buckets u opens rules apart,
              decisions-after principal id now rule buckets u opens rules apart,
            )
            at ih))

  charge-step :
      (b : Bool) (before : ℕ) (j : String) (x y : Buckets) (rule : RateLimitBucketRule)
      (rules : List RateLimitBucketRule)
      → count_of (view y j)
        ≡ (if str_eq (key_of principal id now rule) j then suc before else before)
      → count_of (view x j) ≡ count_of (view y j) + uses principal id now j rules
      → count_of (view (if b then x else y) j)
        ≡ before + uses principal id now j (rule ∷ (if b then rules else []))
  charge-step true before j x y rule rules hy hx = ground arith
  charge-step false before j x y rule rules hy hx = ground arith

  if-snd :
      (b : Bool) (x : Verdict × Buckets) (v : Verdict) (s : Buckets)
      → (if b then x else (v, s)).1 ≡ (if b then x.1 else s)
  if-snd true x v s = refl
  if-snd false x v s = refl

  assert_rules-charges :
      (rules : List RateLimitBucketRule) (decisions : List RateLimitDecision) (buckets : Buckets)
      (j : String)
      → HasUniqueKeys buckets
      → AreDistinct principal id now rules
      → count_of (view (assert_rules in_memory rules decisions principal id now buckets).1 j)
        ≡ count_of (view buckets j)
          + uses principal id now j (charged principal id now (view buckets) rules)
  assert_rules-charges [] decisions buckets j u d =
      ap (λ (x : Verdict × Buckets). count_of (view x.1 j)) (assert_rules-nil decisions buckets)
      ∙ omega arith
  assert_rules-charges (rule ∷ rules) decisions buckets j u (opens, apart, distinct) =
      let d = decision_of principal id now (view buckets) rule in
      let rest =
        assert_rules in_memory rules (decisions ++ d ∷ []) principal id now
          (after principal id now rule buckets) in
      let ih =
        assert_rules-charges rules (decisions ++ d ∷ []) (after principal id now rule buckets) j
          (consume-HasUniqueKeys _ rule.limit rule.window_ms now buckets u) distinct in
      ap (λ (x : Verdict × Buckets). count_of (view x.1 j))
        (assert_rules-cons rule buckets u rules decisions)
      ∙ ap (λ (x : Buckets). count_of (view x j)) (if-snd (room rule buckets) rest _ _)
      ∙ charge-step (room rule buckets) (count_of (view buckets j)) j rest.1
          (after principal id now rule buckets) rule (charged principal id now (view buckets) rules)
          (count-after rule buckets u j opens)
          (rw (charged-after principal id now rule buckets u opens rules apart) at ih)
      ∙ ap (λ (x : List RateLimitBucketRule). count_of (view buckets j) + uses principal id now j x)
          (sym (charged-cons rule buckets u rules))

  apart_of :
      (a b : Scope) → a ≢ b → str_eq (bucket_key a principal id) (bucket_key b principal id) ≡ false
  apart_of a b = bucket_key-scope a b principal principal id id

  rules-AreDistinct : AreDistinct principal id now capability_rate_limit_rules
  rules-AreDistinct = (
    omega arith,
    (
      apart_of tenant user (λ e. cc),
      (apart_of tenant client_type (λ e. cc), (apart_of tenant capability (λ e. cc), tt)),
    ),
    (
      omega arith,
      (apart_of user client_type (λ e. cc), (apart_of user capability (λ e. cc), tt)),
      (omega arith, (apart_of client_type capability (λ e. cc), tt), (omega arith, tt, tt)),
    ),
  )

  module _ (buckets : Buckets) (u : HasUniqueKeys buckets) where
    -- `assertAllowed` throws the decision on the first rule, in the order of the list, whose open
    -- window is full, and returns the decisions on all four if there is none. Each decision is
    -- made from the windows that are open before the call.
    pub assert_allowed-verdict :
        (assert_allowed in_memory principal id now buckets).0
        ≡ verdict_of
            (map (decision_of principal id now (view buckets)) capability_rate_limit_rules)
            (first_rejected principal id now (view buckets) capability_rate_limit_rules)
    unfolding assert_allowed
    assert_allowed-verdict =
        assert_rules-verdict capability_rate_limit_rules [] buckets u rules-AreDistinct
