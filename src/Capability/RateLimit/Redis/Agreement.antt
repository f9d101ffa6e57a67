-- ===== src/Capability/RateLimit/Redis/Agreement.antt =====
-- The store in Redis against the store in memory, where both read the same clock.
use mathlib.Core.Path.{subst}
use openviking_admin.Prelude.{
  ℕ, ◌+◌, ◌≤◌, ◌<◌, String, ◌≡◌, refl, sym, ap, ◌∙◌, inl, inr, true, false, Option, none, some,
  arith, eq_iff, str_eq, str_eq_refl, str_eq→≡, str_ne, if◌then◌else◌, Bool-cases, Option-cases,
  leb, ltb, get, set, HasUniqueKeys, fresh, get-set,
}
use Prim.Native.String
use text.Mathlib.TextLemmas.{append_assoc, nil-append, cons-append}
use openviking_admin.Capability.RateLimit.Store.{RateLimitBucketState, Buckets, consume, is_expired}
use openviking_admin.Capability.RateLimit.Refinement.{
  while_open, live, tick, state-consume, get-consume, consume-HasUniqueKeys,
}
use openviking_admin.Capability.RateLimit.Redis.{
  RedisBucket, Redis, build_bucket_key, after_start, parse_bucket_key, is_forgotten, state_of, hget,
  opens_window, next_hash, rate_limit_redis_script, redis_consume,
}

start-append : (start text : String) → after_start start (String.◌++◌ start text) ≡ some text
unfolding after_start
start-append String.[] text = ap (λ x. some x) (nil-append text)
start-append (String.◌∷◌ c start) text =
    rw (cons-append c start text) (ground (arith, start-append start text))

-- The key of a bucket is read back from its name in Redis.
pub parse_bucket_key-build_bucket_key :
    (bucket_prefix key : String)
    → parse_bucket_key bucket_prefix (build_bucket_key bucket_prefix key) ≡ key
unfolding parse_bucket_key build_bucket_key
parse_bucket_key-build_bucket_key bucket_prefix key =
    rw (sym (append_assoc bucket_prefix ":" key), start-append (String.◌++◌ bucket_prefix ":") key)
      refl

module _ (bucket_prefix : String) where
  same_name :
      (k j : String)
      → str_eq (build_bucket_key bucket_prefix k) (build_bucket_key bucket_prefix j) ≡ str_eq k j
  same_name k j = elim (Bool-cases (str_eq k j)) [
    | inl same ↦
        let e : k ≡ j = str_eq→≡ k j same in
        ap (λ x. str_eq (build_bucket_key bucket_prefix x) (build_bucket_key bucket_prefix j)) e
        ∙ str_eq_refl (build_bucket_key bucket_prefix j)
        ∙ sym same
    | inr other ↦
        str_ne (build_bucket_key bucket_prefix k) (build_bucket_key bucket_prefix j) (λ e.
          let found : k ≡ j =
            sym (parse_bucket_key-build_bucket_key bucket_prefix k)
            ∙ ap (parse_bucket_key bucket_prefix) e
            ∙ parse_bucket_key-build_bucket_key bucket_prefix j in
          ground (arith, other, found, eq_iff k j))
        ∙ sym other
  ]

-- What the script takes for a bucket that is there.
abbrev IsPositive : RateLimitBucketState → Type 0
IsPositive s = (0 < s.count) × (0 < s.window_started_at) × (0 < s.window_ms)

next_hash-tick :
    (w now : ℕ) (o : Option RateLimitBucketState)
    → ((s : RateLimitBucketState)
        → o ≡ some s
        → IsPositive s × (now < s.window_started_at + s.window_ms))
    → ((next_hash w now o).0 ≡ tick w now o)
      × (now + (next_hash w now o).1 ≡ (tick w now o).window_started_at + (tick w now o).window_ms)
unfolding next_hash
next_hash-tick w now none h = (refl, refl)
next_hash-tick w now (some s) h =
    let ((c, a, b), before) = h s refl in
    let goes_on : opens_window now (some s) ≡ false = ground (arith, c, a, b, before) in
    (rw goes_on refl, rw goes_on (omega (arith, before)))

while_open-some :
    (now : ℕ) (o : Option RateLimitBucketState) (s : RateLimitBucketState)
    → while_open now o ≡ some s
    → (o ≡ some s) × (now < s.window_started_at + s.window_ms)
while_open-some now none s e = absurd (cc)
while_open-some now (some r) s e = elim (Bool-cases (is_expired now r)) [
  | inl gone ↦ absurd (ground (arith, gone, e))
  | inr here_still ↦
      let same : r ≡ s = ground (arith, here_still, e) in
      (ap (λ x. some x) same, rw (sym same) (ground (arith, here_still)))
]

while_open_later :
    (now later : ℕ) (o : Option RateLimitBucketState)
    → now ≤ later
    → while_open later (while_open now o) ≡ while_open later o
while_open_later now later none le = refl
while_open_later now later (some s) le = ground (arith, le)

-- The two stores, from a time on: each bucket whose window is open is the same in both.
module _ (bucket_prefix : String) where
  pub record Agrees (time : ℕ) (buckets : Buckets) (redis : Redis) : Type 0 where
    pub unique : HasUniqueKeys buckets
    pub same :
        (later : ℕ) (key : String)
        → time ≤ later
        → hget later (build_bucket_key bucket_prefix key) redis ≡ live later key buckets
    pub positive :
        (key : String) (s : RateLimitBucketState) → get key buckets ≡ some s → IsPositive s

  module _ (key : String) (limit w now time : ℕ) (buckets : Buckets) (redis : Redis) where
    abbrev ticked : RateLimitBucketState
    ticked = tick w now (live now key buckets)

    script_ticks :
        Agrees time buckets redis
        → time ≤ now
        → let next = next_hash w now (hget now (build_bucket_key bucket_prefix key) redis) in
          (next.0 ≡ ticked) × (now + next.1 ≡ ticked.window_started_at + ticked.window_ms)
    script_ticks h le = rw (h.same now key le) (
        next_hash-tick w now (live now key buckets) (λ s e.
          let (found, before) = while_open-some now (get key buckets) s e in
          (h.positive key s found, before)))

    ticked-IsPositive : Agrees time buckets redis → 0 < now → 0 < w → IsPositive ticked
    ticked-IsPositive h after_epoch wide = elim (Option-cases (live now key buckets)) [
      | inl e ↦ rw e (omega arith, after_epoch, wide)
      | inr (s, e) ↦
          let (c, a, b) = h.positive key s (while_open-some now (get key buckets) s e).0 in
          rw e (omega arith, a, b)
    ]

    pub redis_result :
        Agrees time buckets redis
        → time ≤ now
        → (redis_consume bucket_prefix now key limit w now redis).0
          ≡ (consume key limit w now buckets).0
    unfolding redis_consume rate_limit_redis_script consume
    redis_result h le =
        let (is, _) = script_ticks h le in
        ap
          (λ (s : RateLimitBucketState). record {
            state = s;
            reset_at = s.window_started_at + s.window_ms;
          })
          (is ∙ sym (state-consume key limit w now buckets h.unique))

    hget_after :
        (later : ℕ) (j : String)
        → hget later
            (build_bucket_key bucket_prefix j)
            (redis_consume bucket_prefix now key limit w now redis).1
          ≡ (let next = next_hash w now (hget now (build_bucket_key bucket_prefix key) redis) in
              if str_eq key j
              then state_of (
                  fresh
                    (is_forgotten later)
                    (some (record { state = next.0; expires_at = now + next.1 })))
              else hget later (build_bucket_key bucket_prefix j) redis)
    unfolding redis_consume rate_limit_redis_script hget
    hget_after later j =
        let k = build_bucket_key bucket_prefix key in
        let next = next_hash w now (hget now k redis) in
        let bucket : RedisBucket = record { state = next.0; expires_at = now + next.1 } in
        let name = build_bucket_key bucket_prefix j in
        let stored = get-set k name bucket redis.hashes in
        elim (Bool-cases (str_eq key j)) [
          | inl here_too ↦
              let found : get name (set k bucket redis.hashes) ≡ some bucket =
                ground (arith, here_too, same_name bucket_prefix key j, stored) in
              ap (λ x. state_of (fresh (is_forgotten later) x)) found ∙ rw here_too refl
          | inr other ↦
              let found : get name (set k bucket redis.hashes) ≡ get name redis.hashes =
                ground (arith, other, same_name bucket_prefix key j, stored) in
              ap (λ x. state_of (fresh (is_forgotten later) x)) found ∙ rw other refl
        ]

    kept_as_long :
        (later : ℕ) (s : RateLimitBucketState) (until : ℕ)
        → s ≡ ticked
        → until ≡ ticked.window_started_at + ticked.window_ms
        → state_of (fresh (is_forgotten later) (some (record { state = s; expires_at = until })))
          ≡ while_open later (some ticked)
    kept_as_long later s until e u =
        elim (Bool-cases (ltb later (ticked.window_started_at + ticked.window_ms))) [
          | inr gone ↦
              let forgotten_too : leb until later ≡ true = ground (arith, gone, u) in
              rw (gone, forgotten_too) refl
          | inl here_still ↦
              let held : leb until later ≡ false = ground (arith, here_still, u) in
              rw (here_still, held) (ap (λ x. some x) e)
        ]

    pub consume-Agrees :
        Agrees time buckets redis
        → time ≤ now
        → 0 < now
        → 0 < w
        → Agrees now
            (consume key limit w now buckets).1
            (redis_consume bucket_prefix now key limit w now redis).1
    consume-Agrees h le after_epoch wide = record {
      unique = consume-HasUniqueKeys key limit w now buckets h.unique;
      same = λ later j after.
          let stored = get-consume key limit w now buckets h.unique j in
          let (is, until) = script_ticks h le in
          elim (Bool-cases (str_eq key j)) [
            | inl here_too ↦
                let found : get j (consume key limit w now buckets).1 ≡ some ticked =
                  ground (arith, here_too, stored) in
                hget_after later j
                ∙ rw here_too (kept_as_long later _ _ is until)
                ∙ ap (λ x. while_open later x) (sym found)
            | inr other ↦
                let found : get j (consume key limit w now buckets).1 ≡ live now j buckets =
                  ground (arith, other, stored) in
                hget_after later j
                ∙ rw other (h.same later j (omega (arith, le, after)))
                ∙ sym (while_open_later now later (get j buckets) after)
                ∙ ap (λ x. while_open later x) (sym found)
          ];
      positive = λ j s e.
          let stored = get-consume key limit w now buckets h.unique j in
          elim (Bool-cases (str_eq key j)) [
            | inl here_too ↦
                let is : ticked ≡ s = ground (arith, here_too, stored, e) in
                subst IsPositive is (ticked-IsPositive h after_epoch wide)
            | inr other ↦
                let found : live now j buckets ≡ some s = ground (arith, other, stored, e) in
                h.positive j s (while_open-some now (get j buckets) s found).0
          ];
    }
