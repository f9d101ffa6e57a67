-- ===== src/Capability/RateLimit/Redis/Examples.antt =====
-- Tests of the store in Redis, and the theorems at concrete calls.
use openviking_admin.Prelude.{ℕ, ◌+◌, ◌≡◌, refl, List, [], ◌∷◌, arith, get, set}
use openviking_admin.Capability.RateLimit.Store.{RateLimitBucketConsumeResult}
use openviking_admin.Capability.RateLimit.Redis.{
  Redis, build_bucket_key, after_start, parse_bucket_key, hget, next_hash, add_member,
  rate_limit_redis_script, redis_consume, redis_entries_of, redis_entries,
}
use openviking_admin.Capability.RateLimit.Redis.Agreement.{parse_bucket_key-build_bucket_key}
use openviking_admin.Capability.RateLimit.Redis.Runs.{
  Call, memory_run, redis_run, IsInOrder, empty_redis, redis_run-memory_run,
}

-- Two calls in a window, one to another key, and one after the window.
abbrev calls : List Call
calls =
    record { key = "a"; limit = 2; window_ms = 10; now = 5 }
    ∷ record { key = "a"; limit = 2; window_ms = 10; now = 14 }
    ∷ record { key = "b"; limit = 2; window_ms = 10; now = 14 }
    ∷ record { key = "a"; limit = 2; window_ms = 10; now = 15 }
    ∷ []

abbrev answer : ℕ → ℕ → RateLimitBucketConsumeResult
answer count start = record {
  state = record { count = count; window_started_at = start; window_ms = 10 };
  reset_at = start + 10;
}

answers :
    redis_run "ova:bucket" calls empty_redis
    ≡ answer 1 5 ∷ answer 2 5 ∷ answer 1 14 ∷ answer 1 15 ∷ []
unfolding redis_run redis_consume rate_limit_redis_script build_bucket_key hget next_hash get set
    add_member
answers = refl

calls-IsInOrder : IsInOrder 0 calls
calls-IsInOrder = (
  omega arith,
  omega arith,
  omega arith,
  (
    omega arith,
    omega arith,
    omega arith,
    (omega arith, omega arith, omega arith, (omega arith, omega arith, omega arith, tt)),
  ),
)

redis_run-memory_run_example : redis_run "ova:bucket" calls empty_redis ≡ memory_run calls []
redis_run-memory_run_example = redis_run-memory_run "ova:bucket" calls calls-IsInOrder

parse_bucket_key-build_bucket_key_example :
    parse_bucket_key "ova:bucket" (build_bucket_key "ova:bucket" "tenant:t") ≡ "tenant:t"
parse_bucket_key-build_bucket_key_example =
    parse_bucket_key-build_bucket_key "ova:bucket" "tenant:t"

-- At 15 the bucket of the first key is new, and the other one is still there; at 24 it is gone.
abbrev filled : Redis
filled =
    (redis_consume "ova:bucket" 15 "a" 2 10 15
      (redis_consume "ova:bucket" 14 "b" 2 10 14 empty_redis).1).1

listing : (redis_entries "ova:bucket" 24 filled).0 ≡ ("a", (answer 1 15).state) ∷ []
unfolding redis_entries redis_entries_of parse_bucket_key after_start redis_consume
    rate_limit_redis_script build_bucket_key hget next_hash get set add_member
listing = refl
