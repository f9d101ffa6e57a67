-- ===== src/Capability/RateLimit/Store.antt =====
-- apps/server/src/capabilities/infrastructure/in-memory-capability-rate-limit.store.ts and the
-- types of capability-rate-limit.store.ts. Times are milliseconds since the epoch. The test
-- `now - windowStartedAt >= windowMs` stands as `windowStartedAt + windowMs ≤ now`, which is the
-- same on integers, also where the clock has gone back.
use openviking_admin.Prelude.{
  ℕ, ◌+◌, String, Option, none, some, List, Map, get, set, sweep, ltb, leb, if◌then◌else◌, Bool,
  true, not,
}

pub record RateLimitBucketState : Type 0 where
  pub count : ℕ
  pub window_started_at : ℕ
  pub window_ms : ℕ

pub record RateLimitBucketConsumeResult : Type 0 where
  pub state : RateLimitBucketState
  pub reset_at : ℕ

abbrev pub Buckets : Type 0
Buckets = Map RateLimitBucketState

-- The test of `cleanupExpired` that a bucket is not kept.
abbrev pub is_expired : ℕ → RateLimitBucketState → Bool
is_expired now state = not (ltb now (state.window_started_at + state.window_ms))

unfoldable pub cleanup_expired : ℕ → Buckets → Buckets × ℕ
unfolding sweep
cleanup_expired now buckets = sweep (is_expired now) buckets

-- `!current || now - current.windowStartedAt >= current.windowMs`
abbrev pub starts_window : ℕ → Option RateLimitBucketState → Bool
starts_window now none = true
starts_window now (some current) = leb (current.window_started_at + current.window_ms) now

-- The rest of `consume`, once the bucket is read.
unfoldable pub next_state : ℕ → ℕ → Option RateLimitBucketState → RateLimitBucketState
next_state window_ms now none = record { count = 1; window_started_at = now; window_ms = window_ms }
next_state window_ms now (some current) =
    if starts_window now (some current)
    then record { count = 1; window_started_at = now; window_ms = window_ms }
    else record current { count = current.count + 1 }

unfoldable pub consume : String → ℕ → ℕ → ℕ → Buckets → RateLimitBucketConsumeResult × Buckets
unfolding cleanup_expired next_state get set
consume key limit window_ms now buckets =
    let (cleaned, deleted) = cleanup_expired now buckets in
    let state = next_state window_ms now (get key cleaned) in
    (
      record { state = state; reset_at = state.window_started_at + state.window_ms },
      set key state cleaned,
    )

-- The clock is read when the entries are asked for.
unfoldable pub entries : ℕ → Buckets → List (String × RateLimitBucketState) × Buckets
unfolding cleanup_expired
entries now buckets = let (cleaned, deleted) = cleanup_expired now buckets in (cleaned, cleaned)
