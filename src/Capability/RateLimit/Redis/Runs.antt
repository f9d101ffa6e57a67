-- ===== src/Capability/RateLimit/Redis/Runs.antt =====
-- Calls of the two stores one after another.
use openviking_admin.Prelude.{ℕ, ◌≤◌, ◌<◌, String, ◌≡◌, refl, List, [], ◌∷◌, get}
use openviking_admin.Capability.RateLimit.Store.{RateLimitBucketConsumeResult, Buckets, consume}
use openviking_admin.Capability.RateLimit.Redis.{Redis, hget, redis_consume}
use openviking_admin.Capability.RateLimit.Redis.Agreement.{Agrees, redis_result, consume-Agrees}

pub record Call : Type 0 where
  pub key : String
  pub limit : ℕ
  pub window_ms : ℕ
  pub now : ℕ

unfoldable pub memory_run : List Call → Buckets → List RateLimitBucketConsumeResult
unfolding consume
memory_run [] buckets = []
memory_run (c ∷ calls) buckets =
    let (result, after) = consume c.key c.limit c.window_ms c.now buckets in
    result ∷ memory_run calls after

-- The server's clock is the caller's.
unfoldable pub redis_run : String → List Call → Redis → List RateLimitBucketConsumeResult
unfolding redis_consume
redis_run bucket_prefix [] redis = []
redis_run bucket_prefix (c ∷ calls) redis =
    let (result, after) = redis_consume bucket_prefix c.now c.key c.limit c.window_ms c.now redis in
    result ∷ redis_run bucket_prefix calls after

-- The clock does not go back, and has left zero; windows have a length.
abbrev pub IsInOrder : ℕ → List Call → Type 0
IsInOrder time [] = Unit
IsInOrder time (c ∷ calls) =
    (time ≤ c.now) × (0 < c.now) × (0 < c.window_ms) × IsInOrder c.now calls

abbrev pub empty_redis : Redis
empty_redis = record { hashes = []; registry = [] }

empty-Agrees : (bucket_prefix : String) → Agrees bucket_prefix 0 [] empty_redis
unfolding hget get
empty-Agrees bucket_prefix = record {
  unique = tt;
  same = λ later key le. refl;
  positive = λ key s e. absurd (cc);
}

runs_agree :
    (bucket_prefix : String) (time : ℕ) (calls : List Call) (buckets : Buckets) (redis : Redis)
    → Agrees bucket_prefix time buckets redis
    → IsInOrder time calls
    → redis_run bucket_prefix calls redis ≡ memory_run calls buckets
unfolding redis_run memory_run
runs_agree bucket_prefix time [] buckets redis h ordered = refl
runs_agree bucket_prefix time (c ∷ calls) buckets redis h (le, after_epoch, wide, ordered) =
    let first =
      redis_result bucket_prefix c.key c.limit c.window_ms c.now time buckets redis h le in
    let next =
      consume-Agrees bucket_prefix c.key c.limit c.window_ms c.now time buckets redis h le
        after_epoch wide in
    let rest = runs_agree bucket_prefix c.now calls _ _ next ordered in cc (first, rest)

-- Calls that come in the order of their times get the same answers from the store in Redis, by the
-- same clock, as from the one in memory.
pub redis_run-memory_run :
    (bucket_prefix : String) (calls : List Call)
    → IsInOrder 0 calls
    → redis_run bucket_prefix calls empty_redis ≡ memory_run calls []
redis_run-memory_run bucket_prefix calls ordered =
    runs_agree bucket_prefix 0 calls [] empty_redis (empty-Agrees bucket_prefix) ordered
