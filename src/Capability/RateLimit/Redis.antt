-- ===== src/Capability/RateLimit/Redis.antt =====
-- apps/server/src/capabilities/infrastructure/redis-capability-rate-limit.store.ts: the script of
-- `consume`, as it runs in the server, over hashes that the server forgets at a time of its own
-- clock, and the set of their names.
pub mod Agreement
pub mod Runs
mod Examples
use mathlib.Core.Path.{subst}
use openviking_admin.Prelude.{
  ℕ, zero, suc, ◌+◌, ◌-◌, ◌*◌, ◌≤◌, ◌<◌, String, ◌≡◌, refl, sym, ap, ◌∙◌, ◌≢◌, ◌↔◌, ◌⊎◌, inl, inr,
  Bool, true, false, not, ◌&&◌, ◌||◌, Option, none, some, List, [], ◌∷◌, ◌++◌, map, arith, eq_iff,
  str_eq, str_eq_refl, str_eq→≡, str_ne, if◌then◌else◌, Bool-cases, if_holds, Option-cases, truthy,
  or_else, Result, ok, err, ◌>>=◌, ◌>>◌, is_ok, Result-cases, In, In-if, In-filter, In-append,
  In-append_left, In-append_right, length, length-append, ltb, leb, ◌==◌, get, set, delete, Map,
  sweep, HasUniqueKeys, fresh, modify, mapped, get-modify, modify-HasUniqueKeys, get-set,
  get-delete, get-sweep, set-HasUniqueKeys, delete-HasUniqueKeys, sweep-HasUniqueKeys, take,
  In-take, length-take, insert_by, sort_by, In-sort_by, take-sort_by,
}
use Prim.Native.String
use Prim.Native.Char.{Char, code}
use openviking_admin.Capability.RateLimit.Store.{
  RateLimitBucketState, RateLimitBucketConsumeResult, Buckets, consume, is_expired, next_state,
  starts_window,
}

pub record RedisBucket : Type 0 where
  pub state : RateLimitBucketState
  pub expires_at : ℕ

pub record Redis : Type 0 where
  pub hashes : Map RedisBucket
  pub registry : List String

unfoldable pub build_bucket_key : String → String → String
build_bucket_key bucket_prefix key = String.◌++◌ bucket_prefix (String.◌++◌ ":" key)

-- What follows a text at the start of another, if it stands there.
unfoldable pub after_start : String → String → Option String
after_start String.[] text = some text
after_start (String.◌∷◌ c start) String.[] = none
after_start (String.◌∷◌ c start) (String.◌∷◌ d text) =
    let rest = after_start start text in if code c == code d then rest else none

unfoldable pub parse_bucket_key : String → String → String
unfolding after_start
parse_bucket_key bucket_prefix bucket_key =
    or_else (after_start (String.◌++◌ bucket_prefix ":") bucket_key) bucket_key

abbrev pub is_forgotten : ℕ → RedisBucket → Bool
is_forgotten time bucket = leb bucket.expires_at time

abbrev pub state_of : Option RedisBucket → Option RateLimitBucketState
state_of none = none
state_of (some bucket) = some bucket.state

-- `HGET` of the three fields, at a time of the server.
unfoldable pub hget : ℕ → String → Redis → Option RateLimitBucketState
unfolding get
hget time bucket_key redis = state_of (fresh (is_forgotten time) (get bucket_key redis.hashes))

-- `count == 0 or windowStartedAt == 0 or storedWindowMs == 0 or ...`
abbrev pub opens_window : ℕ → Option RateLimitBucketState → Bool
opens_window now none = true
opens_window now (some s) =
    s.count == 0
    || s.window_started_at == 0
    || s.window_ms == 0
    || leb (s.window_started_at + s.window_ms) now

-- The hash after the script, and the time for which the server keeps it. In a window that goes on
-- it is at least 1, as the script asks for.
unfoldable pub next_hash : ℕ → ℕ → Option RateLimitBucketState → RateLimitBucketState × ℕ
next_hash window_ms now none =
    (record { count = 1; window_started_at = now; window_ms = window_ms }, window_ms)
next_hash window_ms now (some s) =
    if opens_window now (some s)
    then (record { count = 1; window_started_at = now; window_ms = window_ms }, window_ms)
    else (record s { count = s.count + 1 }, s.window_started_at + s.window_ms - now)

unfoldable pub add_member : String → List String → List String
add_member name [] = name ∷ []
add_member name (other ∷ names) =
    if str_eq other name then other ∷ names else other ∷ add_member name names

unfoldable pub rate_limit_redis_script : ℕ → String → ℕ → ℕ → Redis → RateLimitBucketState × Redis
unfolding hget next_hash set add_member
rate_limit_redis_script time bucket_key window_ms now redis =
    let (state, kept_for) = next_hash window_ms now (hget time bucket_key redis) in
    (
      state,
      record {
        hashes =
            set bucket_key (record { state = state; expires_at = time + kept_for }) redis.hashes;
        registry = add_member bucket_key redis.registry;
      },
    )

unfoldable pub redis_consume :
    String → ℕ → String → ℕ → ℕ → ℕ → Redis → RateLimitBucketConsumeResult × Redis
unfolding rate_limit_redis_script build_bucket_key
redis_consume bucket_prefix time key limit window_ms now redis =
    let (state, after) =
      rate_limit_redis_script time (build_bucket_key bucket_prefix key) window_ms now redis in
    (record { state = state; reset_at = state.window_started_at + state.window_ms }, after)

-- `entries`: what is kept of the buckets that are named in the set, and the set without the others.
unfoldable pub redis_entries_of :
    String → ℕ → List String → Redis → List (String × RateLimitBucketState) × List String
unfolding hget parse_bucket_key
redis_entries_of bucket_prefix time [] redis = ([], [])
redis_entries_of bucket_prefix time (name ∷ names) redis =
    let (results, fresh_names) = redis_entries_of bucket_prefix time names redis in
    elim (hget time name redis) [
      | none ↦ (results, fresh_names)
      | some state ↦ ((parse_bucket_key bucket_prefix name, state) ∷ results, name ∷ fresh_names)
    ]

unfoldable pub redis_entries : String → ℕ → Redis → List (String × RateLimitBucketState) × Redis
unfolding redis_entries_of
redis_entries bucket_prefix time redis =
    let (results, fresh_names) = redis_entries_of bucket_prefix time redis.registry redis in
    (results, record redis { registry = fresh_names })
