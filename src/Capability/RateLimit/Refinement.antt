-- ===== src/Capability/RateLimit/Refinement.antt =====
-- The in-memory bucket store against a table of live buckets, in which nothing is ever swept.
use openviking_admin.Prelude.{
  ltb, ℕ, ◌+◌, String, Option, none, some, get, get-set, get-sweep, sweep, sweep-HasUniqueKeys,
  set-HasUniqueKeys, HasUniqueKeys, fresh, str_eq, if◌then◌else◌, ◌≡◌, refl, arith, ◌∙◌, ap,
}
use openviking_admin.Capability.RateLimit.Store.{
  RateLimitBucketState, Buckets, is_expired, next_state, consume,
}

-- The bucket, as long as its window has not ended.
abbrev pub while_open : ℕ → Option RateLimitBucketState → Option RateLimitBucketState
while_open now none = none
while_open now (some s) = if ltb now (s.window_started_at + s.window_ms) then some s else none

abbrev pub live : ℕ → String → Buckets → Option RateLimitBucketState
live now key buckets = while_open now (get key buckets)

-- What the sweep leaves.
pub fresh-while_open :
    (now : ℕ) (o : Option RateLimitBucketState) → fresh (is_expired now) o ≡ while_open now o
fresh-while_open now none = refl
fresh-while_open now (some s) = ground arith

-- One more call in an open window, or the first call of a new one.
abbrev pub tick : ℕ → ℕ → Option RateLimitBucketState → RateLimitBucketState
tick window_ms now none = record { count = 1; window_started_at = now; window_ms = window_ms }
tick window_ms now (some s) = record s { count = s.count + 1 }

next_state-while_open :
    (w now : ℕ) (o : Option RateLimitBucketState)
    → next_state w now (while_open now o) ≡ tick w now (while_open now o)
unfolding next_state
next_state-while_open w now none = refl
next_state-while_open w now (some s) = ground arith

module _ (key : String) (limit w now : ℕ) (buckets : Buckets) (unique : HasUniqueKeys buckets) where
  pub state-consume : (consume key limit w now buckets).0.state ≡ tick w now (live now key buckets)
  unfolding consume
  state-consume =
      ap (next_state w now)
        (get-sweep (is_expired now) key buckets unique ∙ fresh-while_open now (get key buckets))
      ∙ next_state-while_open w now (get key buckets)

  pub reset_at-consume :
      (consume key limit w now buckets).0.reset_at
      ≡ (tick w now (live now key buckets)).window_started_at
        + (tick w now (live now key buckets)).window_ms
  unfolding consume
  reset_at-consume =
      ap (λ (s : RateLimitBucketState). s.window_started_at + s.window_ms) state-consume

  -- After a call the store shows the key's bucket one call further, or newly opened, and every
  -- other key as it was, its closed windows aside.
  pub get-consume :
      (j : String)
      → get j (consume key limit w now buckets).1
        ≡ (if str_eq key j then some (tick w now (live now key buckets)) else live now j buckets)
  unfolding consume
  get-consume j = ground (
    arith,
    state-consume,
    get-sweep (is_expired now) j buckets unique ∙ fresh-while_open now (get j buckets),
    get-set key j (consume key limit w now buckets).0.state (sweep (is_expired now) buckets).0,
  )

  pub consume-HasUniqueKeys : HasUniqueKeys (consume key limit w now buckets).1
  unfolding consume
  consume-HasUniqueKeys =
      set-HasUniqueKeys key _ _ (sweep-HasUniqueKeys (is_expired now) buckets unique)
