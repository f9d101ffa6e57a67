-- ===== src/Capability/RateLimit/Window.antt =====
-- Fixed windows: what the counters of the in-memory store say after any sequence of calls.
use openviking_admin.Prelude.{
  ℕ, zero, suc, inl, inr, Bool-cases, ◌+◌, ◌≤◌, ◌<◌, String, Option, none, some, Bool, true, false,
  get, HasUniqueKeys, str_eq, if◌then◌else◌, ◌≡◌, refl, arith, eq_iff, List, [], ◌∷◌,
}
use native.Mathlib.Nat.{add-zero, zero-add}
use openviking_admin.Capability.RateLimit.Store.{RateLimitBucketState, Buckets, consume}
use openviking_admin.Capability.RateLimit.Refinement.{
  while_open, live, tick, state-consume, get-consume, consume-HasUniqueKeys,
}

-- A call: the bucket's key, and the time.
abbrev pub Call : Type 0
Call = String × ℕ

abbrev pub run : ℕ → ℕ → List Call → Buckets → Buckets
run limit w [] buckets = buckets
run limit w ((key, now) ∷ calls) buckets = run limit w calls (consume key limit w now buckets).1

-- Every call is made between `start` and `start + w`.
abbrev pub IsWithin : ℕ → ℕ → List Call → Type 0
IsWithin start w [] = Unit
IsWithin start w ((key, now) ∷ calls) = (start ≤ now) × (now < start + w) × IsWithin start w calls

abbrev pub calls_of : String → List Call → ℕ
calls_of key [] = 0
calls_of key ((j, now) ∷ calls) =
    let rest = calls_of key calls in if str_eq j key then suc rest else rest

-- The bucket of the key counts so many calls, and its window does not close before `start + w`.
abbrev Holds : ℕ → ℕ → ℕ → String → Buckets → Type 0
Holds start w count key buckets =
    (s : RateLimitBucketState) × (get key buckets ≡ some s)
    × (s.count ≡ count)
    × (start ≤ s.window_started_at)
    × (s.window_ms ≡ w)

abbrev Counted : ℕ → ℕ → ℕ → String → Buckets → Type 0
Counted start w zero key buckets = live start key buckets ≡ none
Counted start w (suc n) key buckets = Holds start w (suc n) key buckets

while_open_later :
    (start now : ℕ) (o : Option RateLimitBucketState)
    → start ≤ now
    → while_open start o ≡ none
    → while_open now o ≡ none
while_open_later start now none h e = refl
while_open_later start now (some s) h e = ground arith

open_at :
    (start w now : ℕ) (o : Option RateLimitBucketState) (s : RateLimitBucketState)
    → now < start + w
    → o ≡ some s
    → start ≤ s.window_started_at
    → s.window_ms ≡ w
    → while_open now o ≡ some s
open_at start w now o s before found after ms = rw found (ground arith)

module _ (start limit w now : ℕ) (key j : String) (buckets : Buckets) (u : HasUniqueKeys buckets)
    (after : start ≤ now) (before : now < start + w) where
  consume-Counted :
      (n : ℕ)
      → Counted start w n key buckets
      → Counted start w (if str_eq j key then suc n else n) key (consume j limit w now buckets).1
  consume-Counted zero h = elim (Bool-cases (str_eq j key)) [
    | inl same ↦ rw same (
      tick w now none,
      ground (
        arith,
        same,
        eq_iff j key,
        get-consume j limit w now buckets u key,
        while_open_later start now (get key buckets),
      ),
      refl,
      after,
      refl,
    )
    | inr other ↦ rw other (
        ground (
          arith,
          other,
          get-consume j limit w now buckets u key,
          while_open_later start now (get key buckets),
        ))
  ]
  consume-Counted (suc n) (s, found, c, since, ms) = elim (Bool-cases (str_eq j key)) [
    | inl same ↦ rw same (
      record s { count = s.count + 1 },
      ground (
        arith,
        same,
        eq_iff j key,
        get-consume j limit w now buckets u key,
        open_at start w now (get key buckets) s,
      ),
      omega arith,
      since,
      ms,
    )
    | inr other ↦ rw other (
      s,
      ground (
        arith,
        other,
        get-consume j limit w now buckets u key,
        open_at start w now (get key buckets) s,
      ),
      c,
      since,
      ms,
    )
  ]

  count-consume :
      (n : ℕ) → Counted start w n j buckets → (consume j limit w now buckets).0.state.count ≡ suc n
  count-consume zero h =
      ground
        (arith, state-consume j limit w now buckets u, while_open_later start now (get j buckets))
  count-consume (suc n) (s, found, c, since, ms) =
      ground (arith, state-consume j limit w now buckets u, open_at start w now (get j buckets) s)

run-HasUniqueKeys :
    (limit w : ℕ) (calls : List Call) (buckets : Buckets)
    → HasUniqueKeys buckets
    → HasUniqueKeys (run limit w calls buckets)
run-HasUniqueKeys limit w [] buckets u = u
run-HasUniqueKeys limit w ((j, now) ∷ calls) buckets u =
    run-HasUniqueKeys limit w calls _ (consume-HasUniqueKeys j limit w now buckets u)

count_shift :
    (b : Bool) (n rest : ℕ) → (if b then suc n else n) + rest ≡ n + (if b then suc rest else rest)
count_shift true n rest = omega arith
count_shift false n rest = refl

run-Counted :
    (start limit w : ℕ) (key : String) (calls : List Call) (buckets : Buckets) (n : ℕ)
    → HasUniqueKeys buckets
    → IsWithin start w calls
    → Counted start w n key buckets
    → Counted start w (n + calls_of key calls) key (run limit w calls buckets)
run-Counted start limit w key [] buckets n u h c = rw add-zero c
run-Counted start limit w key ((j, now) ∷ calls) buckets n u (after, before, h) c =
    rw (← count_shift (str_eq j key) n (calls_of key calls)) (
      run-Counted start limit w key calls (consume j limit w now buckets).1 _
        (consume-HasUniqueKeys j limit w now buckets u) h
        (consume-Counted start limit w now key j buckets u after before n c))

-- Within one window, the call after n calls on a key is counted as number n + 1, whatever other
-- keys were used in between, and whatever stale buckets the store held at the start.
pub count-consume-run :
    (start limit w now : ℕ) (key : String) (calls : List Call) (buckets : Buckets)
    → HasUniqueKeys buckets
    → live start key buckets ≡ none
    → IsWithin start w calls
    → start ≤ now
    → now < start + w
    → (consume key limit w now (run limit w calls buckets)).0.state.count ≡ suc (calls_of key calls)
count-consume-run start limit w now key calls buckets u free h after before =
    count-consume start limit w now key key (run limit w calls buckets)
      (run-HasUniqueKeys limit w calls buckets u) after before (calls_of key calls)
      (rw zero-add at (run-Counted start limit w key calls buckets 0 u h free))
