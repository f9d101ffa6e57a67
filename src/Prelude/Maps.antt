-- ===== src/Prelude/Maps.antt =====
-- The language's `Map` with string keys: its entries in insertion order.
use Prim.Native.Nat.{ℕ, ◌+◌}
use Prim.Native.String.{String}
use text.Mathlib.TextEquality.{eq_iff}
use mathlib.Core.Logic.{◌≢◌}
use mathlib.Core.Path.{◌≡◌, refl, ◌∙◌}
use mathlib.Core.Bool.{Bool, true, false, ◌&&◌, ◌||◌}
use mathlib.Core.Option.{Option, none, some}
use mathlib.Core.List.{List, [], ◌∷◌}
use native.Mathlib.Omega.{arith}
use openviking_admin.Prelude.Tests.{str_eq, if◌then◌else◌}

abbrev pub Map {ℓ} : Type ℓ → Type ℓ
Map V = List (String × V)

module _ {ℓ} {V : Type ℓ} where
  unfoldable pub get : String → Map V → Option V
  get k [] = none
  get k ((j, v) ∷ m) = if str_eq j k then some v else get k m

  -- A new key goes to the end; an old one keeps its place.
  unfoldable pub set : String → V → Map V → Map V
  set k v [] = (k, v) ∷ []
  set k v ((j, w) ∷ m) = if str_eq j k then (k, v) ∷ m else (j, w) ∷ set k v m

  unfoldable pub delete : String → Map V → Map V
  delete k [] = []
  delete k ((j, v) ∷ m) = let rest = delete k m in if str_eq j k then rest else (j, v) ∷ rest

  pub get-set :
      (k j : String) (v : V) (m : Map V)
      → get j (set k v m) ≡ (if str_eq k j then some v else get j m)
  unfolding get set
  get-set k j v [] = refl
  get-set k j v ((i, w) ∷ m) = ground (arith, eq_iff k j, eq_iff i k, eq_iff i j, get-set k j v m)

  pub get-delete :
      (k j : String) (m : Map V) → get j (delete k m) ≡ (if str_eq k j then none else get j m)
  unfolding get delete
  get-delete k j [] = ground arith
  get-delete k j ((i, w) ∷ m) = ground (arith, eq_iff k j, eq_iff i k, eq_iff i j, get-delete k j m)

  -- A value is changed where it is there.
  unfoldable pub modify : String → (V → V) → Map V → Map V
  modify k f [] = []
  modify k f ((j, v) ∷ m) = if str_eq j k then (j, f v) ∷ m else (j, v) ∷ modify k f m

  abbrev pub mapped : (V → V) → Option V → Option V
  mapped f none = none
  mapped f (some v) = some (f v)

  pub get-modify :
      (k j : String) (f : V → V) (m : Map V)
      → get j (modify k f m) ≡ (if str_eq k j then mapped f (get j m) else get j m)
  unfolding get modify
  get-modify k j f [] = ground arith
  get-modify k j f ((i, w) ∷ m) =
      ground (arith, eq_iff k j, eq_iff i k, eq_iff i j, get-modify k j f m)

  pub set-ne-nil : (k : String) (v : V) (m : Map V) → set k v m ≢ []
  unfolding set
  set-ne-nil k v [] h = cc
  set-ne-nil k v ((j, w) ∷ m) h = ground arith

  -- A key stands at most once, as in every `Map`.
  abbrev pub HasUniqueKeys : Map V → Type ℓ
  HasUniqueKeys [] = Unit
  HasUniqueKeys ((k, v) ∷ m) = (get k m ≡ none) × HasUniqueKeys m

  pub set-HasUniqueKeys :
      (k : String) (v : V) (m : Map V) → HasUniqueKeys m → HasUniqueKeys (set k v m)
  unfolding get set
  set-HasUniqueKeys k v [] h = (refl, tt)
  set-HasUniqueKeys k v ((j, w) ∷ m) h =
      ground (arith, eq_iff j k, eq_iff k j, get-set k j v m, set-HasUniqueKeys k v m h.1)

  pub modify-HasUniqueKeys :
      (k : String) (f : V → V) (m : Map V) → HasUniqueKeys m → HasUniqueKeys (modify k f m)
  unfolding get modify
  modify-HasUniqueKeys k f [] h = tt
  modify-HasUniqueKeys k f ((j, w) ∷ m) h =
      ground (arith, eq_iff k j, get-modify k j f m, modify-HasUniqueKeys k f m h.1)

  pub delete-HasUniqueKeys : (k : String) (m : Map V) → HasUniqueKeys m → HasUniqueKeys (delete k m)
  unfolding get delete
  delete-HasUniqueKeys k [] h = tt
  delete-HasUniqueKeys k ((j, w) ∷ m) h =
      ground (arith, get-delete k j m, delete-HasUniqueKeys k m h.1)

  -- The loop `for (const [key, value] of entries) if (stale(value)) { delete(key); deleted += 1 }`.
  sweep_from : (V → Bool) → List (String × V) → Map V → ℕ → Map V × ℕ
  sweep_from stale [] m deleted = (m, deleted)
  sweep_from stale ((key, value) ∷ entries) m deleted =
      sweep_from stale entries (if stale value then delete key m else m)
        (if stale value then deleted + 1 else deleted)

  unfoldable pub sweep : (V → Bool) → Map V → Map V × ℕ
  unfolding sweep_from get set delete
  sweep stale m = sweep_from stale m m 0

  -- What is left of an entry when stale ones count as missing.
  abbrev pub fresh : (V → Bool) → Option V → Option V
  fresh stale none = none
  fresh stale (some v) = if stale v then none else some v

  has_stale : (V → Bool) → String → List (String × V) → Bool
  has_stale stale k [] = false
  has_stale stale k ((j, v) ∷ entries) = (stale v && str_eq j k) || has_stale stale k entries

  get-sweep_from :
      (stale : V → Bool) (k : String) (entries : List (String × V)) (m : Map V) (n : ℕ)
      → get k (sweep_from stale entries m n).0
        ≡ (if has_stale stale k entries then none else get k m)
  unfolding sweep_from has_stale
  get-sweep_from stale k [] m n = refl
  get-sweep_from stale k ((j, v) ∷ entries) m n = ground (
    arith,
    get-sweep_from stale k entries (if stale v then delete j m else m)
        (if stale v then n + 1 else n),
    get-delete j k m,
  )

  has_stale_of_missing :
      (stale : V → Bool) (k : String) (m : Map V) → get k m ≡ none → has_stale stale k m ≡ false
  unfolding get has_stale
  has_stale_of_missing stale k [] h = refl
  has_stale_of_missing stale k ((j, v) ∷ m) h =
      ground (arith, eq_iff j k, has_stale_of_missing stale k m)

  has_stale-get :
      (stale : V → Bool) (k : String) (m : Map V)
      → HasUniqueKeys m
      → (if has_stale stale k m then none else get k m) ≡ fresh stale (get k m)
  unfolding get has_stale
  has_stale-get stale k [] h = refl
  has_stale-get stale k ((j, v) ∷ m) h =
      ground (arith, eq_iff j k, has_stale_of_missing stale k m, has_stale-get stale k m h.1)

  -- A sweep removes exactly the stale entries.
  pub get-sweep :
      (stale : V → Bool) (k : String) (m : Map V)
      → HasUniqueKeys m
      → get k (sweep stale m).0 ≡ fresh stale (get k m)
  unfolding sweep
  get-sweep stale k m h = get-sweep_from stale k m m 0 ∙ has_stale-get stale k m h

  delete_if-HasUniqueKeys :
      (b : Bool) (k : String) (m : Map V)
      → HasUniqueKeys m
      → HasUniqueKeys (if b then delete k m else m)
  delete_if-HasUniqueKeys true k m h = delete-HasUniqueKeys k m h
  delete_if-HasUniqueKeys false k m h = h

  sweep_from-HasUniqueKeys :
      (stale : V → Bool) (entries : List (String × V)) (m : Map V) (n : ℕ)
      → HasUniqueKeys m
      → HasUniqueKeys (sweep_from stale entries m n).0
  unfolding sweep_from
  sweep_from-HasUniqueKeys stale [] m n h = h
  sweep_from-HasUniqueKeys stale ((j, v) ∷ entries) m n h =
      sweep_from-HasUniqueKeys stale entries _ _ (delete_if-HasUniqueKeys (stale v) j m h)

  pub sweep-HasUniqueKeys :
      (stale : V → Bool) (m : Map V) → HasUniqueKeys m → HasUniqueKeys (sweep stale m).0
  unfolding sweep
  sweep-HasUniqueKeys stale m h = sweep_from-HasUniqueKeys stale m m 0 h
