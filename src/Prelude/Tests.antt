-- ===== src/Prelude/Tests.antt =====
-- Boolean tests on numbers and texts, branching, and splits on computed values.
use Prim.Native.Nat.{ℕ, compare, Ordering}
use Prim.Native.String.{String}
use text.Mathlib.Text.{◌==◌ as text_eq}
use text.Mathlib.TextEquality.{eq_iff}
use mathlib.Core.Path.{◌≡◌, refl}
use mathlib.Core.Logic.{◌≢◌, ◌⊎◌, inl, inr}
use mathlib.Core.Bool.{Bool, true, false}
use mathlib.Core.Option.{Option, none, some}

-- These compute to `compare`, which the tactics read.
abbrev pub ltb : ℕ → ℕ → Bool
ltb a b = elim (compare a b) [ Ordering.lt ↦ true | _ ↦ false ]

abbrev pub leb : ℕ → ℕ → Bool
leb a b = elim (compare a b) [ Ordering.gt ↦ false | _ ↦ true ]

infix 50 ◌==◌
abbrev pub ◌==◌ : ℕ → ℕ → Bool
a == b = elim (compare a b) [ Ordering.eq ↦ true | _ ↦ false ]

-- `===` on strings.
abbrev pub str_eq : String → String → Bool
str_eq = text_eq

pub str_eq_refl : (s : String) → str_eq s s ≡ true
str_eq_refl s = (eq_iff s s).1 refl

pub str_eq→≡ : (s t : String) → str_eq s t ≡ true → s ≡ t
str_eq→≡ s t h = (eq_iff s t).0 h

infix 1 if◌then◌else◌
abbrev pub if◌then◌else◌ {ℓ} : {A : Type ℓ} → Bool → A → A → A
if true then x else y = x
if false then x else y = y

pub Bool-cases : (b : Bool) → (b ≡ true) ⊎ (b ≡ false)
Bool-cases true = inl refl
Bool-cases false = inr refl

pub Option-cases {ℓ} : {A : Type ℓ} (o : Option A) → (o ≡ none) ⊎ ((a : A) × (o ≡ some a))
Option-cases none = inl refl
Option-cases (some a) = inr (a, refl)

pub str_ne : (s t : String) → s ≢ t → str_eq s t ≡ false
str_ne s t h = elim (Bool-cases (str_eq s t)) [
  | inl same ↦ absurd (h (str_eq→≡ s t same))
  | inr other ↦ other
]

-- A JavaScript string or null in a condition: null and "" are falsy.
abbrev pub truthy : Option String → Bool
truthy none = false
truthy (some s) = if str_eq s "" then false else true

-- `a ?? b`
abbrev pub or_else {ℓ} : {A : Type ℓ} → Option A → A → A
or_else none d = d
or_else (some a) d = a

-- What holds of both branches holds of the choice.
pub if_holds {ℓ κ} :
    {A : Type ℓ} (P : A → Type κ) (b : Bool) (x y : A) → P x → P y → P (if b then x else y)
if_holds P true x y p q = p
if_holds P false x y p q = q
