-- ===== src/Prelude/Members.antt =====
-- Membership in a list.
use Prim.Native.Nat.{ℕ, suc, ◌+◌}
use native.Mathlib.Omega.{arith}
use mathlib.Core.Path.{◌≡◌, refl, sym, ap, ◌∙◌}
use mathlib.Core.Logic.{◌↔◌, ◌⊎◌, inl, inr}
use mathlib.Core.Bool.{Bool, true, false}
use openviking_admin.Prelude.Tests.{if◌then◌else◌}
use mathlib.Core.List.{List, [], ◌∷◌, ◌++◌}

module _ {A : Type 0} where
  abbrev pub In : A → List A → Type 0
  In x [] = ⊥
  In x (y ∷ ys) = (y ≡ x) ⊎ In x ys

  pub In-append_left : (x : A) (xs ys : List A) → In x xs → In x (xs ++ ys)
  In-append_left x [] ys h = absurd h
  In-append_left x (y ∷ xs) ys (inl e) = inl e
  In-append_left x (y ∷ xs) ys (inr h) = inr (In-append_left x xs ys h)

  pub In-append_right : (x : A) (xs ys : List A) → In x ys → In x (xs ++ ys)
  In-append_right x [] ys h = h
  In-append_right x (y ∷ xs) ys h = inr (In-append_right x xs ys h)

  pub In-append : (x : A) (xs ys : List A) → In x (xs ++ ys) → In x xs ⊎ In x ys
  In-append x [] ys h = inr h
  In-append x (y ∷ xs) ys (inl e) = inl (inl e)
  In-append x (y ∷ xs) ys (inr h) = elim (In-append x xs ys h) [
    | inl m ↦ inl (inr m)
    | inr m ↦ inr m
  ]

  -- Over the native numbers.
  abbrev pub length : List A → ℕ
  length [] = 0
  length (x ∷ xs) = suc (length xs)

  pub length-append : (xs ys : List A) → length (xs ++ ys) ≡ length xs + length ys
  length-append [] ys = omega arith
  length-append (x ∷ xs) ys = omega (arith, length-append xs ys)

  pub In-if :
      (y x : A) (b : Bool) (xs : List A)
      → In y (if b then x ∷ xs else xs) ↔ (((b ≡ true) × (x ≡ y)) ⊎ In y xs)
  In-if y x true xs = (
    λ h. elim h [ inl e ↦ inl (refl, e) | inr m ↦ inr m ],
    λ h. elim h [ inl (b, e) ↦ inl e | inr m ↦ inr m ],
  )
  In-if y x false xs = (λ m. inr m, λ h. elim h [ inl (b, e) ↦ absurd (cc) | inr m ↦ m ])

  -- Membership in what a loop with a test keeps.
  pub In-filter :
      (test : A → Bool) (keep : List A → List A)
      → keep [] ≡ []
      → ((x : A) (xs : List A) → keep (x ∷ xs) ≡ (if test x then x ∷ keep xs else keep xs))
      → (xs : List A) (y : A) → In y (keep xs) ↔ ((test y ≡ true) × In y xs)
  In-filter test keep none_left step [] y = rw none_left (λ m. absurd m, λ (p, m). absurd m)
  In-filter test keep none_left step (x ∷ xs) y =
      let first = In-if y x (test x) (keep xs) in
      let rest = In-filter test keep none_left step xs y in
      rw (step x xs) (
        λ m. elim (first.0 m) [
          | inl (p, e) ↦ (ap test (sym e) ∙ p, inl e)
          | inr n ↦ let (p, k) = rest.0 n in (p, inr k)
        ],
        λ (p, m). elim m [
          | inl e ↦ first.1 (inl (ap test e ∙ p, e))
          | inr n ↦ first.1 (inr (rest.1 (p, n)))
        ],
      )
