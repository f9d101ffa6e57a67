-- ===== src/Prelude/Sorting.antt =====
-- Sorting by a number, stably, and the first rows of a list: `ORDER BY` and `sort` on a date, and
-- `take` and `slice`.
use Prim.Native.Nat.{ℕ, zero, suc, ◌≤◌}
use native.Mathlib.Omega.{arith}
use mathlib.Core.Path.{◌≡◌, refl, ap}
use mathlib.Core.Logic.{◌↔◌, ◌⊎◌, inl, inr}
use mathlib.Core.List.{List, [], ◌∷◌}
use openviking_admin.Prelude.Tests.{leb, if◌then◌else◌, Bool-cases}
use openviking_admin.Prelude.Members.{In, length}

module _ {A : Type 0} where
  unfoldable pub take : ℕ → List A → List A
  take zero xs = []
  take (suc n) [] = []
  take (suc n) (x ∷ xs) = x ∷ take n xs

  pub In-take : (n : ℕ) (xs : List A) (y : A) → In y (take n xs) → In y xs
  unfolding take
  In-take zero xs y m = absurd m
  In-take (suc n) [] y m = absurd m
  In-take (suc n) (x ∷ xs) y m = elim m [ inl e ↦ inl e | inr k ↦ inr (In-take n xs y k) ]

  pub length-take : (n : ℕ) (xs : List A) → length (take n xs) ≤ n
  unfolding take
  length-take zero xs = omega arith
  length-take (suc n) [] = omega arith
  length-take (suc n) (x ∷ xs) = omega (arith, length-take n xs)

module _ {A : Type 0} (key : A → ℕ) where
  unfoldable pub insert_by : A → List A → List A
  insert_by x [] = x ∷ []
  insert_by x (y ∷ ys) =
      let rest = insert_by x ys in if leb (key x) (key y) then x ∷ y ∷ ys else y ∷ rest

  unfoldable pub sort_by : List A → List A
  unfolding insert_by
  sort_by [] = []
  sort_by (x ∷ xs) = insert_by x (sort_by xs)

  In-insert_by : (y x : A) (xs : List A) → In y (insert_by x xs) ↔ ((x ≡ y) ⊎ In y xs)
  unfolding insert_by
  In-insert_by y x [] = (λ m. m, λ m. m)
  In-insert_by y x (other ∷ xs) = elim (Bool-cases (leb (key x) (key other))) [
    | inl older ↦ rw older (λ m. m, λ m. m)
    | inr newer ↦
        let step = In-insert_by y x xs in
        rw newer (
          λ m. elim m [
            | inl e ↦ inr (inl e)
            | inr n ↦ elim (step.0 n) [ inl e ↦ inl e | inr k ↦ inr (inr k) ]
          ],
          λ m. elim m [
            | inl e ↦ inr (step.1 (inl e))
            | inr n ↦ elim n [ inl e ↦ inl e | inr k ↦ inr (step.1 (inr k)) ]
          ],
        )
  ]

  pub In-sort_by : (y : A) (xs : List A) → In y (sort_by xs) ↔ In y xs
  unfolding sort_by
  In-sort_by y [] = (λ m. m, λ m. m)
  In-sort_by y (x ∷ xs) =
      let step = In-insert_by y x (sort_by xs) in
      let rest = In-sort_by y xs in
      (
        λ m. elim (step.0 m) [ inl e ↦ inl e | inr n ↦ inr (rest.0 n) ],
        λ m. step.1 (elim m as (λ _. (x ≡ y) ⊎ In y (sort_by xs)) [
          | inl e ↦ inl e
          | inr n ↦ inr (rest.1 n)
        ]),
      )

  -- From low to high.
  abbrev pub IsSorted : List A → Type 0
  IsSorted [] = Unit
  IsSorted (x ∷ xs) = ((y : A) → In y xs → key x ≤ key y) × IsSorted xs

  insert_by-IsSorted : (x : A) (xs : List A) → IsSorted xs → IsSorted (insert_by x xs)
  unfolding insert_by
  insert_by-IsSorted x [] h = (λ y m. absurd m, tt)
  insert_by-IsSorted x (other ∷ xs) (first, rest) = elim (Bool-cases (leb (key x) (key other))) [
    | inl older ↦ rw older (
      λ y m. elim m [
        | inl e ↦ ground (arith, older, ap key e)
        | inr n ↦ ground (arith, older, first y n)
      ],
      (first, rest),
    )
    | inr newer ↦ rw newer (
      λ y m. elim ((In-insert_by y x xs).0 m) [
        | inl e ↦ ground (arith, newer, ap key e)
        | inr n ↦ first y n
      ],
      insert_by-IsSorted x xs rest,
    )
  ]

  pub sort_by-IsSorted : (xs : List A) → IsSorted (sort_by xs)
  unfolding sort_by
  sort_by-IsSorted [] = tt
  sort_by-IsSorted (x ∷ xs) = insert_by-IsSorted x (sort_by xs) (sort_by-IsSorted xs)

  take_or_later :
      (n : ℕ) (xs : List A) (y : A)
      → IsSorted xs
      → In y xs
      → In y (take n xs) ⊎ (((x : A) → In x (take n xs) → key x ≤ key y) × (length (take n xs) ≡ n))
  unfolding take
  take_or_later zero xs y h m = inr (λ x k. absurd k, refl)
  take_or_later (suc n) [] y h m = absurd m
  take_or_later (suc n) (z ∷ xs) y (first, rest) m = elim m [
    | inl e ↦ inl (inl e)
    | inr k ↦ elim (take_or_later n xs y rest k) [
      | inl picked ↦ inl (inr picked)
      | inr (older, full) ↦ inr (
        λ x p. elim p [ inl e ↦ ground (arith, first y k, ap key e) | inr q ↦ older x q ],
        omega (arith, full),
      )
    ]
  ]

  -- Of a list that was sorted, the first n are some of it, and each of it is one of them, unless n
  -- that are no higher are.
  pub take-sort_by :
      (n : ℕ) (xs : List A) (y : A)
      → (In y (take n (sort_by xs)) → In y xs)
        × (In y xs
            → In y (take n (sort_by xs))
              ⊎ (((x : A) → In x (take n (sort_by xs)) → key x ≤ key y)
                  × (length (take n (sort_by xs)) ≡ n)))
  take-sort_by n xs y = (
    λ m. (In-sort_by y xs).0 (In-take n (sort_by xs) y m),
    λ m. take_or_later n (sort_by xs) y (sort_by-IsSorted xs) ((In-sort_by y xs).1 m),
  )
