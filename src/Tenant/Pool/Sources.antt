-- ===== src/Tenant/Pool/Sources.antt =====
-- Lists of sources of the pool.
use openviking_admin.Prelude.{
  ℕ, ◌≡◌, refl, ap, ◌≢◌, ◌⊎◌, inl, inr, true, false, none, some, List, [], ◌∷◌, arith, Bool-cases,
  In, ◌==◌,
}
use openviking_admin.Tenant.Pool.{DataSource, is_among, without, find}

pub without-In :
    (id : ℕ) (sources : List DataSource) (s : DataSource)
    → In s (without id sources)
    → In s sources × (s.id ≢ id)
unfolding without
without-In id [] s m = absurd m
without-In id (source ∷ sources) s m = elim (Bool-cases (source.id == id)) [
  | inl same ↦ let (n, apart) = without-In id sources s (rw same at m) in (inr n, apart)
  | inr other ↦ elim (rw other at m) as (λ _. In s (source ∷ sources) × (s.id ≢ id)) [
    | inl e ↦ (inl e, λ is. ground (arith, e, is, other))
    | inr n ↦ let (k, apart) = without-In id sources s n in (inr k, apart)
  ]
]

pub In-is_among :
    (s : DataSource) (sources : List DataSource) → In s sources → is_among s.id sources ≡ true
unfolding is_among
In-is_among s [] m = absurd m
In-is_among s (source ∷ sources) (inl e) = rw e (ground arith)
In-is_among s (source ∷ sources) (inr m) = ground (arith, In-is_among s sources m)

pub In-without :
    (id : ℕ) (sources : List DataSource) (s : DataSource)
    → In s sources
    → s.id ≢ id
    → In s (without id sources)
unfolding without
In-without id [] s m apart = m
In-without id (source ∷ sources) s m apart = elim (Bool-cases (source.id == id)) [
  | inl same ↦ rw same (elim m as (λ _. In s (without id sources)) [
    | inl e ↦ absurd (ground (arith, same, apart, ap (λ (x : DataSource). x.id) e))
    | inr n ↦ In-without id sources s n apart
  ])
  | inr other ↦ rw other (elim m as (λ _. In s (source ∷ without id sources)) [
    | inl e ↦ inl e
    | inr n ↦ inr (In-without id sources s n apart)
  ])
]

pub find_cases :
    (id : ℕ) (sources : List DataSource)
    → ((find id sources ≡ none) × (is_among id sources ≡ false))
      ⊎ ((s : DataSource) × (find id sources ≡ some s) × (s.id ≡ id) × In s sources)
unfolding find is_among
find_cases id [] = inl (refl, refl)
find_cases id (source ∷ sources) = elim (Bool-cases (source.id == id)) [
  | inl same ↦ inr (source, rw same refl, ground (arith, same), inl refl)
  | inr other ↦ elim (find_cases id sources) [
    | inl (e, e2) ↦ inl (ground (arith, other, e), ground (arith, other, e2))
    | inr (s, e, is, m) ↦ inr (s, ground (arith, other, e), is, inr m)
  ]
]
