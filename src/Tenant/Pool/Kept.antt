-- ===== src/Tenant/Pool/Kept.antt =====
-- What a request keeps of the connections of the pool.
use openviking_admin.Prelude.{
  ℕ, String, ◌≡◌, refl, sym, ap, ◌≢◌, ◌⊎◌, inl, inr, true, none, some, arith, str_eq, str_eq_refl,
  str_eq→≡, ◌<◌, Bool-cases, Option-cases, In, get, set, get-set,
}
use openviking_admin.Tenant.{DbConfig}
use openviking_admin.Tenant.Pool.{
  DataSource, Pool, is_among, ready, made, started, join_or_start, get_tenant_data_source,
}
use openviking_admin.Tenant.Pool.Sources.{In-is_among}

-- The open connections that are not being destroyed are the ones that are kept, one for a tenant,
-- and where a tenant has one none is being opened; of those that are being opened, each is the one
-- its tenant waits for.
pub record IsKept (p : Pool) : Type 0 where
  pub own :
      (t : String) (s : DataSource) → get t p.pool ≡ some s → (s.tenant_id ≡ t) × In s p.opened
  pub kept : (s : DataSource) → In s p.opened → get s.tenant_id p.pool ≡ some s
  pub apart :
      (t : String) (s : DataSource) → get t p.pending_initializations ≡ some s → get t p.pool ≡ none
  pub awaited :
      (s : DataSource)
      → In s p.in_flight
      → (get s.tenant_id p.pending_initializations ≡ some s) × (s.id < p.next_id)
  pub distinct : (s r : DataSource) → In s p.opened → In r p.opened → s.id ≡ r.id → s ≡ r
  pub bound : (s : DataSource) → In s p.opened → s.id < p.next_id
  pub unlike : (s r : DataSource) → In s p.in_flight → In r p.opened → s.id ≢ r.id

started-IsKept :
    (t : String) (config : DbConfig) (p : Pool)
    → IsKept p
    → get t p.pool ≡ none
    → get t p.pending_initializations ≡ none
    → IsKept (started t config p)
started-IsKept t config p h free idle = record {
  own = h.own;
  kept = h.kept;
  apart = λ k s is. elim (Bool-cases (str_eq t k)) [
    | inl same ↦ rw (sym (str_eq→≡ t k same)) free
    | inr other ↦
        h.apart k s
          (ground (arith, other, is, get-set t k (made t config p) p.pending_initializations))
  ];
  awaited = λ s m. elim m [
    | inl e ↦ rw (sym e) (
      ground (arith, str_eq_refl t, get-set t t (made t config p) p.pending_initializations),
      omega arith,
    )
    | inr n ↦
        let (waits, below) = h.awaited s n in
        elim (Bool-cases (str_eq t s.tenant_id)) [
          | inl same ↦
              let none_waits : get s.tenant_id p.pending_initializations ≡ none =
                rw (sym (str_eq→≡ t s.tenant_id same)) idle in
              absurd (ground (arith, none_waits, waits))
          | inr other ↦ (
            ground (
              arith,
              other,
              waits,
              get-set t s.tenant_id (made t config p) p.pending_initializations,
            ),
            omega (arith, below),
          )
        ]
  ];
  distinct = h.distinct;
  bound = λ s m. omega (arith, h.bound s m);
  unlike = λ s r m n. elim m [
    | inl e ↦ λ is.
        let new : s.id ≡ p.next_id = ap (λ (x : DataSource). x.id) (sym e) in
        absurd (omega (arith, h.bound r n, is, new))
    | inr old ↦ h.unlike s r old n
  ];
}

join_or_start-IsKept :
    (t : String) (config : DbConfig) (p : Pool)
    → IsKept p
    → get t p.pool ≡ none
    → IsKept (join_or_start t config p).1
join_or_start-IsKept t config p h free = elim (Option-cases (get t p.pending_initializations)) [
  | inl e ↦ rw (join_or_start, e) (started-IsKept t config p h free e)
  | inr (_, e) ↦ rw (join_or_start, e) h
]

-- The cases of a request.
pub ask_cases :
    (now : ℕ) (t : String) (config : DbConfig) (p : Pool)
    → IsKept p
    → ((get t p.pool ≡ none) × (get_tenant_data_source now t config p ≡ join_or_start t config p))
      ⊎ ((s : DataSource) × (get t p.pool ≡ some s)
          × (get_tenant_data_source now t config p
              ≡ (ready s, record p { last_used_at = set t now p.last_used_at })))
unfolding get_tenant_data_source
ask_cases now t config p h = elim (Option-cases (get t p.pool)) [
  | inl e ↦ inl (e, rw (get_tenant_data_source, e) refl)
  | inr (s, e) ↦
      let among : is_among s.id p.opened ≡ true = In-is_among s p.opened (h.own t s e).1 in
      inr (s, e, rw (get_tenant_data_source, e, among) refl)
]

pub ask-IsKept :
    (now : ℕ) (t : String) (config : DbConfig) (p : Pool)
    → IsKept p
    → IsKept (get_tenant_data_source now t config p).1
ask-IsKept now t config p h = elim (ask_cases now t config p h) [
  | inl (e, is) ↦ rw is (join_or_start-IsKept t config p h e)
  | inr (s, e, is) ↦ rw is (record {
    own = h.own;
    kept = h.kept;
    apart = h.apart;
    awaited = h.awaited;
    distinct = h.distinct;
    bound = h.bound;
    unlike = h.unlike;
  })
]
