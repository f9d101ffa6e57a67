-- ===== src/Tenant/Pool/Evictions.antt =====
-- What the clean-up keeps of the connections of the pool.
use openviking_admin.Prelude.{
  ℕ, ◌-◌, String, ◌≡◌, sym, ap, ◌∙◌, inl, inr, some, arith, str_eq, str_eq_refl, str_eq→≡, eq_iff,
  Bool-cases, Option-cases, or_else, In, ltb, get, get-delete,
}
use openviking_admin.Tenant.Pool.{
  DataSource, Pool, without, closed_idle, evict_if_idle, end_destroy,
}
use openviking_admin.Tenant.Pool.Sources.{without-In, In-without}
use openviking_admin.Tenant.Pool.Kept.{IsKept}

closed_idle-IsKept :
    (t : String) (source : DataSource) (p : Pool)
    → IsKept p
    → get t p.pool ≡ some source
    → IsKept (closed_idle t source p)
closed_idle-IsKept t source p h e =
    let (its, among) = h.own t source e in
    let earlier : (s : DataSource) → In s (without source.id p.opened) → In s p.opened =
      λ s m. (without-In source.id p.opened s m).0 in
    record {
      own = λ k s is. elim (Bool-cases (str_eq t k)) [
        | inl same ↦ absurd (ground (arith, same, is, get-delete t k p.pool))
        | inr other ↦
            let (tenant, m) = h.own k s (ground (arith, other, is, get-delete t k p.pool)) in
            (
              tenant,
              In-without source.id p.opened s m (λ same.
                  let one : s ≡ source = h.distinct s source m among same in
                  let t_is_k : t ≡ k =
                    sym its ∙ ap (λ (x : DataSource). x.tenant_id) (sym one) ∙ tenant in
                  ground (arith, other, t_is_k, str_eq_refl k, eq_iff t k)),
            )
      ];
      kept = λ s m. elim (Bool-cases (str_eq t s.tenant_id)) [
        | inl same ↦
            let (n, apart) = without-In source.id p.opened s m in
            let here : get s.tenant_id p.pool ≡ some source =
              rw (sym (str_eq→≡ t s.tenant_id same)) e in
            let it : s ≡ source = ground (arith, here, h.kept s n) in
            absurd (apart (ap (λ (x : DataSource). x.id) it))
        | inr other ↦ ground (arith, get-delete t s.tenant_id p.pool, other, h.kept s (earlier s m))
      ];
      apart = λ k s is. ground (arith, get-delete t k p.pool, h.apart k s is);
      awaited = h.awaited;
      distinct = λ s r m n. h.distinct s r (earlier s m) (earlier r n);
      bound = λ s m. h.bound s (earlier s m);
      unlike = λ s r m n. h.unlike s r m (earlier r n);
    }

pub evict-IsKept :
    (max now : ℕ) (t : String) (p : Pool) → IsKept p → IsKept (evict_if_idle max now t p).0
unfolding evict_if_idle
evict-IsKept max now t p h = elim (Option-cases (get t p.pool)) [
  | inl e ↦ rw (evict_if_idle, e) h
  | inr (source, e) ↦ elim (Bool-cases (ltb (now - or_else (get t p.last_used_at) 0) max)) [
    | inl busy ↦ rw (evict_if_idle, e, busy) h
    | inr idle ↦ rw (evict_if_idle, e, idle) (closed_idle-IsKept t source p h e)
  ]
]

pub end_destroy-IsKept : (id : ℕ) (p : Pool) → IsKept p → IsKept (end_destroy id p)
unfolding end_destroy
end_destroy-IsKept id p h = record {
  own = h.own;
  kept = h.kept;
  apart = h.apart;
  awaited = h.awaited;
  distinct = h.distinct;
  bound = h.bound;
  unlike = h.unlike;
}
