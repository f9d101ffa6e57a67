-- ===== src/Tenant/Pool/Openings.antt =====
-- What the end of an opening keeps of the connections of the pool.
use openviking_admin.Prelude.{
  ℕ, ◌≡◌, sym, ap, ◌∙◌, inl, inr, Bool, none, some, arith, str_eq, str_eq_refl, str_eq→≡, ◌<◌,
  Bool-cases, In, get, delete, get-set, get-delete,
}
use openviking_admin.Tenant.Pool.{
  DataSource, Pool, without, made, settled, connected, initialize_tenant_data_source,
}
use openviking_admin.Tenant.Pool.Sources.{without-In, find_cases}
use openviking_admin.Tenant.Pool.Kept.{IsKept}

-- Those that are still being opened, once one of them has come to its end.
still_awaited :
    (source : DataSource) (p : Pool)
    → IsKept p
    → In source p.in_flight
    → (s : DataSource) → In s (without source.id p.in_flight)
    → (get s.tenant_id (delete source.tenant_id p.pending_initializations) ≡ some s)
      × (s.id < p.next_id)
still_awaited source p h m s n =
    let (old, apart) = without-In source.id p.in_flight s n in
    let (waits, below) = h.awaited s old in
    let (its, _) = h.awaited source m in
    elim (Bool-cases (str_eq source.tenant_id s.tenant_id)) [
      | inl same ↦
          let one : get s.tenant_id p.pending_initializations ≡ some source =
            rw (sym (str_eq→≡ source.tenant_id s.tenant_id same)) its in
          let it : s ≡ source = ground (arith, waits, one) in
          absurd (apart (ap (λ (x : DataSource). x.id) it))
      | inr other ↦ (
        ground (
          arith,
          other,
          waits,
          get-delete source.tenant_id s.tenant_id p.pending_initializations,
        ),
        below,
      )
    ]

settled-IsKept :
    (source : DataSource) (p : Pool) → IsKept p → In source p.in_flight → IsKept (settled source p)
settled-IsKept source p h m = record {
  own = h.own;
  kept = h.kept;
  apart = λ k s is.
      h.apart k s (ground (arith, is, get-delete source.tenant_id k p.pending_initializations));
  awaited = still_awaited source p h m;
  distinct = h.distinct;
  bound = h.bound;
  unlike = λ s r n. h.unlike s r (without-In source.id p.in_flight s n).0;
}

connected-IsKept :
    (now : ℕ) (source : DataSource) (p : Pool)
    → IsKept p
    → In source p.in_flight
    → IsKept (connected now source p)
connected-IsKept now source p h m =
    let t = source.tenant_id in
    let (its, below) = h.awaited source m in
    let free = h.apart t source its in
    record {
      own = λ k s e. elim (Bool-cases (str_eq t k)) [
        | inl same ↦
            let it : source ≡ s = ground (arith, e, same, get-set t k source p.pool) in
            (ap (λ (x : DataSource). x.tenant_id) (sym it) ∙ str_eq→≡ t k same, inl it)
        | inr other ↦
            let (tenant, among) = h.own k s (ground (arith, e, other, get-set t k source p.pool)) in
            (tenant, inr among)
      ];
      kept = λ s n. elim n [
        | inl e ↦ rw (sym e) (ground (arith, get-set t t source p.pool, str_eq_refl t))
        | inr n ↦ elim (Bool-cases (str_eq t s.tenant_id)) [
          | inl same ↦
              let missing : get s.tenant_id p.pool ≡ none =
                rw (sym (str_eq→≡ t s.tenant_id same)) free in
              absurd (ground (arith, missing, h.kept s n))
          | inr other ↦ ground (arith, other, get-set t s.tenant_id source p.pool, h.kept s n)
        ]
      ];
      apart = λ k o e. elim (Bool-cases (str_eq t k)) [
        | inl same ↦ absurd (ground (arith, same, e, get-delete t k p.pending_initializations))
        | inr other ↦
            let before : get k p.pending_initializations ≡ some o =
              ground (arith, other, e, get-delete t k p.pending_initializations) in
            ground (arith, other, get-set t k source p.pool, h.apart k o before)
      ];
      awaited = still_awaited source p h m;
      distinct = λ s r ms mr same. elim ms [
        | inl e ↦ elim mr [
          | inl e2 ↦ sym e ∙ e2
          | inr n ↦ absurd (h.unlike source r m n (ap (λ (x : DataSource). x.id) e ∙ same))
        ]
        | inr o ↦ elim mr [
          | inl e2 ↦ absurd (h.unlike source s m o (ap (λ (x : DataSource). x.id) e2 ∙ sym same))
          | inr n ↦ h.distinct s r o n same
        ]
      ];
      bound = λ s n. elim n [ inl e ↦ rw (sym e) below | inr o ↦ h.bound s o ];
      unlike = λ s r n mr.
          let (old, apart) = without-In source.id p.in_flight s n in
          elim mr [
            | inl e ↦ λ same. apart (same ∙ ap (λ (x : DataSource). x.id) (sym e))
            | inr o ↦ h.unlike s r old o
          ];
    }

pub end-IsKept :
    (connects : Bool) (now id : ℕ) (p : Pool)
    → IsKept p
    → IsKept (initialize_tenant_data_source connects now id p)
unfolding initialize_tenant_data_source
end-IsKept connects now id p h = elim (find_cases id p.in_flight) [
  | inl (e, _) ↦ rw (initialize_tenant_data_source, e) h
  | inr (s, e, _, m) ↦ elim (Bool-cases connects) [
    | inl made ↦ rw (initialize_tenant_data_source, e, made) (connected-IsKept now s p h m)
    | inr lost ↦ rw (initialize_tenant_data_source, e, lost) (settled-IsKept s p h m)
  ]
]
