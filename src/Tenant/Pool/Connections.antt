-- ===== src/Tenant/Pool/Connections.antt =====
-- Which connections are open in a run of requests, ends of openings, turns of the clean-up and ends
-- of destructions.
use openviking_admin.Prelude.{
  ℕ, String, ◌≡◌, refl, sym, ap, ◌∙◌, ◌≢◌, inl, inr, Bool, true, some, List, [], ◌∷◌, arith, str_eq,
  str_eq_refl, get-set, Bool-cases, Option-cases, In, get, Map,
}
use openviking_admin.Tenant.{DbConfig}
use openviking_admin.Tenant.Pool.{
  DataSource, Pool, empty_pool, destroy, ready, starts, join_or_start, get_tenant_data_source,
  initialize_tenant_data_source, evict_if_idle, destroy_each, on_module_destroy, end_destroy, find,
  is_among,
}
use openviking_admin.Tenant.Pool.Kept.{IsKept, ask_cases, ask-IsKept}
use openviking_admin.Tenant.Pool.Sources.{without-In, find_cases}
use openviking_admin.Tenant.Pool.Openings.{end-IsKept}
use openviking_admin.Tenant.Pool.Evictions.{evict-IsKept, end_destroy-IsKept}

pub data PoolEvent : Type 0 where
  asks : (now : ℕ) (tenant_id : String) → DbConfig → PoolEvent
  ends : (connects : Bool) (now id : ℕ) → PoolEvent
  visits : (max_idle_ms now : ℕ) (tenant_id : String) → PoolEvent
  destroys : (id : ℕ) → PoolEvent

abbrev pub pool_after : PoolEvent → Pool → Pool
pool_after (asks now t config) p = (get_tenant_data_source now t config p).1
pool_after (ends connects now id) p = initialize_tenant_data_source connects now id p
pool_after (visits max now t) p = (evict_if_idle max now t p).0
pool_after (destroys id) p = end_destroy id p

unfoldable pub pool_run : List PoolEvent → Pool → Pool
unfolding get_tenant_data_source initialize_tenant_data_source evict_if_idle end_destroy
pool_run [] p = p
pool_run (event ∷ events) p = pool_run events (pool_after event p)

after-IsKept : (event : PoolEvent) (p : Pool) → IsKept p → IsKept (pool_after event p)
after-IsKept (asks now t config) p h = ask-IsKept now t config p h
after-IsKept (ends connects now id) p h = end-IsKept connects now id p h
after-IsKept (visits max now t) p h = evict-IsKept max now t p h
after-IsKept (destroys id) p h = end_destroy-IsKept id p h

pool_run-IsKept : (events : List PoolEvent) (p : Pool) → IsKept p → IsKept (pool_run events p)
unfolding pool_run
pool_run-IsKept [] p h = h
pool_run-IsKept (event ∷ events) p h = pool_run-IsKept events _ (after-IsKept event p h)

empty-IsKept : IsKept empty_pool
unfolding get
empty-IsKept = record {
  own = λ t s e. absurd (cc);
  kept = λ s m. absurd m;
  apart = λ t s e. refl;
  awaited = λ s m. absurd m;
  distinct = λ s r m. absurd m;
  bound = λ s m. absurd m;
  unlike = λ s r m. absurd m;
}

closes-In :
    (entries : Map DataSource) (p : Pool) (s : DataSource)
    → In s (destroy_each entries p).opened
    → In s p.opened × ((k : String) → get k entries ≡ some s → ⊥)
unfolding destroy_each get
closes-In [] p s m = (m, λ k e. cc)
closes-In ((j, source) ∷ entries) p s m =
    let (n, others) = closes-In entries (destroy source p) s m in
    let (left, apart) = without-In source.id p.opened s n in
    (
      left,
      λ k e. elim (Bool-cases (str_eq j k)) [
        | inl same ↦
            let it : source ≡ s = ground (arith, same, e) in
            apart (ap (λ (x : DataSource). x.id) (sym it))
        | inr other ↦ others k (ground (arith, other, e))
      ],
    )

In-nil : (sources : List DataSource) → ((s : DataSource) → In s sources → ⊥) → sources ≡ []
In-nil [] h = refl
In-nil (s ∷ sources) h = absurd (h s (inl refl))

flight-destroy_each :
    (entries : Map DataSource) (p : Pool) → (destroy_each entries p).in_flight ≡ p.in_flight
unfolding destroy_each
flight-destroy_each [] p = refl
flight-destroy_each ((j, source) ∷ entries) p = flight-destroy_each entries (destroy source p)

-- However requests, openings that end or fail, turns of the clean-up and ends of destructions
-- follow each other, shutting the pool down leaves open only what the clean-up is destroying; but
-- each opening that is in flight then goes on, and when it connects its source is open and in the
-- pool, where nothing destroys it.
pub pool_run-on_module_destroy :
    (events : List PoolEvent)
    → let p = pool_run events empty_pool in
      let left = on_module_destroy p in
      (left.opened ≡ [])
      × (left.in_flight ≡ p.in_flight)
      × ((now id : ℕ)
          → is_among id p.in_flight ≡ true
          → (s : DataSource) × (s.id ≡ id)
            × In s (initialize_tenant_data_source true now id left).opened
            × (get s.tenant_id (initialize_tenant_data_source true now id left).pool ≡ some s))
unfolding on_module_destroy initialize_tenant_data_source
pool_run-on_module_destroy events =
    let p = pool_run events empty_pool in
    let h = pool_run-IsKept events empty_pool empty-IsKept in
    let same = flight-destroy_each p.pool p in
    (
      In-nil (destroy_each p.pool p).opened
          (λ s m. let (n, apart) = closes-In p.pool p s m in apart s.tenant_id (h.kept s n)),
      same,
      λ now id flies. elim (find_cases id p.in_flight) [
        | inl (_, not_there) ↦ absurd (ground (arith, flies, not_there))
        | inr (s, e, is, m) ↦
            let found : find id (on_module_destroy p).in_flight ≡ some s = rw same e in
            (
              s,
              is,
              rw (initialize_tenant_data_source, found) (inl refl),
              rw (initialize_tenant_data_source, found)
                  (ground (arith, get-set s.tenant_id s.tenant_id s [], str_eq_refl s.tenant_id)),
            )
      ],
    )

join_or_start-ready :
    (t : String) (config : DbConfig) (p : Pool) (s : DataSource)
    → (join_or_start t config p).0 ≢ ready s
join_or_start-ready t config p s e = elim (Option-cases (get t p.pending_initializations)) [
  | inl is ↦ absurd (ground (arith, is, e))
  | inr (_, is) ↦ absurd (ground (arith, is, e))
]

-- In every run up to the shutdown, a request for the database of a tenant that gets a connection at
-- once gets one that was made for this tenant, is open and is not being destroyed, and one that
-- opens a new connection finds none open for it but those that are being destroyed.
pub pool_run-get_tenant_data_source :
    (events : List PoolEvent) (now : ℕ) (t : String) (config : DbConfig)
    → let p = pool_run events empty_pool in
      ((s : DataSource)
        → (get_tenant_data_source now t config p).0 ≡ ready s
        → (s.tenant_id ≡ t) × In s p.opened)
      × ((get_tenant_data_source now t config p).0 ≡ starts
          → (s : DataSource) → In s p.opened
          → s.tenant_id ≢ t)
pool_run-get_tenant_data_source events now t config =
    let p = pool_run events empty_pool in
    let h = pool_run-IsKept events empty_pool empty-IsKept in
    elim (ask_cases now t config p h) [
      | inl (e, is) ↦ (
        λ s answer. absurd (join_or_start-ready t config p s (ap (λ x. x.0) (sym is) ∙ answer)),
        λ answer s m same. absurd (ground (arith, e, h.kept s m, ap (λ k. get k p.pool) same)),
      )
      | inr (source, e, is) ↦ (
        λ s answer.
            let it : source ≡ s = ground (arith, is, answer) in rw (sym it) (h.own t source e),
        λ answer s m same. ground (arith, is, answer),
      )
    ]
