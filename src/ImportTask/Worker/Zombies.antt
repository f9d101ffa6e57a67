-- ===== src/ImportTask/Worker/Zombies.antt =====
-- What a start of the worker makes of the tasks that a stopped process left running.
use openviking_admin.Prelude.{
  ℕ, String, ◌≡◌, sym, ap, ◌≢◌, inl, inr, true, ◌&&◌, List, [], ◌∷◌, arith, eq_iff, str_eq,
  str_eq_refl, Bool-cases, In, In-append_left, In-append_right,
}
use openviking_admin.ImportTask.{pending, running, same_status, ImportTask, update_task}
use openviking_admin.ImportTask.Worker.{
  sort_by_created_at, of_tenant_with_status, find_tasks_by_status, recover,
}
use openviking_admin.ImportTask.Worker.Order.{In-sort_by_created_at}

pub In-of_tenant_with_status :
    (tenant : String) (y : ImportTask) (tasks : List ImportTask)
    → In y tasks
    → y.tenant_id ≡ tenant
    → y.status ≡ running
    → In y (of_tenant_with_status tenant running tasks)
unfolding of_tenant_with_status
In-of_tenant_with_status tenant y [] m t r = absurd m
In-of_tenant_with_status tenant y (task ∷ tasks) (inl e) t r =
    let matches : (str_eq task.tenant_id tenant && same_status task.status running) ≡ true =
      ground (arith, ap (λ z. z.tenant_id) e, t, ap (λ z. z.status) e, r, str_eq_refl tenant) in
    rw matches (inl e)
In-of_tenant_with_status tenant y (task ∷ tasks) (inr m) t r =
    let rest = In-of_tenant_with_status tenant y tasks m t r in
    elim (Bool-cases (str_eq task.tenant_id tenant && same_status task.status running)) [
      | inl match ↦ rw match (inr rest)
      | inr other ↦ rw other rest
    ]

In-find_tasks_by_status :
    (tenants : List String) (y : ImportTask) (tasks : List ImportTask)
    → In y tasks
    → In y.tenant_id tenants
    → y.status ≡ running
    → In y (find_tasks_by_status tenants running tasks)
unfolding find_tasks_by_status
In-find_tasks_by_status [] y tasks m t r = absurd t
In-find_tasks_by_status (tenant ∷ tenants) y tasks m (inl e) r =
    In-append_left y (sort_by_created_at (of_tenant_with_status tenant running tasks)) _ (
      (In-sort_by_created_at y (of_tenant_with_status tenant running tasks)).1
        (In-of_tenant_with_status tenant y tasks m (sym e) r))
In-find_tasks_by_status (tenant ∷ tenants) y tasks m (inr t) r =
    In-append_right y (sort_by_created_at (of_tenant_with_status tenant running tasks)) _
      (In-find_tasks_by_status tenants y tasks m t r)

abbrev requeue : ℕ → ImportTask → ImportTask
requeue now task = record task { status = pending; updated_at = now }

running_after_update :
    (now : ℕ) (id : String) (y : ImportTask) (tasks : List ImportTask)
    → In y (update_task id (requeue now) tasks)
    → y.status ≡ running
    → In y tasks × (y.id ≢ id)
unfolding update_task
running_after_update now id y [] m r = absurd m
running_after_update now id y (task ∷ tasks) m r = elim (Bool-cases (str_eq task.id id)) [
  | inl hit ↦ elim (rw hit at m) as (λ _. In y (task ∷ tasks) × (y.id ≢ id)) [
    | inl e ↦ absurd (ground (arith, ap (λ z. z.status) e, r))
    | inr n ↦ let (k, d) = running_after_update now id y tasks n r in (inr k, d)
  ]
  | inr miss ↦ elim (rw miss at m) as (λ _. In y (task ∷ tasks) × (y.id ≢ id)) [
    | inl e ↦ (inl e, λ same. ground (arith, miss, eq_iff task.id id, ap (λ z. z.id) e, same))
    | inr n ↦ let (k, d) = running_after_update now id y tasks n r in (inr k, d)
  ]
]

running_after_recover :
    (now : ℕ) (zombies : List ImportTask) (y : ImportTask) (tasks : List ImportTask)
    → In y (recover now zombies tasks)
    → y.status ≡ running
    → In y tasks × (In y zombies → ⊥)
unfolding recover
running_after_recover now [] y tasks m r = (m, λ z. z)
running_after_recover now (zombie ∷ zombies) y tasks m r =
    let (there, others) =
      running_after_recover now zombies y (update_task zombie.id (requeue now) tasks) m r in
    let (before, d) = running_after_update now zombie.id y tasks there r in
    (before, λ z. elim z [ inl e ↦ d (ap (λ t. t.id) (sym e)) | inr n ↦ others n ])
