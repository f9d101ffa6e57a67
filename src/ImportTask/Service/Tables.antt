-- ===== src/ImportTask/Service/Tables.antt =====
-- The table of tasks after each request.
use openviking_admin.Prelude.{
  ℕ, String, ◌≡◌, refl, ap, ◌∙◌, ◌⊎◌, inl, inr, true, ◌&&◌, Option, some, List, arith, Bool-cases,
  Option-cases, ok, Result-cases,
}
use openviking_admin.ImportTask.{TaskStatus, ImportTask, find_by_id, update_task, delete_task}
use openviking_admin.ImportTask.Service.{
  Environment, ImportState, find_task, synced, resolve_retry_sync_status,
  sync_task_from_open_viking_before_retry, requeued, is_retryable, is_failed, retry, cancelled_task,
  is_pending, cancel, is_deletable, delete_failed,
}
use openviking_admin.ImportTask.Service.Lookups.{find_task-id, update_task-update_task}

module _ (env : Environment) (id : String) (tenant : Option String) where
  pub sync_tasks :
      (task : ImportTask) (tasks : List ImportTask)
      → ((sync_task_from_open_viking_before_retry env task tasks).1 ≡ tasks)
        ⊎ ((stats : ℕ × ℕ) × (status : TaskStatus) × (resolve_retry_sync_status stats ≡ some status)
            × ((sync_task_from_open_viking_before_retry env task tasks).1
                ≡ update_task task.id (synced env.now status stats) tasks))
  unfolding sync_task_from_open_viking_before_retry
  sync_tasks task tasks = elim (Option-cases (env.stats task)) [
    | inl e ↦ inl (ground (arith, e))
    | inr (stats, e) ↦ elim (Option-cases (resolve_retry_sync_status stats)) [
      | inl f ↦ inl (ground (arith, e, f))
      | inr (status, f) ↦ inr (stats, status, f, ground (arith, e, f))
    ]
  ]

  pub retry_tasks :
      (s : ImportState)
      → ((retry env id tenant s).1.tasks ≡ s.tasks)
        ⊎ ((task : ImportTask) × (find_task env id tenant s.tasks ≡ ok task)
            × (is_retryable task.status ≡ true)
            × (((retry env id tenant s).1.tasks
                  ≡ (sync_task_from_open_viking_before_retry env task s.tasks).1)
                ⊎ ((retry env id tenant s).1.tasks
                    ≡ update_task id
                        (requeued env.now)
                        (sync_task_from_open_viking_before_retry env task s.tasks).1)))
  unfolding retry
  retry_tasks s = elim (Result-cases (find_task env id tenant s.tasks)) [
    | inr (e, f) ↦ inl (ground (arith, f))
    | inl (task, f) ↦ elim (Bool-cases (is_retryable task.status)) [
      | inr barred ↦ inl (ground (arith, f, barred))
      | inl may ↦ elim (Option-cases (sync_task_from_open_viking_before_retry env task s.tasks).0) [
        | inr (found, g) ↦ inr (task, f, may, inl (ground (arith, f, may, g)))
        | inl g ↦ elim (Bool-cases (is_failed task.status && env.clear_fails task)) [
          | inl fails ↦ inr (task, f, may, inl (ground (arith, f, may, g, fails)))
          | inr clears ↦ inr (task, f, may, inr (ground (arith, f, may, g, clears)))
        ]
      ]
    ]
  ]

  pub requeued_tasks :
      (s : ImportState) (task : ImportTask)
      → find_by_id id tenant s.tasks ≡ some task
      → update_task id
          (requeued env.now)
          (sync_task_from_open_viking_before_retry env task s.tasks).1
        ≡ update_task id (requeued env.now) s.tasks
  requeued_tasks s task found = elim (sync_tasks task s.tasks) [
    | inl same ↦ ap (update_task id (requeued env.now)) same
    | inr (stats, status, resolved, e) ↦
        ap (update_task id (requeued env.now)) (
          e
          ∙ ap (λ k. update_task k (synced env.now status stats) s.tasks)
              (find_task-id env id tenant s.tasks task found))
        ∙ update_task-update_task env id tenant (requeued env.now) (synced env.now status stats)
            s.tasks (λ t. refl) (λ t. refl)
  ]

  pub cancel_tasks :
      (s : ImportState)
      → ((cancel env id tenant s).1.tasks ≡ s.tasks)
        ⊎ ((task : ImportTask) × (find_task env id tenant s.tasks ≡ ok task)
            × (is_pending task.status ≡ true)
            × ((cancel env id tenant s).1.tasks ≡ update_task id (cancelled_task env.now) s.tasks))
  unfolding cancel
  cancel_tasks s = elim (Result-cases (find_task env id tenant s.tasks)) [
    | inr (e, f) ↦ inl (ground (arith, f))
    | inl (task, f) ↦ elim (Bool-cases (is_pending task.status)) [
      | inr barred ↦ inl (ground (arith, f, barred))
      | inl may ↦ inr (task, f, may, ground (arith, f, may))
    ]
  ]

  pub delete_tasks :
      (s : ImportState)
      → ((delete_failed env id tenant s).1.tasks ≡ s.tasks)
        ⊎ ((task : ImportTask) × (find_task env id tenant s.tasks ≡ ok task)
            × (is_deletable task.status ≡ true)
            × ((delete_failed env id tenant s).1.tasks ≡ delete_task id tenant s.tasks))
  unfolding delete_failed
  delete_tasks s = elim (Result-cases (find_task env id tenant s.tasks)) [
    | inr (e, f) ↦ inl (ground (arith, f))
    | inl (task, f) ↦ elim (Bool-cases (is_deletable task.status)) [
      | inr barred ↦ inl (ground (arith, f, barred))
      | inl may ↦ elim (Bool-cases (env.cleanup_fails task)) [
        | inl fails ↦ inl (ground (arith, f, may, fails))
        | inr works ↦ inr (task, f, may, ground (arith, f, may, works))
      ]
    ]
  ]
