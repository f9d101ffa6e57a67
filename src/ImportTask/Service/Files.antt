-- ===== src/ImportTask/Service/Files.antt =====
-- The uploaded file of a local task, and the requests that outlive it.
use openviking_admin.Prelude.{
  String, ◌≡◌, refl, ap, ◌∙◌, inl, inr, true, Option, none, some, List, [], ◌∷◌, arith, eq_iff,
  str_eq, str_eq_refl, Bool-cases, ok, In,
}
use openviking_admin.ImportTask.{cancelled, ImportTask, find_by_id, update_task}
use openviking_admin.ImportTask.Service.{
  Environment, ImportState, find_task, sync_task_from_open_viking_before_retry, requeued, is_local,
  without, delete_by_source_url, delete_local_file, retry, cancelled_task, is_pending, cancel,
}
use openviking_admin.ImportTask.Service.Lookups.{
  find_by_id-update_task, find_task-found, update_task-update_task,
}

without_gone : (file : String) (files : List String) → In file (without file files) → ⊥
without_gone file [] m = m
without_gone file (f ∷ files) m = elim (Bool-cases (str_eq f file)) [
  | inl same ↦ without_gone file files (rw same at m)
  | inr other ↦ elim (rw other at m) as (λ _. ⊥) [
    | inl e ↦ ground (arith, e, other, eq_iff f file)
    | inr n ↦ without_gone file files n
  ]
]

ap_In : (x : String) {xs ys : List String} → xs ≡ ys → In x xs → In x ys
ap_In x e m = rw e at m

module _ (env : Environment) (id : String) (tenant : Option String) (s : ImportState)
    (task : ImportTask) (found : find_task env id tenant s.tasks ≡ ok task)
    (of_file : is_local task.source_type ≡ true)
    (managed : env.is_managed_file_url task.source_url ≡ true)
    (unlinked : env.unlinks task.source_url ≡ true) where
  file_gone : In task.source_url (delete_local_file env task s.files) → ⊥
  unfolding delete_by_source_url
  file_gone m =
      let same : delete_local_file env task s.files ≡ without task.source_url s.files =
        ground (arith, of_file, managed, unlinked) in
      without_gone task.source_url s.files (rw same at m)

  cancel_run :
      is_pending task.status ≡ true
      → (cancel env id tenant s).1 ≡ record {
        tasks = update_task id (cancelled_task env.now) s.tasks;
        files = delete_local_file env task s.files;
      }
  unfolding cancel
  cancel_run may = ground (arith, found, may)

retry_files :
    (env : Environment) (id : String) (tenant : Option String) (s : ImportState)
    → (retry env id tenant s).1.files ≡ s.files
unfolding retry
retry_files env id tenant s = ground arith

retry_run :
    (env : Environment) (id : String) (tenant : Option String) (s : ImportState) (task : ImportTask)
    → find_task env id tenant s.tasks ≡ ok task
    → task.status ≡ cancelled
    → env.stats task ≡ none
    → (retry env id tenant s).1.tasks ≡ update_task id (requeued env.now) s.tasks
unfolding retry sync_task_from_open_viking_before_retry
retry_run env id tenant s task found status stats = ground (arith, found, status, stats)

module _ (env : Environment) (id : String) (tenant : Option String) (s : ImportState)
    (task : ImportTask) (found : find_task env id tenant s.tasks ≡ ok task)
    (of_file : is_local task.source_type ≡ true)
    (managed : env.is_managed_file_url task.source_url ≡ true)
    (unlinked : env.unlinks task.source_url ≡ true) where
  find_after_cancel :
      env.access ≡ none
      → find_task env id tenant (update_task id (cancelled_task env.now) s.tasks)
        ≡ ok (cancelled_task env.now task)
  unfolding find_task
  find_after_cancel open_to_all = ground (
    arith,
    open_to_all,
    str_eq_refl id,
    find_task-found env id tenant s.tasks task found,
    find_by_id-update_task tenant (cancelled_task env.now) id id s.tasks (λ t. (refl, refl)),
  )

  -- A pending task of a managed upload whose file can be deleted, and which is cancelled and then
  -- retried, where the engine cannot be asked about it and no access context is given, is pending
  -- again, and its file is gone.
  pub cancel_then_retry :
      is_pending task.status ≡ true
      → env.access ≡ none
      → env.stats (cancelled_task env.now task) ≡ none
      → (find_by_id id tenant (retry env id tenant (cancel env id tenant s).1).1.tasks
          ≡ some (requeued env.now task))
        × (In task.source_url (retry env id tenant (cancel env id tenant s).1).1.files → ⊥)
  cancel_then_retry may open_to_all unknown =
      let cancelled_state : ImportState = record {
        tasks = update_task id (cancelled_task env.now) s.tasks;
        files = delete_local_file env task s.files;
      } in
      let run : (cancel env id tenant s).1 ≡ cancelled_state =
        cancel_run env id tenant s task found of_file managed unlinked may in
      (
        ap (λ (u : ImportState). find_by_id id tenant (retry env id tenant u).1.tasks) run
            ∙ ap (find_by_id id tenant) (
                retry_run env id tenant cancelled_state (cancelled_task env.now task)
                  (find_after_cancel open_to_all) refl unknown
                ∙ update_task-update_task env id tenant (requeued env.now) (cancelled_task env.now)
                    s.tasks (λ t. refl) (λ t. refl))
            ∙ ground (
              arith,
              str_eq_refl id,
              find_task-found env id tenant s.tasks task found,
              find_by_id-update_task tenant (requeued env.now) id id s.tasks (λ t. (refl, refl)),
            ),
        λ m. file_gone env id tenant s task found of_file managed unlinked (
            ap_In task.source_url
              (ap (λ (u : ImportState). (retry env id tenant u).1.files) run
                ∙ retry_files env id tenant cancelled_state)
              m),
      )
