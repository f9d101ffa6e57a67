-- ===== src/ImportTask/Service.antt =====
-- apps/server/src/import-task/import-task.service.ts: retrying, cancelling and deleting a task. The
-- environment answers for the access check, the statistics of the engine (`none` is an error) and
-- the calls that may fail; a message of a log is left out. `files` are the uploaded files, by URL.
pub mod Lookups
pub mod Tables
pub mod Transitions
pub mod Files
use openviking_admin.Prelude.{
  [], ℕ, String, Bool, true, false, not, ◌&&◌, Option, none, some, List, ◌∷◌, str_eq, if◌then◌else◌,
  truthy, Result, ok, err, ltb,
}
use openviking_admin.ImportTask.{
  TaskStatus, pending, running, done, failed, cancelled, ImportTaskSourceType, local, ImportTask,
  find_by_id, update_task, delete_task,
}

pub record Environment : Type 0 where
  pub now : ℕ
  -- Set when an access context was given: the tasks that it may use.
  pub access : Option (ImportTask → Bool)
  -- `nodeCount` and `vectorCount`
  pub stats : ImportTask → Option (ℕ × ℕ)
  pub refresh_fails : ImportTask → Bool
  pub clear_fails : ImportTask → Bool
  -- Removing the node, the resources and the figures of the task.
  pub cleanup_fails : ImportTask → Bool
  pub is_managed_file_url : String → Bool
  -- Whether `unlink` deletes the file.
  pub unlinks : String → Bool

pub record ImportState : Type 0 where
  pub tasks : List ImportTask
  pub files : List String

pub data TaskError : Type 0 where
  not_found : TaskError
  forbidden : TaskError
  conflict : TaskError
  engine_failed : TaskError

abbrev pub may_access : Environment → Option String → ImportTask → Bool
may_access env tenant task =
    if truthy tenant then elim env.access [ none ↦ true | some allowed ↦ allowed task ] else true

unfoldable pub find_task :
    Environment → String → Option String → List ImportTask → Result TaskError ImportTask
unfolding find_by_id
find_task env id tenant tasks = elim (find_by_id id tenant tasks) [
  | none ↦ err not_found
  | some task ↦ if may_access env tenant task then ok task else err forbidden
]

abbrev pub without : String → List String → List String
without file [] = []
without file (f ∷ files) = let rest = without file files in if str_eq f file then rest else f ∷ rest

-- `deleteBySourceUrl`, which only logs when the file cannot be deleted.
unfoldable pub delete_by_source_url : Environment → String → List String → List String
delete_by_source_url env source_url files =
    if env.is_managed_file_url source_url && env.unlinks source_url
    then without source_url files
    else files

abbrev pub is_local : ImportTaskSourceType → Bool
is_local local = true
is_local _ = false

abbrev pub delete_local_file : Environment → ImportTask → List String → List String
delete_local_file env task files =
    if is_local task.source_type then delete_by_source_url env task.source_url files else files

unfoldable pub resolve_retry_sync_status : ℕ × ℕ → Option TaskStatus
resolve_retry_sync_status (node_count, vector_count) =
    if ltb 0 vector_count then some done else if ltb 0 node_count then some running else none

abbrev pub synced : ℕ → TaskStatus → ℕ × ℕ → ImportTask → ImportTask
synced now status stats task = record task {
  status = status;
  error_msg = none;
  node_count = stats.0;
  vector_count = stats.1;
  updated_at = now;
}

-- The task as it was synced, and the table. A call that fails is logged, and nothing is returned.
unfoldable pub sync_task_from_open_viking_before_retry :
    Environment → ImportTask → List ImportTask → Option ImportTask × List ImportTask
unfolding resolve_retry_sync_status update_task find_by_id
sync_task_from_open_viking_before_retry env task tasks = elim (env.stats task) [
  | none ↦ (none, tasks)
  | some stats ↦ elim (resolve_retry_sync_status stats) [
    | none ↦ (none, tasks)
    | some status ↦
        let updated = update_task task.id (synced env.now status stats) tasks in
        if env.refresh_fails task
        then (none, updated)
        else (find_by_id task.id (some task.tenant_id) updated, updated)
  ]
]

abbrev pub requeued : ℕ → ImportTask → ImportTask
requeued now task = record task {
  status = pending;
  error_msg = none;
  node_count = 0;
  vector_count = 0;
  updated_at = now;
}

abbrev pub is_retryable : TaskStatus → Bool
is_retryable failed = true
is_retryable cancelled = true
is_retryable _ = false

abbrev pub is_failed : TaskStatus → Bool
is_failed failed = true
is_failed _ = false

unfoldable pub retry :
    Environment → String → Option String → ImportState → Result TaskError ImportTask × ImportState
unfolding find_task sync_task_from_open_viking_before_retry update_task
retry env id tenant s = elim (find_task env id tenant s.tasks) [
  | err e ↦ (err e, s)
  | ok task ↦
      if not (is_retryable task.status)
      then (err conflict, s)
      else let (found, tasks) = sync_task_from_open_viking_before_retry env task s.tasks in
        let requeued_tasks = update_task id (requeued env.now) tasks in
        elim found [
          | some synced_task ↦ (
            elim env.access [ none ↦ ok synced_task | some _ ↦ find_task env id tenant tasks ],
            record s { tasks = tasks },
          )
          | none ↦
              if is_failed task.status && env.clear_fails task
              then (err engine_failed, record s { tasks = tasks })
              else (find_task env id tenant requeued_tasks, record s { tasks = requeued_tasks })
        ]
]

abbrev pub cancelled_task : ℕ → ImportTask → ImportTask
cancelled_task now task = record task {
  status = cancelled;
  error_msg = some "用户已取消排队任务";
  updated_at = now;
}

abbrev pub is_pending : TaskStatus → Bool
is_pending pending = true
is_pending _ = false

-- A running task has its own message; both are conflicts.
unfoldable pub cancel :
    Environment → String → Option String → ImportState → Result TaskError ImportTask × ImportState
unfolding find_task update_task delete_by_source_url
cancel env id tenant s = elim (find_task env id tenant s.tasks) [
  | err e ↦ (err e, s)
  | ok task ↦
      if not (is_pending task.status)
      then (err conflict, s)
      else let tasks = update_task id (cancelled_task env.now) s.tasks in
        (
          find_task env id tenant tasks,
          record { tasks = tasks; files = delete_local_file env task s.files },
        )
]

abbrev pub is_deletable : TaskStatus → Bool
is_deletable failed = true
is_deletable done = true
is_deletable _ = false

-- The transaction is rolled back when a step of it throws; the file is deleted before it.
unfoldable pub delete_failed :
    Environment → String → Option String → ImportState → Result TaskError ImportTask × ImportState
unfolding find_task delete_by_source_url delete_task
delete_failed env id tenant s = elim (find_task env id tenant s.tasks) [
  | err e ↦ (err e, s)
  | ok task ↦
      if not (is_deletable task.status)
      then (err conflict, s)
      else let t : ImportState = record s { files = delete_local_file env task s.files } in
        if env.cleanup_fails task
        then (err engine_failed, t)
        else (ok task, record t { tasks = delete_task id tenant s.tasks })
]
