-- ===== src/ImportTask/Worker.antt =====
-- apps/server/src/import-task/task-worker.service.ts: polling for pending tasks, running them side by
-- side, and taking up those that a stopped process left running. A run is a list of events: what the
-- event loop interleaves, with the answers of the engine and of the databases in the events. A job
-- is a call of `processTask`: `found` until it has marked its task as running, `working` then.
pub mod Slots
pub mod Order
pub mod Zombies
use openviking_admin.Prelude.{
  sort_by, take, ◌||◌, [], ℕ, zero, suc, ◌+◌, ◌-◌, String, Bool, true, false, ◌&&◌, Option, none,
  some, List, ◌∷◌, ◌++◌, str_eq, if◌then◌else◌, ltb, leb,
}
use openviking_admin.ImportTask.{
  TaskStatus, pending, running, done, failed, same_status, ImportTask, update_task,
}

-- `QUEUE_CONFIG.GLOBAL_MAX_CONCURRENCY`
abbrev pub global_max_concurrency : ℕ
global_max_concurrency = 5

pub data Phase : Type 0 where
  found working : Phase

pub record Job : Type 0 where
  pub task : ImportTask
  pub phase : Phase

-- `read` is what a poll has found, between its query and its start of tasks.
pub record WorkerState : Type 0 where
  pub current_concurrency : ℕ
  pub is_polling : Bool
  pub read : Option (List ImportTask)
  pub jobs : List Job
  pub tasks : List ImportTask

-- `.sort((a, b) => a.createdAt.getTime() - b.createdAt.getTime())`, which is stable.
unfoldable pub sort_by_created_at : List ImportTask → List ImportTask
unfolding sort_by
sort_by_created_at tasks = sort_by (λ task. task.created_at) tasks

-- The rows of one tenant with a status, `order: { createdAt: 'ASC' }`.
unfoldable pub of_tenant_with_status : String → TaskStatus → List ImportTask → List ImportTask
of_tenant_with_status tenant status [] = []
of_tenant_with_status tenant status (task ∷ tasks) =
    let rest = of_tenant_with_status tenant status tasks in
    if str_eq task.tenant_id tenant && same_status task.status status then task ∷ rest else rest

-- The active tenants, in order, whose database can be reached; the others are skipped.
unfoldable pub find_tasks_by_status : List String → TaskStatus → List ImportTask → List ImportTask
unfolding of_tenant_with_status sort_by_created_at
find_tasks_by_status [] status tasks = []
find_tasks_by_status (tenant ∷ tenants) status tasks =
    sort_by_created_at (of_tenant_with_status tenant status tasks)
    ++ find_tasks_by_status tenants status tasks

-- The loop over the tasks that were found.
unfoldable pub recover : ℕ → List ImportTask → List ImportTask → List ImportTask
unfolding update_task
recover now [] tasks = tasks
recover now (zombie ∷ zombies) tasks =
    recover now zombies
      (update_task zombie.id (λ task. record task { status = pending; updated_at = now }) tasks)

unfoldable pub recover_zombie_tasks : ℕ → List String → List ImportTask → List ImportTask
unfolding recover find_tasks_by_status
recover_zombie_tasks now tenants tasks =
    recover now (find_tasks_by_status tenants running tasks) tasks

unfoldable pub poll : WorkerState → WorkerState
poll w =
    if w.is_polling || leb global_max_concurrency w.current_concurrency
    then w
    else record w { is_polling = true }

-- `processTask`, up to its first wait.
abbrev pub start_task : ImportTask → WorkerState → WorkerState
start_task task w = record w {
  current_concurrency = w.current_concurrency + 1;
  jobs = w.jobs ++ (record { task = task; phase = found } ∷ []);
}

unfoldable pub start_tasks : List ImportTask → WorkerState → WorkerState
start_tasks [] w = w
start_tasks (task ∷ tasks) w =
    let next = if ltb w.current_concurrency global_max_concurrency then start_task task w else w in
    start_tasks tasks next

unfoldable pub pending_tasks : List ImportTask → ℕ → List ImportTask
unfolding sort_by_created_at take
pending_tasks tasks current_concurrency =
    take (global_max_concurrency - current_concurrency) (sort_by_created_at tasks)

-- The poll goes on with what it has read, and ends.
unfoldable pub finish_poll : WorkerState → WorkerState
unfolding pending_tasks start_tasks
finish_poll w = elim w.read [
  | none ↦ w
  | some tasks ↦ record (start_tasks (pending_tasks tasks w.current_concurrency) w) {
    is_polling = false;
    read = none;
  }
]

abbrev pub job_at : ℕ → List Job → Option Job
job_at n [] = none
job_at zero (job ∷ jobs) = some job
job_at (suc n) (job ∷ jobs) = job_at n jobs

abbrev pub without_job : ℕ → List Job → List Job
without_job n [] = []
without_job zero (job ∷ jobs) = jobs
without_job (suc n) (job ∷ jobs) = job ∷ without_job n jobs

abbrev pub with_working : ℕ → List Job → List Job
with_working n [] = []
with_working zero (job ∷ jobs) = record job { phase = working } ∷ jobs
with_working (suc n) (job ∷ jobs) = job ∷ with_working n jobs

-- The end of `processTask`, with what it wrote to the row of its task.
abbrev pub end_job : ℕ → (ImportTask → ImportTask) → Job → WorkerState → WorkerState
end_job n change job w = record w {
  current_concurrency = w.current_concurrency - 1;
  jobs = without_job n w.jobs;
  tasks = update_task job.task.id change w.tasks;
}

abbrev pub marked : ℕ → TaskStatus → ImportTask → ImportTask
marked now status task = record task { status = status; updated_at = now }

abbrev pub imported : ℕ → ℕ × ℕ → ImportTask → ImportTask
imported now stats task = record task {
  status = done;
  node_count = stats.0;
  vector_count = stats.1;
  updated_at = now;
}

-- `markTaskFailed`
abbrev pub mark_failed : ℕ → String → ImportTask → ImportTask
mark_failed now message task = record task {
  status = failed;
  node_count = 0;
  vector_count = 0;
  error_msg = some message;
  updated_at = now;
}

pub data Event : Type 0 where
  polls : Event
  -- The query of a poll: the tenants that answer, and the query that throws.
  reads : (tenants : List String) → Event
  read_fails : Event
  goes_on : Event
  -- A job marks its task, imports it, fails with a message, or fails without a word to the database.
  marks : (job now : ℕ) → Event
  imports : (job now : ℕ) (stats : ℕ × ℕ) → Event
  breaks : (job now : ℕ) (message : String) → Event
  vanishes : (job : ℕ) → Event
  -- A request changes the table.
  requests : (change : List ImportTask → List ImportTask) → Event

abbrev pub is_working : Phase → Bool
is_working working = true
is_working found = false

-- An event that cannot happen in a state changes nothing.
unfoldable pub handle : Event → WorkerState → WorkerState
unfolding poll find_tasks_by_status finish_poll update_task
handle polls w = poll w
handle (reads tenants) w =
    if w.is_polling
    then record w { read = some (find_tasks_by_status tenants pending w.tasks) }
    else w
handle read_fails w = if w.is_polling then record w { is_polling = false; read = none } else w
handle goes_on w = finish_poll w
handle (marks n now) w = elim (job_at n w.jobs) [
  | none ↦ w
  | some job ↦ record w {
    jobs = with_working n w.jobs;
    tasks = update_task job.task.id (marked now running) w.tasks;
  }
]
handle (imports n now stats) w = elim (job_at n w.jobs) [
  | none ↦ w
  | some job ↦ if is_working job.phase then end_job n (imported now stats) job w else w
]
handle (breaks n now message) w = elim (job_at n w.jobs) [
  | none ↦ w
  | some job ↦ end_job n (mark_failed now message) job w
]
handle (vanishes n) w = elim (job_at n w.jobs) [
  | none ↦ w
  | some job ↦ end_job n (λ task. task) job w
]
handle (requests change) w = record w { tasks = change w.tasks }

abbrev pub run : List Event → WorkerState → WorkerState
run [] w = w
run (event ∷ events) w = run events (handle event w)
