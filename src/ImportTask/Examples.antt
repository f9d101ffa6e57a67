-- ===== src/ImportTask/Examples.antt =====
-- Tests of import tasks, and the theorems at concrete tasks.
use openviking_admin.Prelude.{
  take, insert_by, sort_by, ℕ, String, ◌≡◌, refl, true, false, Option, none, some, List, [], ◌∷◌,
  arith, In,
}
use openviking_admin.ImportTask.{
  TaskStatus, pending, running, failed, local, ImportTask, find_by_id, update_task,
}
use openviking_admin.ImportTask.Service.{
  Environment, ImportState, find_task, requeued, cancel, retry,
  sync_task_from_open_viking_before_retry,
}
use openviking_admin.ImportTask.Service.Files.{cancel_then_retry}
use openviking_admin.ImportTask.Worker.{
  WorkerState, Event, polls, reads, goes_on, marks, requests, handle, run, poll,
  find_tasks_by_status, of_tenant_with_status, sort_by_created_at, finish_poll, pending_tasks,
  start_tasks,
}
use openviking_admin.ImportTask.Worker.Slots.{HasSlots, run-HasSlots}

abbrev task : String → TaskStatus → ℕ → ImportTask
task id status created_at = record {
  id = id;
  tenant_id = "t";
  integration_id = "";
  kb_id = "kb";
  source_type = local;
  source_url = "file:///managed/a.md";
  source_name = none;
  target_uri = "viking://resources/a";
  auto_created_node_id = none;
  status = status;
  node_count = 0;
  vector_count = 0;
  error_msg = none;
  created_at = created_at;
  updated_at = created_at;
}

abbrev env : Environment
env = record {
  now = 9;
  access = none;
  stats = λ t. none;
  refresh_fails = λ t. false;
  clear_fails = λ t. false;
  cleanup_fails = λ t. true;
  is_managed_file_url = λ url. true;
  unlinks = λ url. true;
}

abbrev state : TaskStatus → ImportState
state status = record { tasks = task "a" status 1 ∷ []; files = "file:///managed/a.md" ∷ [] }

retried : (retry env "a" (some "t") (state failed)).1.tasks ≡ requeued 9 (task "a" failed 1) ∷ []
unfolding retry find_task find_by_id sync_task_from_open_viking_before_retry update_task
retried = refl

cancel_then_retry_example :
    (find_by_id "a"
        (some "t")
        (retry env "a" (some "t") (cancel env "a" (some "t") (state pending)).1).1.tasks
      ≡ some (requeued 9 (task "a" pending 1)))
    × (In "file:///managed/a.md"
          (retry env "a" (some "t") (cancel env "a" (some "t") (state pending)).1).1.files
        → ⊥)
unfolding find_task find_by_id
cancel_then_retry_example =
    cancel_then_retry env "a" (some "t") (state pending) (task "a" pending 1) refl refl refl refl
      refl refl refl

abbrev idle : WorkerState
idle = record {
  current_concurrency = 0;
  is_polling = false;
  read = none;
  jobs = [];
  tasks = task "b" pending 2 ∷ task "a" pending 1 ∷ [];
}

abbrev cancels_a : List ImportTask → List ImportTask
cancels_a tasks = (cancel env "a" (some "t") (record { tasks = tasks; files = [] })).1.tasks

-- A task that is cancelled after a poll has picked it runs all the same.
abbrev events : List Event
events = polls ∷ reads ("t" ∷ []) ∷ goes_on ∷ requests cancels_a ∷ marks 0 7 ∷ []

abbrev status_of : Option ImportTask → Option TaskStatus
status_of none = none
status_of (some t) = some t.status

cancelled_task_runs : status_of (find_by_id "a" (some "t") (run events idle).tasks) ≡ some running
unfolding handle poll find_tasks_by_status of_tenant_with_status sort_by_created_at sort_by
    insert_by take finish_poll pending_tasks start_tasks cancel find_task find_by_id update_task
cancelled_task_runs = refl

run-HasSlots_example : HasSlots (run events idle)
run-HasSlots_example = run-HasSlots events idle (record { counted = refl; bounded = omega arith })
