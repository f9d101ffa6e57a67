-- ===== src/ImportTask/Service/Transitions.antt =====
-- The life cycle of a task: the changes that requests make.
use openviking_admin.Prelude.{ℕ, String, ◌≡◌, Option, none, some, ◌⊎◌, ◌<◌}
use openviking_admin.ImportTask.{pending, running, done, failed, cancelled, ImportTask}
use openviking_admin.ImportTask.Service.{Environment, ImportState, retry, cancel, delete_failed}

-- The requests that change a task.
pub data Request : Type 0 where
  retries cancelling deleting : (id : String) → Request

-- What a request may do to a task.
pub data Move (now : ℕ) : Request → Option ImportTask → Option ImportTask → Type 0 where
  stays : (request : Request) (o : Option ImportTask) → Move now request o o
  cancels :
      (id : String) (task : ImportTask)
      → task.status ≡ pending
      → Move now (cancelling id) (some task) (
          some (record task { status = cancelled; error_msg = some "用户已取消排队任务"; updated_at = now }))
  requeues :
      (id : String) (task : ImportTask)
      → (task.status ≡ failed) ⊎ (task.status ≡ cancelled)
      → Move now (retries id) (some task) (
          some (record task {
            status = pending;
            error_msg = none;
            node_count = 0;
            vector_count = 0;
            updated_at = now;
          }))
  finds_done :
      (id : String) (task : ImportTask) (nodes vectors : ℕ)
      → (task.status ≡ failed) ⊎ (task.status ≡ cancelled)
      → 0 < vectors
      → Move now (retries id) (some task) (
          some (record task {
            status = done;
            error_msg = none;
            node_count = nodes;
            vector_count = vectors;
            updated_at = now;
          }))
  finds_running :
      (id : String) (task : ImportTask) (nodes : ℕ)
      → (task.status ≡ failed) ⊎ (task.status ≡ cancelled)
      → 0 < nodes
      → Move now (retries id) (some task) (
          some (record task {
            status = running;
            error_msg = none;
            node_count = nodes;
            vector_count = 0;
            updated_at = now;
          }))
  deletes :
      (id : String) (task : ImportTask)
      → (task.status ≡ failed) ⊎ (task.status ≡ done)
      → Move now (deleting id) (some task) none

abbrev pub handle_request : Environment → Option String → Request → ImportState → ImportState
handle_request env tenant (retries id) s = (retry env id tenant s).1
handle_request env tenant (cancelling id) s = (cancel env id tenant s).1
handle_request env tenant (deleting id) s = (delete_failed env id tenant s).1
