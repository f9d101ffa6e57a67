-- ===== src/ImportTask.antt =====
-- Import tasks (apps/server/src/import-task): the rows of import-task/domain/import-task.model.ts, with
-- the statuses of common/constants/system.enum.ts, and their table. Times are milliseconds.
pub mod Service
pub mod Worker
mod Examples
use openviking_admin.Prelude.{
  ◌||◌, [], ℕ, String, Bool, true, false, not, ◌&&◌, Option, none, some, List, ◌∷◌, str_eq,
  if◌then◌else◌, truthy, or_else,
}

pub data TaskStatus : Type 0 where
  pending running done failed cancelled : TaskStatus

abbrev pub same_status : TaskStatus → TaskStatus → Bool
same_status pending pending = true
same_status running running = true
same_status done done = true
same_status failed failed = true
same_status cancelled cancelled = true
same_status _ _ = false

pub data ImportTaskSourceType : Type 0 where
  url git local webdav manifest feishu dingtalk : ImportTaskSourceType

-- The columns of who created and updated the task are left out.
pub record ImportTask : Type 0 where
  pub id : String
  pub tenant_id : String
  pub integration_id : String
  pub kb_id : String
  pub source_type : ImportTaskSourceType
  pub source_url : String
  pub source_name : Option String
  pub target_uri : String
  pub auto_created_node_id : Option String
  pub status : TaskStatus
  pub node_count : ℕ
  pub vector_count : ℕ
  pub error_msg : Option String
  pub created_at : ℕ
  pub updated_at : ℕ

abbrev pub of_tenant : Option String → ImportTask → Bool
of_tenant tenant task = not (truthy tenant) || str_eq task.tenant_id (or_else tenant "")

-- `findById`
unfoldable pub find_by_id : String → Option String → List ImportTask → Option ImportTask
find_by_id id tenant [] = none
find_by_id id tenant (task ∷ tasks) =
    if str_eq task.id id && of_tenant tenant task then some task else find_by_id id tenant tasks

-- `update(id, data)`
unfoldable pub update_task : String → (ImportTask → ImportTask) → List ImportTask → List ImportTask
update_task id change [] = []
update_task id change (task ∷ tasks) =
    let rest = update_task id change tasks in
    if str_eq task.id id then change task ∷ rest else task ∷ rest

-- `delete({ id, tenantId })`
unfoldable pub delete_task : String → Option String → List ImportTask → List ImportTask
delete_task id tenant [] = []
delete_task id tenant (task ∷ tasks) =
    let rest = delete_task id tenant tasks in
    if str_eq task.id id && of_tenant tenant task then rest else task ∷ rest
