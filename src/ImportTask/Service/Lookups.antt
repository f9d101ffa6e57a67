-- ===== src/ImportTask/Service/Lookups.antt =====
-- What the table of tasks answers after a write.
use openviking_admin.Prelude.{
  String, ◌≡◌, refl, Option, none, some, List, [], ◌∷◌, arith, eq_iff, str_eq, if◌then◌else◌, ok,
}
use openviking_admin.ImportTask.{ImportTask, find_by_id, update_task, delete_task}
use openviking_admin.ImportTask.Service.{Environment, find_task}

abbrev pub map_option : (ImportTask → ImportTask) → Option ImportTask → Option ImportTask
map_option f none = none
map_option f (some task) = some (f task)

-- A change of the columns that neither the key nor the tenant are.
abbrev pub KeepsKeys : (ImportTask → ImportTask) → Type 0
KeepsKeys f = (task : ImportTask) → ((f task).id ≡ task.id) × ((f task).tenant_id ≡ task.tenant_id)

module _ (tenant : Option String) where
  pub find_by_id-update_task :
      (f : ImportTask → ImportTask) (id j : String) (tasks : List ImportTask)
      → KeepsKeys f
      → find_by_id j tenant (update_task id f tasks) ≡ (
          if str_eq id j
          then map_option f (find_by_id j tenant tasks)
          else find_by_id j tenant tasks)
  unfolding find_by_id update_task
  find_by_id-update_task f id j [] keeps = ground arith
  find_by_id-update_task f id j (task ∷ tasks) keeps = ground (
    arith,
    eq_iff id j,
    eq_iff task.id id,
    eq_iff task.id j,
    (keeps task).0,
    (keeps task).1,
    find_by_id-update_task f id j tasks keeps,
  )

  pub find_by_id-delete_task :
      (id j : String) (tasks : List ImportTask)
      → find_by_id j tenant (delete_task id tenant tasks)
        ≡ (if str_eq id j then none else find_by_id j tenant tasks)
  unfolding find_by_id delete_task
  find_by_id-delete_task id j [] = ground arith
  find_by_id-delete_task id j (task ∷ tasks) =
      ground
        (arith, eq_iff id j, eq_iff task.id id, eq_iff task.id j, find_by_id-delete_task id j tasks)

module _ (env : Environment) (id : String) (tenant : Option String) where
  pub find_task-found :
      (tasks : List ImportTask) (task : ImportTask)
      → find_task env id tenant tasks ≡ ok task
      → find_by_id id tenant tasks ≡ some task
  unfolding find_task
  find_task-found tasks task h = ground arith

  pub find_task-id :
      (tasks : List ImportTask) (task : ImportTask)
      → find_by_id id tenant tasks ≡ some task
      → task.id ≡ id
  unfolding find_by_id
  find_task-id [] task h = absurd (cc)
  find_task-id (x ∷ tasks) task h = ground (arith, eq_iff x.id id, find_task-id tasks task)

  pub update_task-update_task :
      (f g : ImportTask → ImportTask) (tasks : List ImportTask)
      → ((task : ImportTask) → f (g task) ≡ f task)
      → ((task : ImportTask) → (g task).id ≡ task.id)
      → update_task id f (update_task id g tasks) ≡ update_task id f tasks
  unfolding update_task
  update_task-update_task f g [] over keeps = refl
  update_task-update_task f g (x ∷ tasks) over keeps =
      ground (arith, eq_iff x.id id, over x, keeps x, update_task-update_task f g tasks over keeps)
