-- ===== src/Capability/Credentials/Limits.antt =====
-- How many keys a user has.
use openviking_admin.Prelude.{
  ℕ, ◌+◌, ◌≤◌, String, ◌≡◌, refl, inl, inr, Option, List, [], ◌∷◌, ◌++◌, arith, eq_iff,
}
use openviking_admin.Capability.Types.{ClientType}
use openviking_admin.Capability.Credentials.Table.{Keys, set_last_used, count_of_user, remove_row}
use openviking_admin.Capability.Credentials.{
  Environment, create_api_key, delete_key, resolve_principal_from_api_key, new_key,
}
use openviking_admin.Capability.Credentials.Runs.{
  Op, creates, deletes, resolves, step, run, create_api_key-preserves, delete_key-effect,
  use_key-effect,
}

-- Nobody has more than ten keys.
abbrev pub IsWithinLimit : Keys → Type 0
IsWithinLimit keys = (user_id : String) → count_of_user user_id keys ≤ 10

count_of_user-append :
    (user_id : String) (keys more : Keys)
    → count_of_user user_id (keys ++ more) ≡ count_of_user user_id keys + count_of_user user_id more
unfolding count_of_user
count_of_user-append user_id [] more = omega arith
count_of_user-append user_id (key ∷ keys) more =
    ground (arith, count_of_user-append user_id keys more)

count_of_user-set_last_used :
    (user_id id : String) (now : ℕ) (keys : Keys)
    → count_of_user user_id (set_last_used id now keys) ≡ count_of_user user_id keys
unfolding count_of_user set_last_used
count_of_user-set_last_used user_id id now [] = refl
count_of_user-set_last_used user_id id now (key ∷ keys) =
    ground (arith, count_of_user-set_last_used user_id id now keys)

count_of_user-remove_row :
    (user_id id : String) (keys : Keys)
    → count_of_user user_id (remove_row id keys) ≤ count_of_user user_id keys
unfolding count_of_user remove_row
count_of_user-remove_row user_id id [] = omega arith
count_of_user-remove_row user_id id (key ∷ keys) =
    ground (arith, count_of_user-remove_row user_id id keys)

create_api_key-IsWithinLimit :
    (env : Environment) (id text user_id tenant_id name : String) (ttl : Option (Option ℕ))
    (now : ℕ) (keys : Keys)
    → IsWithinLimit keys
    → IsWithinLimit (create_api_key env id text user_id tenant_id name ttl now keys).1
unfolding count_of_user
create_api_key-IsWithinLimit env id text user_id tenant_id name ttl now keys h =
    create_api_key-preserves env id text user_id tenant_id name ttl now keys IsWithinLimit h
      λ life few free other.
        let key = new_key id text user_id tenant_id name life now in
        ground
          (arith, h other, eq_iff user_id other, count_of_user-append other keys (key ∷ []), few)

delete_key-IsWithinLimit :
    (id tenant_id : String) (keys : Keys)
    → IsWithinLimit keys
    → IsWithinLimit (delete_key id tenant_id keys).1
delete_key-IsWithinLimit id tenant_id keys h user_id = elim (delete_key-effect id tenant_id keys) [
  | inl e ↦ rw e (h user_id)
  | inr e ↦ rw e (omega (arith, h user_id, count_of_user-remove_row user_id id keys))
]

use_key-IsWithinLimit :
    (env : Environment) (text : String) (client_type : ClientType) (now : ℕ) (keys : Keys)
    → IsWithinLimit keys
    → IsWithinLimit (resolve_principal_from_api_key env text client_type now keys).1
use_key-IsWithinLimit env text client_type now keys h user_id =
    elim (use_key-effect env text client_type now keys) [
      | inl e ↦ rw e (h user_id)
      | inr (id, e) ↦ rw (e, count_of_user-set_last_used) (h user_id)
    ]

step-IsWithinLimit :
    (env : Environment) (op : Op) (keys : Keys)
    → IsWithinLimit keys
    → IsWithinLimit (step env op keys)
unfolding step
step-IsWithinLimit env (creates id text user_id tenant_id name ttl now) keys h =
    create_api_key-IsWithinLimit env id text user_id tenant_id name ttl now keys h
step-IsWithinLimit env (deletes id tenant_id) keys h = delete_key-IsWithinLimit id tenant_id keys h
step-IsWithinLimit env (resolves text client_type now) keys h =
    use_key-IsWithinLimit env text client_type now keys h

-- Whatever keys are created, deleted and used, one call after the other, nobody comes to have more
-- than ten.
pub run-IsWithinLimit :
    (ops : List (Environment × Op)) (keys : Keys)
    → IsWithinLimit keys
    → IsWithinLimit (run ops keys)
unfolding run
run-IsWithinLimit [] keys h = h
run-IsWithinLimit ((env, op) ∷ ops) keys h =
    run-IsWithinLimit ops (step env op keys) (step-IsWithinLimit env op keys h)
