-- ===== src/Capability/Credentials/Table.antt =====
-- The rows of the keys of capabilities and of the users, and the queries on them of
-- apps/server/src/capabilities/infrastructure/capability-credential.service.ts. A table is the list
-- of its rows, oldest first.
use openviking_admin.Prelude.{
  ◌++◌, ℕ, ◌+◌, String, Bool, false, ◌&&◌, ◌||◌, Option, none, some, List, [], ◌∷◌, str_eq,
  if◌then◌else◌,
}

pub record CapabilityKey : Type 0 where
  pub id : String
  pub name : String
  pub api_key : String
  pub user_id : String
  pub tenant_id : String
  pub last_used_at : Option ℕ
  pub expires_at : Option ℕ

pub record UserRow : Type 0 where
  pub id : String
  pub tenant_id : String
  pub username : String
  pub role : String
  pub active : Bool

abbrev pub Keys : Type 0
Keys = List CapabilityKey

-- The queries on the tables.
unfoldable pub find_by_api_key : String → Keys → Option CapabilityKey
find_by_api_key text [] = none
find_by_api_key text (key ∷ keys) =
    if str_eq key.api_key text then some key else find_by_api_key text keys

unfoldable pub find_of_tenant : String → String → Keys → Option CapabilityKey
find_of_tenant id tenant_id [] = none
find_of_tenant id tenant_id (key ∷ keys) =
    if str_eq key.id id && str_eq key.tenant_id tenant_id
    then some key
    else find_of_tenant id tenant_id keys

abbrev pub used : ℕ → CapabilityKey → CapabilityKey
used now key = record key { last_used_at = some now }

unfoldable pub set_last_used : String → ℕ → Keys → Keys
set_last_used id now [] = []
set_last_used id now (key ∷ keys) =
    (if str_eq key.id id then used now key else key) ∷ set_last_used id now keys

unfoldable pub count_of_user : String → Keys → ℕ
count_of_user user_id [] = 0
count_of_user user_id (key ∷ keys) =
    let rest = count_of_user user_id keys in if str_eq key.user_id user_id then 1 + rest else rest

unfoldable pub remove_row : String → Keys → Keys
remove_row id [] = []
remove_row id (key ∷ keys) =
    let rest = remove_row id keys in if str_eq key.id id then rest else key ∷ rest

-- Whether a row with this id or this text of a key is there.
unfoldable pub is_taken : String → String → Keys → Bool
is_taken id text [] = false
is_taken id text (key ∷ keys) =
    (str_eq key.id id || str_eq key.api_key text) || is_taken id text keys

unfoldable pub find_user : String → String → List UserRow → Option UserRow
find_user id tenant_id [] = none
find_user id tenant_id (user ∷ users) =
    if str_eq user.id id && str_eq user.tenant_id tenant_id
    then some user
    else find_user id tenant_id users

-- `getKeysByTenant`, the newest first.
unfoldable pub get_keys_by_tenant : String → Keys → Keys
get_keys_by_tenant tenant_id [] = []
get_keys_by_tenant tenant_id (key ∷ keys) =
    let rest = get_keys_by_tenant tenant_id keys in
    if str_eq key.tenant_id tenant_id then rest ++ key ∷ [] else rest
