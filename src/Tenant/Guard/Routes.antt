-- ===== src/Tenant/Guard/Routes.antt =====
-- Which data the request of a user of a tenant is given.
use openviking_admin.Prelude.{String, ◌≡◌, ◌≢◌, ◌⊎◌, Bool, true, false, some, []}
use openviking_admin.Tenant.{Tenant, DbConfig, IsolationConfig}
use openviking_admin.Tenant.Pool.{DataSource}
use openviking_admin.Tenant.Guard.{Request, Environment}
use Prim.Native.String
use Prim.Native.Char.{Char, code}

-- The text with `_` for each `-`.
pub data Spells : String → String → Type 0 where
  ends : Spells String.[] String.[]
  hyphen : (s t : String) → Spells s t → Spells (String.◌∷◌ "-" s) (String.◌∷◌ "_" t)
  letter :
      (c : Char) (s t : String)
      → code c ≢ b'-'
      → Spells s t
      → Spells (String.◌∷◌ c s) (String.◌∷◌ c t)

-- The search path of a tenant at an isolation level, on the default database.
pub data IsPathOf : (level tenant_id path : String) → Type 0 where
  schema :
      (tenant_id name : String)
      → Spells tenant_id name
      → IsPathOf "medium" tenant_id
          (String.◌++◌ "\"" (String.◌++◌ (String.◌++◌ "tenant_" name) "\", public"))
  shared : (level tenant_id : String) → level ≢ "medium" → IsPathOf level tenant_id "public"

-- The request works in the scope of the tenant: on the database that is named, or on the default
-- one with the search path of the tenant.
pub data WorksFor (env : Environment) (config : IsolationConfig) (request : Request) : Type 0 where
  on_own_database :
      (db : DbConfig) (source : DataSource)
      → config.level ≡ "large"
      → config.db_config ≡ some db
      → env.data_source_of config.tenant_id db ≡ some source
      → request.tenant_scope ≡ some config.tenant_id
      → request.tenant_data_source ≡ some source
      → WorksFor env config request
  on_default_database :
      (path : String)
      → config.level ≢ "large"
      → IsPathOf config.level config.tenant_id path
      → request.tenant_scope ≡ some config.tenant_id
      → request.tenant_query_runner ≡ some (record { search_path = path })
      → WorksFor env config request

is_blank : String → Bool
is_blank String.[] = true
is_blank (String.◌∷◌ c s) = false

-- The tenant that a record id stands for, by its id or else by its name.
abbrev pub IsTenantOf : Environment → String → Tenant → Type 0
IsTenantOf env record_id tenant =
    (env.find_by_id env.now record_id ≡ some tenant)
    ⊎ (env.find_by_tenant_id env.now record_id ≡ some tenant)
