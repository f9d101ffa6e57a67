-- ===== src/KnowledgeBase.antt =====
-- apps/server/src/knowledge-base: knowledge-base.service.ts, and the queries of
-- infrastructure/repositories/knowledge-base.repository.ts that it uses, over the table of the
-- state of the tree. The table is in the order in which the rows were created. The columns for who
-- wrote a row are left out. The id of a new row is given. Removing a base removes its nodes, on
-- fuel, as in the tree.
pub mod Quota
pub mod Roots
pub mod Clearing
mod Examples
use mathlib.Core.Path.{subst}
use openviking_admin.Prelude.{
  ℕ, zero, suc, ◌+◌, ◌-◌, ◌*◌, ◌≤◌, ◌<◌, String, ◌≡◌, refl, sym, ap, ◌∙◌, ◌≢◌, ◌↔◌, ◌⊎◌, inl, inr,
  Bool, true, false, not, ◌&&◌, ◌||◌, Option, none, some, List, [], ◌∷◌, ◌++◌, map, arith, eq_iff,
  str_eq, str_eq_refl, str_eq→≡, str_ne, if◌then◌else◌, Bool-cases, if_holds, Option-cases, truthy,
  or_else, Result, ok, err, ◌>>=◌, ◌>>◌, is_ok, Result-cases, In, In-append, In-append_left,
  In-append_right, length, length-append, ltb, leb, ◌==◌, get, set, delete, Map, sweep,
  HasUniqueKeys, fresh, modify, mapped, get-modify, modify-HasUniqueKeys, get-set, get-delete,
  get-sweep, set-HasUniqueKeys, delete-HasUniqueKeys, sweep-HasUniqueKeys, take, In-take,
  length-take, insert_by, sort_by, In-sort_by, take-sort_by,
}
use Prim.Native.String
use openviking_admin.Session.{has_active_session_in_kb}
use openviking_admin.Tenant.Identity.{TenantRow, is_uuid}
use openviking_admin.Tree.Node.{KnowledgeNode}
use openviking_admin.Tree.Table.{opt_eq, in_tenant}
use openviking_admin.Tree.Service as Tree
use openviking_admin.Tree.Service.{
  KnowledgeBaseRow, KnowledgeBaseStatus, active, building, archived, TreeState, TreeError,
  tenant_condition,
}
use openviking_admin.Tree.Service.Removal as Removal
use openviking_admin.Tree.Service.Removal.{
  Outcome, OpenVikingDeleteContext, remove_each, delete_open_viking_resource,
  aggregate_knowledge_base_stats,
}

pub data KnowledgeBaseError : Type 0 where
  not_found tenant_not_found quota_reached knowledge_base_locked config_failed : KnowledgeBaseError
  tree_failed : TreeError → KnowledgeBaseError

abbrev pub is_archived : KnowledgeBaseStatus → Bool
is_archived archived = true
is_archived _ = false

-- A condition on the tenant, where one is given that is not empty.
abbrev pub of_tenant_or_all : Option String → KnowledgeBaseRow → Bool
of_tenant_or_all tenant kb = elim (tenant_condition tenant) [
  | none ↦ true
  | some t ↦ opt_eq kb.tenant_id (some t)
]

unfoldable pub find_by_id : String → Option String → List KnowledgeBaseRow → Option KnowledgeBaseRow
find_by_id id tenant [] = none
find_by_id id tenant (kb ∷ bases) =
    if str_eq kb.id id && of_tenant_or_all tenant kb then some kb else find_by_id id tenant bases

-- The newest first, without the archived ones.
unfoldable pub find_all : Option String → List KnowledgeBaseRow → List KnowledgeBaseRow
find_all tenant [] = []
find_all tenant (kb ∷ bases) =
    let rest = find_all tenant bases in
    if of_tenant_or_all tenant kb && not (is_archived kb.status) then rest ++ kb ∷ [] else rest

unfoldable pub find_one :
    String → Option String → List KnowledgeBaseRow → Result KnowledgeBaseError KnowledgeBaseRow
unfolding find_by_id
find_one id tenant bases = elim (find_by_id id tenant bases) [
  | none ↦ err not_found
  | some kb ↦ if is_archived kb.status then err not_found else ok kb
]

-- `save` of a base that was found, and `remove`, by the primary key.
unfoldable pub save_base : KnowledgeBaseRow → List KnowledgeBaseRow → List KnowledgeBaseRow
save_base kb [] = kb ∷ []
save_base kb (row ∷ bases) = if str_eq row.id kb.id then kb ∷ bases else row ∷ save_base kb bases

unfoldable pub delete_base : String → List KnowledgeBaseRow → List KnowledgeBaseRow
delete_base id [] = []
delete_base id (row ∷ bases) =
    let rest = delete_base id bases in if str_eq row.id id then rest else row ∷ rest

unfoldable pub refresh_stats_from_nodes :
    ℕ → String → Option String → TreeState → Result KnowledgeBaseError KnowledgeBaseRow × TreeState
unfolding find_one aggregate_knowledge_base_stats save_base
refresh_stats_from_nodes now id tenant s = elim (find_one id tenant s.bases) [
  | err e ↦ (err e, s)
  | ok kb ↦
      let stats = aggregate_knowledge_base_stats id tenant s.nodes in
      let saved : KnowledgeBaseRow = record kb {
        doc_count = stats.0;
        vector_count = stats.1;
        updated_at = now;
      } in
      (ok saved, record s { bases = save_base saved s.bases })
]

-- `findById` and `findByTenantId` of
-- apps/server/src/tenant/infrastructure/repositories/tenant.repository.ts, and
-- `findOneByIdOrTenantId` of apps/server/src/tenant/tenant.service.ts.
unfoldable pub find_tenant_by : (TenantRow → String) → String → List TenantRow → Option TenantRow
find_tenant_by field text [] = none
find_tenant_by field text (row ∷ rows) =
    if str_eq (field row) text then some row else find_tenant_by field text rows

abbrev pub find_tenant_by_id : String → List TenantRow → Option TenantRow
find_tenant_by_id text rows =
    if is_uuid text then find_tenant_by (λ row. row.id) text rows else none

unfoldable pub find_one_by_id_or_tenant_id : String → List TenantRow → Option TenantRow
unfolding find_tenant_by is_uuid
find_one_by_id_or_tenant_id text rows = elim (find_tenant_by_id text rows) [
  | some row ↦ some row
  | none ↦ find_tenant_by (λ row. row.tenant_id) text rows
]

pub record CreateKnowledgeBaseDto : Type 0 where
  pub name : String
  pub description : Option String
  pub tenant_id : String

abbrev pub new_base : ℕ → String → CreateKnowledgeBaseDto → String → KnowledgeBaseRow
new_base now id dto tenant_id = record {
  id = id;
  name = dto.name;
  description = dto.description;
  tenant_id = some tenant_id;
  status = active;
  viking_uri = some (
      String.◌++◌ "viking://resources/tenants/"
        (String.◌++◌ tenant_id (String.◌++◌ "/" (String.◌++◌ id "/"))));
  doc_count = 0;
  vector_count = 0;
  updated_at = now;
}

-- `create` up to the write: the tenant, and how many bases it has.
unfoldable pub check_quota :
    List TenantRow → CreateKnowledgeBaseDto → TreeState → Result KnowledgeBaseError TenantRow
unfolding find_one_by_id_or_tenant_id find_all
check_quota tenants dto s = elim (find_one_by_id_or_tenant_id dto.tenant_id tenants) [
  | none ↦ err tenant_not_found
  | some tenant ↦
      let current_count = length (find_all (some tenant.tenant_id) s.bases) in
      let max_docs = or_else tenant.max_docs 0 in
      if ltb 0 max_docs && leb max_docs current_count then err quota_reached else ok tenant
]

-- `createWithUri`. Other requests may come between this and the count.
abbrev pub create_with_uri :
    ℕ → String → CreateKnowledgeBaseDto → TenantRow → TreeState → KnowledgeBaseRow × TreeState
create_with_uri now id dto tenant s =
    let kb = new_base now id dto tenant.tenant_id in (kb, record s { bases = s.bases ++ kb ∷ [] })

abbrev pub created :
    ℕ
    → String
    → CreateKnowledgeBaseDto
    → TreeState
    → Result KnowledgeBaseError TenantRow
    → Result KnowledgeBaseError KnowledgeBaseRow × TreeState
created now id dto s (err e) = (err e, s)
created now id dto s (ok tenant) =
    (ok (create_with_uri now id dto tenant s).0, (create_with_uri now id dto tenant s).1)

-- A creation that no other request meets.
unfoldable pub create :
    List TenantRow
    → ℕ
    → String
    → CreateKnowledgeBaseDto
    → TreeState
    → Result KnowledgeBaseError KnowledgeBaseRow × TreeState
unfolding check_quota
create tenants now id dto s = created now id dto s (check_quota tenants dto s)

-- What a change carries; `none` is a field that is not in it.
pub record KnowledgeBaseAttrs : Type 0 where
  pub name : Option String
  pub description : Option String
  pub status : Option KnowledgeBaseStatus

abbrev pub assigned : KnowledgeBaseAttrs → KnowledgeBaseRow → KnowledgeBaseRow
assigned attrs kb = record kb {
  name = or_else attrs.name kb.name;
  description = elim attrs.description [ none ↦ kb.description | some d ↦ some d ];
  status = or_else attrs.status kb.status;
}

unfoldable pub update :
    ℕ
    → String
    → KnowledgeBaseAttrs
    → Option String
    → TreeState
    → Result KnowledgeBaseError KnowledgeBaseRow × TreeState
unfolding find_by_id save_base
update now id attrs tenant s = elim (find_by_id id tenant s.bases) [
  | none ↦ (err not_found, s)
  | some kb ↦
      let saved : KnowledgeBaseRow = record (assigned attrs kb) { updated_at = now } in
      (ok saved, record s { bases = save_base saved s.bases })
]

-- `findByKb`; the order, by which only the order of removals changes, is that of the table.
abbrev pub is_in_base : String → Option String → KnowledgeNode → Bool
is_in_base kb_id tenant node = str_eq node.kb_id kb_id && in_tenant (tenant_condition tenant) node

unfoldable pub find_by_kb : String → Option String → List KnowledgeNode → List KnowledgeNode
find_by_kb kb_id tenant [] = []
find_by_kb kb_id tenant (node ∷ nodes) =
    let rest = find_by_kb kb_id tenant nodes in
    if is_in_base kb_id tenant node then node ∷ rest else rest

-- `nodeIds.has`
unfoldable pub has_id : String → List KnowledgeNode → Bool
has_id id [] = false
has_id id (node ∷ nodes) = str_eq node.id id || has_id id nodes

abbrev pub is_root : List KnowledgeNode → KnowledgeNode → Bool
is_root nodes node = not (truthy node.parent_id) || not (has_id (or_else node.parent_id "") nodes)

unfoldable pub root_nodes : List KnowledgeNode → List KnowledgeNode → List KnowledgeNode
unfolding has_id
root_nodes nodes [] = []
root_nodes nodes (node ∷ rest) =
    let roots = root_nodes nodes rest in if is_root nodes node then node ∷ roots else roots

abbrev pub removal_context : OpenVikingDeleteContext
removal_context = record {
  has_ov_config = true;
  skip_open_viking = true;
  skip_knowledge_base_stats_refresh = true;
}

abbrev pub KnowledgeBaseOutcome : Type 0
KnowledgeBaseOutcome = Option (Result KnowledgeBaseError (Unit {0}) × TreeState)

-- `remove` after the roots are gone, or the removal of one has failed or not ended.
abbrev pub finished : String → Outcome → KnowledgeBaseOutcome
finished id none = none
finished id (some (err e, s)) = some (err (tree_failed e), s)
finished id (some (ok _, s)) = some (ok tt, record s { bases = delete_base id s.bases })

abbrev pub remove_roots :
    Tree.Environment → ℕ → Option String → List KnowledgeNode → TreeState → Outcome
remove_roots env fuel tenant roots s =
    remove_each (λ id. Removal.remove env removal_context fuel id tenant) roots s

-- `remove` with what the engine answers.
abbrev pub remove_with :
    Tree.Environment
    → ℕ
    → String
    → Option String
    → List KnowledgeNode
    → Result TreeError (Unit {0}) × TreeState
    → KnowledgeBaseOutcome
remove_with env fuel id tenant roots (err e, s) = some (err (tree_failed e), s)
remove_with env fuel id tenant roots (ok _, s) = finished id (remove_roots env fuel tenant roots s)

-- `resolveOpenVikingConfig`, which may throw, and what comes after it.
abbrev pub with_ov_config : Bool → TreeState → KnowledgeBaseOutcome → KnowledgeBaseOutcome
with_ov_config false s next = some (err config_failed, s)
with_ov_config true s next = next

unfoldable pub remove :
    Tree.Environment → ℕ → String → Option String → TreeState → KnowledgeBaseOutcome
unfolding find_by_id has_active_session_in_kb find_by_kb root_nodes delete_open_viking_resource
    remove_each Removal.remove
remove env fuel id tenant s = elim (find_by_id id tenant s.bases) [
  | none ↦ some (err not_found, s)
  | some kb ↦
      let nodes = find_by_kb kb.id tenant s.nodes in
      if has_active_session_in_kb kb.id s.sessions
      then some (err knowledge_base_locked, s)
      else with_ov_config env.resolves_ov_config s (
          remove_with env fuel kb.id tenant (root_nodes nodes nodes)
            (delete_open_viking_resource env kb.viking_uri true s))
]
