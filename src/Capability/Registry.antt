-- ===== src/Capability/Registry.antt =====
-- capabilityRegistry, its lookup and its list of contracts
-- (apps/server/src/capabilities/application/capability-registry.ts). The type of the table lists
-- every capability, so a lookup by a capability should find its entry.
pub mod Entry
pub mod Lookup
pub mod Search
pub mod Bases
pub mod Trees
pub mod Imports
pub mod ImportTasks
pub mod Documents
use openviking_admin.Prelude
use openviking_admin.Prelude.{String, Option, List, [], ◌∷◌, map, Map}
use openviking_admin.Capability.Types.{
  CapabilityId, id_text, knowledge_search, knowledge_grep, resources_list, resources_tree,
  knowledge_bases_list, knowledge_bases_detail, knowledge_bases_delete, knowledge_tree_list,
  knowledge_tree_detail, knowledge_tree_delete, documents_import_create, documents_import_status,
  documents_import_list, documents_import_cancel, documents_import_retry, documents_import_events,
  documents_index_status, documents_index_rebuild, documents_draft_grep, documents_extract_guide,
}
use openviking_admin.Capability.Contract.{CapabilityContract}
use Entry.{CapabilityRegistryEntry}
use Search.{
  knowledge_search_entry, knowledge_grep_entry, resources_list_entry, resources_tree_entry,
}
use Bases.{knowledge_bases_list_entry, knowledge_bases_detail_entry, knowledge_bases_delete_entry}
use Trees.{knowledge_tree_list_entry, knowledge_tree_detail_entry, knowledge_tree_delete_entry}
use Imports.{
  documents_import_create_entry, documents_import_status_entry, documents_import_list_entry,
}
use ImportTasks.{
  documents_import_cancel_entry, documents_import_retry_entry, documents_import_events_entry,
}
use Documents.{
  documents_index_status_entry, documents_index_rebuild_entry, documents_draft_grep_entry,
  documents_extract_guide_entry,
}

-- The table, in its order.
abbrev pub capability_registry : Map CapabilityRegistryEntry
capability_registry =
    (id_text knowledge_search, knowledge_search_entry)
    ∷ (id_text knowledge_grep, knowledge_grep_entry)
    ∷ (id_text resources_list, resources_list_entry)
    ∷ (id_text resources_tree, resources_tree_entry)
    ∷ (id_text knowledge_bases_list, knowledge_bases_list_entry)
    ∷ (id_text knowledge_bases_detail, knowledge_bases_detail_entry)
    ∷ (id_text knowledge_bases_delete, knowledge_bases_delete_entry)
    ∷ (id_text knowledge_tree_list, knowledge_tree_list_entry)
    ∷ (id_text knowledge_tree_detail, knowledge_tree_detail_entry)
    ∷ (id_text knowledge_tree_delete, knowledge_tree_delete_entry)
    ∷ (id_text documents_import_create, documents_import_create_entry)
    ∷ (id_text documents_import_status, documents_import_status_entry)
    ∷ (id_text documents_import_list, documents_import_list_entry)
    ∷ (id_text documents_import_cancel, documents_import_cancel_entry)
    ∷ (id_text documents_import_retry, documents_import_retry_entry)
    ∷ (id_text documents_import_events, documents_import_events_entry)
    ∷ (id_text documents_index_status, documents_index_status_entry)
    ∷ (id_text documents_index_rebuild, documents_index_rebuild_entry)
    ∷ (id_text documents_draft_grep, documents_draft_grep_entry)
    ∷ (id_text documents_extract_guide, documents_extract_guide_entry)
    ∷ []

unfoldable pub get_capability_registry_entry : CapabilityId → Option CapabilityRegistryEntry
unfolding Prelude.get
get_capability_registry_entry id = Prelude.get (id_text id) capability_registry

abbrev contract_of : String × CapabilityRegistryEntry → CapabilityContract
contract_of (id, entry) = entry.contract

abbrev pub get_capability_contracts : List CapabilityContract
get_capability_contracts = map contract_of capability_registry
