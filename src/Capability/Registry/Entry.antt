-- ===== src/Capability/Registry/Entry.antt =====
-- An entry of capabilityRegistry (apps/server/src/capabilities/application/capability-registry.ts).
use Prim.Native.String
use openviking_admin.Prelude.{String}
use openviking_admin.Capability.Contract.{CapabilityContract}

-- The methods of the gateway that an entry can name.
pub data GatewayHandlerName : Type 0 where
  search grep list_resources tree_resources : GatewayHandlerName
  list_knowledge_bases get_knowledge_base_detail delete_knowledge_base list_knowledge_tree :
      GatewayHandlerName
  get_knowledge_tree_detail delete_knowledge_tree create_document_import
        get_document_import_status :
      GatewayHandlerName
  list_document_imports cancel_document_import retry_document_import watch_document_import_events :
      GatewayHandlerName
  get_document_index_status rebuild_document_index grep_document_draft
        get_document_extraction_guide :
      GatewayHandlerName

pub record CapabilityRegistryEntry : Type 0 where
  pub contract : CapabilityContract
  pub gateway_handler : GatewayHandlerName

abbrev pub capability_http_path : String → String
capability_http_path path = String.◌++◌ "/api/v1/capability" path
