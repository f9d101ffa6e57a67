-- ===== src/Capability/Registry/Documents.antt =====
-- Documents, in capabilityRegistry of
-- apps/server/src/capabilities/application/capability-registry.ts.
use openviking_admin.Prelude.{some, false, [], ◌∷◌}
use openviking_admin.Capability.Schema.{
  schema, object_type, array_type, string_type, boolean_type, no_properties, property, any_items,
}
use openviking_admin.Capability.Contract.{
  v1, tenant, standard, tenant_viewer, tenant_operator, get, post,
}
use openviking_admin.Capability.Registry.Entry.{
  CapabilityRegistryEntry, capability_http_path, get_document_index_status, rebuild_document_index,
  grep_document_draft, get_document_extraction_guide,
}
use openviking_admin.Capability.Types.{
  documents_index_status, documents_index_rebuild, documents_draft_grep, documents_extract_guide,
}

abbrev pub documents_index_status_entry : CapabilityRegistryEntry
documents_index_status_entry = record {
  gateway_handler = get_document_index_status;
  contract = record {
    id = documents_index_status;
    version = v1;
    display_name = "Documents Index Status";
    description = "查看文档草稿与索引同步状态";
    input_schema =
        schema object_type false
          (property "nodeId" (schema string_type false no_properties [] any_items) no_properties)
          ("nodeId" ∷ []) any_items;
    output_schema =
        schema object_type false
          (property "item" (schema object_type false no_properties [] any_items) no_properties) []
          any_items;
    permission_requirement = tenant;
    minimum_role = some tenant_viewer;
    audit_level = standard;
    http = record { method = get; path = capability_http_path "/documents/:id/index" };
    cli_command = "ova documents index status";
  };
}

abbrev pub documents_index_rebuild_entry : CapabilityRegistryEntry
documents_index_rebuild_entry = record {
  gateway_handler = rebuild_document_index;
  contract = record {
    id = documents_index_rebuild;
    version = v1;
    display_name = "Documents Index Rebuild";
    description = "使用最新草稿重建文档索引";
    input_schema =
        schema object_type false
          (property "nodeId" (schema string_type false no_properties [] any_items) no_properties)
          ("nodeId" ∷ []) any_items;
    output_schema =
        schema object_type false
          (property "item" (schema object_type false no_properties [] any_items) no_properties) []
          any_items;
    permission_requirement = tenant;
    minimum_role = some tenant_operator;
    audit_level = standard;
    http = record { method = post; path = capability_http_path "/documents/:id/index/rebuild" };
    cli_command = "ova documents index rebuild";
  };
}

abbrev pub documents_draft_grep_entry : CapabilityRegistryEntry
documents_draft_grep_entry = record {
  gateway_handler = grep_document_draft;
  contract = record {
    id = documents_draft_grep;
    version = v1;
    display_name = "Documents Draft Grep";
    description = "对 Admin 侧最新草稿正文执行文本匹配";
    input_schema =
        schema object_type false
          (property "nodeId" (schema string_type false no_properties [] any_items) (
            property "pattern" (schema string_type false no_properties [] any_items) (
              property "caseInsensitive" (schema boolean_type false no_properties [] any_items)
                no_properties)))
          ("nodeId" ∷ ("pattern" ∷ [])) any_items;
    output_schema =
        schema object_type false
          (property "items" (schema array_type false no_properties [] any_items) no_properties) []
          any_items;
    permission_requirement = tenant;
    minimum_role = some tenant_viewer;
    audit_level = standard;
    http = record { method = post; path = capability_http_path "/documents/:id/draft/grep" };
    cli_command = "ova documents draft grep";
  };
}

abbrev pub documents_extract_guide_entry : CapabilityRegistryEntry
documents_extract_guide_entry = record {
  gateway_handler = get_document_extraction_guide;
  contract = record {
    id = documents_extract_guide;
    version = v1;
    display_name = "Documents Extract Guide";
    description = "返回面向 OpenViking 检索链路的文档萃取规范与示例";
    input_schema =
        schema object_type false
          (property "scenario" (schema string_type false no_properties [] any_items) no_properties)
          [] any_items;
    output_schema =
        schema object_type false
          (property "item" (schema object_type false no_properties [] any_items) no_properties) []
          any_items;
    permission_requirement = tenant;
    minimum_role = some tenant_viewer;
    audit_level = standard;
    http = record { method = get; path = capability_http_path "/documents/extract/guide" };
    cli_command = "ova documents extract guide";
  };
}
