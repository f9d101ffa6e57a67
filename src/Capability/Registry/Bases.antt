-- ===== src/Capability/Registry/Bases.antt =====
-- Knowledge bases, in capabilityRegistry of
-- apps/server/src/capabilities/application/capability-registry.ts.
use openviking_admin.Prelude.{some, false, [], ◌∷◌}
use openviking_admin.Capability.Schema.{
  schema, object_type, array_type, string_type, no_properties, property, any_items,
}
use openviking_admin.Capability.Contract.{
  v1, tenant, standard, tenant_viewer, tenant_operator, get, delete,
}
use openviking_admin.Capability.Registry.Entry.{
  CapabilityRegistryEntry, capability_http_path, list_knowledge_bases, get_knowledge_base_detail,
  delete_knowledge_base,
}
use openviking_admin.Capability.Types.{
  knowledge_bases_list, knowledge_bases_detail, knowledge_bases_delete,
}

abbrev pub knowledge_bases_list_entry : CapabilityRegistryEntry
knowledge_bases_list_entry = record {
  gateway_handler = list_knowledge_bases;
  contract = record {
    id = knowledge_bases_list;
    version = v1;
    display_name = "Knowledge Bases List";
    description = "列出当前租户可导入的知识库";
    input_schema = schema object_type false no_properties [] any_items;
    output_schema =
        schema object_type false
          (property "items" (schema array_type false no_properties [] any_items) no_properties) []
          any_items;
    permission_requirement = tenant;
    minimum_role = some tenant_viewer;
    audit_level = standard;
    http = record { method = get; path = capability_http_path "/knowledge-bases" };
    cli_command = "ova kb list";
  };
}

abbrev pub knowledge_bases_detail_entry : CapabilityRegistryEntry
knowledge_bases_detail_entry = record {
  gateway_handler = get_knowledge_base_detail;
  contract = record {
    id = knowledge_bases_detail;
    version = v1;
    display_name = "Knowledge Base Detail";
    description = "查看知识库详情与导入目标根路径";
    input_schema =
        schema object_type false
          (property "id" (schema string_type false no_properties [] any_items) no_properties)
          ("id" ∷ []) any_items;
    output_schema =
        schema object_type false
          (property "item" (schema object_type false no_properties [] any_items) no_properties) []
          any_items;
    permission_requirement = tenant;
    minimum_role = some tenant_viewer;
    audit_level = standard;
    http = record { method = get; path = capability_http_path "/knowledge-bases/:id" };
    cli_command = "ova kb detail";
  };
}

abbrev pub knowledge_bases_delete_entry : CapabilityRegistryEntry
knowledge_bases_delete_entry = record {
  gateway_handler = delete_knowledge_base;
  contract = record {
    id = knowledge_bases_delete;
    version = v1;
    display_name = "Knowledge Base Delete";
    description = "删除当前租户可见的知识库";
    input_schema =
        schema object_type false
          (property "id" (schema string_type false no_properties [] any_items) no_properties)
          ("id" ∷ []) any_items;
    output_schema =
        schema object_type false
          (property "item" (schema object_type false no_properties [] any_items) no_properties) []
          any_items;
    permission_requirement = tenant;
    minimum_role = some tenant_operator;
    audit_level = standard;
    http = record { method = delete; path = capability_http_path "/knowledge-bases/:id" };
    cli_command = "ova kb delete";
  };
}
