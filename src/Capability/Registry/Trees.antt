-- ===== src/Capability/Registry/Trees.antt =====
-- Knowledge trees, in capabilityRegistry of
-- apps/server/src/capabilities/application/capability-registry.ts.
use openviking_admin.Prelude.{some, false, [], ◌∷◌}
use openviking_admin.Capability.Schema.{
  schema, object_type, array_type, string_type, no_properties, property, any_items,
}
use openviking_admin.Capability.Contract.{
  v1, tenant, standard, tenant_viewer, tenant_operator, get, delete,
}
use openviking_admin.Capability.Registry.Entry.{
  CapabilityRegistryEntry, capability_http_path, list_knowledge_tree, get_knowledge_tree_detail,
  delete_knowledge_tree,
}
use openviking_admin.Capability.Types.{
  knowledge_tree_list, knowledge_tree_detail, knowledge_tree_delete,
}

abbrev pub knowledge_tree_list_entry : CapabilityRegistryEntry
knowledge_tree_list_entry = record {
  gateway_handler = list_knowledge_tree;
  contract = record {
    id = knowledge_tree_list;
    version = v1;
    display_name = "Knowledge Tree List";
    description = "列出知识库下可作为导入目标的知识树节点";
    input_schema =
        schema object_type false
          (property "kbId" (schema string_type false no_properties [] any_items) no_properties)
          ("kbId" ∷ []) any_items;
    output_schema =
        schema object_type false
          (property "items" (schema array_type false no_properties [] any_items) no_properties) []
          any_items;
    permission_requirement = tenant;
    minimum_role = some tenant_viewer;
    audit_level = standard;
    http = record { method = get; path = capability_http_path "/knowledge-bases/:id/tree" };
    cli_command = "ova tree list";
  };
}

abbrev pub knowledge_tree_detail_entry : CapabilityRegistryEntry
knowledge_tree_detail_entry = record {
  gateway_handler = get_knowledge_tree_detail;
  contract = record {
    id = knowledge_tree_detail;
    version = v1;
    display_name = "Knowledge Tree Detail";
    description = "查看知识树节点详情与导入目标路径";
    input_schema =
        schema object_type false
          (property "id" (schema string_type false no_properties [] any_items) no_properties)
          ("id" ∷ []) any_items;
    output_schema =
        schema object_type false
          (property "item" (schema object_type false no_properties [] any_items) no_properties) []
          any_items;
    permission_requirement = tenant;
    minimum_role = some tenant_viewer;
    audit_level = standard;
    http = record { method = get; path = capability_http_path "/knowledge-tree/:id" };
    cli_command = "ova tree detail";
  };
}

abbrev pub knowledge_tree_delete_entry : CapabilityRegistryEntry
knowledge_tree_delete_entry = record {
  gateway_handler = delete_knowledge_tree;
  contract = record {
    id = knowledge_tree_delete;
    version = v1;
    display_name = "Knowledge Tree Delete";
    description = "删除当前租户可见的知识树节点";
    input_schema =
        schema object_type false
          (property "id" (schema string_type false no_properties [] any_items) no_properties)
          ("id" ∷ []) any_items;
    output_schema =
        schema object_type false
          (property "item" (schema object_type false no_properties [] any_items) no_properties) []
          any_items;
    permission_requirement = tenant;
    minimum_role = some tenant_operator;
    audit_level = standard;
    http = record { method = delete; path = capability_http_path "/knowledge-tree/:id" };
    cli_command = "ova tree delete";
  };
}
