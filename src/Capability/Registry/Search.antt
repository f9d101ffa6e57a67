-- ===== src/Capability/Registry/Search.antt =====
-- Searching and listing resources, in capabilityRegistry of
-- apps/server/src/capabilities/application/capability-registry.ts.
use openviking_admin.Prelude.{some, false, [], ◌∷◌}
use openviking_admin.Capability.Schema.{
  schema, object_type, array_type, string_type, number_type, boolean_type, no_properties, property,
  any_items,
}
use openviking_admin.Capability.Contract.{
  v1, tenant, standard, tenant_viewer, tenant_operator, get, post,
}
use openviking_admin.Capability.Registry.Entry.{
  CapabilityRegistryEntry, search, grep, list_resources, tree_resources,
}
use openviking_admin.Capability.Types.{
  knowledge_search, knowledge_grep, resources_list, resources_tree,
}

abbrev pub knowledge_search_entry : CapabilityRegistryEntry
knowledge_search_entry = record {
  gateway_handler = search;
  contract = record {
    id = knowledge_search;
    version = v1;
    display_name = "Knowledge Search";
    description = "在租户知识域内执行语义搜索";
    input_schema =
        schema object_type false
          (property "query" (schema string_type false no_properties [] any_items) (
            property "limit" (schema number_type false no_properties [] any_items) (
              property "scoreThreshold" (schema number_type false no_properties [] any_items)
                no_properties)))
          ("query" ∷ []) any_items;
    output_schema =
        schema object_type false
          (property "items" (schema array_type false no_properties [] any_items) no_properties) []
          any_items;
    permission_requirement = tenant;
    minimum_role = some tenant_viewer;
    audit_level = standard;
    http = record { method = post; path = "/api/v1/knowledge/search" };
    cli_command = "ova knowledge search";
  };
}

abbrev pub knowledge_grep_entry : CapabilityRegistryEntry
knowledge_grep_entry = record {
  gateway_handler = grep;
  contract = record {
    id = knowledge_grep;
    version = v1;
    display_name = "Knowledge Grep";
    description = "在租户知识域内执行文本匹配搜索";
    input_schema =
        schema object_type false
          (property "pattern" (schema string_type false no_properties [] any_items) (
            property "uri" (schema string_type false no_properties [] any_items) (
              property "caseInsensitive" (schema boolean_type false no_properties [] any_items)
                no_properties)))
          ("pattern" ∷ []) any_items;
    output_schema =
        schema object_type false
          (property "items" (schema array_type false no_properties [] any_items) no_properties) []
          any_items;
    permission_requirement = tenant;
    minimum_role = some tenant_viewer;
    audit_level = standard;
    http = record { method = post; path = "/api/v1/knowledge/grep" };
    cli_command = "ova knowledge grep";
  };
}

abbrev pub resources_list_entry : CapabilityRegistryEntry
resources_list_entry = record {
  gateway_handler = list_resources;
  contract = record {
    id = resources_list;
    version = v1;
    display_name = "Resources List";
    description = "列出租户授权范围内的资源";
    input_schema =
        schema object_type false
          (property "uri" (schema string_type false no_properties [] any_items) no_properties) []
          any_items;
    output_schema =
        schema object_type false
          (property "items" (schema array_type false no_properties [] any_items) no_properties) []
          any_items;
    permission_requirement = tenant;
    minimum_role = some tenant_operator;
    audit_level = standard;
    http = record { method = get; path = "/api/v1/resources" };
    cli_command = "ova resources list";
  };
}

abbrev pub resources_tree_entry : CapabilityRegistryEntry
resources_tree_entry = record {
  gateway_handler = tree_resources;
  contract = record {
    id = resources_tree;
    version = v1;
    display_name = "Resources Tree";
    description = "获取租户资源树";
    input_schema =
        schema object_type false
          (property "uri" (schema string_type false no_properties [] any_items)
            (property "depth" (schema number_type false no_properties [] any_items) no_properties))
          [] any_items;
    output_schema =
        schema object_type false
          (property "items" (schema array_type false no_properties [] any_items) (
            property "renderedTree" (schema string_type false no_properties [] any_items)
              no_properties))
          [] any_items;
    permission_requirement = tenant;
    minimum_role = some tenant_operator;
    audit_level = standard;
    http = record { method = get; path = "/api/v1/resources/tree" };
    cli_command = "ova resources tree";
  };
}
