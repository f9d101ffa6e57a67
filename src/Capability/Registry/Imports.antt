-- ===== src/Capability/Registry/Imports.antt =====
-- Starting and reading imports, in capabilityRegistry of
-- apps/server/src/capabilities/application/capability-registry.ts.
use openviking_admin.Prelude.{some, true, false, [], ◌∷◌}
use openviking_admin.Capability.Schema.{
  schema, object_type, array_type, string_type, number_type, no_properties, property, any_items,
  items,
}
use openviking_admin.Capability.Contract.{
  v1, tenant, standard, tenant_viewer, tenant_operator, get, post,
}
use openviking_admin.Capability.Registry.Entry.{
  CapabilityRegistryEntry, capability_http_path, create_document_import, get_document_import_status,
  list_document_imports,
}
use openviking_admin.Capability.Types.{
  documents_import_create, documents_import_status, documents_import_list,
}

abbrev pub documents_import_create_entry : CapabilityRegistryEntry
documents_import_create_entry = record {
  gateway_handler = create_document_import;
  contract = record {
    id = documents_import_create;
    version = v1;
    display_name = "Documents Import Create";
    description = "创建本地文件、URL 或 manifest 文档导入任务";
    input_schema =
        schema object_type false
          (property "sourceType" (schema string_type false no_properties [] any_items) (
            property "knowledgeBaseId" (schema string_type false no_properties [] any_items) (
              property "sourceUrl" (schema string_type false no_properties [] any_items) (
                property "sourceUrls"
                  (schema array_type false no_properties []
                    (items (schema string_type false no_properties [] any_items)))
                  (property "parentNodeId" (schema string_type true no_properties [] any_items)
                    no_properties)))))
          ("sourceType" ∷ ("knowledgeBaseId" ∷ [])) any_items;
    output_schema =
        schema object_type false
          (property "taskId" (schema string_type false no_properties [] any_items) (
            property "status" (schema string_type false no_properties [] any_items) (
              property "item" (schema object_type false no_properties [] any_items) no_properties)))
          [] any_items;
    permission_requirement = tenant;
    minimum_role = some tenant_operator;
    audit_level = standard;
    http = record { method = post; path = capability_http_path "/import-tasks/documents" };
    cli_command = "ova documents import";
  };
}

abbrev pub documents_import_status_entry : CapabilityRegistryEntry
documents_import_status_entry = record {
  gateway_handler = get_document_import_status;
  contract = record {
    id = documents_import_status;
    version = v1;
    display_name = "Documents Import Status";
    description = "查看文档导入任务进度";
    input_schema =
        schema object_type false
          (property "taskId" (schema string_type false no_properties [] any_items) no_properties)
          ("taskId" ∷ []) any_items;
    output_schema =
        schema object_type false
          (property "taskId" (schema string_type false no_properties [] any_items) (
            property "status" (schema string_type false no_properties [] any_items) (
              property "progress" (schema number_type false no_properties [] any_items) (
                property "item" (schema object_type false no_properties [] any_items)
                  no_properties))))
          [] any_items;
    permission_requirement = tenant;
    minimum_role = some tenant_viewer;
    audit_level = standard;
    http = record { method = get; path = capability_http_path "/import-tasks/:id" };
    cli_command = "ova documents import status";
  };
}

abbrev pub documents_import_list_entry : CapabilityRegistryEntry
documents_import_list_entry = record {
  gateway_handler = list_document_imports;
  contract = record {
    id = documents_import_list;
    version = v1;
    display_name = "Documents Import List";
    description = "列出当前租户文档导入任务";
    input_schema = schema object_type false no_properties [] any_items;
    output_schema =
        schema object_type false
          (property "items" (schema array_type false no_properties [] any_items) no_properties) []
          any_items;
    permission_requirement = tenant;
    minimum_role = some tenant_viewer;
    audit_level = standard;
    http = record { method = get; path = capability_http_path "/import-tasks" };
    cli_command = "ova documents import list";
  };
}
