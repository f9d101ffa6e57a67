-- ===== src/Capability/Registry/ImportTasks.antt =====
-- Changing and watching imports, in capabilityRegistry of
-- apps/server/src/capabilities/application/capability-registry.ts.
use openviking_admin.Prelude.{some, false, [], ◌∷◌}
use openviking_admin.Capability.Schema.{
  schema, object_type, array_type, string_type, no_properties, property, any_items,
}
use openviking_admin.Capability.Contract.{
  v1, tenant, standard, tenant_viewer, tenant_operator, get, post,
}
use openviking_admin.Capability.Registry.Entry.{
  CapabilityRegistryEntry, capability_http_path, cancel_document_import, retry_document_import,
  watch_document_import_events,
}
use openviking_admin.Capability.Types.{
  documents_import_cancel, documents_import_retry, documents_import_events,
}

abbrev pub documents_import_cancel_entry : CapabilityRegistryEntry
documents_import_cancel_entry = record {
  gateway_handler = cancel_document_import;
  contract = record {
    id = documents_import_cancel;
    version = v1;
    display_name = "Documents Import Cancel";
    description = "取消排队中的文档导入任务";
    input_schema =
        schema object_type false
          (property "taskId" (schema string_type false no_properties [] any_items) no_properties)
          ("taskId" ∷ []) any_items;
    output_schema =
        schema object_type false
          (property "taskId" (schema string_type false no_properties [] any_items) (
            property "status" (schema string_type false no_properties [] any_items) (
              property "item" (schema object_type false no_properties [] any_items) no_properties)))
          [] any_items;
    permission_requirement = tenant;
    minimum_role = some tenant_operator;
    audit_level = standard;
    http = record { method = post; path = capability_http_path "/import-tasks/:id/cancel" };
    cli_command = "ova documents import cancel";
  };
}

abbrev pub documents_import_retry_entry : CapabilityRegistryEntry
documents_import_retry_entry = record {
  gateway_handler = retry_document_import;
  contract = record {
    id = documents_import_retry;
    version = v1;
    display_name = "Documents Import Retry";
    description = "重试失败或已取消的文档导入任务";
    input_schema =
        schema object_type false
          (property "taskId" (schema string_type false no_properties [] any_items) no_properties)
          ("taskId" ∷ []) any_items;
    output_schema =
        schema object_type false
          (property "taskId" (schema string_type false no_properties [] any_items) (
            property "status" (schema string_type false no_properties [] any_items) (
              property "item" (schema object_type false no_properties [] any_items) no_properties)))
          [] any_items;
    permission_requirement = tenant;
    minimum_role = some tenant_operator;
    audit_level = standard;
    http = record { method = post; path = capability_http_path "/import-tasks/:id/retry" };
    cli_command = "ova documents import retry";
  };
}

abbrev pub documents_import_events_entry : CapabilityRegistryEntry
documents_import_events_entry = record {
  gateway_handler = watch_document_import_events;
  contract = record {
    id = documents_import_events;
    version = v1;
    display_name = "Documents Import Events";
    description = "查看文档导入任务的进度事件快照";
    input_schema =
        schema object_type false
          (property "taskId" (schema string_type false no_properties [] any_items) no_properties)
          ("taskId" ∷ []) any_items;
    output_schema =
        schema object_type false
          (property "events" (schema array_type false no_properties [] any_items) no_properties) []
          any_items;
    permission_requirement = tenant;
    minimum_role = some tenant_viewer;
    audit_level = standard;
    http = record { method = get; path = capability_http_path "/import-tasks/:id/events" };
    cli_command = "ova documents import status --watch";
  };
}
