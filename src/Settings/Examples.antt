-- ===== src/Settings/Examples.antt =====
-- Tests of the engine's configuration, and the theorem at concrete settings.
use openviking_admin.Prelude.{◌≡◌, refl, false, none, some, [], ◌∷◌, str_eq, if◌then◌else◌}
use openviking_admin.Tenant.Identity.{
  TenantRow, TenantOvConfig, find_tenant, is_uuid, build_tenant_identity_where,
}
use openviking_admin.Settings.OvConfig.{Environment}

abbrev own : TenantOvConfig
own = record {
  base_url = none;
  api_key = some "00:ff";
  account = none;
  user = some "";
  rerank_endpoint = none;
  rerank_api_key = none;
  rerank_model = none;
}

abbrev acme : TenantRow
acme = record {
  id = "0b8f1c9e-52a4-4c1f-9d3e-6a1b2c3d4e5f";
  tenant_id = "acme";
  viking_account = none;
  max_docs = none;
  ov_config = some own;
}

abbrev settings : Environment
settings = record {
  tenants = acme ∷ [];
  system_config = λ key. if str_eq key "ov.user" then some "old" else none;
  process_env = λ key. if str_eq key "OV_BASE_URL" then some "http://engine" else none;
  decipher = λ text. if str_eq text "00:ff" then some "secret" else none;
  parse = λ text. none;
}

by_record : find_tenant settings.tenants "0b8f1c9e-52a4-4c1f-9d3e-6a1b2c3d4e5f" ≡ some acme
unfolding find_tenant build_tenant_identity_where is_uuid
by_record = refl

not_a_uuid : is_uuid "0b8f1c9e-52a4-6c1f-9d3e-6a1b2c3d4e5f" ≡ false
unfolding is_uuid
not_a_uuid = refl
