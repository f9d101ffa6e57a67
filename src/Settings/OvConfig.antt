-- ===== src/Settings/OvConfig.antt =====
-- apps/server/src/settings/ov-config-resolver.service.ts and `decrypt` of
-- apps/server/src/common/encryption.service.ts. What the settings table, the process environment
-- and the table of tenants hold is an `Environment`. `decipher` is the cipher of the crypto
-- library: none is the error it throws. `parse` is JSON.parse, which throws (none) or gives a
-- record of texts. A field that is null or not there is none.
use openviking_admin.Prelude.{
  String, Option, none, some, List, [], ◌∷◌, truthy, or_else, if◌then◌else◌,
}
use openviking_admin.Tenant.Identity.{TenantRow, TenantOvConfig, find_tenant}

pub record ResolvedOvConfig : Type 0 where
  pub base_url : Option String
  pub api_key : Option String
  pub account : Option String
  pub user : Option String
  pub rerank_endpoint : Option String
  pub rerank_api_key : Option String
  pub rerank_model : Option String

pub record Environment : Type 0 where
  pub tenants : List TenantRow
  pub system_config : String → Option String
  pub process_env : String → Option String
  pub decipher : String → Option String
  pub parse : String → Option ResolvedOvConfig

-- `a || b` where it is a text or null.
abbrev pub either : Option String → Option String → Option String
either a b = if truthy a then a else b

-- What cannot be deciphered is given back.
abbrev pub decrypt : Environment → String → String
decrypt env hash = or_else (env.decipher hash) hash

abbrev default_ov_account : String
default_ov_account = "default"

unfoldable pub resolve_env_ov_config : Environment → ResolvedOvConfig
resolve_env_ov_config env = record {
  base_url = env.process_env "OV_BASE_URL";
  api_key = env.process_env "OV_API_KEY";
  account = env.process_env "OV_ACCOUNT";
  user = env.process_env "OV_USER";
  rerank_endpoint = env.process_env "RERANK_ENDPOINT";
  rerank_api_key = env.process_env "RERANK_API_KEY";
  rerank_model = env.process_env "RERANK_MODEL";
}

unfoldable pub get_config_value : Environment → String → Option String
get_config_value env key = either (env.system_config key) none

unfoldable pub resolve_legacy_ov_config : Environment → ResolvedOvConfig
unfolding get_config_value
resolve_legacy_ov_config env = record {
  base_url = get_config_value env "ov.base_url";
  api_key = get_config_value env "ov.api_key";
  account = get_config_value env "ov.account";
  user = get_config_value env "ov.user";
  rerank_endpoint = get_config_value env "rerank.endpoint";
  rerank_api_key = get_config_value env "rerank.api_key";
  rerank_model = get_config_value env "rerank.model";
}

abbrev pub empty_ov_config : ResolvedOvConfig
empty_ov_config = record {
  base_url = none;
  api_key = none;
  account = none;
  user = none;
  rerank_endpoint = none;
  rerank_api_key = none;
  rerank_model = none;
}

-- The text of the object's JSON, or one that does not parse; JSON `null`, on which the source
-- throws when it merges, is left out.
unfoldable pub parse_default_ov_config : Environment → String → ResolvedOvConfig
parse_default_ov_config env value = or_else (env.parse (decrypt env value)) empty_ov_config

-- `configs.find((config) => config.field)?.field ?? null`
unfoldable pub find_field :
    (ResolvedOvConfig → Option String) → List ResolvedOvConfig → Option String
find_field field [] = none
find_field field (config ∷ configs) =
    if truthy (field config) then field config else find_field field configs

unfoldable pub merge_ov_config : List ResolvedOvConfig → ResolvedOvConfig
unfolding find_field
merge_ov_config configs = record {
  base_url = find_field (λ config. config.base_url) configs;
  api_key = find_field (λ config. config.api_key) configs;
  account = some (or_else (find_field (λ config. config.account) configs) default_ov_account);
  user = find_field (λ config. config.user) configs;
  rerank_endpoint = find_field (λ config. config.rerank_endpoint) configs;
  rerank_api_key = find_field (λ config. config.rerank_api_key) configs;
  rerank_model = find_field (λ config. config.rerank_model) configs;
}

-- `!row?.value` is a row that is not there or whose value is empty.
unfoldable pub resolve_default_ov_config : Environment → ResolvedOvConfig
unfolding resolve_env_ov_config resolve_legacy_ov_config parse_default_ov_config merge_ov_config
resolve_default_ov_config env = elim (get_config_value env "DEFAULT_OV_CONFIG") [
  | none ↦ merge_ov_config (resolve_env_ov_config env ∷ resolve_legacy_ov_config env ∷ [])
  | some value ↦ merge_ov_config (
      parse_default_ov_config env value
      ∷ resolve_env_ov_config env
      ∷ resolve_legacy_ov_config env
      ∷ [])
]

abbrev pub decrypt_or : Environment → Option String → Option String → Option String
decrypt_or env none other = other
decrypt_or env (some key) other = if truthy (some key) then some (decrypt env key) else other

unfoldable pub of_tenant :
    Environment → TenantRow → TenantOvConfig → ResolvedOvConfig → ResolvedOvConfig
of_tenant env tenant own global = record {
  base_url = either own.base_url global.base_url;
  api_key = decrypt_or env own.api_key global.api_key;
  account =
      either tenant.viking_account
        (either own.account (either global.account (some default_ov_account)));
  user = either own.user global.user;
  rerank_endpoint = either own.rerank_endpoint global.rerank_endpoint;
  rerank_api_key = decrypt_or env own.rerank_api_key global.rerank_api_key;
  rerank_model = either own.rerank_model global.rerank_model;
}

unfoldable pub of_found : Environment → Option TenantRow → ResolvedOvConfig → ResolvedOvConfig
unfolding of_tenant
of_found env none global = global
of_found env (some tenant) global = elim tenant.ov_config [
  | none ↦ global
  | some own ↦ of_tenant env tenant own global
]

unfoldable pub resolve : Environment → Option String → ResolvedOvConfig
unfolding resolve_default_ov_config of_found find_tenant
resolve env none = resolve_default_ov_config env
resolve env (some tenant_id) =
    if truthy (some tenant_id)
    then of_found env (find_tenant env.tenants tenant_id) (resolve_default_ov_config env)
    else resolve_default_ov_config env
