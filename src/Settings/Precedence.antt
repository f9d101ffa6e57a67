-- ===== src/Settings/Precedence.antt =====
-- Which of the places where a field of the engine's configuration is set decides it.
use openviking_admin.Prelude.{String, Option, none, some, List, [], ◌∷◌, map, if◌then◌else◌, truthy}
use openviking_admin.Settings.OvConfig.{
  Environment, ResolvedOvConfig, resolve_env_ov_config, resolve_legacy_ov_config, get_config_value,
  parse_default_ov_config, empty_ov_config, decrypt,
}

-- The first that is neither null nor empty.
abbrev pub first_set : List (Option String) → Option String
first_set [] = none
first_set (x ∷ xs) = if truthy x then x else first_set xs

-- What the settings table holds for everyone, or nothing.
abbrev pub stored : Environment → ResolvedOvConfig
stored env = elim (get_config_value env "DEFAULT_OV_CONFIG") [
  | none ↦ empty_ov_config
  | some value ↦ parse_default_ov_config env value
]

-- The places that are asked for every tenant, in their order.
abbrev pub shared : Environment → List ResolvedOvConfig
shared env = stored env ∷ resolve_env_ov_config env ∷ resolve_legacy_ov_config env ∷ []

abbrev pub in_all : Environment → (ResolvedOvConfig → Option String) → List (Option String)
in_all env field = map field (shared env)

abbrev pub deciphered : Environment → Option String → Option String
deciphered env none = none
deciphered env (some key) = some (decrypt env key)
