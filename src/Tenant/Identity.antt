-- ===== src/Tenant/Identity.antt =====
-- apps/server/src/tenant/tenant-identity.util.ts: a tenant is named by its name or, where the text
-- is spelled like a UUID, by the id of its record. A table is the list of its rows, in the order in
-- which the database would answer them.
use Prim.Native.Char.{code}
use openviking_admin.Prelude.{
  ℕ, zero, suc, String, Bool, true, false, ◌&&◌, ◌||◌, List, [], ◌∷◌, str_eq, leb, ◌==◌, Option,
  none, some, if◌then◌else◌,
}

pub record TenantOvConfig : Type 0 where
  pub base_url : Option String
  pub api_key : Option String
  pub account : Option String
  pub user : Option String
  pub rerank_endpoint : Option String
  pub rerank_api_key : Option String
  pub rerank_model : Option String

pub record TenantRow : Type 0 where
  pub id : String
  pub tenant_id : String
  pub viking_account : Option String
  pub max_docs : Option ℕ
  pub ov_config : Option TenantOvConfig

abbrev codes : String → List ℕ
codes String.[] = []
codes (String.◌∷◌ c s) = code c ∷ codes s

abbrev between : ℕ → ℕ → ℕ → Bool
between low high c = leb low c && leb c high

-- What one place of `UUID_PATTERN` takes; the flag `i` allows upper case.
pub data Place : Type 0 where
  hex version variant hyphen : Place

takes : Place → ℕ → Bool
takes hex c = between b'0' b'9' c || between b'a' b'f' c || between b'A' b'F' c
takes version c = between b'1' b'5' c
takes variant c = c == b'8' || c == b'9' || c == b'a' || c == b'b' || c == b'A' || c == b'B'
takes hyphen c = c == b'-'

unfoldable pub hexes : ℕ → List Place → List Place
hexes zero rest = rest
hexes (suc n) rest = hex ∷ hexes n rest

unfoldable pub uuid_pattern : List Place
unfolding hexes
uuid_pattern = hexes 8 (
    hyphen
    ∷ hexes 4 (hyphen ∷ version ∷ hexes 3 (hyphen ∷ variant ∷ hexes 3 (hyphen ∷ hexes 12 []))))

unfoldable pub fits : List Place → List ℕ → Bool
unfolding takes
fits [] [] = true
fits (p ∷ ps) (c ∷ cs) = takes p c && fits ps cs
fits _ _ = false

unfoldable pub is_uuid : String → Bool
unfolding fits uuid_pattern
is_uuid text = fits uuid_pattern (codes text)

-- Whether the row is one that the condition asks for.
unfoldable pub build_tenant_identity_where : String → TenantRow → Bool
unfolding is_uuid
build_tenant_identity_where tenant_id_or_record_id row =
    str_eq row.tenant_id tenant_id_or_record_id
    || (is_uuid tenant_id_or_record_id && str_eq row.id tenant_id_or_record_id)

-- `findOne`
unfoldable pub find_tenant : List TenantRow → String → Option TenantRow
unfolding build_tenant_identity_where
find_tenant [] id = none
find_tenant (row ∷ rows) id =
    if build_tenant_identity_where id row then some row else find_tenant rows id
