-- ===== src/Capability/Credentials/Examples.antt =====
-- Tests of keys and credentials, and the theorems at concrete tables.
use openviking_admin.Prelude.{
  ℕ, ◌*◌, ◌≤◌, ◌≡◌, refl, true, Option, none, some, List, [], ◌∷◌, arith, eq_iff, ok, err,
}
use openviking_admin.Capability.Ttl.{resolve_credential_ttl_seconds}
use openviking_admin.Capability.Credentials.Table.{
  CapabilityKey, UserRow, Keys, count_of_user, find_by_api_key, find_of_tenant, find_user, is_taken,
}
use openviking_admin.Capability.Credentials.{
  false, is_expired, Environment, invalid_api_key, create_api_key, delete_key,
  resolve_principal_from_api_key, new_key,
}
use openviking_admin.Capability.Credentials.Runs.{Op, creates, deletes, resolves, run}
use openviking_admin.Capability.Types.{mcp}
use openviking_admin.Capability.Credentials.Lookup.{create_api_key-resolve, StandsFor}
use openviking_admin.Capability.Credentials.Revocation.{delete_key-resolve}
use openviking_admin.Capability.Credentials.Limits.{run-IsWithinLimit}

abbrev alice : UserRow
alice = record {
  id = "u1";
  tenant_id = "acme";
  username = "alice";
  role = "tenant_viewer";
  active = true;
}

abbrev env : Environment
env = record {
  users = alice ∷ [];
  settings = record {
    tenants =
        record {
          id = "t1";
          tenant_id = "acme";
          viking_account = none;
          max_docs = none;
          ov_config = none;
        }
        ∷ [];
    system_config = λ key. none;
    process_env = λ key. some "set";
    decipher = λ text. none;
    parse = λ text. none;
  };
  verify = λ token. none;
}

abbrev week : Option (Option ℕ)
week = some (some (7 * 86400))

abbrev key : CapabilityKey
key = new_key "k1" "ov-sk-1" "u1" "acme" "laptop" (some (7 * 86400)) 5

abbrev table : Keys
table = (create_api_key env "k1" "ov-sk-1" "u1" "acme" "laptop" week 5 []).1

saved : (create_api_key env "k1" "ov-sk-1" "u1" "acme" "laptop" week 5 []).0 ≡ ok key
unfolding create_api_key find_user count_of_user resolve_credential_ttl_seconds is_taken
saved = refl

one_key : table ≡ key ∷ []
unfolding create_api_key find_user count_of_user resolve_credential_ttl_seconds is_taken
one_key = refl

abbrev ops : List (Environment × Op)
ops = (env, deletes "k2" "acme") ∷ (env, resolves "ov-sk-1" mcp 7) ∷ []

-- The key is not expired yet.
still_good : is_expired 604800004 key ≡ false
still_good = refl

create_api_key-resolve_example :
    StandsFor env "u1" "acme" mcp 604800004 key
      (resolve_principal_from_api_key env "ov-sk-1" mcp 604800004 (run ops table)).0
create_api_key-resolve_example =
    create_api_key-resolve env "k1" "ov-sk-1" "u1" "acme" "laptop" week 5 [] key ops env mcp
      604800004 saved ((λ e. ground (arith, (eq_iff "k1" "k2").1 e)), tt)

delete_key-resolve_example :
    (resolve_principal_from_api_key env "ov-sk-1" mcp 9
      (run ((env, resolves "ov-sk-1" mcp 7) ∷ []) (delete_key "k1" "acme" (key ∷ [])).1)).0
    ≡ err invalid_api_key
delete_key-resolve_example =
    delete_key-resolve "k1" "acme" (key ∷ []) key ((env, resolves "ov-sk-1" mcp 7) ∷ []) env mcp 9
      (unfold find_by_api_key in refl, tt) (unfold find_of_tenant in refl) tt

run-IsWithinLimit_example :
    count_of_user "u1" (run ((env, creates "k1" "ov-sk-1" "u1" "acme" "laptop" week 5) ∷ ops) [])
    ≤ 10
run-IsWithinLimit_example =
    run-IsWithinLimit ((env, creates "k1" "ov-sk-1" "u1" "acme" "laptop" week 5) ∷ ops) []
      (λ u. unfold count_of_user in omega arith) "u1"
