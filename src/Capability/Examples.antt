-- ===== src/Capability/Examples.antt =====
-- Tests of the capability platform, and its theorems at concrete calls.
use openviking_admin.Prelude.{
  ℕ, String, none, some, true, false, List, [], ◌∷◌, ok, err, is_ok, ◌≡◌, ◌↔◌, refl, arith, map,
  get, inl, set, delete,
}
use openviking_admin.Capability.Types.{
  Principal, knowledge_search, documents_import_create, jwt_access_token, human,
}
use openviking_admin.Capability.Schema.{
  Value, string, object, array, no_values, property_value, no_property_values, root, validate_value,
}
use openviking_admin.Capability.Schema.Conforms.{Conforms}
use openviking_admin.Capability.Schema.Complete.{validate_value_iff}
use openviking_admin.Capability.Contract.{validate_input, validate_output}
use openviking_admin.Capability.Registry.{get_capability_registry_entry}
use openviking_admin.Capability.Registry.Search.{knowledge_search_entry}
use openviking_admin.Capability.Registry.Imports.{documents_import_create_entry}
use openviking_admin.Capability.Authorization.{
  role_weight, resolve_principal_role, authorize, can_access, tenant_required,
}
use openviking_admin.Capability.Authorization.Agreement.{authorize-can_access, authorize_no_tenant}
use openviking_admin.Capability.RateLimit.Store.{Buckets, consume, cleanup_expired}
use openviking_admin.Capability.RateLimit.Refinement.{live, get-consume}
use openviking_admin.Capability.RateLimit.Window.{Call, run, count-consume-run}
use openviking_admin.Capability.RateLimit.Service.{
  RateLimitDecision, in_memory, allowed, assert_allowed, capability_rate_limit_rules,
}
use openviking_admin.Capability.RateLimit.Decisions.{decision_of, first_rejected}
use openviking_admin.Capability.RateLimit.Verdicts.{verdict_of, assert_allowed-verdict}
use openviking_admin.Capability.Exchange.{Claims}
use openviking_admin.Capability.Execution.{Environment, returned, execute}
use openviking_admin.Capability.Execution.Gates.{
  gateway_calls, gateway_calls-execute, execute_refused,
}

abbrev alice : Principal
alice = record {
  user_id = "u1";
  username = some "alice";
  tenant_id = some "t1";
  role = some "tenant_viewer";
  scope = "tenant:t1";
  credential_type = jwt_access_token;
  client_type = human;
  ov_config = record { base_url = ""; api_key = ""; account = "default"; user = none };
}

abbrev question : Value
question = object (property_value "query" (string "leave policy") no_property_values)

abbrev answer : Value
answer = object (property_value "items" (array no_values) no_property_values)

abbrev env : Environment
env = record {
  started_at = 1000;
  limited_at = 1001;
  finished_at = 1040;
  gateway = λ handler principal input. returned answer;
  success_is_recorded = true;
  rejection_is_recorded = true;
}

abbrev full : Buckets
full =
    ("user:u1", record { count = 60; window_started_at = 900; window_ms = 60000 })
    ∷ ("tenant:old", record { count = 3; window_started_at = 0; window_ms = 1000 })
    ∷ []

-- The names that the tests compute with.
running : Unit {0}
unfolding execute assert_allowed consume cleanup_expired get set delete validate_input
    validate_output validate_value authorize role_weight resolve_principal_role
running = tt

search_answers :
    (execute in_memory env knowledge_search question alice ([], [])).0
    ≡ ok (record {
      result_data = answer;
      capability = knowledge_search;
      version = knowledge_search_entry.contract.version;
      duration_ms = 40;
    })
unfolding running
search_answers = refl

limit_rejects : is_ok (execute in_memory env knowledge_search question alice (full, [])).0 ≡ false
unfolding running
limit_rejects = refl

gateway_calls-execute_example :
    (gateway_calls (execute in_memory env knowledge_search question alice ([], [])).1.1 ≡ 1) ↔ (
      (authorize knowledge_search_entry.contract alice ≡ ok tt)
      × Conforms knowledge_search_entry.contract.input_schema question
      × ((ds : List RateLimitDecision) × ((assert_allowed in_memory alice knowledge_search 1001
              []).0
            ≡ allowed ds)))
unfolding get_capability_registry_entry
gateway_calls-execute_example =
    gateway_calls-execute in_memory env knowledge_search knowledge_search_entry question alice []
      refl

execute_refused_example :
    (is_ok (execute in_memory env documents_import_create question alice ([], [])).0 ≡ false)
    × ((execute in_memory env documents_import_create question alice ([], [])).1 ≡ ([], []))
unfolding running get_capability_registry_entry
execute_refused_example =
    execute_refused in_memory env documents_import_create documents_import_create_entry question
      alice [] refl (inl (λ e. cc))

assert_allowed-verdict_example :
    (assert_allowed in_memory alice knowledge_search 1001 full).0
    ≡ verdict_of
        (map
          (decision_of alice knowledge_search 1001 (λ j. live 1001 j full))
          capability_rate_limit_rules)
        (first_rejected alice knowledge_search 1001
          (λ j. live 1001 j full)
          capability_rate_limit_rules)
unfolding get
assert_allowed-verdict_example =
    assert_allowed-verdict alice knowledge_search 1001 full (refl, (refl, tt))

abbrev traffic : List Call
traffic = ("user:u1", 70001) ∷ ("tenant:t1", 70002) ∷ ("user:u1", 70003) ∷ []

count-consume-run_example :
    (consume "user:u1" 60 60000 70009 (run 60 60000 traffic full)).0.state.count ≡ 3
unfolding get
count-consume-run_example =
    count-consume-run 70000 60 60000 70009 "user:u1" traffic full (refl, (refl, tt)) refl
      (omega arith) (omega arith) (omega arith)

get-consume_example :
    get "user:u1" (consume "user:u1" 60 60000 1001 full).1
    ≡ some (record { count = 61; window_started_at = 900; window_ms = 60000 })
unfolding get
get-consume_example = get-consume "user:u1" 60 60000 1001 full (refl, (refl, tt)) "user:u1"

validate_value_iff_example :
    (validate_value knowledge_search_entry.contract.input_schema question (root "input") [] ≡ [])
    ↔ Conforms knowledge_search_entry.contract.input_schema question
validate_value_iff_example =
    validate_value_iff knowledge_search_entry.contract.input_schema question (root "input")

authorize-can_access_example :
    is_ok (authorize documents_import_create_entry.contract alice)
    ≡ can_access documents_import_create_entry.contract alice
unfolding resolve_principal_role
authorize-can_access_example =
    authorize-can_access documents_import_create_entry.contract alice refl

abbrev mallory : Principal
mallory = record alice { role = some "toString" }

abbrev admin : Principal
admin = record alice { role = some "tenant_admin" }

authorize_no_tenant_example :
    authorize knowledge_search_entry.contract (record admin { tenant_id = some "" })
    ≡ err tenant_required
authorize_no_tenant_example =
    authorize_no_tenant knowledge_search_entry.contract (record admin { tenant_id = some "" }) refl

abbrev stamp : Claims → ℕ → String
stamp claims seconds = claims.sub
