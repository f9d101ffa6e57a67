-- ===== src/Capability/Catalog.antt =====
-- apps/server/src/capabilities/application/capability-catalog.service.ts: what is listed, for everyone
-- and for a principal, and the tools that are offered from it.
use openviking_admin.Prelude.{
  In-if, String, ◌≡◌, refl, sym, ap, ◌∙◌, ◌↔◌, inl, inr, true, Option, none, some, List, [], ◌∷◌,
  map, if◌then◌else◌, In,
}
use openviking_admin.Capability.Types.{CapabilityId, Principal}
use openviking_admin.Capability.Schema.{CapabilitySchema}
use openviking_admin.Capability.Contract.{CapabilityContract}
use openviking_admin.Capability.Registry.{get_capability_contracts, get_capability_registry_entry}
use openviking_admin.Capability.Authorization.{can_access}

pub record McpToolDefinition : Type 0 where
  pub name : CapabilityId
  pub description : String
  pub input_schema : CapabilitySchema

abbrev pub list_capabilities : List CapabilityContract
list_capabilities = get_capability_contracts

unfoldable pub filter_accessible : Principal → List CapabilityContract → List CapabilityContract
unfolding can_access
filter_accessible principal [] = []
filter_accessible principal (contract ∷ contracts) =
    let rest = filter_accessible principal contracts in
    if can_access contract principal then contract ∷ rest else rest

unfoldable pub list_capabilities_for_principal : Principal → List CapabilityContract
unfolding filter_accessible
list_capabilities_for_principal principal = filter_accessible principal list_capabilities

-- `none` is the error of an unknown capability.
unfoldable pub get_capability : CapabilityId → Option CapabilityContract
unfolding get_capability_registry_entry
get_capability id = elim (get_capability_registry_entry id) [
  | none ↦ none
  | some entry ↦ some entry.contract
]

abbrev pub tool_of : CapabilityContract → McpToolDefinition
tool_of contract = record {
  name = contract.id;
  description = contract.description;
  input_schema = contract.input_schema;
}

unfoldable pub to_mcp_tools : List McpToolDefinition
to_mcp_tools = map tool_of list_capabilities

unfoldable pub to_mcp_tools_for_principal : Principal → List McpToolDefinition
unfolding list_capabilities_for_principal
to_mcp_tools_for_principal principal = map tool_of (list_capabilities_for_principal principal)

filter_accessible_iff :
    (principal : Principal) (contracts : List CapabilityContract) (contract : CapabilityContract)
    → In contract (filter_accessible principal contracts)
      ↔ (In contract contracts × (can_access contract principal ≡ true))
unfolding filter_accessible
filter_accessible_iff principal [] c = (λ m. absurd m, λ (m, _). absurd m)
filter_accessible_iff principal (x ∷ contracts) c =
    let step = In-if c x (can_access x principal) (filter_accessible principal contracts) in
    let rest = filter_accessible_iff principal contracts c in
    (
      λ m. elim (step.0 m) [
        | inl (may, e) ↦ (inl e, ap (λ z. can_access z principal) (sym e) ∙ may)
        | inr n ↦ let (there, may) = rest.0 n in (inr there, may)
      ],
      λ (m, may). elim m [
        | inl e ↦ step.1 (inl (ap (λ z. can_access z principal) e ∙ may, e))
        | inr n ↦ step.1 (inr (rest.1 (n, may)))
      ],
    )

In-map :
    {A B : Type 0} (f : A → B) (y : B) (xs : List A)
    → In y (map f xs) ↔ ((x : A) × In x xs × (f x ≡ y))
In-map f y [] = (λ m. absurd m, λ (x, m, e). absurd m)
In-map f y (x ∷ xs) = (
  λ m. elim m [
    | inl e ↦ (x, inl refl, e)
    | inr n ↦ let (z, there, e) = (In-map f y xs).0 n in (z, inr there, e)
  ],
  λ (z, m, e). elim m [
    | inl same ↦ inl (ap f same ∙ e)
    | inr n ↦ inr ((In-map f y xs).1 (z, n, e))
  ],
)
