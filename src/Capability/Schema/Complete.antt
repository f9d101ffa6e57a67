-- ===== src/Capability/Schema/Complete.antt =====
-- A value that conforms to the schema has no issue, and no value has two.
use openviking_admin.Prelude.{ℕ, ◌+◌, String, false, List, [], ◌∷◌, ◌≡◌, ◌∙◌, ◌≢◌, ◌↔◌, refl}
use openviking_admin.Capability.Schema.{
  Value, undefined, ValueList, PropertyValues, CapabilitySchema, Properties, ItemSchema, any_items,
  items, ValuePath, at_key, at_index, Issue, is_undefined, check_required, each_item,
  validate_value, validate_properties, validate_items,
}
use openviking_admin.Capability.Schema.Conforms.{
  HasAll, Conforms, null_value, a_string, a_finite_number, a_boolean, an_object, an_array, Fits,
  nothing, absent, present, Each, anything, none_left, one_more,
}
use openviking_admin.Capability.Schema.Sound.{validate_value_sound}

is_undefined_of : (v : Value) → v ≢ undefined → is_undefined v ≡ false
is_undefined_of undefined h = absurd (h refl)
is_undefined_of _ h = refl

check_required_complete :
    (keys : List String) (fs : PropertyValues) (path : ValuePath)
    → HasAll keys fs
    → check_required keys fs path [] ≡ []
unfolding check_required
check_required_complete [] fs path h = refl
check_required_complete (key ∷ keys) fs path (there, h) =
    rw (is_undefined_of _ there) (check_required_complete keys fs path h)

-- `validate_items` from an index on.
abbrev validate_from : ItemSchema → ValueList → ValuePath → ℕ → List Issue
validate_from any_items vs path i = []
validate_from (items s) vs path i =
    each_item (λ v index errors. validate_value s v (at_index path index) errors) vs i []

validate_items-from :
    (es : ItemSchema) (vs : ValueList) (path : ValuePath)
    → validate_items es vs path ≡ validate_from es vs path 0
unfolding validate_items
validate_items-from any_items vs path = refl
validate_items-from (items s) vs path = refl

mutual
  unfolding validate_value each_item

  validate_value_complete :
      {s : CapabilitySchema} {v : Value} (path : ValuePath)
      → Conforms s v
      → validate_value s v path [] ≡ []
  validate_value_complete path (null_value n) = rw n
  validate_value_complete path a_string = refl
  validate_value_complete path (a_finite_number e) = rw e
  validate_value_complete path a_boolean = refl
  validate_value_complete path (an_object {ps} {r} {fs} all fit) =
      rw (check_required_complete r fs path all) (validate_properties_complete path fit)
  validate_value_complete path (an_array {es} {vs} each) =
      validate_items-from es vs path ∙ validate_items_complete path 0 each

  validate_properties_complete :
      {ps : Properties} {fs : PropertyValues} (path : ValuePath)
      → Fits ps fs
      → validate_properties ps fs path [] ≡ []
  validate_properties_complete path nothing = refl
  validate_properties_complete path (absent e fit) = rw e (validate_properties_complete path fit)
  validate_properties_complete path (present {k} there c fit) =
      rw (is_undefined_of _ there, validate_value_complete (at_key path k) c)
        (validate_properties_complete path fit)

  validate_items_complete :
      {es : ItemSchema} {vs : ValueList} (path : ValuePath) (i : ℕ)
      → Each es vs
      → validate_from es vs path i ≡ []
  validate_items_complete path i anything = refl
  validate_items_complete path i none_left = refl
  validate_items_complete path i (one_more c each) =
      rw (validate_value_complete (at_index path i) c) (validate_items_complete path (i + 1) each)

-- The validator finds no issue in a value exactly when the value conforms to the schema, whatever
-- the path that the messages are to name.
pub validate_value_iff :
    (s : CapabilitySchema) (v : Value) (path : ValuePath)
    → (validate_value s v path [] ≡ []) ↔ Conforms s v
validate_value_iff s v path = (validate_value_sound s v path, validate_value_complete path)
