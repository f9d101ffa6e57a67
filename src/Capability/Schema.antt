-- ===== src/Capability/Schema.antt =====
-- apps/server/src/capabilities/application/capability-schema-validator.service.ts and
-- CapabilitySchema of apps/server/src/capabilities/domain/capability.types.ts.
-- A value is what JSON parsing gives, with `undefined` and functions added. Of a number it only
-- matters whether it is finite. An object's properties are its own: a schema key that every object
-- inherits ("toString" and the like) is outside of the model. A message is the path with the
-- complaint about it.
pub mod Conforms
pub mod Sound
pub mod Complete
use openviking_admin.Prelude.{
  ℕ, ◌+◌, String, Option, none, some, Bool, true, false, List, [], ◌∷◌, ◌++◌, str_eq, if◌then◌else◌,
}

mutual
  pub data Value : Type 0 where
    undefined null : Value
    string : String → Value
    number : Bool → Value
    boolean : Bool → Value
    function : Value
    array : ValueList → Value
    object : PropertyValues → Value

  pub data ValueList : Type 0 where
    no_values : ValueList
    value_then : Value → ValueList → ValueList

  pub data PropertyValues : Type 0 where
    no_property_values : PropertyValues
    property_value : String → Value → PropertyValues → PropertyValues

pub data SchemaType : Type 0 where
  object_type array_type string_type number_type boolean_type other_type : SchemaType

-- `properties` and `items` may be absent; no property is what absent properties come to.
mutual
  pub data CapabilitySchema : Type 0 where
    schema :
        (type : SchemaType) (nullable : Bool) (properties : Properties) (required : List String)
        → ItemSchema
        → CapabilitySchema

  pub data Properties : Type 0 where
    no_properties : Properties
    property : String → CapabilitySchema → Properties → Properties

  pub data ItemSchema : Type 0 where
    any_items : ItemSchema
    items : CapabilitySchema → ItemSchema

pub data ValuePath : Type 0 where
  root : String → ValuePath
  at_key : ValuePath → String → ValuePath
  at_index : ValuePath → ℕ → ValuePath

pub data Issue : Type 0 where
  is_null : ValuePath → Issue
  not_of_type : SchemaType → ValuePath → Issue
  unsupported_type : ValuePath → Issue
  is_missing : ValuePath → Issue

-- `record[key]`, with `undefined` for a key that is not there.
unfoldable pub property_of : String → PropertyValues → Value
property_of key no_property_values = undefined
property_of key (property_value k v fields) = if str_eq k key then v else property_of key fields

abbrev pub is_undefined : Value → Bool
is_undefined undefined = true
is_undefined _ = false

-- The loop over `schema.required`: the first missing key ends it.
unfoldable pub check_required : List String → PropertyValues → ValuePath → List Issue → List Issue
unfolding property_of
check_required [] given path errors = errors
check_required (key ∷ keys) given path errors =
    if is_undefined (property_of key given)
    then errors ++ is_missing (at_key path key) ∷ []
    else check_required keys given path errors

abbrev pub is_empty : List Issue → Bool
is_empty [] = true
is_empty (_ ∷ _) = false

-- `value.forEach` with the index.
unfoldable pub each_item :
    (Value → ℕ → List Issue → List Issue) → ValueList → ℕ → List Issue → List Issue
each_item check no_values index errors = errors
each_item check (value_then v vs) index errors =
    each_item check vs (index + 1) (check v index errors)

unfoldable mutual
  unfolding check_required each_item property_of

  pub validate_value : CapabilitySchema → Value → ValuePath → List Issue → List Issue
  validate_value s v path (e ∷ errors) = e ∷ errors
  validate_value (schema _ nullable _ _ _) null path [] = if nullable then [] else is_null path ∷ []
  validate_value (schema object_type _ props required _) (object given) path [] =
      let missing = check_required required given path [] in
      let checked = validate_properties props given path [] in
      if is_empty missing then checked else missing
  validate_value (schema object_type _ _ _ _) v path [] = not_of_type object_type path ∷ []
  validate_value (schema array_type _ _ _ elements) (array vs) path [] =
      validate_items elements vs path
  validate_value (schema array_type _ _ _ _) v path [] = not_of_type array_type path ∷ []
  validate_value (schema string_type _ _ _ _) (string text) path [] = []
  validate_value (schema string_type _ _ _ _) v path [] = not_of_type string_type path ∷ []
  validate_value (schema number_type _ _ _ _) (number true) path [] = []
  validate_value (schema number_type _ _ _ _) v path [] = not_of_type number_type path ∷ []
  validate_value (schema boolean_type _ _ _ _) (boolean b) path [] = []
  validate_value (schema boolean_type _ _ _ _) v path [] = not_of_type boolean_type path ∷ []
  validate_value (schema other_type _ _ _ _) v path [] = unsupported_type path ∷ []

  -- The loop over the properties: an error ends it.
  pub validate_properties : Properties → PropertyValues → ValuePath → List Issue → List Issue
  validate_properties no_properties given path errors = errors
  validate_properties (property key s props) given path errors =
      let skipped = validate_properties props given path errors in
      let checked = validate_value s (property_of key given) (at_key path key) errors in
      let next = validate_properties props given path checked in
      if is_undefined (property_of key given)
      then skipped
      else if is_empty checked
      then next
      else checked

  pub validate_items : ItemSchema → ValueList → ValuePath → List Issue
  validate_items any_items vs path = []
  validate_items (items s) vs path =
      each_item (λ v index errors. validate_value s v (at_index path index) errors) vs 0 []
