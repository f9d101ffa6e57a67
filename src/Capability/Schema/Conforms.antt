-- ===== src/Capability/Schema/Conforms.antt =====
-- When a value fits a capability schema, as a relation without paths, orders or messages.
use openviking_admin.Prelude.{String, Bool, true, List, [], ◌∷◌, ◌≡◌, ◌≢◌}
use openviking_admin.Capability.Schema.{
  Value, undefined, null, string, number, boolean, array, object, ValueList, no_values, value_then,
  PropertyValues, SchemaType, object_type, array_type, string_type, number_type, boolean_type,
  CapabilitySchema, schema, Properties, no_properties, property, ItemSchema, any_items, items,
  property_of,
}

abbrev pub HasAll : List String → PropertyValues → Type 0
HasAll [] _ = Unit
HasAll (key ∷ keys) fs = (property_of key fs ≢ undefined) × HasAll keys fs

mutual
  pub data Conforms : CapabilitySchema → Value → Type 0 where
    null_value :
        {t : SchemaType} {n : Bool} {ps : Properties} {r : List String} {es : ItemSchema}
        → n ≡ true
        → Conforms (schema t n ps r es) null
    a_string :
        {n : Bool} {ps : Properties} {r : List String} {es : ItemSchema} {text : String}
        → Conforms (schema string_type n ps r es) (string text)
    a_finite_number :
        {n : Bool} {ps : Properties} {r : List String} {es : ItemSchema} {finite : Bool}
        → finite ≡ true
        → Conforms (schema number_type n ps r es) (number finite)
    a_boolean :
        {n : Bool} {ps : Properties} {r : List String} {es : ItemSchema} {b : Bool}
        → Conforms (schema boolean_type n ps r es) (boolean b)
    an_object :
        {n : Bool} {ps : Properties} {r : List String} {es : ItemSchema} {fs : PropertyValues}
        → HasAll r fs
        → Fits ps fs
        → Conforms (schema object_type n ps r es) (object fs)
    an_array :
        {n : Bool} {ps : Properties} {r : List String} {es : ItemSchema} {vs : ValueList}
        → Each es vs
        → Conforms (schema array_type n ps r es) (array vs)

  -- Each declared property that is there conforms to its schema.
  pub data Fits : Properties → PropertyValues → Type 0 where
    nothing : {fs : PropertyValues} → Fits no_properties fs
    absent :
        {k : String} {s : CapabilitySchema} {ps : Properties} {fs : PropertyValues}
        → property_of k fs ≡ undefined
        → Fits ps fs
        → Fits (property k s ps) fs
    present :
        {k : String} {s : CapabilitySchema} {ps : Properties} {fs : PropertyValues}
        → property_of k fs ≢ undefined
        → Conforms s (property_of k fs)
        → Fits ps fs
        → Fits (property k s ps) fs

  pub data Each : ItemSchema → ValueList → Type 0 where
    anything : {vs : ValueList} → Each any_items vs
    none_left : {s : CapabilitySchema} → Each (items s) no_values
    one_more :
        {s : CapabilitySchema} {v : Value} {vs : ValueList}
        → Conforms s v
        → Each (items s) vs
        → Each (items s) (value_then v vs)
