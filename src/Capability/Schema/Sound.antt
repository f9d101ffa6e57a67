-- ===== src/Capability/Schema/Sound.antt =====
-- A value without an issue conforms to the schema.
use openviking_admin.Prelude.{
  ℕ, ◌+◌, String, Bool, true, false, List, [], ◌∷◌, ◌≡◌, ◌≢◌, refl, arith, Bool-cases, inl, inr,
  if◌then◌else◌,
}
use openviking_admin.Capability.Schema.{
  is_null, Value, undefined, null, string, number, boolean, array, object, ValueList, no_values,
  value_then, PropertyValues, object_type, array_type, string_type, number_type, boolean_type,
  CapabilitySchema, schema, Properties, no_properties, property, ItemSchema, any_items, items,
  property_of, ValuePath, at_key, at_index, Issue, is_undefined, check_required, is_empty,
  each_item, validate_value, validate_properties, validate_items,
}
use openviking_admin.Capability.Schema.Conforms.{
  HasAll, Conforms, null_value, a_string, a_finite_number, a_boolean, an_object, an_array, Fits,
  nothing, absent, present, Each, anything, none_left, one_more,
}

pub undefined_of : (v : Value) → is_undefined v ≡ true → v ≡ undefined
undefined_of undefined h = refl
undefined_of null h = cc
undefined_of v h = cc

pub defined_of : (v : Value) → is_undefined v ≡ false → v ≢ undefined
defined_of v h e = ground arith

if_empty : (a b : List Issue) → (if is_empty a then b else a) ≡ [] → (a ≡ []) × (b ≡ [])
if_empty [] b h = (refl, h)
if_empty (e ∷ a) b h = cc

check_required_sound :
    (keys : List String) (fs : PropertyValues) (path : ValuePath)
    → check_required keys fs path [] ≡ []
    → HasAll keys fs
unfolding check_required
check_required_sound [] fs path h = tt
check_required_sound (key ∷ keys) fs path h =
    elim (Bool-cases (is_undefined (property_of key fs))) [
      | inl e ↦ absurd (cc (rw e at h))
      | inr e ↦ (defined_of _ e, check_required_sound keys fs path (rw e at h))
    ]

-- An issue found earlier is never dropped.
each_item_keeps :
    (s : CapabilitySchema) (path : ValuePath) (vs : ValueList) (index : ℕ) (e : Issue)
    (es : List Issue)
    → each_item (λ v i errors. validate_value s v (at_index path i) errors) vs index (e ∷ es)
      ≡ e ∷ es
unfolding each_item validate_value
each_item_keeps s path no_values index e es = refl
each_item_keeps s path (value_then v vs) index e es = each_item_keeps s path vs (index + 1) e es

abbrev item_check : CapabilitySchema → ValuePath → Value → ℕ → List Issue → List Issue
item_check s path v i errors = validate_value s v (at_index path i) errors

-- The first item has no issue, and then the others are checked from there.
each_item_split :
    (s : CapabilitySchema) (path : ValuePath) (vs : ValueList) (i : ℕ) (found : List Issue)
    → each_item (item_check s path) vs i found ≡ []
    → found ≡ []
each_item_split s path vs i [] h = refl
each_item_split s path vs i (e ∷ es) h = cc (each_item_keeps s path vs i e es)

each_item_sound :
    (s : CapabilitySchema) (path : ValuePath)
    → ((v : Value) (p : ValuePath) → validate_value s v p [] ≡ [] → Conforms s v)
    → (vs : ValueList) (i : ℕ) → each_item (item_check s path) vs i [] ≡ []
    → Each (items s) vs
unfolding each_item
each_item_sound s path ih no_values i h = none_left
each_item_sound s path ih (value_then v vs) i h =
    let first = each_item_split s path vs (i + 1) (item_check s path v i []) h in
    one_more (ih v (at_index path i) first) (each_item_sound s path ih vs (i + 1) (rw first at h))

nullable_of : (n : Bool) (path : ValuePath) → (if n then [] else is_null path ∷ []) ≡ [] → n ≡ true
nullable_of true path h = refl
nullable_of false path h = cc

mutual
  unfolding validate_value

  pub validate_value_sound :
      (s : CapabilitySchema) (v : Value) (path : ValuePath)
      → validate_value s v path [] ≡ []
      → Conforms s v
  validate_value_sound (schema object_type n ps r es) (object fs) path h =
      let (all, fit) =
        if_empty (check_required r fs path []) (validate_properties ps fs path []) h in
      an_object (check_required_sound r fs path all) (validate_properties_sound ps fs path fit)
  validate_value_sound (schema array_type n ps r es) (array vs) path h =
      an_array (validate_items_sound es vs path h)
  validate_value_sound (schema string_type n ps r es) (string text) path h = a_string
  validate_value_sound (schema number_type n ps r es) (number true) path h = a_finite_number refl
  validate_value_sound (schema boolean_type n ps r es) (boolean b) path h = a_boolean
  validate_value_sound (schema t n ps r es) null path h = null_value (nullable_of n path h)
  validate_value_sound _ _ path h = cc

  validate_properties_sound :
      (ps : Properties) (fs : PropertyValues) (path : ValuePath)
      → validate_properties ps fs path [] ≡ []
      → Fits ps fs
  validate_properties_sound no_properties fs path h = nothing
  validate_properties_sound (property k s ps) fs path h =
      elim (Bool-cases (is_undefined (property_of k fs))) [
        | inl e ↦ absent (undefined_of _ e) (validate_properties_sound ps fs path (rw e at h))
        | inr e ↦
            let (first, rest) =
              if_empty (validate_value s (property_of k fs) (at_key path k) [])
                (validate_properties ps fs path
                  (validate_value s (property_of k fs) (at_key path k) []))
                (rw e at h) in
            present (defined_of _ e)
              (validate_value_sound s (property_of k fs) (at_key path k) first)
              (validate_properties_sound ps fs path (rw first at rest))
      ]

  validate_items_sound :
      (es : ItemSchema) (vs : ValueList) (path : ValuePath)
      → validate_items es vs path ≡ []
      → Each es vs
  validate_items_sound any_items vs path h = anything
  validate_items_sound (items s) vs path h = each_item_sound s path (validate_value_sound s) vs 0 h
