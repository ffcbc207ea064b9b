-- ===== src/Runtime/Input.antt =====
-- crates/greentic-sorx-core/src/runtime.rs: the renaming of fields, the check of an input against its
-- schema; generic_runtime.rs: the patch of a value.
pub mod Laws
use greentic_sorx.Prelude.{
  [], ◌∷◌, List, ℕ, String, Bool, true, false, not, Option, none, some, ◌==◌, if◌then◌else◌, any,
  ltb, leb,
}
use greentic_sorx.Prelude.Text.{◌+++◌, is_empty}
use greentic_sorx.Prelude.Maps
use greentic_sorx.Prelude.Maps.{Map}
use greentic_sorx.Prelude.Results.{ok, err, ◌>>◌, ok_or, reject_if}
use greentic_sorx.Error.{SorxResult, at_path}
use greentic_sorx.Json
use greentic_sorx.Json.{
  Value, null, bool, number, string, array, object, Items, Fields, end, field, Number, fields,
  to_fields, from_map, as_str, as_array, items, to_items, and_then, unwrap_or, value_eq,
}
use greentic_sorx.Runtime.Types.{ViewTransform}

-- The loop of `rename_object_fields`.
unfoldable pub rename_entries : Map String → Map Value → Map Value → Map Value
rename_entries mapping [] renamed = renamed
rename_entries mapping ((key, value) ∷ entries) renamed =
    rename_entries mapping entries
      (Maps.insert (unwrap_or key (Maps.get key mapping)) value renamed)

rename_object : Map String → Value → Value
unfolding rename_entries
rename_object mapping (object fs) = from_map (rename_entries mapping (fields fs) [])
rename_object mapping value = value

unfoldable pub rename_object_fields : Value → Map String → Value
unfolding rename_object
rename_object_fields value [] = value
rename_object_fields value (m ∷ ms) = rename_object (m ∷ ms) value

unfoldable pub view_to_canonical : ViewTransform → Value → Value
unfolding rename_object_fields
view_to_canonical view input = rename_object_fields input view.input_field_map

-- `object.remove("data")`, put back with its fields renamed.
rename_data : Map String → Map Value → Map Value
unfolding rename_object_fields
rename_data mapping entries = elim (Maps.get "data" entries) [
  | none ↦ entries
  | some value ↦ Maps.insert "data" (rename_object_fields value mapping) entries
]

rename_records : Map String → Items → Items
unfolding rename_data
rename_records mapping Items.nil = Items.nil
rename_records mapping (Items.cons (object fs) vs) =
    Items.cons (from_map (rename_data mapping (fields fs))) (rename_records mapping vs)
rename_records mapping (Items.cons v vs) = Items.cons v (rename_records mapping vs)

-- `object.get_mut("records")`
rename_in_records : Map String → Map Value → Option Value → Map Value
unfolding rename_records
rename_in_records mapping entries (some (array vs)) =
    Maps.insert "records" (array (rename_records mapping vs)) entries
rename_in_records mapping entries other = entries

rename_output : Map String → Value → Value
unfolding rename_data rename_in_records
rename_output [] output = output
rename_output (m ∷ ms) (object fs) =
    let entries = rename_data (m ∷ ms) (fields fs) in
    from_map (rename_in_records (m ∷ ms) entries (Maps.get "records" entries))
rename_output (m ∷ ms) output = output

unfoldable pub canonical_to_view : ViewTransform → Value → Value
unfolding rename_output
canonical_to_view view output = rename_output view.output_field_map output

-- `as_i64().is_some()`
is_integer : Value → Bool
is_integer (number (Number.pos_int n)) = ltb n 9223372036854775808
is_integer (number (Number.neg_int n)) = true
is_integer null = false
is_integer _ = false

has_type : String → Value → Bool
unfolding is_integer
has_type expected value =
    if expected == "object"
    then (elim value [ object fs ↦ true | _ ↦ false ])
    else if expected == "array"
    then (elim value [ array vs ↦ true | _ ↦ false ])
    else if expected == "string"
    then (elim value [ string s ↦ true | _ ↦ false ])
    else if expected == "boolean"
    then (elim value [ bool b ↦ true | _ ↦ false ])
    else if expected == "integer"
    then is_integer value
    else if expected == "number"
    then (elim value [ number n ↦ true | _ ↦ false ])
    else true

unfoldable pub join_path : String → String → String
unfolding is_empty
join_path parent key = if is_empty parent then key else parent +++ "." +++ key

display_path : String → String
unfolding is_empty
display_path path = if is_empty path then "$" else path

check_type : Option String → Value → String → SorxResult (Unit {0})
unfolding has_type display_path
check_type none value path = ok tt
check_type (some expected) value path =
    reject_if (not (has_type expected value))
      (at_path "invalid_input" ("expected " +++ expected) (display_path path))

-- The loop over the `required` names; what is not a text is passed over.
check_required : List Value → Value → String → SorxResult (Unit {0})
unfolding join_path
check_required [] value path = ok tt
check_required (string key ∷ keys) value path = do
  elim (Json.get key value) [
    | none ↦
        err (
          at_path "invalid_input" ("missing required input `" +++ key +++ "`") (join_path path key))
    | some child ↦ ok tt
  ]
  check_required keys value path
check_required (key ∷ keys) value path = check_required keys value path

check_enum : Option (List Value) → Value → String → SorxResult (Unit {0})
unfolding display_path value_eq
check_enum none value path = ok tt
check_enum (some candidates) value path =
    reject_if (not (any (λ candidate. value_eq candidate value) candidates))
      (at_path "invalid_input" "input value is not in the allowed enum" (display_path path))

-- The loop over `properties`, each with the check of its schema.
check_properties :
    List (String × (Value → String → SorxResult (Unit {0})))
    → Value
    → String
    → SorxResult (Unit {0})
unfolding join_path
check_properties [] value path = ok tt
check_properties ((key, check) ∷ checks) value path = do
  elim (Json.get key value) [ none ↦ ok tt | some child ↦ check child (join_path path key) ]
  check_properties checks value path

check_object :
    Value
    → List (String × (Value → String → SorxResult (Unit {0})))
    → Value
    → String
    → SorxResult (Unit {0})
unfolding check_type check_required check_properties check_enum
check_object schema checks value path = do
  check_type (and_then (Json.get "type" schema) as_str) value path
  check_required (unwrap_or [] (and_then (Json.get "required" schema) as_array)) value path
  check_properties checks value path
  check_enum (and_then (Json.get "enum" schema) as_array) value path

-- `validate_schema`, the schema first taken apart into the check that it stands for. A schema that is
-- not an object has none of the fields that are looked up.
unfoldable mutual
  unfolding check_object

  pub validate_schema : Value → Value → String → SorxResult (Unit {0})
  validate_schema (object fs) value path = check_object (object fs) (property_checks fs) value path
  validate_schema schema value path = ok tt

  pub property_checks : Fields → List (String × (Value → String → SorxResult (Unit {0})))
  property_checks end = []
  property_checks (field key v rest) =
      let later = property_checks rest in if key == "properties" then object_checks v else later

  pub object_checks : Value → List (String × (Value → String → SorxResult (Unit {0})))
  object_checks (object fs) = each_check fs
  object_checks v = []

  pub each_check : Fields → List (String × (Value → String → SorxResult (Unit {0})))
  each_check end = []
  each_check (field key v rest) = (key, validate_schema v) ∷ each_check rest

unfoldable pub validate_input : Option Value → Value → SorxResult (Unit {0})
unfolding validate_schema
validate_input none input = ok tt
validate_input (some schema) input = validate_schema schema input ""

unfoldable pub required_string : Value → String → SorxResult String
required_string value key =
    ok_or (and_then (Json.get key value) as_str)
      (at_path "invalid_input" ("missing required string `" +++ key +++ "`") key)

-- `merge_object_patch`: the loop over the patch, and one entry of it.
unfoldable mutual
  pub merge_object_patch : Map Value → Fields → Map Value
  merge_object_patch target end = target
  merge_object_patch target (field key value rest) =
      merge_object_patch (merge_entry target key value) rest

  pub merge_entry : Map Value → String → Value → Map Value
  merge_entry target key null = Maps.remove key target
  merge_entry target key (object nested) = elim (Maps.get key target) [
    | some (object existing) ↦
        Maps.insert key (from_map (merge_object_patch (fields existing) nested)) target
    | _ ↦ Maps.insert key (object nested) target
  ]
  merge_entry target key value = Maps.insert key value target

-- `apply_value_patch`: the value after it
unfoldable pub apply_value_patch : Value → Value → Value
unfolding merge_object_patch
apply_value_patch (object target) (object patch) =
    from_map (merge_object_patch (fields target) patch)
apply_value_patch value patch = patch
