-- ===== src/Router/Fields.antt =====
-- crates/greentic-sorx-core/src/router.rs: the parts of an endpoint's metadata.
use Prim.Native.Char.{Char}
use greentic_sorx.Prelude.{
  [], ◌∷◌, List, ℕ, String, Bool, true, false, Option, none, some, ◌==◌, ◌||◌, if◌then◌else◌, ltb,
}
use greentic_sorx.Prelude.Text.{◌+++◌, lowercase, map_chars, split, is_char, to_ascii_uppercase}
use greentic_sorx.Prelude.Maps
use greentic_sorx.Prelude.Maps.{Map}
use greentic_sorx.Error.{SorxError, at_path}
use greentic_sorx.Json
use greentic_sorx.Json.{
  Value, as_str, as_bool, as_array, as_object, as_u64, and_then, or_else, unwrap_or, string_field,
}
use greentic_sorx.Policy.{ApprovalRequirement}
use greentic_sorx.Runtime.Types.{
  EndpointMethod, OperationKind, CommandSpec, Steps, AuthorizationRoles, AuthorizationRequirement,
  ViewTransform, IndexRequirement, TraversalRequirement, QueryPlan,
}

-- `EndpointMethod::parse`
unfoldable pub parse_method : String → Option EndpointMethod
parse_method value =
    let upper = map_chars to_ascii_uppercase value in
    if upper == "GET"
    then some EndpointMethod.get
    else if upper == "POST"
    then some EndpointMethod.post
    else if upper == "PUT"
    then some EndpointMethod.put
    else if upper == "PATCH"
    then some EndpointMethod.patch
    else if upper == "DELETE"
    then some EndpointMethod.delete
    else none

-- `CommandSpec::default()`
abbrev pub default_spec : CommandSpec
default_spec = record {
  kind = none;
  action = none;
  target = none;
  idempotency = none;
  constraints = record { idempotency = none; unique = [] };
  steps = Steps.stop;
  return_value = none;
}

parse_lower : String → Option OperationKind
parse_lower value =
    if value == "create"
    then some OperationKind.create
    else if value == "get"
    then some OperationKind.get
    else if value == "read"
    then some OperationKind.get
    else if value == "update"
    then some OperationKind.update
    else if value == "patch"
    then some OperationKind.update
    else if value == "query"
    then some OperationKind.query
    else if value == "list"
    then some OperationKind.query
    else if value == "search"
    then some OperationKind.query
    else if value == "delete"
    then some OperationKind.delete
    else if value == "remove"
    then some OperationKind.delete
    else if value == "command"
    then some (OperationKind.command default_spec)
    else none

-- `OperationKind::parse`
unfoldable pub parse_operation : String → Option OperationKind
unfolding parse_lower
parse_operation value = parse_lower (lowercase value)

last_piece : List String → String
last_piece [] = ""
last_piece (w ∷ []) = w
last_piece (w ∷ v ∷ ws) = last_piece (v ∷ ws)

is_separator : Char → Bool
is_separator c = is_char b'.' c || is_char b':' c || is_char b'_' c

-- The piece after the last separator.
unfoldable pub infer_operation : String → Option OperationKind
unfolding last_piece is_separator
infer_operation operation_id = parse_operation (last_piece (split is_separator operation_id))

unfoldable pub default_collection : String → String
default_collection entity = lowercase entity +++ "s"

unfoldable pub missing : String → String → SorxError
missing path name =
    at_path "invalid_gateway" ("endpoint metadata is missing `" +++ name +++ "`") path

-- `filter_map(Value::as_str)`
texts : List Value → List String
texts [] = []
texts (v ∷ vs) = elim (as_str v) [ none ↦ texts vs | some s ↦ s ∷ texts vs ]

unfoldable pub string_array : Option Value → List String
unfolding texts
string_array value = unwrap_or [] (and_then (and_then value as_array) (λ vs. some (texts vs)))

text_entries : Map Value → Map String
text_entries [] = []
text_entries ((k, v) ∷ m) = elim (as_str v) [
  | none ↦ text_entries m
  | some s ↦ (k, s) ∷ text_entries m
]

unfoldable pub string_map : Option Value → Map String
unfolding text_entries
string_map value = unwrap_or [] (and_then (and_then value as_object) (λ m. some (text_entries m)))

unfoldable pub flag : String → Map Value → Bool
flag key object = unwrap_or false (and_then (Maps.get key object) as_bool)

unfoldable pub parse_approval : Option Value → Option ApprovalRequirement
parse_approval value = and_then (and_then value as_object) λ object. some (record {
  required = flag "required" object;
  roles = string_array (Maps.get "roles" object);
  reason_required = flag "reason_required" object;
})

abbrev no_roles : AuthorizationRoles
no_roles = record { any_of = []; all_of = [] }

roles_of : Value → AuthorizationRoles
roles_of value = elim (as_array value) [
  | some values ↦ record { any_of = texts values; all_of = [] }
  | none ↦ elim (as_object value) [
    | none ↦ no_roles
    | some object ↦ record {
      any_of = string_array (or_else (Maps.get "any_of" object) (Maps.get "anyOf" object));
      all_of = string_array (or_else (Maps.get "all_of" object) (Maps.get "allOf" object));
    }
  ]
]

unfoldable pub parse_authorization_roles : Option Value → AuthorizationRoles
unfolding roles_of texts
parse_authorization_roles none = no_roles
parse_authorization_roles (some value) = roles_of value

unfoldable pub parse_authorization : Option Value → Option AuthorizationRequirement
parse_authorization value = and_then (and_then value as_object) λ object. some (record {
  roles = parse_authorization_roles (Maps.get "roles" object);
  policies = string_array (Maps.get "policies" object);
  conditions = Maps.get "conditions" object;
})

unfoldable pub parse_view_transform : Option Value → ViewTransform
parse_view_transform value =
    let object = unwrap_or [] (and_then value as_object) in
    record {
      read_only = flag "read_only" object;
      input_field_map = string_map (Maps.get "view_to_canonical" object);
      output_field_map = string_map (Maps.get "canonical_to_view" object);
    }

unfoldable pub parse_index_requirement : Value → Option IndexRequirement
parse_index_requirement value = elim (as_str value) [
  | some name ↦ some (record { name = name; capability = "exact-index-query" })
  | none ↦ and_then (string_field "name" value) λ name. some (record {
    name = name;
    capability = unwrap_or "exact-index-query" (string_field "capability" value);
  })
]

at_most : ℕ → ℕ → ℕ
at_most bound n = if ltb bound n then bound else n

unfoldable pub parse_traversal_requirement : Value → Option TraversalRequirement
unfolding at_most
parse_traversal_requirement value = elim (as_str value) [
  | some name ↦ some (record {
    name = name;
    capability = "bounded-graph-traversal";
    max_depth = 2;
    relationships = [];
  })
  | none ↦ and_then (string_field "name" value) λ name. some (record {
    name = name;
    capability = unwrap_or "bounded-graph-traversal" (string_field "capability" value);
    max_depth = at_most 255 (unwrap_or 2 (and_then (Json.get "max_depth" value) as_u64));
    relationships = string_array (Json.get "relationships" value);
  })
]

unfoldable pub parse_query_plan : Option Value → QueryPlan
parse_query_plan value =
    let object = unwrap_or [] (and_then value as_object) in
    record {
      index = and_then (Maps.get "index" object) parse_index_requirement;
      traversal = and_then (Maps.get "traversal" object) parse_traversal_requirement;
    }

is_some : Option Value → Bool
is_some none = false
is_some (some v) = true

unfoldable pub parse_record_selector : Option Value → Bool
unfolding is_some
parse_record_selector none = false
parse_record_selector (some value) =
    is_some (or_else (Json.get "record_selector" value) (Json.get "recordSelector" value))
