-- ===== src/Router/Endpoints.antt =====
-- crates/greentic-sorx-core/src/router.rs: the parsing of an endpoint, and the router.
pub mod Lookup
pub mod Risk
pub mod Unrated
use greentic_sorx.Prelude.{
  [], ◌∷◌, ℕ, ◌+◌, String, Bool, true, false, List, Option, none, some, ◌&&◌, if◌then◌else◌,
}
use greentic_sorx.Prelude.Text.{◌+++◌, to_text}
use greentic_sorx.Prelude.Maps
use greentic_sorx.Prelude.Maps.{Map}
use greentic_sorx.Prelude.Results.{ok, ◌>>=◌, ◌>>◌, ok_or, reject_if}
use greentic_sorx.Error.{SorxResult, new, at_path}
use greentic_sorx.Json
use greentic_sorx.Json.{Value, as_array, as_object, and_then, or_else, unwrap_or, string_field}
use greentic_sorx.Policy.{RiskLevel, parse_risk}
use greentic_sorx.Runtime.Types.{EndpointDefinition, OperationKind, is_mutating}
use greentic_sorx.Router.Fields.{
  parse_method, parse_operation, infer_operation, default_collection, missing, parse_approval,
  parse_authorization, parse_view_transform, parse_query_plan, parse_record_selector,
}
use greentic_sorx.Router.Commands.{GatewayCodec, invalid, parse_command_spec}

-- `EndpointRouter` is its map.
pub record EndpointRouter : Type 0 where
  pub endpoints : Map EndpointDefinition

is_there : Option EndpointDefinition → Bool
is_there none = false
is_there (some e) = true

unfoldable pub add_endpoints :
    List EndpointDefinition → Map EndpointDefinition → SorxResult (Map EndpointDefinition)
unfolding is_there
add_endpoints [] by_id = ok by_id
add_endpoints (e ∷ es) by_id =
    reject_if (is_there (Maps.get e.endpoint_id by_id))
      (new "duplicate_endpoint" "endpoint router contains a duplicate endpoint id")
    >> add_endpoints es (Maps.insert e.endpoint_id e by_id)

unfoldable pub new_router : List EndpointDefinition → SorxResult EndpointRouter
new_router definitions = do by_id ← add_endpoints definitions []; ok (record { endpoints = by_id })

unfoldable pub endpoint : String → EndpointRouter → SorxResult EndpointDefinition
endpoint endpoint_id r =
    ok_or (Maps.get endpoint_id r.endpoints)
      (new "unknown_endpoint" ("unknown endpoint `" +++ endpoint_id +++ "`"))

is_none : Option String → Bool
is_none none = true
is_none (some s) = false

default_risk : OperationKind → RiskLevel
default_risk operation = if is_mutating operation then RiskLevel.high else RiskLevel.low

unfoldable pub endpoint_risk : Option String → OperationKind → RiskLevel
unfolding default_risk
endpoint_risk risk_value operation =
    unwrap_or (default_risk operation) (and_then risk_value parse_risk)

module _ (codec : GatewayCodec) where
  -- The command of an operation that is one.
  with_command : OperationKind → Value → String → SorxResult OperationKind
  with_command (OperationKind.command spec) value path = do
    parsed ← parse_command_spec codec (Json.get "command" value) path
    ok (OperationKind.command parsed)
  with_command operation value path = ok operation

  unfoldable pub parse_endpoint : Value → ℕ → Bool → SorxResult EndpointDefinition
  unfolding with_command is_none
  parse_endpoint value index strict_risk = do
    let path = "endpoints[" +++ to_text index +++ "]"
    object ← ok_or (as_object value) (invalid "endpoint metadata must be an object" path)
    endpoint_id ←
        ok_or (or_else (string_field "endpoint_id" value) (string_field "id" value))
          (missing path "endpoint_id")
    let operation_id =
        unwrap_or endpoint_id
          (or_else (string_field "operation_id" value) (string_field "operationId" value))
    kind ←
        ok_or
          (or_else (and_then (string_field "operation" value) parse_operation)
            (infer_operation operation_id))
          (invalid ("cannot infer operation kind for `" +++ operation_id +++ "`") path)
    operation ← with_command kind value path
    method ← ok_or (and_then (string_field "method" value) parse_method) (missing path "method")
    route_path ← ok_or (string_field "path" value) (missing path "path")
    let entity = string_field "entity" value
    reject_if (strict_risk && is_none (string_field "risk" value) && is_mutating operation)
        (at_path "risk_missing" "mutating endpoint metadata is missing risk" path)
    ok (record {
      endpoint_id = endpoint_id;
      operation_id = operation_id;
      operation = operation;
      method = method;
      path = route_path;
      entity = entity;
      collection = unwrap_or "records" (
          or_else (string_field "collection" value)
            (and_then entity (λ e. some (default_collection e))));
      provider_binding = unwrap_or "store" (string_field "provider_binding" value);
      risk = endpoint_risk (string_field "risk" value) operation;
      approval = parse_approval (Json.get "approval" value);
      authorization = parse_authorization (Json.get "authorization" value);
      input_schema = Maps.get "input_schema" object;
      output_schema = Maps.get "output_schema" object;
      view = parse_view_transform (Json.get "view" value);
      query_plan =
          parse_query_plan (or_else (Json.get "requires" value) (Json.get "query_plan" value));
      record_selector = parse_record_selector (Json.get "execution" value);
    })

  unfoldable pub parse_endpoints : List Value → ℕ → Bool → SorxResult (List EndpointDefinition)
  parse_endpoints [] index strict_risk = ok []
  parse_endpoints (v ∷ vs) index strict_risk = do
    e ← parse_endpoint v index strict_risk
    es ← parse_endpoints vs (index + 1) strict_risk
    ok (e ∷ es)

  unfoldable pub from_agent_gateway_with_options : Value → Bool → SorxResult EndpointRouter
  from_agent_gateway_with_options gateway strict_risk = do
    endpoints ←
        ok_or (and_then (Json.get "endpoints" gateway) as_array)
          (new "invalid_gateway" "agent gateway metadata must contain an endpoints array")
    definitions ← parse_endpoints endpoints 0 strict_risk
    new_router definitions

  unfoldable pub from_agent_gateway : Value → SorxResult EndpointRouter
  from_agent_gateway gateway = from_agent_gateway_with_options gateway false

  unfoldable pub from_agent_gateway_strict : Value → SorxResult EndpointRouter
  from_agent_gateway_strict gateway = from_agent_gateway_with_options gateway true
