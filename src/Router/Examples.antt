-- ===== src/Router/Examples.antt =====
-- A gateway of one endpoint.
use mathlib.Core.List.{Memᴰ}
use greentic_sorx.Prelude.{◌≢◌, ap, [], ◌∷◌, List, String, false, none, some, ◌≡◌, refl, ◌↔◌}
use greentic_sorx.Prelude.Results.{ok, same_ok}
use greentic_sorx.Json.{Value, Fields, end, field, object, array, string, nil, cons}
use greentic_sorx.Policy.{RiskLevel}
use greentic_sorx.Router.Samples.{runtime_of, generator, clock}
use greentic_sorx.Router.Endpoints.Unrated.{invoke_unrated}
use greentic_sorx.Runtime.Invoke.{invoke}
use greentic_sorx.Runtime.Invoke.Refused.{HooksKeep}
use greentic_sorx.Runtime.Types.{
  ApprovalDecision, ApprovalStatus, EndpointInvocation, InvocationSource, EndpointDefinition,
  EndpointMethod, OperationKind,
}
use greentic_sorx.Router.Fields.{default_spec}
use greentic_sorx.Router.Commands.{GatewayCodec}
use greentic_sorx.Router.Endpoints.{
  EndpointRouter, endpoint, new_router, from_agent_gateway_with_options,
}
use greentic_sorx.Router.Endpoints.Lookup.{endpoint_iff}

-- Every text is read as the default.
abbrev codec : GatewayCodec
codec = record { constraints = λ value. ok default_spec.constraints; order_by = λ value. ok [] }

abbrev entry : Value
entry = object (
    field "endpoint_id" (string "tenants.create")
      (field "method" (string "POST") (field "path" (string "/tenants") end)))

abbrev gateway : Value
gateway = object (field "endpoints" (array (cons entry nil)) end)

abbrev tenants : EndpointDefinition
tenants = record {
  endpoint_id = "tenants.create";
  operation_id = "tenants.create";
  operation = OperationKind.create;
  method = EndpointMethod.post;
  path = "/tenants";
  entity = none;
  collection = "records";
  provider_binding = "store";
  risk = RiskLevel.high;
  approval = none;
  authorization = none;
  input_schema = none;
  output_schema = none;
  view = record { read_only = false; input_field_map = []; output_field_map = [] };
  query_plan = record { index = none; traversal = none };
  record_selector = false;
}

abbrev router : EndpointRouter
router = record { endpoints = ("tenants.create", tenants) ∷ [] }

parsed : from_agent_gateway_with_options codec gateway false ≡ ok router
unfolding from_agent_gateway_with_options greentic_sorx.Json.get greentic_sorx.Prelude.Maps.get
    greentic_sorx.Router.Endpoints.parse_endpoints greentic_sorx.Router.Endpoints.parse_endpoint
    greentic_sorx.Json.string_field greentic_sorx.Router.Fields.infer_operation
    greentic_sorx.Router.Fields.parse_operation greentic_sorx.Prelude.Text.lowercase
    greentic_sorx.Prelude.Text.split greentic_sorx.Router.Fields.parse_method
    greentic_sorx.Prelude.Text.to_ascii_uppercase new_router
    greentic_sorx.Router.Endpoints.add_endpoints greentic_sorx.Prelude.Maps.insert
    greentic_sorx.Router.Endpoints.endpoint_risk greentic_sorx.Router.Fields.parse_approval
    greentic_sorx.Router.Fields.parse_authorization greentic_sorx.Router.Fields.parse_view_transform
    greentic_sorx.Router.Fields.parse_query_plan greentic_sorx.Router.Fields.parse_record_selector
    greentic_sorx.Router.Fields.flag greentic_sorx.Router.Fields.string_map
parsed = refl

built : new_router (tenants ∷ []) ≡ ok router
unfolding new_router greentic_sorx.Router.Endpoints.add_endpoints greentic_sorx.Prelude.Maps.get
    greentic_sorx.Prelude.Maps.insert
built = refl

endpoint_iff_example :
    (endpoint "tenants.create" router ≡ ok tenants)
    ↔ (Memᴰ tenants (tenants ∷ []) × (tenants.endpoint_id ≡ "tenants.create"))
endpoint_iff_example = endpoint_iff (tenants ∷ []) router built "tenants.create" tenants

abbrev received : EndpointInvocation
received = record {
  tenant_id = "acme";
  endpoint_id = "tenants.create";
  operation_id = "tenants.create";
  input = object end;
  caller = record { subject = "ann"; roles = [] };
  idempotency_key = none;
  source = InvocationSource.http;
}

keeps_count : HooksKeep (runtime_of router) (λ w. w ≡ 0)
keeps_count = record {
  emit = λ e. record { from = λ w h. h };
  observe = λ e. record { from = λ w h. h };
  pre_call = λ context request. record { from = λ w h. h };
  decide = λ request. record { from = λ w h. h };
  elapsed_ms = record { from = λ w h. h };
  now_ns = record { from = λ w h. h };
}

pending_only :
    (status : ApprovalStatus) → ApprovalStatus.pending ≡ status → status ≢ ApprovalStatus.approved
pending_only status is approved = cc

invoke_unrated_example : (invoke (runtime_of router) generator clock received 0).1 ≡ 0
unfolding greentic_sorx.Json.get greentic_sorx.Prelude.Maps.get greentic_sorx.Json.string_field
    endpoint
invoke_unrated_example =
    invoke_unrated codec gateway false router (entry ∷ []) refl parsed (runtime_of router) generator
      clock {P = λ w. w ≡ 0} keeps_count refl refl
      (λ request w a told approved.
        pending_only a.status (ap (λ (d : ApprovalDecision). d.status) (same_ok _ a told)) approved)
      (refl, tt) tenants received refl refl 0 refl
