-- ===== src/Mcp/Examples.antt =====
-- One tool of a router of one endpoint, on a world that counts the calls of its store.
use mathlib.Core.List.{Memᴰ}
use greentic_sorx.Runtime.Types.{InvocationSource}
use greentic_sorx.Prelude.{[], ◌∷◌, String, false, true, none, some, ◌≡◌, refl, All}
use greentic_sorx.Prelude.Results.{ok}
use greentic_sorx.Json.{Value, end, field, object, array, string, nil, cons}
use greentic_sorx.Policy.{RiskLevel}
use greentic_sorx.Runtime.Types.{EndpointDefinition, EndpointMethod, OperationKind, CallerContext}
use greentic_sorx.Runtime.Hooks.{SorxRuntime, find_endpoint}
use greentic_sorx.Runtime.Invoke.{invoke}
use greentic_sorx.Router.Samples.{World, runtime_of, generator, clock}
use greentic_sorx.Router.Endpoints.{EndpointRouter, new_router}
use greentic_sorx.Mcp.{
  McpToolDefinition, McpToolList, mcp_tools_from_metadata, find_tool, call_tool, tool_invocation,
  tools_schema,
}
use greentic_sorx.Mcp.Bound.{IsBound, AreApart, mcp_tools-IsBound, call_tool_bound}

abbrev tenants : EndpointDefinition
tenants = record {
  endpoint_id = "tenants.create";
  operation_id = "create_tenant";
  operation = OperationKind.create;
  method = EndpointMethod.post;
  path = "/tenants";
  entity = none;
  collection = "records";
  provider_binding = "store";
  risk = RiskLevel.low;
  approval = none;
  authorization = none;
  input_schema = none;
  output_schema = none;
  view = record { read_only = false; input_field_map = []; output_field_map = [] };
  query_plan = record { index = none; traversal = none };
  record_selector = false;
}

abbrev router : EndpointRouter
router = record { endpoints = ("tenants.create", tenants) ∷ [] }

abbrev runtime : SorxRuntime World
runtime = runtime_of router

abbrev metadata : Value
metadata = object (
    field "tools"
      (array (
        cons
          (object (
            field "endpoint_id" (string "tenants.create") (field "name" (string "add_tenant") end)))
          nil))
      end)

abbrev tool : McpToolDefinition
tool = record {
  name = "add_tenant";
  description = none;
  endpoint_id = "tenants.create";
  operation_id = "create_tenant";
  risk = RiskLevel.low;
  input_schema = none;
}

abbrev list : McpToolList
list = record { schema = tools_schema; tools = tool ∷ [] }

abbrev caller : CallerContext
caller = record { subject = "ann"; roles = [] }

built : new_router (tenants ∷ []) ≡ ok router
unfolding new_router greentic_sorx.Router.Endpoints.add_endpoints greentic_sorx.Prelude.Maps.get
    greentic_sorx.Prelude.Maps.insert
built = refl

read : mcp_tools_from_metadata (some metadata) router ≡ ok list
unfolding mcp_tools_from_metadata greentic_sorx.Json.get greentic_sorx.Prelude.Maps.get
    greentic_sorx.Mcp.parse_tools greentic_sorx.Json.string_field
    greentic_sorx.Prelude.Maps.contains greentic_sorx.Mcp.parse_tool
    greentic_sorx.Router.Endpoints.endpoint
read = refl

mcp_tools-IsBound_example : All (IsBound router) list.tools × AreApart list.tools
mcp_tools-IsBound_example = mcp_tools-IsBound (tenants ∷ []) router built (some metadata) list read

call_tool_bound_example :
    (e : EndpointDefinition) × Memᴰ e (tenants ∷ [])
    × (e.risk ≡ tool.risk)
    × (find_endpoint runtime e.endpoint_id ≡ ok e)
    × (call_tool generator clock
          (record { runtime = runtime; tools = list })
          tool.name
          "acme"
          caller
          (object end)
          none
          0
        ≡ invoke runtime generator clock
            (record {
              tenant_id = "acme";
              endpoint_id = e.endpoint_id;
              operation_id = e.operation_id;
              input = object end;
              caller = caller;
              idempotency_key = none;
              source = InvocationSource.mcp;
            })
            0)
call_tool_bound_example =
    call_tool_bound (tenants ∷ []) router built generator clock runtime refl (some metadata) list
      read tool (Memᴰ.head refl) "acme" caller (object end) none 0
