-- ===== src/Mcp.antt =====
-- crates/greentic-sorx-core/src/mcp.rs: the tools that are offered for a router's endpoints.
pub mod Bound
mod Examples
use greentic_sorx.Prelude.{[], ◌∷◌, ℕ, ◌+◌, String, List, Option, none, some, ◌==◌, not, find}
use greentic_sorx.Prelude.Text.{◌+++◌, to_text}
use greentic_sorx.Prelude.Maps.{Set, contains, add}
use greentic_sorx.Prelude.Results.{ok, err, ◌>>=◌, ◌>>◌, ok_or, reject_if, map_err}
use greentic_sorx.Prelude.Actions
use greentic_sorx.Error.{SorxResult, new, at_path}
use greentic_sorx.Json
use greentic_sorx.Json.{Value, as_array, and_then, or_else, unwrap_or, string_field}
use greentic_sorx.Policy.{RiskLevel}
use greentic_sorx.Runtime.Types.{
  CallerContext, EndpointInvocation, EndpointResult, InvocationSource,
}
use greentic_sorx.Runtime.Hooks.{Effect, SorxRuntime, lift}
use greentic_sorx.Runtime.Command.Context.{Generator}
use greentic_sorx.Runtime.Command.Steps.{EventClock}
use greentic_sorx.Runtime.Invoke.{invoke}
use greentic_sorx.Router.Endpoints.{EndpointRouter, endpoint}

pub record McpToolDefinition : Type 0 where
  pub name : String
  pub description : Option String
  pub endpoint_id : String
  pub operation_id : String
  pub risk : RiskLevel
  pub input_schema : Option Value

pub record McpToolList : Type 0 where
  pub schema : String
  pub tools : List McpToolDefinition

abbrev tools_schema : String
tools_schema = "greentic.sorx.mcp-tools.v1"

-- The body of the loop, for a name that was read.
unfoldable pub parse_tool : String → Value → String → EndpointRouter → SorxResult McpToolDefinition
parse_tool name value path router = do
  endpoint_id ←
      ok_or (or_else (string_field "endpoint_id" value) (string_field "endpointId" value))
        (at_path "invalid_mcp_tools" "tool is missing endpoint_id" path)
  e ←
      map_err
        (λ failure.
          at_path failure.code
            ("MCP tool `" +++ name +++ "` references unknown endpoint `" +++ endpoint_id +++ "`")
            path)
        (endpoint endpoint_id router)
  let operation_id =
      unwrap_or e.operation_id
        (or_else (string_field "operation_id" value) (string_field "operationId" value))
  reject_if (not (operation_id == e.operation_id)) (
      at_path "invalid_mcp_tools"
        ("MCP tool `" +++ name +++ "` maps endpoint `" +++ endpoint_id +++ "` to wrong operation `"
          +++ operation_id +++ "`")
        path)
  ok (record {
    name = name;
    description = string_field "description" value;
    endpoint_id = e.endpoint_id;
    operation_id = e.operation_id;
    risk = e.risk;
    input_schema = or_else (Json.get "input_schema" value) e.input_schema;
  })

unfoldable pub parse_tools :
    List Value → ℕ → Set → EndpointRouter → SorxResult (List McpToolDefinition)
parse_tools [] index names router = ok []
parse_tools (v ∷ vs) index names router = do
  let path = "tools[" +++ to_text index +++ "]"
  name ← ok_or (string_field "name" v) (at_path "invalid_mcp_tools" "tool is missing name" path)
  reject_if (contains name names)
      (at_path "duplicate_mcp_tool" ("duplicate MCP tool `" +++ name +++ "`") path)
  tool ← parse_tool name v path router
  rest ← parse_tools vs (index + 1) (add name names) router
  ok (tool ∷ rest)

unfoldable pub mcp_tools_from_metadata : Option Value → EndpointRouter → SorxResult McpToolList
mcp_tools_from_metadata none router = ok (record { schema = tools_schema; tools = [] })
mcp_tools_from_metadata (some metadata) router = do
  values ←
      ok_or (and_then (Json.get "tools" metadata) as_array)
        (new "invalid_mcp_tools" "mcp-tools.json must contain a tools array")
  tools ← parse_tools values 0 [] router
  ok (record { schema = tools_schema; tools = tools })

-- The tool of a name.
unfoldable pub find_tool : String → McpToolList → SorxResult McpToolDefinition
find_tool name list =
    ok_or (find (λ t. t.name == name) list.tools)
      (new "unknown_mcp_tool" ("unknown MCP tool `" +++ name +++ "`"))

-- The call that is made of a tool.
unfoldable pub tool_invocation :
    McpToolDefinition → String → CallerContext → Value → Option String → EndpointInvocation
tool_invocation tool tenant_id caller input idempotency_key = record {
  tenant_id = tenant_id;
  endpoint_id = tool.endpoint_id;
  operation_id = tool.operation_id;
  input = input;
  caller = caller;
  idempotency_key = idempotency_key;
  source = InvocationSource.mcp;
}

-- `McpRuntime`
pub record McpRuntime (W : Type 0) : Type 0 where
  pub runtime : SorxRuntime W
  pub tools : McpToolList

unfoldable pub call_tool :
    {W : Type 0}
    → Generator W
    → EventClock W
    → McpRuntime W
    → String
    → String
    → CallerContext
    → Value
    → Option String
    → Effect W EndpointResult
unfolding tool_invocation
call_tool gen clock mcp name tenant_id caller input key =
    Actions.◌>>=◌ (lift (find_tool name mcp.tools))
      λ tool. invoke mcp.runtime gen clock (tool_invocation tool tenant_id caller input key)
