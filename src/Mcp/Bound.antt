-- ===== src/Mcp/Bound.antt =====
-- What the tools of a list lead to.
use greentic_sorx.Prelude.{true}
use mathlib.Core.List.{Memᴰ}
use greentic_sorx.Prelude.{find, eq_refl, Bool-cases, inl, inr}
use greentic_sorx.Runtime.Types.{InvocationSource}
use greentic_sorx.Prelude.{
  ◌≢◌, [], ◌∷◌, ℕ, ◌+◌, String, false, List, Option, none, some, ◌≡◌, refl, sym, ap, arith, ◌==◌,
  not, All, All-of_Memᴰ, eq_iff,
}
use greentic_sorx.Prelude.Maps.{Set, contains, add, contains-add}
use greentic_sorx.Prelude.Results.{ok, >>=-eq-ok, ok_or, reject_if, map_err, same_ok, ok_of_map_err}
use greentic_sorx.Prelude.Actions
use greentic_sorx.Json
use greentic_sorx.Json.{Value, as_array, and_then, or_else, unwrap_or, string_field}
use greentic_sorx.Runtime.Types.{CallerContext, EndpointDefinition}
use greentic_sorx.Runtime.Hooks.{SorxRuntime, find_endpoint}
use greentic_sorx.Runtime.Command.Context.{Generator}
use greentic_sorx.Runtime.Command.Steps.{EventClock}
use greentic_sorx.Runtime.Invoke.{invoke}
use greentic_sorx.Router.Endpoints.{EndpointRouter, endpoint, new_router}
use greentic_sorx.Router.Endpoints.Lookup.{endpoint_iff}
use greentic_sorx.Mcp.{
  McpToolDefinition, McpToolList, parse_tool, parse_tools, mcp_tools_from_metadata, find_tool,
  tool_invocation, call_tool,
}

-- A tool leads to an endpoint of the router, and has its operation and risk.
pub IsBound : EndpointRouter → McpToolDefinition → Type 0
IsBound router tool =
    (e : EndpointDefinition) × (endpoint tool.endpoint_id router ≡ ok e)
    × (tool.operation_id ≡ e.operation_id)
    × (tool.risk ≡ e.risk)

-- Each tool is bound and has a name that is not among the given ones.
AreNew : EndpointRouter → Set → List McpToolDefinition → Type 0
AreNew router names tools = All (λ t. (contains t.name names ≡ false) × IsBound router t) tools

-- No two tools share a name.
pub AreApart : List McpToolDefinition → Type 0
AreApart [] = Unit
AreApart (t ∷ ts) = All (λ u. t.name ≢ u.name) ts × AreApart ts

-- Among tools that are apart each is the one of its name.
find_apart :
    (tools : List McpToolDefinition) (tool : McpToolDefinition)
    → AreApart tools
    → Memᴰ tool tools
    → find (λ t. t.name == tool.name) tools ≡ some tool
unfolding AreApart
find_apart [] tool apart m = elim m [ ]
find_apart (t ∷ ts) tool apart (Memᴰ.head is) =
    let own : (t.name == tool.name) ≡ true = rw is (eq_refl t.name) in rw own (ap some (sym is))
find_apart (t ∷ ts) tool apart (Memᴰ.tail m) =
    let differ : t.name ≢ tool.name = All-of_Memᴰ (λ u. t.name ≢ u.name) ts apart.0 m in
    elim (Bool-cases (t.name == tool.name)) [
      | inl same ↦ absurd (differ ((eq_iff t.name tool.name).0 same))
      | inr other ↦ rw other (find_apart ts tool apart.1 m)
    ]

AreNew-of_add :
    (router : EndpointRouter) (name : String) (names : Set) (tools : List McpToolDefinition)
    → AreNew router (add name names) tools
    → AreNew router names tools × All (λ u. name ≢ u.name) tools
unfolding AreNew
AreNew-of_add router name names [] news = (tt, tt)
AreNew-of_add router name names (t ∷ ts) ((fresh, bound), news) =
    let (rest, apart) = AreNew-of_add router name names ts news in
    let outside : (contains t.name names ≡ false) × ((name == t.name) ≡ false) =
      ground (arith, contains-add name t.name names) in
    (
      ((outside.0, bound), rest),
      (λ same. ground (arith, eq_iff name t.name, same, outside.1), apart),
    )

AreNew-cons :
    (router : EndpointRouter) (name : String) (names : Set) (tool : McpToolDefinition)
    (tools : List McpToolDefinition)
    → contains name names ≡ false
    → (tool.name ≡ name) × IsBound router tool
    → AreNew router (add name names) tools × AreApart tools
    → AreNew router names (tool ∷ tools) × AreApart (tool ∷ tools)
unfolding AreNew AreApart
AreNew-cons router name names tool tools fresh (named, bound) (news, apart) =
    let (rest, others) = AreNew-of_add router name names tools news in
    (((rw named fresh, bound), rest), (rw named others, apart))

All-IsBound :
    (router : EndpointRouter) (tools : List McpToolDefinition)
    → AreNew router [] tools
    → All (IsBound router) tools
unfolding AreNew
All-IsBound router [] news = tt
All-IsBound router (t ∷ ts) news = (news.0.1, All-IsBound router ts news.1)

module _ (definitions : List EndpointDefinition) (router : EndpointRouter)
    (built : new_router definitions ≡ ok router) where
  parse_tool-IsBound :
      (name : String) (v : Value) (path : String) (tool : McpToolDefinition)
      → parse_tool name v path router ≡ ok tool
      → (tool.name ≡ name) × IsBound router tool
  unfolding parse_tool IsBound
  parse_tool-IsBound name v path tool done =
      let (id, a, done1) =
        >>=-eq-ok (ok_or (or_else (string_field "endpoint_id" v) (string_field "endpointId" v)) _) _
          done in
      let (e, b, done2) = >>=-eq-ok (map_err _ (endpoint id router)) _ done1 in
      let operation_id =
        unwrap_or e.operation_id
          (or_else (string_field "operation_id" v) (string_field "operationId" v)) in
      let (passed, c, done3) =
        >>=-eq-ok (reject_if (not (operation_id == e.operation_id)) _) _ done2 in
      let found = ok_of_map_err _ (endpoint id router) e b in
      let own : e.endpoint_id ≡ id = ((endpoint_iff definitions router built id e).0 found).1 in
      let is = sym (same_ok _ tool done3) in
      (
        ap (λ (t : McpToolDefinition). t.name) is,
        (
          e,
          rw (ap (λ (t : McpToolDefinition). t.endpoint_id) is, own) found,
          ap (λ (t : McpToolDefinition). t.operation_id) is,
          ap (λ (t : McpToolDefinition). t.risk) is,
        ),
      )

  parse_tools-AreNew :
      (vs : List Value) (index : ℕ) (names : Set) (tools : List McpToolDefinition)
      → parse_tools vs index names router ≡ ok tools
      → AreNew router names tools × AreApart tools
  unfolding parse_tools AreNew AreApart
  parse_tools-AreNew [] index names tools done = let same : [] ≡ tools = cc in rw (← same) (tt, tt)
  parse_tools-AreNew (v ∷ vs) index names tools done =
      let (name, a, done1) = >>=-eq-ok (ok_or (string_field "name" v) _) _ done in
      let (passed, b, done2) = >>=-eq-ok (reject_if (contains name names) _) _ done1 in
      let (tool, c, done3) = >>=-eq-ok (parse_tool name v _ router) _ done2 in
      let (rest, d, done4) =
        >>=-eq-ok (parse_tools vs (index + 1) (add name names) router) _ done3 in
      let same : tool ∷ rest ≡ tools = same_ok _ tools done4 in
      rw (← same) (
        AreNew-cons router name names tool rest (ground (arith, b))
          (parse_tool-IsBound name v _ tool c)
          (parse_tools-AreNew vs (index + 1) (add name names) rest d))

  -- Every tool of a list that was read from metadata, over a router that was built from endpoints, leads to an
  -- endpoint of the router under its id and has its operation and risk, and no two of the tools share a name.
  pub mcp_tools-IsBound :
      (metadata : Option Value) (list : McpToolList)
      → mcp_tools_from_metadata metadata router ≡ ok list
      → All (IsBound router) list.tools × AreApart list.tools
  unfolding mcp_tools_from_metadata AreNew AreApart
  mcp_tools-IsBound none list done = let is = same_ok _ list done in rw (← is) (tt, tt)
  mcp_tools-IsBound (some metadata) list done =
      let (vs, a, done1) =
        >>=-eq-ok (ok_or (and_then (Json.get "tools" metadata) as_array) _) _ done in
      let (tools, b, done2) = >>=-eq-ok (parse_tools vs 0 [] router) _ done1 in
      let is : tools ≡ list.tools = ap (λ (l : McpToolList). l.tools) (same_ok _ list done2) in
      let (news, apart) = parse_tools-AreNew vs 0 [] tools b in
      rw (← is) (All-IsBound router tools news, apart)

  -- Where a runtime has the endpoints of a router that was built from endpoints, a call by name of a tool, of
  -- a list that was read from metadata over the router, is a call of the runtime with the id and the
  -- operation of one of those endpoints, which has the tool's risk and which the runtime finds.
  pub call_tool_bound :
      {W : Type 0} (gen : Generator W) (clock : EventClock W) (rt : SorxRuntime W)
      → rt.endpoints ≡ router.endpoints
      → (metadata : Option Value) (list : McpToolList)
      → mcp_tools_from_metadata metadata router ≡ ok list
      → (tool : McpToolDefinition) → Memᴰ tool list.tools
      → (tenant_id : String) (caller : CallerContext) (input : Value) (key : Option String) (w : W)
      → (e : EndpointDefinition) × Memᴰ e definitions
        × (e.risk ≡ tool.risk)
        × (find_endpoint rt e.endpoint_id ≡ ok e)
        × (call_tool gen clock
              (record { runtime = rt; tools = list })
              tool.name
              tenant_id
              caller
              input
              key
              w
            ≡ invoke rt gen clock
                (record {
                  tenant_id = tenant_id;
                  endpoint_id = e.endpoint_id;
                  operation_id = e.operation_id;
                  input = input;
                  caller = caller;
                  idempotency_key = key;
                  source = InvocationSource.mcp;
                })
                w)
  unfolding find_tool call_tool tool_invocation endpoint find_endpoint Actions.◌>>=◌ IsBound
  call_tool_bound gen clock rt same metadata list read tool member tenant_id caller input key w =
      let (bound, apart) = mcp_tools-IsBound metadata list read in
      let (e, there, operation, risk) = All-of_Memᴰ (IsBound router) list.tools bound member in
      let (listed, at_id) = (endpoint_iff definitions router built tool.endpoint_id e).0 there in
      (
        e,
        listed,
        sym risk,
        rw (same, at_id) there,
        rw (find_apart list.tools tool apart member, at_id, ← operation) refl,
      )
