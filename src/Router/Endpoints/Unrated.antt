-- ===== src/Router/Endpoints/Unrated.antt =====
-- What the default policy makes of endpoints whose metadata names no risk.
use greentic_sorx.Prelude.{
  List, String, Bool, Option, true, none, some, ◌≡◌, ◌≢◌, refl, All, All-of_Memᴰ,
}
use greentic_sorx.Prelude.Results.{ok}
use greentic_sorx.Json
use greentic_sorx.Json.{Value, and_then, as_array, string_field}
use greentic_sorx.Policy.{ApprovalRequirement, PolicyAction, RiskLevel, decide, default_config}
use greentic_sorx.Runtime.Types.{
  EndpointDefinition, EndpointInvocation, ApprovalRequest, ApprovalStatus, is_mutating,
}
use greentic_sorx.Runtime.Hooks.{SorxRuntime, find_endpoint}
use greentic_sorx.Runtime.Command.Context.{Generator}
use greentic_sorx.Runtime.Command.Steps.{EventClock}
use greentic_sorx.Runtime.Invoke.{invoke}
use greentic_sorx.Runtime.Invoke.Refused.{HooksKeep, by_approval, invoke_refused}
use greentic_sorx.Router.Commands.{GatewayCodec}
use greentic_sorx.Router.Endpoints.{EndpointRouter, endpoint, from_agent_gateway_with_options}
use greentic_sorx.Router.Endpoints.Risk.{endpoint-IsRated, IsRated}

high_asked :
    (approval : Option ApprovalRequirement)
    → (decide default_config RiskLevel.high approval).action ≡ PolicyAction.require_approval
unfolding decide
high_asked approval = refl

-- No entry of a gateway names a risk.
abbrev pub IsUnrated : List Value → Type 0
IsUnrated vs = All (λ v. string_field "risk" v ≡ none) vs

module _ (codec : GatewayCodec) (gateway : Value) (strict : Bool) (r : EndpointRouter)
    (vs : List Value) (listed : and_then (Json.get "endpoints" gateway) as_array ≡ some vs)
    (built : from_agent_gateway_with_options codec gateway strict ≡ ok r) where
  unrated_high :
      IsUnrated vs
      → (id : String) (e : EndpointDefinition) → endpoint id r ≡ ok e
      → is_mutating e.operation ≡ true
      → e.risk ≡ RiskLevel.high
  unfolding IsRated
  unrated_high unrated id e found mutates =
      let (v, member, rating) =
        endpoint-IsRated codec gateway strict r vs listed built id e found in
      (rating.1 mutates (All-of_Memᴰ (λ u. string_field "risk" u ≡ none) vs unrated member)).1

  -- Where the runtime has the default policy and the endpoints of a router that was made from a gateway's
  -- metadata, no entry of which names a risk, and the broker never approves, a call of an endpoint that
  -- changes records keeps every predicate that the sinks, hooks and clocks keep: no store is called.
  pub invoke_unrated :
      {W : Type 0} (rt : SorxRuntime W) (gen : Generator W) (clock : EventClock W) {P : W → Type 0}
      → HooksKeep rt P
      → rt.endpoints ≡ r.endpoints
      → rt.policy ≡ default_config
      → ((request : ApprovalRequest) (w : W)
          → (a : _) → (rt.hooks.decide request w).0 ≡ ok a
          → a.status ≢ ApprovalStatus.approved)
      → IsUnrated vs
      → (e : EndpointDefinition) (received : EndpointInvocation)
      → endpoint received.endpoint_id r ≡ ok e
      → is_mutating e.operation ≡ true
      → (w : W) → P w
      → P (invoke rt gen clock received w).1
  unfolding find_endpoint endpoint
  invoke_unrated rt gen clock keep same policy unapproved unrated e received found mutates =
      let high = unrated_high unrated received.endpoint_id e found in
      invoke_refused rt gen clock keep e received (rw same found)
        (by_approval (rw (policy, high) (high_asked e.approval)) unapproved)
