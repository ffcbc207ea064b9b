-- ===== src/Router/Endpoints/Risk.antt =====
-- The risk of a router's endpoints.
use mathlib.Core.List.{Memᴰ}
use greentic_sorx.Prelude.{
  ap, [], ◌∷◌, ℕ, ◌+◌, String, Bool, true, false, List, Option, none, some, ◌≡◌, refl, sym, arith,
  ◌&&◌,
}
use greentic_sorx.Prelude.Results.{ok, same_ok, >>=-eq-ok, ok_or, reject_if}
use greentic_sorx.Error.{SorxError}
use greentic_sorx.Router.Fields.{parse_operation, infer_operation, parse_method}
use greentic_sorx.Json
use greentic_sorx.Json.{Value, string_field, and_then, or_else, as_array, as_object, unwrap_or}
use greentic_sorx.Policy.{RiskLevel}
use greentic_sorx.Runtime.Types.{EndpointDefinition, OperationKind, is_mutating}
use greentic_sorx.Router.Commands.{GatewayCodec}
use greentic_sorx.Router.Endpoints.Lookup.{endpoint_iff}
use greentic_sorx.Router.Endpoints.{
  EndpointRouter, endpoint_risk, endpoint, with_command, default_risk, is_none, parse_endpoint,
  parse_endpoints, from_agent_gateway_with_options,
}

-- What the metadata of an endpoint says of its risk.
unfoldable pub IsRated : Bool → Value → EndpointDefinition → Type 0
IsRated strict v e =
    (e.risk ≡ endpoint_risk (string_field "risk" v) e.operation)
    × (is_mutating e.operation ≡ true
        → string_field "risk" v ≡ none
        → (strict ≡ false) × (e.risk ≡ RiskLevel.high))

rated :
    (strict : Bool) (risk : Option String) (operation : OperationKind) (e : EndpointDefinition)
    (failure : SorxError)
    → reject_if (strict && is_none risk && is_mutating operation) failure ≡ ok tt
    → e.operation ≡ operation
    → e.risk ≡ endpoint_risk risk operation
    → (e.risk ≡ endpoint_risk risk e.operation)
      × (is_mutating e.operation ≡ true
          → risk ≡ none
          → (strict ≡ false) × (e.risk ≡ RiskLevel.high))
unfolding endpoint_risk default_risk is_none
rated strict (some r) operation e failure passed same is = (rw same is, λ m n. absurd (cc n))
rated strict none operation e failure passed same is =
    (rw same is, λ m n. (ground (arith, passed, rw same at m), ground (arith, rw same at m, is)))

module _ (codec : GatewayCodec) where
  parse_endpoint-IsRated :
      (v : Value) (index : ℕ) (strict : Bool) (e : EndpointDefinition)
      → parse_endpoint codec v index strict ≡ ok e
      → IsRated strict v e
  unfolding parse_endpoint IsRated
  parse_endpoint-IsRated v index strict e done =
      let (object, a, done1) = >>=-eq-ok (ok_or (as_object v) _) _ done in
      let (endpoint_id, b, done2) =
        >>=-eq-ok (ok_or (or_else (string_field "endpoint_id" v) (string_field "id" v)) _) _
          done1 in
      let operation_id =
        unwrap_or endpoint_id
          (or_else (string_field "operation_id" v) (string_field "operationId" v)) in
      let (kind, c, done3) =
        >>=-eq-ok
          (ok_or
            (or_else (and_then (string_field "operation" v) parse_operation)
              (infer_operation operation_id))
            _)
          _ done2 in
      let (operation, d, done4) = >>=-eq-ok (with_command codec kind v _) _ done3 in
      let (method, f, done5) =
        >>=-eq-ok (ok_or (and_then (string_field "method" v) parse_method) _) _ done4 in
      let (route_path, g, done6) = >>=-eq-ok (ok_or (string_field "path" v) _) _ done5 in
      let (passed, h, done7) =
        >>=-eq-ok (reject_if (strict && is_none (string_field "risk" v) && is_mutating operation) _)
          _ done6 in
      let is = sym (same_ok _ e done7) in
      rated strict (string_field "risk" v) operation e _ h
        (ap (λ (x : EndpointDefinition). x.operation) is)
        (ap (λ (x : EndpointDefinition). x.risk) is)

  -- A rated endpoint of the metadata.
  Described : Bool → List Value → EndpointDefinition → Type 0
  Described strict vs e = (v : Value) × Memᴰ v vs × IsRated strict v e

  parse_endpoints-Described :
      (vs : List Value) (index : ℕ) (strict : Bool) (es : List EndpointDefinition)
      → parse_endpoints codec vs index strict ≡ ok es
      → (e : EndpointDefinition) → Memᴰ e es
      → Described strict vs e
  unfolding parse_endpoints Described
  parse_endpoints-Described [] index strict es done e member =
      let same : [] ≡ es = cc in elim (rw (← same) at member) [ ]
  parse_endpoints-Described (v ∷ vs) index strict es done e member =
      let (d, parsed, done1) = >>=-eq-ok (parse_endpoint codec v index strict) _ done in
      let (ds, more, done2) = >>=-eq-ok (parse_endpoints codec vs (index + 1) strict) _ done1 in
      let same : d ∷ ds ≡ es = cc done2 in
      elim (rw (← same) at member) [
        | Memᴰ.head is ↦ (v, Memᴰ.head refl, rw is (parse_endpoint-IsRated v index strict d parsed))
        | Memᴰ.tail there ↦
            let (u, listed, rating) =
              parse_endpoints-Described vs (index + 1) strict ds more e there in
            (u, Memᴰ.tail listed, rating)
      ]

  pub endpoint-IsRated :
      (gateway : Value) (strict : Bool) (r : EndpointRouter) (vs : List Value)
      → and_then (Json.get "endpoints" gateway) as_array ≡ some vs
      → from_agent_gateway_with_options codec gateway strict ≡ ok r
      → (id : String) (e : EndpointDefinition) → endpoint id r ≡ ok e
      → (v : Value) × Memᴰ v vs × IsRated strict v e
  unfolding from_agent_gateway_with_options Described
  endpoint-IsRated gateway strict r vs listed done id e found =
      let (us, are, done1) =
        >>=-eq-ok (ok_or (and_then (Json.get "endpoints" gateway) as_array) _) _ done in
      let (definitions, parsed, built) = >>=-eq-ok (parse_endpoints codec us 0 strict) _ done1 in
      let same : us ≡ vs = ground (arith, rw listed at are) in
      rw (← same) (
        parse_endpoints-Described us 0 strict definitions parsed e
          ((endpoint_iff definitions r built id e).0 found).0)
