-- ===== src/Router/Endpoints/Lookup.antt =====
-- What a router finds under an id.
use mathlib.Core.List.{Memᴰ}
use greentic_sorx.Prelude.{
  [], ◌∷◌, String, List, none, some, ◌≡◌, refl, ◌↔◌, ◌⊎◌, inl, inr, arith, ◌==◌, eq_iff, Bool-cases,
  Option-cases,
}
use greentic_sorx.Prelude.Maps
use greentic_sorx.Prelude.Maps.{Map, get-insert}
use greentic_sorx.Prelude.Results.{ok, some_of_ok, >>=-eq-ok}
use greentic_sorx.Runtime.Types.{EndpointDefinition}
use greentic_sorx.Router.Endpoints.{EndpointRouter, add_endpoints, new_router, endpoint}

-- The entry of an id after those of a list were added to a map.
Found : List EndpointDefinition → Map EndpointDefinition → String → EndpointDefinition → Type 0
Found es m id e = (Maps.get id m ≡ some e) ⊎ (Memᴰ e es × (e.endpoint_id ≡ id))

added_free :
    (d : EndpointDefinition) (ds : List EndpointDefinition) (m r : Map EndpointDefinition)
    → add_endpoints (d ∷ ds) m ≡ ok r
    → (Maps.get d.endpoint_id m ≡ none) × (add_endpoints ds (Maps.insert d.endpoint_id d m) ≡ ok r)
unfolding add_endpoints
added_free d ds m r done = elim (Option-cases (Maps.get d.endpoint_id m)) [
  | inl free ↦ (free, rw free at done)
  | inr (x, taken) ↦ absurd (ground (arith, rw taken at done))
]

get-inserted :
    (id : String) (d : EndpointDefinition) (m : Map EndpointDefinition) (e : EndpointDefinition)
    → Maps.get id (Maps.insert d.endpoint_id d m) ≡ some e
    → (Maps.get id m ≡ some e) ⊎ ((e ≡ d) × (d.endpoint_id ≡ id))
get-inserted id d m e h = elim (Bool-cases (d.endpoint_id == id)) [
  | inl t ↦
      inr (
        ground (arith, get-insert d.endpoint_id id d m, h),
        ground (arith, eq_iff d.endpoint_id id),
      )
  | inr f ↦ inl (ground (arith, get-insert d.endpoint_id id d m))
]

Found-add_endpoints :
    (es : List EndpointDefinition) (m r : Map EndpointDefinition)
    → add_endpoints es m ≡ ok r
    → (id : String) (e : EndpointDefinition) → Maps.get id r ≡ some e
    → Found es m id e
unfolding Found add_endpoints
Found-add_endpoints [] m r done id e h = let same : m ≡ r = cc in inl (rw same h)
Found-add_endpoints (d ∷ ds) m r done id e h =
    let (free, rest) = added_free d ds m r done in
    elim (Found-add_endpoints ds (Maps.insert d.endpoint_id d m) r rest id e h) [
      | inl here ↦ elim (get-inserted id d m e here) [
        | inl old ↦ inl old
        | inr (same, at_id) ↦ inr (Memᴰ.head same, rw same at_id)
      ]
      | inr (member, at_id) ↦ inr (Memᴰ.tail member, at_id)
    ]

add_endpoints-Found :
    (es : List EndpointDefinition) (m r : Map EndpointDefinition)
    → add_endpoints es m ≡ ok r
    → (id : String) (e : EndpointDefinition) → Found es m id e
    → Maps.get id r ≡ some e
unfolding Found add_endpoints
add_endpoints-Found [] m r done id e (inl h) = let same : m ≡ r = cc in rw (← same) h
add_endpoints-Found [] m r done id e (inr (member, at_id)) = elim member [ ]
add_endpoints-Found (d ∷ ds) m r done id e (inl h) =
    let (free, rest) = added_free d ds m r done in
    add_endpoints-Found ds (Maps.insert d.endpoint_id d m) r rest id e
      (inl (ground (arith, get-insert d.endpoint_id id d m, eq_iff d.endpoint_id id, free, h)))
add_endpoints-Found (d ∷ ds) m r done id e (inr (Memᴰ.head same, at_id)) =
    let (free, rest) = added_free d ds m r done in
    add_endpoints-Found ds (Maps.insert d.endpoint_id d m) r rest id e
      (inl (ground (arith, get-insert d.endpoint_id id d m, eq_iff d.endpoint_id id, same, at_id)))
add_endpoints-Found (d ∷ ds) m r done id e (inr (Memᴰ.tail member, at_id)) =
    let (free, rest) = added_free d ds m r done in
    add_endpoints-Found ds (Maps.insert d.endpoint_id d m) r rest id e (inr (member, at_id))

-- A router that was built from a list finds an endpoint under an id exactly where it is an endpoint of the
-- list with that id.
pub endpoint_iff :
    (definitions : List EndpointDefinition) (r : EndpointRouter)
    → new_router definitions ≡ ok r
    → (id : String) (e : EndpointDefinition)
    → (endpoint id r ≡ ok e) ↔ (Memᴰ e definitions × (e.endpoint_id ≡ id))
unfolding new_router endpoint Found Maps.get
endpoint_iff definitions r built id e =
    let (by_id, added, is) = >>=-eq-ok (add_endpoints definitions []) _ built in
    let same : by_id ≡ r.endpoints = cc in
    (
      λ h.
          elim (Found-add_endpoints definitions [] by_id added id e
            (rw same (some_of_ok (Maps.get id r.endpoints) _ e h))) [
              | inl none_there ↦ absurd (cc none_there)
              | inr there ↦ there
            ],
      λ h.
          let there : Maps.get id r.endpoints ≡ some e =
            rw (← same) (add_endpoints-Found definitions [] by_id added id e (inr h)) in
          rw there refl,
    )
