-- ===== src/Ontology/Examples.antt =====
-- A graph of three concepts, with a cycle.
use greentic_sorx.Prelude.{String, [], ◌∷◌, List, ℕ, ◌≡◌, refl, ◌↔◌, none, map}
use mathlib.Core.List.{Memᴰ}
use greentic_sorx.Prelude.Results.{ok}
use greentic_sorx.Ontology.Graph.{
  OntologyGraphService, OntologyConceptNode, OntologyRelationshipEdge, TypePath, new_graph,
}
use greentic_sorx.Ontology.Walk.{find_type_paths}
use greentic_sorx.Ontology.Paths.Complete.{find_type_paths_iff, IsTypePath, targets}

abbrev node : String → OntologyConceptNode
node id = record { id = id; label = none }

abbrev edge : String → String → String → OntologyRelationshipEdge
edge id from to = record { id = id; from = from; to = to; label = none }

abbrev leases : OntologyGraphService
leases = record {
  concepts = ("Lease", node "Lease") ∷ ("Payment", node "Payment") ∷ ("Tenant", node "Tenant") ∷ [];
  relationships =
      ("cycle_back", edge "cycle_back" "Payment" "Tenant")
      ∷ ("lease_has_payment", edge "lease_has_payment" "Lease" "Payment")
      ∷ ("tenant_has_lease", edge "tenant_has_lease" "Tenant" "Lease")
      ∷ [];
}

leases_built :
    new_graph (node "Payment" ∷ node "Tenant" ∷ node "Lease" ∷ []) (
      edge "tenant_has_lease" "Tenant" "Lease"
      ∷ edge "lease_has_payment" "Lease" "Payment"
      ∷ edge "cycle_back" "Payment" "Tenant"
      ∷ [])
    ≡ ok leases
unfolding new_graph greentic_sorx.Prelude.Maps.insert greentic_sorx.Prelude.text_lt
    greentic_sorx.Prelude.Maps.get
leases_built = refl

abbrev payment_path : TypePath
payment_path = record {
  concepts = "Tenant" ∷ "Lease" ∷ "Payment" ∷ [];
  relationships = "tenant_has_lease" ∷ "lease_has_payment" ∷ [];
}

find_type_paths_iff_example : Memᴰ payment_path (payment_path ∷ []) ↔ (
    (es : List OntologyRelationshipEdge) × IsTypePath leases "Tenant" "Payment" 2 es
    × (payment_path
        ≡ record { concepts = "Tenant" ∷ targets es; relationships = map (λ e. e.id) es }))
unfolding find_type_paths greentic_sorx.Ontology.Graph.require_concept
    greentic_sorx.Prelude.Maps.get greentic_sorx.Prelude.Sorting.sort_by
    greentic_sorx.Ontology.Walk.walk greentic_sorx.Ontology.Graph.relationships_from
    greentic_sorx.Prelude.Maps.contains greentic_sorx.Prelude.Maps.add greentic_sorx.Prelude.text_lt
find_type_paths_iff_example = find_type_paths_iff leases "Tenant" "Payment" 2 refl payment_path
