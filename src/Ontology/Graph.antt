-- ===== src/Ontology/Graph.antt =====
-- crates/greentic-sorx-core/src/ontology_graph.rs: the graph, its construction and its lookups.
use greentic_sorx.Prelude.{
  none, true, some, false, Bool, retain, not, List, String, Option, [], ◌∷◌, ◌==◌,
}
use greentic_sorx.Prelude.Text.{◌+++◌}
use greentic_sorx.Prelude.Maps
use greentic_sorx.Prelude.Maps.{Map, values}
use greentic_sorx.Error.{SorxError, SorxResult, new}
use greentic_sorx.Prelude.Results.{ok, ◌>>◌, reject_if}

pub record OntologyConceptNode : Type 0 where
  pub id : String
  pub label : Option String

pub record OntologyRelationshipEdge : Type 0 where
  pub id : String
  pub from : String
  pub to : String
  pub label : Option String

pub record TypePath : Type 0 where
  pub concepts : List String
  pub relationships : List String

pub record OntologyGraphService : Type 0 where
  pub concepts : Map OntologyConceptNode
  pub relationships : Map OntologyRelationshipEdge

-- `contains_key`
abbrev pub is_key : Option OntologyConceptNode → Bool
is_key none = false
is_key (some c) = true

abbrev pub has_concept : String → Map OntologyConceptNode → Bool
has_concept id concepts = is_key (Maps.get id concepts)

-- `collect()` into a map: a later node or edge takes the place of an earlier one with its id.
collect_concepts : List OntologyConceptNode → Map OntologyConceptNode → Map OntologyConceptNode
collect_concepts [] m = m
collect_concepts (c ∷ cs) m = collect_concepts cs (Maps.insert c.id c m)

collect_relationships :
    List OntologyRelationshipEdge → Map OntologyRelationshipEdge → Map OntologyRelationshipEdge
collect_relationships [] m = m
collect_relationships (e ∷ es) m = collect_relationships es (Maps.insert e.id e m)

unknown_end : String → OntologyRelationshipEdge → String → SorxError
unknown_end side e concept = new "ontology_concept_missing" (
    "relationship `" +++ e.id +++ "` references unknown " +++ side +++ " concept `" +++ concept
    +++ "`")

-- The loop over the relationships.
unfoldable pub check_ends :
    Map OntologyConceptNode → List OntologyRelationshipEdge → SorxResult (Unit {0})
unfolding unknown_end
check_ends concepts [] = ok tt
check_ends concepts (e ∷ es) = do
  reject_if (not (has_concept e.from concepts)) (unknown_end "from" e e.from)
  reject_if (not (has_concept e.to concepts)) (unknown_end "to" e e.to)
  check_ends concepts es

unfoldable pub new_graph :
    List OntologyConceptNode → List OntologyRelationshipEdge → SorxResult OntologyGraphService
unfolding collect_concepts collect_relationships check_ends
new_graph concepts relationships =
    let nodes = collect_concepts concepts [] in
    let edges = collect_relationships relationships [] in
    do check_ends nodes (values edges); ok (record { concepts = nodes; relationships = edges })

abbrev pub edges : OntologyGraphService → List OntologyRelationshipEdge
edges g = values g.relationships

unfoldable pub relationships_from : String → OntologyGraphService → List OntologyRelationshipEdge
relationships_from concept g = retain (λ e. e.from == concept) (edges g)

unfoldable pub relationships_to : String → OntologyGraphService → List OntologyRelationshipEdge
relationships_to concept g = retain (λ e. e.to == concept) (edges g)

unfoldable pub require_concept : String → OntologyGraphService → SorxResult (Unit {0})
require_concept concept g =
    reject_if (not (has_concept concept g.concepts))
      (new "ontology_concept_missing" ("ontology concept `" +++ concept +++ "` does not exist"))
