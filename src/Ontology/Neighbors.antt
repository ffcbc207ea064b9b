-- ===== src/Ontology/Neighbors.antt =====
-- crates/greentic-sorx-core/src/ontology_graph.rs: `neighbors`.
use greentic_sorx.Prelude.{
  [], ◌∷◌, List, ℕ, zero, suc, String, Bool, ◌==◌, ◌||◌, if◌then◌else◌, retain, ◌≡◌, refl, arith,
  All, inl, inr, All-retain, All-by_Memᴰ, Bool-cases,
}
use mathlib.Core.List.{Memᴰ}
use greentic_sorx.Prelude.Maps
use greentic_sorx.Prelude.Maps.{Map, Set, contains, add, values}
use greentic_sorx.Prelude.Results.{ok, ◌>>◌}
use greentic_sorx.Error.{SorxResult}
use greentic_sorx.Ontology.Graph.{
  OntologyGraphService, OntologyRelationshipEdge, require_concept, edges,
}

-- The concepts that a round starts from are an argument of it.
pub record Neighborhood : Type 0 where
  pub next : Set
  pub seen_concepts : Set
  pub seen_relationships : Map OntologyRelationshipEdge

unfoldable pub meet : String → Neighborhood → Neighborhood
meet c h =
    if contains c h.seen_concepts
    then h
    else record h { seen_concepts = add c h.seen_concepts; next = add c h.next }

unfoldable pub see_all : List OntologyRelationshipEdge → Neighborhood → Neighborhood
unfolding meet
see_all [] h = h
see_all (e ∷ es) h = see_all es (
    meet e.to
      (meet e.from (record h { seen_relationships = Maps.insert e.id e h.seen_relationships })))

abbrev pub touches : String → OntologyRelationshipEdge → Bool
touches c e = (e.from == c) || (e.to == c)

unfoldable pub look_around : OntologyGraphService → Set → Neighborhood → Neighborhood
unfolding see_all
look_around g [] h = h
look_around g (c ∷ frontier) h = look_around g frontier (see_all (retain (touches c) (edges g)) h)

unfoldable pub spread : OntologyGraphService → ℕ → Set → Neighborhood → Neighborhood
unfolding look_around
spread g zero frontier h = h
spread g (suc depth) frontier h =
    let met = look_around g frontier (record h { next = [] }) in
    elim (met.next) [ [] ↦ met | c ∷ cs ↦ spread g depth met.next met ]

unfoldable pub neighbors :
    String → ℕ → OntologyGraphService → SorxResult (List OntologyRelationshipEdge)
unfolding spread
neighbors entity_type depth g = do
  require_concept entity_type g
  ok (
      values
        (spread g depth (entity_type ∷ []) (record {
          next = [];
          seen_concepts = entity_type ∷ [];
          seen_relationships = [];
        })).seen_relationships)

module _ (P : OntologyRelationshipEdge → Type 0) where
  All-insert :
      (k : String) (e : OntologyRelationshipEdge) (m : Map OntologyRelationshipEdge)
      → P e
      → All P (values m)
      → All P (values (Maps.insert k e m))
  unfolding Maps.insert
  All-insert k e [] p h = (p, tt)
  All-insert k e ((j, w) ∷ m) p h = ground (arith, All-insert k e m p h.1, p, h)

  meet_same : (c : String) (h : Neighborhood) → (meet c h).seen_relationships ≡ h.seen_relationships
  unfolding meet
  meet_same c h = elim (Bool-cases (contains c h.seen_concepts)) [
    | inl t ↦ rw t refl
    | inr f ↦ rw f refl
  ]

  All-see_all :
      (es : List OntologyRelationshipEdge) (h : Neighborhood)
      → All P es
      → All P (values h.seen_relationships)
      → All P (values (see_all es h).seen_relationships)
  unfolding see_all
  All-see_all [] h ps kept = kept
  All-see_all (e ∷ es) h ps kept =
      let first : Neighborhood = record h {
        seen_relationships = Maps.insert e.id e h.seen_relationships;
      } in
      All-see_all es (meet e.to (meet e.from first)) ps.1 (
        rw (meet_same e.to (meet e.from first), meet_same e.from first)
          (All-insert e.id e h.seen_relationships ps.0 kept))

  choose_All :
      (xs : Set) (a b : Neighborhood)
      → All P (values a.seen_relationships)
      → All P (values b.seen_relationships)
      → All P (values (elim xs as (λ x. Neighborhood) [ [] ↦ a | c ∷ cs ↦ b ]).seen_relationships)
  choose_All [] a b p q = p
  choose_All (x ∷ xs) a b p q = q

  module _ (g : OntologyGraphService) (of_graph : All P (edges g)) where
    All-look_around :
        (frontier : Set) (h : Neighborhood)
        → All P (values h.seen_relationships)
        → All P (values (look_around g frontier h).seen_relationships)
    unfolding look_around
    All-look_around [] h kept = kept
    All-look_around (c ∷ frontier) h kept =
        All-look_around frontier (see_all (retain (touches c) (edges g)) h) (
          All-see_all (retain (touches c) (edges g)) h (All-retain P (touches c) (edges g) of_graph)
            kept)

    All-spread :
        (depth : ℕ) (frontier : Set) (h : Neighborhood)
        → All P (values h.seen_relationships)
        → All P (values (spread g depth frontier h).seen_relationships)
    unfolding spread
    All-spread zero frontier h kept = kept
    All-spread (suc depth) frontier h kept =
        let met = look_around g frontier (record h { next = [] }) in
        let good = All-look_around frontier (record h { next = [] }) kept in
        choose_All met.next met (spread g depth met.next met) good
          (All-spread depth met.next met good)

-- The neighbours of a concept that the graph has are relationships of the graph.
neighbors_are_edges :
    (c : String) (depth : ℕ) (g : OntologyGraphService) (es : List OntologyRelationshipEdge)
    → require_concept c g ≡ ok tt
    → neighbors c depth g ≡ ok es
    → All (λ e. Memᴰ e (edges g)) es
unfolding neighbors
neighbors_are_edges c depth g es known e =
    let start : Neighborhood = record {
      next = [];
      seen_concepts = c ∷ [];
      seen_relationships = [];
    } in
    let is : values (spread g depth (c ∷ []) start).seen_relationships ≡ es =
      ground (arith, rw known at e) in
    rw (← is) (
      All-spread (λ x. Memᴰ x (edges g)) g
        (All-by_Memᴰ (λ x. Memᴰ x (edges g)) (edges g) (λ x m. m)) depth (c ∷ []) start tt)
