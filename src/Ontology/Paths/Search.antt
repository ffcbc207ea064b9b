-- ===== src/Ontology/Paths/Search.antt =====
-- `walk` with the visited set passed down, and what it adds to the state of the search.
use greentic_sorx.Prelude.{
  eq_iff, inr, ◌∙◌, arith, inl, ◌++◌, Bool-cases, false, ap, List, ℕ, ◌≡◌, String, [], ◌∷◌, ◌==◌,
  if◌then◌else◌, zero, suc, refl,
}
use greentic_sorx.Prelude.Maps.{Set, contains, add}
use greentic_sorx.Ontology.Walk.{
  WalkFrame, WalkState, walk, walk_edges, walk_edge, drop_from, enter, next_frame,
}
use greentic_sorx.Ontology.Graph.{
  OntologyGraphService, OntologyRelationshipEdge, TypePath, relationships_from,
}
use mathlib.Core.List.{append-nil, append_assoc, map-append, map}

drop_from-add : (k : String) (s : Set) → contains k s ≡ false → drop_from k (add k s) ≡ s
unfolding drop_from contains add
drop_from-add k [] h = ground (arith, eq_iff k k)
drop_from-add k (j ∷ s) h =
    ground (arith, eq_iff k k, eq_iff j k, drop_absent k s, drop_from-add k s)
  where
    drop_absent : (k' : String) (s' : Set) → contains k' s' ≡ false → drop_from k' s' ≡ s'
    drop_absent k' [] h' = refl
    drop_absent k' (i ∷ s') h' = ground (arith, drop_absent k' s')

module _ (g : OntologyGraphService) (target : String) where
  -- The ways from a concept to the target that meet no visited concept and no concept twice.
  unfoldable pub trails_by :
      (Set → String → List (List OntologyRelationshipEdge))
      → Set
      → OntologyRelationshipEdge
      → List (List OntologyRelationshipEdge)
  trails_by deeper visited e =
      if contains e.to visited
      then []
      else if e.to == target
      then (e ∷ []) ∷ []
      else map (λ es. e ∷ es) (deeper (add e.to visited) e.to)

  unfoldable pub each_trails :
      (Set → String → List (List OntologyRelationshipEdge))
      → Set
      → List OntologyRelationshipEdge
      → List (List OntologyRelationshipEdge)
  unfolding trails_by
  each_trails deeper visited [] = []
  each_trails deeper visited (e ∷ es) = trails_by deeper visited e ++ each_trails deeper visited es

  unfoldable pub trails : ℕ → Set → String → List (List OntologyRelationshipEdge)
  unfolding each_trails
  trails zero visited current = []
  trails (suc depth) visited current =
      each_trails (trails depth) visited (relationships_from current g)

  -- A way from the frame's concept, after the frame's own steps.
  abbrev pub path_of : WalkFrame → List OntologyRelationshipEdge → TypePath
  path_of frame es = record {
    concepts = frame.concepts ++ map (λ e. e.to) es;
    relationships = frame.relationships ++ map (λ e. e.id) es;
  }

  abbrev with_paths : WalkFrame → List (List OntologyRelationshipEdge) → WalkState → WalkState
  with_paths frame ts st = record st { paths = st.paths ++ map (path_of frame) ts }

  abbrev pub Finds :
      (WalkFrame → WalkState → WalkState)
      → (Set → String → List (List OntologyRelationshipEdge))
      → Type 0
  Finds deeper ways =
      (frame : WalkFrame) (st : WalkState)
      → deeper frame st ≡ with_paths frame (ways st.visited frame.current) st

  path_of-next :
      (frame : WalkFrame) (e : OntologyRelationshipEdge) (ts : List (List OntologyRelationshipEdge))
      → map (path_of (next_frame frame e)) ts ≡ map (path_of frame) (map (λ es. e ∷ es) ts)
  path_of-next frame e [] = refl
  path_of-next frame e (t ∷ ts) = simp (append_assoc, path_of-next frame e ts)

  walk_edge_lem :
      (deeper : WalkFrame → WalkState → WalkState)
      (ways : Set → String → List (List OntologyRelationshipEdge))
      → Finds deeper ways
      → (frame : WalkFrame) (e : OntologyRelationshipEdge) (st : WalkState)
      → walk_edge deeper target frame e st ≡ with_paths frame (trails_by ways st.visited e) st
  unfolding walk_edge trails_by
  walk_edge_lem deeper ways find frame e st = elim (Bool-cases (contains e.to st.visited)) [
    | inl seen ↦ rw (seen, append-nil)
    | inr new ↦ elim (Bool-cases (e.to == target)) [
      | inl done ↦ rw (new, done)
      | inr more ↦ rw (
        new,
        more,
        find (next_frame frame e) (enter e.to st),
        drop_from-add e.to st.visited new,
        path_of-next frame e (ways (add e.to st.visited) e.to),
      )
    ]
  ]

  walk_edges_lem :
      (deeper : WalkFrame → WalkState → WalkState)
      (ways : Set → String → List (List OntologyRelationshipEdge))
      → Finds deeper ways
      → (frame : WalkFrame) (es : List OntologyRelationshipEdge) (st : WalkState)
      → walk_edges deeper target frame es st ≡ with_paths frame (each_trails ways st.visited es) st
  unfolding walk_edges each_trails
  walk_edges_lem deeper ways find frame [] st = rw append-nil
  walk_edges_lem deeper ways find frame (e ∷ es) st =
      ap (walk_edges deeper target frame es) (walk_edge_lem deeper ways find frame e st)
      ∙ walk_edges_lem deeper ways find frame es (with_paths frame (trails_by ways st.visited e) st)
      ∙ simp (append_assoc, map-append)

  pub walk_lem : (depth : ℕ) → Finds (walk g target depth) (trails depth)
  unfolding walk trails
  walk_lem zero frame st = rw append-nil
  walk_lem (suc depth) frame st =
      walk_edges_lem (walk g target depth) (trails depth) (walk_lem depth) frame
        (relationships_from frame.current g) st
