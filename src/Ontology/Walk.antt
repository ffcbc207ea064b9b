-- ===== src/Ontology/Walk.antt =====
-- crates/greentic-sorx-core/src/ontology_graph.rs: `walk` and `find_type_paths`.
use greentic_sorx.Prelude.{
  eqb, ◌&&◌, true, not, ℕ, ◌||◌, false, List, String, ◌++◌, Bool, [], ◌∷◌, ◌==◌, if◌then◌else◌,
  zero, suc, text_lt,
}
use greentic_sorx.Prelude.Sorting.{sort_by}
use greentic_sorx.Error.{SorxResult}
use greentic_sorx.Prelude.Maps.{Set, contains, add}
use greentic_sorx.Ontology.Graph.{
  OntologyGraphService, OntologyRelationshipEdge, TypePath, relationships_from, require_concept,
}
use greentic_sorx.Prelude.Results.{ok, ◌>>◌}

-- `visited.remove`
unfoldable pub drop_from : String → Set → Set
drop_from k [] = []
drop_from k (j ∷ s) = let rest = drop_from k s in if j == k then rest else j ∷ rest

-- The frame's `remaining_depth` is the number that `walk` recurs on.
pub record WalkFrame : Type 0 where
  pub current : String
  pub concepts : List String
  pub relationships : List String

-- What `walk` borrows.
pub record WalkState : Type 0 where
  pub visited : Set
  pub paths : List TypePath

abbrev pub next_frame : WalkFrame → OntologyRelationshipEdge → WalkFrame
next_frame frame e = record {
  current = e.to;
  concepts = frame.concepts ++ e.to ∷ [];
  relationships = frame.relationships ++ e.id ∷ [];
}

abbrev pub push_path : WalkFrame → WalkState → WalkState
push_path frame st = record st {
  paths =
      st.paths ++ record { concepts = frame.concepts; relationships = frame.relationships } ∷ [];
}

abbrev pub enter : String → WalkState → WalkState
enter k st = record st { visited = add k st.visited }

abbrev pub leave : String → WalkState → WalkState
leave k st = record st { visited = drop_from k st.visited }

-- One relationship: passed over, the end of a path, or walked further by `deeper`.
unfoldable pub walk_edge :
    (WalkFrame → WalkState → WalkState)
    → String
    → WalkFrame
    → OntologyRelationshipEdge
    → WalkState
    → WalkState
unfolding drop_from
walk_edge deeper target frame e st =
    if contains e.to st.visited
    then st
    else if e.to == target
    then push_path (next_frame frame e) st
    else leave e.to (deeper (next_frame frame e) (enter e.to st))

unfoldable pub walk_edges :
    (WalkFrame → WalkState → WalkState)
    → String
    → WalkFrame
    → List OntologyRelationshipEdge
    → WalkState
    → WalkState
unfolding walk_edge
walk_edges deeper target frame [] st = st
walk_edges deeper target frame (e ∷ es) st =
    walk_edges deeper target frame es (walk_edge deeper target frame e st)

unfoldable pub walk : OntologyGraphService → String → ℕ → WalkFrame → WalkState → WalkState
unfolding walk_edges
walk g target zero frame st = st
walk g target (suc depth) frame st =
    walk_edges (walk g target depth) target frame (relationships_from frame.current g) st

-- The order of `Vec<String>`.
texts_lt : List String → List String → Bool
texts_lt xs [] = false
texts_lt [] (y ∷ ys) = true
texts_lt (x ∷ xs) (y ∷ ys) = text_lt x y || (x == y && texts_lt xs ys)

unfoldable pub path_lt : TypePath → TypePath → Bool
unfolding texts_lt
path_lt left right =
    texts_lt left.relationships right.relationships
    || (not (texts_lt right.relationships left.relationships)
        && texts_lt left.concepts right.concepts)

abbrev pub start_frame : String → WalkFrame
start_frame from = record { current = from; concepts = from ∷ []; relationships = [] }

unfoldable pub find_type_paths :
    String → String → ℕ → OntologyGraphService → SorxResult (List TypePath)
unfolding path_lt
find_type_paths from to max_depth g = do
  require_concept from g
  require_concept to g
  ok (
      if eqb max_depth 0
      then []
      else sort_by path_lt
          (walk g to max_depth (start_frame from)
            (record { visited = from ∷ []; paths = [] })).paths)
