-- ===== src/Ontology/Paths/Complete.antt =====
-- The search finds exactly the simple paths within its depth.
use greentic_sorx.Prelude.{
  sym, ◌∙◌, ap, eqb, ◌↔◌, All-of_Memᴰ, eq_refl, retain-mem, eq_iff, Bool-cases, ◌⊎◌, mem-retain,
  arith, ◌≤◌, inr, length, inl, subst, false, ◌≡◌, All, ℕ, List, String, [], ◌∷◌, ◌==◌,
  if◌then◌else◌, zero, suc, refl,
}
use greentic_sorx.Prelude.Sorting.{sort_by, mem-sort_by, sort_by-mem}
use greentic_sorx.Prelude.Results.{>>=-eq-ok, ok}
use mathlib.Core.List.{Memᴰ, map}
use greentic_sorx.Prelude.Maps.{Set, contains, add, contains-add}
use greentic_sorx.Ontology.Graph.{
  OntologyGraphService, OntologyRelationshipEdge, TypePath, relationships_from, edges,
  require_concept,
}
use greentic_sorx.Ontology.Walk.{WalkState, start_frame, find_type_paths, walk, path_lt}
use greentic_sorx.Ontology.Paths.Search.{trails, trails_by, each_trails, walk_lem}
use mathlib.Core.List.Memᴰ

-- Each relationship starts where the one before it ends.
abbrev pub Linked : String → List OntologyRelationshipEdge → String → Type 0
Linked from [] to = ⊥
Linked from (e ∷ []) to = (e.from ≡ from) × (e.to ≡ to)
Linked from (e ∷ f ∷ es) to = (e.from ≡ from) × Linked e.to (f ∷ es) to

abbrev pub Distinct : List String → Type 0
Distinct [] = Unit
Distinct (x ∷ xs) = All (λ y. (x == y) ≡ false) xs × Distinct xs

abbrev pub targets : List OntologyRelationshipEdge → List String
targets es = map (λ e. e.to) es

-- A path from one concept to another, of relationships of the graph and within the depth, that meets no
-- concept twice.
pub record IsTypePath (g : OntologyGraphService) (from to : String) (depth : ℕ)
    (es : List OntologyRelationshipEdge) : Type 0 where
  pub linked : Linked from es to
  pub known : All (λ e. Memᴰ e (edges g)) es
  pub distinct : Distinct (from ∷ targets es)
  pub bounded : length es ≤ depth

module _ (g : OntologyGraphService) (to : String) where
  -- What the search asks of a way, step by step.
  abbrev Opens : Set → String → List OntologyRelationshipEdge → Type 0
  Opens visited current [] = ⊥
  Opens visited current (e ∷ []) =
      Memᴰ e (edges g) × (e.from ≡ current) × (contains e.to visited ≡ false) × (e.to ≡ to)
  Opens visited current (e ∷ f ∷ es) =
      Memᴰ e (edges g)
      × (e.from ≡ current)
      × (contains e.to visited ≡ false)
      × ((e.to == to) ≡ false)
      × Opens (add e.to visited) e.to (f ∷ es)

  mem-each_trails :
      (ways : Set → String → List (List OntologyRelationshipEdge)) (visited : Set)
      (rs : List OntologyRelationshipEdge) {es : List OntologyRelationshipEdge}
      → Memᴰ es (each_trails g to ways visited rs)
      → (e : OntologyRelationshipEdge) × Memᴰ e rs × Memᴰ es (trails_by g to ways visited e)
  unfolding each_trails
  mem-each_trails ways visited [] m = elim m [ ]
  mem-each_trails ways visited (r ∷ rs) m =
      elim (Memᴰ.append_cases (trails_by g to ways visited r) m) [
        | inl here ↦ (r, Memᴰ.head refl, here)
        | inr there ↦
            let (e, old, found) = mem-each_trails ways visited rs there in (e, Memᴰ.tail old, found)
      ]

  each_trails-mem :
      (ways : Set → String → List (List OntologyRelationshipEdge)) (visited : Set)
      (rs : List OntologyRelationshipEdge) {e : OntologyRelationshipEdge}
      {es : List OntologyRelationshipEdge}
      → Memᴰ e rs
      → Memᴰ es (trails_by g to ways visited e)
      → Memᴰ es (each_trails g to ways visited rs)
  unfolding each_trails
  each_trails-mem ways visited [] m found = elim m [ ]
  each_trails-mem ways visited (r ∷ rs) {es = es} (Memᴰ.head e) found =
      Memᴰ.append_left (each_trails g to ways visited rs)
        (subst (λ x. Memᴰ es (trails_by g to ways visited x)) e found)
  each_trails-mem ways visited (r ∷ rs) (Memᴰ.tail m) found =
      Memᴰ.append_right (trails_by g to ways visited r) (each_trails-mem ways visited rs m found)

  trails_by_cases :
      (ways : Set → String → List (List OntologyRelationshipEdge)) (visited : Set)
      (e : OntologyRelationshipEdge) {es : List OntologyRelationshipEdge}
      → Memᴰ es (trails_by g to ways visited e)
      → (contains e.to visited ≡ false)
        × (((e.to ≡ to) × (es ≡ e ∷ []))
            ⊎ (((e.to == to) ≡ false)
                × (rest : List OntologyRelationshipEdge) × Memᴰ rest (ways (add e.to visited) e.to)
                × (e ∷ rest ≡ es)))
  unfolding trails_by
  trails_by_cases ways visited e {es} m = elim (Bool-cases (contains e.to visited)) [
    | inl seen ↦ absurd (Memᴰ.not-nil (rw seen at m))
    | inr new ↦ elim (Bool-cases (e.to == to)) [
      | inl last ↦ (new, inl ((eq_iff e.to to).0 last, Memᴰ.eq_of_singleton (rw (new, last) at m)))
      | inr more ↦
          let (rest, below, whole) =
            Memᴰ.of_map (λ rest. e ∷ rest) (ways (add e.to visited) e.to) (rw (new, more) at m) in
          (new, inr (more, rest, below, whole))
    ]
  ]

  Opens-step :
      (visited : Set) (e : OntologyRelationshipEdge) (rest : List OntologyRelationshipEdge)
      → Memᴰ e (edges g)
      → contains e.to visited ≡ false
      → (e.to == to) ≡ false
      → Opens (add e.to visited) e.to rest
      → Opens visited e.from (e ∷ rest)
  Opens-step visited e [] m new more h = elim h [ ]
  Opens-step visited e (f ∷ rest) m new more h = (m, refl, new, more, h)

  Opens-trails :
      (depth : ℕ) (visited : Set) (current : String) (es : List OntologyRelationshipEdge)
      → Memᴰ es (trails g to depth visited current)
      → Opens visited current es × (length es ≤ depth)
  unfolding trails relationships_from
  Opens-trails zero visited current es m = elim m [ ]
  Opens-trails (suc depth) visited current es m =
      let (e, from, found) =
        mem-each_trails (trails g to depth) visited (relationships_from current g) m in
      let (old, starts) = mem-retain (λ r. r.from == current) (edges g) from in
      let start : e.from ≡ current = (eq_iff e.from current).0 starts in
      let (new, cases) = trails_by_cases (trails g to depth) visited e found in
      elim cases [
        | inl (last, one) ↦ rw one ((old, start, new, last), omega arith)
        | inr (more, rest, below, whole) ↦
            let (h, short) = Opens-trails depth (add e.to visited) e.to rest below in
            rw (← whole) (
              subst (λ c. Opens visited c (e ∷ rest)) start
                  (Opens-step visited e rest old new more h),
              omega arith,
            )
      ]

  trails-Opens :
      (depth : ℕ) (visited : Set) (current : String) (es : List OntologyRelationshipEdge)
      → Opens visited current es
      → length es ≤ depth
      → Memᴰ es (trails g to depth visited current)
  unfolding trails trails_by relationships_from
  trails-Opens zero visited current [] h short = elim h [ ]
  trails-Opens zero visited current (e ∷ []) h short = absurd (omega arith)
  trails-Opens zero visited current (e ∷ f ∷ es) h short = absurd (omega arith)
  trails-Opens (suc depth) visited current [] h short = elim h [ ]
  trails-Opens (suc depth) visited current (e ∷ []) (m, start, new, last) short =
      each_trails-mem (trails g to depth) visited (relationships_from current g)
        (retain-mem (λ r. r.from == current) (edges g) m ((eq_iff e.from current).1 start))
        (rw (new, last, eq_refl to) (Memᴰ.head refl))
  trails-Opens (suc depth) visited current (e ∷ f ∷ es) (m, start, new, more, h) short =
      each_trails-mem (trails g to depth) visited (relationships_from current g)
        (retain-mem (λ r. r.from == current) (edges g) m ((eq_iff e.from current).1 start))
        (rw (new, more)
          (Memᴰ.map (λ rest. e ∷ rest)
            (trails-Opens depth (add e.to visited) e.to (f ∷ es) h (omega arith))))

  All-imp :
      {A : Type 0} (P Q : A → Type 0) → ((x : A) → P x → Q x) → (xs : List A) → All P xs → All Q xs
  All-imp P Q step [] h = tt
  All-imp P Q step (x ∷ xs) h = (step x h.0, All-imp P Q step xs h.1)

  All-targets_both :
      (P Q R : String → Type 0)
      → ((k : String) → P k → Q k → R k)
      → (ks : List String) → All P ks
      → All Q ks
      → All R ks
  All-targets_both P Q R step [] h k = tt
  All-targets_both P Q R step (x ∷ xs) h k =
      (step x h.0 k.0, All-targets_both P Q R step xs h.1 k.1)

  last-targets :
      (from : String) (es : List OntologyRelationshipEdge)
      → Linked from es to
      → Memᴰ to (targets es)
  last-targets from [] h = elim h [ ]
  last-targets from (e ∷ []) h = Memᴰ.head (sym h.1)
  last-targets from (e ∷ f ∷ es) h = Memᴰ.tail (last-targets e.to (f ∷ es) h.1)

  abbrev Unseen : Set → List OntologyRelationshipEdge → Type 0
  Unseen visited es = All (λ k. contains k visited ≡ false) (targets es)

  abbrev Known : List OntologyRelationshipEdge → Type 0
  Known es = All (λ e. Memᴰ e (edges g)) es

  Opens-Linked :
      (visited : Set) (current : String) (es : List OntologyRelationshipEdge)
      → Opens visited current es
      → Linked current es to × Known es × Unseen visited es × Distinct (targets es)
  Opens-Linked visited current [] h = elim h [ ]
  Opens-Linked visited current (e ∷ []) h = ((h.1, h.3), (h.0, tt), (h.2, tt), (tt, tt))
  Opens-Linked visited current (e ∷ f ∷ es) h =
      let (linked, known, unseen, distinct) = Opens-Linked (add e.to visited) e.to (f ∷ es) h.4 in
      (
        (h.1, linked),
        (h.0, known),
        (
          h.2,
          All-imp _ _ (λ k u. ground (arith, contains-add e.to k visited, u)) (targets (f ∷ es))
              unseen,
        ),
        (
          All-imp _ _ (λ k u. ground (arith, contains-add e.to k visited, u)) (targets (f ∷ es))
              unseen,
          distinct,
        ),
      )

  Linked-Opens :
      (visited : Set) (current : String) (es : List OntologyRelationshipEdge)
      → Linked current es to
      → Known es
      → Unseen visited es
      → Distinct (targets es)
      → Opens visited current es
  Linked-Opens visited current [] l k u d = elim l [ ]
  Linked-Opens visited current (e ∷ []) l k u d = (k.0, l.0, u.0, l.1)
  Linked-Opens visited current (e ∷ f ∷ es) l k u d = (
    k.0,
    l.0,
    u.0,
    All-of_Memᴰ (λ x. (e.to == x) ≡ false) (targets (f ∷ es)) d.0 (last-targets e.to (f ∷ es) l.1),
    Linked-Opens (add e.to visited) e.to (f ∷ es) l.1 k.1
        (All-targets_both _ _ _ (λ x a b. ground (arith, contains-add e.to x visited, a, b))
          (targets (f ∷ es)) u.1 d.0)
        d.1,
  )

contains-one : (k from : String) → contains k (from ∷ []) ≡ (from == k)
unfolding contains
contains-one k from = ground arith

module _ (g : OntologyGraphService) (from to : String) (depth : ℕ) where
  trails_iff :
      (es : List OntologyRelationshipEdge)
      → Memᴰ es (trails g to depth (from ∷ []) from) ↔ IsTypePath g from to depth es
  trails_iff es = (
    λ m.
        let (h, short) = Opens-trails g to depth (from ∷ []) from es m in
        let (linked, known, unseen, distinct) = Opens-Linked g to (from ∷ []) from es h in
        record {
          linked = linked;
          known = known;
          distinct = (
            All-imp g to _ _ (λ k u. sym (contains-one k from) ∙ u) (targets es) unseen,
            distinct,
          );
          bounded = short;
        },
    λ p.
        trails-Opens g to depth (from ∷ []) from es
          (Linked-Opens g to (from ∷ []) from es p.linked p.known
            (All-imp g to _ _ (λ k u. contains-one k from ∙ u) (targets es) p.distinct.0)
            p.distinct.1)
          p.bounded,
  )

  abbrev path_along : List OntologyRelationshipEdge → TypePath
  path_along es = record { concepts = from ∷ targets es; relationships = map (λ e. e.id) es }

  found : List TypePath
  found = map path_along (trails g to depth (from ∷ []) from)

  eqb-suc : (d : ℕ) → eqb (suc d) 0 ≡ false
  eqb-suc d = ground arith

  abbrev sought : ℕ → List TypePath
  sought d =
      if eqb d 0
      then []
      else sort_by path_lt
          (walk g to d (start_frame from) (record { visited = from ∷ []; paths = [] })).paths

  sought_lem :
      (d : ℕ) → sought d ≡ sort_by path_lt (map path_along (trails g to d (from ∷ []) from))
  unfolding trails sort_by
  sought_lem zero = refl
  sought_lem (suc d) = rw (eqb-suc d) (
      ap (λ (st : WalkState). sort_by path_lt st.paths)
        (walk_lem g to (suc d) (start_frame from) (record { visited = from ∷ []; paths = [] })))

  searched :
      {ps : List TypePath} → find_type_paths from to depth g ≡ ok ps → ps ≡ sort_by path_lt found
  unfolding find_type_paths found
  searched {ps} done =
      let (_, _, rest) = >>=-eq-ok (require_concept from g) _ done in
      let (_, _, last) = >>=-eq-ok (require_concept to g) _ rest in
      let whole : sought depth ≡ ps = cc in sym whole ∙ sought_lem depth

  -- The search of a graph that knows both concepts returns exactly the paths from the one to the other
  -- that follow relationships of the graph, are no longer than the depth, and meet no concept twice.
  pub find_type_paths_iff :
      {ps : List TypePath}
      → find_type_paths from to depth g ≡ ok ps
      → (p : TypePath)
      → Memᴰ p ps ↔ (
          (es : List OntologyRelationshipEdge) × IsTypePath g from to depth es
          × (p ≡ record { concepts = from ∷ targets es; relationships = map (λ e. e.id) es }))
  unfolding found
  find_type_paths_iff {ps} done p = (
    λ m.
        let (es, way, whole) =
          Memᴰ.of_map path_along (trails g to depth (from ∷ []) from)
            (mem-sort_by path_lt found (subst (λ xs. Memᴰ p xs) (searched done) m)) in
        (es, (trails_iff es).0 way, sym whole),
    λ (es, path, whole).
        subst (λ xs. Memᴰ p xs) (sym (searched done))
          (sort_by-mem path_lt found
            (subst (λ x. Memᴰ x found) (sym whole) (Memᴰ.map path_along ((trails_iff es).1 path)))),
  )
