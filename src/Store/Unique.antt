-- ===== src/Store/Unique.antt =====
-- crates/greentic-sorx-core/src/providers/memory.rs: the search for a record that a unique index
-- does not let in.
use greentic_sorx.Prelude.{
  String, Bool, true, false, not, ◌&&◌, Option, none, some, List, [], ◌∷◌, ◌==◌, find,
}
use greentic_sorx.Prelude.Maps.{Map, values}
use greentic_sorx.Prelude.Text.{is_char, split}
use greentic_sorx.Json.{Value, get, and_then, value_eq}
use greentic_sorx.Store.Types.{EntityRecord, UniqueIndex}

pub record UniqueConflict : Type 0 where
  pub index : UniqueIndex
  pub conflict_values : List Value
  pub existing : EntityRecord

walk_path : List String → Value → Option Value
walk_path [] v = some v
walk_path (part ∷ parts) v = and_then (get part v) (walk_path parts)

-- `lookup_path`: the parts of the path between its dots, one inside the other
unfoldable pub lookup_path : String → Value → Option Value
unfolding walk_path split get
lookup_path path v = walk_path (split (is_char b'.') path) v

abbrev cons_some : Option Value → Option (List Value) → Option (List Value)
cons_some none r = none
cons_some (some v) none = none
cons_some (some v) (some vs) = some (v ∷ vs)

-- `none` where one of the fields is missing
unfoldable pub index_values : Value → List String → Option (List Value)
index_values content [] = some []
index_values content (f ∷ fs) = cons_some (lookup_path f content) (index_values content fs)

unfoldable pub values_eq : List Value → List Value → Bool
values_eq [] [] = true
values_eq (v ∷ vs) (w ∷ ws) = value_eq v w && values_eq vs ws
values_eq _ _ = false

abbrev pub some_values_eq : Option (List Value) → List Value → Bool
some_values_eq none vs = false
some_values_eq (some ws) vs = values_eq ws vs

abbrev pub is_current : Option String → EntityRecord → Bool
is_current none r = false
is_current (some id) r = r.id == id

-- A record, other than the one that is written, with the values at the fields of an index.
abbrev pub clashes : Option String → List String → List Value → EntityRecord → Bool
clashes current fs vs r =
    not (is_current current r) && some_values_eq (index_values r.content fs) vs

-- The loop over the indexes. The `?` on the values ends the whole search where a field is missing.
unfoldable pub first_conflict :
    List EntityRecord → List UniqueIndex → Value → Option String → Option UniqueConflict
first_conflict records [] content current = none
first_conflict records (index ∷ rest) content current =
    let later = first_conflict records rest content current in
    elim (index_values content index.fields) [
      | none ↦ none
      | some vs ↦ elim (find (clashes current index.fields vs) records) [
        | some r ↦ some (record { index = index; conflict_values = vs; existing = r })
        | none ↦ later
      ]
    ]

unfoldable pub unique_conflict :
    Option (Map EntityRecord) → List UniqueIndex → Value → Option String → Option UniqueConflict
unique_conflict none indexes content current = none
unique_conflict (some collection) indexes content current =
    first_conflict (values collection) indexes content current
