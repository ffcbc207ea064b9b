-- ===== src/Store/Query.antt =====
-- crates/greentic-sorx-core/src/providers/memory.rs: the filter and the order of a query.
use Prim.Native.Nat.{Ordering}
use Prim.Native.String.{compare}
use greentic_sorx.Prelude.{Bool, true, false, Option, none, some, List, [], ◌∷◌, if◌then◌else◌}
use greentic_sorx.Prelude.Maps.{Map}
use greentic_sorx.Json.{Value, get, value_eq}
use greentic_sorx.Json
use greentic_sorx.Store.Types.{EntityRecord, QueryOrder, QueryOrderDirection, asc, desc, Host}
use greentic_sorx.Store.Unique.{lookup_path}

abbrev pub is_value : Value → Option Value → Bool
is_value expected none = false
is_value expected (some v) = value_eq v expected

unfoldable pub matches_filter : Value → Map Value → Bool
matches_filter content [] = true
matches_filter content ((key, expected) ∷ filter) =
    if is_value expected (get key content) then matches_filter content filter else false

reverse : Ordering → Ordering
reverse Ordering.lt = Ordering.gt
reverse Ordering.eq = Ordering.eq
reverse Ordering.gt = Ordering.lt

bool_cmp : Bool → Bool → Ordering
bool_cmp false true = Ordering.lt
bool_cmp true false = Ordering.gt
bool_cmp _ _ = Ordering.eq

module _ (host : Host) where
  compare_values : Option Value → Option Value → Ordering
  unfolding bool_cmp
  compare_values (some (Json.number a)) (some (Json.number b)) = host.number_cmp a b
  compare_values (some (Json.string a)) (some (Json.string b)) = compare a b
  compare_values (some (Json.bool a)) (some (Json.bool b)) = bool_cmp a b
  compare_values (some a) (some b) = compare (host.to_json a) (host.to_json b)
  compare_values none (some b) = Ordering.gt
  compare_values (some a) none = Ordering.lt
  compare_values none none = Ordering.eq

  turn : QueryOrderDirection → Ordering → Ordering
  turn asc o = o
  turn desc o = reverse o

  compare_records : List QueryOrder → EntityRecord → EntityRecord → Ordering
  unfolding compare_values turn reverse
  compare_records [] left right = compare left.id right.id
  compare_records (order ∷ rest) left right =
      let later = compare_records rest left right in
      elim (turn order.direction (
        compare_values (lookup_path order.order_field left.content)
          (lookup_path order.order_field right.content))) [
            | Ordering.eq ↦ later
            | Ordering.lt ↦ Ordering.lt
            | Ordering.gt ↦ Ordering.gt
          ]

  is_below : Ordering → Bool
  is_below Ordering.lt = true
  is_below _ = false

  -- "strictly less" for the sort: by id, or by the requested order
  unfoldable pub record_lt : List QueryOrder → EntityRecord → EntityRecord → Bool
  unfolding compare_records is_below
  record_lt order_by left right = is_below (compare_records order_by left right)
