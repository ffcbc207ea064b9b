-- ===== src/Store/Memory.antt =====
-- crates/greentic-sorx-core/src/providers/memory.rs: the operations of `MemoryStoreProvider`. The
-- lock is held throughout an operation, so each is one step; a poisoned lock is not modelled.
pub mod Cases
pub mod Records
pub mod Replay
pub mod Querying
pub mod Reading
use greentic_sorx.Prelude.{
  ◌+◌, String, Bool, true, false, Option, none, some, List, [], ◌∷◌, length, retain, map_some,
  if◌then◌else◌,
}
use Prim.Native.Nat.{◌%◌, ◌^◌}
use text.Mathlib.Text.{◌==◌ as str_eq}
use greentic_sorx.Prelude.Text.{◌+++◌, to_text}
use greentic_sorx.Prelude.Maps
use greentic_sorx.Prelude.Maps.{Map, values}
use greentic_sorx.Prelude.Sorting.{sort_by}
use greentic_sorx.Prelude.Results.{ok, err, ok_or}
use greentic_sorx.Prelude.Actions.{Action, pure, reads, gets, modify, ◌>>=◌, ◌>>◌}
use greentic_sorx.Error.{SorxError, SorxResult, new}
use greentic_sorx.Json
use greentic_sorx.Json.{Value, as_object, unwrap_or, and_then, string_field, from_map}
use greentic_sorx.Store.Types.{
  EntityRecord, UniqueIndex, UniqueConflictBehavior, reject, return_existing, CreateOp, GetOp,
  UpdateOp, QueryOp, DeleteOp, MemoryState, Host,
}
use greentic_sorx.Store.Keys.{collection_key}
use greentic_sorx.Store.Unique.{UniqueConflict, unique_conflict}
use greentic_sorx.Store.Query.{matches_filter, record_lt}

abbrev pub Memory : Type 0 → Type 0
Memory A = Action MemoryState SorxError A

-- `object_clone`: the fields of an object, and none of anything else
unfoldable pub object_clone : Value → Map Value
object_clone v = unwrap_or [] (as_object v)

unfoldable pub overlay : Map Value → Map Value → Map Value
overlay [] base = base
overlay ((k, v) ∷ patch) base = overlay patch (Maps.insert k v base)

unfoldable pub find_record : String → String → MemoryState → Option EntityRecord
find_record key id s = and_then (Maps.get key s.collections) (Maps.get id)

-- `entry(key).or_default()`
abbrev pub collection_at : String → MemoryState → Map EntityRecord
collection_at key s = unwrap_or [] (Maps.get key s.collections)

unfoldable pub put_record : String → EntityRecord → MemoryState → MemoryState
put_record key r s = record s {
  collections = Maps.insert key (Maps.insert r.id r (collection_at key s)) s.collections;
}

unfoldable pub idempotency_entry : CreateOp → Option String
idempotency_entry op =
    map_some (λ k. collection_key op.namespace op.collection +++ ":" +++ k) op.idempotency_key

-- The record that an earlier creation with the same idempotency key has stored.
unfoldable pub replayed : CreateOp → MemoryState → Option EntityRecord
unfolding idempotency_entry
replayed op s = and_then (idempotency_entry op) (λ k. Maps.get k s.idempotency)

unfoldable pub remember : Option String → EntityRecord → MemoryState → MemoryState
remember none r s = s
remember (some k) r s = record s { idempotency = Maps.insert k r s.idempotency }

-- The id of the input, or one made of the collection's name and size.
unfoldable pub new_id : CreateOp → MemoryState → String
new_id op s =
    unwrap_or
      (op.collection
        +++ "-"
        +++ to_text (length (collection_at (collection_key op.namespace op.collection) s) + 1))
      (string_field "id" op.input)

unfoldable pub with_id : String → Map Value → Map Value
with_id id fields = Maps.insert "id" (Json.string id) fields

unfoldable pub new_record : CreateOp → MemoryState → EntityRecord
unfolding with_id object_clone
new_record op s = record {
  entity = op.entity;
  collection = op.collection;
  id = new_id op s;
  content = from_map (with_id (new_id op s) (object_clone op.input));
  version = 1;
}

unfoldable pub texts_eq : List String → List String → Bool
texts_eq [] [] = true
texts_eq (a ∷ as') (b ∷ bs) = if str_eq a b then texts_eq as' bs else false
texts_eq _ _ = false

-- Whether the caller asked for the existing record at a conflict on this index.
unfoldable pub returns_existing : UniqueConflictBehavior → UniqueIndex → Bool
returns_existing reject index = false
returns_existing (return_existing id fields) index =
    if str_eq index.id id then texts_eq index.fields fields else false

abbrev pub is_there : Option EntityRecord → Bool
is_there none = false
is_there (some r) = true

unfoldable pub record_not_found : String → String → SorxError
record_not_found id collection =
    new "record_not_found" ("record `" +++ id +++ "` was not found in `" +++ collection +++ "`")

unfoldable pub patched : UpdateOp → EntityRecord → Map Value
unfolding overlay object_clone with_id
patched op existing =
    with_id op.id (overlay (object_clone op.patch) (object_clone existing.content))

-- The version is a `u64`.
unfoldable pub updated : UpdateOp → EntityRecord → EntityRecord
updated op existing = record existing {
  content = from_map (patched op existing);
  version = (existing.version + 1) % 2 ^ 64;
}

-- The entry is written under the id of the request, where it was found.
unfoldable pub write_at : String → String → EntityRecord → MemoryState → MemoryState
write_at key id r s = record s {
  collections = Maps.insert key (Maps.insert id r (collection_at key s)) s.collections;
}

unfoldable pub found_records : QueryOp → MemoryState → List EntityRecord
unfolding object_clone
found_records op s =
    retain (λ r. matches_filter r.content (object_clone op.filter))
      (values (collection_at (collection_key op.namespace op.collection) s))

unfoldable pub remove_record : String → String → MemoryState → MemoryState
remove_record key id s = elim (Maps.get key s.collections) [
  | none ↦ s
  | some collection ↦ record s {
    collections = Maps.insert key (Maps.remove id collection) s.collections;
  }
]

module _ (host : Host) where
  unfoldable pub persist_to : Option String → MemoryState → SorxResult (Unit {0})
  persist_to none s = ok tt
  persist_to (some path) s = host.write_file path s

  -- `self.persist(&state)?`: the state in memory stays as it was written.
  unfoldable pub persist : Memory (Unit {0})
  unfolding persist_to
  persist = reads (persist_to host.persistence_path)

  unfoldable pub unique_conflict_error : UniqueIndex → List Value → SorxError
  unique_conflict_error index vs = new "unique_constraint_violation" (
      "unique index `"
      +++ index.id
      +++ "` already has fields "
      +++ host.debug_values index.fields vs)

  unfoldable pub store_new : CreateOp → EntityRecord → Memory EntityRecord
  store_new op r = do
    modify (put_record (collection_key op.namespace op.collection) r)
    modify (remember (idempotency_entry op) r)
    persist
    pure r

  unfoldable pub resolve_conflict :
      CreateOp → EntityRecord → Option UniqueConflict → Memory EntityRecord
  resolve_conflict op r none = store_new op r
  resolve_conflict op r (some c) =
      if returns_existing op.unique_behavior c.index
      then pure c.existing
      else reads (λ _. err (unique_conflict_error c.index c.conflict_values))

  unfoldable pub create_unless : CreateOp → Option EntityRecord → Memory EntityRecord
  create_unless op (some r) = pure r
  create_unless op none = do
    r ← gets (new_record op)
    conflict ← gets (λ s.
        unique_conflict (Maps.get (collection_key op.namespace op.collection) s.collections)
          op.unique_indexes r.content none)
    resolve_conflict op r conflict

  unfoldable pub create : CreateOp → Memory EntityRecord
  create op = do old ← gets (replayed op); create_unless op old

  unfoldable pub get : GetOp → Memory (Option EntityRecord)
  get op = gets (find_record (collection_key op.namespace op.collection) op.id)

  unfoldable pub reject_conflict : Option UniqueConflict → SorxResult (Unit {0})
  reject_conflict none = ok tt
  reject_conflict (some c) = err (unique_conflict_error c.index c.conflict_values)

  unfoldable pub update : UpdateOp → Memory EntityRecord
  update op = do
    existing ← reads (λ s.
        ok_or (find_record (collection_key op.namespace op.collection) op.id s)
          (record_not_found op.id op.collection))
    reads (λ s. reject_conflict (
        unique_conflict (Maps.get (collection_key op.namespace op.collection) s.collections)
          op.unique_indexes (from_map (patched op existing)) (some op.id)))
    modify (write_at (collection_key op.namespace op.collection) op.id (updated op existing))
    persist
    pure (updated op existing)

  unfoldable pub query : QueryOp → Memory (List EntityRecord)
  query op = gets (λ s. sort_by (record_lt host op.order_by) (found_records op s))

  unfoldable pub delete : DeleteOp → Memory Bool
  delete op = do
    old ← gets (find_record (collection_key op.namespace op.collection) op.id)
    modify (remove_record (collection_key op.namespace op.collection) op.id)
    persist
    pure (is_there old)
