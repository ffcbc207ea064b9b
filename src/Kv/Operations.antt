-- ===== src/Kv/Operations.antt =====
-- crates/greentic-sorx-core/src/providers/kv.rs: create, get, update, query and delete.
pub mod Created
pub mod AutoId
use Prim.Native.Nat.{◌%◌, ◌^◌}
use greentic_sorx.Prelude.{
  [], ◌∷◌, List, ℕ, ◌+◌, String, Bool, true, false, not, Option, none, some, ◌==◌, ◌&&◌,
  if◌then◌else◌, retain,
}
use greentic_sorx.Prelude.Sorting.{sort_by}
use greentic_sorx.Prelude.Results.{ok, err, ok_or}
use greentic_sorx.Prelude.Actions.{Action, ◌>>=◌, ◌>>◌, pure, reads}
use greentic_sorx.Error.{SorxError, SorxResult}
use greentic_sorx.Json
use greentic_sorx.Json.{Value, from_map, string_field}
use greentic_sorx.Store.Types.{
  ProviderNamespace, EntityRecord, UniqueIndex, UniqueConflictBehavior, CreateOp, GetOp, UpdateOp,
  QueryOp, DeleteOp, Host,
}
use greentic_sorx.Store.Unique.{UniqueConflict, index_values, values_eq}
use greentic_sorx.Store.Query.{matches_filter, record_lt}
use greentic_sorx.Store.Memory.{
  overlay, with_id, object_clone, unique_conflict_error, record_not_found, returns_existing,
}
use greentic_sorx.Store.Keys.{clean_key}
use greentic_sorx.Kv.Keys.{Bytes, to_bytes, entity_key, idem_key, uniq_key, child_range}
use greentic_sorx.Kv.Records.{
  lifted, KvTxn, Codec, write_schema_version, scan_entities, next_auto_id, find_unique_conflict,
  write_unique_keys, bytes_eq,
}

module _ {W : Type 0} (txn : KvTxn W) (codec : Codec) (host : Host) where
  -- The record that an idempotency key was given with, if there is one.
  replayed : ProviderNamespace → String → Option String → Action W SorxError (Option EntityRecord)
  unfolding lifted
  replayed n collection none = pure none
  replayed n collection (some key) = do
    found ← txn.get (idem_key n collection key)
    elim found [
      | none ↦ pure none
      | some bytes ↦ lifted (codec.decode_record bytes) >>= λ r. pure (some r)
    ]

  set_idempotent :
      ProviderNamespace → String → Option String → Bytes → Action W SorxError (Unit {0})
  set_idempotent n collection none encoded = pure tt
  set_idempotent n collection (some key) encoded = txn.set (idem_key n collection key) encoded

  unfoldable pub new_record : CreateOp → String → EntityRecord
  new_record op id = record {
    entity = op.entity;
    collection = op.collection;
    id = id;
    content = from_map (with_id id (object_clone op.input));
    version = 1;
  }

  unfoldable pub write_new : CreateOp → EntityRecord → Action W SorxError EntityRecord
  unfolding lifted set_idempotent
  write_new op r = do
    encoded ← lifted (codec.encode_record r)
    txn.set (entity_key op.namespace op.collection r.id) encoded
    set_idempotent op.namespace op.collection op.idempotency_key encoded
    write_unique_keys txn codec host op.namespace op.collection op.unique_indexes r
    pure r

  create_fresh : ℕ → SorxError → CreateOp → Action W SorxError EntityRecord
  unfolding lifted write_new new_record
  create_fresh rounds going_on op = do
    id ← elim (string_field "id" op.input) [
      | some id ↦ pure id
      | none ↦ next_auto_id txn codec host rounds going_on op.namespace op.collection
    ]
    conflict ←
        find_unique_conflict txn codec host op.namespace op.collection op.unique_indexes
          (new_record op id).content none
    elim conflict [
      | none ↦ write_new op (new_record op id)
      | some c ↦
          if returns_existing op.unique_behavior c.index
          then pure c.existing
          else lifted (err (unique_conflict_error host c.index c.conflict_values))
    ]

  unfoldable pub create : ℕ → SorxError → CreateOp → Action W SorxError EntityRecord
  unfolding replayed create_fresh
  create rounds going_on op = do
    write_schema_version txn codec host op.namespace
    known ← replayed op.namespace op.collection op.idempotency_key
    elim known [ some r ↦ pure r | none ↦ create_fresh rounds going_on op ]

  unfoldable pub get : GetOp → Action W SorxError (Option EntityRecord)
  unfolding lifted
  get op = do
    found ← txn.get (entity_key op.namespace op.collection op.id)
    elim found [
      | none ↦ pure none
      | some bytes ↦ lifted (codec.decode_record bytes) >>= λ r. pure (some r)
    ]

  unfoldable pub updated_content : UpdateOp → EntityRecord → Value
  updated_content op existing =
      from_map (with_id op.id (overlay (object_clone op.patch) (object_clone existing.content)))

  same_values : List Value → Option (List Value) → Bool
  same_values old none = false
  same_values old (some vs) = values_eq old vs

  -- The entry of a value that the record no longer has, where it is the record's own.
  release_one :
      ProviderNamespace
      → String
      → UniqueIndex
      → EntityRecord
      → Value
      → Action W SorxError (Unit {0})
  unfolding same_values
  release_one n collection index existing content =
      elim (index_values existing.content index.fields) [
        | none ↦ pure tt
        | some old ↦
            if same_values old (index_values content index.fields)
            then pure tt
            else (let key =
                  uniq_key (λ xs. host.to_json (Json.array (Json.to_items xs))) n collection
                    index.id old in
                txn.get key >>= λ entry. elim entry [
                  | none ↦ pure tt
                  | some owner ↦
                      if bytes_eq owner (to_bytes existing.id) then txn.clear key else pure tt
                ])
      ]

  release_changed :
      ProviderNamespace
      → String
      → List UniqueIndex
      → EntityRecord
      → Value
      → Action W SorxError (Unit {0})
  unfolding release_one
  release_changed n collection [] existing content = pure tt
  release_changed n collection (index ∷ rest) existing content = do
    release_one n collection index existing content
    release_changed n collection rest existing content

  unfoldable pub update : UpdateOp → Action W SorxError EntityRecord
  unfolding lifted updated_content release_changed
  update op = do
    found ← txn.get (entity_key op.namespace op.collection op.id)
    bytes ← lifted (ok_or found (record_not_found op.id op.collection))
    existing ← lifted (codec.decode_record bytes)
    let content = updated_content op existing
    conflict ←
        find_unique_conflict txn codec host op.namespace op.collection op.unique_indexes content
          (some op.id)
    elim conflict [
      | some c ↦ lifted (err (unique_conflict_error host c.index c.conflict_values))
      | none ↦
          let r : EntityRecord = record existing {
            content = content;
            version = (existing.version + 1) % 2 ^ 64;
          } in
          release_changed op.namespace op.collection op.unique_indexes existing content
          >>= λ released. lifted (codec.encode_record r) >>= λ encoded.
              txn.set (entity_key op.namespace op.collection op.id) encoded >>= λ written.
              write_unique_keys txn codec host op.namespace op.collection op.unique_indexes r
              >>= λ done. pure r
    ]

  unfoldable pub query_records : QueryOp → Action W SorxError (List EntityRecord)
  query_records op = do
    rows ← scan_entities txn codec host op.namespace op.collection
    pure (
        sort_by (record_lt host op.order_by)
          (retain (λ r. matches_filter r.content (object_clone op.filter)) rows))

  clear_owned : Bytes → List (Bytes × Bytes) → Action W SorxError (Unit {0})
  clear_owned id [] = pure tt
  clear_owned id ((key, value) ∷ rows) = do
    if bytes_eq value id then txn.clear key else pure tt
    clear_owned id rows

  unfoldable pub clear_unique_for_record :
      ProviderNamespace → String → String → Action W SorxError (Unit {0})
  unfolding clear_owned
  clear_unique_for_record n collection id = do
    let range = child_range n ("uniq" ∷ clean_key collection ∷ [])
    rows ← txn.scan range.0 range.1
    clear_owned (to_bytes id) rows

  unfoldable pub delete : DeleteOp → Action W SorxError Bool
  unfolding lifted clear_unique_for_record
  delete op = do
    found ← txn.get (entity_key op.namespace op.collection op.id)
    elim found [
      | none ↦ pure false
      | some bytes ↦ lifted (codec.decode_record bytes) >>= λ r.
          txn.clear (entity_key op.namespace op.collection op.id) >>= λ cleared.
          clear_unique_for_record op.namespace op.collection r.id >>= λ done. pure true
    ]
