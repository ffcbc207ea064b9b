-- ===== src/Store/Memory/Cases.antt =====
-- The outcomes of `create`, `update` and `delete`.
use greentic_sorx.Prelude.{inr, inl, arith, some, none, ◌≡◌, Option, String}
use greentic_sorx.Prelude.Results.{Result-cases, ok, err, map_ok, Result}
use greentic_sorx.Store.Memory.{
  patched, unique_conflict_error, write_at, record_not_found, updated, remove_record, is_there,
  store_new, returns_existing, persist_to, put_record, replayed, resolve_conflict, persist,
  create_unless, reject_conflict, new_record, find_record, delete, update, create,
  idempotency_entry, remember,
}
use greentic_sorx.Json.{from_map}
use greentic_sorx.Prelude.Maps
use greentic_sorx.Store.Types.{
  reject, DeleteOp, EntityRecord, UpdateOp, CreateOp, MemoryState, Host,
}
use greentic_sorx.Store.Unique.{unique_conflict, UniqueConflict}
use greentic_sorx.Error.{SorxError}
use greentic_sorx.Store.Keys.{collection_key}
use greentic_sorx.Prelude.Actions.{◌>>=◌}

module _ (host : Host) where
  -- The last step of an operation that has written `s`.
  abbrev pub saved : {A : Type 0} → A → MemoryState → Result SorxError A × MemoryState
  saved a s = (map_ok (λ _. a) (persist_to host host.persistence_path s), s)

  pub saved-ok : {A : Type 0} (a : A) (s : MemoryState) {b : A} → (saved a s).0 ≡ ok b → a ≡ b
  saved-ok a s h = elim (Result-cases (persist_to host host.persistence_path s)) [
    | inl (u, e) ↦ ground (arith, e, h)
    | inr (e, f) ↦ absurd (ground (arith, f, h))
  ]

  module _ (op : CreateOp) (s : MemoryState) where
    abbrev pub conflict_of : Option UniqueConflict
    conflict_of =
        unique_conflict (Maps.get (collection_key op.namespace op.collection) s.collections)
          op.unique_indexes (new_record op s).content none

    -- The state that a creation leaves.
    unfoldable pub stored : MemoryState
    stored =
        remember (idempotency_entry op) (new_record op s)
          (put_record (collection_key op.namespace op.collection) (new_record op s) s)

    pub create-replayed : {r : EntityRecord} → replayed op s ≡ some r → create host op s ≡ (ok r, s)
    unfolding create create_unless ◌>>=◌
    create-replayed e = rw e

    pub create_fresh :
        replayed op s ≡ none
        → conflict_of ≡ none
        → create host op s ≡ saved (new_record op s) stored
    unfolding create create_unless resolve_conflict store_new stored persist ◌>>=◌
    create_fresh e c = ground arith

    pub create_conflict :
        {c : UniqueConflict}
        → replayed op s ≡ none
        → conflict_of ≡ some c
        → (create host op s).1 ≡ s
    unfolding create create_unless resolve_conflict ◌>>=◌
    create_conflict e c = ground arith

    pub create_rejected :
        {c : UniqueConflict}
        → op.unique_behavior ≡ reject
        → replayed op s ≡ none
        → conflict_of ≡ some c
        → create host op s ≡ (err (unique_conflict_error host c.index c.conflict_values), s)
    unfolding create create_unless resolve_conflict returns_existing ◌>>=◌
    create_rejected b e c = ground arith

  module _ (op : UpdateOp) (s : MemoryState) where
    abbrev pub update_key : String
    update_key = collection_key op.namespace op.collection

    abbrev pub update_conflict : EntityRecord → Option UniqueConflict
    update_conflict existing =
        unique_conflict (Maps.get update_key s.collections) op.unique_indexes
          (from_map (patched op existing)) (some op.id)

    pub update_missing :
        find_record update_key op.id s ≡ none
        → update host op s ≡ (err (record_not_found op.id op.collection), s)
    unfolding update ◌>>=◌
    update_missing e = ground arith

    pub update_rejected :
        {existing : EntityRecord} {c : UniqueConflict}
        → find_record update_key op.id s ≡ some existing
        → update_conflict existing ≡ some c
        → update host op s ≡ (err (unique_conflict_error host c.index c.conflict_values), s)
    unfolding update reject_conflict ◌>>=◌
    update_rejected e c = ground arith

    pub update_written :
        {existing : EntityRecord}
        → find_record update_key op.id s ≡ some existing
        → update_conflict existing ≡ none
        → update host op s
          ≡ saved (updated op existing) (write_at update_key op.id (updated op existing) s)
    unfolding update reject_conflict persist ◌>>=◌
    update_written e c = ground arith

  pub delete_lem :
      (op : DeleteOp) (s : MemoryState)
      → delete host op s
        ≡ saved
            (is_there (find_record (collection_key op.namespace op.collection) op.id s))
            (remove_record (collection_key op.namespace op.collection) op.id s)
  unfolding delete persist ◌>>=◌
  delete_lem op s = ground arith
