-- ===== src/Store/Memory/Replay.antt =====
-- A creation with an idempotency key happens once, whatever the store is asked in between.
use greentic_sorx.Prelude.{
  Option, map_some, ap, ◌∙◌, [], ◌∷◌, List, eq_iff, arith, inl, inr, none, some, Option-cases, ◌≡◌,
}
use greentic_sorx.Store.Memory.Cases.{
  create_rejected, update_written, update_rejected, update_conflict, update_missing, update_key,
  create_conflict, create-replayed, conflict_of, create_fresh, stored,
}
use greentic_sorx.Store.Memory.{
  find_record, persist, remove_record, write_at, create, update, delete, new_record,
  idempotency_entry, replayed, put_record, remember, String,
}
use greentic_sorx.Prelude.Results.{ok}
use greentic_sorx.Prelude.Text.{◌+++◌}
use greentic_sorx.Store.Types.{reject, UpdateOp, MemoryState, CreateOp, EntityRecord, Host}
use greentic_sorx.Prelude.Actions.{◌>>=◌}
use greentic_sorx.Store.Keys.{collection_key}
use greentic_sorx.Prelude.Maps
use greentic_sorx.Prelude.Maps.{get-insert}
use greentic_sorx.Store.Calls.{Call, perform, perform_all}
use greentic_sorx.Store.Events.{push_event, push_evidence, append_event, store_evidence}

module _ (host : Host) where
  -- The state holds `r` under the idempotency entry `k`.
  abbrev pub Remembers : String → EntityRecord → MemoryState → Type 0
  Remembers k r s = Maps.get k s.idempotency ≡ some r

  module _ (k : String) (r : EntityRecord) where
    kept_remember :
        (op : CreateOp) (s : MemoryState) (new : EntityRecord)
        → replayed op s ≡ none
        → Remembers k r s
        → Remembers k r (remember (idempotency_entry op) new s)
    unfolding remember replayed
    kept_remember op s new e h = elim (Option-cases (idempotency_entry op)) [
      | inl n ↦ ground arith
      | inr (j, n) ↦ ground (arith, eq_iff j k, get-insert j k new s.idempotency)
    ]

    kept_stored :
        (op : CreateOp) (s : MemoryState)
        → replayed op s ≡ none
        → Remembers k r s
        → Remembers k r (stored host op s)
    unfolding stored put_record replayed
    kept_stored op s e h =
        kept_remember op
          (put_record (collection_key op.namespace op.collection) (new_record op s) s)
          (new_record op s) e h

    kept_create :
        (op : CreateOp) (s : MemoryState) → Remembers k r s → Remembers k r (create host op s).1
    kept_create op s h = elim (Option-cases (replayed op s)) [
      | inr (old, e) ↦ rw (create-replayed host op s e) h
      | inl e ↦ elim (Option-cases (conflict_of host op s)) [
        | inr (c, f) ↦ rw (create_conflict host op s e f) h
        | inl f ↦ rw (create_fresh host op s e f) (kept_stored op s e h)
      ]
    ]

    kept_update :
        (op : UpdateOp) (s : MemoryState) → Remembers k r s → Remembers k r (update host op s).1
    unfolding write_at
    kept_update op s h = elim (Option-cases (find_record (update_key host op s) op.id s)) [
      | inl e ↦ rw (update_missing host op s e) h
      | inr (old, e) ↦ elim (Option-cases (update_conflict host op s old)) [
        | inr (c, f) ↦ rw (update_rejected host op s e f) h
        | inl f ↦ rw (update_written host op s e f) h
      ]
    ]

    kept_perform : (c : Call) (s : MemoryState) → Remembers k r s → Remembers k r (perform host c s)
    unfolding perform delete append_event store_evidence remove_record push_event push_evidence
        persist ◌>>=◌
    kept_perform (Call.create op) s h = kept_create op s h
    kept_perform (Call.update op) s h = kept_update op s h
    kept_perform (Call.delete op) s h = ground arith
    kept_perform (Call.append op) s h = ground arith
    kept_perform (Call.attach op) s h = ground arith

    pub kept_perform_all :
        (cs : List Call) (s : MemoryState) → Remembers k r s → Remembers k r (perform_all host cs s)
    kept_perform_all [] s h = h
    kept_perform_all (c ∷ cs) s h = kept_perform_all cs (perform host c s) (kept_perform c s h)

  abbrev pub entry_of : CreateOp → String → String
  entry_of op key = collection_key op.namespace op.collection +++ ":" +++ key

  replayed-entry :
      (op : CreateOp) (key : String) (t : MemoryState)
      → op.idempotency_key ≡ some key
      → replayed op t ≡ Maps.get (entry_of op key) t.idempotency
  unfolding replayed idempotency_entry
  replayed-entry op key t keyed = ground (arith, keyed)

  get-remember :
      (entry : Option String) (k : String) (r : EntityRecord) (s : MemoryState)
      → entry ≡ some k
      → Remembers k r (remember entry r s)
  unfolding remember
  get-remember entry k r s e = rw e (ground (arith, eq_iff k k, get-insert k k r s.idempotency))

  Remembers-stored :
      (op : CreateOp) (key : String) (s : MemoryState)
      → op.idempotency_key ≡ some key
      → Remembers (entry_of op key) (new_record op s) (stored host op s)
  unfolding stored idempotency_entry
  Remembers-stored op key s keyed =
      get-remember (idempotency_entry op) (entry_of op key) (new_record op s)
        (put_record (collection_key op.namespace op.collection) (new_record op s) s)
        (ap (map_some (λ k. entry_of op k)) keyed)

  module _ (op : CreateOp) (s : MemoryState) (key : String)
      (keyed : op.idempotency_key ≡ some key) where
    Remembers-created :
        {r : EntityRecord}
        → op.unique_behavior ≡ reject
        → (create host op s).0 ≡ ok r
        → Remembers (entry_of op key) r (create host op s).1
    Remembers-created {r} b done = elim (Option-cases (replayed op s)) [
      | inr (old, e) ↦
          ground (arith, create-replayed host op s e, replayed-entry op key s keyed, e, done)
      | inl e ↦ elim (Option-cases (conflict_of host op s)) [
        | inr (c, f) ↦ ground (arith, create_rejected host op s b e f, done)
        | inl f ↦ ground (arith, create_fresh host op s e f, Remembers-stored op key s keyed, done)
      ]
    ]

    -- A creation with an idempotency key returned a record and asks for an error at a conflict.
    -- However the store is called from then on, a creation in the same collection with the same key,
    -- whatever its input, returns that record and leaves the state as it is.
    pub create_once :
        {r : EntityRecord} (cs : List Call) (again : CreateOp)
        → op.unique_behavior ≡ reject
        → (create host op s).0 ≡ ok r
        → again.idempotency_key ≡ some key
        → collection_key again.namespace again.collection
          ≡ collection_key op.namespace op.collection
        → create host again (perform_all host cs (create host op s).1)
          ≡ (ok r, perform_all host cs (create host op s).1)
    create_once {r} cs again b done same_key same_place =
        let t = perform_all host cs (create host op s).1 in
        let kept =
          kept_perform_all (entry_of op key) r cs (create host op s).1 (Remembers-created b done) in
        create-replayed host again t (
          replayed-entry again key t same_key
          ∙ ap (λ c. Maps.get (c +++ ":" +++ key) t.idempotency) same_place
          ∙ kept)
