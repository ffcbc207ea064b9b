-- ===== src/Store/Memory/Reading.antt =====
-- What is read back after the store was written.
use greentic_sorx.Prelude.{
  eq_iff, ap, sym, arith, inr, inl, ◌∙◌, ◌+◌, Option-cases, false, some, ◌&&◌, if◌then◌else◌, ◌==◌,
  none, ◌≡◌,
}
use greentic_sorx.Store.Memory.{
  write_at, updated, idempotency_entry, new_id, put_record, replayed, String, find_record, remember,
  new_record, create, update, delete,
}
use greentic_sorx.Store.Memory.Cases.{
  saved-ok, update_written, update_rejected, update_conflict, update_missing, delete_lem,
  conflict_of, update_key, create_fresh, stored,
}
use Prim.Native.Nat.{◌%◌, ◌^◌}
use greentic_sorx.Store.Keys.{collection_key}
use greentic_sorx.Prelude.Results.{ok}
use greentic_sorx.Store.Types.{EntityRecord, MemoryState, CreateOp, DeleteOp, UpdateOp, Host}
use greentic_sorx.Store.Memory.Records.{find-put_record, find-write_at, find-remove}

module _ (host : Host) where
  find-stored :
      (op : CreateOp) (s : MemoryState) (k i : String)
      → find_record k i (stored host op s)
        ≡ find_record k i
            (put_record (collection_key op.namespace op.collection) (new_record op s) s)
  unfolding stored remember find_record
  find-stored op s k i = elim (Option-cases (idempotency_entry op)) [
    | inl e ↦ rw e
    | inr (j, e) ↦ rw e
  ]

  -- A creation that is neither replayed nor stopped by a unique index, whatever the file does with it,
  -- leaves its new record under its collection's key and its id, and every other record as it was.
  pub find-create :
      (op : CreateOp) (s : MemoryState) (k i : String)
      → replayed op s ≡ none
      → conflict_of host op s ≡ none
      → find_record k i (create host op s).1 ≡ (
          if collection_key op.namespace op.collection == k && new_id op s == i
          then some (new_record op s)
          else find_record k i s)
  unfolding new_record
  find-create op s k i e f = rw (create_fresh host op s e f) (
      find-stored op s k i
      ∙ find-put_record (collection_key op.namespace op.collection) k i (new_record op s) s)

  -- An update, of whatever outcome, leaves every record as it was but the one under its collection's key
  -- and its id.
  pub update_frame :
      (op : UpdateOp) (s : MemoryState) (k i : String)
      → (update_key host op s == k && op.id == i) ≡ false
      → find_record k i (update host op s).1 ≡ find_record k i s
  update_frame op s k i other = elim (Option-cases (find_record (update_key host op s) op.id s)) [
    | inl e ↦ rw (update_missing host op s e)
    | inr (old, e) ↦ elim (Option-cases (update_conflict host op s old)) [
      | inr (c, f) ↦ rw (update_rejected host op s e f)
      | inl f ↦
          rw (update_written host op s e f) (
            ground
              (arith, other, find-write_at (update_key host op s) op.id k i (updated op old) s))
    ]
  ]

  -- An update that returns a record found one before, whose version is one less (as a `u64`) and
  -- whose id it keeps, and what it returns is what the store then holds under the request's id.
  pub update-ok :
      (op : UpdateOp) (s : MemoryState) {r : EntityRecord}
      → (update host op s).0 ≡ ok r
      → (old : EntityRecord) × (find_record (update_key host op s) op.id s ≡ some old)
        × (r.version ≡ (old.version + 1) % 2 ^ 64)
        × (r.id ≡ old.id)
        × (find_record (update_key host op s) op.id (update host op s).1 ≡ some r)
  unfolding updated
  update-ok op s done = elim (Option-cases (find_record (update_key host op s) op.id s)) [
    | inl e ↦ absurd (ground (arith, update_missing host op s e, done))
    | inr (old, e) ↦ elim (Option-cases (update_conflict host op s old)) [
      | inr (c, f) ↦ absurd (ground (arith, update_rejected host op s e f, done))
      | inl f ↦
          let same =
            saved-ok host (updated op old)
              (write_at (update_key host op s) op.id (updated op old) s)
              (sym (ap (λ q. q.0) (update_written host op s e f)) ∙ done) in
          (
            old,
            e,
            ap (λ q. q.version) (sym same),
            ap (λ q. q.id) (sym same),
            rw (update_written host op s e f) (
                ground (
                  arith,
                  same,
                  eq_iff (update_key host op s) (update_key host op s),
                  eq_iff op.id op.id,
                  find-write_at (update_key host op s) op.id (update_key host op s) op.id
                      (updated op old) s,
                )),
          )
    ]
  ]

  -- A deletion, its error included, removes the record under its collection's key and its id and no
  -- other.
  pub find-delete :
      (op : DeleteOp) (s : MemoryState) (k i : String)
      → find_record k i (delete host op s).1 ≡ (
          if collection_key op.namespace op.collection == k && op.id == i
          then none
          else find_record k i s)
  find-delete op s k i =
      rw (delete_lem host op s)
        (find-remove (collection_key op.namespace op.collection) op.id k i s)
