-- ===== src/Store/Events/Streams.antt =====
-- The sequence numbers of the event streams.
use greentic_sorx.Store.Keys.{collection_key, stream_key}
use greentic_sorx.Store.Memory.{
  new_record, idempotency_entry, find_record, replayed, put_record, write_at, remember,
  remove_record, create, update, delete, persist,
}
use greentic_sorx.Store.Memory.Cases.{
  update_written, update_rejected, create_fresh, update_conflict, create_conflict, update_missing,
  conflict_of, update_key, create-replayed, delete_lem, stored,
}
use greentic_sorx.Prelude.{
  refl, none, some, Option-cases, Option, ap, eq_iff, arith, inr, inl, ◌++◌, ◌==◌, length,
  Bool-cases, ◌+◌, if◌then◌else◌, ◌≡◌, List, String, ℕ, [], ◌∷◌,
}
use greentic_sorx.Store.Types.{
  StoreEvidenceOp, CreateOp, EntityRecord, DeleteOp, UpdateOp, EventRecord, AppendEventOp, Host,
  MemoryState,
}
use greentic_sorx.Store.Events.{
  push_evidence, store_evidence, append_event, stream_at, push_event, new_event,
}
use greentic_sorx.Prelude.Actions.{◌>>=◌}
use greentic_sorx.Prelude.Maps.{get-insert}
use greentic_sorx.Store.Calls.{Call, perform, perform_all}

-- The events of a stream are numbered from `n + 1` on, one by one.
abbrev pub NumberedFrom : ℕ → List EventRecord → Type 0
NumberedFrom n [] = Unit
NumberedFrom n (e ∷ es) = (e.sequence ≡ n + 1) × NumberedFrom (n + 1) es

abbrev pub Numbered : MemoryState → Type 0
Numbered s = (key : String) → NumberedFrom 0 (stream_at key s)

NumberedFrom-snoc :
    (n : ℕ) (es : List EventRecord) (e : EventRecord)
    → NumberedFrom n es
    → e.sequence ≡ n + length es + 1
    → NumberedFrom n (es ++ e ∷ [])
NumberedFrom-snoc n [] e h last = (omega arith, tt)
NumberedFrom-snoc n (d ∷ es) e h last =
    (h.0, NumberedFrom-snoc (n + 1) es e h.1 (ground (arith, last)))

stream_at-push :
    (key k : String) (e : EventRecord) (s : MemoryState)
    → stream_at k (push_event key e s)
      ≡ (if key == k then stream_at key s ++ e ∷ [] else stream_at k s)
unfolding push_event
stream_at-push key k e s =
    ground (arith, eq_iff key k, get-insert key k (stream_at key s ++ e ∷ []) s.events)

remember-events :
    (entry : Option String) (r : EntityRecord) (s : MemoryState)
    → (remember entry r s).events ≡ s.events
unfolding remember
remember-events none r s = refl
remember-events (some k) r s = refl

module _ (host : Host) where
  -- An append, whatever the file does with it, adds one event at the end of its stream and touches
  -- no other stream.
  pub stream_at-append_event :
      (op : AppendEventOp) (s : MemoryState) (k : String)
      → stream_at k (append_event host op s).1 ≡ (
          if stream_key op.namespace op.stream == k
          then stream_at k s ++ new_event op s ∷ []
          else stream_at k s)
  unfolding append_event persist ◌>>=◌
  stream_at-append_event op s k = ground (
    arith,
    eq_iff (stream_key op.namespace op.stream) k,
    stream_at-push (stream_key op.namespace op.stream) k (new_event op s) s,
  )

  append_event-Numbered :
      (op : AppendEventOp) (s : MemoryState) → Numbered s → Numbered (append_event host op s).1
  unfolding new_event
  append_event-Numbered op s h k =
      let key = stream_key op.namespace op.stream in
      let added = stream_at-append_event op s k in
      elim (Bool-cases (key == k)) [
        | inl t ↦
            let same : key ≡ k = ground (arith, eq_iff key k, t) in
            let grown : stream_at k (append_event host op s).1
                ≡ stream_at k s ++ new_event op s ∷ [] =
              ground (arith, added, t) in
            rw grown (
              NumberedFrom-snoc 0 (stream_at k s) (new_event op s) (h k)
                (ground (arith, ap (λ q. length (stream_at q s)) same)))
        | inr f ↦
            let kept : stream_at k (append_event host op s).1 ≡ stream_at k s =
              ground (arith, added, f) in
            rw kept (h k)
      ]

  create-events : (op : CreateOp) (s : MemoryState) → (create host op s).1.events ≡ s.events
  unfolding stored put_record remember
  create-events op s = elim (Option-cases (replayed op s)) [
    | inr (old, e) ↦ rw (create-replayed host op s e)
    | inl e ↦ elim (Option-cases (conflict_of host op s)) [
      | inr (c, f) ↦ rw (create_conflict host op s e f)
      | inl f ↦ rw (create_fresh host op s e f) (
          remember-events (idempotency_entry op) (new_record op s)
            (put_record (collection_key op.namespace op.collection) (new_record op s) s))
    ]
  ]

  update-events : (op : UpdateOp) (s : MemoryState) → (update host op s).1.events ≡ s.events
  unfolding write_at
  update-events op s = elim (Option-cases (find_record (update_key host op s) op.id s)) [
    | inl e ↦ rw (update_missing host op s e)
    | inr (old, e) ↦ elim (Option-cases (update_conflict host op s old)) [
      | inr (c, f) ↦ rw (update_rejected host op s e f)
      | inl f ↦ rw (update_written host op s e f)
    ]
  ]

  delete-events : (op : DeleteOp) (s : MemoryState) → (delete host op s).1.events ≡ s.events
  unfolding remove_record
  delete-events op s = rw (delete_lem host op s) (ground arith)

  store_evidence-events :
      (op : StoreEvidenceOp) (s : MemoryState) → (store_evidence host op s).1.events ≡ s.events
  unfolding store_evidence persist push_evidence ◌>>=◌
  store_evidence-events op s = ground arith

  Numbered-by_events : (s t : MemoryState) → t.events ≡ s.events → Numbered s → Numbered t
  Numbered-by_events s t e h k = rw e (h k)

  perform-Numbered : (c : Call) (s : MemoryState) → Numbered s → Numbered (perform host c s)
  unfolding perform
  perform-Numbered (Call.create op) s =
      Numbered-by_events s (create host op s).1 (create-events op s)
  perform-Numbered (Call.update op) s =
      Numbered-by_events s (update host op s).1 (update-events op s)
  perform-Numbered (Call.delete op) s =
      Numbered-by_events s (delete host op s).1 (delete-events op s)
  perform-Numbered (Call.append op) s = append_event-Numbered op s
  perform-Numbered (Call.attach op) s =
      Numbered-by_events s (store_evidence host op s).1 (store_evidence-events op s)

  -- Where the events of every stream are numbered 1, 2, 3 … in the order in which they were appended,
  -- as in an empty store, they still are after any calls, those that fail included.
  pub perform_all-Numbered :
      (cs : List Call) (s : MemoryState) → Numbered s → Numbered (perform_all host cs s)
  perform_all-Numbered [] s h = h
  perform_all-Numbered (c ∷ cs) s h =
      perform_all-Numbered cs (perform host c s) (perform-Numbered c s h)
