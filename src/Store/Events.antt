-- ===== src/Store/Events.antt =====
-- crates/greentic-sorx-core/src/providers/memory.rs: the canonical operations of the store: event
-- streams, evidence, references, index queries and traversals.
pub mod Streams
use greentic_sorx.Prelude.{ℕ, ◌+◌, String, Option, none, some, List, [], ◌∷◌, ◌++◌, length}
use greentic_sorx.Prelude.Text.{◌+++◌, to_text}
use greentic_sorx.Prelude.Maps
use greentic_sorx.Prelude.Actions.{pure, gets, modify, ◌>>=◌, ◌>>◌}
use greentic_sorx.Json
use greentic_sorx.Json.{Value, unwrap_or, from_map}
use greentic_sorx.Store.Types.{
  EntityRecord, AppendEventOp, EventRecord, TraverseOp, IndexQueryOp, ExternalRef, ExternalRefsOp,
  StoreEvidenceOp, MemoryState, Host,
}
use greentic_sorx.Store.Keys.{clean_key, subject_key, stream_key}
use greentic_sorx.Store.Memory.{Memory, persist, query, get}

abbrev pub stream_at : String → MemoryState → List EventRecord
stream_at key s = unwrap_or [] (Maps.get key s.events)

optional_text : Option String → Value
optional_text none = Json.null
optional_text (some t) = Json.string t

unfoldable pub event_id : AppendEventOp → ℕ → String
event_id op sequence = clean_key op.stream +++ "-" +++ to_text sequence

-- The `json!` object, its keys in order.
envelope_of : AppendEventOp → String → Value
unfolding optional_text
envelope_of op id = from_map (
    ("capability", optional_text op.capability)
    ∷ ("event_id", Json.string id)
    ∷ ("event_type", Json.string op.event_type)
    ∷ ("payload", op.content)
    ∷ ("producer", optional_text op.producer)
    ∷ (
      "subject",
      from_map (("id", Json.string op.subject_id) ∷ ("type", Json.string op.subject_entity) ∷ []),
    )
    ∷ ("tenant", Json.string op.namespace.tenant_id)
    ∷ [])

-- A stream is a `Vec`, so its length and the next sequence number fit a `u64`.
unfoldable pub new_event : AppendEventOp → MemoryState → EventRecord
unfolding envelope_of event_id
new_event op s =
    let sequence = length (stream_at (stream_key op.namespace op.stream) s) + 1 in
    record {
      event_id = event_id op sequence;
      stream = op.stream;
      event_type = op.event_type;
      subject_entity = op.subject_entity;
      subject_id = op.subject_id;
      content = op.content;
      envelope = envelope_of op (event_id op sequence);
      sequence = sequence;
      occurred_at = op.occurred_at;
    }

unfoldable pub push_event : String → EventRecord → MemoryState → MemoryState
push_event key e s = record s { events = Maps.insert key (stream_at key s ++ e ∷ []) s.events }

abbrev pub evidence_at : String → MemoryState → List Value
evidence_at key s = unwrap_or [] (Maps.get key s.evidence)

unfoldable pub push_evidence : String → Value → MemoryState → MemoryState
push_evidence key v s = record s {
  evidence = Maps.insert key (evidence_at key s ++ v ∷ []) s.evidence;
}

module _ (host : Host) where
  unfoldable pub append_event : AppendEventOp → Memory EventRecord
  append_event op = do
    e ← gets (new_event op)
    modify (push_event (stream_key op.namespace op.stream) e)
    persist host
    pure e

  unfoldable pub query_index : IndexQueryOp → Memory (List EntityRecord)
  query_index op = query host (record {
    namespace = op.namespace;
    entity = op.entity;
    collection = op.collection;
    filter = op.filter;
    order_by = [];
  })

  abbrev into_list : Option EntityRecord → List EntityRecord
  into_list none = []
  into_list (some r) = r ∷ []

  -- The depth and the relationships of the request are not read.
  unfoldable pub traverse : TraverseOp → Memory (List EntityRecord)
  traverse op = do
    r ← get host (record {
      namespace = op.namespace;
      entity = op.root_entity;
      collection = op.root_collection;
      id = op.root_id;
    })
    pure (into_list r)

  unfoldable pub get_external_refs : ExternalRefsOp → Memory (List ExternalRef)
  get_external_refs op = gets (λ s.
      unwrap_or []
        (Maps.get (subject_key op.namespace op.collection op.entity op.id) s.external_refs))

  unfoldable pub store_evidence : StoreEvidenceOp → Memory (Unit {0})
  store_evidence op = do
    modify (push_evidence (subject_key op.namespace op.collection op.entity op.id) op.evidence)
    persist host

  unfoldable pub get_evidence : ExternalRefsOp → Memory (List Value)
  get_evidence op = gets (evidence_at (subject_key op.namespace op.collection op.entity op.id))
