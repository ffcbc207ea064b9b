-- ===== src/Kv/Events.antt =====
-- crates/greentic-sorx-core/src/providers/kv.rs: events, references, evidence and the migration ledger.
pub mod Numbered
use Prim.Native.Nat.{◌%◌, ◌^◌}
use greentic_sorx.Prelude.{[], ◌∷◌, ◌++◌, List, ℕ, ◌+◌, String, Option, none, some}
use greentic_sorx.Prelude.Text.{◌+++◌, to_text}
use greentic_sorx.Prelude.Maps.{Set, add}
use greentic_sorx.Prelude.Results.{ok, err}
use greentic_sorx.Prelude.Actions.{Action, ◌>>=◌, ◌>>◌, pure, reads}
use greentic_sorx.Error.{SorxError, SorxResult}
use greentic_sorx.Json.{Value, null, string, from_map}
use greentic_sorx.Store.Types.{
  ProviderNamespace, AppendEventOp, EventRecord, ExternalRef, StoreEvidenceOp, Host,
}
use greentic_sorx.Store.Keys.{clean_key}
use greentic_sorx.Kv.Keys.{
  Bytes, to_bytes, event_key, evseq_key, subject_key_of, migration_key, child_range,
}
use greentic_sorx.Kv.Records.{lifted, KvTxn, Codec, write_schema_version, decode_u64, to_le_bytes}

-- What serde makes of events, references and evidence.
pub record EventCodec : Type 0 where
  pub encode_event : EventRecord → SorxResult Bytes
  pub encode_values : List Value → SorxResult Bytes
  pub decode_values : Bytes → SorxResult (List Value)
  pub decode_refs : Bytes → SorxResult (List ExternalRef)

text_or_null : Option String → Value
text_or_null none = null
text_or_null (some s) = string s

unfoldable pub next_sequence : ℕ → ℕ
next_sequence last = (last + 1) % 2 ^ 64

unfoldable pub new_event : AppendEventOp → ℕ → EventRecord
unfolding text_or_null
new_event op sequence =
    let event_id = clean_key op.stream +++ "-" +++ to_text sequence in
    record {
      event_id = event_id;
      stream = op.stream;
      event_type = op.event_type;
      subject_entity = op.subject_entity;
      subject_id = op.subject_id;
      content = op.content;
      envelope = from_map (
          ("capability", text_or_null op.capability)
          ∷ ("event_id", string event_id)
          ∷ ("event_type", string op.event_type)
          ∷ ("payload", op.content)
          ∷ ("producer", text_or_null op.producer)
          ∷ (
            "subject",
            from_map (("id", string op.subject_id) ∷ ("type", string op.subject_entity) ∷ []),
          )
          ∷ ("tenant", string op.namespace.tenant_id)
          ∷ []);
      sequence = sequence;
      occurred_at = op.occurred_at;
    }

module _ {W : Type 0} (txn : KvTxn W) (codec : Codec) (events : EventCodec) (host : Host) where
  last_sequence : Option Bytes → SorxResult ℕ
  last_sequence none = ok 0
  last_sequence (some bytes) = decode_u64 bytes

  unfoldable pub append_event : AppendEventOp → Action W SorxError EventRecord
  unfolding lifted last_sequence
  append_event op = do
    write_schema_version txn codec host op.namespace
    found ← txn.get (evseq_key op.namespace op.stream)
    last ← lifted (last_sequence found)
    let sequence = next_sequence last
    encoded ← lifted (events.encode_event (new_event op sequence))
    txn.set (event_key op.namespace op.stream sequence) encoded
    txn.set (evseq_key op.namespace op.stream) (to_le_bytes sequence)
    pure (new_event op sequence)

  values_or_none : Option Bytes → SorxResult (List Value)
  values_or_none none = ok []
  values_or_none (some bytes) = events.decode_values bytes

  refs_or_none : Option Bytes → SorxResult (List ExternalRef)
  refs_or_none none = ok []
  refs_or_none (some bytes) = events.decode_refs bytes

  unfoldable pub get_external_refs :
      ProviderNamespace → String → String → String → Action W SorxError (List ExternalRef)
  unfolding lifted refs_or_none
  get_external_refs n collection entity id = do
    found ← txn.get (subject_key_of n "xref" collection entity id)
    lifted (refs_or_none found)

  unfoldable pub store_evidence : StoreEvidenceOp → Action W SorxError (Unit {0})
  unfolding lifted values_or_none
  store_evidence op = do
    let key = subject_key_of op.namespace "evid" op.collection op.entity op.id
    found ← txn.get key
    existing ← lifted (values_or_none found)
    encoded ← lifted (events.encode_values (existing ++ op.evidence ∷ []))
    txn.set key encoded

  unfoldable pub get_evidence :
      ProviderNamespace → String → String → String → Action W SorxError (List Value)
  unfolding lifted values_or_none
  get_evidence n collection entity id = do
    found ← txn.get (subject_key_of n "evid" collection entity id)
    lifted (values_or_none found)

  unfoldable pub record_migration : ProviderNamespace → String → Action W SorxError (Unit {0})
  record_migration n migration_id = txn.set (migration_key n migration_id) (to_bytes migration_id)

  -- The ids are the values of the entries, not their keys.
  unfoldable pub collect_applied : List (Bytes × Bytes) → Set → SorxResult Set
  collect_applied [] applied = ok applied
  collect_applied ((key, value) ∷ rows) applied = elim (codec.from_utf8 value) [
    | err e ↦ err e
    | ok id ↦ collect_applied rows (add id applied)
  ]

  unfoldable pub load_migrations : ProviderNamespace → Action W SorxError Set
  unfolding lifted collect_applied
  load_migrations n = do
    let range = child_range n ("migrations" ∷ [])
    rows ← txn.scan range.0 range.1
    lifted (collect_applied rows [])
