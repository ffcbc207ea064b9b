-- ===== src/Kv/Records.antt =====
-- crates/greentic-sorx-core/src/providers/kv.rs: the operations on records.
pub mod Equality
use Prim.Native.Nat.{◌/◌, ◌%◌, ◌^◌}
use greentic_sorx.Prelude.{
  [], ◌∷◌, List, ℕ, zero, suc, ◌+◌, ◌*◌, String, Bool, true, false, Option, none, some, ◌==◌, ◌&&◌,
  if◌then◌else◌, length, eqb,
}
use greentic_sorx.Prelude.Text.{◌+++◌, to_text}
use greentic_sorx.Prelude.Results.{ok, err}
use greentic_sorx.Prelude.Actions.{Action, ◌>>=◌, pure, reads}
use greentic_sorx.Error.{SorxError, SorxResult, new}
use greentic_sorx.Json
use greentic_sorx.Json.{Value, from_map, string_field, and_then, unwrap_or}
use greentic_sorx.Store.Types.{ProviderNamespace, EntityRecord, UniqueIndex, Host}
use greentic_sorx.Store.Unique.{UniqueConflict, index_values}
use greentic_sorx.Store.Keys.{clean_key}
use greentic_sorx.Kv.Keys.{
  Bytes, to_bytes, entity_key, uniq_key, idseq_key, schema_key, child_range,
}

-- `KvTxn`: point reads, writes and clears, and a scan of a range in the order of its keys.
pub record KvTxn (W : Type 0) : Type 0 where
  pub get : Bytes → Action W SorxError (Option Bytes)
  pub set : Bytes → Bytes → Action W SorxError (Unit {0})
  pub clear : Bytes → Action W SorxError (Unit {0})
  pub scan : Bytes → Bytes → Action W SorxError (List (Bytes × Bytes))

-- What serde and the standard library make of records, texts and bytes.
pub record Codec : Type 0 where
  pub encode_record : EntityRecord → SorxResult Bytes
  pub decode_record : Bytes → SorxResult EntityRecord
  pub from_utf8 : Bytes → SorxResult String

unfoldable pub bytes_eq : Bytes → Bytes → Bool
bytes_eq [] [] = true
bytes_eq (a ∷ as') (b ∷ bs) = eqb a b && bytes_eq as' bs
bytes_eq _ _ = false

unfoldable pub little_endian : ℕ → ℕ → Bytes
little_endian zero n = []
little_endian (suc k) n = n % 256 ∷ little_endian k (n / 256)

-- `to_le_bytes` of a `u64`
unfoldable pub to_le_bytes : ℕ → Bytes
unfolding little_endian
to_le_bytes n = little_endian 8 n

unfoldable pub from_little_endian : Bytes → ℕ
from_little_endian [] = 0
from_little_endian (b ∷ bs) = b + 256 * from_little_endian bs

unfoldable pub decode_u64 : Bytes → SorxResult ℕ
unfolding from_little_endian
decode_u64 bytes =
    if eqb (length bytes) 8
    then ok (from_little_endian bytes)
    else err (
        new "provider_decode_failed"
          ("a sequence counter is " +++ to_text (length bytes) +++ " bytes, not 8"))

-- The outcome of a step that leaves the transaction alone.
unfoldable pub lifted : {W A : Type 0} → SorxResult A → Action W SorxError A
lifted r = reads (λ w. r)

module _ {W : Type 0} (txn : KvTxn W) (codec : Codec) (host : Host) where
  -- The marker is written only where it is absent.
  unfoldable pub write_schema_version : ProviderNamespace → Action W SorxError (Unit {0})
  unfolding bytes_eq
  write_schema_version n = do
    found ← txn.get (schema_key n)
    elim found [
      | none ↦ txn.set (schema_key n) (49 ∷ [])
      | some bytes ↦ if bytes_eq bytes (49 ∷ []) then pure tt else txn.set (schema_key n) (49 ∷ [])
    ]

  decode_all : List (Bytes × Bytes) → SorxResult (List EntityRecord)
  decode_all [] = ok []
  decode_all ((key, value) ∷ rows) = elim (codec.decode_record value) [
    | err e ↦ err e
    | ok r ↦ elim (decode_all rows) [ err e ↦ err e | ok rs ↦ ok (r ∷ rs) ]
  ]

  unfoldable pub scan_entities : ProviderNamespace → String → Action W SorxError (List EntityRecord)
  unfolding decode_all lifted
  scan_entities n collection = do
    let range = child_range n ("e" ∷ clean_key collection ∷ [])
    rows ← txn.scan range.0 range.1
    lifted (decode_all rows)

  -- The loop of `next_auto_id`, for so many rounds; `none` where it is still going on.
  unfoldable pub seek_id :
      ProviderNamespace → String → ℕ → ℕ → Action W SorxError (Option (ℕ × String))
  seek_id n collection zero last = pure none
  seek_id n collection (suc rounds) last = do
    let next = (last + 1) % 2 ^ 64
    let id = collection +++ "-" +++ to_text next
    taken ← txn.get (entity_key n collection id)
    elim taken [ none ↦ pure (some (next, id)) | some bytes ↦ seek_id n collection rounds next ]

  counter_start : ProviderNamespace → String → Action W SorxError ℕ
  unfolding lifted
  counter_start n collection = do
    found ← txn.get (idseq_key n collection)
    elim found [
      | some bytes ↦ lifted (decode_u64 bytes)
      | none ↦ scan_entities n collection >>= λ rows. pure (length rows % 2 ^ 64)
    ]

  -- `next_auto_id`; what does not end within the rounds is an error of the model.
  unfoldable pub next_auto_id :
      ℕ → SorxError → ProviderNamespace → String → Action W SorxError String
  unfolding counter_start lifted
  next_auto_id rounds going_on n collection = do
    start ← counter_start n collection
    found ← seek_id n collection rounds start
    elim found [
      | none ↦ lifted (err going_on)
      | some (next, id) ↦ txn.set (idseq_key n collection) (to_le_bytes next) >>= λ done. pure id
    ]

  is_own : Option String → String → Bool
  is_own none owner = false
  is_own (some id) owner = id == owner

  -- A field that is missing passes its index over, and so does an entry whose record is gone.
  unfoldable pub find_unique_conflict :
      ProviderNamespace
      → String
      → List UniqueIndex
      → Value
      → Option String
      → Action W SorxError (Option UniqueConflict)
  unfolding is_own lifted
  find_unique_conflict n collection [] content current = pure none
  find_unique_conflict n collection (index ∷ rest) content current =
      let later = find_unique_conflict n collection rest content current in
      elim (index_values content index.fields) [
        | none ↦ later
        | some vs ↦
            txn.get (
              uniq_key (λ xs. host.to_json (Json.array (Json.to_items xs))) n collection index.id
                vs)
            >>= λ entry. elim entry [
              | none ↦ later
              | some bytes ↦ lifted (codec.from_utf8 bytes) >>= λ owner.
                  if is_own current owner
                  then later
                  else (txn.get (entity_key n collection owner) >>= λ held. elim held [
                    | none ↦ later
                    | some stored ↦ lifted (codec.decode_record stored) >>= λ existing.
                        pure (
                          some
                            (record { index = index; conflict_values = vs; existing = existing }))
                  ])
            ]
      ]

  unfoldable pub write_unique_keys :
      ProviderNamespace → String → List UniqueIndex → EntityRecord → Action W SorxError (Unit {0})
  write_unique_keys n collection [] r = pure tt
  write_unique_keys n collection (index ∷ rest) r = elim (index_values r.content index.fields) [
    | none ↦ write_unique_keys n collection rest r
    | some vs ↦
        txn.set
          (uniq_key (λ xs. host.to_json (Json.array (Json.to_items xs))) n collection index.id vs)
          (to_bytes r.id)
        >>= λ done. write_unique_keys n collection rest r
  ]
