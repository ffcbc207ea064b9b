-- ===== src/Kv/Examples.antt =====
-- A backend that holds a sorted list, and the laws of the store at concrete states.
use greentic_sorx.Prelude.Results.{same_ok}
use greentic_sorx.Prelude.{
  eq_iff, ltb, ◌++◌, [], ◌∷◌, List, ℕ, String, Bool, true, false, Option, none, some, ◌==◌, ◌&&◌,
  not, if◌then◌else◌, retain, ◌≡◌, refl, ◌↔◌, arith, eqb, inl, inr, Bool-cases,
}
use Prim.Native.Nat.{Ordering}
use greentic_sorx.Prelude.Results.{ok, err}
use greentic_sorx.Error.{SorxError, SorxResult, new}
use greentic_sorx.Json
use greentic_sorx.Json.{from_map}
use greentic_sorx.Store.Types.{
  reject, EntityRecord, Host, ProviderNamespace, CreateOp, AppendEventOp,
}
use greentic_sorx.Kv.Keys.{Bytes, bytes_lt, starts_with, child_range, join_key, entity_key}
use greentic_sorx.Kv.Keys.Ranges.{child_range_iff, AreBytes}
use greentic_sorx.Kv.Records.Equality.{bytes_eq_sound}
use greentic_sorx.Kv.Records.{KvTxn, Codec, bytes_eq, seek_id}
use greentic_sorx.Kv.Operations.{create, get}
use greentic_sorx.Kv.Operations.Created.{KvLaws, get-create}
use greentic_sorx.Kv.Operations.AutoId.{seek_id_ends, id_of}
use greentic_sorx.Kv.Events.{EventCodec, append_event, next_sequence, new_event}
use greentic_sorx.Kv.Events.Numbered.{append_event_next}

abbrev Rows : Type 0
Rows = List (Bytes × Bytes)

unfoldable row_at : Bytes → Rows → Option Bytes
row_at k [] = none
row_at k ((a, b) ∷ rows) = if bytes_eq a k then some b else row_at k rows

unfoldable put_row : Bytes → Bytes → Rows → Rows
put_row k v [] = (k, v) ∷ []
put_row k v ((a, b) ∷ rows) =
    if bytes_eq a k
    then (a, v) ∷ rows
    else if bytes_lt k a
    then (k, v) ∷ (a, b) ∷ rows
    else (a, b) ∷ put_row k v rows

row_at-put_row :
    (j k v : Bytes) (rows : Rows)
    → row_at j (put_row k v rows) ≡ (if bytes_eq k j then some v else row_at j rows)
unfolding row_at put_row
row_at-put_row j k v [] = refl
row_at-put_row j k v ((a, b) ∷ rows) = elim (Bool-cases (bytes_eq a k)) [
  | inl t ↦ rw (t, bytes_eq_sound a k t) (ground arith)
  | inr f ↦ elim (Bool-cases (bytes_lt k a)) [
    | inl t ↦ rw (f, t) refl
    | inr g ↦
        rw (f, g)
          (ground (arith, row_at-put_row j k v rows, bytes_eq_sound a j, bytes_eq_sound k j))
  ]
]

abbrev row_txn : KvTxn Rows
row_txn = record {
  get = λ k rows. (ok (row_at k rows), rows);
  set = λ k v rows. (ok tt, put_row k v rows);
  clear = λ k rows. (ok tt, retain (λ r. not (bytes_eq r.0 k)) rows);
  scan = λ lo hi rows. (ok (retain (λ r. not (bytes_lt r.0 lo) && bytes_lt r.0 hi) rows), rows);
}

abbrev row_laws : KvLaws row_txn
row_laws = record {
  held = row_at;
  get-held = λ k w. refl;
  held-set = λ j k v w done. row_at-put_row j k v w;
}

abbrev acme : ProviderNamespace
acme = record { tenant_id = "acme"; sor_name = "tenancy" }

abbrev create_ada : CreateOp
create_ada = record {
  namespace = acme;
  entity = "Tenant";
  collection = "tenants";
  input = from_map (("id", Json.string "t-1") ∷ []);
  idempotency_key = none;
  unique_indexes = [];
  unique_behavior = reject;
}

abbrev ada : Json.Value → ℕ → EntityRecord
ada content version = record {
  entity = "Tenant";
  collection = "tenants";
  id = "t-1";
  content = content;
  version = version;
}

abbrev ada_content : Json.Value
ada_content = from_map (("id", Json.string "t-1") ∷ [])

-- A code that keeps the version of a record alone.
encode : EntityRecord → SorxResult Bytes
encode r = ok (r.version ∷ [])

decode : Bytes → SorxResult EntityRecord
decode (v ∷ []) = ok (ada ada_content v)
decode _ = err (new "unsupported" "another code")

decode-encode :
    (bytes : Bytes) → encode (ada ada_content 1) ≡ ok bytes → decode bytes ≡ ok (ada ada_content 1)
unfolding encode decode
decode-encode bytes done = let is = same_ok _ bytes done in rw (← is) refl

abbrev ada_codec : Codec
ada_codec = record { encode_record = encode; decode_record = decode; from_utf8 = λ b. ok "t-1" }

abbrev sample_host : Host
sample_host = record {
  persistence_path = none;
  write_file = λ path s. ok tt;
  debug_values = λ fs vs. "";
  number_cmp = λ a b. Ordering.eq;
  to_json = λ v. "";
}

abbrev sample_events : EventCodec
sample_events = record {
  encode_event = λ e. ok (e.sequence ∷ []);
  encode_values = λ vs. ok [];
  decode_values = λ b. ok [];
  decode_refs = λ b. ok [];
}

abbrev going_on : SorxError
going_on = new "going_on" "still looking"

abbrev moved_in : AppendEventOp
moved_in = record {
  namespace = acme;
  stream = "leases";
  event_type = "moved_in";
  capability = none;
  producer = none;
  subject_entity = "Tenant";
  subject_id = "t-1";
  content = Json.null;
  occurred_at = 0;
}

get-create_example :
    (get row_txn ada_codec sample_host
      (record { namespace = acme; entity = "Tenant"; collection = "tenants"; id = "t-1" })
      (create row_txn ada_codec sample_host 3 going_on create_ada []).1).0
    ≡ ok (some (ada ada_content 1))
unfolding create greentic_sorx.Prelude.Actions.◌>>=◌ greentic_sorx.Kv.Records.write_schema_version
    row_at Json.string_field greentic_sorx.Prelude.Maps.get
    greentic_sorx.Kv.Records.find_unique_conflict encode greentic_sorx.Store.Memory.with_id
    greentic_sorx.Prelude.Maps.insert greentic_sorx.Store.Memory.object_clone
    greentic_sorx.Kv.Records.write_unique_keys
get-create_example =
    get-create row_txn ada_codec sample_host row_laws 3 going_on create_ada refl refl []
      (ada ada_content 1) refl decode-encode

append_event_next_example :
    (new_event moved_in 2).sequence ≡ next_sequence (new_event moved_in 1).sequence
unfolding append_event greentic_sorx.Prelude.Actions.◌>>=◌
    greentic_sorx.Kv.Records.write_schema_version row_at put_row greentic_sorx.Kv.Keys.schema_key
    join_key greentic_sorx.Kv.Keys.to_bytes greentic_sorx.Store.Keys.key_prefix
    greentic_sorx.Kv.Keys.evseq_key next_sequence greentic_sorx.Kv.Keys.event_key bytes_lt
    greentic_sorx.Kv.Records.decode_u64 greentic_sorx.Kv.Records.to_le_bytes
append_event_next_example =
    append_event_next row_txn ada_codec sample_events sample_host row_laws moved_in moved_in refl
      refl [] (new_event moved_in 1) (new_event moved_in 2) refl refl

seek_id_ends_example :
    (next : ℕ) × ((seek_id row_txn ada_codec sample_host acme "tenants" 2 0
        ((entity_key acme "tenants" "tenants-1", 1 ∷ []) ∷ [])).0
      ≡ ok (some (next, id_of "tenants" next)))
    × (row_at
          (entity_key acme "tenants" (id_of "tenants" next))
          ((entity_key acme "tenants" "tenants-1", 1 ∷ []) ∷ [])
        ≡ none)
unfolding row_at bytes_eq entity_key join_key greentic_sorx.Kv.Keys.to_bytes
    greentic_sorx.Store.Keys.key_prefix greentic_sorx.Prelude.Text.to_text
seek_id_ends_example =
    seek_id_ends row_txn ada_codec sample_host row_laws acme "tenants" 2 1 0
      ((entity_key acme "tenants" "tenants-1", 1 ∷ []) ∷ []) (omega arith) refl

fits_bytes : Bytes → Bool
fits_bytes [] = true
fits_bytes (k ∷ ks) = if ltb k 256 then fits_bytes ks else false

fits_bytes_sound : (ks : Bytes) → fits_bytes ks ≡ true → AreBytes ks
unfolding fits_bytes
fits_bytes_sound [] h = tt
fits_bytes_sound (k ∷ ks) h = (ground arith, fits_bytes_sound ks (ground arith))

child_range_iff_example :
    (starts_with (join_key acme ("e" ∷ "tenants" ∷ []) ++ 47 ∷ []) (entity_key acme "tenants" "t-1")
      ≡ true)
    ↔ ((bytes_lt (entity_key acme "tenants" "t-1") (child_range acme ("e" ∷ "tenants" ∷ [])).0
          ≡ false)
        × (bytes_lt (entity_key acme "tenants" "t-1") (child_range acme ("e" ∷ "tenants" ∷ [])).1
            ≡ true))
unfolding fits_bytes entity_key join_key greentic_sorx.Kv.Keys.to_bytes
    greentic_sorx.Store.Keys.key_prefix
child_range_iff_example =
    child_range_iff acme ("e" ∷ "tenants" ∷ []) (entity_key acme "tenants" "t-1")
      (fits_bytes_sound (entity_key acme "tenants" "t-1") refl)
