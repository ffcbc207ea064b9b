-- ===== src/Store/Examples.antt =====
-- The laws of the store at concrete states.
use greentic_sorx.Store.Memory.Reading.{update-ok}
use greentic_sorx.Store.Memory.Cases.{update_key}
use greentic_sorx.Store.Memory.{
  updated, object_clone, collection_at, new_record, find_record, create, update, delete, query,
}
use greentic_sorx.Store.Memory.Querying.{query_iff, Satisfies}
use greentic_sorx.Prelude.Maps.{values}
use greentic_sorx.Prelude.{◌↔◌, ◌+◌, none, some, ◌≡◌, refl, [], ◌∷◌}
use greentic_sorx.Store.Memory.Replay.{create_once}
use greentic_sorx.Store.Types.{
  reject, EntityRecord, Host, ProviderNamespace, CreateOp, UpdateOp, DeleteOp, QueryOp,
  AppendEventOp, MemoryState, empty_state,
}
use greentic_sorx.Prelude.Results.{ok}
use greentic_sorx.Store.Events.Streams.{perform_all-Numbered, Numbered}
use greentic_sorx.Store.Keys.{collection_key}
use mathlib.Core.List.{Memᴰ}
use greentic_sorx.Json
use greentic_sorx.Json.{from_map}
use greentic_sorx.Prelude.Actions.{◌>>=◌}
use greentic_sorx.Store.Calls.{Call, perform_all}
use Prim.Native.Nat.{Ordering, ◌%◌, ◌^◌}

abbrev sample_host : Host
sample_host = record {
  persistence_path = none;
  write_file = λ path s. ok tt;
  debug_values = λ fs vs. "";
  number_cmp = λ a b. Ordering.eq;
  to_json = λ v. "";
}

abbrev acme : ProviderNamespace
acme = record { tenant_id = "acme"; sor_name = "tenancy" }

abbrev create_ada : CreateOp
create_ada = record {
  namespace = acme;
  entity = "Tenant";
  collection = "tenants";
  input = from_map (("id", Json.string "t-1") ∷ ("name", Json.string "Ada") ∷ []);
  idempotency_key = some "k-1";
  unique_indexes = [];
  unique_behavior = reject;
}

abbrev create_bob : CreateOp
create_bob = record create_ada {
  input = from_map (("id", Json.string "t-2") ∷ ("name", Json.string "Bob") ∷ []);
}

abbrev ada_only : MemoryState
ada_only = (create sample_host create_ada empty_state).1

abbrev rename_ada : UpdateOp
rename_ada = record {
  namespace = acme;
  entity = "Tenant";
  collection = "tenants";
  id = "t-1";
  patch = from_map (("name", Json.string "Ada L.") ∷ []);
  unique_indexes = [];
}

abbrev delete_ada : DeleteOp
delete_ada = record { namespace = acme; entity = "Tenant"; collection = "tenants"; id = "t-1" }

abbrev named_ada : QueryOp
named_ada = record {
  namespace = acme;
  entity = "Tenant";
  collection = "tenants";
  filter = from_map (("name", Json.string "Ada") ∷ []);
  order_by = [];
}

abbrev moved_in : AppendEventOp
moved_in = record {
  namespace = acme;
  stream = "tenancy";
  event_type = "moved_in";
  capability = none;
  producer = none;
  subject_entity = "Tenant";
  subject_id = "t-1";
  content = Json.null;
  occurred_at = 7;
}

abbrev ada : EntityRecord
ada = record {
  entity = "Tenant";
  collection = "tenants";
  id = "t-1";
  content = create_ada.input;
  version = 1;
}

abbrev one_record : MemoryState
one_record = record empty_state {
  collections = ("sorx/acme/tenancy/tenants", ("t-1", ada) ∷ []) ∷ [];
}

create_once_example :
    create sample_host create_bob (perform_all sample_host (Call.delete delete_ada ∷ []) ada_only)
    ≡ (
      ok (new_record create_ada empty_state),
      perform_all sample_host (Call.delete delete_ada ∷ []) ada_only,
    )
unfolding create ◌>>=◌ greentic_sorx.Store.Memory.create_unless greentic_sorx.Store.Memory.replayed
    greentic_sorx.Prelude.Maps.get greentic_sorx.Store.Memory.resolve_conflict
    greentic_sorx.Store.Unique.unique_conflict greentic_sorx.Store.Memory.store_new
    greentic_sorx.Store.Memory.persist
create_once_example =
    create_once sample_host create_ada empty_state "k-1" refl (Call.delete delete_ada ∷ [])
      create_bob refl refl refl refl

update-ok_example :
    (old : EntityRecord) × (find_record
        (update_key sample_host rename_ada one_record)
        "t-1"
        one_record
      ≡ some old)
    × (2 ≡ (old.version + 1) % 2 ^ 64)
    × ("t-1" ≡ old.id)
    × (find_record
          (update_key sample_host rename_ada one_record)
          "t-1"
          (update sample_host rename_ada one_record).1
        ≡ some (updated rename_ada ada))
unfolding update updated ◌>>=◌ find_record greentic_sorx.Prelude.Maps.get collection_key
    greentic_sorx.Store.Memory.reject_conflict greentic_sorx.Store.Unique.unique_conflict
    greentic_sorx.Store.Unique.first_conflict greentic_sorx.Store.Memory.persist
update-ok_example = update-ok sample_host rename_ada one_record {r = updated rename_ada ada} refl

query_iff_example : Memᴰ ada (ada ∷ []) ↔ (
    Memᴰ ada (values (collection_at (collection_key acme "tenants") one_record))
    × Satisfies ada.content (object_clone named_ada.filter))
unfolding query ◌>>=◌ greentic_sorx.Prelude.Sorting.sort_by greentic_sorx.Store.Memory.found_records
    greentic_sorx.Prelude.Maps.get collection_key greentic_sorx.Store.Query.matches_filter Json.get
    Json.value_eq
query_iff_example = query_iff sample_host named_ada one_record refl ada

perform_all-Numbered_example :
    Numbered
      (perform_all sample_host (Call.append moved_in ∷ Call.append moved_in ∷ []) empty_state)
unfolding greentic_sorx.Prelude.Maps.get
perform_all-Numbered_example =
    perform_all-Numbered sample_host (Call.append moved_in ∷ Call.append moved_in ∷ []) empty_state
      (λ key. tt)
