-- ===== src/Runtime/Perform.antt =====
-- crates/greentic-sorx-core/src/runtime.rs: the operation of an endpoint on its store.
pub mod Published
use greentic_sorx.Store.Types.{
  CreateOp, ProviderNamespace, EntityRecord, UniqueIndex, UniqueConflictBehavior,
}
use greentic_sorx.Prelude.{
  [], ◌∷◌, List, String, Bool, true, Option, none, some, ◌==◌, ◌&&◌, if◌then◌else◌, map, retain,
  map_some,
}
use greentic_sorx.Prelude.Text.{◌+++◌}
use greentic_sorx.Prelude.Actions.{◌>>=◌, ◌>>◌, pure}
use greentic_sorx.Json
use greentic_sorx.Json.{Value, string, unwrap_or}
use greentic_sorx.Runtime.Types.{
  EndpointDefinition, EndpointInvocation, EndpointStatus, EndpointResult, RuntimePack,
  RuntimeOperationalIndex,
}
use greentic_sorx.Runtime.Input.{canonical_to_view, required_string}
use greentic_sorx.Runtime.Labels.{
  event, record_value, optional_record_value, records_value, deleted_value,
}
use greentic_sorx.Runtime.Hooks.{
  Effect, SorxRuntime, SorStoreProvider, ProviderBinding, lift, publish_entity_event,
  canonical_store,
}

serves : String → String → RuntimeOperationalIndex → Bool
serves entity collection index =
    index.unique
    && index.record_name == entity
    && (elim index.collection [ none ↦ true | some c ↦ c == collection ])

unique_index : String → RuntimeOperationalIndex → UniqueIndex
unique_index collection index = record {
  id = index.id;
  record_name = index.record_name;
  collection = unwrap_or collection index.collection;
  fields = index.fields;
}

unfoldable pub unique_indexes_for : RuntimePack → String → String → List UniqueIndex
unfolding serves unique_index
unique_indexes_for pack entity collection =
    map (unique_index collection) (retain (serves entity collection) pack.operational_indexes)

found_status : Option EntityRecord → EndpointStatus
found_status none = EndpointStatus.not_found
found_status (some r) = EndpointStatus.done

module _ {W : Type 0} (rt : SorxRuntime W) where
  -- The arms of the match on the operation.
  unfoldable pub create_op :
      EndpointDefinition → EndpointInvocation → ProviderNamespace → ProviderBinding → CreateOp
  unfolding unique_indexes_for
  create_op endpoint invocation namespace binding = record {
    namespace = namespace;
    entity = binding.entity;
    collection = binding.collection;
    input = invocation.input;
    idempotency_key =
        map_some (λ key. endpoint.operation_id +++ ":" +++ key) invocation.idempotency_key;
    unique_indexes = unique_indexes_for rt.pack binding.entity binding.collection;
    unique_behavior = UniqueConflictBehavior.reject;
  }

  unfoldable pub created_result :
      EndpointDefinition → EndpointInvocation → EntityRecord → EndpointResult
  created_result endpoint invocation stored = record {
    status = EndpointStatus.created;
    output = canonical_to_view endpoint.view (record_value stored);
    events = event endpoint invocation "entity.created" ∷ [];
  }

  unfoldable pub perform_create :
      SorStoreProvider W
      → EndpointDefinition
      → EndpointInvocation
      → ProviderNamespace
      → ProviderBinding
      → Effect W EndpointResult
  unfolding create_op created_result
  perform_create provider endpoint invocation namespace binding = do
    stored ← provider.create (create_op endpoint invocation namespace binding)
    publish_entity_event rt endpoint invocation binding "created" stored.id
        (some (record_value stored))
    pure (created_result endpoint invocation stored)

  unfoldable pub perform_get :
      SorStoreProvider W
      → EndpointDefinition
      → EndpointInvocation
      → ProviderNamespace
      → ProviderBinding
      → Effect W EndpointResult
  unfolding found_status
  perform_get provider endpoint invocation namespace binding = do
    id ← lift (required_string invocation.input "id")
    stored ← provider.get (record {
      namespace = namespace;
      entity = binding.entity;
      collection = binding.collection;
      id = id;
    })
    pure (record {
      status = found_status stored;
      output = canonical_to_view endpoint.view (optional_record_value stored);
      events = event endpoint invocation "entity.get" ∷ [];
    })

  unfoldable pub perform_update :
      SorStoreProvider W
      → EndpointDefinition
      → EndpointInvocation
      → ProviderNamespace
      → ProviderBinding
      → Effect W EndpointResult
  unfolding unique_indexes_for
  perform_update provider endpoint invocation namespace binding = do
    id ← lift (required_string invocation.input "id")
    stored ← provider.update (record {
      namespace = namespace;
      entity = binding.entity;
      collection = binding.collection;
      id = id;
      patch = unwrap_or invocation.input (Json.get "patch" invocation.input);
      unique_indexes = unique_indexes_for rt.pack binding.entity binding.collection;
    })
    publish_entity_event rt endpoint invocation binding "updated" stored.id
        (some (record_value stored))
    pure (record {
      status = EndpointStatus.done;
      output = canonical_to_view endpoint.view (record_value stored);
      events = event endpoint invocation "entity.updated" ∷ [];
    })

  -- By the index of the query plan, else by its traversal, else by the filter alone.
  unfoldable pub find_records :
      SorStoreProvider W
      → EndpointDefinition
      → EndpointInvocation
      → ProviderNamespace
      → ProviderBinding
      → Effect W (List EntityRecord)
  find_records provider endpoint invocation namespace binding =
      let filter = unwrap_or invocation.input (Json.get "filter" invocation.input) in
      elim endpoint.query_plan.index [
        | some index ↦ lift (canonical_store rt binding.provider_id) >>= λ canonical.
            canonical.query_index (record {
              namespace = namespace;
              entity = binding.entity;
              collection = binding.collection;
              index = index.name;
              filter = filter;
            })
        | none ↦ elim endpoint.query_plan.traversal [
          | some traversal ↦ lift (canonical_store rt binding.provider_id) >>= λ canonical.
              lift (required_string invocation.input "id") >>= λ root_id.
              canonical.traverse (record {
                namespace = namespace;
                root_entity = binding.entity;
                root_collection = binding.collection;
                root_id = root_id;
                max_depth = traversal.max_depth;
                relationships = traversal.relationships;
              })
          | none ↦ provider.query (record {
            namespace = namespace;
            entity = binding.entity;
            collection = binding.collection;
            filter = filter;
            order_by = [];
          })
        ]
      ]

  unfoldable pub perform_query :
      SorStoreProvider W
      → EndpointDefinition
      → EndpointInvocation
      → ProviderNamespace
      → ProviderBinding
      → Effect W EndpointResult
  unfolding find_records
  perform_query provider endpoint invocation namespace binding = do
    stored ← find_records provider endpoint invocation namespace binding
    pure (record {
      status = EndpointStatus.done;
      output = canonical_to_view endpoint.view (records_value stored);
      events = event endpoint invocation "entity.queried" ∷ [];
    })

  unfoldable pub perform_delete :
      SorStoreProvider W
      → EndpointDefinition
      → EndpointInvocation
      → ProviderNamespace
      → ProviderBinding
      → Effect W EndpointResult
  perform_delete provider endpoint invocation namespace binding = do
    id ← lift (required_string invocation.input "id")
    deleted ← provider.delete (record {
      namespace = namespace;
      entity = binding.entity;
      collection = binding.collection;
      id = id;
    })
    if deleted
        then publish_entity_event rt endpoint invocation binding "deleted" id none
        else pure tt
    pure (record {
      status = (if deleted then EndpointStatus.deleted else EndpointStatus.not_found);
      output = deleted_value deleted;
      events = event endpoint invocation "entity.deleted" ∷ [];
    })
