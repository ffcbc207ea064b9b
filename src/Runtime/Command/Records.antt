-- ===== src/Runtime/Command/Records.antt =====
-- crates/greentic-sorx-core/src/runtime.rs: the steps that read and write records.
use greentic_sorx.Prelude.{
  [], ◌∷◌, List, ℕ, zero, suc, ◌+◌, String, Bool, true, false, Option, none, some, ◌==◌,
  if◌then◌else◌, length, map, map_some,
}
use greentic_sorx.Prelude.Text.{◌+++◌}
use greentic_sorx.Prelude.Maps.{Map}
use greentic_sorx.Prelude.Results.{ok, err, ok_or}
use greentic_sorx.Prelude.Actions.{◌>>=◌, ◌>>◌, pure, modify}
use greentic_sorx.Error.{SorxError, new}
use greentic_sorx.Json.{
  Value, null, number, string, array, Number, from_map, to_items, as_object, unwrap_or,
}
use greentic_sorx.Store.Types.{EntityRecord, ProviderNamespace, QueryOrder}
use greentic_sorx.Runtime.Types.{
  EndpointDefinition, EndpointInvocation, StepTarget, CommandSpec, CommandOrderBy,
}
use greentic_sorx.Runtime.Labels.{record_value}
use greentic_sorx.Runtime.Hooks.{
  SorxRuntime, SorStoreProvider, ProviderBinding, lift, fail, attempt,
}
use greentic_sorx.Runtime.Perform.{unique_indexes_for}
use greentic_sorx.Runtime.Command.Context.{Run, Generator, on_world, reset_generated_for_conflict}
use greentic_sorx.Runtime.Command.Resolve.{resolve_value}
use greentic_sorx.Runtime.Command.Guard.{
  resolve_step_string, generated_field_refs, command_unique_behavior, command_order_by,
  increment_patch,
}

abbrev pub count_value : ℕ → Value
count_value n = number (Number.pos_int n)

abbrev pub texts_value : List String → Value
texts_value ts = array (to_items (map string ts))

exhausted : String → SorxError
exhausted kind =
    new "unique_constraint_retry_exhausted"
      ("failed to generate a unique value for " +++ kind +++ " command")

module _ {W : Type 0} (gen : Generator W) where
  -- The loop `for _ in 0..n` around a write: a conflict on a unique index is tried again when it names a
  -- field with a generated value.
  unfoldable pub retry_unique :
      {A : Type 0}
      → ℕ
      → Option SorxError
      → String
      → Map String
      → Run W Value
      → (Value → Run W A)
      → Run W A
  unfolding exhausted
  retry_unique zero last_err kind generated_fields template write =
      fail (unwrap_or (exhausted kind) last_err)
  retry_unique (suc n) last_err kind generated_fields template write = do
    input ← template
    outcome ← attempt (write input)
    elim outcome [
      | ok written ↦ pure written
      | err e ↦
          if e.code == "unique_constraint_violation"
          then (reset_generated_for_conflict gen e generated_fields >>= λ reset.
              if reset
              then retry_unique n (some e) kind generated_fields template write
              else fail e)
          else fail e
    ]

abbrev pub write_attempts : ℕ
write_attempts = 6

module _ {W : Type 0} (rt : SorxRuntime W) (gen : Generator W) (endpoint : EndpointDefinition)
    (spec : CommandSpec) (invocation : EndpointInvocation) (namespace : ProviderNamespace)
    (binding : ProviderBinding) (provider : SorStoreProvider W) where
  resolved : Value → Run W Value
  resolved v = resolve_value gen endpoint invocation v

  target_entity : StepTarget → Run W String
  target_entity t = resolve_step_string gen endpoint invocation t.entity >>= λ e.
      pure (unwrap_or binding.entity e)

  target_collection : StepTarget → Run W String
  target_collection t = resolve_step_string gen endpoint invocation t.collection >>= λ c.
      pure (unwrap_or binding.collection c)

  query_records : String → String → Value → List QueryOrder → Run W (List EntityRecord)
  query_records entity collection filter order_by = on_world (
      provider.query (record {
        namespace = namespace;
        entity = entity;
        collection = collection;
        filter = filter;
        order_by = order_by;
      }))

  -- The ids that were there to delete.
  delete_each : String → String → List EntityRecord → Run W (List String)
  delete_each entity collection [] = pure []
  delete_each entity collection (r ∷ rs) = do
    deleted ← on_world (
        provider.delete
          (record { namespace = namespace; entity = entity; collection = collection; id = r.id }))
    ids ← delete_each entity collection rs
    pure (if deleted then r.id ∷ ids else ids)

  unfoldable pub run_delete_where : StepTarget → Value → Run W Value
  unfolding resolved target_entity target_collection query_records delete_each
  run_delete_where t filter = do
    entity ← target_entity t
    collection ← target_collection t
    wanted ← resolved filter
    rows ← query_records entity collection wanted []
    ids ← delete_each entity collection rows
    modify (λ s. record s { deleted_count = s.deleted_count + length ids })
    pure (
        from_map (
          ("affected_ids", texts_value ids)
          ∷ ("collection", string collection)
          ∷ ("deleted", count_value (length ids))
          ∷ ("deleted_count", count_value (length ids))
          ∷ ("op", string "delete_where")
          ∷ []))

  unfoldable pub run_create : StepTarget → Option Value → Run W Value
  unfolding resolved target_entity target_collection
  run_create t input = do
    entity ← target_entity t
    collection ← target_collection t
    let template = unwrap_or invocation.input input
    let indexes = unique_indexes_for rt.pack entity collection
    stored ←
        retry_unique gen write_attempts none "create" (generated_field_refs template)
          (resolved template)
          (λ value. on_world (
            provider.create (record {
              namespace = namespace;
              entity = entity;
              collection = collection;
              input = value;
              idempotency_key =
                  map_some (λ key. endpoint.operation_id +++ ":" +++ collection +++ ":" +++ key)
                    invocation.idempotency_key;
              unique_indexes = indexes;
              unique_behavior = command_unique_behavior spec entity indexes;
            })))
    modify (λ s. record s { created_count = s.created_count + 1 })
    pure (
        from_map (
          ("collection", string collection)
          ∷ ("id", string stored.id)
          ∷ ("op", string "create")
          ∷ ("record", record_value stored)
          ∷ []))

  update_record : String → String → String → Value → Run W EntityRecord
  update_record entity collection id patch = on_world (
      provider.update (record {
        namespace = namespace;
        entity = entity;
        collection = collection;
        id = id;
        patch = patch;
        unique_indexes = unique_indexes_for rt.pack entity collection;
      }))

  update_each : String → String → Value → List EntityRecord → Run W (List EntityRecord)
  unfolding resolved update_record
  update_each entity collection set [] = pure []
  update_each entity collection set (r ∷ rs) = do
    updated ←
        retry_unique gen write_attempts none "update" (generated_field_refs set) (resolved set)
          (update_record entity collection r.id)
    more ← update_each entity collection set rs
    pure (updated ∷ more)

  increment_each : String → String → Map Value → List EntityRecord → Run W (List EntityRecord)
  unfolding update_record
  increment_each entity collection increments [] = pure []
  increment_each entity collection increments (r ∷ rs) = do
    patch ← lift (increment_patch gen.float_sum r.content increments)
    updated ← update_record entity collection r.id (from_map patch)
    more ← increment_each entity collection increments rs
    pure (updated ∷ more)

  updated_output : String → String → List EntityRecord → Run W Value
  updated_output op collection rows = do
    modify (λ s. record s { updated_count = s.updated_count + length rows })
    pure (
        from_map (
          ("affected_ids", texts_value (map (λ (r : EntityRecord). r.id) rows))
          ∷ ("collection", string collection)
          ∷ ("op", string op)
          ∷ ("records", array (to_items (map record_value rows)))
          ∷ ("updated", count_value (length rows))
          ∷ ("updated_count", count_value (length rows))
          ∷ []))

  unfoldable pub run_update_where : StepTarget → Value → Value → Run W Value
  unfolding resolved target_entity target_collection query_records update_each updated_output
  run_update_where t filter set = do
    entity ← target_entity t
    collection ← target_collection t
    wanted ← resolved filter
    rows ← query_records entity collection wanted []
    updated ← update_each entity collection set rows
    updated_output "update_where" collection updated

  unfoldable pub run_increment_where : StepTarget → Value → Value → Run W Value
  unfolding resolved target_entity target_collection query_records increment_each updated_output
  run_increment_where t filter increments = do
    entity ← target_entity t
    collection ← target_collection t
    wanted ← resolved filter
    amounts ← resolved increments
    by ← lift (
        ok_or (as_object amounts)
          (new "command_increments_invalid" "increment_where increments must resolve to an object"))
    rows ← query_records entity collection wanted []
    updated ← increment_each entity collection by rows
    updated_output "increment_where" collection updated

  unfoldable pub run_query : StepTarget → Value → List CommandOrderBy → Run W Value
  unfolding resolved target_entity target_collection query_records
  run_query t filter order_by = do
    entity ← target_entity t
    collection ← target_collection t
    wanted ← resolved filter
    rows ← query_records entity collection wanted (command_order_by order_by)
    pure (
        from_map (
          ("collection", string collection)
          ∷ ("count", count_value (length rows))
          ∷ ("op", string "query")
          ∷ ("records", array (to_items (map record_value rows)))
          ∷ []))

  first_record : String → Bool → List EntityRecord → Run W Value
  first_record collection true [] = fail (
      new "command_record_not_found"
        ("required command record was not found in `" +++ collection +++ "`"))
  first_record collection false [] = pure null
  first_record collection required (r ∷ rs) = pure (record_value r)

  unfoldable pub run_find_one : StepTarget → Value → Bool → Run W Value
  unfolding resolved target_entity target_collection query_records first_record
  run_find_one t filter required = do
    entity ← target_entity t
    collection ← target_collection t
    wanted ← resolved filter
    rows ← query_records entity collection wanted []
    first_record collection required rows
