-- ===== src/Runtime/Command/Steps.antt =====
-- crates/greentic-sorx-core/src/runtime.rs: `execute_command_step` and `execute_command`.
pub mod Laws
use greentic_sorx.Prelude.{
  [], ◌∷◌, List, ℕ, zero, suc, ◌+◌, String, Bool, true, false, Option, none, some, ◌==◌, ◌&&◌, ◌++◌,
  if◌then◌else◌, length, map,
}
use Prim.Native.Nat.{◌/◌}
use greentic_sorx.Prelude.Text.{◌+++◌, to_text}
use greentic_sorx.Prelude.Maps.{Map}
use greentic_sorx.Prelude.Results.{Result, ok, err, ok_or}
use greentic_sorx.Prelude.Actions.{◌>>=◌, ◌>>◌, pure, gets, modify}
use greentic_sorx.Error.{SorxError, new}
use greentic_sorx.Json
use greentic_sorx.Json.{
  Value, null, bool, number, string, array, object, Number, from_map, to_items, items, as_array,
  and_then, unwrap_or, or_else,
}
use greentic_sorx.Store.Types.{EntityRecord, EventRecord, ProviderNamespace, AppendEventOp}
use greentic_sorx.Runtime.Types.{
  EndpointDefinition, EndpointInvocation, EndpointStatus, EndpointResult, CommandStep, create,
  delete_where, update_where, increment_where, query, find_one, emit_event, for_each, Steps, stop,
  step, CommandSpec,
}
use greentic_sorx.Runtime.Labels.{event}
use greentic_sorx.Runtime.Input.{canonical_to_view}
use greentic_sorx.Runtime.Hooks.{
  Effect, SorxRuntime, SorStoreProvider, ProviderBinding, CommandEventInput, lift, fail, attempt,
  store, canonical_store, publish_business_event,
}
use greentic_sorx.Runtime.Command.Paths.{business_event_capability}
use greentic_sorx.Runtime.Command.Context.{
  Session, Run, Generator, new_session, on_world, record_step, push_iteration, pop_iteration,
}
use greentic_sorx.Runtime.Command.Resolve.{resolve_value}
use greentic_sorx.Runtime.Command.Guard.{
  step_when, step_as_name, skipped_step_output, should_run_step, resolve_string,
}
use greentic_sorx.Runtime.Command.Records.{
  count_value, run_create, run_delete_where, run_update_where, run_increment_where, run_query,
  run_find_one,
}

-- `serde_json::to_value` of an event; the text of a moment is another crate's.
unfoldable pub event_value : (ℕ → String) → EventRecord → Value
event_value moment r = from_map (
    ("data", r.content)
    ∷ ("envelope", r.envelope)
    ∷ ("event_id", string r.event_id)
    ∷ ("event_type", string r.event_type)
    ∷ ("occurred_at", string (moment r.occurred_at))
    ∷ ("sequence", count_value r.sequence)
    ∷ ("stream", string r.stream)
    ∷ ("subject_entity", string r.subject_entity)
    ∷ ("subject_id", string r.subject_id)
    ∷ [])

listed : Option Value → List Value
listed none = []
listed (some v) = unwrap_or [] (as_array v)

single : Option Value → List Value
single none = []
single (some v) = v ∷ []

-- `collect_command_records`
unfoldable pub collect_command_records : Value → List Value → List Value
unfolding listed single
collect_command_records output records =
    records ++ single (Json.get "record" output) ++ listed (Json.get "records" output)

-- The clock of events, and its text.
pub record EventClock (W : Type 0) : Type 0 where
  pub utc_now : Effect W ℕ
  pub moment : ℕ → String

module _ {W : Type 0} (rt : SorxRuntime W) (gen : Generator W) (clock : EventClock W)
    (endpoint : EndpointDefinition) (spec : CommandSpec) (invocation : EndpointInvocation)
    (namespace : ProviderNamespace) (binding : ProviderBinding)
    (provider : SorStoreProvider W) where
  unfoldable pub run_emit_event : String → Value → Option String → Run W Value
  unfolding event_value
  run_emit_event name payload stream = do
    canonical ← lift (canonical_store rt binding.provider_id)
    content ← resolve_value gen endpoint invocation payload
    by_input ← resolve_string gen endpoint invocation "$input.id"
    by_item ← elim by_input [
      | some id ↦ pure none
      | none ↦ resolve_string gen endpoint invocation "$item.id"
    ]
    let subject_id = unwrap_or endpoint.endpoint_id (or_else by_input by_item)
    now ← on_world clock.utc_now
    stored ← on_world (
        canonical.append_event (record {
          namespace = namespace;
          stream = unwrap_or (unwrap_or endpoint.operation_id spec.action) stream;
          event_type = name;
          capability = some (business_event_capability rt.pack.name name);
          producer = some ("sorx:" +++ rt.pack.name +++ ":" +++ rt.pack.version);
          subject_entity = binding.entity;
          subject_id = subject_id;
          content = content;
          occurred_at = now;
        }))
    on_world (
        publish_business_event rt
          (rt.hooks.publish_command rt.pack (record {
            environment = rt.environment;
            tenant_id = invocation.tenant_id;
            event_name = name;
            subject_entity = binding.entity;
            subject_id = subject_id;
            payload = content;
            idempotency_key = invocation.idempotency_key;
          }))
          endpoint invocation)
    pure (event_value clock.moment stored)

  -- The loop over the items: `body` runs the nested steps of one of them, and hands back their outputs.
  unfoldable pub each_item :
      (List Value → Run W (List Value × List Value))
      → ℕ
      → List Value
      → List Value
      → Run W (List Value × List Value)
  each_item body index [] records = pure (records, [])
  each_item body index (item ∷ more) records = do
    modify (push_iteration item index)
    outcome ← body records
    modify pop_iteration
    rest ← each_item body (suc index) more outcome.0
    let iteration =
        from_map (("index", count_value index) ∷ ("steps", array (to_items outcome.1)) ∷ [])
    pure (rest.0, iteration ∷ rest.1)

  -- `foreach`: it counts for itself, and adds to the command's counters at the end.
  unfoldable pub run_for_each : (List Value → Run W (List Value × List Value)) → Value → Run W Value
  unfolding each_item
  run_for_each body templates = do
    value ← resolve_value gen endpoint invocation templates
    rows ← lift (
        ok_or (as_array value)
          (new "command_items_invalid" "foreach items must resolve to an array"))
    before ← gets (λ s. s)
    modify (λ s. record s { created_count = 0; updated_count = 0; deleted_count = 0 })
    outcome ← each_item body 0 rows []
    after ← gets (λ s. s)
    modify (λ s. record s {
      created_count = before.created_count + after.created_count;
      updated_count = before.updated_count + after.updated_count;
      deleted_count = before.deleted_count + after.deleted_count;
    })
    pure (
        from_map (
          ("count", count_value (length rows))
          ∷ ("created_count", count_value after.created_count)
          ∷ ("deleted_count", count_value after.deleted_count)
          ∷ ("items", array (to_items outcome.1))
          ∷ ("op", string "foreach")
          ∷ ("records", array (to_items outcome.0))
          ∷ ("updated_count", count_value after.updated_count)
          ∷ []))

  guarded : CommandStep → Run W Value → Run W (Option String × Value)
  guarded nested body = do
    runs ← should_run_step gen endpoint invocation (step_when nested)
    output ← if runs then body else pure (skipped_step_output nested)
    pure (step_as_name nested, output)

  unfoldable mutual
    unfolding guarded run_for_each

    pub execute_command_step : CommandStep → Run W (Option String × Value)
    execute_command_step (delete_where h t filter) =
        guarded (delete_where h t filter)
          (run_delete_where rt gen endpoint spec invocation namespace binding provider t filter)
    execute_command_step (create h t input) =
        guarded (create h t input)
          (run_create rt gen endpoint spec invocation namespace binding provider t input)
    execute_command_step (update_where h t filter set) =
        guarded (update_where h t filter set)
          (run_update_where rt gen endpoint spec invocation namespace binding provider t filter set)
    execute_command_step (increment_where h t filter increments) =
        guarded (increment_where h t filter increments) (
          run_increment_where rt gen endpoint spec invocation namespace binding provider t filter
            increments)
    execute_command_step (query h t filter order_by) =
        guarded (query h t filter order_by)
          (run_query rt gen endpoint spec invocation namespace binding provider t filter order_by)
    execute_command_step (find_one h t filter required) =
        guarded (find_one h t filter required) (
          run_find_one rt gen endpoint spec invocation namespace binding provider t filter required)
    execute_command_step (emit_event h name payload stream) =
        guarded (emit_event h name payload stream) (run_emit_event name payload stream)
    execute_command_step (for_each h templates steps) =
        guarded (for_each h templates steps) (run_for_each (run_nested steps) templates)

    -- The steps of one iteration, with the records and the outputs they leave.
    pub run_nested : Steps → List Value → Run W (List Value × List Value)
    run_nested stop records = pure (records, [])
    run_nested (step s more) records = do
      outcome ← execute_command_step s
      modify (record_step outcome.0 outcome.1)
      rest ← run_nested more (collect_command_records outcome.1 records)
      pure (rest.0, outcome.1 ∷ rest.1)

  -- The loop of `execute_command`.
  unfoldable pub run_steps : Steps → Run W (List Value)
  unfolding execute_command_step
  run_steps stop = pure []
  run_steps (step s more) = do
    outcome ← execute_command_step s
    modify (record_step outcome.0 outcome.1)
    outputs ← run_steps more
    pure (outcome.1 ∷ outputs)

  summary : List Value → Session W → Value
  summary outputs s = from_map (
      ("created", count_value s.created_count)
      ∷ ("created_count", count_value s.created_count)
      ∷ ("deleted", count_value s.deleted_count)
      ∷ ("deleted_count", count_value s.deleted_count)
      ∷ ("steps", array (to_items outputs))
      ∷ ("updated", count_value s.updated_count)
      ∷ ("updated_count", count_value s.updated_count)
      ∷ [])

  unfoldable pub command_result : Run W Value
  unfolding run_steps summary
  command_result = do
    outputs ← run_steps spec.steps
    elim spec.return_value [
      | some template ↦ resolve_value gen endpoint invocation template
      | none ↦ gets (summary outputs)
    ]

needs_key : CommandSpec → Option String → Bool
needs_key spec (some key) = false
needs_key spec none = elim spec.idempotency [ none ↦ false | some mode ↦ mode == "required" ]

optional_text : Option String → Value
optional_text none = null
optional_text (some s) = string s

module _ {W : Type 0} (rt : SorxRuntime W) (gen : Generator W) (clock : EventClock W) where
  -- The command's own state is new in each call, and gone after it.
  in_session : {A : Type 0} → Run W A → ℕ → ℕ → Effect W A
  in_session m now nonce w =
      let (result, s) = m (new_session w (to_text (now / 1000000000)) nonce) in (result, s.world)

  unfoldable pub execute_command :
      EndpointDefinition
      → CommandSpec
      → EndpointInvocation
      → ProviderNamespace
      → ProviderBinding
      → Effect W EndpointResult
  unfolding in_session command_result needs_key optional_text
  execute_command endpoint spec invocation namespace binding =
      if needs_key spec invocation.idempotency_key
      then fail (
          new "idempotency_key_required"
            ("command `" +++ endpoint.operation_id +++ "` requires an idempotency key"))
      else (lift (store rt binding.provider_id) >>= λ provider. gen.now_ns >>= λ now.
          gen.next_nonce >>= λ nonce.
          in_session
            (command_result rt gen clock endpoint spec invocation namespace binding provider) now
            nonce
          >>= λ result. pure (record {
            status = EndpointStatus.done;
            output = canonical_to_view endpoint.view (
                from_map (
                  ("action", optional_text spec.action)
                  ∷ ("endpoint_id", string endpoint.endpoint_id)
                  ∷ ("ok", bool true)
                  ∷ ("result", result)
                  ∷ []));
            events = event endpoint invocation "command.executed" ∷ [];
          }))
