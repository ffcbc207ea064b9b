-- ===== src/Runtime/Hooks.antt =====
-- crates/greentic-sorx-core/src/runtime.rs: the runtime and what it calls; audit.rs, approval.rs and
-- generic_runtime.rs: the hooks, as actions on a world `W` that holds the sinks, the stores and the
-- clock.
use greentic_sorx.Prelude.{
  [], ◌∷◌, List, ℕ, String, Bool, true, false, Option, none, some, if◌then◌else◌,
}
use greentic_sorx.Prelude.Text.{◌+++◌, to_text}
use greentic_sorx.Prelude.Maps
use greentic_sorx.Prelude.Maps.{Map}
use greentic_sorx.Prelude.Results.{ok, err, ok_or}
use greentic_sorx.Prelude.Actions.{Action, reads, ◌>>=◌, pure}
use greentic_sorx.Error.{SorxError, SorxResult, new}
use greentic_sorx.Json.{Value, string, unwrap_or}
use greentic_sorx.Policy.{PolicyConfig}
use greentic_sorx.Store.Types.{
  EntityRecord, EventRecord, CreateOp, GetOp, UpdateOp, QueryOp, DeleteOp, AppendEventOp,
  TraverseOp, IndexQueryOp,
}
use greentic_sorx.Runtime.Types.{
  EndpointDefinition, EndpointInvocation, InvocationSource, RuntimePack, SorxAuditEvent,
  ApprovalRequest, ApprovalDecision, StackCallContext, StackCallRequest, StackCallResponse,
  ControlDecision, ObserverEvent,
}

abbrev pub Effect : Type 0 → Type 0 → Type 0
Effect W A = Action W SorxError A

-- `SorStoreProvider`
pub record SorStoreProvider (W : Type 0) : Type 0 where
  pub create : CreateOp → Effect W EntityRecord
  pub get : GetOp → Effect W (Option EntityRecord)
  pub update : UpdateOp → Effect W EntityRecord
  pub query : QueryOp → Effect W (List EntityRecord)
  pub delete : DeleteOp → Effect W Bool

-- What the runtime calls of a `SorxCanonicalStore`.
pub record SorxCanonicalStore (W : Type 0) : Type 0 where
  pub append_event : AppendEventOp → Effect W EventRecord
  pub query_index : IndexQueryOp → Effect W (List EntityRecord)
  pub traverse : TraverseOp → Effect W (List EntityRecord)

pub record ProviderRegistry (W : Type 0) : Type 0 where
  pub stores : Map (SorStoreProvider W)
  pub canonical_stores : Map (SorxCanonicalStore W)

pub record ProviderBinding : Type 0 where
  pub entity : String
  pub provider_id : String
  pub collection : String

-- What an entity event is built from and published with; its envelope is a type of another crate.
pub record EntityEventInput : Type 0 where
  pub environment : String
  pub tenant_id : String
  pub entity : String
  pub operation : String
  pub record_id : String
  pub stored : Option Value
  pub idempotency_key : Option String

pub record CommandEventInput : Type 0 where
  pub environment : String
  pub tenant_id : String
  pub event_name : String
  pub subject_entity : String
  pub subject_id : String
  pub payload : Value
  pub idempotency_key : Option String

pub record Hooks (W : Type 0) : Type 0 where
  pub emit : SorxAuditEvent → Effect W (Unit {0})
  pub decide : ApprovalRequest → Effect W ApprovalDecision
  pub pre_call : StackCallContext → StackCallRequest → Effect W ControlDecision
  pub post_call : StackCallContext → StackCallRequest → StackCallResponse → Effect W ControlDecision
  pub observe : ObserverEvent → Effect W (Unit {0})
  pub publish_entity : RuntimePack → EntityEventInput → Effect W (Unit {0})
  pub publish_command : RuntimePack → CommandEventInput → Effect W (Unit {0})
  -- the clocks: `Instant::elapsed` in milliseconds and `SystemTime::now` in nanoseconds
  pub elapsed_ms : Effect W ℕ
  pub now_ns : Effect W ℕ

-- `SorxRuntime`, with the fields of its configuration that a call reads.
pub record SorxRuntime (W : Type 0) : Type 0 where
  pub pack : RuntimePack
  pub environment : String
  pub sor_name : String
  pub bindings : Map ProviderBinding
  pub endpoints : Map EndpointDefinition
  pub providers : ProviderRegistry W
  pub policy : PolicyConfig
  pub hooks : Hooks W
  pub observer_fail_open : Bool

source_text : InvocationSource → String
source_text InvocationSource.direct = "direct"
source_text InvocationSource.http = "http"
source_text InvocationSource.mcp = "mcp"

abbrev is_given : Option String → Bool
is_given none = false
is_given (some key) = true

module _ {W : Type 0} where
  -- `?` on a result that no state takes part in.
  abbrev pub lift : {A : Type 0} → SorxResult A → Effect W A
  lift r = reads (λ w. r)

  abbrev pub fail : {A : Type 0} → SorxError → Effect W A
  fail e = reads (λ w. err e)

  -- The outcome of a call as a value: what a `match` on a result of a call looks at.
  unfoldable pub attempt : {A : Type 0} → Effect W A → Effect W (SorxResult A)
  attempt m w = (ok (m w).0, (m w).1)

  -- `observe`: an observer that fails is passed over when the runtime says so.
  unfoldable pub observe : SorxRuntime W → ObserverEvent → Effect W (Unit {0})
  unfolding attempt
  observe rt event = do
    outcome ← attempt (rt.hooks.observe event)
    elim outcome [ ok done ↦ pure done | err e ↦ if rt.observer_fail_open then pure tt else fail e ]

  unfoldable pub audit_event :
      SorxRuntime W
      → EndpointDefinition
      → EndpointInvocation
      → String
      → Option String
      → Option ℕ
      → SorxAuditEvent
  unfolding source_text
  audit_event rt endpoint invocation event_name decision duration_ms = record {
    event = event_name;
    pack = rt.pack.name;
    version = rt.pack.version;
    tenant_id = invocation.tenant_id;
    endpoint_id = endpoint.endpoint_id;
    operation_id = endpoint.operation_id;
    risk = endpoint.risk;
    caller_id = invocation.caller.subject;
    decision = decision;
    duration_ms = duration_ms;
    idempotency_key_present = is_given invocation.idempotency_key;
    details = ("source", string (source_text invocation.source)) ∷ [];
  }

  unfoldable pub audit :
      SorxRuntime W
      → EndpointDefinition
      → EndpointInvocation
      → String
      → Option String
      → Option ℕ
      → Effect W (Unit {0})
  unfolding audit_event
  audit rt endpoint invocation event_name decision duration_ms =
      rt.hooks.emit (audit_event rt endpoint invocation event_name decision duration_ms)

  -- `publish_business_event`: it never fails.
  unfoldable pub publish_business_event :
      SorxRuntime W
      → Effect W (Unit {0})
      → EndpointDefinition
      → EndpointInvocation
      → Effect W (Unit {0})
  unfolding attempt audit
  publish_business_event rt published endpoint invocation = do
    outcome ← attempt published
    elim outcome [
      | ok done ↦ pure tt
      | err e ↦
          attempt (audit rt endpoint invocation "sorx.business_event.publish_failed" none none)
          >>= λ ignored. pure tt
    ]

  unfoldable pub publish_entity_event :
      SorxRuntime W
      → EndpointDefinition
      → EndpointInvocation
      → ProviderBinding
      → String
      → String
      → Option Value
      → Effect W (Unit {0})
  unfolding publish_business_event
  publish_entity_event rt endpoint invocation binding operation record_id stored =
      publish_business_event rt
        (rt.hooks.publish_entity rt.pack (record {
          environment = rt.environment;
          tenant_id = invocation.tenant_id;
          entity = binding.entity;
          operation = operation;
          record_id = record_id;
          stored = stored;
          idempotency_key = invocation.idempotency_key;
        }))
        endpoint invocation

  unfoldable pub find_endpoint : SorxRuntime W → String → SorxResult EndpointDefinition
  find_endpoint rt id =
      ok_or (Maps.get id rt.endpoints)
        (new "unknown_endpoint" ("unknown endpoint `" +++ id +++ "`"))

  -- `BindingResolver::resolve`
  unfoldable pub resolve : SorxRuntime W → EndpointDefinition → SorxResult ProviderBinding
  resolve rt endpoint =
      let entity = unwrap_or endpoint.collection endpoint.entity in
      elim (Maps.get entity rt.bindings) [
        | some binding ↦ ok binding
        | none ↦ elim rt.bindings [
          | [] ↦ ok (record {
            entity = entity;
            provider_id = endpoint.provider_binding;
            collection = endpoint.collection;
          })
          | ◌∷◌ b bs ↦ err (
              new "provider_binding_missing"
                ("missing provider binding for entity `" +++ entity +++ "`"))
        ]
      ]

  unfoldable pub store : SorxRuntime W → String → SorxResult (SorStoreProvider W)
  store rt binding =
      ok_or (Maps.get binding rt.providers.stores)
        (new "provider_missing" ("missing store provider binding `" +++ binding +++ "`"))

  unfoldable pub canonical_store : SorxRuntime W → String → SorxResult (SorxCanonicalStore W)
  canonical_store rt binding = ok_or (Maps.get binding rt.providers.canonical_stores) (
      new "provider_capability_missing"
        ("store provider binding `" +++ binding +++ "` does not support canonical operations"))

  -- The caller's call in the eyes of the hooks.
  unfoldable pub stack_call_context :
      SorxRuntime W → EndpointDefinition → EndpointInvocation → Effect W StackCallContext
  stack_call_context rt endpoint invocation = rt.hooks.now_ns >>= λ now. pure (record {
    environment_id = rt.environment;
    runtime_id = "runtime-main";
    tenant_id = invocation.tenant_id;
    team_id = none;
    deployment_id = rt.sor_name;
    stack_id = rt.pack.name;
    revision_id = none;
    route_id = endpoint.endpoint_id;
    call_id = "call-" +++ to_text now;
    trace_id = "call-" +++ to_text now;
    actor = invocation.caller.subject;
  })
