-- ===== src/Runtime/Examples.antt =====
-- A runtime on a world that keeps the audit events, the latest first, and counts the writes.
use greentic_sorx.Prelude.{
  [], ◌∷◌, List, ℕ, suc, ◌+◌, ◌≤◌, String, Bool, true, false, Option, none, some, ◌≡◌, refl, ◌↔◌,
  arith,
}
use greentic_sorx.Prelude.Results.{ok, err, map_ok}
use greentic_sorx.Prelude.Actions.{pure, modify, reads}
use greentic_sorx.Error.{SorxError, new}
use greentic_sorx.Json.{object, end}
use greentic_sorx.Policy.{RiskLevel, default_config, low, critical}
use greentic_sorx.Store.Types.{EntityRecord, ProviderNamespace}
use greentic_sorx.Runtime.Types.{
  EndpointDefinition, EndpointInvocation, EndpointResult, EndpointMethod, OperationKind,
  ViewTransform, InvocationSource, RuntimePack, SorxAuditEvent, ApprovalStatus,
  ControlDecisionAction,
}
use greentic_sorx.Runtime.Access.{authorization_denial}
use greentic_sorx.Runtime.Access.Laws.{authorization_denial_iff, Admits, record_requirement}
use greentic_sorx.Runtime.Hooks.{
  Effect, Hooks, SorxRuntime, SorStoreProvider, ProviderRegistry, ProviderBinding,
}
use greentic_sorx.Runtime.Perform.{perform_create, create_op, created_result}
use greentic_sorx.Runtime.Perform.Published.{perform_create_ok}
use greentic_sorx.Runtime.Command.Context.{Generator}
use greentic_sorx.Runtime.Command.Steps.{EventClock}
use greentic_sorx.Runtime.Invoke.{invoke}
use greentic_sorx.Runtime.Invoke.Refused.{HooksKeep, by_policy, invoke_refused}
use greentic_sorx.Runtime.Invoke.Audited.{invoke_told, Completed}

record World : Type 0 where
  taken : List SorxAuditEvent
  writes : ℕ

abbrev start : World
start = record { taken = []; writes = 0 }

abbrev conflict : SorxError
conflict = new "unique_constraint_violation" "unique index `code` already has fields [code]"

-- Each write is counted, and refused.
abbrev refuse_write : {A : Type 0} → Effect World A
refuse_write w = (err conflict, record w { writes = suc w.writes })

abbrev hooks : Hooks World
hooks = record {
  emit = λ e w. (ok tt, record w { taken = e ∷ w.taken });
  decide = λ request w. (
    ok (record {
      status = ApprovalStatus.pending;
      request_id = request.request_id;
      reason = request.reason;
    }),
    w,
  );
  pre_call = λ context request w.
      (ok (record { action = ControlDecisionAction.allow; reason = none; patch = none }), w);
  post_call = λ context request response w.
      (ok (record { action = ControlDecisionAction.allow; reason = none; patch = none }), w);
  observe = λ e w. (ok tt, w);
  publish_entity = λ pack input w. (err (new "sink_down" "sink is down"), w);
  publish_command = λ pack input w. (err (new "sink_down" "sink is down"), w);
  elapsed_ms = λ w. (ok 1, w);
  now_ns = λ w. (ok 0, w);
}

abbrev tenant_record : EntityRecord
tenant_record = record {
  entity = "Tenant";
  collection = "tenants";
  id = "t1";
  content = object end;
  version = 1;
}

abbrev provider : SorStoreProvider World
provider = record {
  create = λ op w. (ok tenant_record, record w { writes = suc w.writes });
  get = λ op w. (ok none, w);
  update = λ op. refuse_write;
  query = λ op w. (ok [], w);
  delete = λ op w. (ok true, record w { writes = suc w.writes });
}

abbrev view : ViewTransform
view = record { read_only = false; input_field_map = []; output_field_map = [] }

abbrev endpoint_at : RiskLevel → EndpointDefinition
endpoint_at risk = record {
  endpoint_id = "tenants.create";
  operation_id = "create_tenant";
  operation = OperationKind.create;
  method = EndpointMethod.post;
  path = "/tenants";
  entity = some "Tenant";
  collection = "tenants";
  provider_binding = "store";
  risk = risk;
  approval = none;
  authorization = some (record {
    roles = record { any_of = "admin" ∷ []; all_of = [] };
    policies = "never" ∷ [];
    conditions = none;
  });
  input_schema = none;
  output_schema = none;
  view = view;
  query_plan = record { index = none; traversal = none };
  record_selector = false;
}

abbrev demo_pack : RuntimePack
demo_pack = record {
  name = "crm";
  version = "1";
  digest = none;
  operational_indexes = [];
  record_access = [];
}

abbrev runtime_at : RiskLevel → SorxRuntime World
runtime_at risk = record {
  pack = demo_pack;
  environment = "dev";
  sor_name = "crm";
  bindings = [];
  endpoints = ("tenants.create", endpoint_at risk) ∷ [];
  providers = record { stores = ("store", provider) ∷ []; canonical_stores = [] };
  policy = default_config;
  hooks = hooks;
  observer_fail_open = true;
}

abbrev generator : Generator World
generator = record {
  now_ns = λ w. (ok 0, w);
  next_nonce = λ w. (ok 1, w);
  sha256 = λ seed i. i;
  float_sum = λ a b. b;
}

abbrev clock : EventClock World
clock = record { utc_now = λ w. (ok 0, w); moment = λ t. "1970-01-01T00:00:00Z" }

abbrev received : EndpointInvocation
received = record {
  tenant_id = "acme";
  endpoint_id = "tenants.create";
  operation_id = "create_tenant";
  input = object end;
  caller = record { subject = "ann"; roles = "admin" ∷ [] };
  idempotency_key = none;
  source = InvocationSource.http;
}

keeps_writes : (risk : RiskLevel) → HooksKeep (runtime_at risk) (λ w. w.writes ≡ 0)
keeps_writes risk = record {
  emit = λ e. record { from = λ w h. h };
  observe = λ e. record { from = λ w h. h };
  pre_call = λ context request. record { from = λ w h. h };
  decide = λ request. record { from = λ w h. h };
  elapsed_ms = record { from = λ w h. h };
  now_ns = record { from = λ w h. h };
}

invoke_refused_example : (invoke (runtime_at critical) generator clock received start).1.writes ≡ 0
unfolding greentic_sorx.Runtime.Hooks.find_endpoint greentic_sorx.Prelude.Maps.get
    greentic_sorx.Policy.decide
invoke_refused_example =
    invoke_refused (runtime_at critical) generator clock {P = λ w. w.writes ≡ 0}
      (keeps_writes critical) (endpoint_at critical) received refl (by_policy refl) start refl

abbrev Latest : SorxAuditEvent → World → Type 0
Latest e w = (older : List SorxAuditEvent) × (w.taken ≡ e ∷ older)

abbrev created : EndpointResult
created = created_result (runtime_at low) (endpoint_at low) received tenant_record

invoke_told_example :
    (e : SorxAuditEvent) × Completed received e
    × Latest e (invoke (runtime_at low) generator clock received start).1
unfolding invoke greentic_sorx.Prelude.Actions.◌>>=◌ greentic_sorx.Runtime.Hooks.find_endpoint
    greentic_sorx.Prelude.Maps.get greentic_sorx.Runtime.Hooks.stack_call_context
    greentic_sorx.Runtime.Hooks.audit greentic_sorx.Runtime.Input.validate_input
    authorization_denial greentic_sorx.Runtime.Hooks.observe greentic_sorx.Policy.decide
    greentic_sorx.Runtime.Invoke.execute greentic_sorx.Runtime.Hooks.resolve
    greentic_sorx.Runtime.Hooks.store perform_create
    greentic_sorx.Runtime.Hooks.publish_entity_event greentic_sorx.Runtime.Input.view_to_canonical
invoke_told_example =
    invoke_told (runtime_at low) generator clock Latest (λ e w done. (w.taken, refl)) received start
      created refl

authorization_denial_iff_example :
    (authorization_denial demo_pack (endpoint_at low) received ≡ none) ↔ (
      Admits (endpoint_at low).authorization received.caller.roles
      × Admits (record_requirement demo_pack (endpoint_at low)) received.caller.roles)
authorization_denial_iff_example = authorization_denial_iff demo_pack (endpoint_at low) received

abbrev namespace : ProviderNamespace
namespace = record { tenant_id = "acme"; sor_name = "crm" }

abbrev binding : ProviderBinding
binding = record { entity = "Tenant"; provider_id = "store"; collection = "tenants" }

perform_create_ok_example :
    (perform_create (runtime_at low) provider (endpoint_at low) received namespace binding start).0
    ≡ map_ok
        (created_result (runtime_at low) (endpoint_at low) received)
        (provider.create
          (create_op (runtime_at low) (endpoint_at low) received namespace binding)
          start).0
perform_create_ok_example =
    perform_create_ok (runtime_at low) provider (endpoint_at low) received namespace binding start
