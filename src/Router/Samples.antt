-- ===== src/Router/Samples.antt =====
-- A runtime whose world counts the calls of its store, and whose broker leaves every request pending.
use greentic_sorx.Prelude.{[], ◌∷◌, ℕ, suc, true, none}
use greentic_sorx.Prelude.Results.{ok}
use greentic_sorx.Json.{object, end}
use greentic_sorx.Policy.{default_config}
use greentic_sorx.Store.Types.{EntityRecord}
use greentic_sorx.Runtime.Types.{ApprovalStatus, ControlDecisionAction}
use greentic_sorx.Runtime.Hooks.{Hooks, SorxRuntime, SorStoreProvider}
use greentic_sorx.Runtime.Command.Context.{Generator}
use greentic_sorx.Runtime.Command.Steps.{EventClock}
use greentic_sorx.Router.Endpoints.{EndpointRouter}

abbrev pub World : Type 0
World = ℕ

abbrev stored : EntityRecord
stored = record {
  entity = "Tenant";
  collection = "tenants";
  id = "t1";
  content = object end;
  version = 1;
}

abbrev store : SorStoreProvider World
store = record {
  create = λ op w. (ok stored, suc w);
  get = λ op w. (ok none, suc w);
  update = λ op w. (ok stored, suc w);
  query = λ op w. (ok [], suc w);
  delete = λ op w. (ok true, suc w);
}

abbrev pub hooks : Hooks World
hooks = record {
  emit = λ e w. (ok tt, w);
  decide = λ request w. (
    ok (record {
      status = ApprovalStatus.pending;
      request_id = request.request_id;
      reason = request.reason;
    }),
    w,
  );
  pre_call = λ context request w.
      (ok (record { action = ControlDecisionAction.allow; reason = none; patch = none }), w);
  post_call = λ context request response w.
      (ok (record { action = ControlDecisionAction.allow; reason = none; patch = none }), w);
  observe = λ e w. (ok tt, w);
  publish_entity = λ pack input w. (ok tt, w);
  publish_command = λ pack input w. (ok tt, w);
  elapsed_ms = λ w. (ok 1, w);
  now_ns = λ w. (ok 0, w);
}

abbrev pub runtime_of : EndpointRouter → SorxRuntime World
runtime_of router = record {
  pack = record {
    name = "crm";
    version = "1";
    digest = none;
    operational_indexes = [];
    record_access = [];
  };
  environment = "dev";
  sor_name = "crm";
  bindings = [];
  endpoints = router.endpoints;
  providers = record { stores = ("store", store) ∷ []; canonical_stores = [] };
  policy = default_config;
  hooks = hooks;
  observer_fail_open = true;
}

abbrev pub generator : Generator World
generator = record {
  now_ns = λ w. (ok 0, w);
  next_nonce = λ w. (ok 1, w);
  sha256 = λ seed i. i;
  float_sum = λ a b. b;
}

abbrev pub clock : EventClock World
clock = record { utc_now = λ w. (ok 0, w); moment = λ t. "1970-01-01T00:00:00Z" }
