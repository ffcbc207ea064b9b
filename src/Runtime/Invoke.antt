-- ===== src/Runtime/Invoke.antt =====
-- crates/greentic-sorx-core/src/runtime.rs: `invoke`.
mod Matches
pub mod Refused
pub mod Audited
use greentic_sorx.Prelude.{
  [], ◌∷◌, List, ℕ, String, Bool, true, false, not, Option, none, some, ◌==◌, ◌&&◌, if◌then◌else◌,
}
use greentic_sorx.Prelude.Text.{◌+++◌}
use greentic_sorx.Prelude.Results.{Result, ok, err}
use greentic_sorx.Prelude.Actions.{◌>>=◌, ◌>>◌, pure}
use greentic_sorx.Error.{SorxError, new}
use greentic_sorx.Json.{Value, unwrap_or}
use greentic_sorx.Policy.{PolicyAction, PolicyDecision, decide}
use greentic_sorx.Store.Types.{ProviderNamespace}
use greentic_sorx.Runtime.Types.{
  EndpointDefinition, EndpointInvocation, EndpointStatus, EndpointResult, OperationKind,
  is_mutating, ApprovalStatus, ApprovalDecision, StackCallContext, StackCallRequest,
  StackCallResponse, ControlDecision, ControlDecisionAction, ObserverEvent,
}
use greentic_sorx.Runtime.Access.{authorization_denial}
use greentic_sorx.Runtime.Input.{view_to_canonical, validate_input, apply_value_patch}
use greentic_sorx.Runtime.Labels.{
  event, policy_decision_label, approval_status_label, status_text, approval_request_id,
  authorization_denied, denied_with, policy_denied, approval_denied, approval_pending,
}
use greentic_sorx.Runtime.Hooks.{
  Effect, SorxRuntime, ProviderBinding, lift, fail, attempt, audit, observe, find_endpoint, resolve,
  store, stack_call_context,
}
use greentic_sorx.Runtime.Perform.{
  perform_create, perform_get, perform_update, perform_query, perform_delete,
}
use greentic_sorx.Runtime.Command.Context.{Generator}
use greentic_sorx.Runtime.Command.Steps.{EventClock, execute_command}

module _ {W : Type 0} (rt : SorxRuntime W) (gen : Generator W) (clock : EventClock W) where
  -- The match on the operation, under the audit of its start and its end.
  unfoldable pub perform_operation :
      EndpointDefinition → EndpointInvocation → Effect W EndpointResult
  perform_operation endpoint invocation = do
    binding ← lift (resolve rt endpoint)
    provider ← lift (store rt binding.provider_id)
    let namespace : ProviderNamespace = record {
      tenant_id = invocation.tenant_id;
      sor_name = rt.sor_name;
    }
    audit rt endpoint invocation "sorx.provider.operation.started" none none
    result ← elim endpoint.operation [
      | OperationKind.create ↦ perform_create rt provider endpoint invocation namespace binding
      | OperationKind.get ↦ perform_get rt provider endpoint invocation namespace binding
      | OperationKind.update ↦ perform_update rt provider endpoint invocation namespace binding
      | OperationKind.query ↦ perform_query rt provider endpoint invocation namespace binding
      | OperationKind.delete ↦ perform_delete rt provider endpoint invocation namespace binding
      | OperationKind.command spec ↦
          execute_command rt gen clock endpoint spec invocation namespace binding
    ]
    audit rt endpoint invocation "sorx.provider.operation.completed" none none
    pure result

  -- The end of a call that returns a result.
  unfoldable pub complete :
      EndpointDefinition → EndpointInvocation → String → EndpointResult → Effect W EndpointResult
  complete endpoint invocation decision result = do
    duration ← rt.hooks.elapsed_ms
    audit rt endpoint invocation "sorx.endpoint.completed" (some decision) (some duration)
    pure result

  -- The end of a call that is refused with an error.
  unfoldable pub refuse :
      EndpointDefinition → EndpointInvocation → SorxError → Effect W EndpointResult
  refuse endpoint invocation e =
      audit rt endpoint invocation "sorx.endpoint.failed" none none >>= λ done. fail e

  refused_result :
      EndpointStatus → Value → String → EndpointDefinition → EndpointInvocation → EndpointResult
  refused_result status output event_type endpoint invocation = record {
    status = status;
    output = output;
    events = event endpoint invocation event_type ∷ [];
  }

  observe_with :
      String → StackCallContext → Option String → Option ControlDecision → Effect W (Unit {0})
  observe_with event_type context status decision = do
    duration ← rt.hooks.elapsed_ms
    observe rt (record {
      event_type = event_type;
      context = context;
      status = status;
      duration_ms = some duration;
      control_decision = decision;
    })

  -- What `post_call` makes of a result: with it, the status that the observer is told.
  settle :
      EndpointDefinition
      → EndpointInvocation
      → EndpointResult
      → ControlDecision
      → EndpointResult × String
  unfolding refused_result
  settle endpoint invocation result decision = elim decision.action [
    | ControlDecisionAction.allow ↦ (result, status_text result.status)
    | ControlDecisionAction.allow_with_patch ↦ elim decision.patch [
      | none ↦ (result, status_text result.status)
      | some patch ↦ (
        record result { output = apply_value_patch result.output patch },
        status_text result.status,
      )
    ]
    | ControlDecisionAction.deny ↦ (
      refused_result EndpointStatus.denied
          (denied_with (unwrap_or "control denied stack response" decision.reason)) "control.denied"
          endpoint invocation,
      "denied",
    )
  ]

  abbrev call_event : EndpointStatus → String
  call_event EndpointStatus.denied = "stack.call.denied"
  call_event _ = "stack.call.completed"

  -- From the operation on: what a call that nothing refused does.
  unfoldable pub execute :
      EndpointDefinition
      → EndpointInvocation
      → StackCallContext
      → StackCallRequest
      → ControlDecision
      → Effect W EndpointResult
  unfolding observe_with settle perform_operation
  execute endpoint invocation context request pre_decision = do
    outcome ← attempt (perform_operation endpoint invocation)
    elim outcome [
      | err e ↦
          observe_with "stack.call.failed" context (some "failed") (some pre_decision) >>= λ done.
          refuse endpoint invocation e
      | ok result ↦
          rt.hooks.post_call context request
            (record { status = status_text result.status; output = result.output })
          >>= λ post_decision.
              let (final, status) = settle endpoint invocation result post_decision in
              observe_with (call_event final.status) context (some status) (some post_decision)
              >>= λ done. complete endpoint invocation "executed" final
    ]

  -- An approval that a policy asks for.
  unfoldable pub seek_approval :
      EndpointDefinition
      → EndpointInvocation
      → StackCallContext
      → StackCallRequest
      → ControlDecision
      → String
      → Effect W EndpointResult
  unfolding refused_result
  seek_approval endpoint invocation context request pre_decision reason = do
    approval ← rt.hooks.decide (record {
      request_id = approval_request_id endpoint invocation;
      tenant_id = invocation.tenant_id;
      endpoint_id = endpoint.endpoint_id;
      operation_id = endpoint.operation_id;
      risk = endpoint.risk;
      reason = reason;
      caller = invocation.caller;
    })
    audit rt endpoint invocation "sorx.approval.requested"
        (some (approval_status_label approval.status)) none
    elim approval.status [
      | ApprovalStatus.approved ↦ execute endpoint invocation context request pre_decision
      | ApprovalStatus.denied ↦ complete endpoint invocation "denied" (
          refused_result EndpointStatus.denied (approval_denied approval) "approval.denied" endpoint
            invocation)
      | ApprovalStatus.pending ↦ complete endpoint invocation "approval_required" (
          refused_result EndpointStatus.approval_required (approval_pending endpoint.risk approval)
            "approval.requested" endpoint invocation)
    ]

  unfoldable pub apply_policy :
      EndpointDefinition
      → EndpointInvocation
      → StackCallContext
      → StackCallRequest
      → ControlDecision
      → Effect W EndpointResult
  unfolding seek_approval refused_result
  apply_policy endpoint invocation context request pre_decision =
      let decision = decide rt.policy endpoint.risk endpoint.approval in
      audit rt endpoint invocation "sorx.policy.decided"
        (some (policy_decision_label decision.action)) none
      >>= λ done. elim decision.action [
        | PolicyAction.execute ↦ execute endpoint invocation context request pre_decision
        | PolicyAction.deny ↦ complete endpoint invocation "denied" (
            refused_result EndpointStatus.denied (policy_denied endpoint.risk decision.reason)
              "policy.denied" endpoint invocation)
        | PolicyAction.require_approval ↦
            seek_approval endpoint invocation context request pre_decision decision.reason
      ]

  -- The patch of `pre_call`, which the operation and `post_call` then see.
  abbrev patched : ControlDecision → EndpointInvocation → EndpointInvocation
  patched decision invocation = elim decision.patch [
    | none ↦ invocation
    | some patch ↦ record invocation { input = apply_value_patch invocation.input patch }
  ]

  abbrev request_of : EndpointInvocation → StackCallRequest
  request_of invocation = record {
    operation_id = invocation.operation_id;
    input = invocation.input;
  }

  -- From the control hook on.
  unfoldable pub controlled :
      EndpointDefinition → EndpointInvocation → StackCallContext → Effect W EndpointResult
  unfolding observe_with apply_policy refused_result
  controlled endpoint invocation context = do
    observe rt (record {
      event_type = "stack.call.started";
      context = context;
      status = none;
      duration_ms = none;
      control_decision = none;
    })
    pre_decision ← rt.hooks.pre_call context (request_of invocation)
    elim pre_decision.action [
      | ControlDecisionAction.allow ↦
          apply_policy endpoint invocation context (request_of invocation) pre_decision
      | ControlDecisionAction.allow_with_patch ↦
          let changed = patched pre_decision invocation in
          apply_policy endpoint changed context (request_of changed) pre_decision
      | ControlDecisionAction.deny ↦
          observe_with "stack.call.denied" context (some "denied") (some pre_decision) >>= λ done.
          complete endpoint invocation "denied" (
            refused_result EndpointStatus.denied
              (denied_with (unwrap_or "control denied stack call" pre_decision.reason))
              "control.denied" endpoint invocation)
    ]

  -- The checks of a call to an endpoint, before the hooks hear of it.
  unfoldable pub checked :
      EndpointDefinition → EndpointInvocation → StackCallContext → Effect W EndpointResult
  unfolding controlled refused_result refuse complete
  checked endpoint received context =
      let invocation = record received { input = view_to_canonical endpoint.view received.input } in
      if not (endpoint.operation_id == received.operation_id)
      then refuse endpoint received (
          new "operation_mismatch" (
            "endpoint `" +++ endpoint.endpoint_id +++ "` maps to operation `"
            +++ endpoint.operation_id +++ "`, not `" +++ received.operation_id +++ "`"))
      else if endpoint.view.read_only && is_mutating endpoint.operation
      then refuse endpoint received (
          new "view_read_only"
            ("endpoint `" +++ endpoint.endpoint_id +++ "` is read-only in this view"))
      else elim (validate_input endpoint.input_schema invocation.input) [
        | err e ↦ refuse endpoint invocation e
        | ok valid ↦ elim (authorization_denial rt.pack endpoint invocation) [
          | some reason ↦ complete endpoint invocation "denied" (
              refused_result EndpointStatus.denied (authorization_denied reason)
                "authorization.denied" endpoint invocation)
          | none ↦ controlled endpoint invocation context
        ]
      ]

  unfoldable pub invoke : EndpointInvocation → Effect W EndpointResult
  unfolding checked
  invoke invocation = do
    endpoint ← lift (find_endpoint rt invocation.endpoint_id)
    context ← stack_call_context rt endpoint invocation
    audit rt endpoint invocation "sorx.endpoint.invoked" none none
    checked endpoint invocation context
