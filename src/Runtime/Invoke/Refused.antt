-- ===== src/Runtime/Invoke/Refused.antt =====
-- A call that is refused keeps whatever the hooks keep.
use greentic_sorx.Prelude.{
  subst, not, arith, ◌≡◌, ◌≢◌, true, false, Option, some, String, ◌==◌, ◌&&◌,
}
use greentic_sorx.Runtime.Hooks.{
  stack_call_context, find_endpoint, Effect, SorxRuntime, attempt, audit, observe,
}
use greentic_sorx.Prelude.Invariants.{
  Preserves-lifted, Preserves, Preserves-bind, Preserves-pure, Preserves-reads,
  Preserves-bind_where,
}
use greentic_sorx.Runtime.Invoke.{
  invoke, checked, controlled, apply_policy, seek_approval, complete, refuse, observe_with,
}
use greentic_sorx.Prelude.Results.{ok, err}
use greentic_sorx.Prelude.Matches.{match_result, match_option, match_if}
use greentic_sorx.Runtime.Invoke.Matches.{match_policy, match_approval, match_control}
use greentic_sorx.Error.{SorxError}
use greentic_sorx.Policy.{PolicyAction, decide}
use greentic_sorx.Runtime.Types.{
  EndpointDefinition, EndpointInvocation, EndpointResult, is_mutating, ApprovalRequest,
  ApprovalStatus, StackCallContext, StackCallRequest, SorxAuditEvent, ControlDecision,
  ControlDecisionAction, ObserverEvent,
}
use greentic_sorx.Runtime.Access.{authorization_denial}
use greentic_sorx.Runtime.Input.{view_to_canonical, validate_input}
use greentic_sorx.Runtime.Command.Context.{Generator}
use greentic_sorx.Runtime.Command.Steps.{EventClock}

-- The invocation that the checks see.
abbrev pub canonical : EndpointDefinition → EndpointInvocation → EndpointInvocation
canonical endpoint received = record received {
  input = view_to_canonical endpoint.view received.input;
}

-- Why a call is refused.
pub data Barred {W : Type 0} (rt : SorxRuntime W) (endpoint : EndpointDefinition)
    (received : EndpointInvocation) : Type 0 where
  mismatched :
      (endpoint.operation_id == received.operation_id) ≡ false → Barred rt endpoint received
  read_only :
      (endpoint.view.read_only && is_mutating endpoint.operation) ≡ true
      → Barred rt endpoint received
  invalid :
      (e : SorxError)
      → validate_input endpoint.input_schema (canonical endpoint received).input ≡ err e
      → Barred rt endpoint received
  unauthorized :
      (reason : String)
      → authorization_denial rt.pack endpoint (canonical endpoint received) ≡ some reason
      → Barred rt endpoint received
  by_control :
      ((context : StackCallContext) (request : StackCallRequest) (w : W) (d : ControlDecision)
        → (rt.hooks.pre_call context request w).0 ≡ ok d
        → d.action ≡ ControlDecisionAction.deny)
      → Barred rt endpoint received
  by_policy :
      (decide rt.policy endpoint.risk endpoint.approval).action ≡ PolicyAction.deny
      → Barred rt endpoint received
  by_approval :
      (decide rt.policy endpoint.risk endpoint.approval).action ≡ PolicyAction.require_approval
      → ((request : ApprovalRequest) (w : W)
          → (a : _) → (rt.hooks.decide request w).0 ≡ ok a
          → a.status ≢ ApprovalStatus.approved)
      → Barred rt endpoint received

-- What the audit sink, the observer, the control hook, the broker and the clocks keep.
pub record HooksKeep {W : Type 0} (rt : SorxRuntime W) (P : W → Type 0) : Type 0 where
  pub emit : (event : SorxAuditEvent) → Preserves P (rt.hooks.emit event)
  pub observe : (event : ObserverEvent) → Preserves P (rt.hooks.observe event)
  pub pre_call :
      (context : StackCallContext) (request : StackCallRequest)
      → Preserves P (rt.hooks.pre_call context request)
  pub decide : (request : ApprovalRequest) → Preserves P (rt.hooks.decide request)
  pub elapsed_ms : Preserves P rt.hooks.elapsed_ms
  pub now_ns : Preserves P rt.hooks.now_ns

Preserves-attempt :
    {W A : Type 0} {P : W → Type 0} (m : Effect W A) → Preserves P m → Preserves P (attempt m)
unfolding attempt
Preserves-attempt m kept = record { from = λ w h. kept.from w h }

module _ {W : Type 0} (rt : SorxRuntime W) (gen : Generator W) (clock : EventClock W)
    {P : W → Type 0} (keep : HooksKeep rt P) where
  kept_audit :
      (endpoint : EndpointDefinition) (invocation : EndpointInvocation) (name : String)
      (d : Option String) (t : _)
      → Preserves P (audit rt endpoint invocation name d t)
  unfolding audit
  kept_audit endpoint invocation name d t = keep.emit _

  kept_observe : (event : ObserverEvent) → Preserves P (observe rt event)
  unfolding observe
  kept_observe event =
      Preserves-bind _ _ (Preserves-attempt (rt.hooks.observe event) (keep.observe event))
        λ outcome.
          match_result (Preserves P) outcome _ _ (λ done e. Preserves-pure done)
            λ e failed.
              match_if (Preserves P) rt.observer_fail_open _ _ (λ t. Preserves-pure tt)
                (λ f. Preserves-reads _)

  kept_complete :
      (endpoint : EndpointDefinition) (invocation : EndpointInvocation) (d : String)
      (r : EndpointResult)
      → Preserves P (complete rt gen clock endpoint invocation d r)
  unfolding complete
  kept_complete endpoint invocation d r =
      Preserves-bind _ _ keep.elapsed_ms
        λ t. Preserves-bind _ _ (kept_audit endpoint invocation _ _ _) (λ _. Preserves-pure r)

  kept_refuse :
      (endpoint : EndpointDefinition) (invocation : EndpointInvocation) (e : SorxError)
      → Preserves P (refuse rt gen clock endpoint invocation e)
  unfolding refuse
  kept_refuse endpoint invocation e =
      Preserves-bind _ _ (kept_audit endpoint invocation _ _ _) (λ _. Preserves-reads _)

  kept_observe_with :
      (type : String) (context : StackCallContext) (status : Option String)
      (d : Option ControlDecision)
      → Preserves P (observe_with rt gen clock type context status d)
  unfolding observe_with
  kept_observe_with type context status d = Preserves-bind _ _ keep.elapsed_ms (λ t. kept_observe _)

  module _ (endpoint : EndpointDefinition) where
    -- What the policy makes of a call, when it never lets the call be executed.
    Stopped : Type 0
    Stopped =
        (decide rt.policy endpoint.risk endpoint.approval).action ≢ PolicyAction.execute
        × ((decide rt.policy endpoint.risk endpoint.approval).action ≡ PolicyAction.require_approval
            → (request : ApprovalRequest) (w : W) (a : _) → (rt.hooks.decide request w).0 ≡ ok a
            → a.status ≢ ApprovalStatus.approved)

    kept_apply_policy :
        Stopped
        → (invocation : EndpointInvocation) (context : StackCallContext)
          (request : StackCallRequest) (d : ControlDecision)
        → Preserves P (apply_policy rt gen clock endpoint invocation context request d)
    unfolding apply_policy seek_approval Stopped
    kept_apply_policy (never, unapproved) invocation context request d =
        Preserves-bind _ _ (kept_audit endpoint invocation _ _ _) λ _.
          match_policy (Preserves P) (decide rt.policy endpoint.risk endpoint.approval).action _ _ _
            (λ e. absurd (never e)) (λ e. kept_complete endpoint invocation _ _)
            (λ asked. Preserves-bind_where _ _ (keep.decide _) λ w a e.
              Preserves-bind _ _ (kept_audit endpoint invocation _ _ _) λ _.
                match_approval (Preserves P) a.status _ _ _
                  (λ approved. absurd (unapproved asked _ w a e approved))
                  (λ refused. kept_complete endpoint invocation _ _)
                  (λ later. kept_complete endpoint invocation _ _))

    kept_controlled :
        Stopped
        → (invocation : EndpointInvocation) (context : StackCallContext)
        → Preserves P (controlled rt gen clock endpoint invocation context)
    unfolding controlled
    kept_controlled stopped invocation context = Preserves-bind _ _ (kept_observe _) λ _.
        Preserves-bind _ _ (keep.pre_call _ _) λ d.
          match_control (Preserves P) d.action _ _ _ (λ e. kept_apply_policy stopped _ _ _ _)
            (λ e. kept_apply_policy stopped _ _ _ _)
            (λ e.
              Preserves-bind _ _ (kept_observe_with _ _ _ _)
                (λ _. kept_complete endpoint invocation _ _))

    kept_denied :
        ((context : StackCallContext) (request : StackCallRequest) (w : W) (d : ControlDecision)
          → (rt.hooks.pre_call context request w).0 ≡ ok d
          → d.action ≡ ControlDecisionAction.deny)
        → (invocation : EndpointInvocation) (context : StackCallContext)
        → Preserves P (controlled rt gen clock endpoint invocation context)
    unfolding controlled
    kept_denied denies invocation context = Preserves-bind _ _ (kept_observe _) λ _.
        Preserves-bind_where _ _ (keep.pre_call _ _) λ w d e.
          match_control (Preserves P) d.action _ _ _
            (λ allow. absurd (ground (arith, allow, denies _ _ w d e)))
            (λ allow. absurd (ground (arith, allow, denies _ _ w d e)))
            (λ deny.
              Preserves-bind _ _ (kept_observe_with _ _ _ _)
                (λ _. kept_complete endpoint invocation _ _))

    module _ (received : EndpointInvocation) (context : StackCallContext) where
      -- The checks before the hooks, when what comes after them keeps the predicate.
      kept_checks :
          Preserves P (controlled rt gen clock endpoint (canonical endpoint received) context)
          → Preserves P (checked rt gen clock endpoint received context)
      unfolding checked
      kept_checks after =
          match_if (Preserves P) (not (endpoint.operation_id == received.operation_id)) _ _
            (λ _. kept_refuse endpoint received _)
            λ _.
              match_if (Preserves P) (endpoint.view.read_only && is_mutating endpoint.operation) _ _
                (λ _. kept_refuse endpoint received _)
                λ _.
                  match_result (Preserves P)
                    (validate_input endpoint.input_schema (canonical endpoint received).input) _ _
                    (λ valid _.
                      match_option (Preserves P)
                        (authorization_denial rt.pack endpoint (canonical endpoint received)) _ _
                        (λ reason _. kept_complete endpoint _ _ _) (λ _. after))
                    (λ e _. kept_refuse endpoint _ e)

      kept_barred :
          Barred rt endpoint received → Preserves P (checked rt gen clock endpoint received context)
      unfolding checked Stopped
      kept_barred (mismatched differ) = rw differ (kept_refuse endpoint received _)
      kept_barred (read_only mutates) =
          match_if (Preserves P) (not (endpoint.operation_id == received.operation_id)) _ _
            (λ _. kept_refuse endpoint received _) λ _. rw mutates (kept_refuse endpoint received _)
      kept_barred (invalid e bad) =
          match_if (Preserves P) (not (endpoint.operation_id == received.operation_id)) _ _
            (λ _. kept_refuse endpoint received _)
            λ _.
              match_if (Preserves P) (endpoint.view.read_only && is_mutating endpoint.operation) _ _
                (λ _. kept_refuse endpoint received _) λ _. rw bad (kept_refuse endpoint _ e)
      kept_barred (unauthorized reason denied) =
          match_if (Preserves P) (not (endpoint.operation_id == received.operation_id)) _ _
            (λ _. kept_refuse endpoint received _)
            λ _.
              match_if (Preserves P) (endpoint.view.read_only && is_mutating endpoint.operation) _ _
                (λ _. kept_refuse endpoint received _)
                λ _.
                  match_result (Preserves P)
                    (validate_input endpoint.input_schema (canonical endpoint received).input) _ _
                    (λ valid _. rw denied (kept_complete endpoint _ _ _))
                    (λ e _. kept_refuse endpoint _ e)
      kept_barred (by_control denies) =
          kept_checks (kept_denied denies (canonical endpoint received) context)
      kept_barred (by_policy denied) = kept_checks (
          kept_controlled
            (λ e. ground (arith, e, denied), λ asked. absurd (ground (arith, asked, denied))) _
            context)
      kept_barred (by_approval asked unapproved) =
          kept_checks (kept_controlled (λ e. ground (arith, e, asked), λ _. unapproved) _ context)

  -- A call that is refused -- the operation is not the endpoint's, the view is read-only and the operation
  -- writes, the input does not fit the schema, the caller's roles do not match, the control hook denies
  -- every call, the policy denies, or it asks for an approval that the broker never gives -- keeps every
  -- predicate that the audit sink, the observer, the control hook, the broker and the clocks keep: no
  -- store is called and no business event is published.
  pub invoke_refused :
      (endpoint : EndpointDefinition) (received : EndpointInvocation)
      → find_endpoint rt received.endpoint_id ≡ ok endpoint
      → Barred rt endpoint received
      → (w : W) → P w
      → P (invoke rt gen clock received w).1
  unfolding invoke stack_call_context
  invoke_refused endpoint received found barred =
      let kept : Preserves P (invoke rt gen clock received) =
        Preserves-lifted (find_endpoint rt received.endpoint_id) _ λ e is.
          Preserves-bind _ _ (Preserves-bind _ _ keep.now_ns (λ now. Preserves-pure _)) λ context.
            Preserves-bind _ _ (kept_audit e received _ _ _) λ _.
              let same : endpoint ≡ e = cc in
              subst (λ x. Preserves P (checked rt gen clock x received context)) same
                (kept_barred endpoint received context barred) in
      kept.from
