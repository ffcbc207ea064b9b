-- ===== src/Runtime/Invoke/Audited.antt =====
-- A call that returns a result has told the audit sink so last.
use greentic_sorx.Prelude.{arith, ◌≡◌, refl, not, String, ◌==◌, ◌&&◌, inl, inr}
use greentic_sorx.Prelude.Results.{Result, ok, err, Result-cases}
use greentic_sorx.Prelude.Matches.{match_result, match_option, match_if}
use greentic_sorx.Prelude.Actions.{◌>>=◌, reads, pure, proceed}
use greentic_sorx.Error.{SorxError}
use greentic_sorx.Policy.{decide}
use greentic_sorx.Runtime.Types.{
  EndpointDefinition, EndpointInvocation, EndpointResult, is_mutating, StackCallContext,
  StackCallRequest, SorxAuditEvent, ControlDecision,
}
use greentic_sorx.Runtime.Access.{authorization_denial}
use greentic_sorx.Runtime.Input.{validate_input}
use greentic_sorx.Runtime.Hooks.{Effect, SorxRuntime, audit, audit_event}
use greentic_sorx.Runtime.Command.Context.{Generator}
use greentic_sorx.Runtime.Command.Steps.{EventClock}
use greentic_sorx.Runtime.Invoke.Matches.{match_policy, match_approval, match_control}
use greentic_sorx.Runtime.Invoke.Refused.{canonical}
use greentic_sorx.Runtime.Invoke.{
  invoke, checked, controlled, apply_policy, seek_approval, execute, complete, refuse, patched,
  request_of,
}

-- What holds after every run of the action that succeeds.
pub record Ends {W A : Type 0} (Q : W → Type 0) (m : Effect W A) : Type 0 where
  pub after : (w : W) (a : A) → (m w).0 ≡ ok a → Q (m w).1

module _ {W A B : Type 0} {Q : W → Type 0} where
  ends_proceed :
      (r : Result SorxError A) (f : A → Effect W B) (w : W) (b : B)
      → ((a : A) → Ends Q (f a))
      → (proceed r f w).0 ≡ ok b
      → Q (proceed r f w).1
  ends_proceed (ok a) f w b next done = (next a).after w b done
  ends_proceed (err e) f w b next done = cc

  Ends-bind : (m : Effect W A) (f : A → Effect W B) → ((a : A) → Ends Q (f a)) → Ends Q (m >>= f)
  unfolding ◌>>=◌
  Ends-bind m f next = record { after = λ w b done. ends_proceed (m w).0 f (m w).1 b next done }

Ends-fail : {W B : Type 0} {Q : W → Type 0} (e : SorxError) → Ends {A = B} Q (reads (λ w. err e))
unfolding ◌>>=◌
Ends-fail e = record { after = λ w b done. cc }

-- The last event that a sink has taken, and what it is after a call that returns a result.
abbrev pub Completed : EndpointInvocation → SorxAuditEvent → Type 0
Completed received event =
    (event.event ≡ "sorx.endpoint.completed")
    × (event.tenant_id ≡ received.tenant_id)
    × (event.caller_id ≡ received.caller.subject)

module _ {W : Type 0} (rt : SorxRuntime W) (gen : Generator W) (clock : EventClock W)
    (Last : SorxAuditEvent → W → Type 0)
    (takes : (event : SorxAuditEvent) (w : W)
      → (rt.hooks.emit event w).0 ≡ ok tt
      → Last event (rt.hooks.emit event w).1) where
  abbrev Told : EndpointInvocation → W → Type 0
  Told received w = (event : SorxAuditEvent) × Completed received event × Last event w

  Told-emit :
      (received : EndpointInvocation) (event : SorxAuditEvent) (result : EndpointResult)
      → Completed received event
      → Ends (Told received) (rt.hooks.emit event >>= λ done. pure result)
  unfolding ◌>>=◌
  Told-emit received event result fits = record {
    after = λ w r done. elim (Result-cases (rt.hooks.emit event w).0) [
      | inl (u, e) ↦ rw e (event, fits, takes event w e)
      | inr (x, e) ↦ absurd (ground (arith, rw e at done))
    ];
  }

  Told-complete :
      (endpoint : EndpointDefinition) (received invocation : EndpointInvocation) (d : String)
      (r : EndpointResult)
      → invocation.tenant_id ≡ received.tenant_id
      → invocation.caller.subject ≡ received.caller.subject
      → Ends (Told received) (complete rt gen clock endpoint invocation d r)
  unfolding complete audit audit_event
  Told-complete endpoint received invocation d r tenant caller =
      Ends-bind _ _ λ t. Told-emit received _ r (refl, tenant, caller)

  Told-refuse :
      (endpoint : EndpointDefinition) (received invocation : EndpointInvocation) (e : SorxError)
      → Ends (Told received) (refuse rt gen clock endpoint invocation e)
  unfolding refuse
  Told-refuse endpoint received invocation e =
      Ends-bind _ _ (λ done. Ends-fail {B = EndpointResult} e)

  module _ (endpoint : EndpointDefinition) (received invocation : EndpointInvocation)
      (tenant : invocation.tenant_id ≡ received.tenant_id)
      (caller : invocation.caller.subject ≡ received.caller.subject) where
    Told-execute :
        (context : StackCallContext) (request : StackCallRequest) (d : ControlDecision)
        → Ends (Told received) (execute rt gen clock endpoint invocation context request d)
    unfolding execute
    Told-execute context request d = Ends-bind _ _ λ outcome.
        match_result (Ends (Told received)) outcome _ _
          (λ result _.
            Ends-bind _ _ λ post.
              Ends-bind _ _ λ _. Told-complete endpoint received invocation _ _ tenant caller)
          (λ e _. Ends-bind _ _ λ _. Told-refuse endpoint received invocation e)

    Told-apply_policy :
        (context : StackCallContext) (request : StackCallRequest) (d : ControlDecision)
        → Ends (Told received) (apply_policy rt gen clock endpoint invocation context request d)
    unfolding apply_policy seek_approval
    Told-apply_policy context request d = Ends-bind _ _ λ _.
        match_policy (Ends (Told received))
          (decide rt.policy endpoint.risk endpoint.approval).action _ _ _
          (λ _. Told-execute context request d)
          (λ _. Told-complete endpoint received invocation _ _ tenant caller)
          (λ _. Ends-bind _ _ λ a. Ends-bind _ _ λ _.
            match_approval (Ends (Told received)) a.status _ _ _
              (λ _. Told-execute context request d)
              (λ _. Told-complete endpoint received invocation _ _ tenant caller)
              (λ _. Told-complete endpoint received invocation _ _ tenant caller))

  module _ (endpoint : EndpointDefinition) (received : EndpointInvocation) where
    Told-patched :
        (d : ControlDecision) (invocation : EndpointInvocation)
        → invocation.tenant_id ≡ received.tenant_id
        → invocation.caller.subject ≡ received.caller.subject
        → (context : StackCallContext)
        → Ends (Told received) (
            apply_policy rt gen clock endpoint
              (patched rt gen clock d invocation)
              context
              (request_of rt gen clock (patched rt gen clock d invocation))
              d)
    Told-patched d invocation tenant caller context =
        match_option
          (λ i.
            Ends (Told received)
              (apply_policy rt gen clock endpoint i context (request_of rt gen clock i) d))
          d.patch _ invocation
          (λ p _. Told-apply_policy endpoint received _ tenant caller context _ d)
          (λ _. Told-apply_policy endpoint received invocation tenant caller context _ d)

    Told-controlled :
        (context : StackCallContext)
        → Ends
            (Told received)
            (controlled rt gen clock endpoint (canonical endpoint received) context)
    unfolding controlled
    Told-controlled context = Ends-bind _ _ λ _. Ends-bind _ _ λ d.
        match_control (Ends (Told received)) d.action _ _ _
          (λ _.
            Told-apply_policy endpoint received (canonical endpoint received) refl refl context _ d)
          (λ _. Told-patched d (canonical endpoint received) refl refl context)
          (λ _.
            Ends-bind _ _
              λ _. Told-complete endpoint received (canonical endpoint received) _ _ refl refl)

    Told-checked :
        (context : StackCallContext)
        → Ends (Told received) (checked rt gen clock endpoint received context)
    unfolding checked
    Told-checked context =
        match_if (Ends (Told received)) (not (endpoint.operation_id == received.operation_id)) _ _
          (λ _. Told-refuse endpoint received received _)
          λ _.
            match_if (Ends (Told received))
              (endpoint.view.read_only && is_mutating endpoint.operation) _ _
              (λ _. Told-refuse endpoint received received _)
              λ _.
                match_result (Ends (Told received))
                  (validate_input endpoint.input_schema (canonical endpoint received).input) _ _
                  (λ valid _.
                    match_option (Ends (Told received))
                      (authorization_denial rt.pack endpoint (canonical endpoint received)) _ _
                      (λ reason _.
                        Told-complete endpoint received (canonical endpoint received) _ _ refl refl)
                      (λ _. Told-controlled context))
                  (λ e _. Told-refuse endpoint received (canonical endpoint received) e)

  -- Where an audit sink remembers the last event that it took, a call that returns a result, whether it was
  -- executed, denied or left for an approval, ends with the sink holding a completion event of the call's
  -- tenant and caller.
  pub invoke_told :
      (received : EndpointInvocation) (w : W) (result : EndpointResult)
      → (invoke rt gen clock received w).0 ≡ ok result
      → (event : SorxAuditEvent) × Completed received event
        × Last event (invoke rt gen clock received w).1
  unfolding invoke
  invoke_told received w result done =
      let told : Ends (Told received) (invoke rt gen clock received) = Ends-bind _ _ λ endpoint.
        Ends-bind _ _ λ context. Ends-bind _ _ λ _. Told-checked endpoint received context in
      told.after w result done
