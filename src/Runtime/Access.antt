-- ===== src/Runtime/Access.antt =====
-- crates/greentic-sorx-core/src/runtime.rs: what the roles of a caller allow; policy.rs:
-- `decide_authorization`.
pub mod Laws
use greentic_sorx.Prelude.{
  [], ◌∷◌, List, String, Bool, true, false, not, Option, none, some, ◌==◌, if◌then◌else◌, any, all,
  ◌&&◌, ◌||◌,
}
use greentic_sorx.Prelude.Text.{◌+++◌}
use greentic_sorx.Prelude.Maps
use greentic_sorx.Json.{Value, and_then, or_else}
use greentic_sorx.Policy.{PolicyDecision, PolicyAction}
use greentic_sorx.Runtime.Types.{
  AuthorizationRequirement, RecordAccessPolicy, OperationKind, EndpointDefinition,
  EndpointInvocation, RuntimePack,
}

pub data AuthorizationPolicyResource : Type 0 where
  at_endpoint : (endpoint_id : String) → AuthorizationPolicyResource
  at_record : (record_name : String) → AuthorizationPolicyResource

pub record AuthorizationPolicyInput : Type 0 where
  pub principal_subject : String
  pub principal_roles : List String
  pub resource : AuthorizationPolicyResource
  pub operation : String
  pub policies : List String
  pub conditions : Option Value

none_declared : List String → Option Value → Bool
none_declared [] none = true
none_declared _ _ = false

unfoldable pub decide_authorization : AuthorizationPolicyInput → PolicyDecision
unfolding none_declared
decide_authorization input =
    if none_declared input.policies input.conditions
    then record {
      action = PolicyAction.execute;
      reason = "No authorization policies were declared";
    }
    else record { action = PolicyAction.execute; reason = "Authorization policy inputs accepted" }

abbrev pub lacks_any : List String → Bool
lacks_any [] = true
lacks_any (x ∷ xs) = false

abbrev pub holds_role : List String → String → Bool
holds_role principal_roles role = any (λ principal. principal == role) principal_roles

unfoldable pub authorization_matches : AuthorizationRequirement → List String → Bool
authorization_matches auth principal_roles =
    if lacks_any auth.roles.any_of && lacks_any auth.roles.all_of
    then true
    else (lacks_any auth.roles.any_of || any (holds_role principal_roles) auth.roles.any_of)
      && all (holds_role principal_roles) auth.roles.all_of

abbrev pub operation_access_name : OperationKind → String
operation_access_name OperationKind.get = "read"
operation_access_name OperationKind.query = "read"
operation_access_name OperationKind.create = "create"
operation_access_name OperationKind.update = "update"
operation_access_name OperationKind.delete = "delete"
operation_access_name (OperationKind.command spec) = "execute"

abbrev pub access_for : OperationKind → RecordAccessPolicy → Option AuthorizationRequirement
access_for OperationKind.get access = access.read
access_for OperationKind.query access = access.read
access_for OperationKind.create access = access.create
access_for OperationKind.update access = access.update
access_for OperationKind.delete access = access.delete
access_for (OperationKind.command spec) access = none

denied_reason : PolicyDecision → Option String
denied_reason decision = elim decision.action [
  | PolicyAction.deny ↦ some decision.reason
  | _ ↦ none
]

authorization_policy_denial :
    AuthorizationRequirement
    → AuthorizationPolicyResource
    → String
    → EndpointInvocation
    → Option String
unfolding decide_authorization denied_reason
authorization_policy_denial auth resource operation invocation = denied_reason (
    decide_authorization (record {
      principal_subject = invocation.caller.subject;
      principal_roles = invocation.caller.roles;
      resource = resource;
      operation = operation;
      policies = auth.policies;
      conditions = auth.conditions;
    }))

-- One requirement: its roles, then its policies.
requirement_denial :
    Option AuthorizationRequirement
    → String
    → AuthorizationPolicyResource
    → String
    → EndpointInvocation
    → Option String
unfolding authorization_matches authorization_policy_denial
requirement_denial none mismatch resource operation invocation = none
requirement_denial (some auth) mismatch resource operation invocation =
    if not (authorization_matches auth invocation.caller.roles)
    then some mismatch
    else authorization_policy_denial auth resource operation invocation

record_denial : RuntimePack → EndpointDefinition → EndpointInvocation → String → Option String
unfolding requirement_denial
record_denial pack endpoint invocation name = and_then (Maps.get name pack.record_access) λ access.
    requirement_denial (access_for endpoint.operation access)
      ("record `"
        +++ name
        +++ "` "
        +++ operation_access_name endpoint.operation
        +++ " access roles did not match principal")
      (AuthorizationPolicyResource.at_record name) (operation_access_name endpoint.operation)
      invocation

unfoldable pub authorization_denial :
    RuntimePack → EndpointDefinition → EndpointInvocation → Option String
unfolding requirement_denial record_denial
authorization_denial pack endpoint invocation =
    or_else
      (requirement_denial endpoint.authorization
        "endpoint authorization roles did not match principal"
        (AuthorizationPolicyResource.at_endpoint endpoint.endpoint_id)
        (operation_access_name endpoint.operation) invocation)
      (and_then endpoint.entity (record_denial pack endpoint invocation))
