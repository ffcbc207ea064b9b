-- ===== src/Runtime/Types.antt =====
-- crates/greentic-sorx-core/src/model.rs: endpoints, commands, invocations and their results;
-- audit.rs, approval.rs and generic_runtime.rs: what the runtime hands to its hooks.
use greentic_sorx.Prelude.{ℕ, String, Bool, true, false, Option, List}
use greentic_sorx.Prelude.Maps.{Map}
use greentic_sorx.Json.{Value}
use greentic_sorx.Policy.{RiskLevel, ApprovalRequirement}

pub data EndpointMethod : Type 0 where
  get post put patch delete : EndpointMethod

pub data CommandOrderDirection : Type 0 where
  asc desc : CommandOrderDirection

pub record CommandOrderBy : Type 0 where
  pub order_field : String
  pub direction : CommandOrderDirection

pub record CommandIdempotencyConstraint : Type 0 where
  pub index : Option String
  pub fields : List String
  pub mode : Option String

pub record CommandUniqueConstraint : Type 0 where
  pub index : Option String
  pub record_name : Option String
  pub kind : Option String
  pub fields : List String

pub record CommandConstraints : Type 0 where
  pub idempotency : Option CommandIdempotencyConstraint
  pub unique : List CommandUniqueConstraint

-- The fields that every step has.
pub record StepHead : Type 0 where
  pub as_name : Option String
  pub run_if : Option Value

-- Where a step that reads or writes records does so.
pub record StepTarget : Type 0 where
  pub entity : Option String
  pub collection : Option String

mutual
  pub data CommandStep : Type 0 where
    create : StepHead → StepTarget → (input : Option Value) → CommandStep
    delete_where : StepHead → StepTarget → (filter : Value) → CommandStep
    update_where : StepHead → StepTarget → (filter set : Value) → CommandStep
    increment_where : StepHead → StepTarget → (filter increments : Value) → CommandStep
    query : StepHead → StepTarget → (filter : Value) (order_by : List CommandOrderBy) → CommandStep
    find_one : StepHead → StepTarget → (filter : Value) (required : Bool) → CommandStep
    emit_event :
        StepHead → (event : String) (payload : Value) (stream : Option String) → CommandStep
    for_each : StepHead → (items : Value) (steps : Steps) → CommandStep

  pub data Steps : Type 0 where
    stop : Steps
    step : CommandStep → Steps → Steps

pub record CommandSpec : Type 0 where
  pub kind : Option String
  pub action : Option String
  pub target : Option String
  pub idempotency : Option String
  pub constraints : CommandConstraints
  pub steps : Steps
  pub return_value : Option Value

pub data OperationKind : Type 0 where
  create get update query delete : OperationKind
  command : CommandSpec → OperationKind

abbrev pub is_mutating : OperationKind → Bool
is_mutating OperationKind.create = true
is_mutating OperationKind.update = true
is_mutating OperationKind.delete = true
is_mutating (OperationKind.command spec) = true
is_mutating _ = false

pub record AuthorizationRoles : Type 0 where
  pub any_of : List String
  pub all_of : List String

pub record AuthorizationRequirement : Type 0 where
  pub roles : AuthorizationRoles
  pub policies : List String
  pub conditions : Option Value

pub record RecordAccessPolicy : Type 0 where
  pub read : Option AuthorizationRequirement
  pub create : Option AuthorizationRequirement
  pub update : Option AuthorizationRequirement
  pub delete : Option AuthorizationRequirement

pub record ViewTransform : Type 0 where
  pub read_only : Bool
  pub input_field_map : Map String
  pub output_field_map : Map String

pub record IndexRequirement : Type 0 where
  pub name : String
  pub capability : String

pub record TraversalRequirement : Type 0 where
  pub name : String
  pub capability : String
  pub max_depth : ℕ
  pub relationships : List String

pub record QueryPlan : Type 0 where
  pub index : Option IndexRequirement
  pub traversal : Option TraversalRequirement

pub record EndpointDefinition : Type 0 where
  pub endpoint_id : String
  pub operation_id : String
  pub operation : OperationKind
  pub method : EndpointMethod
  pub path : String
  pub entity : Option String
  pub collection : String
  pub provider_binding : String
  pub risk : RiskLevel
  pub approval : Option ApprovalRequirement
  pub authorization : Option AuthorizationRequirement
  pub input_schema : Option Value
  pub output_schema : Option Value
  pub view : ViewTransform
  pub query_plan : QueryPlan
  pub record_selector : Bool

pub record CallerContext : Type 0 where
  pub subject : String
  pub roles : List String

pub data InvocationSource : Type 0 where
  direct http mcp : InvocationSource

pub record EndpointInvocation : Type 0 where
  pub tenant_id : String
  pub endpoint_id : String
  pub operation_id : String
  pub input : Value
  pub caller : CallerContext
  pub idempotency_key : Option String
  pub source : InvocationSource

pub data EndpointStatus : Type 0 where
  created done not_found deleted approval_required denied : EndpointStatus

pub record SorxEvent : Type 0 where
  pub schema : String
  pub event_type : String
  pub tenant_id : String
  pub endpoint_id : String
  pub operation_id : String
  pub provider_binding : String

pub record EndpointResult : Type 0 where
  pub status : EndpointStatus
  pub output : Value
  pub events : List SorxEvent

pub record RuntimeOperationalIndex : Type 0 where
  pub id : String
  pub record_name : String
  pub collection : Option String
  pub kind : String
  pub fields : List String
  pub unique : Bool

pub record RuntimePack : Type 0 where
  pub name : String
  pub version : String
  pub digest : Option String
  pub operational_indexes : List RuntimeOperationalIndex
  pub record_access : Map RecordAccessPolicy

pub record SorxAuditEvent : Type 0 where
  pub event : String
  pub pack : String
  pub version : String
  pub tenant_id : String
  pub endpoint_id : String
  pub operation_id : String
  pub risk : RiskLevel
  pub caller_id : String
  pub decision : Option String
  pub duration_ms : Option ℕ
  pub idempotency_key_present : Bool
  pub details : Map Value

pub record ApprovalRequest : Type 0 where
  pub request_id : String
  pub tenant_id : String
  pub endpoint_id : String
  pub operation_id : String
  pub risk : RiskLevel
  pub reason : String
  pub caller : CallerContext

pub data ApprovalStatus : Type 0 where
  approved denied pending : ApprovalStatus

pub record ApprovalDecision : Type 0 where
  pub status : ApprovalStatus
  pub request_id : String
  pub reason : String

pub record StackCallContext : Type 0 where
  pub environment_id : String
  pub runtime_id : String
  pub tenant_id : String
  pub team_id : Option String
  pub deployment_id : String
  pub stack_id : String
  pub revision_id : Option String
  pub route_id : String
  pub call_id : String
  pub trace_id : String
  pub actor : String

pub record StackCallRequest : Type 0 where
  pub operation_id : String
  pub input : Value

pub record StackCallResponse : Type 0 where
  pub status : String
  pub output : Value

pub data ControlDecisionAction : Type 0 where
  allow deny allow_with_patch : ControlDecisionAction

pub record ControlDecision : Type 0 where
  pub action : ControlDecisionAction
  pub reason : Option String
  pub patch : Option Value

pub record ObserverEvent : Type 0 where
  pub event_type : String
  pub context : StackCallContext
  pub status : Option String
  pub duration_ms : Option ℕ
  pub control_decision : Option ControlDecision
