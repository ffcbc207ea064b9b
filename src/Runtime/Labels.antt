-- ===== src/Runtime/Labels.antt =====
-- crates/greentic-sorx-core/src/runtime.rs: the texts, events and outputs that a call is made of.
use greentic_sorx.Prelude.{
  [], ◌∷◌, List, String, Option, none, some, Bool, ◌||◌, if◌then◌else◌, map,
}
use greentic_sorx.Prelude.Text.{◌+++◌, is_char, map_chars}
use greentic_sorx.Json.{
  Value, null, bool, number, string, array, Number, to_items, from_map, unwrap_or,
}
use greentic_sorx.Policy.{RiskLevel, PolicyAction}
use greentic_sorx.Store.Types.{EntityRecord}
use greentic_sorx.Runtime.Types.{
  EndpointDefinition, EndpointInvocation, EndpointStatus, SorxEvent, ApprovalStatus,
  ApprovalDecision,
}

unfoldable pub event : EndpointDefinition → EndpointInvocation → String → SorxEvent
event endpoint invocation event_type = record {
  schema = "greentic.sorx.event.v1";
  event_type = event_type;
  tenant_id = invocation.tenant_id;
  endpoint_id = endpoint.endpoint_id;
  operation_id = endpoint.operation_id;
  provider_binding = endpoint.provider_binding;
}

abbrev pub policy_decision_label : PolicyAction → String
policy_decision_label PolicyAction.execute = "execute"
policy_decision_label PolicyAction.require_approval = "require_approval"
policy_decision_label PolicyAction.deny = "deny"

abbrev pub approval_status_label : ApprovalStatus → String
approval_status_label ApprovalStatus.approved = "approved"
approval_status_label ApprovalStatus.denied = "denied"
approval_status_label ApprovalStatus.pending = "pending"

-- `format!("{:?}", risk).to_ascii_lowercase()`
abbrev pub risk_text : RiskLevel → String
risk_text RiskLevel.low = "low"
risk_text RiskLevel.medium = "medium"
risk_text RiskLevel.high = "high"
risk_text RiskLevel.critical = "critical"

-- `format!("{:?}", status).to_ascii_lowercase()`
abbrev pub status_text : EndpointStatus → String
status_text EndpointStatus.created = "created"
status_text EndpointStatus.done = "ok"
status_text EndpointStatus.not_found = "notfound"
status_text EndpointStatus.deleted = "deleted"
status_text EndpointStatus.approval_required = "approvalrequired"
status_text EndpointStatus.denied = "denied"

unfoldable pub approval_request_id : EndpointDefinition → EndpointInvocation → String
unfolding map_chars
approval_request_id endpoint invocation =
    "approval_"
    +++ map_chars (λ c. if is_char b'-' c then "_" else c) invocation.tenant_id
    +++ "_"
    +++ map_chars (λ c. if is_char b'.' c || is_char b'-' c then "_" else c) endpoint.endpoint_id
    +++ "_"
    +++ map_chars (λ c. if is_char b'.' c || is_char b'-' c || is_char b':' c then "_" else c)
        (unwrap_or "pending" invocation.idempotency_key)

-- `serde_json::to_value` of a record
abbrev pub record_value : EntityRecord → Value
record_value r = from_map (
    ("collection", string r.collection)
    ∷ ("data", r.content)
    ∷ ("entity", string r.entity)
    ∷ ("id", string r.id)
    ∷ ("version", number (Number.pos_int r.version))
    ∷ [])

abbrev pub optional_record_value : Option EntityRecord → Value
optional_record_value none = null
optional_record_value (some r) = record_value r

abbrev pub records_value : List EntityRecord → Value
records_value rs = from_map (("records", array (to_items (map record_value rs))) ∷ [])

abbrev pub deleted_value : Bool → Value
deleted_value b = from_map (("deleted", bool b) ∷ [])

abbrev pub approval_value : ApprovalDecision → Value
approval_value a = from_map (
    ("reason", string a.reason)
    ∷ ("request_id", string a.request_id)
    ∷ ("status", string (approval_status_label a.status))
    ∷ [])

-- The outputs of the calls that are not let through.
abbrev pub authorization_denied : String → Value
authorization_denied reason = from_map (
    ("authorization", string "denied")
    ∷ ("reason", string reason)
    ∷ ("status", string "denied")
    ∷ [])

abbrev pub denied_with : String → Value
denied_with reason = from_map (("reason", string reason) ∷ ("status", string "denied") ∷ [])

abbrev pub policy_denied : RiskLevel → String → Value
policy_denied risk reason = from_map (
    ("reason", string reason)
    ∷ ("risk", string (risk_text risk))
    ∷ ("status", string "denied")
    ∷ [])

abbrev pub approval_denied : ApprovalDecision → Value
approval_denied a = from_map (("approval", approval_value a) ∷ ("status", string "denied") ∷ [])

abbrev pub approval_pending : RiskLevel → ApprovalDecision → Value
approval_pending risk a = from_map (
    (
      "approval",
      from_map (
          ("reason", string a.reason)
          ∷ ("request_id", string a.request_id)
          ∷ ("risk", string (risk_text risk))
          ∷ []),
    )
    ∷ ("status", string "approval_required")
    ∷ [])
