-- ===== src/Policy.antt =====
-- crates/greentic-sorx-core/src/policy.rs: what a risk level, an endpoint's own metadata and the
-- sensitivity of ontology data allow.
pub mod Modes
pub mod Ontology
mod Examples
use greentic_sorx.Prelude.{
  ◌∷◌, [], ◌==◌, none, if◌then◌else◌, List, true, false, some, String, Option, Bool,
}
use greentic_sorx.Json.{unwrap_or}
use greentic_sorx.Prelude.Maps.{Map}
use greentic_sorx.Prelude.Text.{map_chars, to_ascii_lowercase}

pub data RiskLevel : Type 0 where
  low medium high critical : RiskLevel

parse_lower : String → Option RiskLevel
parse_lower value =
    if value == "low"
    then some low
    else if value == "medium"
    then some medium
    else if value == "high"
    then some high
    else if value == "critical"
    then some critical
    else none

-- `RiskLevel::parse`
unfoldable pub parse_risk : String → Option RiskLevel
unfolding parse_lower map_chars to_ascii_lowercase
parse_risk value = parse_lower (map_chars to_ascii_lowercase value)

pub data PolicyMode : Type 0 where
  auto require_approval deny : PolicyMode

-- `PolicyMode::parse`
unfoldable pub parse_mode : String → Option PolicyMode
parse_mode value =
    if value == "auto"
    then some auto
    else if value == "require_approval"
    then some require_approval
    else if value == "deny"
    then some deny
    else none

abbrev pub risk_eq : RiskLevel → RiskLevel → Bool
risk_eq low low = true
risk_eq medium medium = true
risk_eq high high = true
risk_eq critical critical = true
risk_eq _ _ = false

-- The map of a `PolicyConfig`, as a function.
pub record PolicyConfig : Type 0 where
  pub approvals : RiskLevel → Option PolicyMode

abbrev pub default_mode : RiskLevel → PolicyMode
default_mode low = auto
default_mode medium = auto
default_mode high = require_approval
default_mode critical = deny

-- `PolicyConfig::default()`, which has an entry for each level
abbrev pub default_config : PolicyConfig
default_config = record { approvals = λ risk. some (default_mode risk) }

unfoldable pub insert_mode :
    RiskLevel → PolicyMode → (RiskLevel → Option PolicyMode) → RiskLevel → Option PolicyMode
insert_mode risk mode approvals other = if risk_eq risk other then some mode else approvals other

-- `if let (Some(risk), Some(mode)) = …`
unfoldable pub apply_parsed :
    Option RiskLevel
    → Option PolicyMode
    → (RiskLevel → Option PolicyMode)
    → RiskLevel
    → Option PolicyMode
apply_parsed (some risk) (some mode) approvals = insert_mode risk mode approvals
apply_parsed _ _ approvals = approvals

-- The loop of `from_modes`, over the map's entries in the order of their keys.
unfoldable pub apply_modes :
    Map String → (RiskLevel → Option PolicyMode) → RiskLevel → Option PolicyMode
apply_modes [] approvals = approvals
apply_modes ((risk, mode) ∷ modes) approvals =
    apply_modes modes (apply_parsed (parse_risk risk) (parse_mode mode) approvals)

unfoldable pub from_modes : Map String → PolicyConfig
unfolding apply_modes
from_modes modes = record { approvals = apply_modes modes default_config.approvals }

unfoldable pub mode_for : PolicyConfig → RiskLevel → PolicyMode
mode_for config risk = unwrap_or (default_mode risk) (config.approvals risk)

pub record ApprovalRequirement : Type 0 where
  pub required : Bool
  pub roles : List String
  pub reason_required : Bool

pub data PolicyAction : Type 0 where
  execute require_approval deny : PolicyAction

pub record PolicyDecision : Type 0 where
  pub action : PolicyAction
  pub reason : String

abbrev pub is_required : Option ApprovalRequirement → Bool
is_required none = false
is_required (some approval) = approval.required

abbrev decide_by : PolicyMode → Bool → PolicyDecision
decide_by PolicyMode.auto true = record {
  action = PolicyAction.require_approval;
  reason = "Endpoint metadata requires approval";
}
decide_by PolicyMode.auto false = record {
  action = PolicyAction.execute;
  reason = "Policy allows automatic execution";
}
decide_by PolicyMode.require_approval required = record {
  action = PolicyAction.require_approval;
  reason = "Risk policy requires approval";
}
decide_by PolicyMode.deny required = record {
  action = PolicyAction.deny;
  reason = "Risk policy denies execution";
}

-- Of the endpoint, `decide` reads the risk and the approval requirement.
unfoldable pub decide : PolicyConfig → RiskLevel → Option ApprovalRequirement → PolicyDecision
unfolding mode_for
decide config risk approval = decide_by (mode_for config risk) (is_required approval)
