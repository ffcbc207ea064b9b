-- ===== src/Deployment/Types.antt =====
-- crates/greentic-sorx-core/src/deployment.rs: the records and enumerations of the registry.
use greentic_sorx.Prelude.{ℕ, String, Bool, true, false, Option, none, List, []}
use greentic_sorx.Json.{Value}

pub record PackArtifact : Type 0 where
  pub source : String
  pub name : String
  pub version : String
  pub digest : String
  pub signature : Option String
  pub signature_ref : Option String

pub data DeploymentStatus : Type 0 where
  installed pending validating validated active_private active_public failed failed_public_promotion
        retired rolled_back :
      DeploymentStatus

unfoldable pub is_routable : DeploymentStatus → Bool
is_routable DeploymentStatus.validated = true
is_routable DeploymentStatus.active_private = true
is_routable DeploymentStatus.active_public = true
is_routable _ = false

unfoldable pub is_active : DeploymentStatus → Bool
is_active DeploymentStatus.active_private = true
is_active DeploymentStatus.active_public = true
is_active _ = false

abbrev pub is_retired : DeploymentStatus → Bool
is_retired DeploymentStatus.retired = true
is_retired _ = false

pub data DeploymentVisibility : Type 0 where
  private internal public : DeploymentVisibility

pub data StateMode : Type 0 where
  isolated shared_compatible shared_requires_migration : StateMode

pub data TrafficMode : Type 0 where
  all percent header : TrafficMode

pub record TrafficHeaderMatch : Type 0 where
  pub name : String
  pub value : String

pub record TrafficSplit : Type 0 where
  pub mode : TrafficMode
  pub percent : Option ℕ
  pub header : Option TrafficHeaderMatch

-- `TrafficSplit::default()`
abbrev pub default_traffic : TrafficSplit
default_traffic = record { mode = TrafficMode.all; percent = none; header = none }

pub record SorxDeployment : Type 0 where
  pub deployment_id : String
  pub tenant_id : String
  pub sor_name : String
  pub pack_name : String
  pub pack_version : String
  pub pack_digest : String
  pub environment : String
  pub api_version_label : String
  pub view_version : String
  pub canonical_version : String
  pub base_path : String
  pub state_namespace : String
  pub visibility : DeploymentVisibility
  pub status : DeploymentStatus
  pub state_mode : StateMode
  pub traffic : Option TrafficSplit
  pub artifact : PackArtifact

pub record DeploymentAlias : Type 0 where
  pub tenant_id : String
  pub sor_name : String
  pub alias : String
  pub target_deployment_id : String

pub record PromotionAuditEvent : Type 0 where
  pub event : String
  pub deployment_id : String
  pub tenant_id : Option String
  pub sor_name : Option String
  pub alias : Option String
  pub old_target_deployment_id : Option String
  pub new_target_deployment_id : Option String
  pub reason : Option String
  pub actor : String
  pub automation_source : Option String

pub record DeploymentRegistry : Type 0 where
  pub schema : String
  pub deployments : List SorxDeployment
  pub aliases : List DeploymentAlias
  pub webhook_deliveries : List String
  pub validation_reports : List Value
  pub promotion_audit_events : List PromotionAuditEvent

abbrev pub deployment_registry_schema : String
deployment_registry_schema = "greentic.sorx.deployment-registry.v1"

-- `DeploymentRegistry::default()`
abbrev pub default_registry : DeploymentRegistry
default_registry = record {
  schema = deployment_registry_schema;
  deployments = [];
  aliases = [];
  webhook_deliveries = [];
  validation_reports = [];
  promotion_audit_events = [];
}

pub record CreateDeploymentRequest : Type 0 where
  pub artifact : PackArtifact
  pub tenant_id : String
  pub sor_name : String
  pub environment : String
  pub api_version_label : String
  pub base_path : String
  pub visibility : DeploymentVisibility
  pub state_mode : StateMode
  pub state_namespace : Option String
  pub deployment_id : Option String
  pub allow_api_version_conflict : Bool
  pub allow_shared_state_conflict : Bool

pub record PromotionGateStatus : Type 0 where
  pub id : String
  pub status : String
  pub reason : Option String

pub record PromotionStatus : Type 0 where
  pub schema : String
  pub deployment_id : String
  pub pack_digest : String
  pub status : DeploymentStatus
  pub visibility : DeploymentVisibility
  pub validation_report_present : Bool
  pub validation_report_digest_matches : Bool
  pub validation_result : Option String
  pub public_exposure_allowed : Bool
  pub promotable_private : Bool
  pub promotable_public : Bool
  pub reason : Option String
  pub gates : List PromotionGateStatus

pub record RollbackAliasRequest : Type 0 where
  pub tenant_id : String
  pub sor_name : String
  pub alias : String
  pub to_deployment_id : String
  pub reason : String
  pub actor : String
  pub automation_source : Option String

pub record ValidationGate : Type 0 where
  pub report_present : Bool
  pub digest_matches : Bool
  pub result : Option String
  pub public_exposure_allowed : Bool
  pub private_ok : Bool
  pub ok : Bool
  pub reason : Option String
  pub gates : List PromotionGateStatus

pub record DeploymentRegistryError : Type 0 where
  pub code : String
  pub message : String

abbrev pub new : String → String → DeploymentRegistryError
new code message = record { code = code; message = message }
