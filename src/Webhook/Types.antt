-- ===== src/Webhook/Types.antt =====
-- crates/greentic-sorx-core/src/ghcr_webhook.rs: the configuration, the metadata and the outcome.
use greentic_sorx.Prelude.{
  ◌∷◌, List, ℕ, String, Bool, true, false, Option, some, none, ◌==◌, if◌then◌else◌, [],
}
use greentic_sorx.Prelude.Maps.{Map}
use greentic_sorx.Prelude.Results.{Result}
use greentic_sorx.Json.{Value}
use greentic_sorx.Kv.Keys.{Bytes}
use greentic_sorx.Deployment.Types.{DeploymentStatus}

pub data PromotionPolicy : Type 0 where
  manual_only validate_then_private validate_then_public_preview validate_then_public_alias :
      PromotionPolicy

-- `PromotionPolicy::parse`
unfoldable pub parse_policy : String → Option PromotionPolicy
parse_policy value =
    if value == "manual_only"
    then some manual_only
    else if value == "pending_only"
    then some manual_only
    else if value == "validate_then_private"
    then some validate_then_private
    else if value == "validate_then_public_preview"
    then some validate_then_public_preview
    else if value == "validate_then_public_alias"
    then some validate_then_public_alias
    else none

unfoldable pub requests_validation : PromotionPolicy → Bool
requests_validation manual_only = false
requests_validation _ = true

pub record GhcrWebhookConfig : Type 0 where
  pub enabled : Bool
  pub public_path : String
  pub signature_secret_ref : String
  pub allowed_repositories : List String
  pub allowed_oci_prefixes : List String
  pub allowed_workflows : List String
  pub allowed_environments : List String
  pub default_promotion_policy : PromotionPolicy
  pub require_exact_digest : Bool

-- `GhcrWebhookConfig::local_test`
abbrev pub local_test : String → GhcrWebhookConfig
local_test secret_ref = record {
  enabled = true;
  public_path = "/v1/sorx/webhooks/github/ghcr-published";
  signature_secret_ref = secret_ref;
  allowed_repositories = "greenticai/greentic-sorla" ∷ "greenticai/greentic-sorla-providers" ∷ [];
  allowed_oci_prefixes = "ghcr.io/greenticai/sorla/" ∷ "ghcr.io/greenticai/sorla-providers/" ∷ [];
  allowed_workflows = "publish-gtpack.yml" ∷ "publish.yml" ∷ [];
  allowed_environments = "local" ∷ "test" ∷ "dev" ∷ "staging" ∷ "production" ∷ [];
  default_promotion_policy = validate_then_private;
  require_exact_digest = true;
}

pub record GithubWebhookHeaders : Type 0 where
  pub signature_256 : String
  pub event : String
  pub delivery : String

pub record GhcrPublishedMetadata : Type 0 where
  pub repository : String
  pub workflow : String
  pub conclusion : String
  pub artifact_kind : String
  pub oci_ref : String
  pub digest : String
  pub pack_name : String
  pub pack_version : String
  pub tenant_id : String
  pub sor_name : String
  pub environment : String
  pub api_version_label : String
  pub promotion_policy : Option PromotionPolicy

pub record ResolvedOciArtifact : Type 0 where
  pub original_ref : String
  pub resolved_digest : String
  pub media_type : String
  pub size : ℕ
  pub annotations : Map String
  pub local_cache_path : Option String

pub record GhcrWebhookOutcome : Type 0 where
  pub schema : String
  pub delivery : String
  pub deployment_id : String
  pub status : DeploymentStatus
  pub validation_job_requested : Bool
  pub public_exposure_started : Bool
  pub resolved : ResolvedOciArtifact

pub record GhcrWebhookError : Type 0 where
  pub code : String
  pub message : String

abbrev pub new : String → String → GhcrWebhookError
new code message = record { code = code; message = message }

-- What the handler calls outside of the program: SHA-256, serde, and the resolver of OCI references.
pub record WebhookHost : Type 0 where
  pub sha256 : Bytes → Bytes
  pub from_slice : Bytes → Result String Value
  pub metadata_of : Value → Result String GhcrPublishedMetadata
  pub resolve : String → Result GhcrWebhookError ResolvedOciArtifact
