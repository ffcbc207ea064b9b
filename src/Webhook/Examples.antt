-- ===== src/Webhook/Examples.antt =====
-- A webhook on an empty registry, with a digest of one byte in place of SHA-256.
use greentic_sorx.Deployment.Create.{add_deployment}
use greentic_sorx.Prelude.{arith, [], ◌∷◌, List, String, Option, none, some, ◌≡◌, refl, ◌↔◌, ◌⊎◌}
use greentic_sorx.Deployment.Registry.{push_delivery}
use greentic_sorx.Prelude.Results.{Result, ok, err}
use greentic_sorx.Json
use greentic_sorx.Runtime.Command.Paths.{strip_prefix}
use greentic_sorx.Kv.Keys.{Bytes, to_bytes}
use greentic_sorx.Deployment.Types.{
  DeploymentRegistry, DeploymentStatus, DeploymentVisibility, default_registry,
}
use greentic_sorx.Deployment.Operations.{perform_all}
use greentic_sorx.Webhook.Types.{
  GhcrWebhookConfig, GhcrPublishedMetadata, GithubWebhookHeaders, ResolvedOciArtifact,
  GhcrWebhookOutcome, GhcrWebhookError, WebhookHost, local_test,
}
use greentic_sorx.Webhook.Signature.{verify_github_signature, hmac_sha256_hex}
use greentic_sorx.Webhook.Signature.Accepted.{verify_iff}
use greentic_sorx.Webhook.Handler.{handle_ghcr_published_webhook, outcome_of}
use greentic_sorx.Webhook.Handler.Outcomes.{handle_outcomes, handle_once, published}
use greentic_sorx.Webhook.Handler.Admitted.{IsAdmitted}

abbrev one_byte : Bytes → Bytes
one_byte bytes = 171 ∷ []

abbrev metadata : GhcrPublishedMetadata
metadata = record {
  repository = "greenticai/greentic-sorla";
  workflow = "publish.yml";
  conclusion = "success";
  artifact_kind = "sorla";
  oci_ref = "oci://ghcr.io/greenticai/sorla/crm:1";
  digest = "sha256:00";
  pack_name = "crm";
  pack_version = "1";
  tenant_id = "t1";
  sor_name = "crm";
  environment = "dev";
  api_version_label = "v1";
  promotion_policy = none;
}

abbrev artifact : ResolvedOciArtifact
artifact = record {
  original_ref = metadata.oci_ref;
  resolved_digest = "sha256:00";
  media_type = "application/gtpack";
  size = 1;
  annotations = [];
  local_cache_path = none;
}

abbrev host : WebhookHost
host = record {
  sha256 = one_byte;
  from_slice = λ body. ok (Json.object Json.end);
  metadata_of = λ value. ok metadata;
  resolve = λ reference. ok artifact;
}

abbrev headers : GithubWebhookHeaders
headers = record { signature_256 = "sha256=ab"; event = "workflow_run"; delivery = "d1" }

abbrev config : GhcrWebhookConfig
config = local_test "secret"

abbrev key : Bytes
key = 1 ∷ 2 ∷ []

verify_iff_example : (verify_github_signature one_byte key key "sha256=ab" ≡ ok tt) ↔ (
    (digits : String) × (strip_prefix "sha256=" "sha256=ab" ≡ some digits)
    × (to_bytes digits ≡ hmac_sha256_hex one_byte key key))
verify_iff_example = verify_iff one_byte (λ bytes. (ground arith, tt)) key key "sha256=ab"

abbrev outcome : GhcrWebhookOutcome
outcome =
    outcome_of config "d1" metadata artifact
      (published host config headers key key metadata artifact default_registry)

accepted :
    (handle_ghcr_published_webhook host config headers key key default_registry).0 ≡ ok outcome
unfolding handle_ghcr_published_webhook greentic_sorx.Prelude.Actions.◌>>=◌
    greentic_sorx.Webhook.Handler.admit greentic_sorx.Prelude.Text.is_empty
    greentic_sorx.Prelude.Text.trim greentic_sorx.Deployment.Registry.has_webhook_delivery
    verify_github_signature greentic_sorx.Runtime.Command.Paths.strip_prefix
    greentic_sorx.Webhook.Signature.constant_time_eq hmac_sha256_hex
    greentic_sorx.Webhook.Signature.hex_lower to_bytes
    greentic_sorx.Webhook.Handler.parse_ghcr_published_metadata
    greentic_sorx.Webhook.Handler.validate_metadata greentic_sorx.Runtime.Command.Paths.starts_with
    greentic_sorx.Webhook.Handler.trim_start_matches
    greentic_sorx.Deployment.Create.create_deployment
    greentic_sorx.Deployment.Checks.check_api_version_conflict
    greentic_sorx.Deployment.Checks.check_base_path_conflict
    greentic_sorx.Deployment.Checks.check_request
    greentic_sorx.Deployment.Checks.check_state_namespace_conflict
    greentic_sorx.Deployment.Checks.request_id greentic_sorx.Deployment.Create.add_deployment
    greentic_sorx.Deployment.Create.new_deployment greentic_sorx.Deployment.Naming.clean_segment
    greentic_sorx.Deployment.Naming.default_state_namespace
    greentic_sorx.Deployment.Naming.deployment_id_for greentic_sorx.Deployment.Naming.digest_suffix
    greentic_sorx.Deployment.Naming.is_production_environment
    greentic_sorx.Deployment.Naming.normalize_base_path
    greentic_sorx.Deployment.Registry.push_delivery
    greentic_sorx.Deployment.Registry.record_webhook_delivery
    greentic_sorx.Deployment.Registry.replayed Json.get greentic_sorx.Kv.Keys.char_bytes
    greentic_sorx.Prelude.Maps.get greentic_sorx.Prelude.Sorting.insert_by
    greentic_sorx.Prelude.Sorting.sort_by greentic_sorx.Prelude.text_lt
    greentic_sorx.Prelude.Text.filter_chars greentic_sorx.Prelude.Text.is_ascii_alphanumeric
    greentic_sorx.Prelude.Text.is_ascii_uppercase greentic_sorx.Prelude.Text.is_whitespace
    greentic_sorx.Prelude.Text.lowercase greentic_sorx.Prelude.Text.map_chars
    greentic_sorx.Prelude.Text.strip_prefix_or_whole greentic_sorx.Prelude.Text.take_chars
    greentic_sorx.Prelude.Text.to_ascii_lowercase greentic_sorx.Prelude.Text.trim_matches
    greentic_sorx.Webhook.Handler.on_registry outcome_of greentic_sorx.Webhook.Handler.request_of
    greentic_sorx.Webhook.Types.requests_validation
accepted = refl

abbrev later : DeploymentRegistry
later =
    perform_all [] (handle_ghcr_published_webhook host config headers key key default_registry).1

handle_once_example :
    (e : GhcrWebhookError) × (handle_ghcr_published_webhook host config headers key [] later
      ≡ (err e, later))
handle_once_example =
    handle_once host config headers key key default_registry outcome [] accepted headers key [] refl

abbrev result : Result GhcrWebhookError GhcrWebhookOutcome
result = (handle_ghcr_published_webhook host config headers key key default_registry).0

abbrev after : DeploymentRegistry
after = (handle_ghcr_published_webhook host config headers key key default_registry).1

handle_outcomes_example :
    ((e : GhcrWebhookError) × (result ≡ err e) × (after ≡ default_registry))
    ⊎ ((m : GhcrPublishedMetadata) × ((resolved : ResolvedOciArtifact) × IsAdmitted host config
            headers key key default_registry m resolved
          × (result
              ≡ ok (
                  outcome_of config headers.delivery m resolved
                    (published host config headers key key m resolved default_registry)))
          × (after
              ≡ push_delivery headers.delivery (
                  add_deployment
                    (published host config headers key key m resolved default_registry)
                    default_registry))
          × ((published host config headers key key m resolved default_registry).status
              ≡ DeploymentStatus.pending)
          × ((published host config headers key key m resolved default_registry).visibility
              ≡ DeploymentVisibility.private)))
handle_outcomes_example =
    handle_outcomes host config headers key key default_registry result after refl
