-- ===== src/Webhook/Handler.antt =====
-- crates/greentic-sorx-core/src/ghcr_webhook.rs: the handling of a webhook.
pub mod Admitted
pub mod Outcomes
use Prim.Native.Char.{code}
use Prim.Native.String
use greentic_sorx.Prelude.{
  String, Bool, true, false, Option, none, some, not, ◌==◌, ◌&&◌, ◌||◌, any, if◌then◌else◌, eqb,
}
use greentic_sorx.Prelude.Text.{◌+++◌, is_empty, trim}
use greentic_sorx.Prelude.Results
use greentic_sorx.Prelude.Results.{Result, ok, err, reject_if, map_err}
use greentic_sorx.Prelude.Actions.{Action, ◌>>=◌, ◌>>◌, pure, reads}
use greentic_sorx.Json
use greentic_sorx.Json.{Value, unwrap_or}
use greentic_sorx.Runtime.Command.Paths.{starts_with}
use greentic_sorx.Kv.Keys.{Bytes}
use greentic_sorx.Deployment.Types.{
  DeploymentRegistry, CreateDeploymentRequest, DeploymentVisibility, StateMode, SorxDeployment,
  DeploymentRegistryError,
}
use greentic_sorx.Deployment.Create.{create_deployment}
use greentic_sorx.Deployment.Registry.{has_webhook_delivery, record_webhook_delivery}
use greentic_sorx.Webhook.Types.{
  GhcrWebhookConfig, GhcrPublishedMetadata, GithubWebhookHeaders, ResolvedOciArtifact,
  GhcrWebhookOutcome, GhcrWebhookError, WebhookHost, PromotionPolicy, requests_validation, new,
}
use greentic_sorx.Webhook.Signature.{verify_github_signature}

if_empty : String → String → String → String
if_empty String.[] x y = x
if_empty (String.◌∷◌ c s) x y = y

-- What is left of the pattern, what follows its last whole copy, and what is still to be read.
trim_rest : String → String → String → String → String
unfolding if_empty
trim_rest pattern left start String.[] = start
trim_rest pattern String.[] start (String.◌∷◌ c s) = start
trim_rest pattern (String.◌∷◌ a left) start (String.◌∷◌ c s) =
    let more = trim_rest pattern (if_empty left pattern left) (if_empty left s start) s in
    if eqb (code a) (code c) then more else start

-- `trim_start_matches` of a text
unfoldable pub trim_start_matches : String → String → String
unfolding trim_rest
trim_start_matches pattern s = trim_rest pattern pattern s s

unfoldable pub validate_metadata :
    GhcrWebhookConfig → GhcrPublishedMetadata → Result GhcrWebhookError (Unit {0})
validate_metadata config m =
    Results.◌>>◌
      (reject_if (not (m.conclusion == "success"))
        (new "workflow_not_successful" ("workflow conclusion was `" +++ m.conclusion +++ "`")))
      (Results.◌>>◌
        (reject_if (not (any (λ r. r == m.repository) config.allowed_repositories))
          (new "repository_untrusted" ("repository `" +++ m.repository +++ "` is not allowed")))
        (Results.◌>>◌
          (reject_if (not (any (λ w. w == m.workflow) config.allowed_workflows))
            (new "workflow_untrusted" ("workflow `" +++ m.workflow +++ "` is not allowed")))
          (Results.◌>>◌
            (reject_if (not (any (λ e. e == m.environment) config.allowed_environments)) (
              new "environment_untrusted"
                ("environment `" +++ m.environment +++ "` is not allowed")))
            (Results.◌>>◌
              (reject_if
                (not (
                  any (starts_with (trim_start_matches "oci://" m.oci_ref))
                    config.allowed_oci_prefixes))
                (new "oci_prefix_untrusted"
                  ("OCI reference `" +++ m.oci_ref +++ "` is not allowed")))
              (reject_if (config.require_exact_digest && not (starts_with m.digest "sha256:"))
                (new "digest_required" "payload must include an exact sha256 digest"))))))

unfoldable pub request_of :
    GhcrWebhookConfig → GhcrPublishedMetadata → ResolvedOciArtifact → CreateDeploymentRequest
request_of config m resolved = record {
  artifact = record {
    source = m.oci_ref;
    name = m.pack_name;
    version = m.pack_version;
    digest = resolved.resolved_digest;
    signature = none;
    signature_ref = some config.signature_secret_ref;
  };
  tenant_id = m.tenant_id;
  sor_name = m.sor_name;
  environment = m.environment;
  api_version_label = m.api_version_label;
  base_path = "/sorx/" +++ m.tenant_id +++ "/" +++ m.sor_name +++ "/" +++ m.api_version_label;
  visibility = DeploymentVisibility.private;
  state_mode = StateMode.shared_compatible;
  state_namespace = none;
  deployment_id = none;
  allow_api_version_conflict = false;
  allow_shared_state_conflict = false;
}

unfoldable pub outcome_of :
    GhcrWebhookConfig
    → String
    → GhcrPublishedMetadata
    → ResolvedOciArtifact
    → SorxDeployment
    → GhcrWebhookOutcome
outcome_of config delivery m resolved d = record {
  schema = "greentic.sorx.ghcr-webhook.outcome.v1";
  delivery = delivery;
  deployment_id = d.deployment_id;
  status = d.status;
  validation_job_requested =
      requests_validation (unwrap_or config.default_promotion_policy m.promotion_policy);
  public_exposure_started = false;
  resolved = resolved;
}

-- `map_err` of a method of the registry
unfoldable pub on_registry :
    {A : Type 0}
    → Action DeploymentRegistry DeploymentRegistryError A
    → Action DeploymentRegistry GhcrWebhookError A
on_registry call r = (map_err (λ e. new e.code e.message) (call r).0, (call r).1)

module _ (host : WebhookHost) where
  decoded : Value → Result GhcrWebhookError GhcrPublishedMetadata
  decoded value = map_err (λ message. new "invalid_payload" message) (host.metadata_of value)

  payload_of : Value → Option Value → Value
  payload_of value (some (Json.object fs)) = Json.object fs
  payload_of value (some Json.null) = value
  payload_of value (some _) = value
  payload_of value none = value

  unfoldable pub parse_ghcr_published_metadata :
      Bytes → Result GhcrWebhookError GhcrPublishedMetadata
  unfolding decoded payload_of
  parse_ghcr_published_metadata body =
      Results.◌>>=◌ (map_err (λ message. new "invalid_payload" message) (host.from_slice body))
        λ value. decoded (payload_of value (Json.get "client_payload" value))

  -- The checks of a call, up to the artifact that its metadata names.
  unfoldable pub admit :
      GhcrWebhookConfig
      → GithubWebhookHeaders
      → Bytes
      → Bytes
      → DeploymentRegistry
      → Result GhcrWebhookError (GhcrPublishedMetadata × ResolvedOciArtifact)
  admit config headers body secret registry =
      Results.◌>>◌
        (reject_if (not config.enabled)
          (new "webhook_disabled" "GHCR webhook handling is disabled"))
        (Results.◌>>◌
          (reject_if
            (not (headers.event == "repository_dispatch") && not (headers.event == "workflow_run"))
            (new "unsupported_event" ("unsupported GitHub event `" +++ headers.event +++ "`")))
          (Results.◌>>◌
            (reject_if (is_empty (trim headers.delivery))
              (new "missing_delivery" "X-GitHub-Delivery is required"))
            (Results.◌>>◌
              (reject_if (has_webhook_delivery headers.delivery registry) (
                new "webhook_replay"
                  ("webhook delivery `" +++ headers.delivery +++ "` was already processed")))
              (Results.◌>>◌ (verify_github_signature host.sha256 secret body headers.signature_256)
                (Results.◌>>=◌ (parse_ghcr_published_metadata body) λ m.
                  Results.◌>>◌ (validate_metadata config m) (
                    Results.◌>>=◌ (host.resolve m.oci_ref) λ resolved.
                      Results.◌>>◌
                        (reject_if
                          (config.require_exact_digest
                            && not (resolved.resolved_digest == m.digest))
                          (new "digest_mismatch" (
                            "resolved digest `" +++ resolved.resolved_digest
                            +++ "` does not match payload digest `" +++ m.digest +++ "`")))
                        (ok (m, resolved))))))))

  unfoldable pub handle_ghcr_published_webhook :
      GhcrWebhookConfig
      → GithubWebhookHeaders
      → Bytes
      → Bytes
      → Action DeploymentRegistry GhcrWebhookError GhcrWebhookOutcome
  unfolding on_registry
  handle_ghcr_published_webhook config headers body secret =
      reads (admit config headers body secret) >>= λ admitted.
      on_registry (create_deployment (request_of config admitted.0 admitted.1)) >>= λ d.
      on_registry (record_webhook_delivery headers.delivery) >>= λ recorded.
      pure (outcome_of config headers.delivery admitted.0 admitted.1 d)
