-- ===== src/Deployment/Examples.antt =====
-- The laws of the registry at a concrete registry.
use greentic_sorx.Deployment.Operations.Visible.{Reachable-AllOpen, AllOpen}
use greentic_sorx.Deployment.Registry.Rollback.{rollback_alias_unroutable, marked}
use greentic_sorx.Deployment.Types.{
  new, RollbackAliasRequest, is_retired, is_routable, CreateDeploymentRequest, default_registry,
  SorxDeployment, DeploymentRegistry, PackArtifact, DeploymentStatus, DeploymentVisibility,
  StateMode,
}
use greentic_sorx.Deployment.Registry.{
  rollback_alias, replayed, has_webhook_delivery, set_alias, record_webhook_delivery, make_public,
  promote_public,
}
use greentic_sorx.Deployment.Lookup.{
  find_alias, resolve_alias, promotion_status, deployment_required, deployment,
}
use greentic_sorx.Deployment.Operations.Deliveries.{replay_rejected}
use greentic_sorx.Deployment.Create.Laws.{create_shadowed, create-DistinctPaths, DistinctPaths}
use greentic_sorx.Deployment.Registry.Aliases.{resolve-set_alias}
use greentic_sorx.Prelude.Results.{err, map_ok, ok}
use greentic_sorx.Deployment.Registry.Promotion.{
  promote_public_of_retired, promote_public_iff, published,
}
use greentic_sorx.Prelude.Actions.{◌>>=◌}
use greentic_sorx.Deployment.Checks.{request_id, check_request}
use greentic_sorx.Prelude.{false, some, ◌↔◌, true, ◌≡◌, none, refl, [], ◌∷◌}
use greentic_sorx.Deployment.Operations.Linked.{Reachable-IsLinked}
use greentic_sorx.Deployment.Operations.{Operation, Reachable, start, after}
use greentic_sorx.Deployment.Registry.Links.{IsLinked}
use greentic_sorx.Deployment.Create.{create_deployment}
use mathlib.Core.List.Memᴰ
use greentic_sorx.Deployment.Validation.{
  report_digest, ontology_promotion_gates, gate_of_report, latest_validation_report,
  validation_gate,
}
use greentic_sorx.Json.{Value, from_map, string_field, get}
use greentic_sorx.Json
use greentic_sorx.Deployment.Operations
use greentic_sorx.Deployment.Validation.Gate.{gate-ok_iff, IsPublishable}

abbrev sample_artifact : PackArtifact
sample_artifact = record {
  source = "file:///packs/tenancy.gtpack";
  name = "tenancy";
  version = "1.2.0";
  digest = "sha256:abc";
  signature = none;
  signature_ref = none;
}

abbrev sample : SorxDeployment
sample = record {
  deployment_id = "acme-tenancy";
  tenant_id = "acme";
  sor_name = "tenancy";
  pack_name = "tenancy";
  pack_version = "1.2.0";
  pack_digest = "sha256:abc";
  environment = "dev";
  api_version_label = "v1";
  view_version = "v1";
  canonical_version = "1.2.0";
  base_path = "/acme/tenancy/v1";
  state_namespace = "sorx/acme/tenancy";
  visibility = DeploymentVisibility.private;
  status = DeploymentStatus.validated;
  state_mode = StateMode.shared_compatible;
  traffic = none;
  artifact = sample_artifact;
}

abbrev sample_report : Value
sample_report = from_map (
    ("deployment_id", Json.string "acme-tenancy")
    ∷ ("pack_digest", Json.string "sha256:abc")
    ∷ ("public_exposure_allowed", Json.bool true)
    ∷ ("result", Json.string "pass")
    ∷ [])

abbrev sample_registry : DeploymentRegistry
sample_registry = record default_registry {
  deployments = sample ∷ [];
  validation_reports = sample_report ∷ [];
}

sample-IsPublishable : IsPublishable sample sample_registry
unfolding validation_gate latest_validation_report gate_of_report ontology_promotion_gates
    report_digest string_field get greentic_sorx.Prelude.Maps.get
sample-IsPublishable = (gate-ok_iff sample sample_registry).0 refl

promote_public_iff_example :
    (promote_public "acme-tenancy" "ada" none sample_registry
      ≡ (ok (make_public sample), published "acme-tenancy" "ada" none sample_registry sample))
    ↔ IsPublishable sample sample_registry
unfolding deployment
promote_public_iff_example = promote_public_iff "acme-tenancy" "ada" none sample_registry refl

abbrev retired_sample : SorxDeployment
retired_sample = record sample { status = DeploymentStatus.retired }

abbrev retired_registry : DeploymentRegistry
retired_registry = record sample_registry { deployments = retired_sample ∷ [] }

retired-IsPublishable : IsPublishable retired_sample retired_registry
unfolding validation_gate latest_validation_report gate_of_report ontology_promotion_gates
    report_digest string_field get greentic_sorx.Prelude.Maps.get
retired-IsPublishable = (gate-ok_iff retired_sample retired_registry).0 refl

promote_public_of_retired_example :
    (map_ok (λ s. s.promotable_public) (promotion_status "acme-tenancy" retired_registry)
      ≡ ok false)
    × (deployment "acme-tenancy" (promote_public "acme-tenancy" "ada" none retired_registry).1
        ≡ some (make_public retired_sample))
unfolding deployment
promote_public_of_retired_example =
    promote_public_of_retired "acme-tenancy" "ada" none retired_registry refl refl
      retired-IsPublishable

abbrev sample_request : CreateDeploymentRequest
sample_request = record {
  artifact = sample_artifact;
  tenant_id = "acme";
  sor_name = "tenancy";
  environment = "dev";
  api_version_label = "v1";
  base_path = "acme/tenancy/v1/";
  visibility = DeploymentVisibility.private;
  state_mode = StateMode.shared_compatible;
  state_namespace = none;
  deployment_id = some "acme-tenancy";
  allow_api_version_conflict = false;
  allow_shared_state_conflict = false;
}

Reachable-IsLinked_example : IsLinked (
    Operations.perform (Operation.link "acme" "tenancy" "stable" "acme-tenancy") (
      Operations.perform
        (Operation.validate "acme-tenancy")
        (Operations.perform (Operation.create sample_request) default_registry)))
Reachable-IsLinked_example = Reachable-IsLinked (
    after (Operation.link "acme" "tenancy" "stable" "acme-tenancy")
      (after (Operation.validate "acme-tenancy") (after (Operation.create sample_request) start)))

resolve-set_alias_example :
    resolve_alias "acme" "tenancy" "stable"
      (set_alias "acme" "tenancy" "stable" "acme-tenancy" sample_registry).1
    ≡ deployment "acme-tenancy" sample_registry
unfolding set_alias deployment_required deployment is_routable ◌>>=◌
resolve-set_alias_example =
    resolve-set_alias "acme" "tenancy" "stable" "acme-tenancy" sample_registry refl "acme" "tenancy"
      "stable"

replay_rejected_example :
    record_webhook_delivery "d-1" (
      Operations.perform_all
        (Operation.retire_one "acme-tenancy" ∷ [])
        (record_webhook_delivery "d-1" sample_registry).1)
    ≡ (
      err (replayed "d-1"),
      Operations.perform_all
          (Operation.retire_one "acme-tenancy" ∷ [])
          (record_webhook_delivery "d-1" sample_registry).1,
    )
unfolding record_webhook_delivery has_webhook_delivery ◌>>=◌
replay_rejected_example =
    replay_rejected "d-1" sample_registry (Operation.retire_one "acme-tenancy" ∷ []) refl

create_shadowed_example :
    (is_retired retired_sample.status ≡ true)
    × (deployment (request_id sample_request) (create_deployment sample_request retired_registry).1
        ≡ some retired_sample)
unfolding deployment create_deployment check_request ◌>>=◌
create_shadowed_example = create_shadowed sample_request retired_registry refl refl

create-DistinctPaths_example :
    DistinctPaths (create_deployment sample_request sample_registry).1.deployments
create-DistinctPaths_example =
    create-DistinctPaths sample_request sample_registry
      λ a b ma mb. rw (Memᴰ.eq_of_singleton ma, Memᴰ.eq_of_singleton mb) refl

abbrev pending_sample : SorxDeployment
pending_sample = record sample {
  deployment_id = "acme-tenancy-2";
  status = DeploymentStatus.pending;
}

abbrev linked_registry : DeploymentRegistry
linked_registry = record sample_registry {
  deployments = sample ∷ pending_sample ∷ [];
  aliases =
      record {
        tenant_id = "acme";
        sor_name = "tenancy";
        alias = "stable";
        target_deployment_id = "acme-tenancy";
      }
      ∷ [];
}

abbrev sample_rollback : RollbackAliasRequest
sample_rollback = record {
  tenant_id = "acme";
  sor_name = "tenancy";
  alias = "stable";
  to_deployment_id = "acme-tenancy-2";
  reason = "regression";
  actor = "ada";
  automation_source = none;
}

rollback_alias_unroutable_example : rollback_alias sample_rollback linked_registry ≡ (
  err (new "alias_target_not_routable" "alias target must be validated or active"),
  marked sample_rollback linked_registry "acme-tenancy",
)
unfolding deployment find_alias is_routable
rollback_alias_unroutable_example =
    rollback_alias_unroutable sample_rollback linked_registry refl refl refl refl refl refl

Reachable-AllOpen_example : AllOpen (
    Operations.perform (Operation.to_public "acme-tenancy" "ada" none) (
      Operations.perform
        (Operation.report sample_report)
        (Operations.perform (Operation.create sample_request) default_registry)))
Reachable-AllOpen_example = Reachable-AllOpen (
    after (Operation.to_public "acme-tenancy" "ada" none)
      (after (Operation.report sample_report) (after (Operation.create sample_request) start)))
