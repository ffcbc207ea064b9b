-- ===== src/Deployment/Create.antt =====
-- crates/greentic-sorx-core/src/deployment.rs: `create_deployment`.
pub mod Laws
use greentic_sorx.Prelude.{String, Bool, some, [], ◌∷◌, ◌++◌, text_lt}
use greentic_sorx.Prelude.Sorting.{sort_by}
use greentic_sorx.Prelude.Actions.{pure, reads, modify, ◌>>◌}
use greentic_sorx.Json.{unwrap_or}
use greentic_sorx.Deployment.Types.{
  DeploymentStatus, SorxDeployment, DeploymentRegistry, CreateDeploymentRequest, default_traffic,
}
use greentic_sorx.Deployment.Naming.{default_state_namespace, normalize_base_path}
use greentic_sorx.Deployment.Lookup.{Registry}
use greentic_sorx.Deployment.Checks.{request_id, check_request}

unfoldable pub new_deployment : String → String → CreateDeploymentRequest → SorxDeployment
new_deployment id namespace request = record {
  deployment_id = id;
  tenant_id = request.tenant_id;
  sor_name = request.sor_name;
  pack_name = request.artifact.name;
  pack_version = request.artifact.version;
  pack_digest = request.artifact.digest;
  environment = request.environment;
  api_version_label = request.api_version_label;
  view_version = request.api_version_label;
  canonical_version = request.artifact.version;
  base_path = normalize_base_path request.base_path;
  state_namespace = namespace;
  visibility = request.visibility;
  status = DeploymentStatus.pending;
  state_mode = request.state_mode;
  traffic = some default_traffic;
  artifact = request.artifact;
}

abbrev pub id_lt : SorxDeployment → SorxDeployment → Bool
id_lt a b = text_lt a.deployment_id b.deployment_id

unfoldable pub add_deployment : SorxDeployment → DeploymentRegistry → DeploymentRegistry
add_deployment d r = record r { deployments = sort_by id_lt (r.deployments ++ d ∷ []) }

unfoldable pub create_deployment : CreateDeploymentRequest → Registry SorxDeployment
unfolding check_request request_id new_deployment add_deployment
create_deployment request =
    let id = request_id request in
    let namespace = unwrap_or (default_state_namespace request) request.state_namespace in
    let d = new_deployment id namespace request in
    do reads (check_request id namespace request); modify (add_deployment d); pure d
