-- ===== src/Deployment/Checks.antt =====
-- crates/greentic-sorx-core/src/deployment.rs: the checks of `create_deployment`.
use greentic_sorx.Prelude.{
  String, Bool, true, false, not, ◌&&◌, ◌||◌, Option, none, some, ◌==◌, find, any,
}
use greentic_sorx.Prelude.Text.{◌+++◌}
use greentic_sorx.Prelude.Results.{Result, ok, err, reject_if, ◌>>◌}
use greentic_sorx.Json.{unwrap_or}
use greentic_sorx.Deployment.Types.{
  StateMode, isolated, shared_compatible, SorxDeployment, DeploymentRegistry,
  DeploymentRegistryError, CreateDeploymentRequest, is_retired, new,
}
use greentic_sorx.Deployment.Naming.{
  deployment_id_for, is_production_environment, normalize_base_path,
}
use greentic_sorx.Deployment.Lookup.{has_id}

abbrev pub is_isolated : StateMode → Bool
is_isolated isolated = true
is_isolated _ = false

abbrev pub is_shared_compatible : StateMode → Bool
is_shared_compatible shared_compatible = true
is_shared_compatible _ = false

-- The first entry that a check rejects decides the error.
abbrev pub reject_first :
    Option SorxDeployment
    → (SorxDeployment → DeploymentRegistryError)
    → Result DeploymentRegistryError (Unit {0})
reject_first none e = ok tt
reject_first (some d) e = err (e d)

abbrev pub path_taken : String → String → SorxDeployment → Bool
path_taken id path d =
    not (is_retired d.status) && (not (d.deployment_id == id) && d.base_path == path)

unfoldable pub check_base_path_conflict :
    String → String → DeploymentRegistry → Result DeploymentRegistryError (Unit {0})
check_base_path_conflict id base_path r =
    let path = normalize_base_path base_path in
    reject_first (find (path_taken id path) r.deployments) λ existing. new "base_path_conflict" (
      "base path `" +++ path +++ "` conflicts with deployment `" +++ existing.deployment_id +++ "`")

abbrev pub version_taken : CreateDeploymentRequest → SorxDeployment → Bool
version_taken request d =
    not (is_retired d.status)
    && (d.tenant_id == request.tenant_id
        && (d.sor_name == request.sor_name
            && (d.api_version_label == request.api_version_label
                && not (d.pack_digest == request.artifact.digest))))

unfoldable pub check_api_version_conflict :
    CreateDeploymentRequest → DeploymentRegistry → Result DeploymentRegistryError (Unit {0})
check_api_version_conflict request r = elim request.allow_api_version_conflict [
  | true ↦ ok tt
  | false ↦ reject_first (find (version_taken request) r.deployments) λ existing.
      new "api_version_conflict" (
        "API version `" +++ request.api_version_label +++ "` already points to digest `"
        +++ existing.pack_digest +++ "`")
]

abbrev pub namespace_taken : String → String → SorxDeployment → Bool
namespace_taken id namespace d =
    not (is_retired d.status)
    && (not (d.deployment_id == id)
        && (d.state_namespace == namespace && not (is_shared_compatible d.state_mode)))

unfoldable pub check_state_namespace_conflict :
    String
    → String
    → StateMode
    → Bool
    → DeploymentRegistry
    → Result DeploymentRegistryError (Unit {0})
check_state_namespace_conflict id namespace mode allow r =
    elim (allow || is_shared_compatible mode) [
      | true ↦ ok tt
      | false ↦ reject_first (find (namespace_taken id namespace) r.deployments) λ existing.
          new "state_namespace_conflict" (
            "state namespace `" +++ namespace +++ "` conflicts with deployment `"
            +++ existing.deployment_id +++ "`")
    ]

unfoldable pub request_id : CreateDeploymentRequest → String
request_id request =
    unwrap_or
      (deployment_id_for request.tenant_id request.sor_name request.api_version_label
        request.artifact.version request.artifact.digest)
      request.deployment_id

abbrev pub is_live_id : String → SorxDeployment → Bool
is_live_id id d = has_id id d && not (is_retired d.status)

-- The checks that stand above the first write.
unfoldable pub check_request :
    String
    → String
    → CreateDeploymentRequest
    → DeploymentRegistry
    → Result DeploymentRegistryError (Unit {0})
unfolding check_base_path_conflict check_api_version_conflict check_state_namespace_conflict
check_request id namespace request r = do
  reject_if (any (is_live_id id) r.deployments)
      (new "deployment_exists" ("deployment `" +++ id +++ "` already exists"))
  reject_if (is_isolated request.state_mode && is_production_environment request.environment)
      (new "isolated_state_not_production" "production deployments must use shared canonical state")
  check_api_version_conflict request r
  check_base_path_conflict id request.base_path r
  check_state_namespace_conflict id namespace request.state_mode request.allow_shared_state_conflict
      r
