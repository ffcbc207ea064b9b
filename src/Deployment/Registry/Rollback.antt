-- ===== src/Deployment/Registry/Rollback.antt =====
-- A rollback whose target cannot be routed to.
use greentic_sorx.Deployment.Operations.Linked.{set_status-keeps}
use greentic_sorx.Deployment.Types.{
  new, is_routable, DeploymentAlias, DeploymentStatus, SorxDeployment, DeploymentRegistry,
  RollbackAliasRequest,
}
use greentic_sorx.Deployment.Registry.{
  new, is_routable, true, false, DeploymentStatus, some, DeploymentAlias, SorxDeployment, String,
  deployment_required, DeploymentRegistry, RollbackAliasRequest, rollback_alias, roll_back_old,
  set_alias,
}
use greentic_sorx.Prelude.Results.{err}
use greentic_sorx.Deployment.Lookup.{
  find_alias, update_deployment, set_status, update_first, update_status, deployment_required,
  deployment,
}
use greentic_sorx.Prelude.{arith, true, false, ◌&&◌, ◌==◌, some, ◌≡◌, String}
use greentic_sorx.Deployment.Lookup.Laws.{find-update_first}
use greentic_sorx.Prelude.Actions.{◌>>=◌}

module _ (request : RollbackAliasRequest) (r : DeploymentRegistry) where
  -- The registry with the former target marked.
  pub marked : String → DeploymentRegistry
  marked old = record r {
    deployments = update_first old (set_status DeploymentStatus.rolled_back) r.deployments;
  }

  target_stays :
      {target : SorxDeployment} (old : String)
      → deployment request.to_deployment_id r ≡ some target
      → (old == request.to_deployment_id) ≡ false
      → deployment request.to_deployment_id (marked old) ≡ some target
  unfolding deployment marked
  target_stays old found apart = ground (
    arith,
    find-update_first old (set_status DeploymentStatus.rolled_back)
        (set_status-keeps DeploymentStatus.rolled_back) request.to_deployment_id r.deployments,
    found,
    apart,
  )

  -- The new target is there, of the alias's tenant and SOR name, and not routable, and the alias leads
  -- to another deployment that is there: the rollback fails, and the former target, to which the alias
  -- still leads, is marked as rolled back.
  pub rollback_alias_unroutable :
      {target old : SorxDeployment} {a : DeploymentAlias}
      → deployment request.to_deployment_id r ≡ some target
      → (target.tenant_id == request.tenant_id && target.sor_name == request.sor_name) ≡ true
      → is_routable target.status ≡ false
      → find_alias request.tenant_id request.sor_name request.alias r ≡ some a
      → (a.target_deployment_id == request.to_deployment_id) ≡ false
      → deployment a.target_deployment_id r ≡ some old
      → rollback_alias request r ≡ (
        err (new "alias_target_not_routable" "alias target must be validated or active"),
        marked a.target_deployment_id,
      )
  unfolding rollback_alias roll_back_old set_alias deployment_required update_status
      update_deployment marked ◌>>=◌
  rollback_alias_unroutable {a = a} found scope shut linked apart there = ground (
    arith,
    found,
    scope,
    shut,
    linked,
    apart,
    there,
    target_stays a.target_deployment_id found apart,
  )
