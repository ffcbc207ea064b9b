-- ===== src/Deployment/Lookup/Laws.antt =====
-- What an update of one entry changes, and what it leaves alone.
use greentic_sorx.Prelude.{
  String, ◌≡◌, refl, none, List, [], ◌∷◌, arith, ◌==◌, eq_iff, find, if◌then◌else◌, map_some,
}
use greentic_sorx.Deployment.Types.{SorxDeployment, DeploymentRegistry}
use greentic_sorx.Deployment.Lookup.{has_id, deployment, update_first, update_deployment}

-- An update that leaves the identity of the deployment alone.
pub record KeepsIdentity (f : SorxDeployment → SorxDeployment) : Type 0 where
  pub id : (d : SorxDeployment) → (f d).deployment_id ≡ d.deployment_id
  pub tenant : (d : SorxDeployment) → (f d).tenant_id ≡ d.tenant_id
  pub sor : (d : SorxDeployment) → (f d).sor_name ≡ d.sor_name

module _ (id : String) (f : SorxDeployment → SorxDeployment) (keeps : KeepsIdentity f) where
  pub find-update_first :
      (j : String) (ds : List SorxDeployment)
      → find (has_id j) (update_first id f ds)
        ≡ (if id == j then map_some f (find (has_id j) ds) else find (has_id j) ds)
  unfolding update_first
  find-update_first j [] = ground arith
  find-update_first j (d ∷ ds) = ground (
    arith,
    find-update_first j ds,
    keeps.id d,
    eq_iff id j,
    eq_iff d.deployment_id id,
    eq_iff d.deployment_id j,
    eq_iff (f d).deployment_id j,
  )

module _ (id : String) (f : SorxDeployment → SorxDeployment) where
  update_first_missing :
      (ds : List SorxDeployment) → find (has_id id) ds ≡ none → update_first id f ds ≡ ds
  unfolding update_first
  update_first_missing [] e = refl
  update_first_missing (d ∷ ds) e = ground (arith, update_first_missing ds)

  module _ (r : DeploymentRegistry) where
    pub deployments-update :
        (update_deployment id f r).1.deployments ≡ update_first id f r.deployments
    unfolding update_deployment deployment
    deployments-update = ground (arith, update_first_missing r.deployments)

    pub aliases-update : (update_deployment id f r).1.aliases ≡ r.aliases
    unfolding update_deployment
    aliases-update = ground arith

    pub reports-update : (update_deployment id f r).1.validation_reports ≡ r.validation_reports
    unfolding update_deployment
    reports-update = ground arith
