-- ===== src/Deployment/Registry/Promotion.antt =====
-- A promotion to public happens exactly where the gate is open, and touches one deployment.
use greentic_sorx.Prelude.{
  ap, Bool-cases, eq_refl, inr, inl, Option-cases, eq_iff, ◌==◌, ◌↔◌, ◌≢◌, if◌then◌else◌, String,
  ◌≡◌, true, false, Option, none, some, [], ◌∷◌, ◌++◌, arith,
}
use greentic_sorx.Deployment.Validation.Gate.{gate-ok_iff, IsPublishable}
use greentic_sorx.Deployment.Lookup.Laws.{find-update_first}
use greentic_sorx.Prelude.Results.{err, map_ok, ok}
use greentic_sorx.Deployment.Types.{
  DeploymentRegistryError, SorxDeployment, DeploymentRegistry, PromotionAuditEvent,
}
use greentic_sorx.Deployment.Registry.{
  DeploymentStatus, promote_public, make_public, promoted_event, record_promotion_audit,
}
use greentic_sorx.Deployment.Registry.Links.{make_public-keeps}
use greentic_sorx.Deployment.Lookup.{
  promotion_status, is_promotable_public, deployment, deployment_required, require_validation_gate,
  update_first, update_deployment,
}
use greentic_sorx.Prelude.Actions.{◌>>=◌}
use greentic_sorx.Deployment.Validation.{validation_gate}

module _ (id actor : String) (source : Option String) (r : DeploymentRegistry) where
  abbrev pub public_event : SorxDeployment → PromotionAuditEvent
  public_event d = promoted_event "sorx.deployment.promoted_public" id (make_public d) actor source

  -- The registry that a promotion of `d` leaves.
  pub published : SorxDeployment → DeploymentRegistry
  published d = record r {
    deployments = update_first id make_public r.deployments;
    promotion_audit_events = r.promotion_audit_events ++ public_event d ∷ [];
  }

  pub promote_public_open :
      {d : SorxDeployment}
      → deployment id r ≡ some d
      → (validation_gate d r).ok ≡ true
      → promote_public id actor source r ≡ (ok (make_public d), published d)
  unfolding promote_public deployment_required require_validation_gate update_deployment published
      ◌>>=◌ record_promotion_audit
  promote_public_open found open' = ground arith

  promote_public_missing : deployment id r ≡ none → (promote_public id actor source r).1 ≡ r
  unfolding promote_public deployment_required ◌>>=◌
  promote_public_missing missing = ground arith

  promote_public_closed :
      {d : SorxDeployment}
      → deployment id r ≡ some d
      → (validation_gate d r).ok ≡ false
      → (promote_public id actor source r).1 ≡ r
  unfolding promote_public deployment_required require_validation_gate ◌>>=◌
  promote_public_closed found closed = ground arith

  promote_public_refused :
      {d : SorxDeployment}
      → deployment id r ≡ some d
      → (validation_gate d r).ok ≡ false
      → (p : SorxDeployment) → (promote_public id actor source r).0 ≢ ok p
  unfolding promote_public deployment_required require_validation_gate ◌>>=◌
  promote_public_refused found closed p = ground arith

  -- A deployment that is there becomes active and public, with its audit event and no other change to
  -- the registry, exactly where it is publishable.
  pub promote_public_iff :
      {d : SorxDeployment}
      → deployment id r ≡ some d
      → (promote_public id actor source r ≡ (ok (make_public d), published d)) ↔ IsPublishable d r
  promote_public_iff {d} found = (forth, back)
    where
      back :
          IsPublishable d r → promote_public id actor source r ≡ (ok (make_public d), published d)
      back h = promote_public_open found ((gate-ok_iff d r).1 h)

      forth :
          promote_public id actor source r ≡ (ok (make_public d), published d) → IsPublishable d r
      forth e = elim (Bool-cases (validation_gate d r).ok) [
        | inl opened ↦ (gate-ok_iff d r).0 opened
        | inr closed ↦
            absurd (promote_public_refused found closed (make_public d) (ap (λ q. q.0) e))
      ]

  -- A promotion that fails leaves the registry as it was.
  pub promote_public-err :
      {e : DeploymentRegistryError}
      → (promote_public id actor source r).0 ≡ err e
      → (promote_public id actor source r).1 ≡ r
  promote_public-err {e} failed = elim (Option-cases (deployment id r)) [
    | inl missing ↦ promote_public_missing missing
    | inr (d, found) ↦ elim (Bool-cases (validation_gate d r).ok) [
      | inr closed ↦ promote_public_closed found closed
      | inl opened ↦ cc (failed, ap (λ q. q.0) (promote_public_open found opened))
    ]
  ]

  -- The deployments after a promotion: the one that was promoted, and every other as it was.
  pub deployment-published :
      {d : SorxDeployment} (j : String)
      → deployment id r ≡ some d
      → deployment j (published d) ≡ (if id == j then some (make_public d) else deployment j r)
  unfolding published deployment
  deployment-published {d} j found =
      ground
        (arith, eq_iff id j, find-update_first id make_public make_public-keeps j r.deployments)

  -- A retired deployment with a passing report becomes active and public, although its promotion
  -- status says that it is not promotable to public.
  pub promote_public_of_retired :
      {d : SorxDeployment}
      → deployment id r ≡ some d
      → d.status ≡ DeploymentStatus.retired
      → IsPublishable d r
      → (map_ok (λ s. s.promotable_public) (promotion_status id r) ≡ ok false)
        × (deployment id (promote_public id actor source r).1 ≡ some (make_public d))
  unfolding promotion_status is_promotable_public
  promote_public_of_retired {d} found gone h = (
    ground arith,
    rw (
      promote_public_open found ((gate-ok_iff d r).1 h),
      deployment-published id found,
      eq_refl id,
    ),
  )
