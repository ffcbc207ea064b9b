-- ===== src/Deployment/Operations/Invariant.antt =====
-- A predicate that the basic writes of the registry keep is kept by every public method.
use greentic_sorx.Deployment.Operations.{
  Operation, create, validate, activate, report, to_private, to_public, to_alias, rollback,
  retire_but, retire_one, link, deliver, perform, Reachable, start, after,
}
use greentic_sorx.Deployment.Types.{
  default_registry, CreateDeploymentRequest, DeploymentStatus, SorxDeployment, DeploymentRegistry,
  RollbackAliasRequest, PromotionAuditEvent,
}
use greentic_sorx.Deployment.Registry.{
  set_alias, validate_deployment, activate_private, record_validation_report, push_report,
  promote_private, promote_public, promote_by, promote_alias, rollback_alias, roll_back_old,
  retire_old, retire_all, retire, record_webhook_delivery, push_delivery, record_promotion_audit,
  make_public,
}
use greentic_sorx.Prelude.Invariants.{
  Preserves-reads, Preserves, Preserves-modify, Preserves-pure, Preserves-bind, action_rules,
}
use greentic_sorx.Prelude.{
  ℕ, String, ◌≡◌, refl, Bool, true, false, Option, none, some, List, [], ◌∷◌, ◌==◌, Bool-cases, inl,
  inr,
}
use greentic_sorx.Json.{Value}
use greentic_sorx.Deployment.Lookup.{update_deployment, update_status}
use greentic_sorx.Deployment.Create.{create_deployment, add_deployment}

abbrev pub is_settable : DeploymentStatus → Bool
is_settable DeploymentStatus.validated = true
is_settable DeploymentStatus.active_private = true
is_settable DeploymentStatus.rolled_back = true
is_settable _ = false

-- The writes that the public methods are made of.
pub record Invariant (P : DeploymentRegistry → Type 0) : Type 0 where
  pub add :
      (d : SorxDeployment) (r : DeploymentRegistry)
      → d.status ≡ DeploymentStatus.pending
      → P r
      → P (add_deployment d r)
  pub status :
      (id : String) (s : DeploymentStatus) → is_settable s ≡ true → Preserves P (update_status id s)
  pub public : (id : String) → Preserves P (update_deployment id make_public)
  pub alias : (tenant sor name id : String) → Preserves P (set_alias tenant sor name id)
  pub retirement : (id : String) → Preserves P (retire id)
  pub audit : (event : PromotionAuditEvent) → Preserves P (record_promotion_audit event)
  pub reported : (value : Value) → Preserves P (push_report value)
  pub delivered : (id : String) (r : DeploymentRegistry) → P r → P (push_delivery id r)

module _ {P : DeploymentRegistry → Type 0} (inv : Invariant P) where
  kept_status_private :
      (id : String) → Preserves P (update_status id DeploymentStatus.active_private)
  kept_status_private id = inv.status id DeploymentStatus.active_private refl

  kept_public : (id : String) → Preserves P (update_deployment id make_public)
  kept_public = inv.public

  kept_audit : (event : PromotionAuditEvent) → Preserves P (record_promotion_audit event)
  kept_audit = inv.audit

  kept_alias : (tenant sor name id : String) → Preserves P (set_alias tenant sor name id)
  kept_alias = inv.alias

  kept_retire : (id : String) → Preserves P (retire id)
  kept_retire = inv.retirement

  kept_create : (request : CreateDeploymentRequest) → Preserves P (create_deployment request)
  unfolding create_deployment
  kept_create request = Preserves-bind _ _ (Preserves-reads _) λ _.
      Preserves-bind _ _ (Preserves-modify _ (λ r h. inv.add _ r refl h)) (λ _. Preserves-pure _)

  kept_retire_all : (ds : List SorxDeployment) → Preserves P (retire_all ds)
  unfolding retire_all
  kept_retire_all [] = search action_rules
  kept_retire_all (d ∷ ds) =
      Preserves-bind (retire d.deployment_id) _ (inv.retirement d.deployment_id)
        (λ first. search (action_rules, kept_retire_all ds))

  kept_retire_old : (tenant sor : String) (keep : ℕ) → Preserves P (retire_old tenant sor keep)
  unfolding retire_old
  kept_retire_old tenant sor keep = search (action_rules, kept_retire_all)

  kept_private :
      (id actor : String) (source : Option String) → Preserves P (promote_private id actor source)
  unfolding promote_private
  kept_private id actor source = search (action_rules, kept_status_private, kept_audit)

  kept_promote_public :
      (id actor : String) (source : Option String) → Preserves P (promote_public id actor source)
  unfolding promote_public
  kept_promote_public id actor source = search (action_rules, kept_public, kept_audit)

  kept_promote_by :
      (public : Bool) (id actor : String) (source : Option String)
      → Preserves P (promote_by public id actor source)
  unfolding promote_by
  kept_promote_by true id actor source = kept_promote_public id actor source
  kept_promote_by false id actor source = kept_private id actor source

  kept_promote_alias :
      (id alias : String) (public : Bool) (actor : String) (source : Option String)
      → Preserves P (promote_alias id alias public actor source)
  unfolding promote_alias
  kept_promote_alias id alias public actor source =
      search (action_rules, kept_promote_by, kept_alias, kept_audit) depth 12

  kept_roll_back_old : (old : Option String) (to : String) → Preserves P (roll_back_old old to)
  unfolding roll_back_old
  kept_roll_back_old none to = search action_rules
  kept_roll_back_old (some old) to = elim (Bool-cases (old == to)) [
    | inl same ↦ rw same (Preserves-pure tt)
    | inr other ↦ rw other (
        Preserves-bind _ _ (inv.status old DeploymentStatus.rolled_back refl)
          (λ _. Preserves-pure tt))
  ]

  kept_rollback : (request : RollbackAliasRequest) → Preserves P (rollback_alias request)
  unfolding rollback_alias
  kept_rollback request = search (action_rules, kept_roll_back_old, kept_alias, kept_audit) depth 12

  kept_report : (value : Value) → Preserves P (record_validation_report value)
  unfolding record_validation_report
  kept_report value =
      Preserves-bind _ _ (Preserves-reads _)
        λ _. Preserves-bind _ _ (Preserves-reads _) (λ _. inv.reported value)

  kept_delivery : (id : String) → Preserves P (record_webhook_delivery id)
  unfolding record_webhook_delivery
  kept_delivery id =
      Preserves-bind _ _ (Preserves-reads _) (λ _. Preserves-modify _ (inv.delivered id))

  -- Every call of a public method, failed or not, keeps the predicate.
  pub perform_keeps : (op : Operation) (r : DeploymentRegistry) → P r → P (perform op r)
  unfolding perform validate_deployment activate_private
  perform_keeps (create request) r h = (kept_create request).from r h
  perform_keeps (validate id) r h = (inv.status id DeploymentStatus.validated refl).from r h
  perform_keeps (activate id) r h = (kept_status_private id).from r h
  perform_keeps (report value) r h = (kept_report value).from r h
  perform_keeps (to_private id actor source) r h = (kept_private id actor source).from r h
  perform_keeps (to_public id actor source) r h = (kept_promote_public id actor source).from r h
  perform_keeps (to_alias id alias public actor source) r h =
      (kept_promote_alias id alias public actor source).from r h
  perform_keeps (rollback request) r h = (kept_rollback request).from r h
  perform_keeps (retire_but tenant sor keep) r h = (kept_retire_old tenant sor keep).from r h
  perform_keeps (retire_one id) r h = (inv.retirement id).from r h
  perform_keeps (link tenant sor alias id) r h = (inv.alias tenant sor alias id).from r h
  perform_keeps (deliver id) r h = (kept_delivery id).from r h

  pub reachable_keeps : P default_registry → {r : DeploymentRegistry} → Reachable r → P r
  reachable_keeps h start = h
  reachable_keeps h (after {r = s} op reached) = perform_keeps op s (reachable_keeps h reached)
