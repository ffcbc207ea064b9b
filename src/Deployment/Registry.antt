-- ===== src/Deployment/Registry.antt =====
-- crates/greentic-sorx-core/src/deployment.rs: promotion, aliases, rollback, retirement, deliveries.
pub mod Links
pub mod Promotion
pub mod Aliases
pub mod Rollback
use greentic_sorx.Deployment.Types.{
  DeploymentRegistryError, DeploymentStatus, DeploymentVisibility, SorxDeployment, DeploymentAlias,
  DeploymentRegistry, PromotionAuditEvent, RollbackAliasRequest, is_routable, is_active, new,
}
use greentic_sorx.Prelude.{
  ℕ, String, Bool, true, false, not, ◌&&◌, ◌||◌, Option, none, some, List, [], ◌∷◌, ◌++◌, ◌==◌, any,
  retain, skip, text_lt, if◌then◌else◌,
}
use greentic_sorx.Prelude.Text.{◌+++◌}
use greentic_sorx.Prelude.Sorting.{sort_by}
use greentic_sorx.Prelude.Results.{ok_or, reject_if}
use greentic_sorx.Prelude.Actions.{pure, reads, gets, modify, ◌>>=◌, ◌>>◌}
use greentic_sorx.Json.{Value, string_field}
use greentic_sorx.Deployment.Lookup.{
  Registry, deployment_required, is_alias, find_alias, update_deployment, update_status,
  require_validation_gate, require_private_validation_gate,
}

unfoldable pub validate_deployment : String → Registry SorxDeployment
validate_deployment id = update_status id DeploymentStatus.validated

unfoldable pub activate_private : String → Registry SorxDeployment
activate_private id = update_status id DeploymentStatus.active_private

unfoldable pub record_promotion_audit : PromotionAuditEvent → Registry (Unit {0})
record_promotion_audit event =
    modify (λ r. record r { promotion_audit_events = r.promotion_audit_events ++ event ∷ [] })

unfoldable pub push_report : Value → Registry (Unit {0})
push_report report =
    modify (λ r. record r { validation_reports = r.validation_reports ++ report ∷ [] })

unfoldable pub record_validation_report : Value → Registry (Unit {0})
unfolding push_report
record_validation_report report = do
  id ← reads (λ r.
      ok_or (string_field "deployment_id" report)
        (new "validation_report_invalid" "validation report must include deployment_id"))
  reads (deployment_required id)
  push_report report

-- The audit event of a promotion that moves no alias.
pub promoted_event : String → String → SorxDeployment → String → Option String → PromotionAuditEvent
promoted_event event id promoted actor source = record {
  event = event;
  deployment_id = id;
  tenant_id = some promoted.tenant_id;
  sor_name = some promoted.sor_name;
  alias = none;
  old_target_deployment_id = none;
  new_target_deployment_id = some id;
  reason = none;
  actor = actor;
  automation_source = source;
}

unfoldable pub promote_private : String → String → Option String → Registry SorxDeployment
unfolding promoted_event record_promotion_audit
promote_private id actor source = do
  d ← reads (deployment_required id)
  reads (require_private_validation_gate d)
  promoted ← update_status id DeploymentStatus.active_private
  record_promotion_audit
      (promoted_event "sorx.deployment.promoted_private" id promoted actor source)
  pure promoted

abbrev pub make_public : SorxDeployment → SorxDeployment
make_public d = record d {
  status = DeploymentStatus.active_public;
  visibility = DeploymentVisibility.public;
}

unfoldable pub promote_public : String → String → Option String → Registry SorxDeployment
unfolding promoted_event record_promotion_audit
promote_public id actor source = do
  d ← reads (deployment_required id)
  reads (require_validation_gate d)
  promoted ← update_deployment id make_public
  record_promotion_audit (promoted_event "sorx.deployment.promoted_public" id promoted actor source)
  pure promoted

-- The order of `(tenant_id, sor_name, alias)`.
abbrev pub alias_lt : DeploymentAlias → DeploymentAlias → Bool
alias_lt a b =
    text_lt a.tenant_id b.tenant_id
    || a.tenant_id == b.tenant_id
      && (text_lt a.sor_name b.sor_name || a.sor_name == b.sor_name && text_lt a.alias b.alias)

-- An entry of the same tenant, SOR name and alias is replaced.
unfoldable pub put_alias : DeploymentAlias → DeploymentRegistry → DeploymentRegistry
put_alias next r = record r {
  aliases = sort_by alias_lt (
      retain (λ a. not (is_alias next.tenant_id next.sor_name next.alias a)) r.aliases
      ++ next ∷ []);
}

unfoldable pub set_alias : String → String → String → String → Registry DeploymentAlias
unfolding put_alias
set_alias tenant_id sor_name alias target_id = do
  target ← reads (deployment_required target_id)
  reads (λ _.
      reject_if (not (target.tenant_id == tenant_id && target.sor_name == sor_name))
        (new "alias_scope_mismatch" "alias target must have the same tenant and SOR name"))
  reads (λ _.
      reject_if (not (is_routable target.status))
        (new "alias_target_not_routable" "alias target must be validated or active"))
  let next : DeploymentAlias = record {
    tenant_id = tenant_id;
    sor_name = sor_name;
    alias = alias;
    target_deployment_id = target_id;
  }
  modify (put_alias next)
  pure next

target_of : Option DeploymentAlias → Option String
target_of none = none
target_of (some a) = some a.target_deployment_id

-- `promote_public` or `promote_private`, by the flag
unfoldable pub promote_by : Bool → String → String → Option String → Registry SorxDeployment
promote_by true = promote_public
promote_by false = promote_private

unfoldable pub promote_alias :
    String → String → Bool → String → Option String → Registry DeploymentAlias
unfolding target_of record_promotion_audit
promote_alias id alias public actor source = do
  promote_by public id actor source
  target ← reads (deployment_required id)
  old ← gets (λ r. target_of (find_alias target.tenant_id target.sor_name alias r))
  next ← set_alias target.tenant_id target.sor_name alias id
  record_promotion_audit (record {
    event = "sorx.deployment.alias_promoted";
    deployment_id = id;
    tenant_id = some target.tenant_id;
    sor_name = some target.sor_name;
    alias = some alias;
    old_target_deployment_id = old;
    new_target_deployment_id = some id;
    reason = none;
    actor = actor;
    automation_source = source;
  })
  pure next

-- The former target is marked, unless it is the new one.
unfoldable pub roll_back_old : Option String → String → Registry (Unit {0})
roll_back_old none to = pure tt
roll_back_old (some old) to =
    if old == to then pure tt else (do update_status old DeploymentStatus.rolled_back; pure tt)

unfoldable pub rollback_alias : RollbackAliasRequest → Registry DeploymentAlias
unfolding target_of roll_back_old record_promotion_audit
rollback_alias request = do
  target ← reads (deployment_required request.to_deployment_id)
  reads (λ _.
      reject_if (not (target.tenant_id == request.tenant_id && target.sor_name == request.sor_name))
        (new "alias_scope_mismatch" "rollback target must have the same tenant and SOR name"))
  old ← gets (λ r. target_of (find_alias request.tenant_id request.sor_name request.alias r))
  roll_back_old old request.to_deployment_id
  next ← set_alias request.tenant_id request.sor_name request.alias request.to_deployment_id
  record_promotion_audit (record {
    event = "sorx.deployment.alias_rolled_back";
    deployment_id = request.to_deployment_id;
    tenant_id = some request.tenant_id;
    sor_name = some request.sor_name;
    alias = some request.alias;
    old_target_deployment_id = old;
    new_target_deployment_id = some request.to_deployment_id;
    reason = some request.reason;
    actor = request.actor;
    automation_source = request.automation_source;
  })
  pure next

unfoldable pub drop_aliases : String → DeploymentRegistry → DeploymentRegistry
drop_aliases id r = record r {
  aliases = retain (λ a. not (a.target_deployment_id == id)) r.aliases;
}

unfoldable pub retire : String → Registry SorxDeployment
unfolding drop_aliases
retire id = do d ← update_status id DeploymentStatus.retired; modify (drop_aliases id); pure d

unfoldable pub retire_all : List SorxDeployment → Registry (List SorxDeployment)
retire_all [] = pure []
retire_all (d ∷ ds) = do first ← retire d.deployment_id; rest ← retire_all ds; pure (first ∷ rest)

abbrev pub is_active_of : String → String → SorxDeployment → Bool
is_active_of tenant sor d = d.tenant_id == tenant && (d.sor_name == sor && is_active d.status)

abbrev pub id_gt : SorxDeployment → SorxDeployment → Bool
id_gt a b = text_lt b.deployment_id a.deployment_id

-- All but the `keep` active deployments with the highest ids.
unfoldable pub superseded : String → String → ℕ → DeploymentRegistry → List SorxDeployment
superseded tenant sor keep r =
    skip keep (sort_by id_gt (retain (is_active_of tenant sor) r.deployments))

unfoldable pub retire_old : String → String → ℕ → Registry (List SorxDeployment)
unfolding superseded
retire_old tenant sor keep = do old ← gets (superseded tenant sor keep); retire_all old

unfoldable pub has_webhook_delivery : String → DeploymentRegistry → Bool
has_webhook_delivery id r = any (λ existing. existing == id) r.webhook_deliveries

unfoldable pub push_delivery : String → DeploymentRegistry → DeploymentRegistry
push_delivery id r = record r {
  webhook_deliveries = sort_by text_lt (r.webhook_deliveries ++ id ∷ []);
}

unfoldable pub replayed : String → DeploymentRegistryError
replayed id = new "webhook_replay" ("webhook delivery `" +++ id +++ "` was already processed")

unfoldable pub record_webhook_delivery : String → Registry (Unit {0})
unfolding has_webhook_delivery push_delivery replayed
record_webhook_delivery id = do
  reads (λ r. reject_if (has_webhook_delivery id r) (replayed id))
  modify (push_delivery id)
