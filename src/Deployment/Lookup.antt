-- ===== src/Deployment/Lookup.antt =====
-- crates/greentic-sorx-core/src/deployment.rs: what the registry reads, and how it writes one entry.
pub mod Laws
use greentic_sorx.Prelude.{
  String, Bool, true, false, not, ◌&&◌, Option, none, some, List, [], ◌∷◌, ◌==◌, find, retain,
  if◌then◌else◌,
}
use greentic_sorx.Prelude.Text.{◌+++◌}
use greentic_sorx.Prelude.Results.{Result, ok, err, ok_or, reject_if}
use greentic_sorx.Prelude.Actions.{Action}
use greentic_sorx.Json.{unwrap_or}
use greentic_sorx.Deployment.Types.{
  DeploymentStatus, SorxDeployment, DeploymentAlias, DeploymentRegistry, DeploymentRegistryError,
  PromotionStatus, ValidationGate, new,
}
use greentic_sorx.Deployment.Validation.{validation_gate}

abbrev pub Registry : Type 0 → Type 0
Registry A = Action DeploymentRegistry DeploymentRegistryError A

abbrev pub has_id : String → SorxDeployment → Bool
has_id id d = d.deployment_id == id

unfoldable pub deployment : String → DeploymentRegistry → Option SorxDeployment
deployment id r = find (has_id id) r.deployments

unfoldable pub deployment_missing : String → DeploymentRegistryError
deployment_missing id = new "deployment_missing" ("deployment `" +++ id +++ "` does not exist")

unfoldable pub deployment_required :
    String → DeploymentRegistry → Result DeploymentRegistryError SorxDeployment
deployment_required id r = ok_or (deployment id r) (deployment_missing id)

abbrev pub is_alias : String → String → String → DeploymentAlias → Bool
is_alias tenant sor name a = a.tenant_id == tenant && (a.sor_name == sor && a.alias == name)

-- The search for an alias that several methods make.
unfoldable pub find_alias : String → String → String → DeploymentRegistry → Option DeploymentAlias
find_alias tenant sor name r = find (is_alias tenant sor name) r.aliases

unfoldable pub resolve_alias : String → String → String → DeploymentRegistry → Option SorxDeployment
resolve_alias tenant sor name r = elim (find_alias tenant sor name r) [
  | none ↦ none
  | some target ↦ deployment target.target_deployment_id r
]

abbrev matches_filter : Option String → String → Bool
matches_filter none s = true
matches_filter (some t) s = s == t

pub aliases_for : Option String → Option String → DeploymentRegistry → List DeploymentAlias
aliases_for tenant sor r =
    retain (λ a. matches_filter sor a.sor_name)
      (retain (λ a. matches_filter tenant a.tenant_id) r.aliases)

abbrev pub is_public : DeploymentStatus → Bool
is_public DeploymentStatus.active_public = true
is_public _ = false

pub public_deployments : DeploymentRegistry → List SorxDeployment
public_deployments r = retain (λ d. is_public d.status) r.deployments

-- `update(deployment)` at the first entry with the id
unfoldable pub update_first :
    String → (SorxDeployment → SorxDeployment) → List SorxDeployment → List SorxDeployment
update_first id f [] = []
update_first id f (d ∷ ds) = if has_id id d then f d ∷ ds else d ∷ update_first id f ds

-- The result is read from the entry that was found; a missing id changes nothing.
unfoldable pub update_deployment :
    String → (SorxDeployment → SorxDeployment) → Registry SorxDeployment
update_deployment id f r = elim (deployment id r) [
  | none ↦ (err (deployment_missing id), r)
  | some d ↦ (ok (f d), record r { deployments = update_first id f r.deployments })
]

abbrev pub set_status : DeploymentStatus → SorxDeployment → SorxDeployment
set_status status d = record d { status = status }

unfoldable pub update_status : String → DeploymentStatus → Registry SorxDeployment
update_status id status = update_deployment id (set_status status)

is_promotable_private : DeploymentStatus → Bool
is_promotable_private DeploymentStatus.pending = true
is_promotable_private DeploymentStatus.validating = true
is_promotable_private DeploymentStatus.validated = true
is_promotable_private DeploymentStatus.active_private = true
is_promotable_private _ = false

unfoldable pub is_promotable_public : DeploymentStatus → Bool
is_promotable_public DeploymentStatus.validated = true
is_promotable_public DeploymentStatus.active_private = true
is_promotable_public _ = false

status_of : SorxDeployment → ValidationGate → PromotionStatus
unfolding is_promotable_private is_promotable_public
status_of d gate = record {
  schema = "greentic.sorx.promotion-status.v1";
  deployment_id = d.deployment_id;
  pack_digest = d.pack_digest;
  status = d.status;
  visibility = d.visibility;
  validation_report_present = gate.report_present;
  validation_report_digest_matches = gate.digest_matches;
  validation_result = gate.result;
  public_exposure_allowed = gate.public_exposure_allowed;
  promotable_private = gate.private_ok && is_promotable_private d.status;
  promotable_public = gate.ok && is_promotable_public d.status;
  reason = gate.reason;
  gates = gate.gates;
}

unfoldable pub promotion_status :
    String → DeploymentRegistry → Result DeploymentRegistryError PromotionStatus
unfolding status_of
promotion_status id r = elim (deployment id r) [
  | none ↦ err (deployment_missing id)
  | some d ↦ ok (status_of d (validation_gate d r))
]

promotion_blocked : SorxDeployment → ValidationGate → DeploymentRegistryError
promotion_blocked d gate = new "promotion_blocked" (
    unwrap_or ("deployment `" +++ d.deployment_id +++ "` does not have a passing validation report")
      gate.reason)

unfoldable pub require_validation_gate :
    SorxDeployment → DeploymentRegistry → Result DeploymentRegistryError (Unit {0})
unfolding promotion_blocked
require_validation_gate d r =
    let gate = validation_gate d r in reject_if (not gate.ok) (promotion_blocked d gate)

unfoldable pub require_private_validation_gate :
    SorxDeployment → DeploymentRegistry → Result DeploymentRegistryError (Unit {0})
unfolding promotion_blocked
require_private_validation_gate d r =
    let gate = validation_gate d r in reject_if (not gate.private_ok) (promotion_blocked d gate)
