-- ===== src/Deployment/Validation.antt =====
-- crates/greentic-sorx-core/src/deployment.rs: the gate that a validation report has to pass.
pub mod Latest
pub mod Gate
use mathlib.Core.List.{reverse}
use greentic_sorx.Prelude.{
  String, Bool, true, false, not, ◌&&◌, ◌||◌, Option, none, some, List, [], ◌∷◌, ◌++◌, ◌==◌, find,
  all, if◌then◌else◌,
}
use greentic_sorx.Prelude.Text.{◌+++◌}
use greentic_sorx.Json.{Value, get, as_bool, as_object, and_then, or_else, unwrap_or, string_field}
use greentic_sorx.Deployment.Types.{
  SorxDeployment, PromotionGateStatus, ValidationGate, DeploymentRegistry,
}

abbrev pub is_text : String → Option String → Bool
is_text s none = false
is_text s (some t) = t == s

gate_status : Bool → String
gate_status true = "passed"
gate_status false = "failed"

ontology_gate : Value → String → String → PromotionGateStatus
ontology_gate ontology id key =
    let status = string_field key ontology in
    let passed = is_text "passed" status || is_text "pass" status in
    record {
      id = id;
      status = gate_status passed;
      reason = if passed then none else some ("ontology gate `" +++ key +++ "` did not pass");
    }

-- The `ontology` field of a report counts where it is an object.
object_field : String → Value → Option Value
object_field key v = and_then (get key v) (λ o. and_then (as_object o) (λ _. some o))

ontology_gates : Option Value → List PromotionGateStatus
ontology_gates none = []
ontology_gates (some ontology) =
    ontology_gate ontology "ontology-static" "static_validation"
    ∷ ontology_gate ontology "provider-compatibility" "provider_compatibility"
    ∷ ontology_gate ontology "retrieval-bindings" "retrieval_bindings"
    ∷ ontology_gate ontology "ontology-policy" "policy_validation"
    ∷ []

unfoldable pub ontology_promotion_gates : Value → List PromotionGateStatus
unfolding ontology_gates ontology_gate object_field gate_status
ontology_promotion_gates report = ontology_gates (object_field "ontology" report)

unfoldable pub latest_validation_report : String → DeploymentRegistry → Option Value
latest_validation_report id r =
    find (λ report. is_text id (string_field "deployment_id" report)) (reverse r.validation_reports)

-- The report's digest: `pack_digest`, or else `digest` of `pack`.
unfoldable pub report_digest : Value → Option String
report_digest report =
    or_else (string_field "pack_digest" report)
      (and_then (get "pack" report) (string_field "digest"))

abbrev pub flag : String → Value → Bool
flag key v = unwrap_or false (and_then (get key v) as_bool)

mismatch : String
mismatch = "validation report pack digest does not match deployment"

-- The part of `validation_gate` below the search for the report.
unfoldable pub gate_of_report : SorxDeployment → Value → ValidationGate
unfolding ontology_promotion_gates report_digest mismatch gate_status
gate_of_report deployment report =
    let digest_matches = is_text deployment.pack_digest (report_digest report) in
    let result = string_field "result" report in
    let passed = is_text "pass" result in
    let exposed = flag "public_exposure_allowed" report in
    let override_allowed = flag "local_operator_policy_override" report in
    let ontology = ontology_promotion_gates report in
    let ontology_ok = all (λ g. g.status == "passed") ontology || override_allowed in
    let private_ok = digest_matches && passed in
    let ok = private_ok && exposed && ontology_ok in
    record {
      report_present = true;
      digest_matches = digest_matches;
      result = result;
      public_exposure_allowed = exposed;
      private_ok = private_ok;
      ok = ok;
      reason =
          if ok
          then none
          else if not digest_matches
          then some mismatch
          else if not passed
          then some "validation report did not pass required gates"
          else if not ontology_ok
          then some "ontology public exposure gates did not pass"
          else some "validation report does not allow public exposure";
      gates =
          (record {
            id = "validation-report";
            status = gate_status (passed && digest_matches);
            reason = if digest_matches then none else some mismatch;
          }
            ∷ record {
              id = "public-exposure";
              status = gate_status exposed;
              reason =
                  if exposed then none else some "validation report does not allow public exposure";
            }
            ∷ ontology)
          ++ (if override_allowed
              then record {
                id = "local-operator-override";
                status = "passed";
                reason = some "local operator override allowed ontology public exposure";
              }
                ∷ []
              else []);
    }

no_report : ValidationGate
no_report = record {
  report_present = false;
  digest_matches = false;
  result = none;
  public_exposure_allowed = false;
  private_ok = false;
  ok = false;
  reason = some "validation report is required before promotion";
  gates =
      record {
        id = "validation-report";
        status = "missing";
        reason = some "validation report is required before promotion";
      }
      ∷ [];
}

abbrev gate_for : SorxDeployment → Option Value → ValidationGate
gate_for deployment none = no_report
gate_for deployment (some report) = gate_of_report deployment report

unfoldable pub validation_gate : SorxDeployment → DeploymentRegistry → ValidationGate
unfolding no_report gate_of_report latest_validation_report
validation_gate deployment r =
    gate_for deployment (latest_validation_report deployment.deployment_id r)
