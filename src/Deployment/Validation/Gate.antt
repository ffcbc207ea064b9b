-- ===== src/Deployment/Validation/Gate.antt =====
-- What a validation report has to say before a deployment may be promoted.
use greentic_sorx.Prelude.{
  ◌≡◌, sym, ◌∙◌, ap, Bool, true, ◌||◌, none, some, arith, ◌==◌, all, Option-cases, inl, inr, ◌⊎◌,
  ◌↔◌, and-eq-true, or-eq-true,
}
use greentic_sorx.Deployment.Validation.Latest.{IsLatest, IsLatest-iff, is_text-eq, is_text_self}
use greentic_sorx.Json.{Value, string_field}
use greentic_sorx.Deployment.Types.{SorxDeployment, DeploymentRegistry}
use greentic_sorx.Deployment.Validation.{
  is_text, flag, latest_validation_report, report_digest, ontology_promotion_gates, validation_gate,
  gate_of_report, gate_for, no_report,
}

-- The latest report on the deployment, of the very pack, with the result "pass".
pub record HasPassed (d : SorxDeployment) (r : DeploymentRegistry) : Type 0 where
  pub report : Value
  pub latest : IsLatest d.deployment_id r report
  pub digest : report_digest report ≡ some d.pack_digest
  pub result : string_field "result" report ≡ some "pass"

-- The report also allows public exposure, and each of its ontology gates has passed, unless the
-- local operator overrides them.
pub record IsPublishable (d : SorxDeployment) (r : DeploymentRegistry) : Type 0 where
  pub passed : HasPassed d r
  pub exposure : flag "public_exposure_allowed" passed.report ≡ true
  pub ontology :
      (all (λ g. g.status == "passed") (ontology_promotion_gates passed.report) ≡ true)
      ⊎ (flag "local_operator_policy_override" passed.report ≡ true)

gate_at :
    (d : SorxDeployment) (r : DeploymentRegistry) (report : Value)
    → latest_validation_report d.deployment_id r ≡ some report
    → validation_gate d r ≡ gate_of_report d report
unfolding validation_gate
gate_at d r report e = ap (gate_for d) e

gate_missing :
    (d : SorxDeployment) (r : DeploymentRegistry)
    → latest_validation_report d.deployment_id r ≡ none
    → validation_gate d r ≡ no_report
unfolding validation_gate
gate_missing d r e = ap (gate_for d) e

pub private_ok_sound :
    (d : SorxDeployment) (r : DeploymentRegistry)
    → (validation_gate d r).private_ok ≡ true
    → HasPassed d r
unfolding gate_of_report no_report
private_ok_sound d r h = elim (Option-cases (latest_validation_report d.deployment_id r)) [
  | inl missing ↦ cc (ap (λ g. g.private_ok) (gate_missing d r missing))
  | inr (report, latest) ↦
      let h' : (gate_of_report d report).private_ok ≡ true =
        sym (ap (λ g. g.private_ok) (gate_at d r report latest)) ∙ h in
      let (digest, result) = and-eq-true (is_text d.pack_digest (report_digest report)) _ h' in
      record {
        report = report;
        latest = (IsLatest-iff d.deployment_id r report).0 latest;
        digest = is_text-eq d.pack_digest _ digest;
        result = is_text-eq "pass" _ result;
      }
]

pub private_ok_complete :
    (d : SorxDeployment) (r : DeploymentRegistry)
    → HasPassed d r
    → (validation_gate d r).private_ok ≡ true
unfolding gate_of_report
private_ok_complete d r h =
    ap (λ g. g.private_ok)
      (gate_at d r h.report ((IsLatest-iff d.deployment_id r h.report).1 h.latest))
    ∙ rw (h.digest, h.result, is_text_self d.pack_digest) (is_text_self "pass")

-- The gate for a public promotion is open exactly where the deployment is publishable.
pub gate-ok_iff :
    (d : SorxDeployment) (r : DeploymentRegistry)
    → ((validation_gate d r).ok ≡ true) ↔ IsPublishable d r
unfolding gate_of_report no_report
gate-ok_iff d r = (forth, back)
  where
    forth : (validation_gate d r).ok ≡ true → IsPublishable d r
    forth h = elim (Option-cases (latest_validation_report d.deployment_id r)) [
      | inl missing ↦ cc (ap (λ g. g.ok) (gate_missing d r missing))
      | inr (report, latest) ↦
          let h' : (gate_of_report d report).ok ≡ true =
            sym (ap (λ g. g.ok) (gate_at d r report latest)) ∙ h in
          let (front, ontology) = and-eq-true _ _ h' in
          let (private_ok, exposure) = and-eq-true _ _ front in
          let (digest, result) =
            and-eq-true (is_text d.pack_digest (report_digest report)) _ private_ok in
          record {
            passed = record {
              report = report;
              latest = (IsLatest-iff d.deployment_id r report).0 latest;
              digest = is_text-eq d.pack_digest _ digest;
              result = is_text-eq "pass" _ result;
            };
            exposure = exposure;
            ontology = or-eq-true _ _ ontology;
          }
    ]

    either : (a b : Bool) → (a ≡ true) ⊎ (b ≡ true) → (a || b) ≡ true
    either a b h = ground arith

    back : IsPublishable d r → (validation_gate d r).ok ≡ true
    back h =
        ap (λ g. g.ok)
          (gate_at d r h.passed.report
            ((IsLatest-iff d.deployment_id r h.passed.report).1 h.passed.latest))
        ∙ rw
            (
              h.passed.digest,
              h.passed.result,
              is_text_self d.pack_digest,
              is_text_self "pass",
              h.exposure,
            )
            (either _ _ h.ontology)
