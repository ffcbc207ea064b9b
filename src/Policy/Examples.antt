-- ===== src/Policy/Examples.antt =====
-- The laws of the policy engine at concrete configurations.
use greentic_sorx.Policy.Ontology.Laws.{redactions_iff}
use greentic_sorx.Prelude.{false, ◌↔◌, ◌≡◌, true, [], ◌∷◌}
use greentic_sorx.Policy.Ontology.{
  has_role, is_sensitive, OntologyPolicyAction, OntologyPolicyResource, SensitivityContext,
  OntologyPolicySubject, decide_ontology,
}

abbrev clerk : OntologyPolicySubject
clerk = record { subject = "clerk"; roles = "action_executor" ∷ [] }

abbrev sample_context : SensitivityContext
sample_context = record {
  sensitive_fields = ("Tenant", "birthday" ∷ []) ∷ [];
  denied_relationships = [];
  evidence_requires_approval = true;
}

redactions_iff_example :
    ((decide_ontology clerk
        (OntologyPolicyResource.field "Tenant" "birthday")
        OntologyPolicyAction.read
        sample_context).redactions
      ≡ record { entity_type = "Tenant"; field = "birthday" } ∷ [])
    ↔ ((OntologyPolicyResource.field "Tenant" "birthday"
          ≡ OntologyPolicyResource.field "Tenant" "birthday")
        × (OntologyPolicyAction.read ≡ OntologyPolicyAction.read)
        × (is_sensitive "Tenant" "birthday" sample_context ≡ true)
        × (has_role "pii_reader" clerk ≡ false))
redactions_iff_example =
    redactions_iff clerk (OntologyPolicyResource.field "Tenant" "birthday")
      OntologyPolicyAction.read sample_context "Tenant" "birthday"
