-- ===== src/Policy/Ontology/Laws.antt =====
-- What `decide_ontology` keeps from whom.
use greentic_sorx.Prelude.{◌∷◌, arith, ◌↔◌, true, ◌≡◌, []}
use greentic_sorx.Policy.Ontology.{
  false, is_sensitive, read, allow, SensitivityContext, OntologyPolicyAction, has_role, String,
  OntologyPolicyResource, decide_ontology, OntologyPolicySubject,
}

-- The roles of one subject are among those of another.
abbrev pub HasRolesOf : OntologyPolicySubject → OntologyPolicySubject → Type 0
HasRolesOf more less = (role : String) → has_role role less ≡ true → has_role role more ≡ true

-- What a subject is allowed, a subject that has at least its roles is allowed too.
pub decide_ontology-more_roles :
    (less more : OntologyPolicySubject) (resource : OntologyPolicyResource)
    (act : OntologyPolicyAction) (s : SensitivityContext)
    → HasRolesOf more less
    → (decide_ontology less resource act s).decision ≡ allow
    → (decide_ontology more resource act s).decision ≡ allow
unfolding decide_ontology
decide_ontology-more_roles less more resource act s h allowed_less =
    ground (arith, h "pii_reader", h "action_executor")

-- A field is redacted exactly where the request is to read it, it is sensitive, and the subject is no
-- reader of personal data.
pub redactions_iff :
    (subject : OntologyPolicySubject) (resource : OntologyPolicyResource)
    (act : OntologyPolicyAction) (s : SensitivityContext) (entity_type name : String)
    → ((decide_ontology subject resource act s).redactions
        ≡ record { entity_type = entity_type; field = name } ∷ [])
      ↔ ((resource ≡ OntologyPolicyResource.field entity_type name)
          × (act ≡ read)
          × (is_sensitive entity_type name s ≡ true)
          × (has_role "pii_reader" subject ≡ false))
unfolding decide_ontology
redactions_iff subject resource act s entity_type name = ground arith
