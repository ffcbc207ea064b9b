-- ===== src/Policy/Ontology.antt =====
-- crates/greentic-sorx-core/src/policy.rs: `decide_ontology`.
pub mod Laws
use greentic_sorx.Prelude.{
  none, some, false, not, ◌==◌, Option, ◌&&◌, any, List, String, if◌then◌else◌, Bool, [], ◌∷◌,
}
use greentic_sorx.Prelude.Text.{◌+++◌}
use greentic_sorx.Prelude.Maps
use greentic_sorx.Prelude.Maps.{Map, Set, contains}

pub record OntologyPolicySubject : Type 0 where
  pub subject : String
  pub roles : List String

pub data OntologyPolicyResource : Type 0 where
  concept : (name : String) → OntologyPolicyResource
  entity : (entity_type entity_id : String) → OntologyPolicyResource
  field : (entity_type name : String) → OntologyPolicyResource
  relationship : (name : String) → OntologyPolicyResource
  evidence : (entity_type entity_id : String) → OntologyPolicyResource
  action : (endpoint_id : String) → OntologyPolicyResource
  external_reference : (reference : String) → OntologyPolicyResource

pub data OntologyPolicyAction : Type 0 where
  read traverse retrieve_evidence invoke execute resolve : OntologyPolicyAction

pub data OntologyPolicyDecisionKind : Type 0 where
  allow deny requires_approval : OntologyPolicyDecisionKind

pub record OntologyPolicyReason : Type 0 where
  pub code : String
  pub message : String

pub record OntologyPolicyRedaction : Type 0 where
  pub entity_type : String
  pub field : String

pub record OntologyPolicyDecision : Type 0 where
  pub decision : OntologyPolicyDecisionKind
  pub reasons : List OntologyPolicyReason
  pub redactions : List OntologyPolicyRedaction

pub record SensitivityContext : Type 0 where
  pub sensitive_fields : Map Set
  pub denied_relationships : Set
  pub evidence_requires_approval : Bool

abbrev pub has_role : String → OntologyPolicySubject → Bool
has_role role subject = any (λ r. r == role) subject.roles

abbrev has_field : String → Option Set → Bool
has_field name none = false
has_field name (some names) = contains name names

unfoldable pub is_sensitive : String → String → SensitivityContext → Bool
is_sensitive entity_type name s = has_field name (Maps.get entity_type s.sensitive_fields)

allowed : OntologyPolicyDecision
allowed = record { decision = allow; reasons = []; redactions = [] }

pii_denied : String → String → OntologyPolicyDecision
pii_denied entity_type name = record {
  decision = deny;
  reasons =
      record {
        code = "pii_requires_policy";
        message = entity_type +++ "." +++ name +++ " is marked as sensitive";
      }
      ∷ [];
  redactions = record { entity_type = entity_type; field = name } ∷ [];
}

traversal_denied : String → OntologyPolicyDecision
traversal_denied name = record {
  decision = deny;
  reasons =
      record {
        code = "relationship_traversal_denied";
        message = "relationship `" +++ name +++ "` traversal is denied";
      }
      ∷ [];
  redactions = [];
}

needs_approval : String → String → OntologyPolicyDecision
needs_approval code message = record {
  decision = requires_approval;
  reasons = record { code = code; message = message } ∷ [];
  redactions = [];
}

unfoldable pub decide_ontology :
    OntologyPolicySubject
    → OntologyPolicyResource
    → OntologyPolicyAction
    → SensitivityContext
    → OntologyPolicyDecision
unfolding allowed pii_denied traversal_denied needs_approval
decide_ontology subject (field entity_type name) read s =
    if is_sensitive entity_type name s && not (has_role "pii_reader" subject)
    then pii_denied entity_type name
    else allowed
decide_ontology subject (relationship name) traverse s =
    if contains name s.denied_relationships then traversal_denied name else allowed
decide_ontology subject (evidence entity_type entity_id) retrieve_evidence s =
    if s.evidence_requires_approval
    then needs_approval "evidence_requires_approval" "evidence retrieval requires approval"
    else allowed
decide_ontology subject (action endpoint_id) execute s =
    if not (has_role "action_executor" subject)
    then needs_approval "action_requires_approval" "side-effectful action requires approval"
    else allowed
decide_ontology subject resource act s = allowed
