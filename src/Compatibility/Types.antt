-- ===== src/Compatibility/Types.antt =====
-- crates/greentic-sorx-core/src/provider_compatibility.rs: the requirements and the report, and the
-- provider of startup.rs.
use greentic_sorx.Prelude.{[], List, String, Bool, true, false, Option}
use greentic_sorx.Json.{Value}

pub record ProviderBindingConfig : Type 0 where
  pub kind : String
  pub config_ref : Option String
  pub config : Option Value
  pub capabilities : List String
  pub contract_version : Option String

pub record ProviderCapabilityRequirement : Type 0 where
  pub id : String
  pub capability : String
  pub provider_id : Option String

pub record ResolvedProviderBinding : Type 0 where
  pub requirement : String
  pub provider_id : String
  pub capabilities : List String

pub data ProviderCompatibilityStatus : Type 0 where
  passed failed : ProviderCompatibilityStatus

pub data ProviderCompatibilityIssueCategory : Type 0 where
  missing_provider missing_capability incompatible_contract_version unsupported_ontology_schema
        unsupported_retrieval_binding_schema ambiguous_provider :
      ProviderCompatibilityIssueCategory

pub record ProviderCompatibilityIssue : Type 0 where
  pub category : ProviderCompatibilityIssueCategory
  pub requirement : String
  pub message : String

pub record ProviderCompatibilityReport : Type 0 where
  pub status : ProviderCompatibilityStatus
  pub bindings : List ResolvedProviderBinding
  pub issues : List ProviderCompatibilityIssue

pub data ProviderResolutionMode : Type 0 where
  dry_run runtime_startup : ProviderResolutionMode

pub record ProviderCompatibilityInput : Type 0 where
  pub ontology_present : Bool
  pub ontology_schema_supported : Bool
  pub retrieval_bindings_present : Bool
  pub retrieval_bindings_schema_supported : Bool
  pub requires_entity_link : Bool
  pub required_capabilities : List String

-- `ProviderCompatibilityInput::none`
abbrev pub no_requirements : ProviderCompatibilityInput
no_requirements = record {
  ontology_present = false;
  ontology_schema_supported = true;
  retrieval_bindings_present = false;
  retrieval_bindings_schema_supported = true;
  requires_entity_link = false;
  required_capabilities = [];
}
