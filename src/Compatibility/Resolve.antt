-- ===== src/Compatibility/Resolve.antt =====
-- crates/greentic-sorx-core/src/provider_compatibility.rs: the resolution of the requirements. Of the
-- configuration it reads the map of providers.
pub mod Met
pub mod Passed
use greentic_sorx.Compatibility.Types.{failed}
use greentic_sorx.Compatibility.Types.{incompatible_contract_version}
use greentic_sorx.Compatibility.Types.{unsupported_retrieval_binding_schema}
use greentic_sorx.Compatibility.Types.{ProviderCompatibilityReport}
use greentic_sorx.Compatibility.Types.{ProviderCompatibilityStatus}
use greentic_sorx.Compatibility.Types.{missing_provider}
use greentic_sorx.Compatibility.Types.{missing_capability}
use greentic_sorx.Compatibility.Types.{ambiguous_provider}
use greentic_sorx.Compatibility.Types.{ProviderResolutionMode}
use greentic_sorx.Compatibility.Types.{unsupported_ontology_schema}
use greentic_sorx.Compatibility.Types.{ProviderBindingConfig}
use greentic_sorx.Compatibility.Types.{ProviderCapabilityRequirement}
use greentic_sorx.Compatibility.Types.{ProviderCompatibilityIssueCategory}
use greentic_sorx.Compatibility.Types.{ProviderCompatibilityIssue}
use greentic_sorx.Compatibility.Types.{ProviderCompatibilityInput}
use greentic_sorx.Compatibility.Types.{ResolvedProviderBinding}
use greentic_sorx.Prelude.{
  [], ◌∷◌, ◌++◌, List, String, Bool, true, Option, none, some, not, ◌==◌, ◌&&◌, ◌||◌, any, retain,
  map, text_lt, if◌then◌else◌,
}
use greentic_sorx.Prelude.Text.{◌+++◌}
use greentic_sorx.Prelude.Maps
use greentic_sorx.Prelude.Maps.{Map}
use greentic_sorx.Prelude.Sorting.{sort_by}
use greentic_sorx.Prelude.Results.{Result, ok, err, ◌>>◌, reject_if}
use greentic_sorx.Runtime.Command.Paths.{starts_with}
use greentic_sorx.Compatibility.Types.{passed}

abbrev issue : ProviderCompatibilityIssueCategory → String → String → ProviderCompatibilityIssue
issue category requirement message = record {
  category = category;
  requirement = requirement;
  message = message;
}

unfoldable pub issue_category_name : ProviderCompatibilityIssueCategory → String
issue_category_name missing_provider = "missing_provider"
issue_category_name missing_capability = "missing_capability"
issue_category_name incompatible_contract_version = "incompatible_contract_version"
issue_category_name unsupported_ontology_schema = "unsupported_ontology_schema"
issue_category_name unsupported_retrieval_binding_schema = "unsupported_retrieval_binding_schema"
issue_category_name ambiguous_provider = "ambiguous_provider"

-- `provider.capabilities.contains(&capability)`
unfoldable pub exposes : String → ProviderBindingConfig → Bool
exposes capability provider = any (λ c. c == capability) provider.capabilities

unfoldable pub is_compatible : Option String → Bool
is_compatible none = true
is_compatible (some version) = starts_with version "greentic.sorx.provider.v1" || version == "1"

contract_text : Option String → String
contract_text none = ""
contract_text (some version) = version

unfoldable pub provider_binding :
    String
    → ProviderBindingConfig
    → ProviderCapabilityRequirement
    → Result ProviderCompatibilityIssue ResolvedProviderBinding
unfolding contract_text
provider_binding provider_id provider requirement = do
  reject_if (not (exposes requirement.capability provider)) (
      issue missing_capability requirement.id (
        "provider `" +++ provider_id +++ "` does not expose capability `" +++ requirement.capability
        +++ "`"))
  reject_if (not (is_compatible provider.contract_version)) (
      issue incompatible_contract_version requirement.id (
        "provider `"
        +++ provider_id
        +++ "` has incompatible contract `"
        +++ contract_text provider.contract_version
        +++ "`"))
  ok (record {
    requirement = requirement.id;
    provider_id = provider_id;
    capabilities = provider.capabilities;
  })

-- The category of a requirement that no provider meets.
absent_category : Map ProviderBindingConfig → ProviderCompatibilityIssueCategory
absent_category [] = missing_provider
absent_category (p ∷ providers) = missing_capability

-- The choice among the providers that have the capability.
unfoldable pub sole_binding :
    Map ProviderBindingConfig
    → Map ProviderBindingConfig
    → ProviderCapabilityRequirement
    → Result ProviderCompatibilityIssue ResolvedProviderBinding
unfolding absent_category
sole_binding providers [] requirement = err (
    issue (absent_category providers) requirement.id
      ("no configured provider exposes capability `" +++ requirement.capability +++ "`"))
sole_binding providers ((provider_id, provider) ∷ []) requirement =
    provider_binding provider_id provider requirement
sole_binding providers (p ∷ q ∷ more) requirement = err (
    issue ambiguous_provider requirement.id
      ("multiple providers expose capability `" +++ requirement.capability +++ "`"))

unfoldable pub resolve_requirement :
    Map ProviderBindingConfig
    → ProviderCapabilityRequirement
    → Result ProviderCompatibilityIssue ResolvedProviderBinding
resolve_requirement providers requirement = elim requirement.provider_id [
  | some provider_id ↦ elim (Maps.get provider_id providers) [
    | none ↦ err (
        issue missing_provider requirement.id
          ("provider `" +++ provider_id +++ "` is not configured"))
    | some provider ↦ provider_binding provider_id provider requirement
  ]
  | none ↦
      sole_binding providers (retain (λ p. exposes requirement.capability p.1) providers)
        requirement
]

abbrev required : String → String → ProviderCapabilityRequirement
required id capability = record { id = id; capability = capability; provider_id = none }

unfoldable pub schema_issues : ProviderCompatibilityInput → List ProviderCompatibilityIssue
schema_issues input =
    (if input.ontology_present && not input.ontology_schema_supported
      then issue unsupported_ontology_schema "ontology.schema"
          "ontology graph schema is not supported"
        ∷ []
      else [])
    ++ (if input.retrieval_bindings_present && not input.retrieval_bindings_schema_supported
        then issue unsupported_retrieval_binding_schema "retrieval_bindings.schema"
            "retrieval binding schema is not supported"
          ∷ []
        else [])

unfoldable pub requirements : ProviderCompatibilityInput → List ProviderCapabilityRequirement
requirements input =
    (if input.retrieval_bindings_present
      then required "evidence.query" "ontology-scoped-evidence-query" ∷ []
      else [])
    ++ ((if input.requires_entity_link then required "entity.link" "entity-link" ∷ [] else [])
        ++ map (λ capability. required capability capability) input.required_capabilities)

-- The loop over the requirements.
unfoldable pub resolve_all :
    Map ProviderBindingConfig
    → List ProviderCapabilityRequirement
    → List ResolvedProviderBinding
    → List ProviderCompatibilityIssue
    → List ResolvedProviderBinding × List ProviderCompatibilityIssue
resolve_all providers [] bindings issues = (bindings, issues)
resolve_all providers (r ∷ rs) bindings issues = elim (resolve_requirement providers r) [
  | ok binding ↦ resolve_all providers rs (bindings ++ binding ∷ []) issues
  | err failure ↦ resolve_all providers rs bindings (issues ++ failure ∷ [])
]

binding_lt : ResolvedProviderBinding → ResolvedProviderBinding → Bool
binding_lt left right = text_lt left.requirement right.requirement

issue_lt : ProviderCompatibilityIssue → ProviderCompatibilityIssue → Bool
issue_lt left right =
    let l = issue_category_name left.category in
    let r = issue_category_name right.category in
    text_lt left.requirement right.requirement
    || left.requirement == right.requirement
      && (text_lt l r || l == r && text_lt left.message right.message)

overall_status : List ProviderCompatibilityIssue → ProviderCompatibilityStatus
overall_status [] = passed
overall_status (i ∷ issues) = failed

unfoldable pub resolve_provider_compatibility :
    Map ProviderBindingConfig
    → ProviderCompatibilityInput
    → ProviderResolutionMode
    → ProviderCompatibilityReport
unfolding binding_lt issue_lt overall_status
resolve_provider_compatibility providers input mode =
    let (bindings, issues) = resolve_all providers (requirements input) [] (schema_issues input) in
    let sorted = sort_by issue_lt issues in
    record {
      status = overall_status sorted;
      bindings = sort_by binding_lt bindings;
      issues = sorted;
    }
