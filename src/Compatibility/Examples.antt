-- ===== src/Compatibility/Examples.antt =====
-- One provider, and a pack that requires one capability of it.
use greentic_sorx.Prelude.{[], ◌∷◌, true, none, ◌≡◌, ◌↔◌}
use greentic_sorx.Prelude.Maps.{Map}
use greentic_sorx.Compatibility.Types.{
  ProviderBindingConfig, ProviderCompatibilityInput, ProviderCompatibilityStatus,
  ProviderResolutionMode, no_requirements,
}
use greentic_sorx.Compatibility.Resolve.{resolve_provider_compatibility}
use greentic_sorx.Compatibility.Resolve.Passed.{passed_iff, IsCompatible}

abbrev providers : Map ProviderBindingConfig
providers =
    (
      "store",
      record {
        kind = "memory";
        config_ref = none;
        config = none;
        capabilities = "entity-link" ∷ [];
        contract_version = none;
      },
    )
    ∷ []

abbrev asked : ProviderCompatibilityInput
asked = record no_requirements {
  requires_entity_link = true;
  required_capabilities = "entity-link" ∷ [];
}

passed_iff_example :
    ((resolve_provider_compatibility providers asked ProviderResolutionMode.dry_run).status
      ≡ ProviderCompatibilityStatus.passed)
    ↔ IsCompatible providers asked
passed_iff_example = passed_iff providers asked ProviderResolutionMode.dry_run
