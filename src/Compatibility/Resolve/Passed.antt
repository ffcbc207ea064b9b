-- ===== src/Compatibility/Resolve/Passed.antt =====
-- When the check of the providers passes.
use greentic_sorx.Prelude.{
  [], ◌∷◌, ◌++◌, List, String, Bool, true, false, not, ◌&&◌, ◌≡◌, ◌≢◌, ◌↔◌, refl, map, All,
  All-append, Bool-cases, inl, inr, if◌then◌else◌,
}
use greentic_sorx.Prelude.Sorting.{sort_by, insert_by}
use greentic_sorx.Prelude.Maps.{Map}
use greentic_sorx.Compatibility.Types.{
  ProviderBindingConfig, ProviderCompatibilityInput, ProviderCompatibilityStatus,
  ProviderCompatibilityIssue, ProviderResolutionMode,
}
use greentic_sorx.Compatibility.Resolve.{
  resolve_all, requirements, schema_issues, overall_status, issue_lt, required,
  resolve_provider_compatibility,
}
use greentic_sorx.Compatibility.Resolve.Met.{IsMet, Resolves, met_iff, resolved_iff}

-- What a pack requires is there.
pub record IsCompatible (providers : Map ProviderBindingConfig) (input : ProviderCompatibilityInput)
    : Type 0 where
  pub ontology : input.ontology_present ≡ true → input.ontology_schema_supported ≡ true
  pub retrieval :
      input.retrieval_bindings_present ≡ true → input.retrieval_bindings_schema_supported ≡ true
  pub evidence :
      input.retrieval_bindings_present ≡ true → IsMet providers "ontology-scoped-evidence-query"
  pub entity_link : input.requires_entity_link ≡ true → IsMet providers "entity-link"
  pub listed : All (IsMet providers) input.required_capabilities

module _ {A : Type 0} where
  inserted_some : (lt : A → A → Bool) (x : A) (xs : List A) → insert_by lt x xs ≢ []
  unfolding insert_by
  inserted_some lt x [] h = cc
  inserted_some lt x (y ∷ ys) h = elim (Bool-cases (lt y x)) [
    | inl t ↦ cc (rw t at h)
    | inr f ↦ cc (rw f at h)
  ]

  sorted_iff : (lt : A → A → Bool) (xs : List A) → (sort_by lt xs ≡ []) ↔ (xs ≡ [])
  unfolding sort_by
  sorted_iff lt [] = (λ h. h, λ h. h)
  sorted_iff lt (x ∷ xs) = (λ h. absurd (inserted_some lt x (sort_by lt xs) h), λ h. cc h)

unless_iff :
    {A : Type 0} (present supported : Bool) (x : A)
    → ◌≡◌ {A = List A} (if present && not supported then x ∷ [] else []) []
      ↔ (present ≡ true → supported ≡ true)
unless_iff true true x = (λ h t. refl, λ h. refl)
unless_iff true false x = (λ h. cc h, λ h. cc (h refl))
unless_iff false supported x = (λ h t. cc t, λ h. refl)

append-nil_iff : {A : Type 0} (xs ys : List A) → (xs ++ ys ≡ []) ↔ ((xs ≡ []) × (ys ≡ []))
append-nil_iff [] ys = (λ h. (refl, h), λ h. h.1)
append-nil_iff (x ∷ xs) ys = (λ h. cc h, λ h. cc (h.0))

schema_issues_iff :
    (input : ProviderCompatibilityInput)
    → (schema_issues input ≡ []) ↔ (
        (input.ontology_present ≡ true → input.ontology_schema_supported ≡ true)
        × (input.retrieval_bindings_present ≡ true
            → input.retrieval_bindings_schema_supported ≡ true))
unfolding schema_issues
schema_issues_iff input =
    let both = append-nil_iff _ _ in
    let first = unless_iff input.ontology_present input.ontology_schema_supported _ in
    let second =
      unless_iff input.retrieval_bindings_present input.retrieval_bindings_schema_supported _ in
    (λ h. (first.0 (both.0 h).0, second.0 (both.0 h).1), λ (a, b). both.1 (first.1 a, second.1 b))

module _ {A : Type 0} (P : A → Type 0) where
  All-when : (b : Bool) (x : A) → All P (if b then x ∷ [] else []) ↔ (b ≡ true → P x)
  All-when true x = (λ h t. h.0, λ h. (h refl, tt))
  All-when false x = (λ h t. cc t, λ h. tt)

  All-unappend : (xs ys : List A) → All P (xs ++ ys) → All P xs × All P ys
  All-unappend [] ys h = (tt, h)
  All-unappend (x ∷ xs) ys h = let (front, back) = All-unappend xs ys h.1 in ((h.0, front), back)

module _ (providers : Map ProviderBindingConfig) where
  listed_iff :
      (capabilities : List String)
      → All (Resolves providers) (map (λ c. required c c) capabilities)
        ↔ All (IsMet providers) capabilities
  listed_iff [] = (λ h. tt, λ h. tt)
  listed_iff (c ∷ cs) =
      let first = met_iff providers c c in
      let rest = listed_iff cs in (λ h. (first.0 h.0, rest.0 h.1), λ h. (first.1 h.0, rest.1 h.1))

  optional_iff :
      (b : Bool) (id capability : String)
      → All (Resolves providers) (if b then required id capability ∷ [] else [])
        ↔ (b ≡ true → IsMet providers capability)
  optional_iff b id capability =
      let asked = All-when (Resolves providers) b (required id capability) in
      let met = met_iff providers id capability in
      (λ h t. met.0 (asked.0 h t), λ h. asked.1 (λ t. met.1 (h t)))

  requirements_iff :
      (input : ProviderCompatibilityInput)
      → All (Resolves providers) (requirements input) ↔ (
          (input.retrieval_bindings_present ≡ true
            → IsMet providers "ontology-scoped-evidence-query")
          × ((input.requires_entity_link ≡ true → IsMet providers "entity-link")
              × All (IsMet providers) input.required_capabilities))
  unfolding requirements
  requirements_iff input =
      let evidence =
        optional_iff input.retrieval_bindings_present "evidence.query"
          "ontology-scoped-evidence-query" in
      let link = optional_iff input.requires_entity_link "entity.link" "entity-link" in
      let listed = listed_iff input.required_capabilities in
      (
        λ h.
            let (one, more) = All-unappend (Resolves providers) _ _ h in
            let (two, three) = All-unappend (Resolves providers) _ _ more in
            (evidence.0 one, (link.0 two, listed.0 three)),
        λ (one, (two, three)).
            All-append (Resolves providers) _ _ (evidence.1 one)
              (All-append (Resolves providers) _ _ (link.1 two) (listed.1 three)),
      )

overall_status_iff :
    (issues : List ProviderCompatibilityIssue)
    → (overall_status issues ≡ ProviderCompatibilityStatus.passed) ↔ (issues ≡ [])
unfolding overall_status
overall_status_iff [] = (λ h. refl, λ h. refl)
overall_status_iff (i ∷ issues) = (λ h. cc h, λ h. cc h)

-- The report on the providers passes exactly where the schemas that are present are supported and each
-- capability that the input requires is had by one provider alone, whose contract fits.
pub passed_iff :
    (providers : Map ProviderBindingConfig) (input : ProviderCompatibilityInput)
    (mode : ProviderResolutionMode)
    → ((resolve_provider_compatibility providers input mode).status
        ≡ ProviderCompatibilityStatus.passed)
      ↔ IsCompatible providers input
unfolding resolve_provider_compatibility
passed_iff providers input mode =
    let issues = (resolve_all providers (requirements input) [] (schema_issues input)).1 in
    let status = overall_status_iff (sort_by issue_lt issues) in
    let sorted = sorted_iff issue_lt issues in
    let resolved = resolved_iff providers (requirements input) [] (schema_issues input) in
    let schemas = schema_issues_iff input in
    let required_ones = requirements_iff providers input in
    (
      λ h.
          let (clean, all_there) = resolved.0 (sorted.0 (status.0 h)) in
          let (evidence, (link, listed)) = required_ones.0 all_there in
          record {
            ontology = (schemas.0 clean).0;
            retrieval = (schemas.0 clean).1;
            evidence = evidence;
            entity_link = link;
            listed = listed;
          },
      λ c. status.1 (
          sorted.1 (
            resolved.1 (
              schemas.1 (c.ontology, c.retrieval),
              required_ones.1 (c.evidence, (c.entity_link, c.listed)),
            ))),
    )
