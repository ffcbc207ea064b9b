-- ===== src/Compatibility/Resolve/Met.antt =====
-- The capabilities that are resolved to a binding.
use greentic_sorx.Prelude.{All-by_Memᴰ}
use greentic_sorx.Prelude.{
  [], ◌∷◌, ◌++◌, List, String, true, ◌≡◌, ◌≢◌, ◌↔◌, refl, arith, retain, mem-retain, All,
  Bool-cases, inl, inr,
}
use greentic_sorx.Prelude.Results.{ok, Result-cases}
use greentic_sorx.Prelude.Maps.{Map}
use greentic_sorx.Compatibility.Types.{
  ProviderBindingConfig, ProviderCapabilityRequirement, ProviderCompatibilityIssue,
  ResolvedProviderBinding,
}
use greentic_sorx.Compatibility.Resolve.{
  exposes, is_compatible, sole_binding, provider_binding, resolve_requirement, resolve_all,
  required,
}

-- One provider alone has the capability, and a contract that fits.
pub IsMet : Map ProviderBindingConfig → String → Type 0
IsMet providers capability =
    (id : String) × ((provider : ProviderBindingConfig) × (retain (λ p. exposes capability p.1)
          providers
        ≡ (id, provider) ∷ [])
      × (is_compatible provider.contract_version ≡ true))

unfoldable pub Resolves : Map ProviderBindingConfig → ProviderCapabilityRequirement → Type 0
Resolves providers r =
    (binding : ResolvedProviderBinding) × (resolve_requirement providers r ≡ ok binding)

provider_binding_iff :
    (id : String) (provider : ProviderBindingConfig) (r : ProviderCapabilityRequirement)
    → exposes r.capability provider ≡ true
    → ((b : ResolvedProviderBinding) × (provider_binding id provider r ≡ ok b))
      ↔ (is_compatible provider.contract_version ≡ true)
unfolding provider_binding
provider_binding_iff id provider r there =
    elim (Bool-cases (is_compatible provider.contract_version)) [
      | inl fits ↦ (
        λ h. fits,
        λ h. (
          record { requirement = r.id; provider_id = id; capabilities = provider.capabilities },
          rw (there, fits) refl,
        ),
      )
      | inr not_fits ↦ (
        λ (b, done). absurd (cc (rw (there, not_fits) at done)),
        λ h. absurd (ground (arith, h, not_fits)),
      )
    ]

appended_some : {A : Type 0} (xs : List A) (x : A) → (xs ++ x ∷ []) ≢ []
appended_some [] x h = cc
appended_some (y ∷ xs) x h = cc

-- Among the providers that have the capability.
sole_iff :
    (providers matches : Map ProviderBindingConfig) (r : ProviderCapabilityRequirement)
    → All (λ p. exposes r.capability p.1 ≡ true) matches
    → ((b : ResolvedProviderBinding) × (sole_binding providers matches r ≡ ok b)) ↔ (
        (id : String) × ((provider : ProviderBindingConfig) × (matches ≡ (id, provider) ∷ [])
          × (is_compatible provider.contract_version ≡ true)))
unfolding sole_binding
sole_iff providers [] r there = (λ (b, done). cc done, λ (id, (provider, same, fits)). cc same)
sole_iff providers ((id, provider) ∷ []) r there =
    let met = provider_binding_iff id provider r there.0 in
    (
      λ done. (id, (provider, refl, met.0 done)),
      λ (jd, (other, same, fits)). met.1 (let is : other ≡ provider = cc in rw is at fits),
    )
sole_iff providers (p ∷ q ∷ more) r there =
    (λ (b, done). cc done, λ (id, (provider, same, fits)). cc same)

pub met_iff :
    (providers : Map ProviderBindingConfig) (id capability : String)
    → Resolves providers (required id capability) ↔ IsMet providers capability
unfolding Resolves IsMet resolve_requirement
met_iff providers id capability =
    sole_iff providers (retain (λ p. exposes capability p.1) providers) (required id capability) (
      All-by_Memᴰ (λ p. exposes capability p.1 ≡ true)
        (retain (λ p. exposes capability p.1) providers)
        (λ p member. (mem-retain (λ q. exposes capability q.1) providers member).1))

pub resolved_iff :
    (providers : Map ProviderBindingConfig) (rs : List ProviderCapabilityRequirement)
    (bs : List ResolvedProviderBinding) (issues : List ProviderCompatibilityIssue)
    → ((resolve_all providers rs bs issues).1 ≡ []) ↔ ((issues ≡ []) × All (Resolves providers) rs)
unfolding resolve_all Resolves
resolved_iff providers [] bs issues = (λ h. (h, tt), λ h. h.0)
resolved_iff providers (r ∷ rs) bs issues = elim (Result-cases (resolve_requirement providers r)) [
  | inl (b, is) ↦
      let more = resolved_iff providers rs (bs ++ b ∷ []) issues in
      rw (is, resolve_all)
        (
          λ h. let (none_yet, others) = more.0 h in (none_yet, ((b, refl), others)),
          λ (none_yet, (first, others)). more.1 (none_yet, others),
        )
  | inr (e, refused) ↦
      let more = resolved_iff providers rs bs (issues ++ e ∷ []) in
      rw (refused, resolve_all)
        (λ h. absurd (appended_some issues e (more.0 h).0), λ (none_yet, ((b, is), others)). cc is)
]
