-- ===== src/Webhook/Handler/Outcomes.antt =====
-- What an accepted webhook does, and what a refused one leaves.
use greentic_sorx.Deployment.Operations.Deliveries.{
  push_delivery-Delivered, stays-Delivered, Delivered,
}
use greentic_sorx.Prelude.{List, String, false, ◌≡◌, refl, sym, ap, ◌∙◌, arith, ◌⊎◌, inl, inr}
use greentic_sorx.Prelude.Results.{Result, ok, err, Result-cases}
use greentic_sorx.Prelude.Actions.{◌>>=◌}
use greentic_sorx.Kv.Keys.{Bytes}
use greentic_sorx.Deployment.Types.{
  DeploymentRegistry, DeploymentStatus, DeploymentVisibility, SorxDeployment,
  DeploymentRegistryError,
}
use greentic_sorx.Deployment.Operations.{Operation, perform_all}
use greentic_sorx.Deployment.Create.{add_deployment, new_deployment}
use greentic_sorx.Deployment.Create.Laws.{create_cases, made}
use greentic_sorx.Deployment.Registry.{has_webhook_delivery, record_webhook_delivery, push_delivery}
use greentic_sorx.Webhook.Types.{
  GhcrWebhookConfig, GhcrPublishedMetadata, GithubWebhookHeaders, ResolvedOciArtifact,
  GhcrWebhookOutcome, GhcrWebhookError, WebhookHost,
}
use greentic_sorx.Webhook.Handler.{
  admit, request_of, outcome_of, on_registry, handle_ghcr_published_webhook,
}
use greentic_sorx.Webhook.Handler.Admitted.{IsAdmitted, admit-IsAdmitted}

recorded :
    (id : String) (r : DeploymentRegistry)
    → has_webhook_delivery id r ≡ false
    → record_webhook_delivery id r ≡ (ok tt, push_delivery id r)
unfolding record_webhook_delivery ◌>>=◌
recorded id r fresh = rw fresh refl

still_fresh :
    (id : String) (d : SorxDeployment) (r : DeploymentRegistry)
    → has_webhook_delivery id r ≡ false
    → has_webhook_delivery id (add_deployment d r) ≡ false
unfolding has_webhook_delivery add_deployment
still_fresh id d r fresh = fresh

as_webhook_error : DeploymentRegistryError → GhcrWebhookError
as_webhook_error e = record { code = e.code; message = e.message }

module _ (host : WebhookHost) (config : GhcrWebhookConfig) (headers : GithubWebhookHeaders)
    (body secret : Bytes) where
  -- The deployment that an admitted call creates.
  abbrev pub published :
      GhcrPublishedMetadata → ResolvedOciArtifact → DeploymentRegistry → SorxDeployment
  published m resolved r = made (request_of config m resolved) r

  pub IsAccepted : DeploymentRegistry → Type 0
  IsAccepted r =
      (m : GhcrPublishedMetadata) × ((resolved : ResolvedOciArtifact) × IsAdmitted host config
          headers body secret r m resolved
        × (handle_ghcr_published_webhook host config headers body secret r ≡ (
          ok (outcome_of config headers.delivery m resolved (published m resolved r)),
          push_delivery headers.delivery (add_deployment (published m resolved r) r),
        )))

  pub handle_cases :
      (r : DeploymentRegistry)
      → ((e : GhcrWebhookError) × (handle_ghcr_published_webhook host config headers body secret r
            ≡ (err e, r)))
        ⊎ IsAccepted r
  unfolding handle_ghcr_published_webhook ◌>>=◌ IsAccepted on_registry as_webhook_error
  handle_cases r = elim (Result-cases (admit host config headers body secret r)) [
    | inr (e, refused) ↦ inl (e, rw refused refl)
    | inl ((m, resolved), is) ↦
        let admitted = admit-IsAdmitted host config headers body secret r m resolved is in
        elim (create_cases (request_of config m resolved) r) [
          | inr (e, kept) ↦ inl (as_webhook_error e, rw (is, kept) refl)
          | inl a ↦ inr (
            m,
            (
              resolved,
              admitted,
              rw
                  (
                    is,
                    a.written,
                    recorded headers.delivery (add_deployment (published m resolved r) r)
                        (still_fresh headers.delivery (published m resolved r) r admitted.fresh),
                  )
                  refl,
            ),
          )
        ]
  ]

  rejected_where-Delivered :
      (r : DeploymentRegistry)
      → Delivered headers.delivery r
      → (e : GhcrWebhookError) × (handle_ghcr_published_webhook host config headers body secret r
          ≡ (err e, r))
  unfolding IsAccepted has_webhook_delivery
  rejected_where-Delivered r seen = elim (handle_cases r) [
    | inl refused ↦ refused
    | inr (m, (resolved, admitted, accepted)) ↦ absurd (ground (arith, seen, admitted.fresh))
  ]

  -- A webhook that is refused leaves the registry as it was, and one that is accepted has passed every check,
  -- creates the one deployment of its metadata, pending and private, and records the delivery.
  pub handle_outcomes :
      (r : DeploymentRegistry) (result : Result GhcrWebhookError GhcrWebhookOutcome)
      (after : DeploymentRegistry)
      → handle_ghcr_published_webhook host config headers body secret r ≡ (result, after)
      → ((e : GhcrWebhookError) × (result ≡ err e) × (after ≡ r))
        ⊎ ((m : GhcrPublishedMetadata) × ((resolved : ResolvedOciArtifact) × IsAdmitted host config
                headers body secret r m resolved
              × (result
                  ≡ ok (outcome_of config headers.delivery m resolved (published m resolved r)))
              × (after ≡ push_delivery headers.delivery (add_deployment (published m resolved r) r))
              × ((published m resolved r).status ≡ DeploymentStatus.pending)
              × ((published m resolved r).visibility ≡ DeploymentVisibility.private)))
  unfolding IsAccepted new_deployment request_of
  handle_outcomes r result after is = elim (handle_cases r) [
    | inl (e, refused) ↦ inl (e, ap (λ x. x.0) (sym is ∙ refused), ap (λ x. x.1) (sym is ∙ refused))
    | inr (m, (resolved, admitted, accepted)) ↦ inr (
      m,
      (
        resolved,
        admitted,
        ap (λ x. x.0) (sym is ∙ accepted),
        ap (λ x. x.1) (sym is ∙ accepted),
        refl,
        refl,
      ),
    )
  ]

module _ (host : WebhookHost) (config : GhcrWebhookConfig) (headers : GithubWebhookHeaders)
    (body secret : Bytes) where
  accepted-Delivered :
      (r : DeploymentRegistry) (outcome : GhcrWebhookOutcome)
      → (handle_ghcr_published_webhook host config headers body secret r).0 ≡ ok outcome
      → Delivered headers.delivery
          (handle_ghcr_published_webhook host config headers body secret r).1
  unfolding IsAccepted
  accepted-Delivered r outcome done = elim (handle_cases host config headers body secret r) [
    | inl (e, refused) ↦ absurd (ground (arith, ap (λ x. x.0) (sym refused) ∙ done))
    | inr (m, (resolved, admitted, accepted)) ↦ rw accepted (
        push_delivery-Delivered headers.delivery
          (add_deployment (published host config headers body secret m resolved r) r))
  ]

  -- After a webhook was accepted, and whatever public methods of the registry are called then, a webhook with
  -- the same delivery id is refused and leaves the registry as it is.
  pub handle_once :
      (r : DeploymentRegistry) (outcome : GhcrWebhookOutcome) (calls : List Operation)
      → (handle_ghcr_published_webhook host config headers body secret r).0 ≡ ok outcome
      → (again : GithubWebhookHeaders) (other secret' : Bytes) → again.delivery ≡ headers.delivery
      → (e : GhcrWebhookError) × (handle_ghcr_published_webhook host config again other secret'
            (perform_all calls (handle_ghcr_published_webhook host config headers body secret r).1)
          ≡ (
            err e,
            perform_all calls (handle_ghcr_published_webhook host config headers body secret r).1,
          ))
  handle_once r outcome calls done again other secret' same =
      rejected_where-Delivered host config again other secret' _
        (rw same (stays-Delivered headers.delivery calls _ (accepted-Delivered r outcome done)))
