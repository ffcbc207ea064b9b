-- ===== src/Webhook/Handler/Admitted.antt =====
-- What an admitted webhook has passed.
use greentic_sorx.Prelude.{Bool, true, false, not, ◌==◌, ◌&&◌, ◌||◌, any, ◌≡◌, refl, ap, arith}
use greentic_sorx.Prelude.Results.{ok, reject_if, same_ok, >>=-eq-ok}
use greentic_sorx.Prelude.Text.{is_empty, trim}
use greentic_sorx.Kv.Keys.{Bytes}
use greentic_sorx.Deployment.Types.{DeploymentRegistry}
use greentic_sorx.Deployment.Registry.{has_webhook_delivery}
use greentic_sorx.Webhook.Types.{
  GhcrWebhookConfig, GhcrPublishedMetadata, GithubWebhookHeaders, ResolvedOciArtifact, WebhookHost,
}
use greentic_sorx.Webhook.Signature.{verify_github_signature}
use greentic_sorx.Webhook.Handler.{
  admit, validate_metadata, parse_ghcr_published_metadata, starts_with, trim_start_matches,
}

-- What the configuration trusts.
pub record IsTrusted (config : GhcrWebhookConfig) (m : GhcrPublishedMetadata) : Type 0 where
  pub successful : (m.conclusion == "success") ≡ true
  pub repository : any (λ r. r == m.repository) config.allowed_repositories ≡ true
  pub workflow : any (λ w. w == m.workflow) config.allowed_workflows ≡ true
  pub environment : any (λ e. e == m.environment) config.allowed_environments ≡ true
  pub prefix :
      any (starts_with (trim_start_matches "oci://" m.oci_ref)) config.allowed_oci_prefixes ≡ true
  pub digest : config.require_exact_digest ≡ true → starts_with m.digest "sha256:" ≡ true

passed : {E : Type 0} (b : Bool) (e : E) {u : Unit {0}} → reject_if b e ≡ ok u → b ≡ false
passed true e h = cc
passed false e h = refl

refuted : (b : Bool) → not b ≡ false → b ≡ true
refuted true h = refl
refuted false h = cc

validate_metadata-IsTrusted :
    (config : GhcrWebhookConfig) (m : GhcrPublishedMetadata) {u : Unit {0}}
    → validate_metadata config m ≡ ok u
    → IsTrusted config m
unfolding validate_metadata
validate_metadata-IsTrusted config m done =
    let (p, a, done1) = >>=-eq-ok (reject_if (not (m.conclusion == "success")) _) _ done in
    let (q, b, done2) =
      >>=-eq-ok (reject_if (not (any (λ r. r == m.repository) config.allowed_repositories)) _) _
        done1 in
    let (r, c, done3) =
      >>=-eq-ok (reject_if (not (any (λ w. w == m.workflow) config.allowed_workflows)) _) _ done2 in
    let (s, d, done4) =
      >>=-eq-ok (reject_if (not (any (λ e. e == m.environment) config.allowed_environments)) _) _
        done3 in
    let (t, e, done5) =
      >>=-eq-ok
        (reject_if
          (not
            (any (starts_with (trim_start_matches "oci://" m.oci_ref)) config.allowed_oci_prefixes))
          _)
        _ done4 in
    record {
      successful = refuted _ (passed _ _ a);
      repository = refuted _ (passed _ _ b);
      workflow = refuted _ (passed _ _ c);
      environment = refuted _ (passed _ _ d);
      prefix = refuted _ (passed _ _ e);
      digest = λ exact. ground (arith, exact, passed _ _ done5);
    }

module _ (host : WebhookHost) (config : GhcrWebhookConfig) (headers : GithubWebhookHeaders)
    (body secret : Bytes) where
  -- What the checks of a call have established.
  pub record IsAdmitted (r : DeploymentRegistry) (m : GhcrPublishedMetadata)
      (resolved : ResolvedOciArtifact) : Type 0 where
    pub enabled : config.enabled ≡ true
    pub event :
        ((headers.event == "repository_dispatch") || (headers.event == "workflow_run")) ≡ true
    pub delivery : is_empty (trim headers.delivery) ≡ false
    pub fresh : has_webhook_delivery headers.delivery r ≡ false
    pub signed : verify_github_signature host.sha256 secret body headers.signature_256 ≡ ok tt
    pub described : parse_ghcr_published_metadata host body ≡ ok m
    pub trusted : IsTrusted config m
    pub found : host.resolve m.oci_ref ≡ ok resolved
    pub exact : config.require_exact_digest ≡ true → (resolved.resolved_digest == m.digest) ≡ true

  pub admit-IsAdmitted :
      (r : DeploymentRegistry) (m : GhcrPublishedMetadata) (resolved : ResolvedOciArtifact)
      → admit host config headers body secret r ≡ ok (m, resolved)
      → IsAdmitted r m resolved
  unfolding admit
  admit-IsAdmitted r m resolved done =
      let (p, a, done1) = >>=-eq-ok (reject_if (not config.enabled) _) _ done in
      let (q, b, done2) =
        >>=-eq-ok
          (reject_if
            (not (headers.event == "repository_dispatch") && not (headers.event == "workflow_run"))
            _)
          _ done1 in
      let (s, c, done3) = >>=-eq-ok (reject_if (is_empty (trim headers.delivery)) _) _ done2 in
      let (t, d, done4) =
        >>=-eq-ok (reject_if (has_webhook_delivery headers.delivery r) _) _ done3 in
      let (v, e, done5) =
        >>=-eq-ok (verify_github_signature host.sha256 secret body headers.signature_256) _ done4 in
      let (m', f, done6) = >>=-eq-ok (parse_ghcr_published_metadata host body) _ done5 in
      let (w, g, done7) = >>=-eq-ok (validate_metadata config m') _ done6 in
      let (x, h, done8) = >>=-eq-ok (host.resolve m'.oci_ref) _ done7 in
      let (y, i, done9) =
        >>=-eq-ok
          (reject_if (config.require_exact_digest && not (x.resolved_digest == m'.digest)) _) _
          done8 in
      let same = same_ok _ (m, resolved) done9 in
      let first : m' ≡ m = ap (λ z. z.0) same in
      let second : x ≡ resolved = ap (λ z. z.1) same in
      rw (← first, ← second)
        (record {
          enabled = refuted _ (passed _ _ a);
          event = ground (arith, passed _ _ b);
          delivery = passed _ _ c;
          fresh = passed _ _ d;
          signed = e;
          described = f;
          trusted = validate_metadata-IsTrusted config m' g;
          found = h;
          exact = λ exact. ground (arith, exact, passed _ _ i);
        })
