-- ===== src/Deployment/Operations/Deliveries.antt =====
-- A webhook delivery is processed once: no later call forgets it.
use greentic_sorx.Prelude.{
  eq_refl, Bool-cases, ◌⊎◌, inr, ◌∙◌, refl, inl, arith, true, ◌||◌, Option-cases, text_lt, ◌==◌,
  ◌≡◌, ◌++◌, List, any, Bool, String,
}
use greentic_sorx.Deployment.Operations.Linked.{retire_cases, retired_state}
use greentic_sorx.Deployment.Registry.{
  retire, make_public, record_promotion_audit, push_delivery, replayed, set_alias, push_report,
  drop_aliases, has_webhook_delivery, record_webhook_delivery, put_alias,
}
use greentic_sorx.Deployment.Operations.{perform, perform_all, [], ◌∷◌, Operation}
use greentic_sorx.Prelude.Invariants.{Preserves-modify, Preserves}
use greentic_sorx.Prelude.Results.{err, ok}
use greentic_sorx.Deployment.Lookup.{set_status, deployment, update_status, update_deployment}
use greentic_sorx.Prelude.Actions.{◌>>=◌}
use greentic_sorx.Deployment.Registry.Links.{set_alias_cases}
use greentic_sorx.Deployment.Types.{SorxDeployment, DeploymentRegistry}
use greentic_sorx.Prelude.Sorting.{insert_by, sort_by}
use greentic_sorx.Deployment.Create.{add_deployment}
use greentic_sorx.Deployment.Operations.Invariant.{Invariant, perform_keeps}

abbrev pub Delivered : String → DeploymentRegistry → Type 0
Delivered id r = any (λ existing. existing == id) r.webhook_deliveries ≡ true

module _ (p : String → Bool) where
  any-append : (xs ys : List String) → any p (xs ++ ys) ≡ (any p xs || any p ys)
  any-append [] ys = refl
  any-append (x ∷ xs) ys = ground (arith, any-append xs ys)

  any-insert_by :
      (lt : String → String → Bool) (x : String) (xs : List String)
      → any p (insert_by lt x xs) ≡ any p (x ∷ xs)
  unfolding insert_by
  any-insert_by lt x [] = refl
  any-insert_by lt x (y ∷ ys) = ground (arith, any-insert_by lt x ys)

  any-sort_by : (lt : String → String → Bool) (xs : List String) → any p (sort_by lt xs) ≡ any p xs
  unfolding sort_by
  any-sort_by lt [] = refl
  any-sort_by lt (x ∷ xs) = ground (arith, any-insert_by lt x (sort_by lt xs), any-sort_by lt xs)

  any-push :
      (xs : List String) (x : String) → any p (sort_by text_lt (xs ++ x ∷ [])) ≡ (any p xs || p x)
  any-push xs x = any-sort_by text_lt (xs ++ x ∷ []) ∙ any-append xs (x ∷ []) ∙ ground arith

module _ (id : String) where
  update-Delivered :
      (j : String) (f : SorxDeployment → SorxDeployment)
      → Preserves (Delivered id) (update_deployment j f)
  unfolding update_deployment
  update-Delivered j f = record {
    from = λ r h. elim (Option-cases (deployment j r)) [
      | inl missing ↦ ground arith
      | inr (d, found) ↦ ground arith
    ];
  }

  alias-Delivered :
      (tenant sor name target : String)
      → Preserves (Delivered id) (set_alias tenant sor name target)
  unfolding put_alias
  alias-Delivered tenant sor name target = record {
    from = λ r h. elim (set_alias_cases tenant sor name target r) [
      | inl a ↦ rw a.written h
      | inr (e, kept) ↦ rw kept h
    ];
  }

  retire-Delivered : (j : String) → Preserves (Delivered id) (retire j)
  unfolding retired_state drop_aliases
  retire-Delivered j = record {
    from = λ r h. elim (retire_cases j r) [
      | inl (d, found, done) ↦ rw done h
      | inr (missing, kept) ↦ rw kept h
    ];
  }

  deliveries : Invariant (Delivered id)
  unfolding add_deployment update_status push_report push_delivery record_promotion_audit
  deliveries = record {
    add = λ d r _ h. h;
    status = λ j s _. update-Delivered j (set_status s);
    public = λ j. update-Delivered j make_public;
    alias = alias-Delivered;
    retirement = retire-Delivered;
    audit = λ event. Preserves-modify _ (λ r h. h);
    reported = λ value. Preserves-modify _ (λ r h. h);
    delivered = λ j r h. rw (any-push (λ existing. existing == id) r.webhook_deliveries j, h) refl;
  }

  -- The first processing of a delivery succeeds exactly where it is not yet recorded.
  record_cases :
      (r : DeploymentRegistry)
      → (record_webhook_delivery id r ≡ (ok tt, push_delivery id r))
        ⊎ (Delivered id r × (record_webhook_delivery id r ≡ (err (replayed id), r)))
  unfolding record_webhook_delivery has_webhook_delivery replayed ◌>>=◌
  record_cases r = elim (Bool-cases (any (λ existing. existing == id) r.webhook_deliveries)) [
    | inl seen ↦ inr (seen, rw seen)
    | inr fresh ↦ inl (rw fresh)
  ]

  pub push_delivery-Delivered : (r : DeploymentRegistry) → Delivered id (push_delivery id r)
  unfolding push_delivery
  push_delivery-Delivered r =
      rw (any-push (λ existing. existing == id) r.webhook_deliveries id, eq_refl id) (ground arith)

  Delivered-after :
      (r : DeploymentRegistry)
      → (record_webhook_delivery id r).0 ≡ ok tt
      → Delivered id (record_webhook_delivery id r).1
  Delivered-after r done = elim (record_cases r) [
    | inr (seen, failed) ↦ absurd (ground (arith, failed, done))
    | inl written ↦ rw written (push_delivery-Delivered r)
  ]

  pub stays-Delivered :
      (calls : List Operation) (r : DeploymentRegistry)
      → Delivered id r
      → Delivered id (perform_all calls r)
  stays-Delivered [] r h = h
  stays-Delivered (op ∷ ops) r h =
      stays-Delivered ops (perform op r) (perform_keeps deliveries op r h)

  rejected_where-Delivered :
      (r : DeploymentRegistry)
      → Delivered id r
      → record_webhook_delivery id r ≡ (err (replayed id), r)
  unfolding record_webhook_delivery has_webhook_delivery ◌>>=◌
  rejected_where-Delivered r seen = rw seen

-- After a delivery is recorded, and whatever public methods are called then, recording it again
-- fails with `webhook_replay` and changes nothing.
pub replay_rejected :
    (id : String) (r : DeploymentRegistry) (calls : List Operation)
    → (record_webhook_delivery id r).0 ≡ ok tt
    → record_webhook_delivery id (perform_all calls (record_webhook_delivery id r).1)
      ≡ (err (replayed id), perform_all calls (record_webhook_delivery id r).1)
replay_rejected id r calls done =
    rejected_where-Delivered id _
      (stays-Delivered id calls (record_webhook_delivery id r).1 (Delivered-after id r done))
