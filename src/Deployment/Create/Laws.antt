-- ===== src/Deployment/Create/Laws.antt =====
-- What a `create_deployment` that succeeds has checked, and where its deployment is found.
use greentic_sorx.Prelude.{
  find-append_none, ◌∙◌, ◌++◌, find-none, All-of_Memᴰ, eq_iff, eq_refl, [], inl, ap, arith, ◌⊎◌,
  inr, some, refl, none, true, find, Option, false, ◌==◌, ◌≡◌, ◌&&◌, any, not, List, String,
}
use greentic_sorx.Deployment.Create.{
  id_lt, ◌∷◌, add_deployment, create_deployment, Bool, new_deployment,
}
use greentic_sorx.Prelude.Sorting.{find-sort_by, mem-sort_by}
use mathlib.Core.List.Memᴰ
use greentic_sorx.Prelude.Results.{Result, err, >>=-eq-ok, reject_if, ok}
use greentic_sorx.Deployment.Types.{
  DeploymentStatus, DeploymentRegistryError, is_retired, DeploymentRegistry,
  CreateDeploymentRequest, SorxDeployment,
}
use greentic_sorx.Deployment.Lookup.{has_id, deployment}
use greentic_sorx.Prelude.Actions.{◌>>=◌}
use greentic_sorx.Deployment.Checks.{
  check_base_path_conflict, check_api_version_conflict, path_taken, reject_first, is_isolated,
  request_id, is_live_id, check_request,
}
use greentic_sorx.Deployment.Naming.{
  normalize_base_path, is_production_environment, default_state_namespace,
}
use greentic_sorx.Json.{unwrap_or}
use mathlib.Core.List.{Memᴰ}
use greentic_sorx.Deployment.Operations.Linked.{find-add, id_lt_level}

-- Two deployments that are not retired, with different ids, have different base paths.
abbrev pub ApartFrom : SorxDeployment → SorxDeployment → Type 0
ApartFrom a b =
    (not (is_retired a.status)
      && (not (is_retired b.status)
          && (not (a.deployment_id == b.deployment_id) && a.base_path == b.base_path)))
    ≡ false

abbrev pub DistinctPaths : List SorxDeployment → Type 0
DistinctPaths ds = (a b : SorxDeployment) → Memᴰ a ds → Memᴰ b ds → ApartFrom a b

module _ (request : CreateDeploymentRequest) (r : DeploymentRegistry) where
  abbrev pub made : SorxDeployment
  made =
      new_deployment (request_id request)
        (unwrap_or (default_state_namespace request) request.state_namespace) request

  -- What the checks of a creation have established.
  pub record Admitted : Type 0 where
    pub fresh : any (is_live_id (request_id request)) r.deployments ≡ false
    pub shared :
        (is_isolated request.state_mode && is_production_environment request.environment) ≡ false
    pub path_free :
        find (path_taken (request_id request) (normalize_base_path request.base_path)) r.deployments
        ≡ none
    pub written : create_deployment request r ≡ (ok made, add_deployment made r)

  reject_if-ok : {E : Type 0} (b : Bool) (e : E) {u : Unit {0}} → reject_if b e ≡ ok u → b ≡ false
  reject_if-ok true e h = cc
  reject_if-ok false e h = refl

  reject_first-ok :
      (o : Option SorxDeployment) (e : SorxDeployment → DeploymentRegistryError) {u : Unit {0}}
      → reject_first o e ≡ ok u
      → o ≡ none
  reject_first-ok none e h = refl
  reject_first-ok (some d) e h = cc

  checks_pass :
      (namespace : String)
      → check_request (request_id request) namespace request r ≡ ok tt
      → (any (is_live_id (request_id request)) r.deployments ≡ false)
        × ((is_isolated request.state_mode && is_production_environment request.environment)
            ≡ false)
        × (find
              (path_taken (request_id request) (normalize_base_path request.base_path))
              r.deployments
            ≡ none)
  unfolding check_request
  checks_pass namespace h =
      let (_, live, h₁) =
        >>=-eq-ok (reject_if (any (is_live_id (request_id request)) r.deployments) _) _ h in
      let (_, mode, h₂) =
        >>=-eq-ok
          (reject_if
            (is_isolated request.state_mode && is_production_environment request.environment) _)
          _ h₁ in
      let (_, _, h₃) = >>=-eq-ok (check_api_version_conflict request r) _ h₂ in
      let (_, path, _) =
        >>=-eq-ok (check_base_path_conflict (request_id request) request.base_path r) _ h₃ in
      (reject_if-ok _ _ live, reject_if-ok _ _ mode, reject_first-ok _ _ path)

  -- A creation that succeeds has passed its checks and adds the deployment; one that fails changes
  -- nothing.
  pub create_cases :
      Admitted ⊎ ((e : DeploymentRegistryError) × (create_deployment request r ≡ (err e, r)))
  unfolding create_deployment ◌>>=◌
  create_cases = split (check_request (request_id request) namespace request r) refl
    where
      namespace : String
      namespace = unwrap_or (default_state_namespace request) request.state_namespace

      split :
          (c : Result DeploymentRegistryError (Unit {0}))
          → check_request (request_id request) namespace request r ≡ c
          → Admitted ⊎ ((e : DeploymentRegistryError) × (create_deployment request r ≡ (err e, r)))
      split (err e) h = inr (e, rw h)
      split (ok _) h =
          let (fresh, shared, free) = checks_pass namespace h in
          inl (record { fresh = fresh; shared = shared; path_free = free; written = rw h })

find_none_live :
    (id : String) (ds : List SorxDeployment) {d : SorxDeployment}
    → any (is_live_id id) ds ≡ false
    → find (has_id id) ds ≡ some d
    → is_retired d.status ≡ true
find_none_live id [] h e = cc
find_none_live id (x ∷ xs) {d} h e = ground (arith, find_none_live id xs {d = d})

module _ (request : CreateDeploymentRequest) (r : DeploymentRegistry) where
  apart_made :
      (x : SorxDeployment)
      → path_taken (request_id request) (normalize_base_path request.base_path) x ≡ false
      → ApartFrom x (made request r) × ApartFrom (made request r) x
  unfolding new_deployment
  apart_made x h = ground (
    arith,
    eq_iff x.deployment_id (request_id request),
    eq_iff (request_id request) x.deployment_id,
    eq_iff x.base_path (normalize_base_path request.base_path),
    eq_iff (normalize_base_path request.base_path) x.base_path,
  )

  apart_self : (x y : SorxDeployment) → x ≡ made request r → y ≡ made request r → ApartFrom x y
  unfolding new_deployment
  apart_self x y ex ey = rw (ex, ey, eq_refl (request_id request)) refl

  apart_after :
      Admitted request r
      → DistinctPaths r.deployments
      → (x y : SorxDeployment) → Memᴰ x r.deployments ⊎ Memᴰ x (made request r ∷ [])
      → Memᴰ y r.deployments ⊎ Memᴰ y (made request r ∷ [])
      → ApartFrom x y
  apart_after a h x y (inl mx) (inl my) = h x y mx my
  apart_after a h x y (inl mx) (inr my) =
      rw (Memᴰ.eq_of_singleton my)
        (apart_made x (All-of_Memᴰ _ r.deployments (find-none _ r.deployments a.path_free) mx)).0
  apart_after a h x y (inr mx) (inl my) =
      rw (Memᴰ.eq_of_singleton mx)
        (apart_made y (All-of_Memᴰ _ r.deployments (find-none _ r.deployments a.path_free) my)).1
  apart_after a h x y (inr mx) (inr my) =
      apart_self x y (Memᴰ.eq_of_singleton mx) (Memᴰ.eq_of_singleton my)

module _ (request : CreateDeploymentRequest) (r : DeploymentRegistry) {d : SorxDeployment}
    (done : (create_deployment request r).0 ≡ ok d) where
  -- A creation succeeded, with an id that was not there: the deployment it returned is found under the
  -- id, and its status is pending.
  pub deployment-create :
      deployment (request_id request) r ≡ none
      → (deployment (request_id request) (create_deployment request r).1 ≡ some d)
        × (d.status ≡ DeploymentStatus.pending)
  unfolding deployment add_deployment
  deployment-create fresh = elim (create_cases request r) [
    | inr (e, kept) ↦ cc (ap (λ q. q.0) kept)
    | inl a ↦
        let same : d ≡ made request r = cc (ap (λ q. q.0) a.written) in
        rw (same, a.written)
          (
            find-sort_by id_lt (has_id (request_id request)) (id_lt_level (request_id request)) _
                ∙ find-append_none (has_id (request_id request)) r.deployments _ fresh
                ∙ (unfold new_deployment in rw (eq_refl (request_id request))),
            (unfold new_deployment in refl),
          )
  ]

  -- A creation succeeded, with an id that a deployment already has: that deployment is retired, and the
  -- id goes on leading to it.
  pub create_shadowed :
      {old : SorxDeployment}
      → deployment (request_id request) r ≡ some old
      → (is_retired old.status ≡ true)
        × (deployment (request_id request) (create_deployment request r).1 ≡ some old)
  unfolding deployment
  create_shadowed {old} found = elim (create_cases request r) [
    | inr (e, kept) ↦ cc (ap (λ q. q.0) kept)
    | inl a ↦ (
      find_none_live (request_id request) r.deployments a.fresh found,
      rw a.written (find-add (request_id request) (made request r) r found),
    )
  ]

module _ (request : CreateDeploymentRequest) (r : DeploymentRegistry) where
  -- Where no two deployments that are not retired share a base path under different ids, none do after
  -- a creation, whether it succeeds or fails.
  pub create-DistinctPaths :
      DistinctPaths r.deployments → DistinctPaths (create_deployment request r).1.deployments
  unfolding add_deployment
  create-DistinctPaths h = elim (create_cases request r) [
    | inr (e, kept) ↦ rw kept h
    | inl a ↦ rw a.written λ x y mx my.
        apart_after request r a h x y
          (Memᴰ.append_cases r.deployments
            (mem-sort_by id_lt (r.deployments ++ made request r ∷ []) mx))
          (Memᴰ.append_cases r.deployments
            (mem-sort_by id_lt (r.deployments ++ made request r ∷ []) my))
  ]
