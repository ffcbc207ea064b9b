-- ===== src/Deployment/Operations/Linked.antt =====
-- Every public method keeps the aliases linked.
use greentic_sorx.Deployment.Operations.Invariant.{is_settable, reachable_keeps, Invariant}
use greentic_sorx.Deployment.Registry.Links.{
  make_public-keeps, Resolves, IsLinked, Resolves-update_ne, update-IsLinked, set_alias-IsLinked,
}
use greentic_sorx.Prelude.{
  ◌⊎◌, String, ◌≡◌, refl, true, false, none, some, [], ◌∷◌, ◌++◌, arith, eq_iff, find, Option-cases,
  inl, inr, All-by_Memᴰ, All-of_Memᴰ, mem-retain, find-append_some, text_lt_irrefl, ◌∙◌, text_lt,
  sym, ap,
}
use greentic_sorx.Prelude.Sorting.{find-sort_by}
use greentic_sorx.Prelude.Results.{ok, err}
use greentic_sorx.Prelude.Actions.{◌>>=◌}
use greentic_sorx.Prelude.Invariants.{Preserves, Preserves-modify}
use greentic_sorx.Deployment.Types.{
  DeploymentStatus, SorxDeployment, DeploymentRegistry, is_retired,
}
use greentic_sorx.Deployment.Lookup.{
  has_id, deployment, set_status, update_first, update_deployment, update_status,
  deployment_missing,
}
use greentic_sorx.Deployment.Lookup.Laws.{KeepsIdentity}
use greentic_sorx.Deployment.Create.{add_deployment, id_lt}
use greentic_sorx.Deployment.Registry.{
  push_report, retire, drop_aliases, push_delivery, record_promotion_audit, make_public,
}
use greentic_sorx.Deployment.Operations.{Reachable}

pub set_status-keeps : (s : DeploymentStatus) → KeepsIdentity (set_status s)
set_status-keeps s = record { id = λ d. refl; tenant = λ d. refl; sor = λ d. refl }

-- Equal ids are not below one another.
pub id_lt_level :
    (j : String) (x y : SorxDeployment) → has_id j x ≡ true → has_id j y ≡ true → id_lt y x ≡ false
id_lt_level j x y hx hy =
    let same : y.deployment_id ≡ x.deployment_id =
      (eq_iff y.deployment_id j).0 hy ∙ sym ((eq_iff x.deployment_id j).0 hx) in
    ap (λ s. text_lt s x.deployment_id) same ∙ text_lt_irrefl x.deployment_id

-- An entry that was found stays the one that is found.
pub find-add :
    (j : String) (d : SorxDeployment) (r : DeploymentRegistry) {e : SorxDeployment}
    → find (has_id j) r.deployments ≡ some e
    → find (has_id j) (add_deployment d r).deployments ≡ some e
unfolding add_deployment
find-add j d r found =
    find-sort_by id_lt (has_id j) (id_lt_level j) (r.deployments ++ d ∷ [])
    ∙ find-append_some (has_id j) r.deployments (d ∷ []) found

add-IsLinked :
    (d : SorxDeployment) (r : DeploymentRegistry) → IsLinked r → IsLinked (add_deployment d r)
unfolding add_deployment
add-IsLinked d r h = All-by_Memᴰ _ r.aliases λ a m.
    let old = All-of_Memᴰ (Resolves r.deployments) r.aliases h m in
    record {
      target = old.target;
      found = find-add a.target_deployment_id d r old.found;
      tenant = old.tenant;
      sor = old.sor;
      live = old.live;
    }

-- The registry after a retirement.
unfoldable pub retired_state : String → DeploymentRegistry → DeploymentRegistry
retired_state id r =
    drop_aliases id (record r {
      deployments = update_first id (set_status DeploymentStatus.retired) r.deployments;
    })

-- `retire` succeeds exactly where the deployment is there, and else changes nothing.
pub retire_cases :
    (id : String) (r : DeploymentRegistry)
    → ((d : SorxDeployment) × (deployment id r ≡ some d)
        × (retire id r ≡ (ok (set_status DeploymentStatus.retired d), retired_state id r)))
      ⊎ ((deployment id r ≡ none) × (retire id r ≡ (err (deployment_missing id), r)))
unfolding retire update_status update_deployment retired_state ◌>>=◌
retire_cases id r = elim (Option-cases (deployment id r)) [
  | inl missing ↦ inr (missing, ground arith)
  | inr (d, found) ↦ inl (d, found, ground arith)
]

retired_state-IsLinked :
    (id : String) (r : DeploymentRegistry) → IsLinked r → IsLinked (retired_state id r)
unfolding retired_state drop_aliases
retired_state-IsLinked id r h = All-by_Memᴰ _ _ λ a m.
    let (old, kept) = mem-retain _ r.aliases m in
    Resolves-update_ne id (set_status DeploymentStatus.retired)
      (set_status-keeps DeploymentStatus.retired)
      (ground (arith, eq_iff id a.target_deployment_id, eq_iff a.target_deployment_id id))
      (All-of_Memᴰ (Resolves r.deployments) r.aliases h old)

retire-IsLinked : (id : String) → Preserves IsLinked (retire id)
retire-IsLinked id = record {
  from = λ r h. elim (retire_cases id r) [
    | inl (d, found, done) ↦ rw done (retired_state-IsLinked id r h)
    | inr (missing, kept) ↦ rw kept h
  ];
}

settable_live : (s : DeploymentStatus) → is_settable s ≡ true → is_retired s ≡ false
settable_live s h = ground arith

status-IsLinked :
    (id : String) (s : DeploymentStatus)
    → is_settable s ≡ true
    → Preserves IsLinked (update_status id s)
unfolding update_status
status-IsLinked id s h =
    update-IsLinked id (set_status s) (set_status-keeps s) (λ d. settable_live s h)

links : Invariant IsLinked
unfolding push_report push_delivery record_promotion_audit
links = record {
  add = λ d r _ h. add-IsLinked d r h;
  status = status-IsLinked;
  public = λ id. update-IsLinked id make_public make_public-keeps (λ d. refl);
  alias = set_alias-IsLinked;
  retirement = retire-IsLinked;
  audit = λ event. Preserves-modify _ (λ r h. h);
  reported = λ value. Preserves-modify _ (λ r h. h);
  delivered = λ id r h. h;
}

-- In every registry that calls of the public methods reach from the empty one, in any order and
-- whether they succeed or fail, every alias leads to a deployment that is there, has the alias's
-- tenant and SOR name, and is not retired.
pub Reachable-IsLinked : {r : DeploymentRegistry} → Reachable r → IsLinked r
Reachable-IsLinked reached = reachable_keeps links tt reached
