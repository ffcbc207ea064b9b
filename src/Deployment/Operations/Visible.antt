-- ===== src/Deployment/Operations/Visible.antt =====
-- What is active to the public is visible to the public.
use greentic_sorx.Deployment.Operations.Linked.{retire_cases, retired_state}
use greentic_sorx.Deployment.Registry.{
  retire, set_alias, drop_aliases, put_alias, make_public, record_promotion_audit, push_delivery,
  push_report,
}
use greentic_sorx.Deployment.Operations.{
  retire, set_alias, List, Bool, DeploymentRegistry, String, Reachable,
}
use greentic_sorx.Deployment.Registry.Links.{set_alias_cases}
use greentic_sorx.Prelude.{
  refl, inr, arith, inl, not, false, true, Bool-cases, ◌&&◌, ◌≡◌, Bool, List, String, [], ◌∷◌, ◌++◌,
  All, All-append,
}
use greentic_sorx.Deployment.Lookup.{
  set_status, update_status, has_id, update_deployment, is_public, update_first,
}
use greentic_sorx.Deployment.Create.{id_lt, add_deployment}
use greentic_sorx.Deployment.Lookup.Laws.{deployments-update}
use greentic_sorx.Deployment.Types.{
  DeploymentRegistry, DeploymentVisibility, DeploymentStatus, SorxDeployment,
}
use greentic_sorx.Prelude.Sorting.{All-sort_by}
use greentic_sorx.Prelude.Invariants.{Preserves, Preserves-modify}
use greentic_sorx.Deployment.Operations.Invariant.{Invariant, is_settable, reachable_keeps}

abbrev pub is_visible : DeploymentVisibility → Bool
is_visible DeploymentVisibility.public = true
is_visible _ = false

abbrev pub IsOpen : SorxDeployment → Type 0
IsOpen d = (is_public d.status && not (is_visible d.visibility)) ≡ false

abbrev pub AllOpen : DeploymentRegistry → Type 0
AllOpen r = All IsOpen r.deployments

update_first-Open :
    (id : String) (f : SorxDeployment → SorxDeployment)
    → ((d : SorxDeployment) → IsOpen d → IsOpen (f d))
    → (ds : List SorxDeployment) → All IsOpen ds
    → All IsOpen (update_first id f ds)
unfolding update_first
update_first-Open id f keep [] h = tt
update_first-Open id f keep (d ∷ ds) h = elim (Bool-cases (has_id id d)) [
  | inl t ↦ rw t (keep d h.0, h.1)
  | inr n ↦ rw n (h.0, update_first-Open id f keep ds h.1)
]

update-AllOpen :
    (id : String) (f : SorxDeployment → SorxDeployment)
    → ((d : SorxDeployment) → IsOpen d → IsOpen (f d))
    → Preserves AllOpen (update_deployment id f)
update-AllOpen id f keep = record {
  from = λ r h. rw (deployments-update id f r) (update_first-Open id f keep r.deployments h);
}

settable_open : (s : DeploymentStatus) → is_settable s ≡ true → is_public s ≡ false
settable_open s h = ground arith

alias-AllOpen : (tenant sor name id : String) → Preserves AllOpen (set_alias tenant sor name id)
unfolding put_alias
alias-AllOpen tenant sor name id = record {
  from = λ r h. elim (set_alias_cases tenant sor name id r) [
    | inl a ↦ rw a.written h
    | inr (e, kept) ↦ rw kept h
  ];
}

retire-AllOpen : (id : String) → Preserves AllOpen (retire id)
unfolding retired_state drop_aliases
retire-AllOpen id = record {
  from = λ r h. elim (retire_cases id r) [
    | inl (d, found, done) ↦
        rw done
          (update_first-Open id (set_status DeploymentStatus.retired) (λ x o. refl) r.deployments h)
    | inr (missing, kept) ↦ rw kept h
  ];
}

open_everywhere : Invariant AllOpen
unfolding push_report push_delivery record_promotion_audit add_deployment update_status
open_everywhere = record {
  add = λ d r e h.
      All-sort_by id_lt IsOpen (r.deployments ++ d ∷ [])
        (All-append IsOpen r.deployments (d ∷ []) h (rw e refl, tt));
  status = λ id s e. update-AllOpen id (set_status s) (λ d h. rw (settable_open s e) refl);
  public = λ id. update-AllOpen id make_public (λ d h. refl);
  alias = alias-AllOpen;
  retirement = retire-AllOpen;
  audit = λ event. Preserves-modify _ (λ r h. h);
  reported = λ value. Preserves-modify _ (λ r h. h);
  delivered = λ id r h. h;
}

-- In every registry that calls of the public methods reach from the empty one, in any order and
-- whether they succeed or fail, each deployment whose status is active and public has public
-- visibility.
pub Reachable-AllOpen : {r : DeploymentRegistry} → Reachable r → AllOpen r
Reachable-AllOpen reached = reachable_keeps open_everywhere tt reached
