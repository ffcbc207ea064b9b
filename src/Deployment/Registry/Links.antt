-- ===== src/Deployment/Registry/Links.antt =====
-- Every alias leads to a deployment of its own tenant and SOR name that is not retired.
use greentic_sorx.Prelude.{
  refl, String, ◌≡◌, ◌∙◌, ap, true, false, ◌&&◌, some, List, arith, ◌==◌, eq_iff, ◌⊎◌, find,
  map_some, Option-cases, Bool-cases, inl, inr, All, All-append, All-retain, All-by_Memᴰ,
  All-of_Memᴰ, and-eq-true,
}
use greentic_sorx.Deployment.Registry.{make_public, set_alias, put_alias, alias_lt}
use greentic_sorx.Prelude.Sorting.{All-sort_by}
use greentic_sorx.Prelude.Results.{ok, err}
use greentic_sorx.Prelude.Actions.{◌>>=◌}
use greentic_sorx.Prelude.Invariants.{Preserves}
use greentic_sorx.Deployment.Types.{
  DeploymentStatus, SorxDeployment, DeploymentAlias, DeploymentRegistry, DeploymentRegistryError,
  is_retired, is_routable, new,
}
use greentic_sorx.Deployment.Lookup.{
  has_id, deployment, deployment_required, deployment_missing, update_first, update_deployment,
}
use greentic_sorx.Deployment.Lookup.Laws.{
  KeepsIdentity, find-update_first, deployments-update, aliases-update,
}

pub make_public-keeps : KeepsIdentity make_public
make_public-keeps = record { id = λ d. refl; tenant = λ d. refl; sor = λ d. refl }

pub record Resolves (ds : List SorxDeployment) (a : DeploymentAlias) : Type 0 where
  pub target : SorxDeployment
  pub found : find (has_id a.target_deployment_id) ds ≡ some target
  pub tenant : target.tenant_id ≡ a.tenant_id
  pub sor : target.sor_name ≡ a.sor_name
  pub live : is_retired target.status ≡ false

abbrev pub IsLinked : DeploymentRegistry → Type 0
IsLinked r = All (Resolves r.deployments) r.aliases

module _ (id : String) (f : SorxDeployment → SorxDeployment) (keeps : KeepsIdentity f) where
  -- The target of an alias stays, if it is not the entry that is written.
  pub Resolves-update_ne :
      {ds : List SorxDeployment} {a : DeploymentAlias}
      → (id == a.target_deployment_id) ≡ false
      → Resolves ds a
      → Resolves (update_first id f ds) a
  Resolves-update_ne {ds} {a} other h = record {
    target = h.target;
    found = find-update_first id f keeps a.target_deployment_id ds ∙ rw other h.found;
    tenant = h.tenant;
    sor = h.sor;
    live = h.live;
  }

  module _ (alive : (d : SorxDeployment) → is_retired (f d).status ≡ false) where
    Resolves-update :
        {ds : List SorxDeployment} {a : DeploymentAlias}
        → Resolves ds a
        → Resolves (update_first id f ds) a
    Resolves-update {ds} {a} h = elim (Bool-cases (id == a.target_deployment_id)) [
      | inl same ↦ record {
        target = f h.target;
        found =
            find-update_first id f keeps a.target_deployment_id ds
            ∙ rw same (ap (map_some f) h.found);
        tenant = keeps.tenant h.target ∙ h.tenant;
        sor = keeps.sor h.target ∙ h.sor;
        live = alive h.target;
      }
      | inr other ↦ Resolves-update_ne other h
    ]

    pub update-IsLinked : Preserves IsLinked (update_deployment id f)
    update-IsLinked = record {
      from = λ r h.
          rw (deployments-update id f r, aliases-update id f r)
            (All-by_Memᴰ (Resolves (update_first id f r.deployments)) r.aliases
              λ a m. Resolves-update (All-of_Memᴰ (Resolves r.deployments) r.aliases h m));
    }

put_alias-IsLinked :
    (next : DeploymentAlias) (r : DeploymentRegistry)
    → Resolves r.deployments next
    → IsLinked r
    → IsLinked (put_alias next r)
unfolding put_alias
put_alias-IsLinked next r new h = All-sort_by alias_lt (Resolves r.deployments) _ (
    All-append (Resolves r.deployments) _ _ (All-retain (Resolves r.deployments) _ r.aliases h)
      (new, tt))

routable_live : (s : DeploymentStatus) → is_routable s ≡ true → is_retired s ≡ false
unfolding is_routable
routable_live s h = ground arith

module _ (tenant sor name id : String) (r : DeploymentRegistry) where
  abbrev pub alias_of : DeploymentAlias
  alias_of = record { tenant_id = tenant; sor_name = sor; alias = name; target_deployment_id = id }

  -- What `set_alias` has found when it writes.
  pub record Accepted : Type 0 where
    pub target : SorxDeployment
    pub found : deployment id r ≡ some target
    pub tenant_ok : target.tenant_id ≡ tenant
    pub sor_ok : target.sor_name ≡ sor
    pub routable : is_routable target.status ≡ true
    pub written : set_alias tenant sor name id r ≡ (ok alias_of, put_alias alias_of r)

  -- `set_alias` writes the alias, or fails and changes nothing.
  pub set_alias_cases :
      Accepted ⊎ ((e : DeploymentRegistryError) × (set_alias tenant sor name id r ≡ (err e, r)))
  unfolding set_alias deployment_required ◌>>=◌
  set_alias_cases = elim (Option-cases (deployment id r)) [
    | inl missing ↦ inr (deployment_missing id, rw missing)
    | inr (d, found) ↦ elim (Bool-cases (d.tenant_id == tenant && d.sor_name == sor)) [
      | inr foreign ↦ inr (
        new "alias_scope_mismatch" "alias target must have the same tenant and SOR name",
        rw (found, foreign),
      )
      | inl own ↦ elim (Bool-cases (is_routable d.status)) [
        | inr stopped ↦ inr (
          new "alias_target_not_routable" "alias target must be validated or active",
          rw (found, own, stopped),
        )
        | inl live ↦
            let (t, s) = and-eq-true (d.tenant_id == tenant) (d.sor_name == sor) own in
            inl (record {
              target = d;
              found = found;
              tenant_ok = (eq_iff d.tenant_id tenant).0 t;
              sor_ok = (eq_iff d.sor_name sor).0 s;
              routable = live;
              written = rw (found, own, live);
            })
      ]
    ]
  ]

pub set_alias-IsLinked :
    (tenant sor name id : String) → Preserves IsLinked (set_alias tenant sor name id)
unfolding deployment
set_alias-IsLinked tenant sor name id = record {
  from = λ r h. elim (set_alias_cases tenant sor name id r) [
    | inr (e, kept) ↦ rw kept h
    | inl a ↦ rw a.written (
        put_alias-IsLinked (alias_of tenant sor name id r) r
          (record {
            target = a.target;
            found = a.found;
            tenant = a.tenant_ok;
            sor = a.sor_ok;
            live = routable_live a.target.status a.routable;
          })
          h)
  ];
}
