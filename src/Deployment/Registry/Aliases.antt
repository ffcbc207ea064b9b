-- ===== src/Deployment/Registry/Aliases.antt =====
-- The aliases as a map from tenant, SOR name and alias to a deployment.
use greentic_sorx.Prelude.{
  ap, ◌&&◌, String, ◌≡◌, refl, sym, ◌∙◌, Bool, true, false, not, none, some, List, [], ◌∷◌, ◌++◌,
  arith, ◌==◌, eq_iff, find, retain, if◌then◌else◌, Bool-cases, inl, inr, and-eq-true,
  text_lt_irrefl, find-append_none, eq_refl,
}
use greentic_sorx.Deployment.Registry.Links.{set_alias_cases, alias_of}
use greentic_sorx.Deployment.Lookup.{deployment, resolve_alias, is_alias, find_alias}
use greentic_sorx.Deployment.Registry.{set_alias, put_alias, alias_lt}
use greentic_sorx.Prelude.Results.{ok}
use greentic_sorx.Prelude.Sorting.{find-sort_by}
use greentic_sorx.Deployment.Types.{DeploymentAlias, DeploymentRegistry}

module _ (tenant sor name : String) where
  pub record HasKey (a : DeploymentAlias) : Type 0 where
    pub tenant_eq : a.tenant_id ≡ tenant
    pub sor_eq : a.sor_name ≡ sor
    pub name_eq : a.alias ≡ name

  key_of : (a : DeploymentAlias) → is_alias tenant sor name a ≡ true → HasKey a
  key_of a h =
      let (t, rest) = and-eq-true (a.tenant_id == tenant) _ h in
      let (s, n) = and-eq-true (a.sor_name == sor) (a.alias == name) rest in
      record {
        tenant_eq = (eq_iff a.tenant_id tenant).0 t;
        sor_eq = (eq_iff a.sor_name sor).0 s;
        name_eq = (eq_iff a.alias name).0 n;
      }

  is_alias_of_key : (a : DeploymentAlias) → HasKey a → is_alias tenant sor name a ≡ true
  is_alias_of_key a k =
      rw (k.tenant_eq, k.sor_eq, k.name_eq, eq_refl tenant, eq_refl sor) (eq_refl name)

alias_lt_level :
    (t s n : String) (a b : DeploymentAlias)
    → is_alias t s n a ≡ true
    → is_alias t s n b ≡ true
    → alias_lt b a ≡ false
alias_lt_level t s n a b ha hb =
    let ka = key_of t s n a ha in
    let kb = key_of t s n b hb in
    rw (
      ka.tenant_eq,
      ka.sor_eq,
      ka.name_eq,
      kb.tenant_eq,
      kb.sor_eq,
      kb.name_eq,
      text_lt_irrefl t,
      text_lt_irrefl s,
      text_lt_irrefl n,
      eq_refl t,
      eq_refl s,
    )

-- The entries that `put_alias` keeps.
abbrev others : DeploymentAlias → List DeploymentAlias → List DeploymentAlias
others a = retain (λ b. not (is_alias a.tenant_id a.sor_name a.alias b))

same_key_test :
    (t s n : String) (a b : DeploymentAlias)
    → is_alias t s n a ≡ true
    → is_alias a.tenant_id a.sor_name a.alias b ≡ is_alias t s n b
same_key_test t s n a b h = let k = key_of t s n a h in rw (k.tenant_eq, k.sor_eq, k.name_eq)

other_key_test :
    (t s n : String) (a b : DeploymentAlias)
    → is_alias t s n a ≡ false
    → is_alias t s n b ≡ true
    → is_alias a.tenant_id a.sor_name a.alias b ≡ false
other_key_test t s n a b other h = elim (Bool-cases (is_alias a.tenant_id a.sor_name a.alias b)) [
  | inr apart ↦ apart
  | inl same ↦
      let kb = key_of t s n b h in
      let ka = key_of a.tenant_id a.sor_name a.alias b same in
      let found : is_alias t s n a ≡ true = is_alias_of_key t s n a (record {
        tenant_eq = sym ka.tenant_eq ∙ kb.tenant_eq;
        sor_eq = sym ka.sor_eq ∙ kb.sor_eq;
        name_eq = sym ka.name_eq ∙ kb.name_eq;
      }) in
      cc
]

find-others_same :
    (t s n : String) (a : DeploymentAlias) (as' : List DeploymentAlias)
    → is_alias t s n a ≡ true
    → find (is_alias t s n) (others a as') ≡ none
find-others_same t s n a [] h = refl
find-others_same t s n a (b ∷ bs) h =
    ground (arith, same_key_test t s n a b h, find-others_same t s n a bs h)

find-others_other :
    (t s n : String) (a : DeploymentAlias) (as' : List DeploymentAlias)
    → is_alias t s n a ≡ false
    → find (is_alias t s n) (others a as') ≡ find (is_alias t s n) as'
find-others_other t s n a [] h = refl
find-others_other t s n a (b ∷ bs) h =
    ground (arith, other_key_test t s n a b h, find-others_other t s n a bs h)

find-append_one :
    (p : DeploymentAlias → Bool) (xs : List DeploymentAlias) (a : DeploymentAlias)
    → p a ≡ false
    → find p (xs ++ a ∷ []) ≡ find p xs
find-append_one p [] a h = rw h
find-append_one p (x ∷ xs) a h = ground (arith, find-append_one p xs a h)

-- Writing an alias is a map update: the key leads to the new entry, and every other key where it
-- led before.
pub find_alias-put :
    (t s n : String) (a : DeploymentAlias) (r : DeploymentRegistry)
    → find_alias t s n (put_alias a r) ≡ (if is_alias t s n a then some a else find_alias t s n r)
unfolding find_alias put_alias
find_alias-put t s n a r =
    find-sort_by alias_lt (is_alias t s n) (alias_lt_level t s n) (others a r.aliases ++ a ∷ [])
    ∙ elim (Bool-cases (is_alias t s n a)) [
      | inl same ↦
          find-append_none (is_alias t s n) (others a r.aliases) (a ∷ [])
            (find-others_same t s n a r.aliases same)
          ∙ rw (same) refl
      | inr other ↦
          find-append_one (is_alias t s n) (others a r.aliases) a other
          ∙ find-others_other t s n a r.aliases other
          ∙ rw other refl
    ]

-- After a `set_alias` that succeeds, the alias resolves to the deployment that it was given, and
-- every other alias to what it resolved to before.
pub resolve-set_alias :
    (t s n id : String) (r : DeploymentRegistry) {a : DeploymentAlias}
    → (set_alias t s n id r).0 ≡ ok a
    → (t' s' n' : String)
    → resolve_alias t' s' n' (set_alias t s n id r).1
      ≡ (if t == t' && (s == s' && n == n') then deployment id r else resolve_alias t' s' n' r)
unfolding resolve_alias deployment
resolve-set_alias t s n id r done t' s' n' = elim (set_alias_cases t s n id r) [
  | inr (e, kept) ↦ cc (ap (λ q. q.0) kept)
  | inl ok' ↦
      rw (ok'.written)
        (unfold put_alias in ground (arith, find_alias-put t' s' n' (alias_of t s n id r) r))
]
