-- ===== src/Runtime/Access/Laws.antt =====
-- Which callers an endpoint admits.
use greentic_sorx.Prelude.{
  [], ◌∷◌, List, String, true, Option, none, some, ◌≡◌, refl, sym, ◌==◌, ◌↔◌, ◌⊎◌, inl, inr, ◌&&◌,
  ◌||◌, arith, and-eq-true, if◌then◌else◌, eq_iff, any, all, All, Bool-cases, Option-cases,
}
use mathlib.Core.List.{Memᴰ}
use greentic_sorx.Prelude.Maps
use greentic_sorx.Json.{and_then, or_else}
use greentic_sorx.Runtime.Types.{
  AuthorizationRequirement, AuthorizationRoles, EndpointDefinition, EndpointInvocation, RuntimePack,
}
use greentic_sorx.Runtime.Access.{
  authorization_matches, authorization_denial, requirement_denial, record_denial,
  authorization_policy_denial, decide_authorization, denied_reason, holds_role, lacks_any,
  access_for,
}

-- The caller has one of the roles of `any_of`, where there are any, and all roles of `all_of`.
abbrev pub Satisfied : AuthorizationRoles → List String → Type 0
Satisfied roles held =
    ((roles.any_of ≡ []) ⊎ ((role : String) × Memᴰ role roles.any_of × Memᴰ role held))
    × All (λ role. Memᴰ role held) roles.all_of

abbrev pub Admits : Option AuthorizationRequirement → List String → Type 0
Admits none held = Unit
Admits (some auth) held = Satisfied auth.roles held

-- The requirement of the record that the endpoint is about, for its operation.
abbrev pub record_requirement : RuntimePack → EndpointDefinition → Option AuthorizationRequirement
record_requirement pack endpoint = and_then endpoint.entity λ name.
    and_then (Maps.get name pack.record_access) λ access. access_for endpoint.operation access

holds_iff : (held : List String) (role : String) → (holds_role held role ≡ true) ↔ Memᴰ role held
holds_iff [] role = (λ h. cc, λ m. elim m [ ])
holds_iff (x ∷ held) role = (
  λ h. elim (Bool-cases (x == role)) [
    | inl t ↦ Memᴰ.head (sym ((eq_iff x role).0 t))
    | inr f ↦ Memᴰ.tail ((holds_iff held role).0 (ground (arith, f, h)))
  ],
  λ m. elim m [
    | Memᴰ.head e ↦ ground (arith, e, eq_iff x role)
    | Memᴰ.tail k ↦ ground (arith, (holds_iff held role).1 k)
  ],
)

any_iff :
    (held roles : List String)
    → (any (holds_role held) roles ≡ true) ↔ ((role : String) × Memᴰ role roles × Memᴰ role held)
any_iff held [] = (λ h. cc, λ (role, m, k). elim m [ ])
any_iff held (r ∷ roles) = (
  λ h. elim (Bool-cases (holds_role held r)) [
    | inl t ↦ (r, Memᴰ.head refl, (holds_iff held r).0 t)
    | inr f ↦
        let (role, m, k) = (any_iff held roles).0 (ground (arith, f, h)) in (role, Memᴰ.tail m, k)
  ],
  λ (role, m, k). elim m [
    | Memᴰ.head e ↦ ground (arith, (holds_iff held r).1 (rw (← e) k))
    | Memᴰ.tail n ↦ ground (arith, (any_iff held roles).1 (role, n, k))
  ],
)

all_iff :
    (held roles : List String)
    → (all (holds_role held) roles ≡ true) ↔ All (λ role. Memᴰ role held) roles
all_iff held [] = (λ h. tt, λ h. refl)
all_iff held (r ∷ roles) = (
  λ h. ((holds_iff held r).0 (ground (arith, h)), (all_iff held roles).0 (ground (arith, h))),
  λ h. ground (arith, (holds_iff held r).1 h.0, (all_iff held roles).1 h.1),
)

lists_iff :
    (any_of all_of held : List String)
    → ((if lacks_any any_of && lacks_any all_of
          then true
          else (lacks_any any_of || any (holds_role held) any_of) && all (holds_role held) all_of)
        ≡ true)
      ↔ (((any_of ≡ []) ⊎ ((role : String) × Memᴰ role any_of × Memᴰ role held))
          × All (λ role. Memᴰ role held) all_of)
lists_iff [] [] held = (λ h. (inl refl, tt), λ h. refl)
lists_iff [] (a ∷ more) held =
    (λ h. (inl refl, (all_iff held (a ∷ more)).0 h), λ h. (all_iff held (a ∷ more)).1 h.1)
lists_iff (x ∷ xs) all_of held = (
  λ h.
      let (some_held, all_held) =
        and-eq-true (any (holds_role held) (x ∷ xs)) (all (holds_role held) all_of) h in
      (inr ((any_iff held (x ∷ xs)).0 some_held), (all_iff held all_of).0 all_held),
  λ h. elim h.0 [
    | inl e ↦ absurd (ground (arith, e))
    | inr r ↦
        let one : any (holds_role held) (x ∷ xs) ≡ true = (any_iff held (x ∷ xs)).1 r in
        rw one ((all_iff held all_of).1 h.1)
  ],
)

authorization_matches_iff :
    (auth : AuthorizationRequirement) (held : List String)
    → (authorization_matches auth held ≡ true) ↔ Satisfied auth.roles held
unfolding authorization_matches
authorization_matches_iff auth held = lists_iff auth.roles.any_of auth.roles.all_of held

policies_never_deny :
    (auth : AuthorizationRequirement) (resource : _) (operation : String)
    (invocation : EndpointInvocation)
    → authorization_policy_denial auth resource operation invocation ≡ none
unfolding authorization_policy_denial decide_authorization denied_reason
policies_never_deny auth resource operation invocation = ground arith

requirement_iff :
    (requirement : Option AuthorizationRequirement) (mismatch operation : String) (resource : _)
    (invocation : EndpointInvocation)
    → (requirement_denial requirement mismatch resource operation invocation ≡ none)
      ↔ Admits requirement invocation.caller.roles
unfolding requirement_denial
requirement_iff none mismatch operation resource invocation = (λ h. tt, λ h. refl)
requirement_iff (some auth) mismatch operation resource invocation =
    let fits = authorization_matches_iff auth invocation.caller.roles in
    elim (Bool-cases (authorization_matches auth invocation.caller.roles)) [
      | inl t ↦ (λ h. fits.0 t, λ h. rw t (policies_never_deny auth resource operation invocation))
      | inr f ↦ (λ h. absurd (ground (arith, f, h)), λ h. absurd (ground (arith, f, fits.1 h)))
    ]

record_iff :
    (pack : RuntimePack) (endpoint : EndpointDefinition) (invocation : EndpointInvocation)
    (entity : Option String)
    → (and_then entity (record_denial pack endpoint invocation) ≡ none)
      ↔ Admits
          (and_then entity λ name.
            and_then
              (Maps.get name pack.record_access)
              λ access. access_for endpoint.operation access)
          invocation.caller.roles
unfolding record_denial
record_iff pack endpoint invocation none = (λ h. tt, λ h. refl)
record_iff pack endpoint invocation (some name) =
    elim (Option-cases (Maps.get name pack.record_access)) [
      | inl e ↦ rw e (λ h. tt, λ h. refl)
      | inr (access, e) ↦
          rw e (requirement_iff (access_for endpoint.operation access) _ _ _ invocation)
    ]

or_else-none : {A : Type 0} (a b : Option A) → (or_else a b ≡ none) ↔ ((a ≡ none) × (b ≡ none))
or_else-none none b = (λ h. (refl, h), λ h. h.1)
or_else-none (some x) b = (λ h. cc, λ h. cc)

-- A caller is denied unless its roles fit what the endpoint and the access to its record ask for, and for
-- no other reason: the policies and the conditions of a requirement play no part.
pub authorization_denial_iff :
    (pack : RuntimePack) (endpoint : EndpointDefinition) (invocation : EndpointInvocation)
    → (authorization_denial pack endpoint invocation ≡ none) ↔ (
        Admits endpoint.authorization invocation.caller.roles
        × Admits (record_requirement pack endpoint) invocation.caller.roles)
unfolding authorization_denial
authorization_denial_iff pack endpoint invocation =
    let both =
      or_else-none (requirement_denial endpoint.authorization _ _ _ invocation)
        (and_then endpoint.entity (record_denial pack endpoint invocation)) in
    let first = requirement_iff endpoint.authorization _ _ _ invocation in
    let second = record_iff pack endpoint invocation endpoint.entity in
    (λ h. (first.0 (both.0 h).0, second.0 (both.0 h).1), λ h. both.1 (first.1 h.0, second.1 h.1))
