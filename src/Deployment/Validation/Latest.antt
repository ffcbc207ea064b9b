-- ===== src/Deployment/Validation/Latest.antt =====
-- Which of the reports on a deployment is the latest.
use mathlib.Core.List.{reverse, reverse-cons}
use greentic_sorx.Prelude.{
  [], ◌∷◌, ◌++◌, List, String, Bool, true, false, Option, none, some, ◌≡◌, ◌↔◌, ◌≢◌, refl, ap, ◌∙◌,
  arith, eq_iff, eq_refl, find, All, Option-cases, Bool-cases, inl, inr, find-append_some,
  find-append_none,
}
use greentic_sorx.Json.{Value, string_field}
use greentic_sorx.Deployment.Types.{DeploymentRegistry}
use greentic_sorx.Deployment.Validation.{is_text, latest_validation_report}

module _ {A : Type 0} (p : A → Bool) where
  -- The last element of a list that passes.
  IsLast : List A → A → Type 0
  IsLast xs x =
      (older : List A) × ((newer : List A) × (xs ≡ older ++ x ∷ newer)
        × (p x ≡ true)
        × All (λ y. p y ≡ false) newer)

  none_from : (xs : List A) → find p (reverse xs) ≡ none → All (λ y. p y ≡ false) xs
  none_from [] h = tt
  none_from (x ∷ xs) h =
      let h' : find p (reverse xs ++ x ∷ []) ≡ none = rw (reverse-cons x xs) at h in
      elim (Option-cases (find p (reverse xs))) [
        | inr (y, hit) ↦ absurd (cc (find-append_some p (reverse xs) (x ∷ []) hit, h'))
        | inl missing ↦
            let one = find-append_none p (reverse xs) (x ∷ []) missing in
            (ground (arith, one, h'), none_from xs missing)
      ]

  none_of_All : (xs : List A) → All (λ y. p y ≡ false) xs → find p (reverse xs) ≡ none
  none_of_All [] h = refl
  none_of_All (x ∷ xs) h =
      rw (reverse-cons x xs)
        (find-append_none p (reverse xs) (x ∷ []) (none_of_All xs h.1) ∙ ground (arith, h.0))

  IsLast-found : (xs : List A) (x : A) → find p (reverse xs) ≡ some x → IsLast xs x
  unfolding IsLast
  IsLast-found [] x h = cc h
  IsLast-found (y ∷ ys) x h =
      let h' : find p (reverse ys ++ y ∷ []) ≡ some x = rw (reverse-cons y ys) at h in
      elim (Option-cases (find p (reverse ys))) [
        | inr (z, hit) ↦
            let same : z ≡ x = cc (find-append_some p (reverse ys) (y ∷ []) hit, h') in
            let (older, (newer, split, passes, rest)) = IsLast-found ys x (rw same at hit) in
            (y ∷ older, (newer, ap (λ l. y ∷ l) split, passes, rest))
        | inl missing ↦
            let one = find-append_none p (reverse ys) (y ∷ []) missing in
            elim (Bool-cases (p y)) [
              | inl t ↦
                  let same : y ≡ x = ground (arith, one, h', t) in
                  ([], (ys, ap (λ z. z ∷ ys) same, rw same at t, none_from ys missing))
              | inr f ↦ absurd (ground (arith, one, h', f))
            ]
      ]

  found_last :
      (older newer : List A) (x : A)
      → p x ≡ true
      → All (λ y. p y ≡ false) newer
      → find p (reverse (older ++ x ∷ newer)) ≡ some x
  found_last [] newer x passes rest = rw (reverse-cons x newer) (
      find-append_none p (reverse newer) (x ∷ []) (none_of_All newer rest) ∙ ground (arith, passes))
  found_last (y ∷ older) newer x passes rest = rw (reverse-cons y (older ++ x ∷ newer)) (
      find-append_some p (reverse (older ++ x ∷ newer)) (y ∷ [])
        (found_last older newer x passes rest))

pub is_text-eq : (s : String) (o : Option String) → is_text s o ≡ true → o ≡ some s
is_text-eq s none h = cc
is_text-eq s (some t) h = ap some ((eq_iff t s).0 h)

pub is_text_self : (s : String) → is_text s (some s) ≡ true
is_text_self s = eq_refl s

is_text-differs : (s : String) (o : Option String) → is_text s o ≡ false → o ≢ some s
is_text-differs s o h same = absurd (ground (arith, rw same at h, is_text_self s))

differs-is_text : (s : String) (o : Option String) → o ≢ some s → is_text s o ≡ false
differs-is_text s o h = elim (Bool-cases (is_text s o)) [
  | inl t ↦ absurd (h (is_text-eq s o t))
  | inr f ↦ f
]

-- The report names the deployment, and none that was recorded after it does.
pub IsLatest : String → DeploymentRegistry → Value → Type 0
IsLatest id r report =
    (older : List Value) × ((newer : List Value) × (r.validation_reports ≡ older ++ report ∷ newer)
      × (string_field "deployment_id" report ≡ some id)
      × All (λ other. string_field "deployment_id" other ≢ some id) newer)

All-mapped :
    {A : Type 0} {P Q : A → Type 0} → ((x : A) → P x → Q x) → (xs : List A) → All P xs → All Q xs
All-mapped f [] h = tt
All-mapped f (x ∷ xs) h = (f x h.0, All-mapped f xs h.1)

-- The search of the gate finds a report exactly where it is the latest.
pub IsLatest-iff :
    (id : String) (r : DeploymentRegistry) (report : Value)
    → (latest_validation_report id r ≡ some report) ↔ IsLatest id r report
unfolding latest_validation_report IsLatest IsLast
IsLatest-iff id r report =
    let id_of = λ (v : Value). string_field "deployment_id" v in
    let test = λ (v : Value). is_text id (id_of v) in
    (
      λ h.
          let (older, (newer, split, passes, rest)) =
            IsLast-found test r.validation_reports report h in
          (
            older,
            (
              newer,
              split,
              is_text-eq id (id_of report) passes,
              All-mapped (λ v. is_text-differs id (id_of v)) newer rest,
            ),
          ),
      λ (older, (newer, split, named, rest)). rw split (
          found_last test older newer report (rw named (is_text_self id))
            (All-mapped (λ v. differs-is_text id (id_of v)) newer rest)),
    )
