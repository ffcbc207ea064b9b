-- ===== src/Manager/Filter/Disclosed.antt =====
-- What a filtered view discloses.
use greentic_sorx.Prelude.{
  [], ◌∷◌, List, String, Bool, true, false, Option, none, some, ◌≡◌, refl, ap, All, inl, inr,
  Option-cases, Bool-cases, retain,
}
use mathlib.Core.List.{Memᴰ}
use greentic_sorx.Prelude.{All-by_Memᴰ}
use greentic_sorx.Json
use greentic_sorx.Json.{unwrap_or, or_else}
use greentic_sorx.Prelude.Maps
use greentic_sorx.Manager.Policy.{
  ManagerPolicyEffect, ManagerPolicyDecision, ManagerPolicySet, allowed, is_hidden, hides,
}
use greentic_sorx.Manager.View.{
  ManagerFieldView, ManagerRecordView, ManagerActionView, ManagerRelationshipView,
  ManagerPolicyHint, ManagerViewModel,
}
use greentic_sorx.Manager.Filter.{
  sift, record_decision, field_decision, action_decision, relationship_decision, filter_field,
  filter_record, filter_action, filter_relationship, filter_manager_view, is_visible, is_offered,
  is_read_only,
}

-- What a step says of everything that it keeps holds of all that is kept.
abbrev Keeps : {A : Type 0} → (A → Type 0) → Option A → Type 0
Keeps Q none = Unit
Keeps Q (some y) = Q y

All-sift :
    {A : Type 0} (Q : A → Type 0) (step : A → Option A × List ManagerPolicyHint) (xs : List A)
    → All (λ x. Keeps Q (step x).0) xs
    → All Q (sift step xs).0
unfolding sift
All-sift Q step [] keeps = tt
All-sift Q step (x ∷ xs) keeps = elim (Option-cases (step x).0) [
  | inl e ↦ rw e (All-sift Q step xs keeps.1)
  | inr (y, e) ↦
      let q : Keeps Q (step x).0 = keeps.0 in rw e (rw e at q, All-sift Q step xs keeps.1)
]

-- Where a step keeps it of everything.
All-sift_each :
    {A : Type 0} (Q : A → Type 0) (step : A → Option A × List ManagerPolicyHint)
    → ((x : A) → Keeps Q (step x).0)
    → (xs : List A) → All Q (sift step xs).0
All-sift_each Q step keeps xs =
    All-sift Q step xs (All-by_Memᴰ (λ x. Keeps Q (step x).0) xs (λ x member. keeps x))

-- The decision of the policies on the field, which is to allow it where they have none.
FieldShown : ManagerPolicySet → String → ManagerFieldView → Type 0
FieldShown ps name f =
    let d = unwrap_or allowed (Maps.get f.name (unwrap_or [] (Maps.get name ps.fields))) in
    (is_hidden d ≡ false)
    × (d.effect ≡ ManagerPolicyEffect.redact → f.content ≡ some (Json.string "redacted"))

-- The decision of the policies on the record, which is to allow it where they have none.
RecordShown : ManagerPolicySet → ManagerRecordView → Type 0
RecordShown ps r =
    (is_hidden (unwrap_or allowed (Maps.get r.record_name ps.records)) ≡ false)
    × All (FieldShown ps r.record_name) r.fields

FieldShown-at :
    (ps : ManagerPolicySet) (name : String) (f : ManagerFieldView) (e : ManagerPolicyEffect)
    → (field_decision ps name f.name).effect ≡ e
    → Keeps (FieldShown ps name) (filter_field ps name f).0
unfolding filter_field field_decision FieldShown is_hidden hides
FieldShown-at ps name f ManagerPolicyEffect.allow is = rw (Keeps, is) (ap hides is, λ r. absurd cc)
FieldShown-at ps name f ManagerPolicyEffect.read_only is =
    rw (Keeps, is) (ap hides is, λ r. absurd cc)
FieldShown-at ps name f ManagerPolicyEffect.redact is = rw (Keeps, is) (ap hides is, λ r. refl)
FieldShown-at ps name f ManagerPolicyEffect.hide is = rw (Keeps, is) tt
FieldShown-at ps name f ManagerPolicyEffect.requires_approval is =
    rw (Keeps, is) (ap hides is, λ r. absurd cc)
FieldShown-at ps name f ManagerPolicyEffect.deny is = rw (Keeps, is) tt

record_shown :
    (ps : ManagerPolicySet) (r : ManagerRecordView) → Keeps (RecordShown ps) (filter_record ps r).0
unfolding filter_record record_decision RecordShown
record_shown ps r = elim (Bool-cases (is_hidden (record_decision ps r.record_name))) [
  | inl t ↦ rw t tt
  | inr f ↦ rw f (
    f,
    All-sift_each (FieldShown ps r.record_name) (filter_field ps r.record_name)
        (λ x. FieldShown-at ps r.record_name x (field_decision ps r.record_name x.name).effect refl)
        r.fields,
  )
]

-- The decision that the policies have on the action, under its own id or else under that of its endpoint.
abbrev pub decided : ManagerPolicySet → ManagerActionView → Option ManagerPolicyDecision
decided ps a = or_else (Maps.get a.action_id ps.actions) (Maps.get a.endpoint_id ps.actions)

-- The action is one of those given, with that decision or else its own, which lets it be shown.
ActionShown :
    ManagerPolicySet → List ManagerActionView → List ManagerRecordView → ManagerActionView → Type 0
ActionShown ps given records b =
    (a : ManagerActionView) × Memᴰ a given
    × (b.action_id ≡ a.action_id)
    × (b.policy ≡ unwrap_or a.policy (decided ps a))
    × (is_hidden b.policy ≡ false)
    × (is_offered records b.record_name ≡ true)

action_decided :
    (ps : ManagerPolicySet) (a : ManagerActionView)
    → action_decision ps a ≡ unwrap_or a.policy (decided ps a)
unfolding action_decision
action_decided ps a = elim (Option-cases (Maps.get a.action_id ps.actions)) [
  | inr (d, own) ↦ rw (own, action_decision) refl
  | inl none_own ↦ rw (none_own, action_decision) refl
]

ActionShown-at :
    (ps : ManagerPolicySet) (given : List ManagerActionView) (records : List ManagerRecordView)
    (a : ManagerActionView) (e : ManagerPolicyEffect)
    → (action_decision ps a).effect ≡ e
    → is_offered records a.record_name ≡ true
    → Memᴰ a given
    → Keeps (ActionShown ps given records) (filter_action ps records a).0
unfolding filter_action ActionShown is_hidden hides
ActionShown-at ps given records a ManagerPolicyEffect.allow is o m =
    rw (o, is) (a, m, refl, action_decided ps a, ap hides is, o)
ActionShown-at ps given records a ManagerPolicyEffect.read_only is o m =
    rw (o, is) (a, m, refl, action_decided ps a, ap hides is, o)
ActionShown-at ps given records a ManagerPolicyEffect.redact is o m =
    rw (o, is) (a, m, refl, action_decided ps a, ap hides is, o)
ActionShown-at ps given records a ManagerPolicyEffect.hide is o m = rw (o, is) tt
ActionShown-at ps given records a ManagerPolicyEffect.requires_approval is o m =
    rw (o, is) (a, m, refl, action_decided ps a, ap hides is, o)
ActionShown-at ps given records a ManagerPolicyEffect.deny is o m = rw (o, is) tt

action_shown :
    (ps : ManagerPolicySet) (given : List ManagerActionView) (records : List ManagerRecordView)
    (a : ManagerActionView)
    → Memᴰ a given
    → Keeps (ActionShown ps given records) (filter_action ps records a).0
unfolding filter_action
action_shown ps given records a m = elim (Bool-cases (is_offered records a.record_name)) [
  | inl o ↦ ActionShown-at ps given records a (action_decision ps a).effect refl o m
  | inr o ↦ rw o tt
]

-- The decision of the policies on the relationship, which is to allow it where they have none.
RelationshipShown : ManagerPolicySet → List ManagerRecordView → ManagerRelationshipView → Type 0
RelationshipShown ps records r =
    (is_hidden (unwrap_or allowed (Maps.get r.id ps.relationships)) ≡ false)
    × (is_visible records r.from_record ≡ true)
    × (is_visible records r.to_record ≡ true)

relationship_shown :
    (ps : ManagerPolicySet) (records : List ManagerRecordView) (r : ManagerRelationshipView)
    → Keeps (RelationshipShown ps records) (filter_relationship ps records r).0
unfolding filter_relationship relationship_decision RelationshipShown
relationship_shown ps records r = elim (Bool-cases (is_visible records r.from_record)) [
  | inr f ↦ rw f tt
  | inl from ↦ elim (Bool-cases (is_visible records r.to_record)) [
    | inr f ↦ rw (from, f) tt
    | inl to ↦ elim (Bool-cases (is_hidden (relationship_decision ps r.id))) [
      | inl h ↦ rw (from, to, h) tt
      | inr h ↦ elim (Bool-cases (is_read_only (relationship_decision ps r.id).effect)) [
        | inl t ↦ rw (from, to, h, t) (h, from, to)
        | inr t ↦ rw (from, to, h, t) (h, from, to)
      ]
    ]
  ]
]

retained_hold : {A : Type 0} (p : A → Bool) (xs : List A) → All (λ x. p x ≡ true) (retain p xs)
retained_hold p [] = tt
retained_hold p (x ∷ xs) = elim (Bool-cases (p x)) [
  | inl t ↦ rw t (t, retained_hold p xs)
  | inr f ↦ rw f (retained_hold p xs)
]

-- Nothing of a given view that the policies hide, and no value that they redact.
pub Discloses : ManagerPolicySet → ManagerViewModel → ManagerViewModel → Type 0
Discloses ps given view =
    All (RecordShown ps) view.records
    × All (λ item. is_visible view.records item.record_name ≡ true) view.navigation
    × All (ActionShown ps given.actions view.records) view.actions
    × All (RelationshipShown ps view.records) view.relationships

-- Of a filtered view, no record, field or relationship is one that the policies decide to hide or deny, and
-- a field that they decide to redact shows the text "redacted". An action is one of the view that was
-- filtered, has the decision that the policies have on its id, or else on its endpoint's id, or else the one
-- it had, and that is not to hide or deny it. Navigation, relationships and actions, but those of no record
-- or of "Record", lead to records that the filtered view still shows.
pub filter_manager_view-Discloses :
    (view : ManagerViewModel) (ps : ManagerPolicySet)
    → Discloses ps view (filter_manager_view view ps)
unfolding filter_manager_view Discloses
filter_manager_view-Discloses view ps =
    let records = (sift (filter_record ps) view.records).0 in
    let shown = ActionShown ps view.actions records in
    (
      All-sift_each (RecordShown ps) (filter_record ps) (record_shown ps) view.records,
      retained_hold (λ item. is_visible records item.record_name) view.navigation,
      All-sift shown (filter_action ps records) view.actions (
          All-by_Memᴰ (λ a. Keeps shown (filter_action ps records a).0) view.actions
            (λ a m. action_shown ps view.actions records a m)),
      All-sift_each (RelationshipShown ps records) (filter_relationship ps records)
          (relationship_shown ps records) view.relationships,
    )
