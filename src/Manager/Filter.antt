-- ===== src/Manager/Filter.antt =====
-- crates/greentic-sorx-core/src/manager/filter.rs: what the policies leave of a view.
pub mod Disclosed
pub mod Visible
use greentic_sorx.Prelude.{
  [], ◌∷◌, ◌++◌, List, String, Bool, true, false, not, Option, none, some, ◌==◌, ◌&&◌, ◌||◌, any,
  retain, if◌then◌else◌,
}
use greentic_sorx.Prelude.Text.{◌+++◌}
use greentic_sorx.Prelude.Maps
use greentic_sorx.Prelude.Maps.{Map}
use greentic_sorx.Json
use greentic_sorx.Json.{unwrap_or}
use greentic_sorx.Manager.Policy.{
  ManagerPolicyEffect, ManagerPolicyDecision, ManagerPolicySet, allowed, is_hidden,
}
use greentic_sorx.Manager.View.{
  ManagerFieldView, ManagerRecordView, ManagerActionView, ManagerRelationshipView,
  ManagerPolicyHint, ManagerViewModel,
}

-- `retain_mut` whose step changes what it keeps and pushes hints
unfoldable pub sift :
    {A : Type 0}
    → (A → Option A × List ManagerPolicyHint)
    → List A
    → List A × List ManagerPolicyHint
sift step [] = ([], [])
sift step (x ∷ xs) =
    let (kept, hints) = step x in
    let (rest, more) = sift step xs in
    (elim kept [ none ↦ rest | some y ↦ y ∷ rest ], hints ++ more)

abbrev pub hint : String → String → ManagerPolicyDecision → List ManagerPolicyHint
hint scope target decision = record { scope = scope; target = target; decision = decision } ∷ []

unfoldable pub record_decision : ManagerPolicySet → String → ManagerPolicyDecision
record_decision ps name = unwrap_or allowed (Maps.get name ps.records)

unfoldable pub field_decision : ManagerPolicySet → String → String → ManagerPolicyDecision
field_decision ps name field =
    unwrap_or allowed (Maps.get field (unwrap_or [] (Maps.get name ps.fields)))

unfoldable pub filter_field :
    ManagerPolicySet → String → ManagerFieldView → Option ManagerFieldView × List ManagerPolicyHint
filter_field ps name f =
    let d = field_decision ps name f.name in
    let told = hint "field" (name +++ "." +++ f.name) d in
    elim (d.effect) [
      | ManagerPolicyEffect.hide ↦ (none, told)
      | ManagerPolicyEffect.deny ↦ (none, told)
      | ManagerPolicyEffect.redact ↦ (
        some (record f { policy = d; redacted = true; content = some (Json.string "redacted") }),
        [],
      )
      | ManagerPolicyEffect.read_only ↦ (some (record f { policy = d; read_only = true }), [])
      | ManagerPolicyEffect.allow ↦ (some (record f { policy = d }), [])
      | ManagerPolicyEffect.requires_approval ↦ (some (record f { policy = d }), [])
    ]

unfoldable pub filter_record :
    ManagerPolicySet → ManagerRecordView → Option ManagerRecordView × List ManagerPolicyHint
filter_record ps r =
    let d = record_decision ps r.record_name in
    let (fields, hints) = sift (filter_field ps r.record_name) r.fields in
    if is_hidden d
    then (none, hint "record" r.record_name d)
    else (some (record r { policy = d; fields = fields }), hints)

-- `visible_records.contains`
unfoldable pub is_visible : List ManagerRecordView → String → Bool
is_visible records name = any (λ r. r.record_name == name) records

unfoldable pub is_offered : List ManagerRecordView → Option String → Bool
is_offered records none = true
is_offered records (some name) = (name == "Record") || is_visible records name

unfoldable pub action_decision : ManagerPolicySet → ManagerActionView → ManagerPolicyDecision
action_decision ps a = elim (Maps.get a.action_id ps.actions) [
  | some d ↦ d
  | none ↦ unwrap_or a.policy (Maps.get a.endpoint_id ps.actions)
]

unfoldable pub filter_action :
    ManagerPolicySet
    → List ManagerRecordView
    → ManagerActionView
    → Option ManagerActionView × List ManagerPolicyHint
filter_action ps records a =
    let d = action_decision ps a in
    let told = hint "action" a.action_id d in
    if not (is_offered records a.record_name) then (none, []) else elim (d.effect) [
      | ManagerPolicyEffect.hide ↦ (none, told)
      | ManagerPolicyEffect.deny ↦ (none, told)
      | ManagerPolicyEffect.requires_approval ↦
          (some (record a { policy = d; approval_required = true }), [])
      | ManagerPolicyEffect.read_only ↦ (some (record a { policy = d }), [])
      | ManagerPolicyEffect.redact ↦ (some (record a { policy = d }), [])
      | ManagerPolicyEffect.allow ↦ (some (record a { policy = d }), [])
    ]

unfoldable pub relationship_decision : ManagerPolicySet → String → ManagerPolicyDecision
relationship_decision ps id = unwrap_or allowed (Maps.get id ps.relationships)

is_read_only : ManagerPolicyEffect → Bool
is_read_only ManagerPolicyEffect.read_only = true
is_read_only _ = false

unfoldable pub filter_relationship :
    ManagerPolicySet
    → List ManagerRecordView
    → ManagerRelationshipView
    → Option ManagerRelationshipView × List ManagerPolicyHint
unfolding is_read_only
filter_relationship ps records r =
    let d = relationship_decision ps r.id in
    if not (is_visible records r.from_record) || not (is_visible records r.to_record)
    then (none, [])
    else if is_hidden d
    then (none, hint "relationship" r.id d)
    else if is_read_only d.effect
    then (some (record r { policy = d; limited_context = true }), [])
    else (some (record r { policy = d }), [])

unfoldable pub filter_manager_view : ManagerViewModel → ManagerPolicySet → ManagerViewModel
unfolding sift filter_record filter_action filter_relationship is_visible
filter_manager_view view ps =
    let (records, record_hints) = sift (filter_record ps) view.records in
    let (actions, action_hints) = sift (filter_action ps records) view.actions in
    let (relationships, relationship_hints) =
      sift (filter_relationship ps records) view.relationships in
    record view {
      records = records;
      navigation = retain (λ item. is_visible records item.record_name) view.navigation;
      actions = actions;
      relationships = relationships;
      policies = view.policies ++ record_hints ++ action_hints ++ relationship_hints;
    }
