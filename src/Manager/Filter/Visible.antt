-- ===== src/Manager/Filter/Visible.antt =====
-- The records that a filtered view shows.
use greentic_sorx.Prelude.{
  [], ◌∷◌, List, String, Bool, true, false, not, ◌≡◌, refl, ap, arith, ◌==◌, ◌&&◌, ◌||◌, eq_iff,
  inl, inr, Option, none, some, ◌∙◌, Bool-cases,
}
use greentic_sorx.Manager.Policy.{ManagerPolicySet, is_hidden}
use greentic_sorx.Manager.View.{ManagerRecordView, ManagerViewModel, ManagerPolicyHint}
use greentic_sorx.Manager.Filter.{
  sift, record_decision, filter_field, filter_record, filter_manager_view, is_visible,
}

head_hidden :
    (ps : ManagerPolicySet) (r : ManagerRecordView) (name : String) (rest : Bool)
    → is_hidden (record_decision ps r.record_name) ≡ true
    → rest && not (is_hidden (record_decision ps name))
      ≡ ((r.record_name == name) || rest) && not (is_hidden (record_decision ps name))
head_hidden ps r name rest h = elim (Bool-cases (r.record_name == name)) [
  | inl t ↦
      let same : r.record_name ≡ name = ground (arith, eq_iff r.record_name name) in
      let gone : is_hidden (record_decision ps name) ≡ true = rw (← same) h in
      rw gone (ground arith)
  | inr f ↦ rw f refl
]

head_shown :
    (ps : ManagerPolicySet) (r : ManagerRecordView) (name : String) (rest : Bool)
    → is_hidden (record_decision ps r.record_name) ≡ false
    → (r.record_name == name) || (rest && not (is_hidden (record_decision ps name)))
      ≡ ((r.record_name == name) || rest) && not (is_hidden (record_decision ps name))
head_shown ps r name rest h = elim (Bool-cases (r.record_name == name)) [
  | inl t ↦
      let same : r.record_name ≡ name = ground (arith, eq_iff r.record_name name) in
      let here : is_hidden (record_decision ps name) ≡ false = rw (← same) h in rw (t, here) refl
  | inr f ↦ rw f refl
]

hidden_dropped :
    (ps : ManagerPolicySet) (r : ManagerRecordView)
    → is_hidden (record_decision ps r.record_name) ≡ true
    → (filter_record ps r).0 ≡ none
unfolding filter_record
hidden_dropped ps r h = rw h refl

shown : ManagerPolicySet → ManagerRecordView → ManagerRecordView
shown ps r = record r {
  policy = record_decision ps r.record_name;
  fields = (sift (filter_field ps r.record_name) r.fields).0;
}

shown_kept :
    (ps : ManagerPolicySet) (r : ManagerRecordView)
    → is_hidden (record_decision ps r.record_name) ≡ false
    → (filter_record ps r).0 ≡ some (shown ps r)
unfolding filter_record shown
shown_kept ps r h = rw h refl

module _ {A : Type 0} (step : A → Option A × List ManagerPolicyHint) where
  sift_dropped :
      (x : A) (xs : List A) → (step x).0 ≡ none → (sift step (x ∷ xs)).0 ≡ (sift step xs).0
  unfolding sift
  sift_dropped x xs e = rw e refl

  sift_kept :
      (x y : A) (xs : List A) → (step x).0 ≡ some y → (sift step (x ∷ xs)).0 ≡ y ∷ (sift step xs).0
  unfolding sift
  sift_kept x y xs e = rw e refl

is_visible-sift :
    (ps : ManagerPolicySet) (name : String) (rs : List ManagerRecordView)
    → is_visible (sift (filter_record ps) rs).0 name
      ≡ is_visible rs name && not (is_hidden (record_decision ps name))
unfolding is_visible sift shown
is_visible-sift ps name [] = refl
is_visible-sift ps name (r ∷ rs) =
    elim (Bool-cases (is_hidden (record_decision ps r.record_name))) [
      | inl t ↦
          ap (λ xs. is_visible xs name)
            (sift_dropped (filter_record ps) r rs (hidden_dropped ps r t))
          ∙ is_visible-sift ps name rs
          ∙ head_hidden ps r name (is_visible rs name) t
      | inr f ↦
          ap (λ xs. is_visible xs name)
            (sift_kept (filter_record ps) r (shown ps r) rs (shown_kept ps r f))
          ∙ ap (λ b. (r.record_name == name) || b) (is_visible-sift ps name rs)
          ∙ head_shown ps r name (is_visible rs name) f
    ]

-- A filtered view shows a record exactly where the view shows it and the decision on it, which is to allow
-- it where there is none, neither hides nor denies it.
pub is_visible-filter_manager_view :
    (view : ManagerViewModel) (ps : ManagerPolicySet) (name : String)
    → is_visible (filter_manager_view view ps).records name
      ≡ is_visible view.records name && not (is_hidden (record_decision ps name))
unfolding filter_manager_view
is_visible-filter_manager_view view ps name = is_visible-sift ps name view.records
