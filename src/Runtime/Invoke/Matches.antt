-- ===== src/Runtime/Invoke/Matches.antt =====
-- The matches of `invoke` on the decisions of the policy, the broker and the control hook.
use greentic_sorx.Prelude.{◌≡◌, refl}
use greentic_sorx.Policy.{PolicyAction}
use greentic_sorx.Runtime.Types.{ApprovalStatus, ControlDecisionAction}

module _ {ℓ κ} {X : Type ℓ} (K : X → Type κ) where
  pub match_policy :
      (a : PolicyAction) (x y z : X)
      → (a ≡ PolicyAction.execute → K x)
      → (a ≡ PolicyAction.deny → K y)
      → (a ≡ PolicyAction.require_approval → K z)
      → K (elim a [
        | PolicyAction.execute ↦ x
        | PolicyAction.deny ↦ y
        | PolicyAction.require_approval ↦ z
      ])
  match_policy PolicyAction.execute x y z f g h = f refl
  match_policy PolicyAction.deny x y z f g h = g refl
  match_policy PolicyAction.require_approval x y z f g h = h refl

  pub match_approval :
      (a : ApprovalStatus) (x y z : X)
      → (a ≡ ApprovalStatus.approved → K x)
      → (a ≡ ApprovalStatus.denied → K y)
      → (a ≡ ApprovalStatus.pending → K z)
      → K (elim a [
        | ApprovalStatus.approved ↦ x
        | ApprovalStatus.denied ↦ y
        | ApprovalStatus.pending ↦ z
      ])
  match_approval ApprovalStatus.approved x y z f g h = f refl
  match_approval ApprovalStatus.denied x y z f g h = g refl
  match_approval ApprovalStatus.pending x y z f g h = h refl

  pub match_control :
      (a : ControlDecisionAction) (x y z : X)
      → (a ≡ ControlDecisionAction.allow → K x)
      → (a ≡ ControlDecisionAction.allow_with_patch → K y)
      → (a ≡ ControlDecisionAction.deny → K z)
      → K (elim a [
        | ControlDecisionAction.allow ↦ x
        | ControlDecisionAction.allow_with_patch ↦ y
        | ControlDecisionAction.deny ↦ z
      ])
  match_control ControlDecisionAction.allow x y z f g h = f refl
  match_control ControlDecisionAction.allow_with_patch x y z f g h = g refl
  match_control ControlDecisionAction.deny x y z f g h = h refl
