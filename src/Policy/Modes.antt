-- ===== src/Policy/Modes.antt =====
-- Which mode a configuration gives a risk level.
use greentic_sorx.Policy.{
  risk_eq, is_required, parse_mode, default_mode, PolicyAction, ApprovalRequirement, parse_risk,
  PolicyConfig, PolicyMode, from_modes, insert_mode, mode_for, decide, RiskLevel, apply_modes,
  apply_parsed,
}
use greentic_sorx.Prelude.{
  false, arith, ◌↔◌, ap, if◌then◌else◌, ◌∙◌, some, ◌≡◌, none, String, Option, [], ◌∷◌, refl,
}
use greentic_sorx.Prelude.Maps.{Map}
use greentic_sorx.Json.{unwrap_or, or_else}

-- The mode of an entry for a risk level: none where the entry is for another level, or either of its
-- texts is not known.
pub entry_mode : RiskLevel → String → String → Option PolicyMode
entry_mode risk key value = elim (parse_risk key) [
  | none ↦ none
  | some other ↦ if risk_eq other risk then parse_mode value else none
]

-- The last entry for the level decides.
pub chosen : RiskLevel → Map String → Option PolicyMode
unfolding entry_mode
chosen risk [] = none
chosen risk ((key, value) ∷ modes) = or_else (chosen risk modes) (entry_mode risk key value)

apply_parsed-or_else :
    (risk : RiskLevel) (key value : String) (approvals : RiskLevel → Option PolicyMode)
    → apply_parsed (parse_risk key) (parse_mode value) approvals risk
      ≡ or_else (entry_mode risk key value) (approvals risk)
unfolding apply_parsed insert_mode entry_mode
apply_parsed-or_else risk key value approvals = ground arith

or_else_assoc : (a b c : Option PolicyMode) → or_else a (or_else b c) ≡ or_else (or_else a b) c
or_else_assoc none b c = refl
or_else_assoc (some x) b c = refl

apply_modes-or_else :
    (risk : RiskLevel) (modes : Map String) (approvals : RiskLevel → Option PolicyMode)
    → apply_modes modes approvals risk ≡ or_else (chosen risk modes) (approvals risk)
unfolding apply_modes chosen
apply_modes-or_else risk [] approvals = refl
apply_modes-or_else risk ((key, value) ∷ modes) approvals =
    apply_modes-or_else risk modes (apply_parsed (parse_risk key) (parse_mode value) approvals)
    ∙ ap (or_else (chosen risk modes)) (apply_parsed-or_else risk key value approvals)
    ∙ or_else_assoc (chosen risk modes) (entry_mode risk key value) (approvals risk)

-- A risk level has the mode of the last entry for it whose level and mode are both known, and the
-- default mode where there is none.
pub mode_for-from_modes :
    (modes : Map String) (risk : RiskLevel)
    → mode_for (from_modes modes) risk ≡ unwrap_or (default_mode risk) (chosen risk modes)
unfolding mode_for from_modes
mode_for-from_modes modes risk =
    ap (unwrap_or (default_mode risk)) (apply_modes-or_else risk modes (λ r. some (default_mode r)))
    ∙ ground arith

-- An endpoint is executed at once exactly where its level's mode is automatic and its metadata asks
-- for no approval; it is denied exactly where the mode is to deny.
pub decide_iff :
    (config : PolicyConfig) (risk : RiskLevel) (approval : Option ApprovalRequirement)
    → (((decide config risk approval).action ≡ PolicyAction.execute)
        ↔ ((mode_for config risk ≡ PolicyMode.auto) × (is_required approval ≡ false)))
      × (((decide config risk approval).action ≡ PolicyAction.deny)
          ↔ (mode_for config risk ≡ PolicyMode.deny))
unfolding decide
decide_iff config risk approval = ground arith
