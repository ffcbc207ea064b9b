-- ===== src/Manager/Policy.antt =====
-- crates/greentic-sorx-core/src/manager/policy.rs: decisions; manager/filter.rs: the sets of them.
use greentic_sorx.Prelude.{String, Bool, true, false, Option, none}
use greentic_sorx.Prelude.Maps.{Map}

pub data ManagerPolicyEffect : Type 0 where
  allow read_only redact hide requires_approval deny : ManagerPolicyEffect

pub record ManagerPolicyDecision : Type 0 where
  pub effect : ManagerPolicyEffect
  pub reason_code : Option String
  pub message_key : Option String
  pub audit_hint : Option String

-- `ManagerPolicyDecision::allow`, which is also the default
abbrev pub allowed : ManagerPolicyDecision
allowed = record {
  effect = ManagerPolicyEffect.allow;
  reason_code = none;
  message_key = none;
  audit_hint = none;
}

unfoldable pub hides : ManagerPolicyEffect → Bool
hides hide = true
hides deny = true
hides _ = false

unfoldable pub is_hidden : ManagerPolicyDecision → Bool
unfolding hides
is_hidden d = hides d.effect

pub record ManagerPolicySet : Type 0 where
  pub records : Map ManagerPolicyDecision
  pub fields : Map (Map ManagerPolicyDecision)
  pub actions : Map ManagerPolicyDecision
  pub relationships : Map ManagerPolicyDecision
