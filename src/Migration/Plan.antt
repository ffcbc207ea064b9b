-- ===== src/Migration/Plan.antt =====
-- crates/greentic-sorx-core/src/migration/plan.rs: what a pack declares; and the gate in deployment.rs
-- that stands before a migration.
use greentic_sorx.Prelude.Text.{◌+++◌}
use greentic_sorx.Prelude.{
  refl, [], arith, ◌&&◌, if◌then◌else◌, All, not, ◌↔◌, ◌∷◌, ◌||◌, false, Option, ◌≡◌, true, List,
  String, Bool,
}
use greentic_sorx.Prelude.Results.{err, ok, Result}
use greentic_sorx.Deployment.Types.{DeploymentRegistryError, StateMode, new}
use greentic_sorx.Json.{unwrap_or, Value}
use greentic_sorx.Prelude.Maps.{contains, Set}

pub data CompatibilityMode : Type 0 where
  additive backward_compatible breaking : CompatibilityMode

pub record MigrationBackfill : Type 0 where
  pub record_name : String
  pub field : String
  pub default : Value

pub record CompatibilityMigration : Type 0 where
  pub name : String
  pub compatibility : CompatibilityMode
  pub from_version : Option String
  pub to_version : Option String
  pub projection_updates : List String
  pub backfills : List MigrationBackfill
  pub idempotence_key : Option String
  pub notes : Option String

unfoldable pub idempotence_id : CompatibilityMigration → String
idempotence_id m = unwrap_or m.name m.idempotence_key

is_breaking_mode : CompatibilityMode → Bool
is_breaking_mode breaking = true
is_breaking_mode _ = false

unfoldable pub is_breaking : CompatibilityMigration → Bool
unfolding is_breaking_mode
is_breaking m = is_breaking_mode m.compatibility

-- The set of `AppliedMigrations`.
abbrev pub AppliedMigrations : Type 0
AppliedMigrations = Set

abbrev pub requires_migration : StateMode → Bool
requires_migration StateMode.shared_requires_migration = true
requires_migration _ = false

-- The loop of `evaluate_pending_migrations`.
unfoldable pub check_pending :
    List CompatibilityMigration
    → AppliedMigrations
    → Bool
    → Result DeploymentRegistryError (Unit {0})
check_pending [] applied confirm = ok tt
check_pending (m ∷ pending) applied confirm =
    let rest = check_pending pending applied confirm in
    if contains (idempotence_id m) applied
    then rest
    else if is_breaking m && not confirm
    then err (
        new "migration_breaking_unconfirmed"
          ("breaking migration `" +++ idempotence_id m +++ "` requires explicit confirmation"))
    else rest

unfoldable pub evaluate_pending_migrations :
    StateMode
    → List CompatibilityMigration
    → AppliedMigrations
    → Bool
    → Result DeploymentRegistryError (Unit {0})
unfolding check_pending
evaluate_pending_migrations mode pending applied confirm = elim (requires_migration mode) [
  | false ↦ ok tt
  | true ↦ check_pending pending applied confirm
]

-- A pending migration that has to be confirmed is not: the gate's criterion.
abbrev pub Confirmed : AppliedMigrations → Bool → CompatibilityMigration → Type 0
Confirmed applied confirm m =
    (contains (idempotence_id m) applied || (not (is_breaking m) || confirm)) ≡ true

check_pending-ok_iff :
    (pending : List CompatibilityMigration) (applied : AppliedMigrations) (confirm : Bool)
    → (check_pending pending applied confirm ≡ ok tt) ↔ All (Confirmed applied confirm) pending
unfolding check_pending
check_pending-ok_iff [] applied confirm = (λ h. tt, λ h. refl)
check_pending-ok_iff (m ∷ pending) applied confirm =
    let rest = check_pending-ok_iff pending applied confirm in
    (λ h. ground (arith, rest.0, h), λ h. ground (arith, rest.1, h.0, h.1))

-- The gate passes exactly where the deployment's state does not require migrations, or every declared
-- migration is applied already, or does not break, or breaking ones are confirmed.
pub evaluate-ok_iff :
    (mode : StateMode) (pending : List CompatibilityMigration) (applied : AppliedMigrations)
    (confirm : Bool)
    → (evaluate_pending_migrations mode pending applied confirm ≡ ok tt)
      ↔ (requires_migration mode ≡ true → All (Confirmed applied confirm) pending)
unfolding evaluate_pending_migrations
evaluate-ok_iff StateMode.isolated pending applied confirm = (λ h e. cc, λ h. refl)
evaluate-ok_iff StateMode.shared_compatible pending applied confirm = (λ h e. cc, λ h. refl)
evaluate-ok_iff StateMode.shared_requires_migration pending applied confirm =
    let checked = check_pending-ok_iff pending applied confirm in
    (λ h e. checked.0 h, λ h. checked.1 (h refl))
