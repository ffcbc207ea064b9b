-- ===== src/Migration/Apply.antt =====
-- crates/greentic-sorx-core/src/migration/orchestrate.rs: `apply_pending_migrations`.
pub mod Steps
pub mod Laws
use greentic_sorx.Error.{to_display, SorxError, new}
use greentic_sorx.Migration.Plan.{
  evaluate_pending_migrations, AppliedMigrations, CompatibilityMigration,
}
use greentic_sorx.Prelude.{[], ◌∷◌, List, Bool}
use greentic_sorx.Prelude.Text.{◌+++◌}
use greentic_sorx.Prelude.Results.{map_err}
use greentic_sorx.Prelude.Actions.{Action, pure, reads, gets, modify, ◌>>=◌, ◌>>◌}
use greentic_sorx.Migration.Runner.{
  backfill_failed, MigrationRunError, RunState, MigrationOutcome, run_one,
}
use greentic_sorx.Deployment.Types.{StateMode, DeploymentRegistryError}
use greentic_sorx.Store.Types.{ProviderNamespace}
use greentic_sorx.Migration.Backend.{Backend}

-- `err.to_string()`: the `Display` of the runner's error around that of the store's.
unfoldable pub run_failed : MigrationRunError → SorxError
run_failed (backfill_failed e) = new "migration_run_failed" ("backfill failed: " +++ to_display e)

unfoldable pub unconfirmed : DeploymentRegistryError → SorxError
unconfirmed e = new "migration_breaking_unconfirmed" e.message

module _ {W : Type 0} (b : Backend W) (n : ProviderNamespace) (confirm : Bool) where
  unfoldable pub on_world : {A : Type 0} → Action W SorxError A → Action (RunState W) SorxError A
  on_world m st = ((m st.world).0, record st { world = (m st.world).1 })

  unfoldable pub run_migration :
      CompatibilityMigration → Action (RunState W) SorxError MigrationOutcome
  run_migration m st =
      (map_err run_failed (run_one b n confirm m st).0, (run_one b n confirm m st).1)

  -- `if let MigrationOutcome::Applied { id, .. } = &outcome`
  unfoldable pub record_outcome : MigrationOutcome → Action (RunState W) SorxError (Unit {0})
  record_outcome (MigrationOutcome.applied id count) = on_world (b.record_applied n id)
  record_outcome (MigrationOutcome.skipped id) = pure tt
  record_outcome (MigrationOutcome.refused_breaking id) = pure tt

  unfoldable pub run_recorded :
      CompatibilityMigration → Action (RunState W) SorxError MigrationOutcome
  run_recorded m = do outcome ← run_migration m; record_outcome outcome; pure outcome

  unfoldable pub run_all :
      List CompatibilityMigration → Action (RunState W) SorxError (List MigrationOutcome)
  run_all [] = pure []
  run_all (m ∷ ms) = do outcome ← run_recorded m; rest ← run_all ms; pure (outcome ∷ rest)

  -- The loop, with a runner over the applied set that was loaded.
  unfoldable pub run_from :
      List CompatibilityMigration → AppliedMigrations → Action W SorxError (List MigrationOutcome)
  run_from ms applied w =
      let end = run_all ms (record { done = applied; world = w }) in (end.0, end.1.world)

  unfoldable pub apply_pending_migrations :
      StateMode → List CompatibilityMigration → Action W SorxError (List MigrationOutcome)
  apply_pending_migrations mode ms = do
    applied ← reads (b.load n)
    reads (λ w. map_err unconfirmed (evaluate_pending_migrations mode ms applied confirm))
    run_from ms applied
