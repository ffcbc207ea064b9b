-- ===== src/Migration/Examples.antt =====
-- The laws of migrations over a store in memory and a ledger file that is never lost.
use greentic_sorx.Migration.Apply.Laws.{apply_once}
use greentic_sorx.Migration.Plan.{
  evaluate-ok_iff, Confirmed, idempotence_id, requires_migration, CompatibilityMode,
  evaluate_pending_migrations, CompatibilityMigration,
}
use greentic_sorx.Migration.Apply.Steps.{is_applied, outcome_id}
use greentic_sorx.Prelude.{
  All, List, ◌↔◌, some, map, false, ◌≡◌, Bool, true, none, Option, refl, [], ◌∷◌,
}
use greentic_sorx.Error.{new, SorxResult}
use greentic_sorx.Migration.Apply.{unconfirmed, apply_pending_migrations}
use greentic_sorx.Deployment.Types.{StateMode}
use greentic_sorx.Json
use greentic_sorx.Prelude.Results.{ok, err}
use greentic_sorx.Prelude.Actions.{◌>>=◌}
use greentic_sorx.Migration.Ledger
use greentic_sorx.Migration.Ledger.{LedgerFile, FileLaws, NamespacedLedger, load-record_applied}
use greentic_sorx.Migration.Ledger.Local.{Node, local, local-LedgerLaws}
use greentic_sorx.Migration.Backend.{LedgerLaws}
use greentic_sorx.Migration.Runner.{MigrationOutcome}
use greentic_sorx.Store.Types.{empty_state, Host, ProviderNamespace}
use Prim.Native.Nat.{Ordering}

abbrev read_option : Option NamespacedLedger → SorxResult NamespacedLedger
read_option none = err (new "migration_ledger_io" "failed to read")
read_option (some l) = ok l

abbrev is_written : Option NamespacedLedger → Bool
is_written none = false
is_written (some l) = true

-- A file that holds the ledger, or is not there.
abbrev sample_file : LedgerFile (Option NamespacedLedger)
sample_file = record { exists = is_written; read = read_option; write = λ l f. (ok tt, some l) }

sample_file-FileLaws : FileLaws sample_file
sample_file-FileLaws = record { exists-write = λ l f done. refl; read-write = λ l f done. refl }

abbrev sample_host : Host
sample_host = record {
  persistence_path = none;
  write_file = λ path s. ok tt;
  debug_values = λ fs vs. "";
  number_cmp = λ a b. Ordering.eq;
  to_json = λ v. "";
}

abbrev acme : ProviderNamespace
acme = record { tenant_id = "acme"; sor_name = "tenancy" }

abbrev globex : ProviderNamespace
globex = record { tenant_id = "globex"; sor_name = "tenancy" }

abbrev add_birthday : CompatibilityMigration
add_birthday = record {
  name = "v2";
  compatibility = CompatibilityMode.additive;
  from_version = none;
  to_version = none;
  projection_updates = [];
  backfills = (record { record_name = "Tenant"; field = "birthday"; default = Json.null }) ∷ [];
  idempotence_key = none;
  notes = none;
}

abbrev split_name : CompatibilityMigration
split_name = record add_birthday {
  name = "split-name";
  compatibility = CompatibilityMode.breaking;
  backfills = [];
}

abbrev fresh_node : Node sample_host sample_file
fresh_node = record { store = empty_state; files = none }

sample_laws : LedgerLaws (local sample_host sample_file)
sample_laws = local-LedgerLaws sample_host sample_file sample_file-FileLaws

apply_once_example :
    (map outcome_id (MigrationOutcome.applied "v2" 0 ∷ []) ≡ map idempotence_id (add_birthday ∷ []))
    × (again : List MigrationOutcome) × (apply_pending_migrations
          (local sample_host sample_file)
          acme
          false
          StateMode.isolated
          (add_birthday ∷ [])
          (apply_pending_migrations
            (local sample_host sample_file)
            acme
            false
            StateMode.isolated
            (add_birthday ∷ [])
            fresh_node).1
        ≡ (
          ok again,
          (apply_pending_migrations
              (local sample_host sample_file)
              acme
              false
              StateMode.isolated
              (add_birthday ∷ [])
              fresh_node).1,
        ))
    × All (λ o. is_applied o ≡ false) again
unfolding apply_pending_migrations ◌>>=◌ local Ledger.load Ledger.load_namespaced
    evaluate_pending_migrations greentic_sorx.Migration.Apply.run_from
    greentic_sorx.Migration.Apply.run_all greentic_sorx.Migration.Apply.run_recorded
    greentic_sorx.Migration.Apply.run_migration greentic_sorx.Migration.Apply.record_outcome
    greentic_sorx.Migration.Apply.on_world greentic_sorx.Migration.Runner.run_one
    greentic_sorx.Migration.Runner.run_pending greentic_sorx.Migration.Runner.in_world
    greentic_sorx.Migration.Runner.apply_backfills greentic_sorx.Migration.Runner.apply_backfill
    greentic_sorx.Migration.Runner.fill_records greentic_sorx.Migration.Runner.record_done
    greentic_sorx.Prelude.Maps.contains greentic_sorx.Prelude.Maps.get
    greentic_sorx.Migration.Plan.is_breaking greentic_sorx.Store.Memory.query
    greentic_sorx.Store.Memory.found_records greentic_sorx.Prelude.Sorting.sort_by idempotence_id
    Ledger.record_applied
apply_once_example =
    apply_once (local sample_host sample_file) sample_laws acme false StateMode.isolated
      (add_birthday ∷ []) fresh_node {os = MigrationOutcome.applied "v2" 0 ∷ []} refl

load-record_applied_example :
    Ledger.load sample_file globex (Ledger.record_applied sample_file acme "v2" none).1 ≡ ok []
unfolding Ledger.load Ledger.record_applied ◌>>=◌ greentic_sorx.Prelude.Maps.get
    greentic_sorx.Store.Keys.key_prefix
load-record_applied_example =
    load-record_applied sample_file sample_file-FileLaws acme globex "v2" none [] refl refl

evaluate-ok_iff_example :
    (evaluate_pending_migrations StateMode.shared_requires_migration (split_name ∷ []) [] true
      ≡ ok tt)
    ↔ (requires_migration StateMode.shared_requires_migration ≡ true
        → All (Confirmed [] true) (split_name ∷ []))
evaluate-ok_iff_example =
    evaluate-ok_iff StateMode.shared_requires_migration (split_name ∷ []) [] true
