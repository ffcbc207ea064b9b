-- ===== src/Migration/Backend.antt =====
-- The traits `SorxCanonicalStore` (provider.rs), as far as a migration uses it, and `MigrationLedger`
-- (migration/orchestrate.rs), over whatever state `W` an implementation keeps.
use greentic_sorx.Prelude.Maps.{add}
use greentic_sorx.Error.{SorxResult, SorxError}
use greentic_sorx.Prelude.Results.{ok}
use greentic_sorx.Migration.Plan.{AppliedMigrations}
use greentic_sorx.Prelude.{List, String, ◌≡◌}
use greentic_sorx.Prelude.Actions.{Action}
use greentic_sorx.Store.Types.{QueryOp, UpdateOp, EntityRecord, ProviderNamespace}

pub record Backend (W : Type 0) : Type 0 where
  pub query : QueryOp → Action W SorxError (List EntityRecord)
  pub update : UpdateOp → Action W SorxError EntityRecord
  pub load : ProviderNamespace → W → SorxResult AppliedMigrations
  pub record_applied : ProviderNamespace → String → Action W SorxError (Unit {0})

-- What the documentation of `MigrationLedger` asks of an implementation: what was recorded is loaded
-- from then on, and the operations of the store leave the ledger alone.
pub record LedgerLaws {W : Type 0} (b : Backend W) : Type 0 where
  pub load-query :
      (op : QueryOp) (n : ProviderNamespace) (w : W) → b.load n (b.query op w).1 ≡ b.load n w
  pub load-update :
      (op : UpdateOp) (n : ProviderNamespace) (w : W) → b.load n (b.update op w).1 ≡ b.load n w
  pub load-record :
      (n : ProviderNamespace) (id : String) (w : W) (applied : AppliedMigrations)
      → b.load n w ≡ ok applied
      → (b.record_applied n id w).0 ≡ ok tt
      → b.load n (b.record_applied n id w).1 ≡ ok (add id applied)
