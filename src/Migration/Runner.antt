-- ===== src/Migration/Runner.antt =====
-- crates/greentic-sorx-core/src/migration/runner.rs: `run_one` and `apply_backfill`, and
-- `default_collection_name` of provider.rs.
use greentic_sorx.Prelude.{
  not, ◌&&◌, none, [], false, some, ◌+◌, ◌∷◌, if◌then◌else◌, Option, List, Bool, true, ℕ, String,
}
use greentic_sorx.Migration.Plan.{
  is_breaking, idempotence_id, MigrationBackfill, CompatibilityMigration, AppliedMigrations,
}
use greentic_sorx.Prelude.Results.{ok, map_err}
use greentic_sorx.Json.{from_map, Value}
use greentic_sorx.Store.Types.{UpdateOp, QueryOp, EntityRecord, ProviderNamespace}
use greentic_sorx.Prelude.Maps.{contains, add}
use greentic_sorx.Prelude.Text.{◌+++◌, to_ascii_lowercase, is_ascii_uppercase}
use greentic_sorx.Prelude.Actions.{Action, pure, modify, ◌>>=◌, ◌>>◌}
use greentic_sorx.Error.{SorxError}
use greentic_sorx.Json
use greentic_sorx.Migration.Backend.{Backend}

pub data MigrationOutcome : Type 0 where
  applied : (id : String) (backfilled : ℕ) → MigrationOutcome
  skipped : (id : String) → MigrationOutcome
  refused_breaking : (id : String) → MigrationOutcome

pub data MigrationRunError : Type 0 where
  backfill_failed : SorxError → MigrationRunError

snake_chars : Bool → String → String
unfolding is_ascii_uppercase to_ascii_lowercase
snake_chars first String.[] = String.[]
snake_chars first (String.◌∷◌ c cs) =
    let rest = snake_chars false cs in
    if is_ascii_uppercase c
    then (if first
        then String.◌∷◌ (to_ascii_lowercase c) rest
        else String.◌∷◌ "_" (String.◌∷◌ (to_ascii_lowercase c) rest))
    else String.◌∷◌ c rest

unfoldable pub default_collection_name : String → String
unfolding snake_chars
default_collection_name entity = snake_chars true entity +++ "s"

-- The runner borrows the applied set and writes the state of the backend.
pub record RunState (W : Type 0) : Type 0 where
  pub done : AppliedMigrations
  pub world : W

module _ {W : Type 0} (b : Backend W) (n : ProviderNamespace) where
  unfoldable pub backfill_op : MigrationBackfill → EntityRecord → UpdateOp
  backfill_op backfill r = record {
    namespace = n;
    entity = backfill.record_name;
    collection = default_collection_name backfill.record_name;
    id = r.id;
    patch = from_map ((backfill.field, backfill.default) ∷ []);
    unique_indexes = [];
  }

  unfoldable pub backfill_query : MigrationBackfill → QueryOp
  backfill_query backfill = record {
    namespace = n;
    entity = backfill.record_name;
    collection = default_collection_name backfill.record_name;
    filter = from_map [];
    order_by = [];
  }

  abbrev pub is_missing : Option Value → Bool
  is_missing none = true
  is_missing (some v) = false

  -- The loop over the records that were found, with its count.
  unfoldable pub fill_records : MigrationBackfill → List EntityRecord → Action W SorxError ℕ
  fill_records backfill [] = pure 0
  fill_records backfill (r ∷ rs) =
      let rest = fill_records backfill rs in
      if is_missing (Json.get backfill.field r.content)
      then (do b.update (backfill_op backfill r); count ← rest; pure (1 + count))
      else rest

  unfoldable pub apply_backfill : MigrationBackfill → Action W SorxError ℕ
  apply_backfill backfill = do
    found ← b.query (backfill_query backfill)
    fill_records backfill found

  unfoldable pub apply_backfills : List MigrationBackfill → Action W SorxError ℕ
  apply_backfills [] = pure 0
  apply_backfills (backfill ∷ rest) = do
    count ← apply_backfill backfill
    more ← apply_backfills rest
    pure (count + more)

  unfoldable pub in_world :
      {A : Type 0} → Action W SorxError A → Action (RunState W) MigrationRunError A
  in_world m st = (map_err backfill_failed (m st.world).0, record st { world = (m st.world).1 })

  unfoldable pub record_done : String → RunState W → RunState W
  record_done id st = record st { done = add id st.done }

  unfoldable pub run_pending :
      CompatibilityMigration → Action (RunState W) MigrationRunError MigrationOutcome
  run_pending m = do
    count ← in_world (apply_backfills m.backfills)
    modify (record_done (idempotence_id m))
    pure (MigrationOutcome.applied (idempotence_id m) count)

  unfoldable pub run_one :
      Bool → CompatibilityMigration → Action (RunState W) MigrationRunError MigrationOutcome
  run_one confirm m st =
      if contains (idempotence_id m) st.done
      then (ok (MigrationOutcome.skipped (idempotence_id m)), st)
      else if is_breaking m && not confirm
      then (ok (MigrationOutcome.refused_breaking (idempotence_id m)), st)
      else run_pending m st
