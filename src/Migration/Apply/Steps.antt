-- ===== src/Migration/Apply/Steps.antt =====
-- What one migration does to the runner's applied set and to the ledger.
use greentic_sorx.Prelude.{
  sym, eq_iff, ap, ◌≢◌, ℕ, refl, arith, not, ◌&&◌, inr, inl, ◌||◌, Bool-cases, ◌∙◌, false, true,
  ◌≡◌, Bool, String, [], ◌∷◌,
}
use greentic_sorx.Prelude.Maps.{contains-add, add, contains}
use greentic_sorx.Prelude.Results.{Result-cases, err, Result, ok}
use greentic_sorx.Migration.Runner.{
  record_done, in_world, run_pending, is_missing, apply_backfill, apply_backfills, fill_records,
  RunState, MigrationOutcome, run_one,
}
use greentic_sorx.Migration.Apply.{on_world, List, record_outcome, run_migration, run_recorded}
use greentic_sorx.Error.{SorxError, SorxResult}
use greentic_sorx.Json.{get}
use greentic_sorx.Migration.Plan.{
  is_breaking, MigrationBackfill, idempotence_id, CompatibilityMigration, AppliedMigrations,
}
use greentic_sorx.Store.Types.{EntityRecord, QueryOp, UpdateOp, ProviderNamespace}
use greentic_sorx.Prelude.Invariants.{Preserves, Preserves-bind, Preserves-pure, action_rules}
use greentic_sorx.Migration.Backend.{Backend, LedgerLaws}
use greentic_sorx.Prelude.Actions.{◌>>=◌}

-- The id of a migration that has been run is in the applied set, or it was refused.
abbrev pub Settled : Bool → AppliedMigrations → CompatibilityMigration → Type 0
Settled confirm done m = (contains (idempotence_id m) done || (is_breaking m && not confirm)) ≡ true

abbrev pub outcome_id : MigrationOutcome → String
outcome_id (MigrationOutcome.applied id count) = id
outcome_id (MigrationOutcome.skipped id) = id
outcome_id (MigrationOutcome.refused_breaking id) = id

abbrev pub is_applied : MigrationOutcome → Bool
is_applied (MigrationOutcome.applied id count) = true
is_applied _ = false

module _ {W : Type 0} (b : Backend W) (laws : LedgerLaws b) (n : ProviderNamespace) where
  -- The ledger loads `r` for the namespace.
  abbrev pub Loads : SorxResult AppliedMigrations → W → Type 0
  Loads r w = b.load n w ≡ r

  module _ (r : SorxResult AppliedMigrations) where
    kept_query : (op : QueryOp) → Preserves (Loads r) (b.query op)
    kept_query op = record { from = λ w h. laws.load-query op n w ∙ h }

    kept_update : (op : UpdateOp) → Preserves (Loads r) (b.update op)
    kept_update op = record { from = λ w h. laws.load-update op n w ∙ h }

    kept_fill :
        (backfill : MigrationBackfill) (rs : List EntityRecord)
        → Preserves (Loads r) (fill_records b n backfill rs)
    unfolding fill_records
    kept_fill backfill [] = search action_rules
    kept_fill backfill (e ∷ rs) =
        elim (Bool-cases (is_missing b n (get backfill.field e.content))) [
          | inl t ↦ rw t (
              Preserves-bind _ _ (kept_update _)
                (λ u. Preserves-bind _ _ (kept_fill backfill rs) (λ c. Preserves-pure _)))
          | inr f ↦ rw f (kept_fill backfill rs)
        ]

    kept_backfill :
        (backfill : MigrationBackfill) → Preserves (Loads r) (apply_backfill b n backfill)
    unfolding apply_backfill
    kept_backfill backfill = Preserves-bind _ _ (kept_query _) (λ rs. kept_fill backfill rs)

    kept_backfills : (bs : List MigrationBackfill) → Preserves (Loads r) (apply_backfills b n bs)
    unfolding apply_backfills
    kept_backfills [] = Preserves-pure _
    kept_backfills (x ∷ bs) =
        Preserves-bind _ _ (kept_backfill x)
          (λ c. Preserves-bind _ _ (kept_backfills bs) (λ d. Preserves-pure _))

  -- The runner's set and the ledger agree.
  abbrev pub Agrees : RunState W → Type 0
  Agrees st = b.load n st.world ≡ ok st.done

  -- What holds after a migration that ended without an error.
  pub record Stepped (confirm : Bool) (m : CompatibilityMigration) (st : RunState W)
      (o : MigrationOutcome) (end : RunState W) : Type 0 where
    pub named : outcome_id o ≡ idempotence_id m
    pub agrees : Agrees end
    pub settled : Settled confirm end.done m
    pub grows : (id : String) → contains id st.done ≡ true → contains id end.done ≡ true

  -- A migration that is settled is not applied again, and nothing is written.
  pub Settled-again :
      (confirm : Bool) (m : CompatibilityMigration) (st : RunState W)
      → Settled confirm st.done m
      → (o : MigrationOutcome) × (run_recorded b n confirm m st ≡ (ok o, st))
        × (outcome_id o ≡ idempotence_id m)
        × (is_applied o ≡ false)
  unfolding run_recorded run_migration run_one record_outcome ◌>>=◌
  Settled-again confirm m st h = elim (Bool-cases (contains (idempotence_id m) st.done)) [
    | inl c ↦ (MigrationOutcome.skipped (idempotence_id m), rw c, refl, refl)
    | inr c ↦ elim (Bool-cases (is_breaking m && not confirm)) [
      | inl d ↦ (MigrationOutcome.refused_breaking (idempotence_id m), rw (c, d), refl, refl)
      | inr d ↦ absurd (ground (arith, c, d, h))
    ]
  ]

  module _ (confirm : Bool) (m : CompatibilityMigration) (st : RunState W) where
    filled : Result SorxError ℕ × W
    filled = apply_backfills b n m.backfills st.world

    saved : Result SorxError (Unit {0}) × W
    saved = b.record_applied n (idempotence_id m) (apply_backfills b n m.backfills st.world).1

    module _ (c : contains (idempotence_id m) st.done ≡ false)
        (d : (is_breaking m && not confirm) ≡ false) where
      fill_error :
          {e : SorxError} {o : MigrationOutcome}
          → filled.0 ≡ err e
          → (run_recorded b n confirm m st).0 ≢ ok o
      unfolding run_recorded run_migration run_one run_pending in_world filled ◌>>=◌
      fill_error f done = ground (arith, c, d, f, done)

      save_error :
          {e : SorxError} {count : ℕ} {o : MigrationOutcome}
          → filled.0 ≡ ok count
          → saved.0 ≡ err e
          → (run_recorded b n confirm m st).0 ≢ ok o
      unfolding run_recorded run_migration run_one run_pending record_outcome in_world on_world
          filled saved record_done ◌>>=◌
      save_error f g done = ground (arith, c, d, f, g, done)

      both_done :
          {count : ℕ}
          → filled.0 ≡ ok count
          → saved.0 ≡ ok tt
          → run_recorded b n confirm m st ≡ (
            ok (MigrationOutcome.applied (idempotence_id m) count),
            record { done = add (idempotence_id m) st.done; world = saved.1 },
          )
      unfolding run_recorded run_migration run_one run_pending record_outcome in_world on_world
          filled saved record_done ◌>>=◌
      both_done f g = ground (arith, c, d, f, g)

  add_grows :
      (k id : String) (s : AppliedMigrations) → contains id s ≡ true → contains id (add k s) ≡ true
  add_grows k id s h = ground (arith, contains-add k id s, h)

  add_contains : (k : String) (s : AppliedMigrations) → contains k (add k s) ≡ true
  add_contains k s = ground (arith, contains-add k k s, eq_iff k k)

  module _ (confirm : Bool) (m : CompatibilityMigration) (st : RunState W)
      (agreed : Agrees st) where
    Stepped-pending :
        {count : ℕ}
        → (saved confirm m st).0 ≡ ok tt
        → Stepped confirm m st
            (MigrationOutcome.applied (idempotence_id m) count)
            (record { done = add (idempotence_id m) st.done; world = (saved confirm m st).1 })
    unfolding saved
    Stepped-pending g = record {
      named = refl;
      agrees =
          laws.load-record n (idempotence_id m) (apply_backfills b n m.backfills st.world).1 st.done
            ((kept_backfills (ok st.done) m.backfills).from st.world agreed) g;
      settled = ground (arith, add_contains (idempotence_id m) st.done);
      grows = λ id h. add_grows (idempotence_id m) id st.done h;
    }

    ran_pending :
        {o : MigrationOutcome}
        → contains (idempotence_id m) st.done ≡ false
        → (is_breaking m && not confirm) ≡ false
        → (run_recorded b n confirm m st).0 ≡ ok o
        → Stepped confirm m st o (run_recorded b n confirm m st).1
    ran_pending {o} c d done = elim (Result-cases (filled confirm m st).0) [
      | inr (e, f) ↦ absurd (fill_error confirm m st c d f done)
      | inl (count, f) ↦ elim (Result-cases (saved confirm m st).0) [
        | inr (e, g) ↦ absurd (save_error confirm m st c d f g done)
        | inl (u, g) ↦
            let end = both_done confirm m st c d f g in
            let same : MigrationOutcome.applied (idempotence_id m) count ≡ o =
              ground (arith, end, done) in
            rw end (rw (← same) (Stepped-pending g))
      ]
    ]

    pub ran :
        {o : MigrationOutcome}
        → (run_recorded b n confirm m st).0 ≡ ok o
        → Stepped confirm m st o (run_recorded b n confirm m st).1
    ran {o} done =
        elim (Bool-cases (contains (idempotence_id m) st.done || (is_breaking m && not confirm))) [
          | inr f ↦ ran_pending (ground (arith, f)) (ground (arith, f)) done
          | inl t ↦
              let (p, end, named, idle) = Settled-again confirm m st t in
              let same : p ≡ o = ground (arith, end, done) in
              rw end (record {
                named = ap outcome_id (sym same) ∙ named;
                agrees = agreed;
                settled = t;
                grows = λ id h. h;
              })
        ]
