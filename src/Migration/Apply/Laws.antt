-- ===== src/Migration/Apply/Laws.antt =====
-- What `apply_pending_migrations` promises: outcomes in the order of the input, nothing written behind
-- a closed gate, and no migration applied twice.
use greentic_sorx.Migration.Plan.{
  evaluate-ok_iff, requires_migration, Confirmed, evaluate_pending_migrations, AppliedMigrations,
  idempotence_id, CompatibilityMigration,
}
use greentic_sorx.Migration.Apply.{
  unconfirmed, run_from, apply_pending_migrations, run_recorded, run_all,
}
use greentic_sorx.Prelude.Results.{err, Result-cases, ok}
use greentic_sorx.Error.{SorxError}
use greentic_sorx.Deployment.Types.{DeploymentRegistryError, StateMode}
use greentic_sorx.Prelude.{
  inl, ◌∙◌, inr, ap, arith, true, false, String, ◌≡◌, map, All, List, Bool, [], ◌∷◌, refl, sym,
}
use greentic_sorx.Prelude.Maps.{contains}
use greentic_sorx.Migration.Apply.Steps.{
  is_applied, Settled, outcome_id, Agrees, ran, Settled-again,
}
use greentic_sorx.Store.Types.{ProviderNamespace}
use greentic_sorx.Migration.Backend.{Backend, LedgerLaws}
use greentic_sorx.Migration.Runner.{RunState, MigrationOutcome}
use greentic_sorx.Prelude.Actions.{◌>>=◌}

module _ {W : Type 0} (b : Backend W) (laws : LedgerLaws b) (n : ProviderNamespace)
    (confirm : Bool) where
  -- What holds after a whole run that ended without an error.
  pub record Ran (ms : List CompatibilityMigration) (st : RunState W) (os : List MigrationOutcome)
      (end : RunState W) : Type 0 where
    pub named : map (outcome_id) os ≡ map idempotence_id ms
    pub agrees : Agrees b laws n end
    pub settled : All (Settled confirm end.done) ms
    pub grows : (id : String) → contains id st.done ≡ true → contains id end.done ≡ true

  Ran-none :
      (st : RunState W) {os : List MigrationOutcome}
      → Agrees b laws n st
      → (run_all b n confirm [] st).0 ≡ ok os
      → Ran [] st os (run_all b n confirm [] st).1
  unfolding run_all ◌>>=◌
  Ran-none st {os} agreed done =
      let none_ran : [] ≡ os = ground (arith, done) in
      record {
        named = ap (map (outcome_id)) (sym none_ran);
        agrees = agreed;
        settled = tt;
        grows = λ id h. h;
      }

  Settled-after :
      (m : CompatibilityMigration) (s t : AppliedMigrations)
      → Settled confirm s m
      → ((id : String) → contains id s ≡ true → contains id t ≡ true)
      → Settled confirm t m
  Settled-after m s t h grows = ground (arith, h, grows (idempotence_id m))

  split_run :
      (m : CompatibilityMigration) (ms : List CompatibilityMigration) (st : RunState W)
      {os : List MigrationOutcome}
      → (run_all b n confirm (m ∷ ms) st).0 ≡ ok os
      → (o : MigrationOutcome) × (rest : List MigrationOutcome) × ((run_recorded b n confirm m st).0
          ≡ ok o)
        × ((run_all b n confirm ms (run_recorded b n confirm m st).1).0 ≡ ok rest)
        × (o ∷ rest ≡ os)
        × ((run_all b n confirm (m ∷ ms) st).1
            ≡ (run_all b n confirm ms (run_recorded b n confirm m st).1).1)
  unfolding run_all ◌>>=◌
  split_run m ms st {os} done = elim (Result-cases (run_recorded b n confirm m st).0) [
    | inr (e, f) ↦ absurd (ground (arith, f, done))
    | inl (o, f) ↦
        elim (Result-cases (run_all b n confirm ms (run_recorded b n confirm m st).1).0) [
          | inr (e, g) ↦ absurd (ground (arith, f, g, done))
          | inl (rest, g) ↦ (o, rest, f, g, ground (arith, f, g, done), ground (arith, f, g))
        ]
  ]

  Ran-all :
      (ms : List CompatibilityMigration) (st : RunState W) {os : List MigrationOutcome}
      → Agrees b laws n st
      → (run_all b n confirm ms st).0 ≡ ok os
      → Ran ms st os (run_all b n confirm ms st).1
  Ran-all [] st {os} agreed done = Ran-none st agreed done
  Ran-all (m ∷ ms) st {os} agreed done =
      let (o, rest, first, later, outcomes, end) = split_run m ms st done in
      let one = ran b laws n confirm m st agreed first in
      let more = Ran-all ms (run_recorded b n confirm m st).1 one.agrees later in
      rw end (record {
        named = ap (map (outcome_id)) (sym outcomes) ∙ ground (arith, one.named, more.named);
        agrees = more.agrees;
        settled = (Settled-after m _ _ one.settled more.grows, more.settled);
        grows = λ id h. more.grows id (one.grows id h);
      })

  Settled-All :
      (ms : List CompatibilityMigration) (st : RunState W)
      → All (Settled confirm st.done) ms
      → (os : List MigrationOutcome) × (run_all b n confirm ms st ≡ (ok os, st))
        × All (λ o. is_applied o ≡ false) os
  unfolding run_all ◌>>=◌
  Settled-All [] st h = ([], refl, tt)
  Settled-All (m ∷ ms) st h =
      let (o, one, named, idle) = Settled-again b laws n confirm m st h.0 in
      let (os, rest, idles) = Settled-All ms st h.1 in (o ∷ os, rw (one, rest), (idle, idles))

  module _ (mode : StateMode) (ms : List CompatibilityMigration) (w : W) where
    gate_open :
        (applied : AppliedMigrations)
        → b.load n w ≡ ok applied
        → evaluate_pending_migrations mode ms applied confirm ≡ ok tt
        → apply_pending_migrations b n confirm mode ms w ≡ run_from b n confirm ms applied w
    unfolding apply_pending_migrations ◌>>=◌
    gate_open applied loaded passed = rw loaded (rw passed)

    gate_shut :
        (applied : AppliedMigrations) {e : DeploymentRegistryError}
        → b.load n w ≡ ok applied
        → evaluate_pending_migrations mode ms applied confirm ≡ err e
        → apply_pending_migrations b n confirm mode ms w ≡ (err (unconfirmed e), w)
    unfolding apply_pending_migrations ◌>>=◌
    gate_shut applied loaded refused = rw loaded (rw refused)

    load_failed :
        {e : SorxError}
        → b.load n w ≡ err e
        → apply_pending_migrations b n confirm mode ms w ≡ (err e, w)
    unfolding apply_pending_migrations ◌>>=◌
    load_failed e = rw e

    Passed : AppliedMigrations → List MigrationOutcome → Type 0
    Passed applied os =
        (b.load n w ≡ ok applied)
        × (evaluate_pending_migrations mode ms applied confirm ≡ ok tt)
        × ((run_all b n confirm ms (record { done = applied; world = w })).0 ≡ ok os)
        × ((apply_pending_migrations b n confirm mode ms w).1
            ≡ (run_all b n confirm ms (record { done = applied; world = w })).1.world)

    Passed-by :
        {os : List MigrationOutcome}
        → (apply_pending_migrations b n confirm mode ms w).0 ≡ ok os
        → (applied : AppliedMigrations) × Passed applied os
    unfolding Passed run_from
    Passed-by done = elim (Result-cases (b.load n w)) [
      | inr (e, f) ↦ absurd (ground (arith, load_failed f, done))
      | inl (applied, f) ↦
          elim (Result-cases (evaluate_pending_migrations mode ms applied confirm)) [
            | inr (e, g) ↦ absurd (ground (arith, gate_shut applied f g, done))
            | inl (u, g) ↦
                let end = gate_open applied f g in
                (applied, (f, g, sym (ap (λ q. q.0) end) ∙ done, ap (λ q. q.1) end))
          ]
    ]

    -- Where the deployment's state requires migrations and one that breaks is neither applied nor
    -- confirmed, the call fails with the error of the gate and writes nothing.
    pub apply_refused :
        (applied : AppliedMigrations)
        → b.load n w ≡ ok applied
        → ¬ (requires_migration mode ≡ true → All (Confirmed applied confirm) ms)
        → (e : DeploymentRegistryError) × (apply_pending_migrations b n confirm mode ms w
            ≡ (err (unconfirmed e), w))
    apply_refused applied loaded blocked =
        elim (Result-cases (evaluate_pending_migrations mode ms applied confirm)) [
          | inl (u, g) ↦ absurd (blocked ((evaluate-ok_iff mode ms applied confirm).0 g))
          | inr (e, g) ↦ (e, gate_shut applied loaded g)
        ]

  Confirmed-after :
      (ms : List CompatibilityMigration) (s t : AppliedMigrations)
      → ((id : String) → contains id s ≡ true → contains id t ≡ true)
      → All (Confirmed s confirm) ms
      → All (Confirmed t confirm) ms
  Confirmed-after [] s t grows h = tt
  Confirmed-after (m ∷ ms) s t grows h =
      (ground (arith, h.0, grows (idempotence_id m)), Confirmed-after ms s t grows h.1)

  -- Over a ledger that keeps its promises, a call that returned gives one outcome for each migration,
  -- in the order of the input. The same call made again returns too; it applies no migration and
  -- leaves the store and the ledger as they are.
  pub apply_once :
      (mode : StateMode) (ms : List CompatibilityMigration) (w : W) {os : List MigrationOutcome}
      → (apply_pending_migrations b n confirm mode ms w).0 ≡ ok os
      → (map (outcome_id) os ≡ map idempotence_id ms)
        × (again : List MigrationOutcome) × (apply_pending_migrations b n confirm mode ms
              (apply_pending_migrations b n confirm mode ms w).1
            ≡ (ok again, (apply_pending_migrations b n confirm mode ms w).1))
        × All (λ o. is_applied o ≡ false) again
  unfolding Passed run_from
  apply_once mode ms w done =
      let (applied, (loaded, passed, ran_ok, end)) = Passed-by mode ms w done in
      let result = Ran-all ms (record { done = applied; world = w }) loaded ran_ok in
      let last = (run_all b n confirm ms (record { done = applied; world = w })).1 in
      let (again, same, idle) = Settled-All ms last result.settled in
      let reopened = (evaluate-ok_iff mode ms last.done confirm).1 (λ r.
        Confirmed-after ms applied last.done result.grows
          ((evaluate-ok_iff mode ms applied confirm).0 passed r)) in
      (
        result.named,
        again,
        rw end (
            gate_open mode ms last.world last.done result.agrees reopened
            ∙ ap (λ q. (q.0, q.1.world)) same),
        idle,
      )
