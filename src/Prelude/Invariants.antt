-- ===== src/Prelude/Invariants.antt =====
-- Invariants of actions, with a rule for each way in which an action is put together.
use greentic_sorx.Prelude.Results.{Result, ok, err, Result-cases}
use mathlib.Core.Path.{◌≡◌, refl}
use mathlib.Core.Logic.{inl, inr}
use greentic_sorx.Prelude.Actions.{Action, pure, reads, gets, modify, proceed, ◌>>=◌}

-- An error keeps the invariant too.
pub record Preserves {ℓ} {S E A : Type ℓ} (P : S → Type ℓ) (m : Action S E A) : Type ℓ where
  pub from : (s : S) → P s → P (m s).1

module _ {ℓ} {S E A : Type ℓ} {P : S → Type ℓ} where
  pub Preserves-pure : (a : A) → Preserves {E = E} P (pure a)
  unfolding ◌>>=◌
  Preserves-pure a = record { from = λ s h. h }

  pub Preserves-reads : (f : S → Result E A) → Preserves P (reads f)
  unfolding ◌>>=◌
  Preserves-reads f = record { from = λ s h. h }

  pub Preserves-gets : (f : S → A) → Preserves {E = E} P (gets f)
  unfolding ◌>>=◌
  Preserves-gets f = record { from = λ s h. h }

  pub Preserves-by_proof : (m : Action S E A) → ((s : S) → P s → P (m s).1) → Preserves P m
  Preserves-by_proof m keep = record { from = keep }

module _ {S E : Type 0} {P : S → Type 0} where
  pub Preserves-modify : (f : S → S) → ((s : S) → P s → P (f s)) → Preserves {E = E} P (modify f)
  unfolding ◌>>=◌
  Preserves-modify f keep = record { from = keep }

module _ {ℓ} {S E A B : Type ℓ} {P : S → Type ℓ} where
  keeps_proceed :
      (r : Result E A) (f : A → Action S E B) (s : S)
      → ((a : A) → Preserves P (f a))
      → P s
      → P (proceed r f s).1
  keeps_proceed (ok a) f s next h = (next a).from s h
  keeps_proceed (err e) f s next h = h

  pub Preserves-bind :
      (m : Action S E A) (f : A → Action S E B)
      → Preserves P m
      → ((a : A) → Preserves P (f a))
      → Preserves P (m >>= f)
  unfolding ◌>>=◌
  Preserves-bind m f first next = record {
    from = λ s h. keeps_proceed (m s).0 f (m s).1 next (first.from s h);
  }

pub ruleset action_rules = (Preserves-pure, Preserves-reads, Preserves-gets, Preserves-bind)

module _ {ℓ} {S E A B : Type ℓ} {P : S → Type ℓ} where
  -- The rest of an action may count on what the first part returned.
  pub Preserves-bind_where :
      (m : Action S E A) (f : A → Action S E B)
      → Preserves P m
      → ((s : S) (a : A) → (m s).0 ≡ ok a → Preserves P (f a))
      → Preserves P (m >>= f)
  unfolding ◌>>=◌
  Preserves-bind_where m f first next = record {
    from = λ s h. elim (Result-cases (m s).0) [
      | inl (a, e) ↦ rw e ((next s a e).from (m s).1 (first.from s h))
      | inr (x, e) ↦ rw e (first.from s h)
    ];
  }

module _ {ℓ} {S E A B : Type ℓ} {P : S → Type ℓ} where
  -- A `?` on a result that no state takes part in.
  pub Preserves-lifted :
      (r : Result E A) (f : A → Action S E B)
      → ((a : A) → r ≡ ok a → Preserves P (f a))
      → Preserves P (reads (λ s. r) >>= f)
  unfolding ◌>>=◌
  Preserves-lifted (ok a) f next = record { from = λ s h. (next a refl).from s h }
  Preserves-lifted (err x) f next = record { from = λ s h. h }
