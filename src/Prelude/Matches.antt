-- ===== src/Prelude/Matches.antt =====
-- What holds of every case of a match holds of the match, with what the case says at hand.
use greentic_sorx.Prelude.Results.{Result, ok, err}
use greentic_sorx.Prelude.Tests.{if◌then◌else◌}
use mathlib.Core.Path.{◌≡◌, refl}
use mathlib.Core.Option.{Option, none, some}
use mathlib.Core.Bool.{Bool, true, false}

module _ {ℓ κ} {X : Type ℓ} (K : X → Type κ) where
  pub match_result {μ ν} :
      {E : Type μ} {A : Type ν} (r : Result E A) (f : A → X) (g : E → X)
      → ((a : A) → r ≡ ok a → K (f a))
      → ((e : E) → r ≡ err e → K (g e))
      → K (elim r [ ok a ↦ f a | err e ↦ g e ])
  match_result (ok a) f g good bad = good a refl
  match_result (err e) f g good bad = bad e refl

  pub match_option {μ} :
      {A : Type μ} (o : Option A) (f : A → X) (x : X)
      → ((a : A) → o ≡ some a → K (f a))
      → (o ≡ none → K x)
      → K (elim o [ none ↦ x | some a ↦ f a ])
  match_option none f x found missing = missing refl
  match_option (some a) f x found missing = found a refl

  pub match_if :
      (b : Bool) (x y : X) → (b ≡ true → K x) → (b ≡ false → K y) → K (if b then x else y)
  match_if true x y holds fails = holds refl
  match_if false x y holds fails = fails refl
