-- ===== src/Prelude/Actions.antt =====
-- Methods on `&mut self` that may fail: what was written before an error stays written.
use greentic_sorx.Prelude.Results.{Result, ok, err}

abbrev pub Action {ℓ} : Type ℓ → Type ℓ → Type ℓ → Type ℓ
Action S E A = S → Result E A × S

module _ {ℓ} {S E A : Type ℓ} where
  pub pure : A → Action S E A
  pure a s = (ok a, s)

  -- A method on `&self`.
  pub reads : (S → Result E A) → Action S E A
  reads f s = (f s, s)

  pub gets : (S → A) → Action S E A
  gets f s = (ok (f s), s)

pub modify : {S E : Type 0} → (S → S) → Action S E (Unit {0})
modify f s = (ok tt, f s)

module _ {ℓ} {S E A B : Type ℓ} where
  abbrev pub proceed : Result E A → (A → Action S E B) → Action S E B
  proceed (ok a) f s = f a s
  proceed (err e) f s = (err e, s)

  infixl 5 ◌>>=◌ ◌>>◌
  -- Opening this opens the four actions above too.
  unfoldable pub ◌>>=◌ : Action S E A → (A → Action S E B) → Action S E B
  unfolding pure reads gets modify
  ◌>>=◌ m f s = proceed (m s).0 f (m s).1

  abbrev pub ◌>>◌ : Action S E A → Action S E B → Action S E B
  m >> n = m >>= λ _. n
