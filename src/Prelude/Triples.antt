-- ===== src/Prelude/Triples.antt =====
-- What an action that succeeds makes of a condition on the state.
use greentic_sorx.Prelude.Results.{Result, ok, err}
use greentic_sorx.Prelude.Actions.{Action, pure, reads, proceed, ◌>>=◌}
use mathlib.Core.Path.{◌≡◌, refl, subst}

pub record Triple {ℓ} {S E A : Type ℓ} (P : S → Type ℓ) (m : Action S E A) (Q : A → S → Type ℓ)
    : Type ℓ where
  pub after : (s : S) (a : A) → P s → (m s).0 ≡ ok a → Q a (m s).1

after_proceed :
    {S E A B : Type 0} (K : S → Type 0) (r : Result E A) (f : A → Action S E B) (s : S) (b : B)
    → ((a : A) → r ≡ ok a → (f a s).0 ≡ ok b → K (f a s).1)
    → (proceed r f s).0 ≡ ok b
    → K (proceed r f s).1
after_proceed K (ok a) f s b next done = next a refl done
after_proceed K (err e) f s b next done = cc

module _ {S E A B : Type 0} {P : S → Type 0} {Q : B → S → Type 0} where
  pub Triple-bind :
      (R : A → S → Type 0) (m : Action S E A) (f : A → Action S E B)
      → Triple P m R
      → ((a : A) → Triple (R a) (f a) Q)
      → Triple P (m >>= f) Q
  unfolding ◌>>=◌
  Triple-bind R m f first next = record {
    after = λ s b h done.
        after_proceed (Q b) (m s).0 f (m s).1 b
          (λ a e more. (next a).after (m s).1 b (first.after s a h e) more) done;
  }

  pub Triple-lifted :
      (r : Result E A) (f : A → Action S E B)
      → ((a : A) → r ≡ ok a → Triple P (f a) Q)
      → Triple P (reads (λ s. r) >>= f) Q
  unfolding ◌>>=◌
  Triple-lifted (ok a) f next = record { after = λ s b h done. (next a refl).after s b h done }
  Triple-lifted (err e) f next = record { after = λ s b h done. cc }

module _ {S E B : Type 0} {P : S → Type 0} {Q : B → S → Type 0} where
  pub Triple-pure : (b : B) → ((s : S) → P s → Q b s) → Triple {E = E} P (pure b) Q
  unfolding ◌>>=◌
  Triple-pure b keep = record {
    after = λ s a h done. let same : b ≡ a = cc in subst (λ x. Q x s) same (keep s h);
  }

  pub Triple-fail : (e : E) → Triple P (reads (λ s. err e)) Q
  unfolding ◌>>=◌
  Triple-fail e = record { after = λ s a h done. cc }

  pub Triple-any : (m : Action S E B) → ((b : B) (s : S) → Q b s) → Triple P m Q
  Triple-any m holds = record { after = λ s a h done. holds a (m s).1 }

  pub Triple-weaken :
      {R : B → S → Type 0} (m : Action S E B)
      → Triple P m R
      → ((b : B) (s : S) → R b s → Q b s)
      → Triple P m Q
  Triple-weaken m first weaker = record {
    after = λ s a h done. weaker a (m s).1 (first.after s a h done);
  }

module _ {S E B : Type 0} {Q : B → S → Type 0} where
  -- What the condition says apart from the state may be used throughout.
  pub Triple-given :
      {K : Type 0} (m : Action S E B) → (K → Triple (λ s. Unit) m Q) → Triple (λ s. K) m Q
  Triple-given m next = record { after = λ s a h done. (next h).after s a tt done }
