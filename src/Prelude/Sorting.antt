-- ===== src/Prelude/Sorting.antt =====
-- The stable sort of `Vec::sort_by`, by insertion, under a test for "strictly less".
use greentic_sorx.Prelude.{inr, inl}
use greentic_sorx.Prelude.Tests.{Bool-cases, if◌then◌else◌}
use greentic_sorx.Prelude.Lists.{find, All, All-of_Memᴰ, All-by_Memᴰ}
use mathlib.Core.Path.{◌≡◌, refl, ◌∙◌}
use mathlib.Core.Bool.{Bool, true, false}
use mathlib.Core.List.{List, [], ◌∷◌, Memᴰ}
use native.Mathlib.Omega.{arith}

module _ {ℓ} {A : Type ℓ} (lt : A → A → Bool) where
  unfoldable pub insert_by : A → List A → List A
  insert_by x [] = x ∷ []
  insert_by x (y ∷ ys) = if lt y x then y ∷ insert_by x ys else x ∷ y ∷ ys

  unfoldable pub sort_by : List A → List A
  unfolding insert_by
  sort_by [] = []
  sort_by (x ∷ xs) = insert_by x (sort_by xs)

  All-insert_by {κ} :
      (P : A → Type κ) (x : A) (xs : List A) → P x → All P xs → All P (insert_by x xs)
  unfolding insert_by
  All-insert_by P x [] p h = (p, tt)
  All-insert_by P x (y ∷ ys) p h = ground (arith, All-insert_by P x ys p h.1)

  pub All-sort_by {κ} : (P : A → Type κ) (xs : List A) → All P xs → All P (sort_by xs)
  unfolding sort_by
  All-sort_by P [] h = tt
  All-sort_by P (x ∷ xs) h = All-insert_by P x (sort_by xs) h.0 (All-sort_by P xs h.1)

  -- Where the elements that pass `p` are not below one another, the sort keeps the first of them.
  module _ (p : A → Bool) (level : (x y : A) → p x ≡ true → p y ≡ true → lt y x ≡ false) where
    find-insert_by : (x : A) (xs : List A) → find p (insert_by x xs) ≡ find p (x ∷ xs)
    unfolding insert_by
    find-insert_by x [] = refl
    find-insert_by x (y ∷ ys) = ground (arith, find-insert_by x ys, level x y)

    pub find-sort_by : (xs : List A) → find p (sort_by xs) ≡ find p xs
    unfolding sort_by
    find-sort_by [] = refl
    find-sort_by (x ∷ xs) = find-insert_by x (sort_by xs) ∙ ground (arith, find-sort_by xs)

  -- The sort adds nothing.
  pub mem-sort_by : (xs : List A) {z : A} → Memᴰ z (sort_by xs) → Memᴰ z xs
  mem-sort_by xs m =
      All-of_Memᴰ (λ z. Memᴰ z xs) (sort_by xs)
        (All-sort_by (λ z. Memᴰ z xs) xs (All-by_Memᴰ (λ z. Memᴰ z xs) xs (λ z k. k))) m

  insert_by-mem : (x : A) (xs : List A) {z : A} → Memᴰ z (x ∷ xs) → Memᴰ z (insert_by x xs)
  unfolding insert_by
  insert_by-mem x [] m = m
  insert_by-mem x (y ∷ xs) (Memᴰ.head e) = elim (Bool-cases (lt y x)) [
    | inl t ↦ rw t (Memᴰ.tail (insert_by-mem x xs (Memᴰ.head e)))
    | inr f ↦ rw f (Memᴰ.head e)
  ]
  insert_by-mem x (y ∷ xs) (Memᴰ.tail (Memᴰ.head e)) = elim (Bool-cases (lt y x)) [
    | inl t ↦ rw t (Memᴰ.head e)
    | inr f ↦ rw f (Memᴰ.tail (Memᴰ.head e))
  ]
  insert_by-mem x (y ∷ xs) (Memᴰ.tail (Memᴰ.tail m)) = elim (Bool-cases (lt y x)) [
    | inl t ↦ rw t (Memᴰ.tail (insert_by-mem x xs (Memᴰ.tail m)))
    | inr f ↦ rw f (Memᴰ.tail (Memᴰ.tail m))
  ]

  -- It drops nothing either.
  pub sort_by-mem : (xs : List A) {z : A} → Memᴰ z xs → Memᴰ z (sort_by xs)
  unfolding sort_by
  sort_by-mem [] m = m
  sort_by-mem (x ∷ xs) (Memᴰ.head e) = insert_by-mem x (sort_by xs) (Memᴰ.head e)
  sort_by-mem (x ∷ xs) (Memᴰ.tail m) = insert_by-mem x (sort_by xs) (Memᴰ.tail (sort_by-mem xs m))
