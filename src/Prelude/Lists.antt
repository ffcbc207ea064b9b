-- ===== src/Prelude/Lists.antt =====
-- Lists with Boolean tests, as `iter().find`, `any`, `all` and `retain` use them, and their laws.
use Prim.Native.Nat.{ℕ, zero, suc}
use mathlib.Core.Path.{◌≡◌, refl}
use mathlib.Core.Bool.{Bool, true, false, ◌&&◌, ◌||◌}
use mathlib.Core.Option.{Option, none, some}
use mathlib.Core.Logic.{inl, inr}
use mathlib.Core.List.{List, [], ◌∷◌, ◌++◌, Memᴰ}
use native.Mathlib.Omega.{arith}
use greentic_sorx.Prelude.Tests.{Bool-cases, if◌then◌else◌}

module _ {ℓ} {A : Type ℓ} where
  abbrev pub length : List A → ℕ
  length [] = 0
  length (x ∷ xs) = suc (length xs)

  abbrev pub any : (A → Bool) → List A → Bool
  any p [] = false
  any p (x ∷ xs) = p x || any p xs

  abbrev pub all : (A → Bool) → List A → Bool
  all p [] = true
  all p (x ∷ xs) = p x && all p xs

  abbrev pub find : (A → Bool) → List A → Option A
  find p [] = none
  find p (x ∷ xs) = if p x then some x else find p xs

  abbrev keep_if : Bool → A → List A → List A
  keep_if true x xs = x ∷ xs
  keep_if false x xs = xs

  -- `Vec::retain`, and `Iterator::filter`
  abbrev pub retain : (A → Bool) → List A → List A
  retain p [] = []
  retain p (x ∷ xs) = keep_if (p x) x (retain p xs)

  abbrev pub skip : ℕ → List A → List A
  skip zero xs = xs
  skip (suc n) [] = []
  skip (suc n) (x ∷ xs) = skip n xs

module _ {ℓ κ} {A : Type ℓ} (P : A → Type κ) where
  abbrev pub All : List A → Type κ
  All [] = Unit
  All (x ∷ xs) = P x × All xs

  pub All-append : (xs ys : List A) → All xs → All ys → All (xs ++ ys)
  All-append [] ys h k = k
  All-append (x ∷ xs) ys h k = (h.0, All-append xs ys h.1 k)

  pub All-retain : (p : A → Bool) (xs : List A) → All xs → All (retain p xs)
  All-retain p [] h = tt
  All-retain p (x ∷ xs) h = ground (arith, All-retain p xs h.1)

  pub All-of_Memᴰ : (xs : List A) {x : A} → All xs → Memᴰ x xs → P x
  All-of_Memᴰ [] h m = elim m [ ]
  All-of_Memᴰ (y ∷ xs) h (Memᴰ.head e) = rw e h.0
  All-of_Memᴰ (y ∷ xs) h (Memᴰ.tail m) = All-of_Memᴰ xs h.1 m

  pub All-by_Memᴰ : (xs : List A) → ((x : A) → Memᴰ x xs → P x) → All xs
  All-by_Memᴰ [] h = tt
  All-by_Memᴰ (x ∷ xs) h = (h x (Memᴰ.head refl), All-by_Memᴰ xs (λ y m. h y (Memᴰ.tail m)))

module _ {ℓ} {A : Type ℓ} where
  -- What `find` returns passes the test and is in the list.
  pub find_sound :
      (p : A → Bool) (xs : List A) {x : A} → find p xs ≡ some x → (p x ≡ true) × Memᴰ x xs
  find_sound p [] e = cc
  find_sound p (y ∷ xs) {x} e = elim (Bool-cases (p y)) [
    | inl h ↦ let same : x ≡ y = ground arith in (rw same h, Memᴰ.head same)
    | inr h ↦ let (a, m) = find_sound p xs (rw h at e) in (a, Memᴰ.tail m)
  ]

  -- Where `find` returns nothing, no element passes the test.
  pub find-none : (p : A → Bool) (xs : List A) → find p xs ≡ none → All (λ x. p x ≡ false) xs
  find-none p [] e = tt
  find-none p (y ∷ xs) e = (ground arith, find-none p xs (ground arith))

  mem-keep_if :
      (p : A → Bool) (b : Bool) (y : A) {x : A} {xs kept : List A}
      → p y ≡ b
      → (Memᴰ x kept → Memᴰ x xs × (p x ≡ true))
      → Memᴰ x (keep_if b y kept)
      → Memᴰ x (y ∷ xs) × (p x ≡ true)
  mem-keep_if p true y h rest (Memᴰ.head e) = (Memᴰ.head e, rw e h)
  mem-keep_if p true y h rest (Memᴰ.tail m) = let (a, b) = rest m in (Memᴰ.tail a, b)
  mem-keep_if p false y h rest m = let (a, b) = rest m in (Memᴰ.tail a, b)

  pub mem-retain :
      (p : A → Bool) (xs : List A) {x : A} → Memᴰ x (retain p xs) → Memᴰ x xs × (p x ≡ true)
  mem-retain p [] m = elim m [ ]
  mem-retain p (y ∷ xs) m = mem-keep_if p (p y) y refl (mem-retain p xs) m

  keep_if-mem :
      (p : A → Bool) (b : Bool) (y : A) {x : A} {kept : List A}
      → Memᴰ x kept
      → Memᴰ x (keep_if b y kept)
  keep_if-mem p true y m = Memᴰ.tail m
  keep_if-mem p false y m = m

  pub retain-mem :
      (p : A → Bool) (xs : List A) {x : A} → Memᴰ x xs → p x ≡ true → Memᴰ x (retain p xs)
  retain-mem p [] m h = elim m [ ]
  retain-mem p (y ∷ xs) (Memᴰ.head e) h =
      let kept : p y ≡ true = rw (← e) h in rw kept (Memᴰ.head e)
  retain-mem p (y ∷ xs) (Memᴰ.tail m) h = keep_if-mem p (p y) y (retain-mem p xs m h)

  pub find-append_some :
      (p : A → Bool) (xs ys : List A) {x : A} → find p xs ≡ some x → find p (xs ++ ys) ≡ some x
  find-append_some p [] ys e = cc
  find-append_some p (z ∷ xs) ys {x} e = ground (arith, find-append_some p xs ys {x = x})

  pub find-append_none :
      (p : A → Bool) (xs ys : List A) → find p xs ≡ none → find p (xs ++ ys) ≡ find p ys
  find-append_none p [] ys e = refl
  find-append_none p (z ∷ xs) ys e = ground (arith, find-append_none p xs ys)
