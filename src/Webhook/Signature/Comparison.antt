-- ===== src/Webhook/Signature/Comparison.antt =====
-- The comparison of signatures: every difference of a byte is noticed.
use greentic_sorx.Prelude.{
  ◌∙◌, ◌∷◌, [], inr, inl, Bool-cases, length, ℕ, zero, suc, ◌<◌, Bool, true, false, ◌&&◌, ◌≡◌, refl,
  if◌then◌else◌, eqb, ltb, arith,
}
use greentic_sorx.Kv.Keys.Ranges.{AreBytes}
use greentic_sorx.Webhook.Signature.{Bytes, differences, constant_time_eq}
use greentic_sorx.Kv.Keys.{Bytes}
use greentic_sorx.Kv.Records.{bytes_eq}
use Prim.Native.Nat.{bit_or, bit_xor}

-- A test of each number under a bound.
module _ (test : ℕ → Bool) where
  every : ℕ → Bool
  every zero = true
  every (suc last) = if test last then every last else false

  test-of_every : (bound n : ℕ) → every bound ≡ true → n < bound → test n ≡ true
  unfolding every
  test-of_every zero n passed under = absurd (omega (arith, under))
  test-of_every (suc last) n passed under = ground (arith, test-of_every last n)

same_test : Bool → Bool → Bool
same_test true b = b
same_test false true = false
same_test false false = true

same_test_sound : (a b : Bool) → same_test a b ≡ true → a ≡ b
unfolding same_test
same_test_sound true b h = ground arith
same_test_sound false true h = cc
same_test_sound false false h = refl

xor_row : ℕ → ℕ → Bool
xor_row l r = same_test (eqb (bit_xor l r) 0) (eqb l r) && ltb (bit_xor l r) 256

or_row : ℕ → ℕ → Bool
or_row a b = same_test (eqb (bit_or a b) 0) (eqb a 0 && eqb b 0) && ltb (bit_or a b) 256

xor_table : every (λ l. every (xor_row l) 256) 256 ≡ true
unfolding every xor_row same_test
xor_table = refl

or_table : every (λ a. every (or_row a) 256) 256 ≡ true
unfolding every or_row same_test
or_table = refl

xor_byte : (l r : ℕ) → l < 256 → r < 256 → (eqb (bit_xor l r) 0 ≡ eqb l r) × (bit_xor l r < 256)
unfolding xor_row
xor_byte l r p q =
    let row =
      test-of_every (xor_row l) 256 r (test-of_every (λ k. every (xor_row k) 256) 256 l xor_table p)
        q in
    (same_test_sound (eqb (bit_xor l r) 0) (eqb l r) (ground (arith, row)), ground (arith, row))

or_byte :
    (a b : ℕ) → a < 256 → b < 256 → (eqb (bit_or a b) 0 ≡ (eqb a 0 && eqb b 0)) × (bit_or a b < 256)
unfolding or_row
or_byte a b p q =
    let row =
      test-of_every (or_row a) 256 b (test-of_every (λ k. every (or_row k) 256) 256 a or_table p)
        q in
    (
      same_test_sound (eqb (bit_or a b) 0) (eqb a 0 && eqb b 0) (ground (arith, row)),
      ground (arith, row),
    )

and_assoc : (a b c : Bool) → ((a && b) && c) ≡ (a && (b && c))
and_assoc true b c = refl
and_assoc false b c = refl

differences_lem :
    (acc : ℕ) (ls rs : Bytes)
    → acc < 256
    → AreBytes ls
    → AreBytes rs
    → length ls ≡ length rs
    → eqb (differences acc ls rs) 0 ≡ (eqb acc 0 && bytes_eq ls rs)
unfolding differences bytes_eq
differences_lem acc [] [] small p q same = ground arith
differences_lem acc [] (r ∷ rs) small p q same = absurd (omega (arith, same))
differences_lem acc (l ∷ ls) [] small p q same = absurd (omega (arith, same))
differences_lem acc (l ∷ ls) (r ∷ rs) small p q same =
    let (x, within) = xor_byte l r (omega (arith, p.0)) (omega (arith, q.0)) in
    let (o, below) = or_byte acc (bit_xor l r) small within in
    differences_lem (bit_or acc (bit_xor l r)) ls rs below p.1 q.1 (omega (arith, same))
    ∙ rw (o, x) (and_assoc (eqb acc 0) (eqb l r) (bytes_eq ls rs))

bytes_eq_lengths : (xs ys : Bytes) → bytes_eq xs ys ≡ true → length xs ≡ length ys
unfolding bytes_eq
bytes_eq_lengths [] [] h = refl
bytes_eq_lengths [] (y ∷ ys) h = cc
bytes_eq_lengths (x ∷ xs) [] h = cc
bytes_eq_lengths (x ∷ xs) (y ∷ ys) h = ground (arith, bytes_eq_lengths xs ys)

pub constant_time_eq_lem :
    (left right : Bytes)
    → AreBytes left
    → AreBytes right
    → constant_time_eq left right ≡ bytes_eq left right
unfolding constant_time_eq
constant_time_eq_lem left right p q = elim (Bool-cases (eqb (length left) (length right))) [
  | inl t ↦ rw t (differences_lem 0 left right (omega arith) p q (ground (arith, t)))
  | inr f ↦ rw f (ground (arith, bytes_eq_lengths left right, f))
]
