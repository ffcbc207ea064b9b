-- ===== src/Kv/Records/Equality.antt =====
-- The equality of lists of bytes.
use greentic_sorx.Prelude.{[], ◌∷◌, ◌≡◌, refl, true, arith}
use greentic_sorx.Kv.Keys.{Bytes}
use greentic_sorx.Kv.Records.{bytes_eq}

pub bytes_eq_sound : (xs ys : Bytes) → bytes_eq xs ys ≡ true → xs ≡ ys
unfolding bytes_eq
bytes_eq_sound [] [] h = refl
bytes_eq_sound [] (y ∷ ys) h = cc
bytes_eq_sound (x ∷ xs) [] h = cc
bytes_eq_sound (x ∷ xs) (y ∷ ys) h = ground (arith, bytes_eq_sound xs ys)

pub bytes_eq_self : (xs : Bytes) → bytes_eq xs xs ≡ true
unfolding bytes_eq
bytes_eq_self [] = refl
bytes_eq_self (x ∷ xs) = ground (arith, bytes_eq_self xs)
