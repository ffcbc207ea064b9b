-- ===== src/Kv/Counter.antt =====
-- The eight bytes of a counter.
use Prim.Native.Nat.{◌/◌, ◌^◌}
use greentic_sorx.Prelude.{ap, ℕ, zero, suc, ◌*◌, ◌<◌, ◌≡◌, arith}
use greentic_sorx.Prelude.Results.{ok}
use greentic_sorx.Kv.Records.{decode_u64, to_le_bytes, little_endian, from_little_endian}

-- 256 to the `k`
abbrev limit : ℕ → ℕ
limit zero = 1
limit (suc k) = 256 * limit k

from-little_endian : (k n : ℕ) → n < limit k → from_little_endian (little_endian k n) ≡ n
unfolding from_little_endian little_endian
from-little_endian zero n below = omega arith
from-little_endian (suc k) n below =
    let step = from-little_endian k (n / 256) (omega arith) in rw step (omega arith)

-- A counter below 2 ^ 64 is read back from its bytes.
pub decode-to_le_bytes : (n : ℕ) → n < 2 ^ 64 → decode_u64 (to_le_bytes n) ≡ ok n
unfolding decode_u64 to_le_bytes little_endian from_little_endian
decode-to_le_bytes n below = ap ok (from-little_endian 8 n below)
