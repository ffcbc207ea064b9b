-- ===== src/Webhook/Signature.antt =====
-- crates/greentic-sorx-core/src/ghcr_webhook.rs: the signature of a webhook's body. Texts of digits are
-- lists of their bytes.
pub mod Comparison
pub mod Accepted
use Prim.Native.Nat.{◌/◌, ◌%◌, bit_or, bit_xor}
use greentic_sorx.Prelude.{
  [], ◌∷◌, ◌++◌, List, ℕ, zero, suc, ◌+◌, String, Bool, true, false, none, some, ◌&&◌,
  if◌then◌else◌, length, eqb, ltb, map,
}
use greentic_sorx.Prelude.Results.{Result, ok, err}
use greentic_sorx.Runtime.Command.Paths.{strip_prefix}
use greentic_sorx.Kv.Keys.{Bytes, to_bytes}
use greentic_sorx.Webhook.Types.{GhcrWebhookError, new}

-- `resize(n, 0)`
resize : ℕ → Bytes → Bytes
resize zero bytes = []
resize (suc n) [] = 0 ∷ resize n []
resize (suc n) (b ∷ bytes) = b ∷ resize n bytes

hex_digit : ℕ → ℕ
hex_digit n = if ltb n 10 then b'0' + n else 87 + n

unfoldable pub hex_lower : Bytes → Bytes
unfolding hex_digit
hex_lower [] = []
hex_lower (b ∷ bytes) = hex_digit (b / 16) ∷ hex_digit (b % 16) ∷ hex_lower bytes

unfoldable pub hmac_sha256_hex : (Bytes → Bytes) → Bytes → Bytes → Bytes
unfolding resize
hmac_sha256_hex sha256 secret body =
    let key = resize 64 (if ltb 64 (length secret) then sha256 secret else secret) in
    let outer_key_pad = map (bit_xor 0x5c) key in
    let inner_key_pad = map (bit_xor 0x36) key in
    hex_lower (sha256 (outer_key_pad ++ sha256 (inner_key_pad ++ body)))

unfoldable pub github_signature : (Bytes → Bytes) → Bytes → Bytes → Bytes
github_signature sha256 secret body = to_bytes "sha256=" ++ hmac_sha256_hex sha256 secret body

-- The fold over the pairs of bytes.
differences : ℕ → Bytes → Bytes → ℕ
differences acc (l ∷ ls) (r ∷ rs) = differences (bit_or acc (bit_xor l r)) ls rs
differences acc [] rs = acc
differences acc ls [] = acc

unfoldable pub constant_time_eq : Bytes → Bytes → Bool
unfolding differences
constant_time_eq left right =
    if eqb (length left) (length right) then eqb (differences 0 left right) 0 else false

unfoldable pub verify_github_signature :
    (Bytes → Bytes) → Bytes → Bytes → String → Result GhcrWebhookError (Unit {0})
verify_github_signature sha256 secret body signature = elim (strip_prefix "sha256=" signature) [
  | none ↦ err (new "bad_signature_format" "X-Hub-Signature-256 must start with sha256=")
  | some hex_signature ↦
      if constant_time_eq (hmac_sha256_hex sha256 secret body) (to_bytes hex_signature)
      then ok tt
      else err (new "bad_signature" "GitHub webhook signature did not match")
]
