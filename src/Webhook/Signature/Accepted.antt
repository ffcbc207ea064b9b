-- ===== src/Webhook/Signature/Accepted.antt =====
-- The signatures that pass.
use Prim.Native.Char.{Char, char, code}
use greentic_sorx.Prelude.{
  [], ◌∷◌, ℕ, ◌<◌, ◌≤◌, String, true, none, some, ◌≡◌, ◌↔◌, refl, sym, ◌∙◌, ◌≢◌, arith, All-append,
  inl, inr, Option-cases,
}
use greentic_sorx.Prelude.Results.{ok}
use greentic_sorx.Runtime.Command.Paths.{strip_prefix}
use greentic_sorx.Kv.Keys.{Bytes, char_bytes, to_bytes}
use greentic_sorx.Kv.Keys.Ranges.{AreBytes}
use greentic_sorx.Kv.Records.Equality.{bytes_eq_sound, bytes_eq_self}
use greentic_sorx.Webhook.Signature.{
  hex_lower, hmac_sha256_hex, verify_github_signature, constant_time_eq,
}
use greentic_sorx.Webhook.Signature.Comparison.{constant_time_eq_lem}

code_small : (c : Char) → code c < 1114112
code_small (char n p) = ground arith

char_bytes-AreBytes : (c : ℕ) → c < 1114112 → AreBytes (char_bytes c)
unfolding char_bytes
char_bytes-AreBytes c h = ground arith

to_bytes-AreBytes : (s : String) → AreBytes (to_bytes s)
unfolding to_bytes
to_bytes-AreBytes String.[] = tt
to_bytes-AreBytes (String.◌∷◌ c s) =
    All-append (λ k. k ≤ 255) (char_bytes (code c)) (to_bytes s)
      (char_bytes-AreBytes (code c) (code_small c)) (to_bytes-AreBytes s)

hex_lower-AreBytes : (bytes : Bytes) → AreBytes bytes → AreBytes (hex_lower bytes)
unfolding hex_lower
hex_lower-AreBytes [] h = tt
hex_lower-AreBytes (b ∷ bytes) h =
    (ground (arith, h), (ground (arith, h), hex_lower-AreBytes bytes h.1))

hmac-AreBytes :
    (sha256 : Bytes → Bytes)
    → ((bytes : Bytes) → AreBytes (sha256 bytes))
    → (secret body : Bytes) → AreBytes (hmac_sha256_hex sha256 secret body)
unfolding hmac_sha256_hex
hmac-AreBytes sha256 gives secret body = hex_lower-AreBytes (sha256 _) (gives _)

matched :
    (sha256 : Bytes → Bytes) (secret body : Bytes) (signature hex : String)
    → strip_prefix "sha256=" signature ≡ some hex
    → (verify_github_signature sha256 secret body signature ≡ ok tt)
      ↔ (constant_time_eq (hmac_sha256_hex sha256 secret body) (to_bytes hex) ≡ true)
unfolding verify_github_signature
matched sha256 secret body signature hex there =
    rw (there, verify_github_signature) (λ h. ground (arith, h), λ h. rw h refl)

unmatched :
    (sha256 : Bytes → Bytes) (secret body : Bytes) (signature : String)
    → strip_prefix "sha256=" signature ≡ none
    → verify_github_signature sha256 secret body signature ≢ ok tt
unfolding verify_github_signature
unmatched sha256 secret body signature missing = rw (missing, verify_github_signature) (λ h. cc)

-- A signature passes exactly where it is "sha256=" and the digits of the body's HMAC under the secret, if
-- SHA-256 gives bytes.
pub verify_iff :
    (sha256 : Bytes → Bytes)
    → ((bytes : Bytes) → AreBytes (sha256 bytes))
    → (secret body : Bytes) (signature : String)
    → (verify_github_signature sha256 secret body signature ≡ ok tt) ↔ (
        (digits : String) × (strip_prefix "sha256=" signature ≡ some digits)
        × (to_bytes digits ≡ hmac_sha256_hex sha256 secret body))
verify_iff sha256 gives secret body signature =
    let expected = hmac_sha256_hex sha256 secret body in
    let compared = λ (hex : String).
      constant_time_eq_lem expected (to_bytes hex) (hmac-AreBytes sha256 gives secret body)
        (to_bytes-AreBytes hex) in
    (
      λ h. elim (Option-cases (strip_prefix "sha256=" signature)) [
        | inl missing ↦ absurd (unmatched sha256 secret body signature missing h)
        | inr (hex, there) ↦ (
          hex,
          there,
          sym (
              bytes_eq_sound expected (to_bytes hex)
                (sym (compared hex) ∙ (matched sha256 secret body signature hex there).0 h)),
        )
      ],
      λ (digits, there, same).
          (matched sha256 secret body signature digits there).1
            (compared digits ∙ rw same (bytes_eq_self expected)),
    )
