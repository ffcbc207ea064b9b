-- ===== src/Kv/Keys/Ranges.antt =====
-- The range of a prefix.
use greentic_sorx.Prelude.{
  [], ◌∷◌, ◌++◌, List, ℕ, ◌≤◌, String, true, false, none, some, ◌≡◌, refl, ◌↔◌, arith, All, inl,
  inr, Option-cases, Bool-cases, ◌+◌, eqb,
}
use greentic_sorx.Store.Types.{ProviderNamespace}
use greentic_sorx.Kv.Keys.{
  Bytes, raise_last, prefix_end, child_range, join_key, bytes_lt, starts_with,
}

abbrev pub AreBytes : Bytes → Type 0
AreBytes ks = All (λ k. k ≤ 255) ks

-- All bytes are 255, so the keys that are not below the prefix are those that have it.
prefix_top :
    (ps ks : Bytes)
    → raise_last ps ≡ none
    → AreBytes ks
    → starts_with ps ks ≡ true
    → bytes_lt ks ps ≡ false
unfolding raise_last bytes_lt starts_with
prefix_top [] ks e bytes h = refl
prefix_top (p ∷ ps) [] e bytes h = cc
prefix_top (p ∷ ps) (k ∷ ks) e bytes h = elim (Option-cases (raise_last ps)) [
  | inl n ↦ ground (arith, prefix_top ps ks n bytes.1)
  | inr (q, s) ↦ absurd (ground (arith, s, e))
]

top_prefix :
    (ps ks : Bytes)
    → raise_last ps ≡ none
    → AreBytes ks
    → bytes_lt ks ps ≡ false
    → starts_with ps ks ≡ true
unfolding raise_last bytes_lt starts_with
top_prefix [] ks e bytes h = refl
top_prefix (p ∷ ps) [] e bytes h = cc
top_prefix (p ∷ ps) (k ∷ ks) e bytes h = elim (Option-cases (raise_last ps)) [
  | inl n ↦ ground (arith, top_prefix ps ks n bytes.1)
  | inr (q, s) ↦ absurd (ground (arith, s, e))
]

InRange : Bytes → Bytes → Bytes → Type 0
InRange ps end ks =
    (starts_with ps ks ≡ true) ↔ ((bytes_lt ks ps ≡ false) × (bytes_lt ks end ≡ true))

top_InRange :
    (p k : ℕ) (ps ks : Bytes)
    → raise_last ps ≡ none
    → AreBytes ks
    → InRange (p ∷ ps) ((p + 1) ∷ []) (k ∷ ks)
unfolding bytes_lt starts_with InRange
top_InRange p k ps ks n bytes = (
  λ h. (ground (arith, prefix_top ps ks n bytes), ground (arith, prefix_top ps ks n bytes)),
  λ h. ground (arith, top_prefix ps ks n bytes, h.0, h.1),
)

raised_InRange : (p k : ℕ) (ps ks q : Bytes) → InRange ps q ks → InRange (p ∷ ps) (p ∷ q) (k ∷ ks)
unfolding bytes_lt starts_with InRange
raised_InRange p k ps ks q inner = (
  λ h. (ground (arith, inner.0), ground (arith, inner.0)),
  λ h. ground (arith, inner.1, h.0, h.1),
)

raise_last-InRange :
    (ps ks end : Bytes) → raise_last ps ≡ some end → AreBytes ks → InRange ps end ks
unfolding raise_last bytes_lt starts_with InRange
raise_last-InRange [] ks end e bytes = absurd (ground (arith, e))
raise_last-InRange (p ∷ ps) [] end e bytes = (λ h. cc, λ h. absurd (ground (arith, h.0)))
raise_last-InRange (p ∷ ps) (k ∷ ks) end e bytes = elim (Option-cases (raise_last ps)) [
  | inl n ↦ elim (Bool-cases (eqb p 255)) [
    | inl t ↦ absurd (ground (arith, n, t, e))
    | inr f ↦
        let is : (p + 1) ∷ [] ≡ end = ground (arith, rw (n, f) at e) in
        rw (← is) (top_InRange p k ps ks n bytes.1)
  ]
  | inr (q, s) ↦
      let is : p ∷ q ≡ end = ground (arith, rw s at e) in
      rw (← is) (raised_InRange p k ps ks q (raise_last-InRange ps ks q s bytes.1))
]

raise_slash : (ps : Bytes) → (end : Bytes) × (raise_last (ps ++ 47 ∷ []) ≡ some end)
unfolding raise_last
raise_slash [] = (48 ∷ [], refl)
raise_slash (p ∷ ps) = let (end, e) = raise_slash ps in (p ∷ end, rw e refl)

-- The range of the children of a key holds exactly the keys that go on after the key and a slash.
pub child_range_iff :
    (n : ProviderNamespace) (segments : List String) (key : Bytes)
    → AreBytes key
    → (starts_with (join_key n segments ++ 47 ∷ []) key ≡ true) ↔ (
        (bytes_lt key (child_range n segments).0 ≡ false)
        × (bytes_lt key (child_range n segments).1 ≡ true))
unfolding child_range prefix_end InRange
child_range_iff n segments key bytes =
    let (end, e) = raise_slash (join_key n segments) in
    rw e (raise_last-InRange (join_key n segments ++ 47 ∷ []) key end e bytes)
