-- ===== src/Kv/Operations/AutoId.antt =====
-- The search for an id that no record has.
use Prim.Native.Nat.{◌%◌, ◌^◌}
use greentic_sorx.Prelude.{
  ℕ, zero, suc, ◌+◌, ◌<◌, String, none, some, ◌≡◌, refl, arith, inl, inr, Option-cases,
}
use greentic_sorx.Prelude.Text.{◌+++◌, to_text}
use greentic_sorx.Prelude.Results.{ok}
use greentic_sorx.Prelude.Actions.{◌>>=◌}
use greentic_sorx.Store.Types.{ProviderNamespace, Host}
use greentic_sorx.Kv.Keys.{entity_key}
use greentic_sorx.Kv.Records.{KvTxn, Codec, seek_id}
use greentic_sorx.Kv.Operations.Created.{KvLaws}

-- The number that the loop tries after `k` others: it wraps as a `u64` does.
abbrev pub tried : ℕ → ℕ → ℕ
tried zero last = (last + 1) % 2 ^ 64
tried (suc k) last = tried k ((last + 1) % 2 ^ 64)

abbrev pub id_of : String → ℕ → String
id_of collection number = collection +++ "-" +++ to_text number

module _ {W : Type 0} (txn : KvTxn W) (codec : Codec) (host : Host) (laws : KvLaws txn)
    (n : ProviderNamespace) (collection : String) where
  abbrev IsFree : ℕ → W → Type 0
  IsFree number w = laws.held (entity_key n collection (id_of collection number)) w ≡ none

  -- Where one of the numbers that the loop tries within its rounds is free, the loop ends, and with an id
  -- that no record has, over a transaction that keeps the laws of its reads and writes.
  pub seek_id_ends :
      (rounds k last : ℕ) (w : W)
      → k < rounds
      → laws.held (entity_key n collection (id_of collection (tried k last))) w ≡ none
      → (next : ℕ) × ((seek_id txn codec host n collection rounds last w).0
          ≡ ok (some (next, id_of collection next)))
        × (laws.held (entity_key n collection (id_of collection next)) w ≡ none)
  unfolding seek_id ◌>>=◌
  seek_id_ends zero k last w within free = absurd (omega arith)
  seek_id_ends (suc rounds) zero last w within free =
      let next = (last + 1) % 2 ^ 64 in
      (
        next,
        rw (laws.get-held (entity_key n collection (id_of collection next)) w, free) refl,
        free,
      )
  seek_id_ends (suc rounds) (suc k) last w within free =
      let next = (last + 1) % 2 ^ 64 in
      let key = entity_key n collection (id_of collection next) in
      elim (Option-cases (laws.held key w)) [
        | inl vacant ↦ (next, rw (laws.get-held key w, vacant) refl, vacant)
        | inr (bytes, taken) ↦
            rw (laws.get-held key w, taken) (seek_id_ends rounds k next w (omega arith) free)
      ]
