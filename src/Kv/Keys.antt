-- ===== src/Kv/Keys.antt =====
-- crates/greentic-sorx-core/src/providers/kv.rs: the keys, as lists of bytes.
pub mod Ranges
use greentic_sorx.Prelude.{
  ◌-◌, [], ◌∷◌, ◌++◌, List, ℕ, zero, suc, ◌+◌, String, Bool, true, false, Option, none, some, ◌&&◌,
  ◌||◌, if◌then◌else◌, ltb, eqb,
}
use Prim.Native.Char.{Char, code}
use Prim.Native.Nat.{◌/◌, ◌%◌}
use Prim.Native.String
use greentic_sorx.Prelude.Text.{◌+++◌, to_text}
use greentic_sorx.Json.{Value, unwrap_or}
use greentic_sorx.Store.Types.{ProviderNamespace}
use greentic_sorx.Store.Keys.{key_prefix, clean_key}

abbrev pub Bytes : Type 0
Bytes = List ℕ

unfoldable pub char_bytes : ℕ → Bytes
char_bytes c =
    if ltb c 128
    then c ∷ []
    else if ltb c 2048
    then (192 + c / 64) ∷ (128 + c % 64) ∷ []
    else if ltb c 65536
    then (224 + c / 4096) ∷ (128 + c / 64 % 64) ∷ (128 + c % 64) ∷ []
    else (240 + c / 262144) ∷ (128 + c / 4096 % 64) ∷ (128 + c / 64 % 64) ∷ (128 + c % 64) ∷ []

-- `as_bytes`: the UTF-8 of a text
unfoldable pub to_bytes : String → Bytes
unfolding char_bytes
to_bytes String.[] = []
to_bytes (String.◌∷◌ c s) = char_bytes (code c) ++ to_bytes s

unfoldable pub join_segments : List String → Bytes
join_segments [] = []
join_segments (s ∷ ss) = 47 ∷ to_bytes s ++ join_segments ss

-- `join`
unfoldable pub join_key : ProviderNamespace → List String → Bytes
unfolding join_segments
join_key namespace segments = to_bytes (key_prefix namespace) ++ join_segments segments

unfoldable pub entity_key : ProviderNamespace → String → String → Bytes
entity_key n collection id = join_key n ("e" ∷ clean_key collection ∷ clean_key id ∷ [])

unfoldable pub idem_key : ProviderNamespace → String → String → Bytes
idem_key n collection key = join_key n ("idem" ∷ clean_key collection ∷ clean_key key ∷ [])

-- The text of the values is serde's.
unfoldable pub uniq_key :
    (List Value → String) → ProviderNamespace → String → String → List Value → Bytes
uniq_key text n collection index_id values =
    join_key n ("uniq" ∷ clean_key collection ∷ clean_key index_id ∷ clean_key (text values) ∷ [])

zeros : ℕ → String
zeros zero = ""
zeros (suc n) = "0" +++ zeros n

text_length : String → ℕ
text_length String.[] = 0
text_length (String.◌∷◌ c s) = suc (text_length s)

-- `{seq:020}`
pad : String → String
unfolding zeros text_length
pad s = zeros (20 - text_length s) +++ s

unfoldable pub event_key : ProviderNamespace → String → ℕ → Bytes
unfolding pad
event_key n stream seq = join_key n ("ev" ∷ clean_key stream ∷ pad (to_text seq) ∷ [])

unfoldable pub idseq_key : ProviderNamespace → String → Bytes
idseq_key n collection = join_key n ("idseq" ∷ clean_key collection ∷ [])

unfoldable pub evseq_key : ProviderNamespace → String → Bytes
evseq_key n stream = join_key n ("evseq" ∷ clean_key stream ∷ [])

unfoldable pub subject_key_of : ProviderNamespace → String → String → String → String → Bytes
subject_key_of n kind collection entity id =
    join_key n (kind ∷ clean_key collection ∷ clean_key entity ∷ clean_key id ∷ [])

unfoldable pub schema_key : ProviderNamespace → Bytes
schema_key n = join_key n ("meta" ∷ "schema_version" ∷ [])

unfoldable pub migration_key : ProviderNamespace → String → Bytes
migration_key n migration_id = join_key n ("migrations" ∷ clean_key migration_id ∷ [])

-- The loop of `prefix_end`: trailing bytes of 255 are dropped, and the byte before them is raised.
unfoldable pub raise_last : Bytes → Option Bytes
raise_last [] = none
raise_last (b ∷ bs) = elim (raise_last bs) [
  | some higher ↦ some (b ∷ higher)
  | none ↦ if eqb b 255 then none else some ((b + 1) ∷ [])
]

unfoldable pub prefix_end : Bytes → Bytes
unfolding raise_last
prefix_end prefix = unwrap_or (255 ∷ []) (raise_last prefix)

unfoldable pub child_range : ProviderNamespace → List String → Bytes × Bytes
child_range n segments = let start = join_key n segments ++ 47 ∷ [] in (start, prefix_end start)

-- The order of keys, and the test for a prefix.
unfoldable pub bytes_lt : Bytes → Bytes → Bool
bytes_lt xs [] = false
bytes_lt [] (y ∷ ys) = true
bytes_lt (x ∷ xs) (y ∷ ys) = ltb x y || (eqb x y && bytes_lt xs ys)

unfoldable pub starts_with : Bytes → Bytes → Bool
starts_with [] ks = true
starts_with (p ∷ ps) [] = false
starts_with (p ∷ ps) (k ∷ ks) = eqb p k && starts_with ps ks
