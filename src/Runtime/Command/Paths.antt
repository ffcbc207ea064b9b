-- ===== src/Runtime/Command/Paths.antt =====
-- crates/greentic-sorx-core/src/runtime.rs: paths into values, generated texts, capabilities.
use greentic_sorx.Prelude.Text.{
  to_text, ◌+++◌, is_char, is_empty, is_ascii_alphanumeric, map_chars, trim_matches, split,
}
use greentic_sorx.Prelude.{
  ◌==◌, [], ◌∷◌, List, ℕ, zero, suc, ◌+◌, ◌-◌, ◌*◌, String, Bool, true, false, Option, none, some,
  ◌&&◌, ◌||◌, if◌then◌else◌, eqb, ltb, leb,
}
use Prim.Native.Char.{Char, code}
use Prim.Native.Nat.{◌/◌, ◌%◌}
use Prim.Native.String.{char_at}
use greentic_sorx.Json
use greentic_sorx.Json.{
  Value, null, bool, number, string, array, object, Items, Number, and_then, items,
}

-- `str::strip_prefix`
unfoldable pub strip_prefix : String → String → Option String
strip_prefix String.[] s = some s
strip_prefix (String.◌∷◌ a pre) String.[] = none
strip_prefix (String.◌∷◌ a pre) (String.◌∷◌ c s) =
    let rest = strip_prefix pre s in if eqb (code a) (code c) then rest else none

abbrev is_found : Option String → Bool
is_found none = false
is_found (some s) = true

-- `str::starts_with`, of a text and a pattern
unfoldable pub starts_with : String → String → Bool
starts_with s prefix = is_found (strip_prefix prefix s)

-- `str::contains`
unfoldable pub contains_text : String → String → Bool
unfolding strip_prefix
contains_text part String.[] = is_empty part
contains_text part (String.◌∷◌ c s) =
    is_found (strip_prefix part (String.◌∷◌ c s)) || contains_text part s

-- `path.split_once('.').unwrap_or((path, ""))`
unfoldable pub split_dot : String → String × String
split_dot String.[] = (String.[], String.[])
split_dot (String.◌∷◌ c s) =
    let (head, tail) = split_dot s in
    if is_char b'.' c then (String.[], s) else (String.◌∷◌ c head, tail)

is_digit : Char → Bool
is_digit c = leb b'0' (code c) && leb (code c) b'9'

parse_digits : ℕ → String → Option ℕ
unfolding is_digit
parse_digits acc String.[] = some acc
parse_digits acc (String.◌∷◌ c s) =
    let rest = parse_digits (acc * 10 + (code c - b'0')) s in if is_digit c then rest else none

drop_plus : String → String
drop_plus String.[] = String.[]
drop_plus (String.◌∷◌ c s) = if is_char b'+' c then s else String.◌∷◌ c s

below_limit : ℕ → Option ℕ
below_limit n = if ltb n 18446744073709551616 then some n else none

-- `str::parse::<usize>`, of 64 bits: digits, after a plus sign or not
unfoldable pub parse_usize : String → Option ℕ
unfolding parse_digits drop_plus below_limit is_empty
parse_usize s =
    if is_empty (drop_plus s) then none else and_then (parse_digits 0 (drop_plus s)) below_limit

unfoldable pub item_at : ℕ → List Value → Option Value
item_at n [] = none
item_at zero (v ∷ vs) = some v
item_at (suc n) (v ∷ vs) = item_at n vs

-- `value.get(index)`
get_index : ℕ → Value → Option Value
unfolding item_at
get_index n (array vs) = item_at n (items vs)
get_index n null = none
get_index n _ = none

lookup_part : String → Value → Option Value
unfolding parse_usize get_index
lookup_part part value = elim (parse_usize part) [
  | some n ↦ get_index n value
  | none ↦ Json.get part value
]

lookup_parts : List String → Value → Option Value
unfolding lookup_part
lookup_parts [] value = some value
lookup_parts (part ∷ parts) value = and_then (lookup_part part value) (lookup_parts parts)

unfoldable pub lookup_path : Value → String → Option Value
unfolding lookup_parts split
lookup_path value path = lookup_parts (split (is_char b'.') path) value

unfoldable pub is_absent_command_value : Value → Bool
unfolding is_empty
is_absent_command_value null = true
is_absent_command_value (string s) = is_empty s
is_absent_command_value _ = false

code_chars : (ℕ → ℕ) → ℕ → ℕ → String
code_chars digest index zero = String.[]
code_chars digest index (suc len) =
    String.◌∷◌ (char_at "ABCDEFGHJKLMNPQRSTUVWXYZ23456789" (digest (index % 32) % 32))
      (code_chars digest (suc index) len)

-- `generated_short_code`, from the bytes of the seed's SHA-256
unfoldable pub generated_short_code : (ℕ → ℕ) → ℕ → String
unfolding code_chars
generated_short_code digest len = code_chars digest 0 len

hex : ℕ → String
hex byte =
    String.◌∷◌ (char_at "0123456789abcdef" (byte / 16))
      (String.◌∷◌ (char_at "0123456789abcdef" (byte % 16)) String.[])

-- `generated_uuid`: a mask by `0x0f` or `0x3f` is a remainder
unfoldable pub generated_uuid : (ℕ → ℕ) → String
unfolding hex
generated_uuid d =
    hex (d 0)
    +++ hex (d 1)
    +++ hex (d 2)
    +++ hex (d 3)
    +++ "-"
    +++ hex (d 4)
    +++ hex (d 5)
    +++ "-4"
    +++ hex (d 6 % 16)
    +++ hex (d 7)
    +++ "-8"
    +++ hex (d 8 % 64)
    +++ hex (d 9)
    +++ "-"
    +++ hex (d 10)
    +++ hex (d 11)
    +++ hex (d 12)
    +++ hex (d 13)
    +++ hex (d 14)
    +++ hex (d 15)

capability_char : Char → Char
capability_char c =
    if is_ascii_alphanumeric c || is_char b'-' c || is_char b'_' c || is_char b'.' c then c else "-"

clean_capability_segment : String → String
unfolding capability_char map_chars trim_matches is_empty is_ascii_alphanumeric
clean_capability_segment value =
    let cleaned = trim_matches (is_char b'-') (map_chars capability_char value) in
    if is_empty cleaned then "unnamed" else cleaned

unfoldable pub business_event_capability : String → String → String
unfolding clean_capability_segment
business_event_capability pack_name event_type =
    "cap://greentic/events/"
    +++ clean_capability_segment pack_name
    +++ "/"
    +++ clean_capability_segment event_type

-- `str::ends_with`
unfoldable pub ends_with : String → String → Bool
ends_with suffix String.[] = is_empty suffix
ends_with suffix (String.◌∷◌ c s) = String.◌∷◌ c s == suffix || ends_with suffix s

integer_text : Number → Option String
integer_text (Number.pos_int n) = if ltb n 9223372036854775808 then some (to_text n) else none
integer_text (Number.neg_int n) = some ("-" +++ to_text n)
integer_text (Number.float n) = none

-- `as_str`, or else `as_i64` as a text; the negative integers are kept by their size
unfoldable pub text_of : Value → Option String
unfolding integer_text
text_of (string s) = some s
text_of (number n) = integer_text n
text_of null = none
text_of _ = none
