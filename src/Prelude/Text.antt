-- ===== src/Prelude/Text.antt =====
-- The text operations of the standard library that the program calls, over code points.
use Prim.Native.Nat.{ℕ, zero, suc, ◌-◌, ◌/◌, ◌%◌}
use Prim.Native.Char.{Char, code}
use Prim.Native.String
use Prim.Native.String.{String, char_at}
use mathlib.Core.Bool.{Bool, true, false, ◌&&◌, ◌||◌}
use mathlib.Core.List.{List}
use greentic_sorx.Prelude.Tests.{if◌then◌else◌, leb, eqb}

infixl 65 ◌+++◌
abbrev pub ◌+++◌ : String → String → String
s +++ t = String.◌++◌ s t

unfoldable pub is_empty : String → Bool
is_empty String.[] = true
is_empty (String.◌∷◌ c s) = false

-- `char::is_ascii_uppercase`
unfoldable pub is_ascii_uppercase : Char → Bool
is_ascii_uppercase c = leb b'A' (code c) && leb (code c) b'Z'

unfoldable pub is_ascii_alphanumeric : Char → Bool
is_ascii_alphanumeric c =
    leb b'0' (code c) && leb (code c) b'9'
    || leb b'A' (code c) && leb (code c) b'Z'
    || leb b'a' (code c) && leb (code c) b'z'

unfoldable pub to_ascii_lowercase : Char → Char
unfolding is_ascii_uppercase
to_ascii_lowercase c =
    if is_ascii_uppercase c then char_at "abcdefghijklmnopqrstuvwxyz" (code c - b'A') else c

-- `char::is_ascii_lowercase`
is_ascii_lowercase : Char → Bool
is_ascii_lowercase c = leb b'a' (code c) && leb (code c) b'z'

unfoldable pub to_ascii_uppercase : Char → Char
unfolding is_ascii_lowercase
to_ascii_uppercase c =
    if is_ascii_lowercase c then char_at "ABCDEFGHIJKLMNOPQRSTUVWXYZ" (code c - b'a') else c

-- `char::is_control`: the category Cc
unfoldable pub is_control : Char → Bool
is_control c = leb (code c) 31 || leb 127 (code c) && leb (code c) 159

-- `char::is_whitespace`: the property White_Space
unfoldable pub is_whitespace : Char → Bool
is_whitespace c =
    leb 9 (code c) && leb (code c) 13
    || eqb (code c) 32
    || eqb (code c) 133
    || eqb (code c) 160
    || eqb (code c) 5760
    || leb 8192 (code c) && leb (code c) 8202
    || eqb (code c) 8232
    || eqb (code c) 8233
    || eqb (code c) 8239
    || eqb (code c) 8287
    || eqb (code c) 12288

-- `chars().map(f).collect()`
unfoldable pub map_chars : (Char → Char) → String → String
map_chars f String.[] = String.[]
map_chars f (String.◌∷◌ c s) = String.◌∷◌ (f c) (map_chars f s)

-- `chars().filter(p).collect()`
unfoldable pub filter_chars : (Char → Bool) → String → String
filter_chars p String.[] = String.[]
filter_chars p (String.◌∷◌ c s) =
    let rest = filter_chars p s in if p c then String.◌∷◌ c rest else rest

-- `chars().take(n).collect()`
unfoldable pub take_chars : ℕ → String → String
take_chars zero s = String.[]
take_chars (suc n) String.[] = String.[]
take_chars (suc n) (String.◌∷◌ c s) = String.◌∷◌ c (take_chars n s)

trim_start : (Char → Bool) → String → String
trim_start p String.[] = String.[]
trim_start p (String.◌∷◌ c s) = let rest = trim_start p s in if p c then rest else String.◌∷◌ c s

trim_end : (Char → Bool) → String → String
unfolding is_empty
trim_end p String.[] = String.[]
trim_end p (String.◌∷◌ c s) =
    let rest = trim_end p s in if p c && is_empty rest then String.[] else String.◌∷◌ c rest

-- `trim_matches(p)`
unfoldable pub trim_matches : (Char → Bool) → String → String
unfolding trim_start trim_end
trim_matches p s = trim_end p (trim_start p s)

-- `trim()`
unfoldable pub trim : String → String
unfolding trim_matches is_whitespace
trim s = trim_matches is_whitespace s

-- `to_ascii_lowercase()` of a text
unfoldable pub lowercase : String → String
unfolding map_chars to_ascii_lowercase
lowercase s = map_chars to_ascii_lowercase s

push_first : Char → List String → List String
push_first c List.[] = List.◌∷◌ (String.◌∷◌ c String.[]) List.[]
push_first c (List.◌∷◌ w ws) = List.◌∷◌ (String.◌∷◌ c w) ws

-- `split(p)`: the pieces between the characters that pass the test
unfoldable pub split : (Char → Bool) → String → List String
unfolding push_first
split p String.[] = List.◌∷◌ String.[] List.[]
split p (String.◌∷◌ c s) =
    let rest = split p s in if p c then List.◌∷◌ String.[] rest else push_first c rest

-- `strip_prefix(pre)`, or the text as it is: `unwrap_or(s)`
strip : String → String → String → String
strip String.[] t whole = t
strip (String.◌∷◌ a pre) String.[] whole = whole
strip (String.◌∷◌ a pre) (String.◌∷◌ c t) whole =
    let rest = strip pre t whole in if eqb (code a) (code c) then rest else whole

unfoldable pub strip_prefix_or_whole : String → String → String
unfolding strip
strip_prefix_or_whole pre s = strip pre s s

abbrev pub is_char : ℕ → Char → Bool
is_char k c = eqb (code c) k

digit : ℕ → Char
digit n = char_at "0123456789" n

decimal : ℕ → ℕ → String → String
decimal zero n acc = acc
decimal (suc fuel) n acc =
    let more = decimal fuel (n / 10) (String.◌∷◌ (digit (n % 10)) acc) in
    if leb n 9 then String.◌∷◌ (digit n) acc else more

-- `{n}` in a format: at most `n + 1` digits
unfoldable pub to_text : ℕ → String
unfolding decimal digit
to_text n = decimal (suc n) n String.[]
