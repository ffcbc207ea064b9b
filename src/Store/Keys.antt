-- ===== src/Store/Keys.antt =====
-- crates/greentic-sorx-core/src/provider.rs and providers/memory.rs: the keys under which the state
-- keeps its entries.
use Prim.Native.Char.{Char}
use greentic_sorx.Prelude.{String, not, ◌||◌, if◌then◌else◌}
use greentic_sorx.Prelude.Text.{◌+++◌, is_char, is_control, filter_chars, map_chars, trim_matches}
use greentic_sorx.Store.Types.{ProviderNamespace}

-- `replace(['/', '\\'], "_")` at one character
unslash : Char → Char
unslash c = if is_char b'/' c || is_char 92 c then "_" else c

-- `clean_segment` of provider.rs and `clean_key` of memory.rs
unfoldable pub clean_key : String → String
unfolding unslash trim_matches map_chars filter_chars is_control
clean_key value =
    filter_chars (λ c. not (is_control c)) (map_chars unslash (trim_matches (is_char b'/') value))

unfoldable pub key_prefix : ProviderNamespace → String
unfolding clean_key
key_prefix n = "sorx/" +++ clean_key n.tenant_id +++ "/" +++ clean_key n.sor_name

unfoldable pub collection_key : ProviderNamespace → String → String
unfolding key_prefix
collection_key n collection = key_prefix n +++ "/" +++ collection

unfoldable pub subject_key : ProviderNamespace → String → String → String → String
unfolding key_prefix clean_key
subject_key n collection entity id =
    key_prefix n
    +++ "/"
    +++ clean_key collection
    +++ "/"
    +++ clean_key entity
    +++ "/"
    +++ clean_key id

unfoldable pub stream_key : ProviderNamespace → String → String
unfolding key_prefix clean_key
stream_key n stream = key_prefix n +++ "/events/" +++ clean_key stream
