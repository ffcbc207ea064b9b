-- ===== src/Deployment/Naming.antt =====
-- crates/greentic-sorx-core/src/deployment.rs: how ids, namespaces and base paths are spelled.
use Prim.Native.Char.{Char}
use greentic_sorx.Prelude.{String, Bool, ◌||◌, ◌==◌, if◌then◌else◌}
use greentic_sorx.Prelude.Text.{
  ◌+++◌, is_char, is_empty, is_ascii_alphanumeric, to_ascii_lowercase, map_chars, filter_chars,
  take_chars, trim_matches, trim, lowercase, strip_prefix_or_whole,
}
use greentic_sorx.Deployment.Types.{CreateDeploymentRequest, StateMode, isolated}

-- `ch.to_ascii_lowercase()` of the letters and digits, and `-` for all else
segment_char : Char → Char
segment_char c = if is_ascii_alphanumeric c then to_ascii_lowercase c else "-"

unfoldable pub clean_segment : String → String
unfolding segment_char trim_matches map_chars is_ascii_alphanumeric to_ascii_lowercase is_empty
clean_segment value =
    let cleaned = trim_matches (is_char b'-') (map_chars segment_char value) in
    if is_empty cleaned then "unnamed" else cleaned

unfoldable pub digest_suffix : String → String
unfolding take_chars filter_chars is_ascii_alphanumeric strip_prefix_or_whole
digest_suffix digest =
    take_chars 12 (filter_chars is_ascii_alphanumeric (strip_prefix_or_whole "sha256:" digest))

unfoldable pub deployment_id_for : String → String → String → String → String → String
unfolding clean_segment digest_suffix
deployment_id_for tenant_id sor_name api_version_label pack_version digest =
    clean_segment tenant_id
    +++ "-"
    +++ clean_segment sor_name
    +++ "-"
    +++ clean_segment api_version_label
    +++ "-"
    +++ clean_segment pack_version
    +++ "-"
    +++ digest_suffix digest

namespace_by : StateMode → CreateDeploymentRequest → String
unfolding clean_segment digest_suffix
namespace_by isolated request =
    "sorx/"
    +++ clean_segment request.tenant_id
    +++ "/"
    +++ clean_segment request.sor_name
    +++ "/"
    +++ clean_segment request.artifact.version
    +++ "/"
    +++ digest_suffix request.artifact.digest
namespace_by _ request =
    "sorx/" +++ clean_segment request.tenant_id +++ "/" +++ clean_segment request.sor_name

unfoldable pub default_state_namespace : CreateDeploymentRequest → String
unfolding namespace_by
default_state_namespace request = namespace_by request.state_mode request

unfoldable pub is_production_environment : String → Bool
unfolding trim lowercase
is_production_environment environment =
    let name = lowercase (trim environment) in name == "prod" || name == "production"

unfoldable pub normalize_base_path : String → String
unfolding trim trim_matches is_empty
normalize_base_path value =
    let trimmed = trim value in
    if is_empty trimmed || trimmed == "/" then "/" else "/" +++ trim_matches (is_char b'/') trimmed
