-- ===== src/Error.antt =====
-- crates/greentic-sorx-core/src/error.rs: the error of every fallible operation.
use greentic_sorx.Prelude.Text.{◌+++◌}
use greentic_sorx.Prelude.{String, Option, none, some}
use greentic_sorx.Prelude.Results.{Result}

pub record SorxError : Type 0 where
  pub code : String
  pub message : String
  pub path : Option String

abbrev pub SorxResult {ℓ} : Type ℓ → Type ℓ
SorxResult A = Result SorxError A

abbrev pub new : String → String → SorxError
new code message = record { code = code; message = message; path = none }

abbrev pub at_path : String → String → String → SorxError
at_path code message path = record { code = code; message = message; path = some path }

display_at : String → Option String → String
display_at message none = message
display_at message (some path) = message +++ " at " +++ path

-- `Display`
unfoldable pub to_display : SorxError → String
unfolding display_at
to_display e = display_at e.message e.path
