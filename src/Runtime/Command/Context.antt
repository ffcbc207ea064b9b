-- ===== src/Runtime/Command/Context.antt =====
-- crates/greentic-sorx-core/src/runtime.rs: `CommandExecutionContext`, its frames and its generated
-- values, together with the world and the counters of a command.
use greentic_sorx.Prelude.{
  [], ◌∷◌, List, ℕ, String, Bool, true, false, Option, none, some, ◌==◌, ◌||◌, ◌++◌, if◌then◌else◌,
  length,
}
use greentic_sorx.Prelude.Text.{◌+++◌, to_text}
use greentic_sorx.Prelude.Maps
use greentic_sorx.Prelude.Maps.{Map}
use greentic_sorx.Prelude.Actions.{◌>>=◌, ◌>>◌, pure, gets, modify}
use greentic_sorx.Error.{SorxError}
use greentic_sorx.Json.{Value, string, unwrap_or}
use greentic_sorx.Runtime.Types.{EndpointDefinition, EndpointInvocation}
use greentic_sorx.Runtime.Hooks.{Effect}
use greentic_sorx.Runtime.Command.Paths.{
  contains_text, ends_with, generated_short_code, generated_uuid,
}

-- What a command calls beside the hooks: the clock, the counter `GENERATED_NONCE`, the bytes of a
-- SHA-256, and the sum of two JSON numbers as floats.
pub record Generator (W : Type 0) : Type 0 where
  pub now_ns : Effect W ℕ
  pub next_nonce : Effect W ℕ
  pub sha256 : String → ℕ → ℕ
  pub float_sum : Option Value → Value → Value

-- The innermost frame of names stands first.
pub record Session (W : Type 0) : Type 0 where
  pub world : W
  pub generated : Map Value
  pub steps : List Value
  pub named_steps : Map Value
  pub local_named_steps : List (Map Value)
  pub item : Option Value
  pub index : Option ℕ
  pub now : Value
  pub nonce : ℕ
  pub created_count : ℕ
  pub updated_count : ℕ
  pub deleted_count : ℕ

abbrev pub Run : Type 0 → Type 0 → Type 0
Run W A = Effect (Session W) A

-- `CommandExecutionContext::new`, with the counters at zero
abbrev pub new_session : {W : Type 0} → W → (seconds : String) → (nonce : ℕ) → Session W
new_session w seconds nonce = record {
  world = w;
  generated = [];
  steps = [];
  named_steps = [];
  local_named_steps = [];
  item = none;
  index = none;
  now = string seconds;
  nonce = nonce;
  created_count = 0;
  updated_count = 0;
  deleted_count = 0;
}

insert_named : Option String → Value → Map Value → Map Value
insert_named none output m = m
insert_named (some name) output m = Maps.insert name output m

record_name : {W : Type 0} → Option String → Value → List (Map Value) → Session W → Session W
unfolding insert_named
record_name name output [] s = record s {
  named_steps = insert_named name output s.named_steps;
  steps = s.steps ++ output ∷ [];
}
record_name name output (local ∷ outer) s = record s {
  local_named_steps = insert_named name output local ∷ outer;
}

-- `record_step`: inside of a loop only the loop's own names are kept.
unfoldable pub record_step : {W : Type 0} → Option String → Value → Session W → Session W
unfolding record_name
record_step name output s = record_name name output s.local_named_steps s

unfoldable pub push_iteration : {W : Type 0} → Value → ℕ → Session W → Session W
push_iteration item index s = record s {
  item = some item;
  index = some index;
  local_named_steps = [] ∷ s.local_named_steps;
}

pop_frame : List (Map Value) → List (Map Value)
pop_frame [] = []
pop_frame (local ∷ outer) = outer

unfoldable pub pop_iteration : {W : Type 0} → Session W → Session W
unfolding pop_frame
pop_iteration s = record s {
  item = none;
  index = none;
  local_named_steps = pop_frame s.local_named_steps;
}

module _ {W : Type 0} where
  -- A call of the hooks or of a store, in the course of a command.
  unfoldable pub on_world : {A : Type 0} → Effect W A → Run W A
  on_world m s = ((m s.world).0, record s { world = (m s.world).1 })

module _ {W : Type 0} (gen : Generator W) where
  generate : String → String → Value
  generate name seed =
      if name == "uuid"
      then string (generated_uuid (gen.sha256 seed))
      else if name == "short_code" || name == "invitation_code"
      then string (generated_short_code (gen.sha256 seed) 8)
      else if name == "referral_code"
      then string (generated_short_code (gen.sha256 seed) 10)
      else if ends_with "_token" name
      then string (generated_short_code (gen.sha256 (seed +++ ":" +++ name)) 16)
      else if ends_with "_code" name
      then string (generated_short_code (gen.sha256 (seed +++ ":" +++ name)) 10)
      else string (generated_short_code (gen.sha256 (seed +++ ":" +++ name)) 12)

  seed_of : EndpointDefinition → EndpointInvocation → ℕ → Session W → String
  seed_of endpoint invocation time s =
      endpoint.endpoint_id
      +++ ":"
      +++ endpoint.operation_id
      +++ ":"
      +++ unwrap_or "no-key" invocation.idempotency_key
      +++ ":"
      +++ to_text (length s.generated)
      +++ ":"
      +++ to_text s.nonce
      +++ ":"
      +++ to_text time

  -- `generated_value`: a name keeps its value until the value is reset.
  unfoldable pub generated_value : EndpointDefinition → EndpointInvocation → String → Run W Value
  unfolding generate seed_of on_world
  generated_value endpoint invocation name = do
    known ← gets (λ s. Maps.get name s.generated)
    elim known [
      | some value ↦ pure value
      | none ↦ on_world gen.now_ns >>= λ time.
          gets (λ s. generate name (seed_of endpoint invocation time s)) >>= λ value.
          modify (λ s. record s { generated = Maps.insert name value s.generated }) >>= λ done.
          pure value
    ]

  -- The loop over the fields that hold generated values.
  reset_each : SorxError → Map String → Bool → Map Value → Bool × Map Value
  unfolding contains_text
  reset_each e [] reset generated = (reset, generated)
  reset_each e ((path, name) ∷ fields) reset generated =
      if contains_text path e.message
      then reset_each e fields true (Maps.remove name generated)
      else reset_each e fields reset generated

  unfoldable pub reset_generated_for_conflict : SorxError → Map String → Run W Bool
  unfolding reset_each on_world
  reset_generated_for_conflict e generated_fields = do
    outcome ← gets (λ s. reset_each e generated_fields false s.generated)
    modify (λ s. record s { generated = outcome.1 })
    if outcome.0
        then (on_world gen.next_nonce >>= λ nonce.
            modify (λ s. record s { nonce = nonce }) >>= λ done. pure true)
        else pure false
