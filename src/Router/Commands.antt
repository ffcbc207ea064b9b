-- ===== src/Router/Commands.antt =====
-- crates/greentic-sorx-core/src/router.rs: the commands of an endpoint's metadata. A step is taken apart
-- with its fields, so that the steps inside of a loop are parsed by structural recursion.
use greentic_sorx.Prelude.{
  [], ◌∷◌, ℕ, ◌+◌, String, List, Option, none, some, ◌==◌, ◌||◌, if◌then◌else◌,
}
use greentic_sorx.Prelude.Text.{◌+++◌, to_text}
use greentic_sorx.Prelude.Maps
use greentic_sorx.Prelude.Maps.{Map}
use greentic_sorx.Prelude.Results.{Result, ok, err, ◌>>=◌, ok_or}
use greentic_sorx.Error.{SorxError, SorxResult, at_path}
use greentic_sorx.Json
use greentic_sorx.Json.{
  Value, Items, Fields, from_map, as_str, as_object, and_then, or_else, unwrap_or, string_field,
}
use greentic_sorx.Runtime.Types.{
  CommandStep, Steps, StepHead, StepTarget, CommandSpec, CommandConstraints, CommandOrderBy,
}
use greentic_sorx.Router.Fields.{flag, default_spec}

-- What serde reads of the constraints of a command and of the order of a query, or the text of its error.
pub record GatewayCodec : Type 0 where
  pub constraints : Value → Result String CommandConstraints
  pub order_by : Value → Result String (List CommandOrderBy)

-- The steps that an array holds, given the path that its indices are written after.
abbrev pub StepsParser : Type 0
StepsParser = String → SorxResult Steps

unfoldable pub invalid : String → String → SorxError
invalid message path = at_path "invalid_gateway" message path

abbrev empty_object : Value
empty_object = from_map []

unfoldable pub step_head : Map Value → StepHead
step_head object = record {
  as_name = and_then (Maps.get "as" object) as_str;
  run_if = Maps.get "when" object;
}

unfoldable pub text_of_field : String → Map Value → Option String
text_of_field key object = and_then (Maps.get key object) as_str

unfoldable pub step_target : Map Value → StepTarget
step_target object = record {
  entity = text_of_field "entity" object;
  collection = text_of_field "collection" object;
}

unfoldable pub first_of : String → String → Map Value → Option Value
first_of key other object = or_else (Maps.get key object) (Maps.get other object)

unfoldable pub filter_of : Map Value → Value
filter_of object = unwrap_or empty_object (first_of "where" "filter" object)

-- `map(from_value).transpose()`, where a field that is absent is the default
unfoldable pub decoded {ℓ} :
    {A : Type ℓ}
    → Option Value
    → A
    → (Value → Result String A)
    → (String → SorxError)
    → SorxResult A
decoded none default decode refuse = ok default
decoded (some v) default decode refuse = elim (decode v) [ ok a ↦ ok a | err e ↦ err (refuse e) ]

nested_steps : Map (Option StepsParser) → Option StepsParser
nested_steps arrays =
    and_then (or_else (Maps.get "do" arrays) (Maps.get "steps" arrays)) (λ steps. steps)

module _ (codec : GatewayCodec) where
  -- A step without the steps inside of it, which come with the fields that hold arrays.
  unfoldable pub build_step :
      String → Map Value → Map (Option StepsParser) → String → SorxResult CommandStep
  unfolding first_of nested_steps
  build_step op object arrays path =
      let head = step_head object in
      let target = step_target object in
      if op == "create"
      then ok (CommandStep.create head target (first_of "input" "values" object))
      else if op == "delete_where"
      then ok (CommandStep.delete_where head target (filter_of object))
      else if op == "update_where"
      then ok (
          CommandStep.update_where head target (filter_of object)
            (unwrap_or empty_object (first_of "set" "patch" object)))
      else if op == "increment_where"
      then ok (
          CommandStep.increment_where head target (filter_of object)
            (unwrap_or empty_object (Maps.get "increments" object)))
      else if op == "query"
      then (do
        order ←
            decoded (Maps.get "order_by" object) [] codec.order_by
              (λ e. invalid ("query order_by is invalid: " +++ e) (path +++ ".order_by"))
        ok (CommandStep.query head target (filter_of object) order))
      else if op == "find_one" || op == "query_one"
      then ok (CommandStep.find_one head target (filter_of object) (flag "required" object))
      else if op == "emit_event"
      then (do
        event ←
            ok_or (text_of_field "event" object) (invalid "emit_event step is missing event" path)
        ok (
            CommandStep.emit_event head event
              (unwrap_or empty_object (first_of "payload" "data" object))
              (text_of_field "stream" object)))
      else if op == "foreach"
      then (do
        items ← ok_or (Maps.get "items" object) (invalid "foreach step is missing items" path)
        nested ← ok_or (nested_steps arrays) (invalid "foreach step is missing do steps" path)
        steps ← nested (path +++ ".do")
        ok (CommandStep.for_each head items steps))
      else err (invalid ("unsupported command step `" +++ op +++ "`") path)

  unfoldable mutual
    pub parse_command_step : Value → String → SorxResult CommandStep
    parse_command_step (Json.object fs) path =
        let object = Json.fields fs in
        let arrays = arrays_of fs in
        ok_or (or_else (text_of_field "op" object) (text_of_field "type" object))
          (invalid "command step is missing op/type" path)
        >>= λ op. build_step op object arrays path
    parse_command_step Json.null path = err (invalid "command step must be an object" path)
    parse_command_step _ path = err (invalid "command step must be an object" path)

    pub arrays_of : Fields → Map (Option StepsParser)
    arrays_of Json.end = []
    arrays_of (Json.field k v fs) = (k, steps_of v) ∷ arrays_of fs

    pub steps_of : Value → Option StepsParser
    steps_of (Json.array vs) = some (λ prefix. parse_steps vs prefix 0)
    steps_of Json.null = none
    steps_of _ = none

    pub parse_steps : Items → String → ℕ → SorxResult Steps
    parse_steps Json.nil prefix index = ok Steps.stop
    parse_steps (Json.cons v vs) prefix index =
        parse_command_step v (prefix +++ "[" +++ to_text index +++ "]") >>= λ s.
        parse_steps vs prefix (index + 1) >>= λ ss. ok (Steps.step s ss)

  -- A shorthand command has a single step at most.
  unfoldable pub parse_command_shorthand : Map Value → String → SorxResult Steps
  parse_command_shorthand object path = elim (text_of_field "kind" object) [
    | none ↦ ok Steps.stop
    | some kind ↦
        if kind == "record-create" || kind == "record_create"
        then (do
          name ←
              ok_or
                (and_then
                  (or_else (Maps.get "record" object)
                    (or_else (Maps.get "entity" object) (Maps.get "target" object)))
                  as_str)
                (invalid "record-create command is missing record" (path +++ ".command.record"))
          ok (
              Steps.step
                (CommandStep.create
                  (record { as_name = some "record"; run_if = Maps.get "when" object })
                  (record { entity = some name; collection = text_of_field "collection" object })
                  (first_of "input" "values" object))
                Steps.stop))
        else ok Steps.stop
  ]

  or_shorthand : Steps → Map Value → String → SorxResult Steps
  or_shorthand Steps.stop object path = parse_command_shorthand object path
  or_shorthand (Steps.step s ss) object path = ok (Steps.step s ss)

  listed_steps : Option Value → String → SorxResult Steps
  listed_steps value path = elim (and_then value steps_of) [
    | none ↦ ok Steps.stop
    | some steps ↦ steps (path +++ ".command.steps")
  ]

  unfoldable pub parse_command_spec : Option Value → String → SorxResult CommandSpec
  unfolding or_shorthand listed_steps
  parse_command_spec none path = ok default_spec
  parse_command_spec (some value) path = do
    object ← ok_or (as_object value) (invalid "command must be an object" path)
    listed ← listed_steps (first_of "steps" "effects" object) path
    steps ← or_shorthand listed object path
    constraints ←
        decoded (Maps.get "constraints" object) default_spec.constraints codec.constraints (λ e.
          invalid ("command constraints are invalid: " +++ e) (path +++ ".command.constraints"))
    ok (record {
      kind = string_field "kind" value;
      action = string_field "action" value;
      target = string_field "target" value;
      idempotency = string_field "idempotency" value;
      constraints = constraints;
      steps = steps;
      return_value = first_of "return" "output" object;
    })
