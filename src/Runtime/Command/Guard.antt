-- ===== src/Runtime/Command/Guard.antt =====
-- crates/greentic-sorx-core/src/runtime.rs: `should_run_step`, and what the steps share.
use greentic_sorx.Prelude.{
  [], ◌∷◌, List, ℕ, suc, String, Bool, true, false, not, Option, none, some, ◌==◌, ◌&&◌,
  if◌then◌else◌, find, map,
}
use greentic_sorx.Prelude.Text.{◌+++◌, is_empty, to_text}
use greentic_sorx.Prelude.Maps
use greentic_sorx.Prelude.Maps.{Map}
use greentic_sorx.Prelude.Results.{ok, err}
use greentic_sorx.Prelude.Actions.{◌>>=◌, pure}
use greentic_sorx.Error.{SorxResult, at_path}
use greentic_sorx.Json
use greentic_sorx.Json.{
  Value, null, bool, number, string, array, object, Items, nil, cons, Fields, end, field, Number,
  fields, from_map, as_array, and_then, unwrap_or, or_else, value_eq,
}
use greentic_sorx.Store.Types.{UniqueIndex, UniqueConflictBehavior, QueryOrder, QueryOrderDirection}
use greentic_sorx.Runtime.Types.{
  EndpointDefinition, EndpointInvocation, CommandStep, create, delete_where, update_where,
  increment_where, query, find_one, emit_event, for_each, StepHead, CommandSpec, CommandOrderBy,
  CommandOrderDirection,
}
use greentic_sorx.Runtime.Hooks.{attempt}
use greentic_sorx.Runtime.Command.Paths.{
  strip_prefix, lookup_path, is_absent_command_value, text_of,
}
use greentic_sorx.Runtime.Command.Context.{Run, Generator}
use greentic_sorx.Runtime.Command.Resolve.{resolve_value, resolve_string_value, or_null}

abbrev step_head : CommandStep → StepHead
step_head (create h t input) = h
step_head (delete_where h t filter) = h
step_head (update_where h t filter set) = h
step_head (increment_where h t filter increments) = h
step_head (query h t filter order_by) = h
step_head (find_one h t filter required) = h
step_head (emit_event h event payload stream) = h
step_head (for_each h items steps) = h

unfoldable pub step_when : CommandStep → Option Value
step_when s = (step_head s).run_if

unfoldable pub step_as_name : CommandStep → Option String
step_as_name s = (step_head s).as_name

step_op : CommandStep → String
step_op (create h t input) = "create"
step_op (delete_where h t filter) = "delete_where"
step_op (update_where h t filter set) = "update_where"
step_op (increment_where h t filter increments) = "increment_where"
step_op (query h t filter order_by) = "query"
step_op (find_one h t filter required) = "find_one"
step_op (emit_event h event payload stream) = "emit_event"
step_op (for_each h items steps) = "foreach"

unfoldable pub skipped_step_output : CommandStep → Value
unfolding step_op
skipped_step_output s = from_map (("op", string (step_op s)) ∷ ("skipped", bool true) ∷ [])

order_direction : CommandOrderDirection → QueryOrderDirection
order_direction CommandOrderDirection.asc = QueryOrderDirection.asc
order_direction CommandOrderDirection.desc = QueryOrderDirection.desc

unfoldable pub command_order_by : List CommandOrderBy → List QueryOrder
unfolding order_direction
command_order_by order_by =
    map
      (λ (o : CommandOrderBy). record {
        order_field = o.order_field;
        direction = order_direction o.direction;
      })
      order_by

mode_returns_existing : Option String → Bool
mode_returns_existing none = false
mode_returns_existing (some mode) = mode == "return_existing"

existing_by : String → List UniqueIndex → Option String → UniqueConflictBehavior
existing_by entity indexes none = UniqueConflictBehavior.reject
existing_by entity indexes (some index) =
    elim (find (λ (c : UniqueIndex). c.id == index && c.record_name == entity) indexes) [
      | some unique ↦ UniqueConflictBehavior.return_existing unique.id unique.fields
      | none ↦ UniqueConflictBehavior.reject
    ]

unfoldable pub command_unique_behavior :
    CommandSpec → String → List UniqueIndex → UniqueConflictBehavior
unfolding mode_returns_existing existing_by
command_unique_behavior spec entity indexes = elim spec.constraints.idempotency [
  | none ↦ UniqueConflictBehavior.reject
  | some idempotency ↦
      if mode_returns_existing (or_else idempotency.mode spec.idempotency)
      then existing_by entity indexes idempotency.index
      else UniqueConflictBehavior.reject
]

child_path : String → String → String
child_path path key = if is_empty path then key else path +++ "." +++ key

insert_generated : String → Option String → Map String → Map String
insert_generated path none refs = refs
insert_generated path (some name) refs = Maps.insert path name refs

-- `collect_generated_field_refs`
unfoldable mutual
  unfolding child_path insert_generated

  pub collect_generated : Value → String → Map String → Map String
  collect_generated (string text) path refs =
      insert_generated path (strip_prefix "$generated." text) refs
  collect_generated (object fs) path refs = collect_fields fs path refs
  collect_generated (array vs) path refs = collect_items vs 0 path refs
  collect_generated value path refs = refs

  pub collect_fields : Fields → String → Map String → Map String
  collect_fields end path refs = refs
  collect_fields (field key v rest) path refs =
      collect_fields rest path (collect_generated v (child_path path key) refs)

  pub collect_items : Items → ℕ → String → Map String → Map String
  collect_items nil index path refs = refs
  collect_items (cons v vs) index path refs =
      collect_items vs (suc index) path (collect_generated v (child_path path (to_text index)) refs)

unfoldable pub generated_field_refs : Value → Map String
unfolding collect_generated
generated_field_refs value = collect_generated value "" []

is_number : Value → Bool
is_number (number n) = true
is_number null = false
is_number _ = false

as_number : Value → Option Value
as_number (number n) = some (number n)
as_number null = none
as_number _ = none

-- `increment_patch`: a missing field, or one that is not a number, counts as zero.
unfoldable pub increment_patch :
    (Option Value → Value → Value) → Value → Map Value → SorxResult (Map Value)
unfolding is_number as_number
increment_patch float_sum stored increments = add_all increments []
  where
    add_all : Map Value → Map Value → SorxResult (Map Value)
    add_all [] patch = ok patch
    add_all ((path, amount) ∷ more) patch =
        let rest = add_all more (
          Maps.insert path (float_sum (and_then (lookup_path stored path) as_number) amount)
            patch) in
        if is_number amount
        then rest
        else err (at_path "command_increment_invalid" "increment amount must be numeric" path)

module _ {W : Type 0} (gen : Generator W) (endpoint : EndpointDefinition)
    (invocation : EndpointInvocation) where
  -- `resolve_string`
  unfoldable pub resolve_string : String → Run W (Option String)
  resolve_string text = do
    outcome ← attempt (resolve_string_value gen endpoint invocation text)
    elim outcome [ ok value ↦ pure (text_of value) | err e ↦ pure none ]

  unfoldable pub resolve_step_string : Option String → Run W (Option String)
  unfolding resolve_string
  resolve_step_string none = pure none
  resolve_step_string (some text) =
      resolve_string text >>= λ resolved. pure (some (unwrap_or text resolved))

  unfoldable pub optional_value : Value → Run W Value
  optional_value v = or_null gen endpoint invocation (resolve_value gen endpoint invocation v)

  is_present : Value → Run W Bool
  unfolding optional_value
  is_present v = optional_value v >>= λ resolved. pure (not (is_absent_command_value resolved))

  -- The two loops, over the tests of the parts.
  all_hold : List (Run W Bool) → Run W Bool
  all_hold [] = pure true
  all_hold (test ∷ tests) = test >>= λ holds. if holds then all_hold tests else pure false

  any_holds : List (Run W Bool) → Run W Bool
  any_holds [] = pure false
  any_holds (test ∷ tests) = test >>= λ holds. if holds then pure true else any_holds tests

  equal_values : List Value → Option (Run W Bool)
  unfolding optional_value
  equal_values (a ∷ b ∷ []) =
      some (optional_value a >>= λ x. optional_value b >>= λ y. pure (value_eq x y))
  equal_values _ = none

  unfoldable pub equality : Value → Option (Run W Bool)
  unfolding equal_values
  equality v = and_then (and_then (Json.get "eq" v) as_array) equal_values

  -- `should_run_step` of a condition, first taken apart into the tests of its parts.
  unfoldable mutual
    unfolding is_present all_hold any_holds equality

    pub holds : Value → Run W Bool
    holds (bool b) = pure b
    holds (object fs) = elim (Json.get "present" (object fs)) [
      | some v ↦ is_present v
      | none ↦ elim (Json.get "absent" (object fs)) [
        | some v ↦ is_present v >>= λ yes. pure (not yes)
        | none ↦ elim (tests_of "all" fs) [
          | some tests ↦ all_hold tests
          | none ↦ elim (tests_of "any" fs) [
            | some tests ↦ any_holds tests
            | none ↦ elim (equality (object fs)) [
              | some test ↦ test
              | none ↦ is_present (object fs)
            ]
          ]
        ]
      ]
    ]
    holds v = is_present v

    pub tests_of : String → Fields → Option (List (Run W Bool))
    tests_of k end = none
    tests_of k (field key v rest) =
        let later = tests_of k rest in if key == k then array_tests v else later

    pub array_tests : Value → Option (List (Run W Bool))
    array_tests (array vs) = some (each_test vs)
    array_tests null = none
    array_tests _ = none

    pub each_test : Items → List (Run W Bool)
    each_test nil = []
    each_test (cons v vs) = holds v ∷ each_test vs

  unfoldable pub should_run_step : Option Value → Run W Bool
  unfolding holds
  should_run_step none = pure true
  should_run_step (some condition) = holds condition
