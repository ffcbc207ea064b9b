-- ===== src/Runtime/Command/Resolve.antt =====
-- crates/greentic-sorx-core/src/runtime.rs: the values that a step's templates stand for.
use greentic_sorx.Prelude.{
  [], ◌∷◌, List, ℕ, suc, ◌+◌, String, Bool, true, false, Option, none, some, ◌==◌, ◌&&◌,
  if◌then◌else◌,
}
use greentic_sorx.Prelude.Text.{◌+++◌, is_empty}
use greentic_sorx.Prelude.Maps
use greentic_sorx.Prelude.Maps.{Map}
use greentic_sorx.Prelude.Results.{ok, err, ok_or}
use greentic_sorx.Prelude.Actions.{◌>>=◌, pure, gets, reads}
use greentic_sorx.Error.{SorxError, new, at_path}
use greentic_sorx.Json.{
  Value, null, number, string, array, object, Items, nil, cons, Fields, end, field, Number,
  from_map, as_array, as_object, to_items, and_then, unwrap_or, or_else, value_eq,
}
use greentic_sorx.Runtime.Types.{EndpointDefinition, EndpointInvocation}
use greentic_sorx.Runtime.Hooks.{lift, fail, attempt}
use greentic_sorx.Runtime.Command.Paths.{
  strip_prefix, split_dot, parse_usize, item_at, lookup_path, is_absent_command_value,
}
use greentic_sorx.Runtime.Command.Context.{Session, Run, Generator, generated_value}

missing_command_path : String → String → SorxError
missing_command_path scope path =
    at_path "command_value_missing" ("command " +++ scope +++ " path `" +++ path +++ "` is missing")
      path

-- The innermost loop's names come before the command's.
named_value : List (Map Value) → Map Value → String → Option Value
named_value [] named head = Maps.get head named
named_value (local ∷ outer) named head = or_else (Maps.get head local) (Maps.get head named)

step_base : {W : Type 0} → String → Session W → Option Value
unfolding named_value
step_base head s = elim (parse_usize head) [
  | some index ↦ item_at index s.steps
  | none ↦ named_value s.local_named_steps s.named_steps head
]

unfoldable pub step_value : {W : Type 0} → String → Session W → Option Value
unfolding step_base
step_value path s =
    let (head, tail) = split_dot path in
    and_then (step_base head s) λ base. if is_empty tail then some base else lookup_path base tail

optional_item : Option Value → String → Option Value
optional_item none path = none
optional_item (some item) path = lookup_path item path

optional_index : Option ℕ → ℕ
optional_index none = 0
optional_index (some n) = n

matches_record : Value → Map Value → Bool
matches_record stored [] = true
matches_record stored ((path, expected) ∷ filter) =
    (elim (lookup_path stored path) [ none ↦ false | some v ↦ value_eq v expected ])
    && matches_record stored filter

-- The number of the first record that the filter matches, from one.
rank_from : ℕ → Map Value → List Value → Value
unfolding matches_record
rank_from index filter [] = null
rank_from index filter (r ∷ rs) =
    if matches_record r filter
    then number (Number.pos_int (index + 1))
    else rank_from (suc index) filter rs

rank_error : String → SorxError
rank_error message = new "command_rank_invalid" message

module _ {W : Type 0} (gen : Generator W) (endpoint : EndpointDefinition)
    (invocation : EndpointInvocation) where
  -- The texts that start with a scope.
  resolve_scoped : String → Run W Value
  unfolding missing_command_path step_value optional_item
  resolve_scoped text = elim (strip_prefix "$input." text) [
    | some path ↦
        lift (ok_or (lookup_path invocation.input path) (missing_command_path "input" path))
    | none ↦ elim (strip_prefix "$generated." text) [
      | some name ↦ generated_value gen endpoint invocation name
      | none ↦ elim (strip_prefix "$item." text) [
        | some path ↦
            reads λ s. ok_or (optional_item s.item path) (missing_command_path "item" path)
        | none ↦ elim (strip_prefix "$steps." text) [
          | some path ↦ reads λ s. ok_or (step_value path s) (missing_command_path "steps" path)
          | none ↦ pure (string text)
        ]
      ]
    ]
  ]

  unfoldable pub resolve_string_value : String → Run W Value
  unfolding resolve_scoped optional_index
  resolve_string_value text =
      if text == "$input"
      then pure invocation.input
      else if text == "$item"
      then gets (λ s. unwrap_or null s.item)
      else if text == "$index"
      then gets (λ s. number (Number.pos_int (optional_index s.index)))
      else if text == "$now"
      then gets (λ s. s.now)
      else resolve_scoped text

  -- `resolve_optional_value` of a value that `resolve` resolves
  unfoldable pub or_null : Run W Value → Run W Value
  or_null resolve = do
    outcome ← attempt resolve
    elim outcome [
      | ok value ↦ pure value
      | err e ↦ if e.code == "command_value_missing" then pure null else fail e
    ]

  -- The loop of `coalesce`, over the optional values.
  first_present : List (Run W Value) → Run W Value
  first_present [] = pure null
  first_present (resolve ∷ more) = do
    resolved ← resolve
    if is_absent_command_value resolved then first_present more else pure resolved

  all_values : List (Run W Value) → Run W (List Value)
  all_values [] = pure []
  all_values (resolve ∷ more) = do value ← resolve; values ← all_values more; pure (value ∷ values)

  all_entries : List (String × Run W Value) → Run W (Map Value)
  all_entries [] = pure []
  all_entries ((key, resolve) ∷ more) = do
    value ← resolve
    entries ← all_entries more
    pure ((key, value) ∷ entries)

  need : Option (Run W Value) → String → Run W Value
  unfolding rank_error
  need none message = fail (rank_error message)
  need (some resolve) message = resolve

  -- `resolve_rank`, from what resolves its two fields
  resolve_rank : Option (Run W Value) → Option (Run W Value) → Run W Value
  unfolding need rank_from rank_error
  resolve_rank records filter = do
    resolved ← need records "rank.records is required"
    rows ← lift (ok_or (as_array resolved) (rank_error "rank.records must resolve to an array"))
    wanted ← need filter "rank.where is required"
    entries ← lift (ok_or (as_object wanted) (rank_error "rank.where must resolve to an object"))
    pure (rank_from 0 entries rows)

  -- A value first taken apart into the actions that resolve its parts: `coalesce` comes before `rank`,
  -- and that before the fields one by one.
  unfoldable mutual
    unfolding or_null first_present all_values all_entries resolve_rank rank_error

    pub resolve_value : Value → Run W Value
    resolve_value (string text) = resolve_string_value text
    resolve_value (array vs) =
        all_values (each_value vs) >>= λ values. pure (array (to_items values))
    resolve_value (object fs) = elim (coalesced fs) [
      | some choices ↦ first_present choices
      | none ↦ elim (ranked fs) [
        | some rank ↦ rank
        | none ↦ all_entries (each_entry fs) >>= λ entries. pure (from_map entries)
      ]
    ]
    resolve_value value = pure value

    pub each_value : Items → List (Run W Value)
    each_value nil = []
    each_value (cons v vs) = resolve_value v ∷ each_value vs

    pub each_optional : Items → List (Run W Value)
    each_optional nil = []
    each_optional (cons v vs) = or_null (resolve_value v) ∷ each_optional vs

    pub each_entry : Fields → List (String × Run W Value)
    each_entry end = []
    each_entry (field key v rest) = (key, or_null (resolve_value v)) ∷ each_entry rest

    pub coalesced : Fields → Option (List (Run W Value))
    coalesced end = none
    coalesced (field key v rest) =
        let later = coalesced rest in if key == "coalesce" then array_choices v else later

    pub array_choices : Value → Option (List (Run W Value))
    array_choices (array vs) = some (each_optional vs)
    array_choices null = none
    array_choices _ = none

    pub ranked : Fields → Option (Run W Value)
    ranked end = none
    ranked (field key v rest) =
        let later = ranked rest in if key == "rank" then some (rank_of v) else later

    pub rank_of : Value → Run W Value
    rank_of (object fs) = resolve_rank (resolve_key "records" fs) (resolve_key "where" fs)
    rank_of value = fail (rank_error "rank must be an object")

    pub resolve_key : String → Fields → Option (Run W Value)
    resolve_key k end = none
    resolve_key k (field key v rest) =
        let later = resolve_key k rest in if key == k then some (resolve_value v) else later
