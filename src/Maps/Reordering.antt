-- ===== src/Maps/Reordering.antt =====
-- maps/reorder.go: an object put together again, the listed paths first.
use plumbing.Prelude.{ℕ, String, true, false, Option, none, some, List, [], ◌∷◌, member, add_node}
use plumbing.Json.{Fields, end}
use plumbing.Maps.{found, missing, wrong_type, nested_field_copy, set_nested_field}
use plumbing.Maps.Paths.{parse_path, leaf_paths}

pub record Assembly : Type 0 where
  pub output : Fields
  pub included : List String

module _ (widen : ℕ → ℕ) (input : Fields) where
  -- The field at a path, copied into the output; `none` is a panic. A refused write is ignored.
  unfoldable pub place : String → Assembly → Option Assembly
  unfolding nested_field_copy set_nested_field parse_path
  place path a = elim (nested_field_copy widen input (parse_path path)) [
    | none ↦ none
    | some access ↦ elim access [
      | missing ↦ some a
      | wrong_type ↦ some a
      | found val ↦ elim (set_nested_field widen a.output val (parse_path path)) [
        | none ↦ none
        | some w ↦ some (record { output = w.object; included = add_node path a.included })
      ]
    ]
  ]

  unfoldable pub place_listed : List String → Assembly → Option Assembly
  unfolding place
  place_listed [] a = some a
  place_listed (path ∷ paths) a = elim (place path a) [
    | none ↦ none
    | some b ↦ place_listed paths b
  ]

  -- The second loop does not add to the set, whose members it skips; `ordered` is what the first left.
  unfoldable pub place_rest : List String → List String → Assembly → Option Assembly
  unfolding place
  place_rest ordered [] a = some a
  place_rest ordered (path ∷ paths) a = elim (member path ordered) [
    | true ↦ place_rest ordered paths a
    | false ↦ elim (place path a) [ none ↦ none | some b ↦ place_rest ordered paths b ]
  ]

  abbrev pub output_of : Option Assembly → Option Fields
  output_of none = none
  output_of (some a) = some a.output

  unfoldable pub reorder : (ℕ → String) → List String → Option Fields
  unfolding place_listed place_rest leaf_paths
  reorder itoa paths = elim (place_listed paths (record { output = end; included = [] })) [
    | none ↦ none
    | some a ↦ output_of (place_rest a.included (leaf_paths itoa input "") a)
  ]
