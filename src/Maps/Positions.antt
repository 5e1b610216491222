-- ===== src/Maps/Positions.antt =====
-- maps/maps.go, `NestedValue` and `SetNestedValue`, whose paths also have positions in lists.
-- `atoi` is `strconv.Atoi`; an item is only read or set at a position in range.
pub mod Writing
use plumbing.Prelude.{
  ℕ, zero, suc, ℤ, pos, negsuc, String, ◌≡◌, ◌≢◌, refl, sym, ap, ◌∙◌, Bool, true, false, Option,
  none, some, List, [], ◌∷◌, ◌++◌, ltb, if◌then◌else◌, arith, eq_iff, str_eq, Bool-cases,
  Option-cases, inl, inr, ◌⊎◌,
}
use plumbing.Json.{
  Value, Fields, Items, null, bool, number, str, arr, map_slice, nil_map_slice, obj, other,
  no_items, item, end, field, get_field, set_field, get_field-set_field,
}

abbrev pub count : Items → ℕ
count no_items = 0
count (item x xs) = suc (count xs)

abbrev pub item_at : ℕ → Items → Value
item_at i no_items = null
item_at zero (item x xs) = x
item_at (suc i) (item x xs) = item_at i xs

abbrev pub set_item : ℕ → Value → Items → Items
set_item i v no_items = no_items
set_item zero v (item x xs) = item v xs
set_item (suc i) v (item x xs) = item x (set_item i v xs)

abbrev pub value_at : String → Fields → Value
value_at f m = elim (get_field f m) [ none ↦ null | some v ↦ v ]

-- What an edit further down asks of the container: nothing more, that the value that stands there is
-- replaced in it, or an error.
pub data Edit : Type 0 where
  edited : Value → Edit
  replace : Edit
  failed : Edit

abbrev pub rebuilt : Value → (Value → Value) → Edit → Edit
rebuilt new put (edited v) = edited (put v)
rebuilt new put replace = edited (put new)
rebuilt new put failed = failed

module _ (atoi : String → Option ℤ) where
  unfoldable pub position : String → Items → Option ℕ
  position f xs = elim (atoi f) [
    | none ↦ none
    | some n ↦ elim n [ pos i ↦ if ltb i (count xs) then some i else none | negsuc i ↦ none ]
  ]

  unfoldable pub nested_value : Value → List String → Option Value
  unfolding position
  nested_value v [] = some v
  nested_value (obj m) (f ∷ fields) = nested_value (value_at f m) fields
  nested_value (arr xs) (f ∷ fields) = elim (position f xs) [
    | none ↦ none
    | some i ↦ nested_value (item_at i xs) fields
  ]
  nested_value _ (f ∷ fields) = none

  pub edit : Value → List String → Value → Edit
  unfolding position
  edit v [] new = failed
  edit (obj m) (f ∷ []) new = edited (obj (set_field f new m))
  edit (obj m) (f ∷ g ∷ fields) new =
      rebuilt new (λ v. obj (set_field f v m)) (edit (value_at f m) (g ∷ fields) new)
  edit (arr xs) (f ∷ []) new = elim (position f xs) [
    | none ↦ failed
    | some i ↦ edited (arr (set_item i new xs))
  ]
  edit (arr xs) (f ∷ g ∷ fields) new = elim (position f xs) [
    | none ↦ failed
    | some i ↦ rebuilt new (λ v. arr (set_item i v xs)) (edit (item_at i xs) (g ∷ fields) new)
  ]
  edit _ (f ∷ []) new = replace
  edit _ (f ∷ g ∷ fields) new = failed

  -- The object after the write, or an error, which leaves it as it was.
  pub set_nested_value : Fields → List String → Value → Option Value
  unfolding edit
  set_nested_value m fields new = elim (edit (obj m) fields new) [
    | edited v ↦ some v
    | replace ↦ none
    | failed ↦ none
  ]

  -- maps/extras.go: the empty text for a missing value, an error for one that is no text.
  pub nested_string : Fields → List String → Option String
  unfolding nested_value
  nested_string m fields = elim (nested_value (obj m) fields) [
    | none ↦ some ""
    | some v ↦ elim v [ str s ↦ some s | _ ↦ none ]
  ]
