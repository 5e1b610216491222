-- ===== src/Maps.antt =====
-- maps/maps.go and maps/deepcopy.go: reading, writing and copying nested values. An object is written
-- in place in the code; here a write returns the object after it. A nil map is not told from an empty
-- one, and a panic is `none`. `widen` is the conversion of a float32 to a float64, on bit patterns.
mod Paths
pub mod Positions
mod Reordering
mod Copies
mod Writes
mod Frame
mod Tests
use mathlib.Core.Option
use plumbing.Prelude.{ℕ, ℤ, String, Bool, true, false, Option, none, some, List, [], ◌∷◌}
use plumbing.Json.{
  Number, int, int32, int64, float32, float64, literal, Value, Fields, Items, null, bool, number,
  str, arr, map_slice, nil_map_slice, obj, other, no_items, item, end, field, get_field, set_field,
}

-- A value, whether it was found, and an error.
pub data Access {ℓ} (A : Type ℓ) : Type ℓ where
  found : A → Access A
  missing : Access A
  wrong_type : Access A

pub nested_field_no_copy : Value → List String → Access Value
nested_field_no_copy val [] = found val
nested_field_no_copy null (f ∷ fields) = missing
nested_field_no_copy (obj m) (f ∷ fields) = elim (get_field f m) [
  | none ↦ missing
  | some val ↦ nested_field_no_copy val fields
]
nested_field_no_copy _ (f ∷ fields) = wrong_type

abbrev pub then_access {ℓ κ} : {A : Type ℓ} {B : Type κ} → Access A → (A → Access B) → Access B
then_access (found val) f = f val
then_access missing f = missing
then_access wrong_type f = wrong_type

abbrev pub as_map : Value → Access Fields
as_map (obj m) = found m
as_map _ = wrong_type

abbrev pub as_slice : Value → Access Items
as_slice (arr xs) = found xs
as_slice _ = wrong_type

pub nested_map_no_copy : Fields → List String → Access Fields
unfolding nested_field_no_copy
nested_map_no_copy m fields = then_access (nested_field_no_copy (obj m) fields) as_map

pub nested_slice_no_copy : Fields → List String → Access Items
unfolding nested_field_no_copy
nested_slice_no_copy m fields = then_access (nested_field_no_copy (obj m) fields) as_slice

abbrev pub copy_number : (ℕ → ℕ) → Number → Number
copy_number widen (int i) = int64 i
copy_number widen (int32 i) = int64 i
copy_number widen (int64 i) = int64 i
copy_number widen (float32 x) = float64 (widen x)
copy_number widen (float64 x) = float64 x
copy_number widen (literal s) = literal s

abbrev pub to_arr : Option Items → Option Value
to_arr none = none
to_arr (some xs) = some (arr xs)

abbrev pub to_obj : Option Fields → Option Value
to_obj none = none
to_obj (some m) = some (obj m)

abbrev pub to_item : Option Value → Option Items → Option Items
to_item (some x) (some xs) = some (item x xs)
to_item _ _ = none

abbrev pub to_field : String → Option Value → Option Fields → Option Fields
to_field k (some v) (some m) = some (field k v m)
to_field k _ _ = none

-- The entries of the clone stand in the order of the original's.
mutual
  pub deep_copy_json_value : (ℕ → ℕ) → Value → Option Value
  deep_copy_json_value widen (obj m) = to_obj (copy_fields widen m)
  deep_copy_json_value widen (arr xs) = to_arr (copy_items widen xs)
  deep_copy_json_value widen (map_slice xs) = to_arr (copy_items widen xs)
  deep_copy_json_value widen nil_map_slice = some nil_map_slice
  deep_copy_json_value widen (number n) = some (number (copy_number widen n))
  deep_copy_json_value widen null = some null
  deep_copy_json_value widen (bool b) = some (bool b)
  deep_copy_json_value widen (str s) = some (str s)
  deep_copy_json_value widen (other type) = none

  pub copy_items : (ℕ → ℕ) → Items → Option Items
  copy_items widen no_items = some no_items
  copy_items widen (item x xs) = to_item (deep_copy_json_value widen x) (copy_items widen xs)

  pub copy_fields : (ℕ → ℕ) → Fields → Option Fields
  copy_fields widen end = some end
  copy_fields widen (field k v m) = to_field k (deep_copy_json_value widen v) (copy_fields widen m)

-- What was found, copied.
abbrev pub copied {ℓ κ} : {A : Type ℓ} {B : Type κ} → (A → Option B) → Access A → Option (Access B)
copied copy missing = some missing
copied copy wrong_type = some wrong_type
copied copy (found val) = elim (copy val) [ none ↦ none | some val ↦ some (found val) ]

pub nested_map : (ℕ → ℕ) → Fields → List String → Option (Access Fields)
unfolding nested_map_no_copy copy_fields
nested_map widen m fields = copied (copy_fields widen) (nested_map_no_copy m fields)

pub nested_slice : (ℕ → ℕ) → Fields → List String → Option (Access Items)
unfolding nested_slice_no_copy copy_items
nested_slice widen m fields = copied (copy_items widen) (nested_slice_no_copy m fields)

pub nested_field_copy : (ℕ → ℕ) → Fields → List String → Option (Access Value)
unfolding nested_field_no_copy deep_copy_json_value
nested_field_copy widen m fields =
    copied (deep_copy_json_value widen) (nested_field_no_copy (obj m) fields)

-- The object after a write, and whether an error was returned.
pub record Written : Type 0 where
  pub object : Fields
  pub refused : Bool

abbrev pub within : String → Fields → Written → Written
within f m w = record { object = set_field f (obj w.object) m; refused = w.refused }

-- A path without a field would index a slice out of range.
pub set_nested_field_no_copy : Fields → Value → List String → Option Written
set_nested_field_no_copy m value [] = none
set_nested_field_no_copy m value (f ∷ []) =
    some (record { object = set_field f value m; refused = false })
set_nested_field_no_copy m value (f ∷ g ∷ fields) = elim (get_field f m) [
  | none ↦ Option.map (within f m) (set_nested_field_no_copy end value (g ∷ fields))
  | some val ↦ elim val [
    | obj n ↦ Option.map (within f m) (set_nested_field_no_copy n value (g ∷ fields))
    | _ ↦ some (record { object = m; refused = true })
  ]
]

pub set_nested_field : (ℕ → ℕ) → Fields → Value → List String → Option Written
unfolding deep_copy_json_value set_nested_field_no_copy
set_nested_field widen m value fields = elim (deep_copy_json_value widen value) [
  | none ↦ none
  | some copy ↦ set_nested_field_no_copy m copy fields
]
