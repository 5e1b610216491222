-- ===== src/Maps/Tests.antt =====
-- A small object: {"spec": {"image": "a", "ports": [80]}}.
use plumbing.Prelude.{
  map, ℕ, zero, suc, ◌-◌, arith, Bool-cases, inl, inr, ap, ℤ, pos, String, str_eq, eq_iff, ◌≡◌,
  refl, true, false, Option, some, List, [], ◌∷◌, ◌++◌,
}
use plumbing.Json.{
  Value, Fields, null, number, int64, str, arr, obj, no_items, item, end, field, get_field,
  set_field,
}
use plumbing.Maps.{
  Written, nested_field_no_copy, set_nested_field_no_copy, set_nested_field, nested_field_copy,
  deep_copy_json_value,
}
use plumbing.Maps.Writes.{Outcome, set_nested_field_no_copy_lem}
use plumbing.Maps.Frame.{set_nested_field_no_copy-apart}
use plumbing.Maps.Positions.{nested_value, set_nested_value, position}
use plumbing.Maps.Positions.Writing.{
  holds, set_nested_value-nested_value, set_nested_value_replaces,
}
use plumbing.Maps.Paths.{parse_path, open_to_dot, drop_close, split_dots, leaf_paths}
use plumbing.Maps.Paths.Reading.{IsPlain, no_mark}
use plumbing.Maps.Paths.Values.{field_leaves}
use plumbing.Maps.Paths.Leaves.{FieldsKeyed, Keyed, leaf_paths-nested_value}
use plumbing.Maps.Reordering.{reorder, place, place_listed, place_rest}

abbrev ports : Value
ports = arr (item (number (int64 (pos 80))) no_items)

abbrev deployment : Fields
deployment = field "spec" (obj (field "image" (str "a") (field "ports" ports end))) end

abbrev widen : ℕ → ℕ
widen x = x

-- A numeral of strokes, one more than the number.
abbrev itoa : ℕ → String
itoa zero = String.◌∷◌ "1" String.[]
itoa (suc n) = String.◌∷◌ "1" (itoa n)

abbrev strokes : String → ℕ
strokes String.[] = 0
strokes (String.◌∷◌ c s) = suc (strokes s)

abbrev atoi : String → Option ℤ
atoi s = some (pos (strokes s - 1))

strokes-itoa : (n : ℕ) → strokes (itoa n) ≡ suc n
strokes-itoa zero = refl
strokes-itoa (suc n) = ap suc (strokes-itoa n)

atoi_itoa : (n : ℕ) → atoi (itoa n) ≡ some (pos n)
atoi_itoa n = ap (λ k. some (pos k)) (omega (arith, strokes-itoa n))

no_mark-itoa : (n : ℕ) → no_mark (itoa n) ≡ true
no_mark-itoa zero = refl
no_mark-itoa (suc n) = no_mark-itoa n

itoa_filled : (n : ℕ) → str_eq (itoa n) "" ≡ false
itoa_filled n = elim (Bool-cases (str_eq (itoa n) "")) [
  | inr e ↦ e
  | inl e ↦
      let bad : ⊥ = omega (arith, strokes-itoa n, ap strokes ((eq_iff (itoa n) "").0 e)) in
      elim bad [ ]
]

itoa-IsPlain : (n : ℕ) → IsPlain (itoa n)
itoa-IsPlain n = (no_mark-itoa n, itoa_filled n)

two_leaves : leaf_paths itoa deployment "" ≡ "spec.image" ∷ "spec.ports[1]" ∷ []
unfolding leaf_paths
two_leaves = refl

three_fields : parse_path "spec.ports[1]" ≡ "spec" ∷ "ports" ∷ "1" ∷ []
unfolding parse_path open_to_dot drop_close split_dots
three_fields = refl

-- The list is lost.
ports_lost :
    reorder widen deployment itoa [] ≡ some (field "spec" (obj (field "image" (str "a") end)) end)
unfolding reorder place_rest place_listed place leaf_paths parse_path open_to_dot drop_close
    split_dots nested_field_copy nested_field_no_copy set_nested_field set_nested_field_no_copy
    deep_copy_json_value get_field set_field
ports_lost = refl

abbrev image_path : List String
image_path = "spec" ∷ "image" ∷ []

abbrev replicas_path : List String
replicas_path = "spec" ∷ "replicas" ∷ []

set_nested_field_no_copy_lem_example :
    (w : Written) × (set_nested_field_no_copy deployment null replicas_path ≡ some w)
    × Outcome deployment null replicas_path w
set_nested_field_no_copy_lem_example =
    set_nested_field_no_copy_lem deployment null "spec" ("replicas" ∷ [])

abbrev with_replicas : Fields
with_replicas =
    field "spec" (obj (field "image" (str "a") (field "ports" ports (field "replicas" null end))))
      end

replicas_written :
    set_nested_field_no_copy deployment null replicas_path
    ≡ some (record { object = with_replicas; refused = false })
unfolding set_nested_field_no_copy get_field set_field
replicas_written = refl

set_nested_field_no_copy-apart_example :
    nested_field_no_copy (obj with_replicas) image_path
    ≡ nested_field_no_copy (obj deployment) image_path
set_nested_field_no_copy-apart_example =
    set_nested_field_no_copy-apart deployment null replicas_path image_path
      (record { object = with_replicas; refused = false }) replicas_written refl

abbrev ports_path : List String
ports_path = "spec" ∷ "ports" ∷ []

ports_there : nested_value atoi (obj deployment) ports_path ≡ some ports
unfolding nested_value get_field
ports_there = refl

first_port : holds atoi "1" ports ≡ true
unfolding position
first_port = refl

set_nested_value-nested_value_example :
    (w : Value) × (set_nested_value atoi deployment (ports_path ++ "1" ∷ []) null ≡ some w)
    × (nested_value atoi w (ports_path ++ "1" ∷ []) ≡ some null)
set_nested_value-nested_value_example =
    set_nested_value-nested_value atoi deployment ports_path "1" null ports ports_there first_port

image_there : nested_value atoi (obj deployment) image_path ≡ some (str "a")
unfolding nested_value get_field
image_there = refl

set_nested_value_replaces_example :
    (w : Value) × (set_nested_value atoi deployment ("spec" ∷ (("image" ∷ []) ++ "tag" ∷ [])) null
      ≡ some w)
    × (nested_value atoi w image_path ≡ some null)
set_nested_value_replaces_example =
    set_nested_value_replaces atoi deployment "spec" ("image" ∷ []) "tag" null (str "a") image_there
      refl

deployment_keyed : FieldsKeyed deployment
unfolding Keyed get_field
deployment_keyed =
    ((refl, refl), refl, ((refl, refl), refl, tt, ((refl, refl), refl, (tt, tt), tt)), tt)

leaf_paths-nested_value_example :
    map
      (λ path. nested_value atoi (obj deployment) (parse_path path))
      (leaf_paths itoa deployment "")
    ≡ map some (field_leaves deployment)
leaf_paths-nested_value_example =
    leaf_paths-nested_value itoa atoi atoi_itoa itoa-IsPlain deployment deployment_keyed
