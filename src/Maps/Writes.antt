-- ===== src/Maps/Writes.antt =====
-- What a write at a path does to what is read at this path and at others.
use mathlib.Core.Option
use plumbing.Prelude.{
  String, ◌≡◌, refl, ap, ◌∙◌, true, false, none, some, List, [], ◌∷◌, eq_iff, arith, Option-cases,
  inl, inr,
}
use plumbing.Json.{
  Value, Fields, obj, end, null, bool, number, str, arr, map_slice, nil_map_slice, other, get_field,
  set_field, get_field-set_field,
}
use plumbing.Maps.{found, nested_field_no_copy, Written, within, set_nested_field_no_copy}

set_at-set_at : (f : String) (m : Fields) (v : Value) → get_field f m ≡ some v → set_field f v m ≡ m
unfolding get_field set_field
set_at-set_at f end v h = ground (arith, h)
set_at-set_at f (Fields.field g w m) v h = ground (arith, h, eq_iff g f, set_at-set_at f m v)

-- The state that a write leaves, and what is then read at its path.
abbrev pub Outcome : Fields → Value → List String → Written → Type 0
Outcome m value fields w =
    (w.refused ≡ true → w.object ≡ m)
    × (w.refused ≡ false → nested_field_no_copy (obj w.object) fields ≡ found value)

-- The cases of what stands under a key.
pub data At (f : String) (m : Fields) : Type 0 where
  absent : get_field f m ≡ none → At f m
  object_there : (n : Fields) → get_field f m ≡ some (obj n) → At f m
  value_there :
      (v : Value)
      → get_field f m ≡ some v
      → ((value : Value) (g : String) (fields : List String)
          → set_nested_field_no_copy m value (f ∷ g ∷ fields)
            ≡ some (record { object = m; refused = true }))
      → At f m

value-At : (f : String) (m : Fields) (v : Value) → get_field f m ≡ some v → At f m
unfolding set_nested_field_no_copy
value-At f m (obj n) h = object_there n h
value-At f m null h = value_there null h (λ value g fields. ground (arith, h))
value-At f m (bool b) h = value_there (bool b) h (λ value g fields. ground (arith, h))
value-At f m (number n) h = value_there (number n) h (λ value g fields. ground (arith, h))
value-At f m (str s) h = value_there (str s) h (λ value g fields. ground (arith, h))
value-At f m (arr xs) h = value_there (arr xs) h (λ value g fields. ground (arith, h))
value-At f m (map_slice xs) h = value_there (map_slice xs) h (λ value g fields. ground (arith, h))
value-At f m nil_map_slice h = value_there nil_map_slice h (λ value g fields. ground (arith, h))
value-At f m (other type) h = value_there (other type) h (λ value g fields. ground (arith, h))

pub some_lem : (v w : Written) → some v ≡ some w → v ≡ w
some_lem v w h = ground (arith, h)

pub key-At : (f : String) (m : Fields) → At f m
key-At f m = elim (Option-cases (get_field f m)) [
  | inl h ↦ absent h
  | inr (v, h) ↦ value-At f m v h
]

pub set_absent :
    (f g : String) (m : Fields) (value : Value) (fields : List String)
    → get_field f m ≡ none
    → set_nested_field_no_copy m value (f ∷ g ∷ fields)
      ≡ Option.map (within f m) (set_nested_field_no_copy end value (g ∷ fields))
unfolding set_nested_field_no_copy
set_absent f g m value fields h = ground (arith, h)

pub set_object :
    (f g : String) (m n : Fields) (value : Value) (fields : List String)
    → get_field f m ≡ some (obj n)
    → set_nested_field_no_copy m value (f ∷ g ∷ fields)
      ≡ Option.map (within f m) (set_nested_field_no_copy n value (g ∷ fields))
unfolding set_nested_field_no_copy
set_object f g m n value fields h = ground (arith, h)

pub read-within :
    (f : String) (m : Fields) (w : Written) (fields : List String)
    → nested_field_no_copy (obj (within f m w).object) (f ∷ fields)
      ≡ nested_field_no_copy (obj w.object) fields
unfolding nested_field_no_copy
read-within f m w fields = ground (arith, get_field-set_field f f (obj w.object) m, eq_iff f f)

pub write-last :
    (m : Fields) (value : Value) (f : String)
    → set_nested_field_no_copy m value (f ∷ [])
      ≡ some (record { object = set_field f value m; refused = false })
unfolding set_nested_field_no_copy
write-last m value f = refl

read-last :
    (m : Fields) (value : Value) (f : String)
    → nested_field_no_copy (obj (set_field f value m)) (f ∷ []) ≡ found value
unfolding nested_field_no_copy
read-last m value f = ground (arith, get_field-set_field f f value m, eq_iff f f)

new_not_refused :
    (value : Value) (f : String) (fields : List String) (w : Written)
    → set_nested_field_no_copy end value (f ∷ fields) ≡ some w
    → w.refused ≡ false
unfolding set_nested_field_no_copy get_field
new_not_refused value f [] w h = ground (arith, h)
new_not_refused value f (g ∷ fields) w h =
    elim (Option-cases (set_nested_field_no_copy end value (g ∷ fields))) [
      | inl e ↦ ground (arith, h, e)
      | inr (rest, e) ↦ ground (arith, h, e, new_not_refused value g fields rest e)
    ]

-- A write at a path with a field gives a result. When it is refused, the object is what it was; when
-- it is not, the value is read at the path.
pub set_nested_field_no_copy_lem :
    (m : Fields) (value : Value) (f : String) (fields : List String)
    → (w : Written) × (set_nested_field_no_copy m value (f ∷ fields) ≡ some w)
      × Outcome m value (f ∷ fields) w
set_nested_field_no_copy_lem m value f [] = (
  record { object = set_field f value m; refused = false },
  write-last m value f,
  ((λ r. ground (arith, r)), λ r. read-last m value f),
)
set_nested_field_no_copy_lem m value f (g ∷ fields) = elim (key-At f m) [
  | absent h ↦
      let rest = set_nested_field_no_copy_lem end value g fields in
      (
        within f m rest.0,
        set_absent f g m value fields h ∙ ap (Option.map (within f m)) rest.1,
        (
          (λ r. ground (arith, r, new_not_refused value g fields rest.0 rest.1)),
          λ r. read-within f m rest.0 (g ∷ fields) ∙ rest.2.1 r,
        ),
      )
  | object_there n h ↦
      let rest = set_nested_field_no_copy_lem n value g fields in
      (
        within f m rest.0,
        set_object f g m n value fields h ∙ ap (Option.map (within f m)) rest.1,
        (
          (λ r. ap (λ x. set_field f (obj x) m) (rest.2.0 r) ∙ set_at-set_at f m (obj n) h),
          λ r. read-within f m rest.0 (g ∷ fields) ∙ rest.2.1 r,
        ),
      )
  | value_there v h k ↦ (
    record { object = m; refused = true },
    k value g fields,
    ((λ r. refl), λ r. ground (arith, r)),
  )
]
