-- ===== src/Maps/Copies.antt =====
-- What a deep copy is.
use plumbing.Prelude.{ℕ, String, ◌≡◌, refl, ap, Bool, true, false, ◌||◌, Option, none, some, arith}
use plumbing.Json.{
  Number, int, int32, int64, float32, float64, literal, Value, Fields, Items, null, bool, number,
  str, arr, map_slice, nil_map_slice, obj, other, no_items, item, end, field,
}
use plumbing.Maps.{deep_copy_json_value, copy_items, copy_fields, to_arr, to_obj, to_item, to_field}

abbrev IsJsonNumber : Number → Type 0
IsJsonNumber (int i) = ⊥
IsJsonNumber (int32 i) = ⊥
IsJsonNumber (int64 i) = Unit
IsJsonNumber (float32 x) = ⊥
IsJsonNumber (float64 x) = Unit
IsJsonNumber (literal s) = Unit

-- Only what `json.Unmarshal` makes, int64, and nil slices of maps.
mutual
  pub IsPlainJson : Value → Type 0
  IsPlainJson null = Unit
  IsPlainJson (bool b) = Unit
  IsPlainJson (number n) = IsJsonNumber n
  IsPlainJson (str s) = Unit
  IsPlainJson (arr xs) = AllPlainJson xs
  IsPlainJson (map_slice xs) = ⊥
  IsPlainJson nil_map_slice = Unit
  IsPlainJson (obj m) = FieldsPlainJson m
  IsPlainJson (other type) = ⊥

  AllPlainJson : Items → Type 0
  AllPlainJson no_items = Unit
  AllPlainJson (item x xs) = IsPlainJson x × AllPlainJson xs

  FieldsPlainJson : Fields → Type 0
  FieldsPlainJson end = Unit
  FieldsPlainJson (field k v m) = IsPlainJson v × FieldsPlainJson m

-- Whether a value of another type stands anywhere.
mutual
  pub has_other : Value → Bool
  has_other (arr xs) = items_have_other xs
  has_other (map_slice xs) = items_have_other xs
  has_other (obj m) = fields_have_other m
  has_other (other type) = true
  has_other null = false
  has_other nil_map_slice = false
  has_other (bool b) = false
  has_other (number n) = false
  has_other (str s) = false

  items_have_other : Items → Bool
  items_have_other no_items = false
  items_have_other (item x xs) = has_other x || items_have_other xs

  fields_have_other : Fields → Bool
  fields_have_other end = false
  fields_have_other (field k v m) = has_other v || fields_have_other m

-- Such a value is its own copy.
mutual
  unfolding deep_copy_json_value IsPlainJson

  copy_same : (widen : ℕ → ℕ) (v : Value) → IsPlainJson v → deep_copy_json_value widen v ≡ some v
  copy_same widen null j = refl
  copy_same widen (bool b) j = refl
  copy_same widen (number (int i)) j = elim j [ ]
  copy_same widen (number (int32 i)) j = elim j [ ]
  copy_same widen (number (int64 i)) j = refl
  copy_same widen (number (float32 x)) j = elim j [ ]
  copy_same widen (number (float64 x)) j = refl
  copy_same widen (number (literal s)) j = refl
  copy_same widen (str s) j = refl
  copy_same widen (arr xs) j = ap to_arr (copy_items_same widen xs j)
  copy_same widen (map_slice xs) j = elim j [ ]
  copy_same widen nil_map_slice j = refl
  copy_same widen (obj m) j = ap to_obj (copy_fields_same widen m j)
  copy_same widen (other type) j = elim j [ ]

  copy_items_same : (widen : ℕ → ℕ) (xs : Items) → AllPlainJson xs → copy_items widen xs ≡ some xs
  copy_items_same widen no_items j = refl
  copy_items_same widen (item x xs) j =
      rw (copy_same widen x j.0, copy_items_same widen xs j.1) refl

  copy_fields_same : (widen : ℕ → ℕ) (m : Fields) → FieldsPlainJson m → copy_fields widen m ≡ some m
  copy_fields_same widen end j = refl
  copy_fields_same widen (field k v m) j =
      rw (copy_same widen v j.0, copy_fields_same widen m j.1) refl

-- A result exactly without a value of another type, and then of those types.
abbrev Copied : {A : Type 0} → (A → Type 0) → Bool → Option A → Type 0
Copied P b none = b ≡ true
Copied P b (some a) = (b ≡ false) × P a

to_item-Copied :
    (a b : Bool) (x : Option Value) (xs : Option Items)
    → Copied IsPlainJson a x
    → Copied AllPlainJson b xs
    → Copied AllPlainJson (a || b) (to_item x xs)
unfolding IsPlainJson
to_item-Copied a b none xs p q = ground (arith, p)
to_item-Copied a b (some x) none p q = ground (arith, q)
to_item-Copied a b (some x) (some xs) p q = (ground (arith, p, q), (p.1, q.1))

to_field-Copied :
    (k : String) (a b : Bool) (v : Option Value) (m : Option Fields)
    → Copied IsPlainJson a v
    → Copied FieldsPlainJson b m
    → Copied FieldsPlainJson (a || b) (to_field k v m)
unfolding IsPlainJson
to_field-Copied k a b none m p q = ground (arith, p)
to_field-Copied k a b (some v) none p q = ground (arith, q)
to_field-Copied k a b (some v) (some m) p q = (ground (arith, p, q), (p.1, q.1))

to_arr-Copied :
    (b : Bool) (xs : Option Items) → Copied AllPlainJson b xs → Copied IsPlainJson b (to_arr xs)
unfolding IsPlainJson
to_arr-Copied b none p = p
to_arr-Copied b (some xs) p = p

to_obj-Copied :
    (b : Bool) (m : Option Fields) → Copied FieldsPlainJson b m → Copied IsPlainJson b (to_obj m)
unfolding IsPlainJson
to_obj-Copied b none p = p
to_obj-Copied b (some m) p = p

mutual
  unfolding deep_copy_json_value IsPlainJson has_other

  copies :
      (widen : ℕ → ℕ) (v : Value) → Copied IsPlainJson (has_other v) (deep_copy_json_value widen v)
  copies widen null = (refl, tt)
  copies widen nil_map_slice = (refl, tt)
  copies widen (bool b) = (refl, tt)
  copies widen (number (int i)) = (refl, tt)
  copies widen (number (int32 i)) = (refl, tt)
  copies widen (number (int64 i)) = (refl, tt)
  copies widen (number (float32 x)) = (refl, tt)
  copies widen (number (float64 x)) = (refl, tt)
  copies widen (number (literal s)) = (refl, tt)
  copies widen (str s) = (refl, tt)
  copies widen (arr xs) = to_arr-Copied _ _ (copies_items widen xs)
  copies widen (map_slice xs) = to_arr-Copied _ _ (copies_items widen xs)
  copies widen (obj m) = to_obj-Copied _ _ (copies_fields widen m)
  copies widen (other type) = refl

  copies_items :
      (widen : ℕ → ℕ) (xs : Items) → Copied AllPlainJson (items_have_other xs) (copy_items widen xs)
  copies_items widen no_items = (refl, tt)
  copies_items widen (item x xs) = to_item-Copied _ _ _ _ (copies widen x) (copies_items widen xs)

  copies_fields :
      (widen : ℕ → ℕ) (m : Fields)
      → Copied FieldsPlainJson (fields_have_other m) (copy_fields widen m)
  copies_fields widen end = (refl, tt)
  copies_fields widen (field k v m) =
      to_field-Copied k _ _ _ _ (copies widen v) (copies_fields widen m)
