-- ===== src/Json/Values.antt =====
-- Values, and the fields of an object as a map.
use plumbing.Prelude.{
  ℕ, String, string_Comparable, ◌≡◌, refl, Bool, false, Option, none, some, arith, eq_iff, str_eq,
  ℤ, if◌then◌else◌,
}

-- A number with its dynamic type; floats are bit patterns, `literal` is `json.Number`.
pub data Number : Type 0 where
  int int32 int64 : ℤ → Number
  float32 float64 : ℕ → Number
  literal : String → Number

-- `map_slice` is `[]map[string]any` and `nil_map_slice` a nil one; `other` is a value of any further type.
mutual
  pub data Value : Type 0 where
    null : Value
    bool : Bool → Value
    number : Number → Value
    str : String → Value
    arr : Items → Value
    map_slice : Items → Value
    nil_map_slice : Value
    obj : Fields → Value
    other : String → Value

  pub data Fields : Type 0 where
    end : Fields
    field : String → Value → Fields → Fields

  pub data Items : Type 0 where
    no_items : Items
    item : (first : Value) → (rest : Items) → Items

-- `v, ok := m[k]`
unfoldable pub get_field : String → Fields → Option Value
get_field k end = none
get_field k (field j v m) = if str_eq j k then some v else get_field k m

-- `m[k] = v`
unfoldable pub set_field : String → Value → Fields → Fields
set_field k v end = field k v end
set_field k v (field j w m) = if str_eq j k then field k v m else field j w (set_field k v m)

-- `delete(m, k)`
unfoldable pub delete_field : String → Fields → Fields
delete_field k end = end
delete_field k (field j w m) =
    let rest = delete_field k m in if str_eq j k then rest else field j w rest

pub get_field-set_field :
    (k j : String) (v : Value) (m : Fields)
    → get_field j (set_field k v m) ≡ (if str_eq k j then some v else get_field j m)
unfolding get_field set_field
get_field-set_field k j v end = refl
get_field-set_field k j v (field i w m) =
    ground (arith, eq_iff k j, eq_iff i k, eq_iff i j, get_field-set_field k j v m)

pub get_field-delete_field :
    (k j : String) (m : Fields)
    → get_field j (delete_field k m) ≡ (if str_eq k j then none else get_field j m)
unfolding get_field delete_field
get_field-delete_field k j end = ground arith
get_field-delete_field k j (field i w m) =
    ground (arith, eq_iff k j, eq_iff i k, eq_iff i j, get_field-delete_field k j m)

pub delete_field-absent : (k : String) (m : Fields) → get_field k m ≡ none → delete_field k m ≡ m
unfolding get_field delete_field
delete_field-absent k end h = refl
delete_field-absent k (field i w m) h = ground (arith, delete_field-absent k m)

-- Deleting twice is deleting once.
pub delete_field_idem :
    (k : String) (m : Fields) → delete_field k (delete_field k m) ≡ delete_field k m
delete_field_idem k m =
    delete_field-absent k _ (ground (arith, get_field-delete_field k k m, eq_iff k k))

pub delete_field_comm :
    (k j : String) (m : Fields)
    → delete_field k (delete_field j m) ≡ delete_field j (delete_field k m)
unfolding delete_field
delete_field_comm k j end = refl
delete_field_comm k j (field i w m) =
    ground (arith, eq_iff i k, eq_iff i j, delete_field_comm k j m)

pub delete_field-set_field_self :
    (k : String) (v : Value) (m : Fields) → delete_field k (set_field k v m) ≡ delete_field k m
unfolding set_field delete_field
delete_field-set_field_self k v end = ground (arith, eq_iff k k)
delete_field-set_field_self k v (field i w m) =
    ground (arith, eq_iff i k, eq_iff k k, delete_field-set_field_self k v m)

pub delete_field-set_field_ne :
    (k j : String) (v : Value) (m : Fields)
    → str_eq k j ≡ false
    → delete_field k (set_field j v m) ≡ set_field j v (delete_field k m)
unfolding set_field delete_field
delete_field-set_field_ne k j v end ne = ground (arith, eq_iff j k, eq_iff k j)
delete_field-set_field_ne k j v (field i w m) ne =
    ground
      (arith, eq_iff i k, eq_iff i j, eq_iff j k, eq_iff k j, delete_field-set_field_ne k j v m ne)

pub set_field-set_field :
    (k : String) (v w : Value) (m : Fields) → set_field k v (set_field k w m) ≡ set_field k v m
unfolding set_field
set_field-set_field k v w end = ground (arith, eq_iff k k)
set_field-set_field k v w (field i u m) =
    ground (arith, eq_iff i k, eq_iff k k, set_field-set_field k v w m)

-- Writes to two keys commute if one of them is there.
pub set_field_comm :
    (k j : String) (v w u : Value) (m : Fields)
    → get_field k m ≡ some u
    → str_eq k j ≡ false
    → set_field k v (set_field j w m) ≡ set_field j w (set_field k v m)
unfolding get_field set_field
set_field_comm k j v w u end h ne = ground arith
set_field_comm k j v w u (field i x m) h ne =
    ground (arith, eq_iff i k, eq_iff i j, eq_iff j k, eq_iff k j, set_field_comm k j v w u m)
