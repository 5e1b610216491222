-- ===== src/Json/Deletions.antt =====
-- The deletion of a list of keys.
use plumbing.Prelude.{
  String, ◌≡◌, refl, true, false, none, arith, eq_iff, str_eq, if◌then◌else◌, List, [], ◌∷◌, member,
  Bool-cases, inl, inr,
}
use plumbing.Json.Values.{
  Value, Fields, get_field, set_field, delete_field, get_field-delete_field, delete_field-absent,
  delete_field-set_field_self, delete_field-set_field_ne,
}

-- `delete` for each key of a list.
unfoldable pub delete_all : List String → Fields → Fields
delete_all [] m = m
delete_all (k ∷ ks) m = delete_all ks (delete_field k m)

pub delete_all-set_field_in :
    (ks : List String) (k : String) (v : Value) (m : Fields)
    → member k ks ≡ true
    → delete_all ks (set_field k v m) ≡ delete_all ks m
unfolding delete_all
delete_all-set_field_in [] k v m h = cc
delete_all-set_field_in (j ∷ ks) k v m h = elim (Bool-cases (str_eq j k)) [
  | inl same ↦ let e : j ≡ k = (eq_iff j k).0 same in rw (e, delete_field-set_field_self k v m)
  | inr differ ↦
      rw (delete_field-set_field_ne j k v m differ)
        (delete_all-set_field_in ks k v (delete_field j m) (ground arith))
]

pub delete_all-set_field_out :
    (ks : List String) (k : String) (v : Value) (m : Fields)
    → member k ks ≡ false
    → delete_all ks (set_field k v m) ≡ set_field k v (delete_all ks m)
unfolding delete_all
delete_all-set_field_out [] k v m h = refl
delete_all-set_field_out (j ∷ ks) k v m h =
    rw (delete_field-set_field_ne j k v m (ground arith))
      (delete_all-set_field_out ks k v (delete_field j m) (ground arith))

pub get_field-delete_all :
    (ks : List String) (k : String) (m : Fields)
    → get_field k (delete_all ks m) ≡ (if member k ks then none else get_field k m)
unfolding delete_all
get_field-delete_all [] k m = refl
get_field-delete_all (j ∷ ks) k m =
    ground (arith, get_field-delete_all ks k (delete_field j m), get_field-delete_field j k m)

pub delete_all_absent :
    (ks : List String) (m : Fields)
    → ((k : String) → member k ks ≡ true → get_field k m ≡ none)
    → delete_all ks m ≡ m
unfolding delete_all
delete_all_absent [] m h = refl
delete_all_absent (j ∷ ks) m h =
    rw (delete_field-absent j m (h j (ground (arith, eq_iff j j))))
      (delete_all_absent ks m (λ k e. h k (ground arith)))

pub delete_all_idem :
    (ks : List String) (m : Fields) → delete_all ks (delete_all ks m) ≡ delete_all ks m
delete_all_idem ks m = delete_all_absent ks _ (λ k e. rw get_field-delete_all (rw e))
