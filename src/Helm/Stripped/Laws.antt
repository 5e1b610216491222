-- ===== src/Helm/Stripped/Laws.antt =====
-- Which fields the comparison of step 6 ignores.
use plumbing.Prelude.{
  member, String, Bool-cases, inl, inr, ◌≡◌, refl, ◌∙◌, ap, sym, Bool, true, false, Option, none,
  some, arith, eq_iff, str_eq, if◌then◌else◌,
}
use plumbing.Json.{
  Value, Fields, obj, null, get_field, set_field, delete_field, delete_all, get_field-set_field,
  get_field-delete_field, get_field-delete_all, set_field-set_field, delete_all-set_field_in,
  delete_all-set_field_out, delete_field-set_field_self, delete_field-set_field_ne, set_field_comm,
}
use plumbing.Helm.Stripped.{
  volatile_keys, owned_annotations, owned_labels, edit_found, edit_object, strip_metadata,
  strip_fields,
}

edit_object-set_field :
    (k : String) (f : Fields → Fields) (a m : Fields)
    → edit_object k f (set_field k (obj a) m) ≡ set_field k (obj (f a)) m
unfolding edit_object
edit_object-set_field k f a m =
    let found : get_field k (set_field k (obj a) m) ≡ some (obj a) =
      ground (arith, get_field-set_field k k (obj a) m, eq_iff k k) in
    rw (found, edit_found) (set_field-set_field k (obj (f a)) (obj a) m)

pub edit_object_found :
    (k : String) (f : Fields → Fields) (a m : Fields)
    → get_field k m ≡ some (obj a)
    → edit_object k f m ≡ set_field k (obj (f a)) m
unfolding edit_object
edit_object_found k f a m h = rw (h, edit_found)

edit_found-set_field_ne :
    (o : Option Value) (k j : String) (f : Fields → Fields) (y u : Value) (m : Fields)
    → get_field j m ≡ some u
    → str_eq j k ≡ false
    → edit_found k f o (set_field j y m) ≡ set_field j y (edit_found k f o m)
unfolding edit_found
edit_found-set_field_ne (some (obj a)) k j f y u m h ne =
    sym (set_field_comm j k y (obj (f a)) u m h ne)
edit_found-set_field_ne (some null) k j f y u m h ne = refl
edit_found-set_field_ne _ k j f y u m h ne = refl

edit_object-set_field_ne :
    (k j : String) (f : Fields → Fields) (y u : Value) (m : Fields)
    → get_field j m ≡ some u
    → str_eq j k ≡ false
    → edit_object k f (set_field j y m) ≡ set_field j y (edit_object k f m)
unfolding edit_object
edit_object-set_field_ne k j f y u m h ne =
    let same : get_field k (set_field j y m) ≡ get_field k m =
      ground (arith, get_field-set_field j k y m) in
    rw same (edit_found-set_field_ne (get_field k m) k j f y u m h ne)

get_field-edit_found :
    (o : Option Value) (k j : String) (f : Fields → Fields) (m : Fields)
    → str_eq k j ≡ false
    → get_field j (edit_found k f o m) ≡ get_field j m
unfolding edit_found
get_field-edit_found (some (obj a)) k j f m ne =
    ground (arith, get_field-set_field k j (obj (f a)) m)
get_field-edit_found (some null) k j f m ne = refl
get_field-edit_found _ k j f m ne = refl

-- Another field does not matter to an edit.
pub get_field-edit_object :
    (k j : String) (f : Fields → Fields) (m : Fields)
    → str_eq k j ≡ false
    → get_field j (edit_object k f m) ≡ get_field j m
unfolding edit_object
get_field-edit_object k j f m ne = get_field-edit_found (get_field k m) k j f m ne

pub strip_metadata-volatile :
    (k : String) (v : Value) (md : Fields)
    → member k volatile_keys ≡ true
    → strip_metadata (set_field k v md) ≡ strip_metadata md
unfolding strip_metadata
strip_metadata-volatile k v md h = rw (delete_all-set_field_in volatile_keys k v md h)

kept-volatile :
    (k : String) (md : Fields)
    → member k volatile_keys ≡ false
    → get_field k (delete_all volatile_keys md) ≡ get_field k md
kept-volatile k md out = rw get_field-delete_all (rw out)

pub strip_metadata-annotation :
    (k : String) (v : Value) (md a : Fields)
    → get_field "annotations" md ≡ some (obj a)
    → member k owned_annotations ≡ true
    → strip_metadata (set_field "annotations" (obj (set_field k v a)) md) ≡ strip_metadata md
unfolding strip_metadata
strip_metadata-annotation k v md a found h =
    let clean = delete_all owned_annotations in
    let rest = delete_all volatile_keys md in
    ap (edit_object "labels" (delete_all owned_labels)) (
      ap (edit_object "annotations" clean)
        (delete_all-set_field_out volatile_keys "annotations" _ md refl)
      ∙ edit_object-set_field "annotations" clean (set_field k v a) rest
      ∙ rw (delete_all-set_field_in owned_annotations k v a h) (
          sym (
            edit_object_found "annotations" clean a rest
              (kept-volatile "annotations" md refl ∙ found))))

pub strip_metadata-label :
    (k : String) (v : Value) (md l : Fields)
    → get_field "labels" md ≡ some (obj l)
    → member k owned_labels ≡ true
    → strip_metadata (set_field "labels" (obj (set_field k v l)) md) ≡ strip_metadata md
unfolding strip_metadata
strip_metadata-label k v md l found h =
    let clean = delete_all owned_labels in
    let annotated = edit_object "annotations" (delete_all owned_annotations) in
    let rest = delete_all volatile_keys md in
    let here : get_field "labels" rest ≡ some (obj l) = kept-volatile "labels" md refl ∙ found in
    ap (λ m. edit_object "labels" clean (annotated m))
      (delete_all-set_field_out volatile_keys "labels" _ md refl)
    ∙ ap (edit_object "labels" clean)
        (edit_object-set_field_ne "annotations" "labels" _ _ (obj l) rest here refl)
    ∙ edit_object-set_field "labels" clean (set_field k v l) (annotated rest)
    ∙ rw (delete_all-set_field_in owned_labels k v l h) (
        sym (
          edit_object_found "labels" clean l (annotated rest)
            (get_field-edit_object "annotations" "labels" _ rest refl ∙ here)))

pub strip_fields-metadata :
    (x md m : Fields)
    → get_field "metadata" m ≡ some (obj md)
    → strip_metadata x ≡ strip_metadata md
    → strip_fields (set_field "metadata" (obj x) m) ≡ strip_fields m
unfolding strip_fields
strip_fields-metadata x md m found same =
    let rest = delete_field "status" m in
    let here : get_field "metadata" rest ≡ some (obj md) =
      get_field-delete_field "status" "metadata" m ∙ found in
    ap (edit_object "metadata" strip_metadata)
      (delete_field-set_field_ne "status" "metadata" (obj x) m refl)
    ∙ edit_object-set_field "metadata" strip_metadata x rest
    ∙ rw same (sym (edit_object_found "metadata" strip_metadata md rest here))

pub strip_fields-status :
    (v : Value) (m : Fields) → strip_fields (set_field "status" v m) ≡ strip_fields m
unfolding strip_fields
strip_fields-status v m = rw delete_field-set_field_self

-- An object under an edit; any other value is left.
abbrev pub edited : (Fields → Fields) → Option Value → Option Value
edited f (some (obj a)) = some (obj (f a))
edited f o = o

get_field-edit_found_self :
    (o : Option Value) (k : String) (f : Fields → Fields) (m : Fields)
    → get_field k m ≡ o
    → get_field k (edit_found k f o m) ≡ edited f o
unfolding edit_found
get_field-edit_found_self (some (obj a)) k f m h =
    ground (arith, get_field-set_field k k (obj (f a)) m, eq_iff k k)
get_field-edit_found_self (some null) k f m h = h
get_field-edit_found_self _ k f m h = h

get_field-edit_object_any :
    (k j : String) (f : Fields → Fields) (m : Fields)
    → get_field j (edit_object k f m)
      ≡ (if str_eq k j then edited f (get_field j m) else get_field j m)
get_field-edit_object_any k j f m = elim (Bool-cases (str_eq k j)) [
  | inl same ↦
      let e : k ≡ j = (eq_iff k j).0 same in
      rw same (rw e (unfold edit_object in get_field-edit_found_self (get_field j m) j f m refl))
  | inr ne ↦ rw ne (get_field-edit_object k j f m ne)
]

pub strip_fields-get_field :
    (m : Fields) (k : String)
    → get_field k (strip_fields m) ≡ (
        if str_eq "status" k
        then none
        else if str_eq "metadata" k
        then edited strip_metadata (get_field k m)
        else get_field k m)
unfolding strip_fields
strip_fields-get_field m k = ground (
  arith,
  get_field-edit_object_any "metadata" k strip_metadata (delete_field "status" m),
  get_field-delete_field "status" k m,
  eq_iff "status" k,
  eq_iff "metadata" k,
  eq_iff "metadata" "status",
)

nest_ifs :
    (v a l : Bool) (f g : Fields → Fields) (o : Option Value)
    → (a ≡ true → l ≡ false)
    → (let kept : Option Value = if v then none else o in
        let noted : Option Value = if a then edited f kept else kept in
        if l then edited g noted else noted)
      ≡ (if v then none else if a then edited f o else if l then edited g o else o)
nest_ifs true true true f g o h = refl
nest_ifs true true false f g o h = refl
nest_ifs true false true f g o h = refl
nest_ifs true false false f g o h = refl
nest_ifs false true true f g o h = cc (h refl)
nest_ifs false true false f g o h = refl
nest_ifs false false true f g o h = refl
nest_ifs false false false f g o h = refl

pub strip_metadata-get_field :
    (md : Fields) (j : String)
    → get_field j (strip_metadata md) ≡ (
        if member j volatile_keys
        then none
        else if str_eq "annotations" j
        then edited (delete_all owned_annotations) (get_field j md)
        else if str_eq "labels" j
        then edited (delete_all owned_labels) (get_field j md)
        else get_field j md)
unfolding strip_metadata
strip_metadata-get_field md j =
    get_field-edit_object_any "labels" j _ _
    ∙ rw (get_field-edit_object_any "annotations" j) (
        rw (get_field-delete_all volatile_keys j md) (
          nest_ifs (member j volatile_keys) (str_eq "annotations" j) (str_eq "labels" j) _ _
            (get_field j md)
            (λ h. ground (
              arith,
              h,
              eq_iff "annotations" j,
              eq_iff "labels" j,
              eq_iff "labels" "annotations",
            ))))
