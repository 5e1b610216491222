-- ===== src/Helm/Stripped/Changes.antt =====
-- Writes that the apiserver makes by itself do not count as a change of an object.
use plumbing.Prelude.{
  member, String, ◌≡◌, refl, ◌∙◌, sym, Bool, true, false, none, some, str_eq, if◌then◌else◌,
}
use plumbing.Json.{Value, Fields, obj, get_field, set_field, delete_all}
use plumbing.Helm.Stripped.{
  Fallible, ok, volatile_keys, owned_annotations, owned_labels, strip_metadata, strip_fields,
  strip_value, semantically_changed,
}
use plumbing.Helm.Stripped.Laws.{
  strip_metadata-volatile, strip_metadata-annotation, strip_metadata-label, strip_fields-metadata,
  strip_fields-status, edited, strip_fields-get_field, strip_metadata-get_field,
}

-- One write of a field that the server or helm owns.
pub data VolatileWrite : Fields → Fields → Type 0 where
  status : (m : Fields) (v : Value) → VolatileWrite m (set_field "status" v m)
  metadata :
      (k : String) (v : Value) (m md : Fields)
      → get_field "metadata" m ≡ some (obj md)
      → member k volatile_keys ≡ true
      → VolatileWrite m (set_field "metadata" (obj (set_field k v md)) m)
  annotation :
      (k : String) (v : Value) (m md a : Fields)
      → get_field "metadata" m ≡ some (obj md)
      → get_field "annotations" md ≡ some (obj a)
      → member k owned_annotations ≡ true
      → VolatileWrite m
          (set_field "metadata" (obj (set_field "annotations" (obj (set_field k v a)) md)) m)
  label :
      (k : String) (v : Value) (m md l : Fields)
      → get_field "metadata" m ≡ some (obj md)
      → get_field "labels" md ≡ some (obj l)
      → member k owned_labels ≡ true
      → VolatileWrite m
          (set_field "metadata" (obj (set_field "labels" (obj (set_field k v l)) md)) m)

-- Any number of such writes, on either side.
pub data SameContent : Fields → Fields → Type 0 where
  same : (m : Fields) → SameContent m m
  write : {m n : Fields} → VolatileWrite m n → SameContent m n
  back : {m n : Fields} → SameContent m n → SameContent n m
  next : {l m n : Fields} → SameContent l m → SameContent m n → SameContent l n

strip_fields-VolatileWrite : {m n : Fields} → VolatileWrite m n → strip_fields n ≡ strip_fields m
strip_fields-VolatileWrite (status m v) = strip_fields-status v m
strip_fields-VolatileWrite (metadata k v m md here h) =
    strip_fields-metadata (set_field k v md) md m here (strip_metadata-volatile k v md h)
strip_fields-VolatileWrite (annotation k v m md a here there h) =
    strip_fields-metadata _ md m here (strip_metadata-annotation k v md a there h)
strip_fields-VolatileWrite (label k v m md l here there h) =
    strip_fields-metadata _ md m here (strip_metadata-label k v md l there h)

strip_fields-SameContent : {m n : Fields} → SameContent m n → strip_fields n ≡ strip_fields m
strip_fields-SameContent (same m) = refl
strip_fields-SameContent (write w) = strip_fields-VolatileWrite w
strip_fields-SameContent (back s) = sym (strip_fields-SameContent s)
strip_fields-SameContent (next s t) = strip_fields-SameContent t ∙ strip_fields-SameContent s

module _ {Object Patch : Type 0} (marshal : Object → Fallible Value)
    (create_merge_patch : Value → Value → Fallible Patch) (is_empty_patch : Patch → Bool) where
  -- An object whose content before and after the merge differs only by writes to `status`, to the
  -- volatile metadata, and to the annotations and labels that helm owns, inside maps of annotations
  -- and labels that are there, reads as unchanged; the merge patch of a JSON object with itself is
  -- taken to be made and empty.
  pub semantically_changed-SameContent :
      (empty : (a : Fields)
        → (p : Patch) × (create_merge_patch (obj a) (obj a) ≡ ok p) × (is_empty_patch p ≡ true))
      (before after : Object) (m n : Fields)
      → marshal before ≡ ok (obj m)
      → marshal after ≡ ok (obj n)
      → SameContent m n
      → semantically_changed marshal create_merge_patch is_empty_patch before after ≡ ok false
  unfolding semantically_changed strip_value
  semantically_changed-SameContent empty before after m n hb ha s =
      let (p, made, blank) = empty (strip_fields m) in
      rw (hb, ha) (rw (strip_fields-SameContent s) (rw made (rw blank)))

-- What the comparison sees: every top-level field but `status`, with the metadata stripped; and of
-- the metadata every field but the volatile ones, where annotations and labels lose only the keys
-- that helm owns.
pub strip_fields_kept :
    (m md : Fields) (k j : String)
    → (get_field k (strip_fields m) ≡ (
        if str_eq "status" k
        then none
        else if str_eq "metadata" k
        then edited strip_metadata (get_field k m)
        else get_field k m))
      × (get_field j (strip_metadata md) ≡ (
          if member j volatile_keys
          then none
          else if str_eq "annotations" j
          then edited (delete_all owned_annotations) (get_field j md)
          else if str_eq "labels" j
          then edited (delete_all owned_labels) (get_field j md)
          else get_field j md))
strip_fields_kept m md k j = (strip_fields-get_field m k, strip_metadata-get_field md j)
