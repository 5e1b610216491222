-- ===== src/Helm/Reconcile/Normal.antt =====
-- What steps 4.5 and 4.6 of a reconcile make of a rendered resource before the merge.
use plumbing.Prelude.{
  String, string_Comparable, ◌≡◌, ◌≢◌, refl, false, Option, none, some, List, [], ◌∷◌, str_eq,
  if◌then◌else◌, lookup, insert, lookup-insert, Distinct, arith, eq_iff,
}
use plumbing.Helm.Stripped.{Fallible, ok, fail}
use plumbing.Helm.Api.{Cluster}
use plumbing.Helm.Reconcile.{
  Snapshot, Resource, traceparent_annotation, info_key, is_absent, text_at, annotation_of,
  annotated, set_annotation, keep_traceparent, neutralize, fold_in, or_empty, folded, secret_only,
  normalize_secret_string_data,
}

module _ (c : Cluster) where
  open c use {
    Object, get_annotations, set_annotations, base64, unstructured_kind, nested_string_map,
    set_nested_map, remove_nested_field,
  }

  module _
      (get_set : (ann : List (String × String)) (o : Object)
        → get_annotations (set_annotations ann o) ≡ ok (some ann)) where
    annotated-annotation_of :
        (key val k : String) (o : Object) (ann : Fallible (Option (List (String × String))))
        → get_annotations o ≡ ann
        → ann ≢ fail
        → annotation_of c (annotated c key val o ann) k
          ≡ (if str_eq key k then val else annotation_of c o k)
    unfolding annotation_of annotated text_at lookup insert
    annotated-annotation_of key val k o fail e h = ground (arith, h refl)
    annotated-annotation_of key val k o (ok none) e h = rw (get_set, e) (ground arith)
    annotated-annotation_of key val k o (ok (some ann)) e h =
        rw (get_set, e) (ground (arith, lookup-insert key k val ann))

    -- A rendered resource that exists takes the live object's traceparent annotation, and every other
    -- annotation stays as rendered.
    pub neutralize-annotation_of :
        (snap : Snapshot Object) (info : Resource c) (tp k : String)
        → is_absent snap (info_key c info) ≡ false
        → lookup (info_key c info) snap.live_traceparent ≡ some tp
        → get_annotations info.object ≢ fail
        → annotation_of c (neutralize c snap info).object k
          ≡ (if str_eq traceparent_annotation k then tp else annotation_of c info.object k)
    unfolding neutralize keep_traceparent set_annotation
    neutralize-annotation_of snap info tp k live found readable =
        rw (live, found)
          (annotated-annotation_of traceparent_annotation tp k info.object _ refl readable)

  lookup-fold_in :
      (k : String) (string_data into : List (String × String))
      → Distinct string_data
      → lookup k (fold_in c string_data into)
        ≡ elim (lookup k string_data) [ none ↦ lookup k into | some v ↦ some (base64 v) ]
  unfolding fold_in lookup
  lookup-fold_in k [] into h = refl
  lookup-fold_in k ((j, v) ∷ string_data) into (new, h) =
      rw (lookup-fold_in k string_data (insert j (base64 v) into) h)
        (ground (arith, lookup-insert j k (base64 v) into, eq_iff j k))

  module _
      (get_set : (m : List (String × String)) (o : Object)
        → nested_string_map "data" (set_nested_map m "data" o) ≡ ok (some m))
      (get_remove : (o : Object)
        → nested_string_map "stringData" (remove_nested_field "stringData" o) ≡ ok none)
      (get_remove_ne : (o : Object)
        → nested_string_map "data" (remove_nested_field "stringData" o)
          ≡ nested_string_map "data" o)
      (kind_set : (m : List (String × String)) (o : Object)
        → unstructured_kind (set_nested_map m "data" o) ≡ unstructured_kind o)
      (kind_remove : (o : Object)
        → unstructured_kind (remove_nested_field "stringData" o) ≡ unstructured_kind o) where
    -- A v1 Secret with a non-empty `stringData` loses it; its `data` then reads each of those keys as the
    -- base64 of the entry and every other key as before; and doing it again changes nothing.
    -- The maps at `data` and `stringData` are taken to be written and removed as read, with the kind kept.
    pub normalize_secret_string_data_lem :
        (o : Object) (e : String × String) (string_data : List (String × String)) (k : String)
        → unstructured_kind o ≡ some ("Secret", "v1")
        → nested_string_map "stringData" o ≡ ok (some (e ∷ string_data))
        → Distinct (e ∷ string_data)
        → (nested_string_map "stringData" (normalize_secret_string_data c o) ≡ ok none)
          × (lookup k (or_empty c (nested_string_map "data" (normalize_secret_string_data c o)))
              ≡ elim (lookup k (e ∷ string_data)) [
                | none ↦ lookup k (or_empty c (nested_string_map "data" o))
                | some v ↦ some (base64 v)
              ])
          × (normalize_secret_string_data c (normalize_secret_string_data c o)
              ≡ normalize_secret_string_data c o)
    unfolding normalize_secret_string_data secret_only folded or_empty
    normalize_secret_string_data_lem o e string_data k secret found distinct = (
      rw (secret, found, get_remove),
      rw (secret, found, folded, get_remove_ne, get_set)
          (lookup-fold_in k (e ∷ string_data) _ distinct),
      rw (secret, found, kind_remove, kind_set) (rw (secret, get_remove)),
    )
