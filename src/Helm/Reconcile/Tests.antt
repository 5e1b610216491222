-- ===== src/Helm/Reconcile/Tests.antt =====
-- The reconcile on a small cluster.
use plumbing.Prelude.{
  member, String, string_Comparable, ◌≡◌, refl, Bool, true, false, ◌&&◌, Option, none, some, List,
  [], ◌∷◌, ◌++◌, arith, str_eq, equal_refl, lookup, insert, delete, lookup-insert, lookup-delete,
  eq_iff, ◌≢◌, Bool-cases, inl, inr, if◌then◌else◌,
}
use plumbing.Json.{Value, Fields, null, str, obj, end, field, get_field, delete_all, set_field}
use plumbing.Helm.Stripped.{
  Fallible, ok, fail, owned_annotations, owned_labels, volatile_keys, strip_metadata, strip_fields,
  semantically_changed,
}
use plumbing.Helm.Stripped.Laws.{edited}
use plumbing.Helm.Stripped.Changes.{
  status, write, semantically_changed-SameContent, strip_fields_kept,
}
use plumbing.Helm.Api.{Cluster, Release, Info, Event}
use plumbing.Helm.Run.{State, pure, call, attempt, ◌>>=◌}
use plumbing.Helm.Client.{get_release, upgrade}
use plumbing.Helm.Manifest.{
  drop_unserved_from_stored_manifest, filter_unmappable_manifest_docs, verdict, filter_docs,
  persist, select_current_for_build,
}
use plumbing.Helm.Reconcile.{
  Snapshot, info_key, annotation_of, neutralize, traceparent_annotation, or_empty,
  normalize_secret_string_data, adopt, or_zero_config, reconcile, survey, merge, conclude,
  summarize, heal, after_lookup, patched_children, counts, dry,
}
use plumbing.Helm.Reconcile.Quiet.{real_upgrades}
use plumbing.Helm.Reconcile.Revisions.{Revisions, reconcile-Revisions}
use plumbing.Helm.Reconcile.Normal.{neutralize-annotation_of, normalize_secret_string_data_lem}
use plumbing.Helm.Reconcile.Adoption.{Adopted, adopt-Adopted}

record Thing : Type 0 where
  kind : String
  annotations : List (String × String)
  maps : List (String × List (String × String))
  content : Fields

abbrev same_keys : Fields → Fields → Bool
same_keys end end = true
same_keys (field j v m) (field k w n) = str_eq j k && same_keys m n
same_keys _ _ = false

same_keys_refl : (m : Fields) → same_keys m m ≡ true
same_keys_refl end = refl
same_keys_refl (field k v m) = rw (equal_refl k, same_keys_refl m)

-- A merge patch that looks at no more than the keys.
abbrev key_patch : Value → Value → Fallible String
key_patch (obj m) (obj n) = ok (if same_keys m n then "{}" else "{keys}")
key_patch _ _ = ok "{}"

abbrev is_blank : String → Bool
is_blank p = str_eq p "{}"

key_patch_empty : (a : Value) → (p : String) × (key_patch a a ≡ ok p) × (is_blank p ≡ true)
key_patch_empty (obj m) = ("{}", rw (same_keys_refl m), refl)
key_patch_empty _ = ("{}", refl, refl)

abbrev find : List (Info Thing (Unit {0})) → Info Thing (Unit {0}) → Option (Info Thing (Unit {0}))
find [] info = none
find (i ∷ current) info = if str_eq i.name info.name then some i else find current info

abbrev thing : String → Info Thing (Unit {0})
thing name = record {
  object = record {
    kind = "Thing";
    annotations = [];
    maps = [];
    content = field "spec" (str name) end;
  };
  namespace = "demo";
  name = name;
  mapping = tt;
}

abbrev release_one : Release (Unit {0})
release_one = record { manifest = "a"; status = some "deployed"; meta = tt }

abbrev cluster : Cluster
cluster = record {
  World = Unit {0};
  Options = Unit {0};
  Meta = Unit {0};
  Object = Thing;
  Mapping = Unit {0};
  Mapper = Unit {0};
  Chart = Unit {0};
  no_options = tt;
  init_config = λ a w. (ok tt, w);
  get_run = λ name w. (ok (some release_one), w);
  load_chart = λ ref a w. (ok tt, w);
  check_chart_type = λ ch w. (ok tt, w);
  check_dependencies = λ ch ref a w. (ok tt, w);
  run_upgrade = λ cfg name ch w. (ok release_one, w);
  build = λ manifest validate w. (ok (thing "a" ∷ []), w);
  helper_get = λ info w. (ok info.object, w);
  resource_get = find;
  has_three_way = true;
  three_way_merge =
      λ current target force w. (ok (record { created = 1; deleted = 0; refreshed = target }), w);
  kube_update = λ current target force w. (fail, w);
  to_rest_mapper = λ w. (ok tt, w);
  releases_last = λ name w. (ok release_one, w);
  releases_deployed = λ name w. (ok release_one, w);
  releases_update = λ rel w. (ok tt, w);
  split_manifests = λ m. m ∷ [];
  read_head = λ doc. none;
  parse_group_version = λ gv. none;
  rest_mapping = λ mapper g k v. true;
  gvk_string = λ g v k. k;
  group_version_kind = λ o. ("v1", o.kind);
  get_annotations = λ o. ok (some o.annotations);
  set_annotations = λ ann o. record o { annotations = ann };
  unstructured_kind = λ o. some (o.kind, "v1");
  nested_string_map = λ key o. ok (lookup key o.maps);
  set_nested_map = λ m key o. record o { maps = insert key m o.maps };
  remove_nested_field = λ key o. record o { maps = delete key o.maps };
  base64 = λ s. s;
  marshal = λ o. ok (obj o.content);
  create_merge_patch = key_patch;
}

find_finds :
    (current : List (Info Thing (Unit {0}))) (info : Info Thing (Unit {0}))
    → (found : Info Thing (Unit {0})) × (find (current ++ info ∷ []) info ≡ some found)
find_finds [] info = (info, rw (equal_refl info.name))
find_finds (i ∷ current) info = elim (Bool-cases (str_eq i.name info.name)) [
  | inl same_name ↦ (i, rw same_name)
  | inr differs ↦ let (found, e) = find_finds current info in (found, rw (differs, e))
]

find_keeps :
    (current : List (Info Thing (Unit {0}))) (more info found : Info Thing (Unit {0}))
    → find current info ≡ some found
    → find (current ++ more ∷ []) info ≡ some found
find_keeps [] more info found e = ground arith
find_keeps (i ∷ current) more info found e = ground (arith, find_keeps current more info found)

abbrev one_live : Snapshot Thing
one_live = record { absent = ("v1/Thing/demo/b", true) ∷ []; live_traceparent = []; live_obj = [] }

adopt-Adopted_example :
    Adopted cluster one_live find_finds find_keeps
      (thing "a" ∷ thing "b" ∷ thing "c" ∷ [])
      (thing "a" ∷ [])
      (adopt cluster one_live (thing "a" ∷ thing "b" ∷ thing "c" ∷ []) (thing "a" ∷ []))
adopt-Adopted_example =
    adopt-Adopted cluster one_live find_finds find_keeps (thing "a" ∷ thing "b" ∷ thing "c" ∷ [])
      (thing "a" ∷ [])

abbrev start : State (Unit {0}) (Event (Unit {0}))
start = record { world = tt; log = [] }

reconcile-Revisions_example :
    Revisions 1 0
      (reconcile cluster "app" "chart" none start).0
      (real_upgrades (reconcile cluster "app" "chart" none start).1.log)
unfolding or_zero_config
reconcile-Revisions_example = reconcile-Revisions cluster "app" "chart" none start

-- The merge created a resource, so there is one real upgrade.
reconcile_changed : real_upgrades (reconcile cluster "app" "chart" none start).1.log ≡ 1
unfolding reconcile get_release upgrade drop_unserved_from_stored_manifest
    filter_unmappable_manifest_docs verdict filter_docs survey merge adopt conclude summarize heal
    after_lookup or_zero_config persist select_current_for_build call pure attempt ◌>>=◌
    patched_children counts dry
reconcile_changed = refl

semantically_changed-SameContent_example :
    semantically_changed {Object = Thing}
      (λ o. ok (obj o.content))
      key_patch
      is_blank
      (record { kind = "Thing"; annotations = []; maps = []; content = field "spec" (str "a") end })
      (record {
        kind = "Thing";
        annotations = [];
        maps = [];
        content = set_field "status" (str "ready") (field "spec" (str "a") end);
      })
    ≡ ok false
semantically_changed-SameContent_example =
    semantically_changed-SameContent (λ o. ok (obj o.content)) key_patch is_blank
      (λ m. key_patch_empty (obj m))
      (record { kind = "Thing"; annotations = []; maps = []; content = field "spec" (str "a") end })
      (record {
        kind = "Thing";
        annotations = [];
        maps = [];
        content = set_field "status" (str "ready") (field "spec" (str "a") end);
      })
      (field "spec" (str "a") end) (set_field "status" (str "ready") (field "spec" (str "a") end))
      refl refl (write (status (field "spec" (str "a") end) (str "ready")))

strip_fields_kept_example :
    (get_field "spec" (strip_fields (field "spec" (str "a") (field "status" null end))) ≡ (
      if str_eq "status" "spec"
      then none
      else if str_eq "metadata" "spec"
      then edited strip_metadata
          (get_field "spec" (field "spec" (str "a") (field "status" null end)))
      else get_field "spec" (field "spec" (str "a") (field "status" null end))))
    × (get_field "name" (strip_metadata (field "name" (str "n") (field "uid" (str "u") end))) ≡ (
        if member "name" volatile_keys
        then none
        else if str_eq "annotations" "name"
        then edited
            (delete_all owned_annotations)
            (get_field "name" (field "name" (str "n") (field "uid" (str "u") end)))
        else if str_eq "labels" "name"
        then edited
            (delete_all owned_labels)
            (get_field "name" (field "name" (str "n") (field "uid" (str "u") end)))
        else get_field "name" (field "name" (str "n") (field "uid" (str "u") end))))
strip_fields_kept_example =
    strip_fields_kept (field "spec" (str "a") (field "status" null end))
      (field "name" (str "n") (field "uid" (str "u") end)) "spec" "name"

abbrev noted : Snapshot Thing
noted = record { absent = []; live_traceparent = ("v1/Thing/demo/a", "00-1") ∷ []; live_obj = [] }

neutralize-annotation_of_example :
    annotation_of cluster (neutralize cluster noted (thing "a")).object "krateo.io/traceparent" ≡ (
      if str_eq traceparent_annotation "krateo.io/traceparent"
      then "00-1"
      else annotation_of cluster (thing "a").object "krateo.io/traceparent")
unfolding lookup info_key
neutralize-annotation_of_example =
    neutralize-annotation_of cluster (λ ann o. refl) noted (thing "a") "00-1"
      "krateo.io/traceparent" refl refl (λ h. ground (arith, h))

abbrev plain : List (String × String)
plain = ("user", "root") ∷ []

abbrev secret : Thing
secret = record {
  kind = "Secret";
  annotations = [];
  maps = ("stringData", plain) ∷ ("data", ("token", "eA==") ∷ []) ∷ [];
  content = end;
}

map_set :
    (key : String) (m : List (String × String)) (o : Thing)
    → ok (lookup key (insert key m o.maps)) ≡ ok (some m)
map_set key m o = rw (lookup-insert, equal_refl key)

map_remove : (key : String) (o : Thing) → ok (lookup key (delete key o.maps)) ≡ ok none
map_remove key o = rw (lookup-delete, equal_refl key)

map_remove_ne :
    (key j : String) (o : Thing)
    → key ≢ j
    → ok (lookup j (delete key o.maps)) ≡ ok (lookup j o.maps)
map_remove_ne key j o h = ground (arith, lookup-delete key j o.maps, eq_iff key j, h)

normalize_secret_string_data_lem_example :
    (ok (lookup "stringData" (normalize_secret_string_data cluster secret).maps) ≡ ok none)
    × (lookup "user"
          (or_empty cluster (ok (lookup "data" (normalize_secret_string_data cluster secret).maps)))
        ≡ elim (lookup "user" plain) [
          | none ↦ lookup "user" (or_empty cluster (ok (lookup "data" secret.maps)))
          | some v ↦ some v
        ])
    × (normalize_secret_string_data cluster (normalize_secret_string_data cluster secret)
        ≡ normalize_secret_string_data cluster secret)
unfolding lookup
normalize_secret_string_data_lem_example =
    normalize_secret_string_data_lem cluster (map_set "data") (map_remove "stringData")
      (λ o.
        map_remove_ne "stringData" "data" o (λ h. ground (arith, h, eq_iff "stringData" "data")))
      (λ m o. refl) (λ o. refl) secret ("user", "root") [] "user" refl refl (refl, tt)
