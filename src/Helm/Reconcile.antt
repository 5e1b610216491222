-- ===== src/Helm/Reconcile.antt =====
-- helm/v3/reconcile.go: `Reconcile`, the self-healing apply-if-changed of a release.
mod Adoption
mod Normal
mod Quiet
mod Revisions
mod Tests
use plumbing.Prelude.{
  ℕ, suc, ◌+◌, String, string_Comparable, Bool, true, false, not, ◌||◌, ◌&&◌, Option, none, some,
  List, [], ◌∷◌, ◌++◌, map, str_eq, ltb, if◌then◌else◌, lookup, insert, codes, trim_space,
  same_text, is_key, ◌+++◌,
}
use plumbing.Json.{Value, null}
use plumbing.Helm.Stripped.{Fallible, ok, fail, semantically_changed}
use plumbing.Helm.Api.{
  Cluster, ActionConfig, UpgradeConfig, Release, ReconcileResult, Info, Merged, Event,
  dry_run_server, read, upgrade_run, merged,
}
use plumbing.Helm.Run.{
  Outcome, done, stopped, Stage, initial_upgrade, rendering, building_config, building_current,
  building_target, kube_update_failed, real_upgrade, pure, call, attempt, ◌>>=◌, ◌>>◌,
}
use plumbing.Helm.Client.{Act, action_of, get_release, upgrade}
use plumbing.Helm.Manifest.{drop_unserved_from_stored_manifest}

-- What step 4 learns of the live objects.
pub record Snapshot (Object : Type 0) : Type 0 where
  pub absent : List (String × Bool)
  pub live_traceparent : List (String × String)
  pub live_obj : List (String × Object)

abbrev pub traceparent_annotation : String
traceparent_annotation = "krateo.io/traceparent"

pub is_empty_patch : String → Bool
unfolding trim_space same_text
is_empty_patch patch =
    let s = trim_space (codes patch) in same_text s [] || same_text s (codes "{}")

-- `absent[key]`
abbrev pub is_absent : {Object : Type 0} → Snapshot Object → String → Bool
is_absent snap key = elim (lookup key snap.absent) [ none ↦ false | some b ↦ b ]

module _ (c : Cluster) where
  open c use {
    Options, Meta, Object, Mapping, build, helper_get, resource_get, has_three_way, three_way_merge,
    kube_update, init_config, group_version_kind, get_annotations, set_annotations,
    unstructured_kind, nested_string_map, set_nested_map, remove_nested_field, base64, marshal,
    create_merge_patch, no_options,
  }

  abbrev pub Resource : Type 0
  Resource = Info Object Mapping

  pub info_key : Resource → String
  info_key info =
      let (gv, kind) = group_version_kind info.object in
      gv +++ "/" +++ kind +++ "/" +++ info.namespace +++ "/" +++ info.name

  text_at : String → Fallible (Option (List (String × String))) → String
  text_at key (ok (some ann)) = elim (lookup key ann) [ none ↦ "" | some v ↦ v ]
  text_at key _ = ""

  pub annotation_of : Object → String → String
  unfolding text_at
  annotation_of o key = text_at key (get_annotations o)

  annotated : String → String → Object → Fallible (Option (List (String × String))) → Object
  annotated key val o fail = o
  annotated key val o (ok none) = set_annotations (insert key val []) o
  annotated key val o (ok (some ann)) = set_annotations (insert key val ann) o

  pub set_annotation : Object → String → String → Object
  unfolding annotated
  set_annotation o key val = annotated key val o (get_annotations o)

  -- `data[k] = base64(v)` for each entry of `stringData`
  fold_in : List (String × String) → List (String × String) → List (String × String)
  fold_in [] into = into
  fold_in ((k, v) ∷ string_data) into = fold_in string_data (insert k (base64 v) into)

  pub or_empty : Fallible (Option (List (String × String))) → List (String × String)
  or_empty (ok (some data_map)) = data_map
  or_empty _ = []

  folded : Object → Fallible (Option (List (String × String))) → Object
  unfolding fold_in or_empty
  folded o (ok (some (e ∷ string_data))) =
      remove_nested_field "stringData" (
        set_nested_map (fold_in (e ∷ string_data) (or_empty (nested_string_map "data" o))) "data" o)
  folded o _ = o

  secret_only : Object → Option (String × String) → Object
  unfolding folded
  secret_only o none = o
  secret_only o (some (kind, api_version)) =
      if str_eq kind "Secret" && str_eq api_version "v1"
      then folded o (nested_string_map "stringData" o)
      else o

  pub normalize_secret_string_data : Object → Object
  unfolding secret_only
  normalize_secret_string_data o = secret_only o (unstructured_kind o)

  -- Step 4: one round of the loop, for the answer of the `GET`.
  note_live : String → Outcome Object → Snapshot Object → Snapshot Object
  note_live key (stopped _) snap = record snap { absent = insert key true snap.absent }
  note_live key (done live) snap =
      let tp = annotation_of live traceparent_annotation in
      record snap {
        live_obj = insert key live snap.live_obj;
        live_traceparent =
            if str_eq tp "" then snap.live_traceparent else insert key tp snap.live_traceparent;
      }

  pub survey : List Resource → Snapshot Object → Act c (Snapshot Object)
  unfolding note_live
  survey [] snap = pure snap
  survey (info ∷ target) snap = do
    next ←
        attempt (call building_target read (helper_get info))
          (λ got. note_live (info_key info) got snap)
    survey target next

  -- Step 4.5
  keep_traceparent : Option String → Object → Object
  keep_traceparent none o = o
  keep_traceparent (some tp) o = set_annotation o traceparent_annotation tp

  pub neutralize : Snapshot Object → Resource → Resource
  unfolding keep_traceparent
  neutralize snap info =
      let key = info_key info in
      if is_absent snap key
      then info
      else record info { object = keep_traceparent (lookup key snap.live_traceparent) info.object }

  -- Step 4.6
  pub normalize : Resource → Resource
  normalize info = record info { object = normalize_secret_string_data info.object }

  -- Step 4.7
  adopt_missing : Resource → Option Resource → List Resource → List Resource
  adopt_missing info (some _) current = current
  adopt_missing info none current = current ++ info ∷ []

  pub adopt : Snapshot Object → List Resource → List Resource → List Resource
  unfolding adopt_missing
  adopt snap [] current = current
  adopt snap (info ∷ target) current = adopt snap target (
      if is_absent snap (info_key info)
      then current
      else adopt_missing info (resource_get current info) current)

  -- Step 5
  pub merge : List Resource → List Resource → Bool → Act c (Merged Object Mapping)
  merge current target force = call kube_update_failed merged (
      if has_three_way
      then three_way_merge current target force
      else kube_update current target force)

  -- An object that is not there reads as JSON null.
  abbrev pub marshal_found : Option Object → Fallible Value
  marshal_found none = ok null
  marshal_found (some o) = marshal o

  -- An undetermined comparison counts as a change.
  pub counts : Fallible Bool → ℕ
  counts fail = 1
  counts (ok true) = 1
  counts (ok false) = 0

  -- Step 6
  pub patched_children : Snapshot Object → List Resource → ℕ
  unfolding counts is_empty_patch
  patched_children snap [] = 0
  patched_children snap (info ∷ target) =
      let key = info_key info in
      (if is_absent snap key
        then 0
        else counts (
            semantically_changed marshal_found create_merge_patch is_empty_patch
              (lookup key snap.live_obj) (some info.object)))
      + patched_children snap target

  -- The result, and the error that Go returns beside it.
  abbrev pub Report : Type 0
  Report = ReconcileResult Meta × Option Stage

  upgraded : ReconcileResult Meta → Outcome (Release Meta) → Report
  upgraded result (done rel) = (record result { release = some rel }, none)
  upgraded result (stopped st) = (result, some st)

  -- Steps 7 and 8
  pub conclude : String → String → UpgradeConfig Options → ReconcileResult Meta → Act c Report
  unfolding upgraded
  conclude name chart_ref cfg result =
      if result.changed
      then attempt (upgrade c real_upgrade name chart_ref cfg) (upgraded result)
      else pure (result, none)

  pub summarize : Release Meta → Snapshot Object → Merged Object Mapping → ReconcileResult Meta
  summarize stored snap res =
      let patched = patched_children snap res.refreshed in
      record {
        changed = ltb 0 res.created || ltb 0 res.deleted || ltb 0 patched;
        created = res.created;
        deleted = res.deleted;
        patched_updated = patched;
        release = some stored;
      }

  -- The rendering is an upgrade as a server-side dry run.
  pub dry : UpgradeConfig Options → UpgradeConfig Options
  dry cfg = record cfg { action = some (record (action_of c cfg) { dry_run = dry_run_server }) }

  pub heal : String → String → UpgradeConfig Options → Release Meta → Act c Report
  unfolding dry survey merge
  heal name chart_ref cfg stored = do
    current_manifest ← drop_unserved_from_stored_manifest c cfg name stored.manifest
    rendered ← upgrade c rendering name chart_ref (dry cfg)
    call building_config read (init_config (some (action_of c cfg)))
    current ← call building_current read (build current_manifest false)
    built ← call building_target read (build rendered.manifest true)
    snap ← survey built (record { absent = []; live_traceparent = []; live_obj = [] })
    let target = map normalize (map (neutralize snap) built)
    res ← merge (adopt snap target current) target (action_of c cfg).force
    conclude name chart_ref cfg (summarize stored snap res)

  abbrev pub installed : Release Meta → ReconcileResult Meta
  installed rel = record {
    changed = true;
    created = 0;
    deleted = 0;
    patched_updated = 0;
    release = some rel;
  }

  -- With no stored release the chart is installed.
  pub initial : String → String → UpgradeConfig Options → Act c Report
  initial name chart_ref cfg = do
    rel ← upgrade c initial_upgrade name chart_ref (record cfg { install = true })
    pure (installed rel, none)

  after_lookup : String → String → UpgradeConfig Options → Option (Release Meta) → Act c Report
  unfolding initial heal
  after_lookup name chart_ref cfg none = initial name chart_ref cfg
  after_lookup name chart_ref cfg (some stored) = heal name chart_ref cfg stored

  pub or_zero_config : Option (UpgradeConfig Options) → UpgradeConfig Options
  or_zero_config none = record { install = false; action = none; history = no_options }
  or_zero_config (some cfg) = cfg

  pub reconcile : String → String → Option (UpgradeConfig Options) → Act c Report
  unfolding after_lookup or_zero_config
  reconcile name chart_ref cfg = do
    stored ← get_release c name
    after_lookup name chart_ref (or_zero_config cfg) stored
