-- ===== src/Helm/Api.antt =====
-- The data of helm/helm.go and helm/v3 that a reconcile passes around, and the interface of what the
-- repository does not implement: helm's actions, its kube client and release store, apimachinery.
use plumbing.Prelude.{ℕ, String, Bool, Option, List}
use plumbing.Json.{Value}
use plumbing.Helm.Stripped.{Fallible}

-- `DryRunMode`
pub data DryRunMode : Type 0 where
  dry_run_none dry_run_client dry_run_server : DryRunMode

-- `ActionConfig`; `options` is all that a reconcile hands on unread.
pub record ActionConfig (Options : Type 0) : Type 0 where
  pub dry_run : DryRunMode
  pub force : Bool
  pub options : Options

-- `UpgradeConfig`; its embedded `*ActionConfig` may be nil.
pub record UpgradeConfig (Options : Type 0) : Type 0 where
  pub install : Bool
  pub action : Option (ActionConfig Options)
  pub history : Options

-- helm's release: the manifest, the status (`none` where `Info` is nil), and the rest
pub record Release (Meta : Type 0) : Type 0 where
  pub manifest : String
  pub status : Option String
  pub meta : Meta

-- `ReconcileResult`
pub record ReconcileResult (Meta : Type 0) : Type 0 where
  pub changed : Bool
  pub created : ℕ
  pub deleted : ℕ
  pub patched_updated : ℕ
  pub release : Option (Release Meta)

-- `resource.Info`
pub record Info (Object Mapping : Type 0) : Type 0 where
  pub object : Object
  pub namespace : String
  pub name : String
  pub mapping : Mapping

-- `kube.Result`, by the lengths that are read, with the target list whose objects the merge refreshed
pub record Merged (Object Mapping : Type 0) : Type 0 where
  pub created : ℕ
  pub deleted : ℕ
  pub refreshed : List (Info Object Mapping)

-- What a reconcile does to the world, most recent first.
pub data Event (Options : Type 0) : Type 0 where
  read : Event Options
  upgrade_run : UpgradeConfig Options → Event Options
  manifest_repaired : Event Options
  merged : Event Options

pub record Cluster : Type 1 where
  pub World : Type 0
  pub Options : Type 0
  pub Meta : Type 0
  pub Object : Type 0
  pub Mapping : Type 0
  pub Mapper : Type 0
  pub Chart : Type 0
  -- what a zero `ActionConfig` and a zero `UpgradeConfig` hold beside the fields that are read
  pub no_options : Options
  -- `Configuration.Init`
  pub init_config : Option (ActionConfig Options) → World → Fallible (Unit {0}) × World
  -- `Get.Run`; an answer of `none` is `ErrReleaseNotFound`
  pub get_run : String → World → Fallible (Option (Release Meta)) × World
  pub load_chart : String → ActionConfig Options → World → Fallible Chart × World
  pub check_chart_type : Chart → World → Fallible (Unit {0}) × World
  pub check_dependencies : Chart → String → ActionConfig Options → World → Fallible Chart × World
  -- `Upgrade.RunWithContext`
  pub run_upgrade : UpgradeConfig Options → String → Chart → World → Fallible (Release Meta) × World
  -- `KubeClient.Build`
  pub build : String → Bool → World → Fallible (List (Info Object Mapping)) × World
  -- `Helper.Get`
  pub helper_get : Info Object Mapping → World → Fallible Object × World
  -- `ResourceList.Get`
  pub resource_get : List (Info Object Mapping) → Info Object Mapping → Option (Info Object Mapping)
  -- whether the client implements `InterfaceThreeWayMerge`, and the two merges
  pub has_three_way : Bool
  pub three_way_merge :
      List (Info Object Mapping)
      → List (Info Object Mapping)
      → Bool
      → World
      → Fallible (Merged Object Mapping) × World
  pub kube_update :
      List (Info Object Mapping)
      → List (Info Object Mapping)
      → Bool
      → World
      → Fallible (Merged Object Mapping) × World
  pub to_rest_mapper : World → Fallible Mapper × World
  pub releases_last : String → World → Fallible (Release Meta) × World
  pub releases_deployed : String → World → Fallible (Release Meta) × World
  pub releases_update : Release Meta → World → Fallible (Unit {0}) × World
  -- `SplitManifests`, in the order in which the loop meets the documents
  pub split_manifests : String → List String
  -- `apiVersion` and `kind` of a document, if its header can be read
  pub read_head : String → Option (String × String)
  -- `ParseGroupVersion`
  pub parse_group_version : String → Option (String × String)
  pub rest_mapping : Mapper → String → String → String → Bool
  pub gvk_string : String → String → String → String
  -- group and version as one text, and the kind
  pub group_version_kind : Object → String × String
  -- the accessor's annotations: no accessor, nil, or a map
  pub get_annotations : Object → Fallible (Option (List (String × String)))
  pub set_annotations : List (String × String) → Object → Object
  -- kind and apiVersion of an `*unstructured.Unstructured`
  pub unstructured_kind : Object → Option (String × String)
  pub nested_string_map : String → Object → Fallible (Option (List (String × String)))
  pub set_nested_map : List (String × String) → String → Object → Object
  pub remove_nested_field : String → Object → Object
  pub base64 : String → String
  pub marshal : Object → Fallible Value
  pub create_merge_patch : Value → Value → Fallible String
