-- ===== src/Helm/Manifest.antt =====
-- helm/v3/reconcile.go, step 1.5: the stored manifest is repaired against the kinds that the cluster
-- no longer serves.
use plumbing.Prelude.{
  String, Bool, false, Option, none, some, List, [], ◌∷◌, ◌++◌, str_eq, codes, is_space, all, join,
  if◌then◌else◌, ◌||◌,
}
use plumbing.Helm.Api.{Cluster, UpgradeConfig, Release, read, manifest_repaired}
use plumbing.Helm.Run.{Outcome, done, stopped, repairing_manifest, pure, call, attempt, ◌>>=◌, ◌>>◌}
use plumbing.Helm.Client.{Act, action_of}

-- What the loop of `filterUnmappableManifestDocs` does with a document.
pub data Verdict : Type 0 where
  skip keep : Verdict
  drop : String → Verdict

abbrev pub keeps : String → Verdict → List String → List String
keeps doc keep kept = kept ++ doc ∷ []
keeps doc _ kept = kept

abbrev pub drops : Verdict → List String → List String
drops (drop gvk) dropped = dropped ++ gvk ∷ []
drops _ dropped = dropped

abbrev pub separator : String
separator = "\n---\n"

module _ (c : Cluster) where
  open c use {
    Options, Meta, Mapper, init_config, to_rest_mapper, releases_last, releases_deployed,
    releases_update, split_manifests, read_head, parse_group_version, rest_mapping, gvk_string,
  }

  version_verdict : Mapper → String → Option (String × String) → Verdict
  version_verdict mapper kind none = keep
  version_verdict mapper kind (some (group, version)) =
      if rest_mapping mapper group kind version then keep else drop (gvk_string group version kind)

  head_verdict : Mapper → Option (String × String) → Verdict
  unfolding version_verdict
  head_verdict mapper none = keep
  head_verdict mapper (some (api_version, kind)) =
      if str_eq kind "" || str_eq api_version ""
      then keep
      else version_verdict mapper kind (parse_group_version api_version)

  -- A blank document is passed over, and one whose header cannot be read is kept.
  unfoldable pub verdict : Mapper → String → Verdict
  unfolding head_verdict is_space
  verdict mapper doc =
      if all is_space (codes doc) then skip else head_verdict mapper (read_head doc)

  unfoldable pub filter_docs :
      Mapper → List String → List String → List String → List String × List String
  filter_docs mapper [] kept dropped = (kept, dropped)
  filter_docs mapper (doc ∷ docs) kept dropped =
      let v = verdict mapper doc in filter_docs mapper docs (keeps doc v kept) (drops v dropped)

  abbrev rejoin : String → List String × List String → String × List String
  rejoin manifest (kept, []) = (manifest, [])
  rejoin manifest (kept, d ∷ dropped) = (join separator kept, d ∷ dropped)

  unfoldable pub filter_unmappable_manifest_docs : String → Mapper → String × List String
  unfolding filter_docs join
  filter_unmappable_manifest_docs manifest mapper =
      rejoin manifest (filter_docs mapper (split_manifests manifest) [] [])

  pub is_deployed : Option String → Bool
  is_deployed none = false
  is_deployed (some status) = str_eq status "deployed"

  pub deployed_or : Release Meta → Outcome (Release Meta) → Release Meta
  deployed_or last (done dep) = dep
  deployed_or last (stopped _) = last

  -- The last deployed revision is asked for only if the last one is not deployed.
  unfoldable pub select_current_for_build :
      Release Meta → Act c (Release Meta) → Act c (Release Meta)
  unfolding is_deployed deployed_or
  select_current_for_build last deployed =
      if is_deployed last.status then pure last else attempt deployed (deployed_or last)

  -- The manifest to go on with: the given one, or the repaired one, which is stored first.
  unfoldable pub persist : String → Release Meta → String × List String → Act c String
  persist manifest rel (repaired, []) = pure manifest
  persist manifest rel (repaired, _ ∷ _) = do
    call repairing_manifest manifest_repaired (releases_update (record rel { manifest = repaired }))
    pure repaired

  unfoldable pub drop_unserved_from_stored_manifest :
      UpgradeConfig Options → String → String → Act c String
  unfolding persist
  drop_unserved_from_stored_manifest cfg name manifest = do
    call repairing_manifest read (init_config (some (action_of c cfg)))
    mapper ← call repairing_manifest read to_rest_mapper
    last ← call repairing_manifest read (releases_last name)
    rel ← select_current_for_build last (call repairing_manifest read (releases_deployed name))
    persist manifest rel (filter_unmappable_manifest_docs rel.manifest mapper)
