-- ===== src/Helm/Duplicates.antt =====
-- helm/v3/postrender_validation.go: the post-renderer that refuses a manifest with duplicate resources.
-- The kube client and the caller's post-renderer are parameters.
mod Distinct
mod Tests
use plumbing.Prelude.{
  String, Bool, true, false, Option, none, some, List, [], ◌∷◌, str_eq, if◌then◌else◌, ◌+++◌, any,
}
use plumbing.Helm.Stripped.{Fallible, ok, fail}

-- What the key of a resource is made of.
pub record Rendered : Type 0 where
  pub group_version : String
  pub kind : String
  pub namespace : String
  pub name : String

pub data Failure : Type 0 where
  renderer_failed build_failed nil_buffer : Failure
  duplicate : String → Failure

-- A buffer, or nil, and an error, or nil.
abbrev pub Answer : Type 0
Answer = Option String × Option Failure

abbrev pub PostRenderer : Type 0
PostRenderer = Option String → Answer

pub rendered_resource_key : Rendered → String
rendered_resource_key r =
    r.group_version +++ "/" +++ r.kind +++ "/" +++ r.namespace +++ "/" +++ r.name

-- The visitor over the resources, where a nil `info` or `info.Object` is passed over.
pub visit : List String → List (Option Rendered) → Option Failure
visit seen [] = none
visit seen (none ∷ resources) = visit seen resources
visit seen (some r ∷ resources) =
    let key = rendered_resource_key r in
    let rest = visit (key ∷ seen) resources in
    if any (str_eq key) seen then some (duplicate key) else rest

validated : String → Fallible (List (Option Rendered)) → Answer
validated manifest fail = (some manifest, some build_failed)
validated manifest (ok resources) = (some manifest, visit [] resources)

-- `duplicateResourceValidator.Run`; `build` is the kube client's, or nil.
pub validate : Option (String → Fallible (List (Option Rendered))) → PostRenderer
unfolding validated
validate none rendered = (rendered, none)
validate (some build) none = (none, none)
validate (some build) (some manifest) = validated manifest (build manifest)

-- One round of the chain, with the rounds that follow.
abbrev pub chained : Answer → (Option String → Answer) → Answer
chained (modified, some e) later = (modified, some e)
chained (none, none) later = (none, some nil_buffer)
chained (some modified, none) later = later (some modified)

-- `postRendererChain.Run`
pub run_chain : List (Option PostRenderer) → PostRenderer
run_chain [] current = (current, none)
run_chain (none ∷ renderers) current = run_chain renderers current
run_chain (some renderer ∷ renderers) current = chained (renderer current) (run_chain renderers)

pub with_duplicate_resource_validation :
    Option PostRenderer → Option (String → Fallible (List (Option Rendered))) → PostRenderer
with_duplicate_resource_validation none build = validate build
with_duplicate_resource_validation (some renderer) build =
    run_chain (some renderer ∷ some (validate build) ∷ [])
