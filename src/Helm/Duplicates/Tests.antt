-- ===== src/Helm/Duplicates/Tests.antt =====
-- The duplicate check on small manifests.
use plumbing.Prelude.{String, ◌≡◌, refl, Option, none, some, List, [], ◌∷◌}
use plumbing.Helm.Stripped.{Fallible, ok}
use plumbing.Helm.Duplicates.{
  Rendered, Failure, duplicate, PostRenderer, rendered_resource_key, visit, validate, validated,
  run_chain, with_duplicate_resource_validation,
}
use plumbing.Helm.Duplicates.Distinct.{
  keys_of, Fresh, Verdict, with_duplicate_resource_validation_verdict,
  with_duplicate_resource_validation_accepts,
}

abbrev config_map : String → Option Rendered
config_map name =
    some (record { group_version = "v1"; kind = "ConfigMap"; namespace = "demo"; name = name })

abbrev two : List (Option Rendered)
two = config_map "a" ∷ none ∷ config_map "b" ∷ []

abbrev build_two : String → Fallible (List (Option Rendered))
build_two _ = ok two

abbrev build_repeat : String → Fallible (List (Option Rendered))
build_repeat _ = ok (config_map "a" ∷ config_map "b" ∷ config_map "a" ∷ [])

abbrev same_text_out : PostRenderer
same_text_out m = (some "rendered", none)

repeat_refused :
    with_duplicate_resource_validation none (some build_repeat) (some "m")
    ≡ (some "m", some (duplicate "v1/ConfigMap/demo/a"))
unfolding with_duplicate_resource_validation validate validated visit rendered_resource_key
repeat_refused = refl

with_duplicate_resource_validation_verdict_example :
    (error : Option Failure) × (with_duplicate_resource_validation
        (some same_text_out)
        (some build_repeat)
        (some "m")
      ≡ (some "rendered", error))
    × Verdict [] (keys_of (config_map "a" ∷ config_map "b" ∷ config_map "a" ∷ [])) error
with_duplicate_resource_validation_verdict_example =
    with_duplicate_resource_validation_verdict same_text_out build_repeat (some "m") "rendered"
      (config_map "a" ∷ config_map "b" ∷ config_map "a" ∷ []) refl refl

accepted :
    with_duplicate_resource_validation (some same_text_out) (some build_two) (some "m")
    ≡ (some "rendered", none)
unfolding with_duplicate_resource_validation run_chain validate validated visit
    rendered_resource_key
accepted = refl

with_duplicate_resource_validation_accepts_example :
    (text : String) × (resources : List (Option Rendered)) × (some "rendered" ≡ some text)
    × (same_text_out (some "m") ≡ (some text, none))
    × (build_two text ≡ ok resources)
    × Fresh [] (keys_of resources)
with_duplicate_resource_validation_accepts_example =
    with_duplicate_resource_validation_accepts same_text_out build_two (some "m") (some "rendered")
      accepted
