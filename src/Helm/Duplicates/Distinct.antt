-- ===== src/Helm/Duplicates/Distinct.antt =====
-- What the post-renderer lets through.
use mathlib.Core.Path.{subst}
use plumbing.Prelude.{
  String, ◌≡◌, refl, sym, ap, ◌∙◌, false, Option, none, some, List, [], ◌∷◌, str_eq, if◌then◌else◌,
  any, Bool-cases, inl, inr, arith,
}
use plumbing.Helm.Stripped.{Fallible, ok, fail}
use plumbing.Helm.Duplicates.{
  Rendered, Failure, duplicate, Answer, PostRenderer, rendered_resource_key, visit, validate,
  validated, run_chain, chained, with_duplicate_resource_validation,
}

abbrev pub keys_of : List (Option Rendered) → List String
keys_of [] = []
keys_of (none ∷ resources) = keys_of resources
keys_of (some r ∷ resources) = rendered_resource_key r ∷ keys_of resources

-- No key of the list stands in `seen` or twice in the list.
abbrev pub Fresh : List String → List String → Type 0
Fresh seen [] = Unit
Fresh seen (k ∷ keys) = (any (str_eq k) seen ≡ false) × Fresh (k ∷ seen) keys

-- The first key that stands in `seen` or earlier in the list.
abbrev pub first_repeat : List String → List String → Option String
first_repeat seen [] = none
first_repeat seen (k ∷ keys) =
    let rest = first_repeat (k ∷ seen) keys in if any (str_eq k) seen then some k else rest

abbrev pub Verdict : List String → List String → Option Failure → Type 0
Verdict seen keys none = Fresh seen keys
Verdict seen keys (some e) = (k : String) × (e ≡ duplicate k) × (first_repeat seen keys ≡ some k)

Verdict-cons :
    (seen : List String) (k : String) (keys : List String) (e : Option Failure)
    → any (str_eq k) seen ≡ false
    → Verdict (k ∷ seen) keys e
    → Verdict seen (k ∷ keys) e
Verdict-cons seen k keys none new h = (new, h)
Verdict-cons seen k keys (some e) new (k', same_e, h) = (k', same_e, rw new h)

visit-Verdict :
    (seen : List String) (resources : List (Option Rendered))
    → Verdict seen (keys_of resources) (visit seen resources)
unfolding visit
visit-Verdict seen [] = tt
visit-Verdict seen (none ∷ resources) = visit-Verdict seen resources
visit-Verdict seen (some r ∷ resources) =
    elim (Bool-cases (any (str_eq (rendered_resource_key r)) seen)) [
      | inl here ↦ rw here (rendered_resource_key r, refl, rw here)
      | inr new ↦ rw new (
          Verdict-cons seen (rendered_resource_key r) _
            (visit (rendered_resource_key r ∷ seen) resources) new
            (visit-Verdict (rendered_resource_key r ∷ seen) resources))
    ]

last_round :
    (text : String) (e : Option Failure) → chained (some text, e) (run_chain []) ≡ (some text, e)
unfolding run_chain
last_round text none = refl
last_round text (some e) = refl

-- The chain's second round, for what the kube client builds.
accepts_built :
    (text : String) (out : Option String) (built : Fallible (List (Option Rendered)))
    → chained (validated text built) (run_chain []) ≡ (out, none)
    → (resources : List (Option Rendered)) × (out ≡ some text)
      × (built ≡ ok resources)
      × Fresh [] (keys_of resources)
unfolding validated run_chain
accepts_built text out fail h = ground arith
accepts_built text out (ok resources) h =
    let e : (some text, visit [] resources) ≡ (out, none) =
      sym (last_round text (visit [] resources)) ∙ h in
    (
      resources,
      ap (λ p. p.0) (sym e),
      refl,
      subst (Verdict [] (keys_of resources)) (ap (λ p. p.1) e) (visit-Verdict [] resources),
    )

accepts_answer :
    (build : String → Fallible (List (Option Rendered))) (out : Option String) (answer : Answer)
    → chained answer (run_chain (some (validate (some build)) ∷ [])) ≡ (out, none)
    → (text : String) × (resources : List (Option Rendered)) × (out ≡ some text)
      × (answer ≡ (some text, none))
      × (build text ≡ ok resources)
      × Fresh [] (keys_of resources)
unfolding run_chain validate
accepts_answer build out (modified, some e) h = ground arith
accepts_answer build out (none, none) h = ground arith
accepts_answer build out (some text, none) h =
    let (resources, e, built, fresh) = accepts_built text out (build text) h in
    (text, resources, e, refl, built, fresh)

-- After a post-renderer of the caller that gives `text`, for which the kube client builds `resources`,
-- the answer is `text`: without an error if no two resources have the same key, and with the error that
-- names the first key that occurs a second time otherwise.
pub with_duplicate_resource_validation_verdict :
    (renderer : PostRenderer) (build : String → Fallible (List (Option Rendered)))
    (manifest : Option String) (text : String) (resources : List (Option Rendered))
    → renderer manifest ≡ (some text, none)
    → build text ≡ ok resources
    → (error : Option Failure) × (with_duplicate_resource_validation
          (some renderer)
          (some build)
          manifest
        ≡ (some text, error))
      × Verdict [] (keys_of resources) error
unfolding with_duplicate_resource_validation run_chain validate validated
with_duplicate_resource_validation_verdict renderer build manifest text resources rendered built = (
  visit [] resources,
  rw rendered (rw built (last_round text (visit [] resources))),
  visit-Verdict [] resources,
)

-- What an upgrade goes on with when the chain accepts: the text that the caller's post-renderer gave,
-- which the kube client could build, with no two resources of the same key.
pub with_duplicate_resource_validation_accepts :
    (renderer : PostRenderer) (build : String → Fallible (List (Option Rendered)))
    (manifest out : Option String)
    → with_duplicate_resource_validation (some renderer) (some build) manifest ≡ (out, none)
    → (text : String) × (resources : List (Option Rendered)) × (out ≡ some text)
      × (renderer manifest ≡ (some text, none))
      × (build text ≡ ok resources)
      × Fresh [] (keys_of resources)
unfolding with_duplicate_resource_validation run_chain validate validated
with_duplicate_resource_validation_accepts renderer build manifest out accepted =
    accepts_answer build out (renderer manifest) accepted
