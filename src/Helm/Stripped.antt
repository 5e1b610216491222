-- ===== src/Helm/Stripped.antt =====
-- helm/v3/reconcile.go, step 6: the content of an object without the fields that change on every
-- write, and the comparison of an object before and after the merge.
-- `encoding/json` is taken as the reading of the object as a value; the JSON of an object and the
-- merge patch (evanphx/json-patch) are parameters.
pub mod Laws
pub mod Changes
use plumbing.Prelude.{
  String, Bool, true, false, not, Option, none, some, List, [], ◌∷◌, ◌||◌, str_eq, if◌then◌else◌,
}
use plumbing.Json.{Value, Fields, null, obj, get_field, set_field, delete_field, delete_all}

-- An operation that may return an error.
pub data Fallible {ℓ} (A : Type ℓ) : Type ℓ where
  ok : A → Fallible A
  fail : Fallible A

infixl 5 ◌>>=◌
abbrev pub ◌>>=◌ {ℓ κ} : {A : Type ℓ} {B : Type κ} → Fallible A → (A → Fallible B) → Fallible B
ok a >>= f = f a
fail >>= f = fail

abbrev pub volatile_keys : List String
volatile_keys =
    "resourceVersion" ∷ "generation" ∷ "uid" ∷ "creationTimestamp" ∷ "managedFields" ∷ "selfLink"
    ∷ []

abbrev pub owned_annotations : List String
owned_annotations =
    "meta.helm.sh/release-name" ∷ "meta.helm.sh/release-namespace"
    ∷ "kubectl.kubernetes.io/last-applied-configuration" ∷ []

abbrev pub owned_labels : List String
owned_labels = "app.kubernetes.io/managed-by" ∷ []

-- `if x, ok := m[k].(map[string]interface{}); ok { ... }`, where the body changes `x` in place
edit_found : String → (Fields → Fields) → Option Value → Fields → Fields
edit_found k f (some (obj a)) m = set_field k (obj (f a)) m
edit_found k f _ m = m

pub edit_object : String → (Fields → Fields) → Fields → Fields
unfolding edit_found
edit_object k f m = edit_found k f (get_field k m) m

pub strip_metadata : Fields → Fields
strip_metadata md =
    edit_object "labels" (delete_all owned_labels)
      (edit_object "annotations" (delete_all owned_annotations) (delete_all volatile_keys md))

pub strip_fields : Fields → Fields
strip_fields m = edit_object "metadata" strip_metadata (delete_field "status" m)

-- Decoding into a map takes an object or null.
pub strip_value : Value → Fallible Value
strip_value (obj m) = ok (obj (strip_fields m))
strip_value null = ok null
strip_value _ = fail

module _ {Object : Type 0} (marshal : Object → Fallible Value) where
  pub stripped_json : Object → Fallible Value
  stripped_json o = do raw ← marshal o; strip_value raw

  module _ {Patch : Type 0} (create_merge_patch : Value → Value → Fallible Patch)
      (is_empty_patch : Patch → Bool) where
    pub semantically_changed : Object → Object → Fallible Bool
    unfolding stripped_json
    semantically_changed before after = do
      before_json ← stripped_json before
      after_json ← stripped_json after
      patch ← create_merge_patch before_json after_json
      ok (not (is_empty_patch patch))
