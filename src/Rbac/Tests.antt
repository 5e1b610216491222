-- ===== src/Rbac/Tests.antt =====
-- An authorizer whose user may get pods, and no more.
use mathlib.Core.Path.{subst}
use plumbing.Rbac.Rules.{Allows}
use plumbing.Prelude.{
  Any, sym, String, string_Comparable, ◌≡◌, refl, ap, Bool, true, false, none, some, [], ◌∷◌, pos,
  lookup, insert, arith,
}
use plumbing.Cache.{TtlCache}
use plumbing.Rbac.{
  UserCanTarget, UserCanCacheKey, RulesReview, Reviewer, rules_allow_target, string_slice_contains,
  user_can, take_cached, build_user_can_result, review_pending, review_groups, apply_rules, decide,
  store_cache, resolve_pending_with_access_reviews, key_Comparable, target_Comparable,
}
use plumbing.Rbac.Sound.{Trusted}
use plumbing.Rbac.Soundness.{says_yes, When, user_can-Permitted}

abbrev pods : String → UserCanTarget
pods verb = record { verb = verb; group = ""; resource = "pods"; namespace = "demo" }

abbrev get_pods : RulesReview
get_pods = record {
  incomplete = false;
  rules =
      record {
        resource_names = [];
        verbs = "get" ∷ [];
        api_groups = "" ∷ [];
        resources = "pods" ∷ [];
      }
      ∷ [];
}

abbrev api : Reviewer String (Unit {0})
api = record {
  clock = λ w. (pos 0, w);
  new_user_clientset = λ endpoint w. (true, w);
  rules_review = λ namespace w. (some get_pods, w);
  access_review = λ target w. (some false, w);
}

abbrev MayGetPods : UserCanCacheKey String → Type 0
MayGetPods key = Any (Allows key.target) get_pods.rules

abbrev no_cache : TtlCache (UserCanCacheKey String) Bool
no_cache = record {
  items = [];
  order = [];
  next = 0;
  max_entries = 0;
  janitor = false;
  stopped = false;
}

both :
    (user_can
      (λ groups. groups)
      api
      (pos 0)
      (some "user")
      (pods "get" ∷ pods "delete" ∷ [])
      no_cache
      tt).0
    ≡ some ((pods "get", true) ∷ (pods "delete", false) ∷ [])
unfolding user_can take_cached build_user_can_result review_pending review_groups apply_rules decide
    store_cache resolve_pending_with_access_reviews rules_allow_target string_slice_contains insert
    lookup
both = refl

no_cache-Trusted : Trusted MayGetPods no_cache
unfolding lookup
no_cache-Trusted = record {
  valid = record {
    linked = record {
      items_distinct = tt;
      order_distinct = tt;
      forward = λ k i p. let bad : ⊥ = ground (arith, p) in elim bad [ ];
      backward = λ n k p. let bad : ⊥ = ground (arith, p) in elim bad [ ];
      fresh = λ n k p. ground (arith, p);
    };
    bounded = λ h. omega arith;
  };
  yes = λ key x there. let bad : ⊥ = ground (arith, there) in elim bad [ ];
}

access_right :
    (target : UserCanTarget) (w : Unit {0})
    → (api.access_review target w).0 ≡ some true
    → MayGetPods (record { endpoint = "user"; target = target })
access_right target w h = let bad : ⊥ = ground (arith, h) in elim bad [ ]

rules_right :
    (namespace : String) (w : Unit {0}) (review : RulesReview)
    → (api.rules_review namespace w).0 ≡ some review
    → (target : UserCanTarget) → target.namespace ≡ namespace
    → Any (Allows target) review.rules
    → MayGetPods (record { endpoint = "user"; target = target })
rules_right namespace w review h target here allowed =
    let same_rules : review.rules ≡ get_pods.rules =
      ap (λ o. elim o [ none ↦ [] | some r ↦ r.rules ]) (sym h) in
    subst (Any (Allows target)) same_rules allowed

user_can-Permitted_example :
    Trusted MayGetPods
      (user_can
        (λ groups. groups)
        api
        (pos 0)
        (some "user")
        (pods "get" ∷ pods "delete" ∷ [])
        no_cache
        tt).1.cache
    × When
        (says_yes
          (pods "get")
          (user_can
            (λ groups. groups)
            api
            (pos 0)
            (some "user")
            (pods "get" ∷ pods "delete" ∷ [])
            no_cache
            tt).0)
        (MayGetPods (record { endpoint = "user"; target = pods "get" }))
user_can-Permitted_example =
    user_can-Permitted MayGetPods api (pos 0) "user" access_right rules_right (λ groups. groups)
      (λ P groups h. h) (pods "get" ∷ pods "delete" ∷ []) no_cache tt (pods "get") no_cache-Trusted
