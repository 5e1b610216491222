-- ===== src/Rbac.antt =====
-- kubeutil/rbac/rbac.go: which of several targets the current user may use, by reviews of the apiserver
-- behind a cache. The endpoint of the user, the clock and the two review calls are
-- parameters; each reading of the clock moves on the world, as each review does.
mod Sound
mod Decisions
pub mod Rules
mod Soundness
mod Tests
use plumbing.Prelude.{
  ℕ, suc, zero, String, string_Comparable, Comparable, Bool, true, false, not, ◌||◌, ◌&&◌, Option,
  none, some, List, [], ◌∷◌, ◌++◌, length, ltb, set, any, str_eq, if◌then◌else◌, lookup, insert, ℤ,
  pos, ltb_ℤ, leb_ℤ, get_elem?, ◌≡◌, ◌↔◌, eq_iff, arith,
}
use plumbing.Cache.{TtlCache, clear}
use plumbing.Cache as Cache

pub record UserCanTarget : Type 0 where
  pub verb : String
  pub group : String
  pub resource : String
  pub namespace : String

pub record UserCanCacheKey (Endpoint : Type 0) : Type 0 where
  pub endpoint : Endpoint
  pub target : UserCanTarget

-- `authv1.ResourceRule`
pub record ResourceRule : Type 0 where
  pub resource_names : List String
  pub verbs : List String
  pub api_groups : List String
  pub resources : List String

-- The status of a SelfSubjectRulesReview.
pub record RulesReview : Type 0 where
  pub incomplete : Bool
  pub rules : List ResourceRule

pub string_slice_contains : List String → String → Bool
string_slice_contains [] wanted = false
string_slice_contains (value ∷ values) wanted =
    str_eq value "*" || str_eq value wanted || string_slice_contains values wanted

pub rules_allow_target : List ResourceRule → UserCanTarget → Bool
unfolding string_slice_contains
rules_allow_target [] target = false
rules_allow_target (rule ∷ rules) target =
    let rest = rules_allow_target rules target in
    if ltb 0 (length rule.resource_names)
    then rest
    else if not (string_slice_contains rule.verbs target.verb)
    then rest
    else if not (string_slice_contains rule.api_groups target.group)
    then rest
    else if not (string_slice_contains rule.resources target.resource)
    then rest
    else true

abbrev pub same_target : UserCanTarget → UserCanTarget → Bool
same_target a b =
    str_eq a.verb b.verb
    && str_eq a.group b.group
    && str_eq a.resource b.resource
    && str_eq a.namespace b.namespace

pub same_target_iff : (a b : UserCanTarget) → (same_target a b ≡ true) ↔ (a ≡ b)
same_target_iff a b = ground (
  arith,
  eq_iff a.verb b.verb,
  eq_iff a.group b.group,
  eq_iff a.resource b.resource,
  eq_iff a.namespace b.namespace,
)

instance abbrev pub target_Comparable : Comparable UserCanTarget
target_Comparable = record { equal = same_target; equal_iff = same_target_iff }

module _ {Endpoint : Type 0} ⦃e : Comparable Endpoint⦄ where
  abbrev pub same_key : UserCanCacheKey Endpoint → UserCanCacheKey Endpoint → Bool
  same_key a b = e.equal a.endpoint b.endpoint && same_target a.target b.target

  pub same_key_iff : (a b : UserCanCacheKey Endpoint) → (same_key a b ≡ true) ↔ (a ≡ b)
  same_key_iff a b =
      ground (arith, e.equal_iff a.endpoint b.endpoint, same_target_iff a.target b.target)

  instance abbrev pub key_Comparable : Comparable (UserCanCacheKey Endpoint)
  key_Comparable = record { equal = same_key; equal_iff = same_key_iff }

-- The apiserver as the user's clientset reaches it; a review that fails gives `none`.
pub record Reviewer (Endpoint World : Type 0) : Type 0 where
  pub clock : World → ℤ × World
  pub new_user_clientset : Endpoint → World → Bool × World
  pub rules_review : String → World → Option RulesReview × World
  pub access_review : UserCanTarget → World → Option Bool × World

-- `userCanPendingCheck`; `targets[item.index]` is the target of the key.
pub record PendingCheck (Endpoint : Type 0) : Type 0 where
  pub index : ℕ
  pub key : UserCanCacheKey Endpoint

pub record State (Endpoint World : Type 0) : Type 0 where
  pub cache : TtlCache (UserCanCacheKey Endpoint) Bool
  pub world : World
  pub allowed : List Bool

abbrev pub items_of :
    {Endpoint : Type 0}
    → String
    → List (String × List (PendingCheck Endpoint))
    → List (PendingCheck Endpoint)
items_of namespace grouped = elim (lookup namespace grouped) [ none ↦ [] | some items ↦ items ]

abbrev pub hit_value : Option Bool → Bool
hit_value none = false
hit_value (some b) = b

pub build_user_can_result :
    List UserCanTarget → List Bool → List (UserCanTarget × Bool) → List (UserCanTarget × Bool)
build_user_can_result [] allowed result = result
build_user_can_result (target ∷ targets) [] result = result
build_user_can_result (target ∷ targets) (b ∷ allowed) result =
    build_user_can_result targets allowed (insert target b result)

abbrev pub all_false : List UserCanTarget → List Bool
all_false [] = []
all_false (target ∷ targets) = false ∷ all_false targets

-- `SetCacheTTL`: the new time to live, and the cache, emptied if it is turned off.
pub set_cache_ttl :
    {Endpoint : Type 0} ⦃e : Comparable Endpoint⦄
    → ℤ
    → TtlCache (UserCanCacheKey Endpoint) Bool
    → ℤ × TtlCache (UserCanCacheKey Endpoint) Bool
set_cache_ttl ⦃e⦄ ttl cache = (ttl, if leb_ℤ ttl (pos 0) then clear cache else cache)

module _ {Endpoint World : Type 0} ⦃e : Comparable Endpoint⦄ where
  pub store_cache :
      Reviewer Endpoint World
      → UserCanCacheKey Endpoint
      → Bool
      → ℤ
      → State Endpoint World
      → State Endpoint World
  store_cache api key allowed ttl s =
      if leb_ℤ ttl (pos 0)
      then s
      else let (now, world) = api.clock s.world in
        record s { cache = Cache.set key allowed now ttl s.cache; world = world }

  -- `allowed[item.index] = answer`, and the answer is cached.
  pub decide :
      Reviewer Endpoint World
      → PendingCheck Endpoint
      → Bool
      → ℤ
      → State Endpoint World
      → State Endpoint World
  unfolding store_cache
  decide api item answer ttl s =
      store_cache api item.key answer ttl (record s { allowed = set s.allowed item.index answer })

  abbrev pub reviewed :
      Reviewer Endpoint World
      → PendingCheck Endpoint
      → ℤ
      → Option Bool
      → State Endpoint World
      → State Endpoint World
  reviewed api item ttl none s = s
  reviewed api item ttl (some answer) s = decide api item answer ttl s

  pub resolve_pending_with_access_reviews :
      Reviewer Endpoint World
      → ℤ
      → List (PendingCheck Endpoint)
      → State Endpoint World
      → State Endpoint World
  unfolding decide
  resolve_pending_with_access_reviews api ttl [] s = s
  resolve_pending_with_access_reviews api ttl (item ∷ pending) s =
      let (response, world) = api.access_review item.key.target s.world in
      resolve_pending_with_access_reviews api ttl pending
        (reviewed api item ttl response (record s { world = world }))

  -- The loop over the items of a namespace, with the items left for access reviews.
  pub apply_rules :
      Reviewer Endpoint World
      → ℤ
      → RulesReview
      → List (PendingCheck Endpoint)
      → List (PendingCheck Endpoint)
      → State Endpoint World
      → List (PendingCheck Endpoint) × State Endpoint World
  unfolding decide rules_allow_target store_cache
  apply_rules api ttl review [] fallback s = (fallback, s)
  apply_rules api ttl review (item ∷ items) fallback s =
      if rules_allow_target review.rules item.key.target
      then apply_rules api ttl review items fallback (decide api item true ttl s)
      else if not review.incomplete
      then apply_rules api ttl review items fallback (store_cache api item.key false ttl s)
      else apply_rules api ttl review items (fallback ++ item ∷ []) s

  abbrev pub with_rules :
      Reviewer Endpoint World
      → ℤ
      → List (PendingCheck Endpoint)
      → Option RulesReview
      → State Endpoint World
      → State Endpoint World
  with_rules api ttl items none s = resolve_pending_with_access_reviews api ttl items s
  with_rules api ttl items (some review) s =
      let (fallback, after) = apply_rules api ttl review items [] s in
      resolve_pending_with_access_reviews api ttl fallback after

  pub review_groups :
      Reviewer Endpoint World
      → ℤ
      → List (String × List (PendingCheck Endpoint))
      → State Endpoint World
      → State Endpoint World
  unfolding apply_rules resolve_pending_with_access_reviews
  review_groups api ttl [] s = s
  review_groups api ttl ((namespace, items) ∷ groups) s =
      let (review, world) = api.rules_review namespace s.world in
      review_groups api ttl groups (with_rules api ttl items review (record s { world = world }))

  -- The first loop: a cached answer is taken, every other target is grouped under its namespace.
  pub take_cached :
      Reviewer Endpoint World
      → Endpoint
      → ℤ
      → ℕ
      → List UserCanTarget
      → List (String × List (PendingCheck Endpoint))
      → State Endpoint World
      → List (String × List (PendingCheck Endpoint)) × State Endpoint World
  take_cached api endpoint ttl i [] grouped s = (grouped, s)
  take_cached api endpoint ttl i (target ∷ targets) grouped s =
      let key : UserCanCacheKey Endpoint = record { endpoint = endpoint; target = target } in
      let item : PendingCheck Endpoint = record { index = i; key = key } in
      let more = insert target.namespace (items_of target.namespace grouped ++ item ∷ []) grouped in
      let (now, world) = api.clock s.world in
      let got = Cache.get now key s.cache in
      let after = record s { cache = got.0; world = world } in
      if ltb_ℤ (pos 0) ttl
      then (if got.2
          then take_cached api endpoint ttl (suc i) targets grouped
              (record after { allowed = set s.allowed i (hit_value got.1) })
          else take_cached api endpoint ttl (suc i) targets more after)
      else take_cached api endpoint ttl (suc i) targets more s

  -- The reviews, for what the cache did not answer; without a clientset the others stay denied.
  pub review_pending :
      (List (String × List (PendingCheck Endpoint)) → List (String × List (PendingCheck Endpoint)))
      → Reviewer Endpoint World
      → Endpoint
      → ℤ
      → List (String × List (PendingCheck Endpoint)) × State Endpoint World
      → State Endpoint World
  unfolding review_groups
  review_pending range api endpoint ttl ([], s) = s
  review_pending range api endpoint ttl (g ∷ grouped, s) =
      let (created, world) = api.new_user_clientset endpoint s.world in
      let after = record s { world = world } in
      if created then review_groups api ttl (range (g ∷ grouped)) after else after

  -- `Authorizer.UserCan`, for an authorizer with a cache: `nil` without targets, and an empty map
  -- without an endpoint. `range` is the order in which Go meets the entries of `grouped`.
  pub user_can :
      (List (String × List (PendingCheck Endpoint)) → List (String × List (PendingCheck Endpoint)))
      → Reviewer Endpoint World
      → ℤ
      → Option Endpoint
      → List UserCanTarget
      → TtlCache (UserCanCacheKey Endpoint) Bool
      → World
      → Option (List (UserCanTarget × Bool)) × State Endpoint World
  unfolding take_cached review_pending build_user_can_result
  user_can range api ttl endpoint [] cache world =
      (none, record { cache = cache; world = world; allowed = [] })
  user_can range api ttl none (t ∷ targets) cache world =
      (some [], record { cache = cache; world = world; allowed = [] })
  user_can range api ttl (some endpoint) (t ∷ targets) cache world =
      let s = review_pending range api endpoint ttl (
        take_cached api endpoint ttl 0 (t ∷ targets) []
          (record { cache = cache; world = world; allowed = all_false (t ∷ targets) })) in
      (some (build_user_can_result (t ∷ targets) s.allowed []), s)
