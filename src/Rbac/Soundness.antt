-- ===== src/Rbac/Soundness.antt =====
-- `UserCan` as a whole: no target is allowed that the apiserver does not allow.
use plumbing.Prelude.{
  ℕ, suc, zero, ◌+◌, String, string_Comparable, Comparable, ◌≡◌, ◌⊎◌, inl, inr, refl, sym, ap, ◌∙◌,
  Bool, true, false, Option, none, some, List, [], ◌∷◌, ◌++◌, get_elem?, if◌then◌else◌, lookup,
  insert, lookup-insert, All, Any, All-append, Bool-cases, Option-cases, ℤ, pos, arith, ltb_ℤ,
}
use plumbing.Cache.{TtlCache}
use plumbing.Cache as Cache
use plumbing.Rbac.{
  UserCanTarget, UserCanCacheKey, RulesReview, Reviewer, PendingCheck, State, with_rules,
  review_groups, items_of, take_cached, build_user_can_result, all_false, review_pending, user_can,
  key_Comparable, target_Comparable,
}
use plumbing.Rbac.Rules.{Allows, rules_allow_target-Allows}
use plumbing.Rbac.Sound.{Trusted, get-Trusted, get-Permitted}
use plumbing.Rbac.Decisions.{
  All-insert, All-lookup, Sound, InGroup, All-Fits, apply_rules-Sound, resolve-Sound, moved-Sound,
  marked-set,
}

yes_there : (o : Option Bool) → (elim o [ none ↦ false | some b ↦ b ]) ≡ true → o ≡ some true
yes_there none h = ground (arith, h)
yes_there (some b) h = ap some h

all_false-no :
    (targets : List UserCanTarget) (i : ℕ) → get_elem? (all_false targets) i ≡ some true → ⊥
all_false-no [] i h = ground (arith, h)
all_false-no (target ∷ targets) zero h = ground (arith, h)
all_false-no (target ∷ targets) (suc i) h = all_false-no targets i h

-- A yes in the result stands under the index of its target.
abbrev Marked : List UserCanTarget → List Bool → UserCanTarget → Type 0
Marked targets allowed target =
    (i : ℕ) × (get_elem? targets i ≡ some target) × (get_elem? allowed i ≡ some true)

no_entry : (target : UserCanTarget) → lookup {V = Bool} target [] ≡ some true → ⊥
unfolding lookup
no_entry target h = ground (arith, h)

-- What the result says of a target; no result says no.
abbrev pub says_yes : UserCanTarget → Option (List (UserCanTarget × Bool)) → Bool
says_yes target none = false
says_yes target (some result) = elim (lookup target result) [ none ↦ false | some b ↦ b ]

abbrev pub When : Bool → Type 0 → Type 0
When true P = P
When false P = Unit

When-intro : (b : Bool) (P : Type 0) → (b ≡ true → P) → When b P
When-intro true P h = h refl
When-intro false P h = tt

head_yes :
    (hit b : Bool) (old : Option Bool)
    → (if hit then some b else old) ≡ some true
    → ((hit ≡ true) × (b ≡ true)) ⊎ (old ≡ some true)
head_yes hit b old h = ground (arith, h)

build_user_can_result-Marked :
    (targets : List UserCanTarget) (allowed : List Bool) (result : List (UserCanTarget × Bool))
    (target : UserCanTarget)
    → lookup target (build_user_can_result targets allowed result) ≡ some true
    → Marked targets allowed target ⊎ (lookup target result ≡ some true)
unfolding build_user_can_result
build_user_can_result-Marked [] allowed result target h = inr h
build_user_can_result-Marked (t ∷ targets) [] result target h = inr h
build_user_can_result-Marked (t ∷ targets) (b ∷ allowed) result target h =
    elim (build_user_can_result-Marked targets allowed (insert t b result) target h) [
      | inl (i, found, on) ↦ inl (suc i, found, on)
      | inr old ↦
          elim (head_yes (target_Comparable.equal t target) b _
            (sym (lookup-insert t target b result) ∙ old)) [
              | inl (hit, on) ↦
                  inl (0, ap some ((target_Comparable.equal_iff t target).0 hit), ap some on)
              | inr older ↦ inr older
            ]
    ]

module _ {Endpoint World : Type 0} ⦃e : Comparable Endpoint⦄
    (Permitted : UserCanCacheKey Endpoint → Type 0) (api : Reviewer Endpoint World) (ttl : ℤ)
    (endpoint : Endpoint) where
  abbrev Group : List UserCanTarget → String × List (PendingCheck Endpoint) → Type 0
  Group targets (namespace, items) =
      All (InGroup Permitted api ttl endpoint targets namespace) items

  items_of-InGroup :
      (all : List UserCanTarget) (namespace : String)
      (grouped : List (String × List (PendingCheck Endpoint)))
      → All (Group all) grouped
      → All (InGroup Permitted api ttl endpoint all namespace) (items_of namespace grouped)
  items_of-InGroup all namespace grouped g = elim (Option-cases (lookup namespace grouped)) [
    | inl absent ↦ rw (items_of, absent) tt
    | inr (items, there) ↦
        rw (items_of, there) (All-lookup (Group all) namespace items grouped g there)
  ]

  take_cached-Sound :
      (all : List UserCanTarget) (i : ℕ) (targets : List UserCanTarget)
      (grouped : List (String × List (PendingCheck Endpoint))) (s : State Endpoint World)
      → ((j : ℕ) → get_elem? all (i + j) ≡ get_elem? targets j)
      → All (Group all) grouped
      → Sound Permitted api ttl endpoint all s
      → All (Group all) (take_cached api endpoint ttl i targets grouped s).0
        × Sound Permitted api ttl endpoint all (take_cached api endpoint ttl i targets grouped s).1
  unfolding take_cached
  take_cached-Sound all i [] grouped s at g t = (g, t)
  take_cached-Sound all i (target ∷ targets) grouped s at g t =
      let here : get_elem? all i ≡ some target =
        let z : i + 0 ≡ i = omega arith in ap (get_elem? all) (sym z) ∙ at 0 in
      let later : (j : ℕ) → get_elem? all (suc i + j) ≡ get_elem? targets j =
        λ j. let z : suc i + j ≡ i + suc j = omega arith in ap (get_elem? all) z ∙ at (suc j) in
      let key : UserCanCacheKey Endpoint = record { endpoint = endpoint; target = target } in
      let item : PendingCheck Endpoint = record { index = i; key = key } in
      let old : State Endpoint World = record s {
        cache = (Cache.get (api.clock s.world).0 key s.cache).0;
        world = (api.clock s.world).1;
      } in
      let t' : Sound Permitted api ttl endpoint all old = record {
        trusted = get-Trusted Permitted (api.clock s.world).0 key s.cache t.trusted;
        marked = t.marked;
      } in
      let g' : All (Group all)
          (insert target.namespace (items_of target.namespace grouped ++ item ∷ []) grouped) =
        All-insert (Group all) target.namespace _ grouped
          (All-append _ (items_of target.namespace grouped) _
            (items_of-InGroup all target.namespace grouped g) (((here, refl), refl), tt))
          g in
      elim (Bool-cases (ltb_ℤ (pos 0) ttl)) [
        | inl on ↦ elim (Bool-cases (Cache.get (api.clock s.world).0 key s.cache).2) [
          | inl hit ↦
              rw (on, hit)
                (take_cached-Sound all (suc i) targets grouped _ later g (
                  marked-set Permitted api ttl endpoint all item _ old (here, refl)
                    (get-Permitted Permitted (api.clock s.world).0 key s.cache t.trusted) t'))
          | inr miss ↦ rw (on, miss) (take_cached-Sound all (suc i) targets _ old later g' t')
        ]
        | inr off ↦ rw off (take_cached-Sound all (suc i) targets _ s later g' t)
      ]

  module _
      (access_right : (target : UserCanTarget) (w : World)
        → (api.access_review target w).0 ≡ some true
        → Permitted (record { endpoint = endpoint; target = target }))
      (rules_right : (namespace : String) (w : World) (review : RulesReview)
        → (api.rules_review namespace w).0 ≡ some review
        → (target : UserCanTarget) → target.namespace ≡ namespace
        → Any (Allows target) review.rules
        → Permitted (record { endpoint = endpoint; target = target })) where
    with_rules-Sound :
        (all : List UserCanTarget) (namespace : String) (items : List (PendingCheck Endpoint))
        (review : Option RulesReview) (w : World) (s : State Endpoint World)
        → (api.rules_review namespace w).0 ≡ review
        → All (InGroup Permitted api ttl endpoint all namespace) items
        → Sound Permitted api ttl endpoint all s
        → Sound Permitted api ttl endpoint all (with_rules api ttl items review s)
    with_rules-Sound all namespace items none w s h f t =
        resolve-Sound Permitted api ttl endpoint all access_right items s
          (All-Fits Permitted api ttl endpoint all namespace items f) t
    with_rules-Sound all namespace items (some review) w s h f t =
        let (left, after) =
          apply_rules-Sound Permitted api ttl endpoint all namespace review items [] s
            (λ target here allowed.
              rules_right namespace w review h target here
                (rules_allow_target-Allows review.rules target allowed))
            f tt t in
        resolve-Sound Permitted api ttl endpoint all access_right _ _ left after

    review_groups-Sound :
        (all : List UserCanTarget) (groups : List (String × List (PendingCheck Endpoint)))
        (s : State Endpoint World)
        → All (Group all) groups
        → Sound Permitted api ttl endpoint all s
        → Sound Permitted api ttl endpoint all (review_groups api ttl groups s)
    unfolding review_groups
    review_groups-Sound all [] s f t = t
    review_groups-Sound all ((namespace, items) ∷ groups) s (f, fs) t =
        review_groups-Sound all groups _ fs (
          with_rules-Sound all namespace items _ s.world _ refl f
            (moved-Sound Permitted api ttl endpoint all _ s t))

    module _
        (range : List (String × List (PendingCheck Endpoint))
          → List (String × List (PendingCheck Endpoint)))
        (range_meets : (P : String × List (PendingCheck Endpoint) → Type 0)
            (groups : List (String × List (PendingCheck Endpoint)))
          → All P groups
          → All P (range groups)) where
      review_pending-Sound :
          (all : List UserCanTarget) (grouped : List (String × List (PendingCheck Endpoint)))
          (s : State Endpoint World)
          → All (Group all) grouped
          → Sound Permitted api ttl endpoint all s
          → Sound Permitted api ttl endpoint all
              (review_pending range api endpoint ttl (grouped, s))
      unfolding review_pending
      review_pending-Sound all [] s g t = t
      review_pending-Sound all (group ∷ grouped) s g t =
          let moved =
            moved-Sound Permitted api ttl endpoint all (api.new_user_clientset endpoint s.world).1 s
              t in
          elim (Bool-cases (api.new_user_clientset endpoint s.world).0) [
            | inl created ↦
                rw created (review_groups-Sound all _ _ (range_meets (Group all) _ g) moved)
            | inr refused ↦ rw refused moved
          ]

      pending_state-Sound :
          (all : List UserCanTarget) (cache : TtlCache (UserCanCacheKey Endpoint) Bool)
          (world : World)
          → Trusted Permitted cache
          → Sound Permitted api ttl endpoint all (
              review_pending range api endpoint ttl (
                take_cached api endpoint ttl 0 all []
                  (record { cache = cache; world = world; allowed = all_false all })))
      pending_state-Sound all cache world t =
          let (g, s) =
            take_cached-Sound all 0 all []
              (record { cache = cache; world = world; allowed = all_false all })
              (λ j. let z : 0 + j ≡ j = omega arith in ap (get_elem? all) z) tt
              (record {
                trusted = t;
                marked = λ i target there on. elim (all_false-no all i on) [ ];
              }) in
          review_pending-Sound all _ _ g s

      -- Let what the cache says yes to be permitted, and let the apiserver's reviews be right: a yes of an
      -- access review, and a rule without resource names, of a complete or incomplete rules review,
      -- that lists the verb, the group and the resource of a target of its namespace, each by itself or as
      -- `*`, mean that the user may use the target. Then whatever answers fail, what the cache
      -- says yes to afterwards is permitted, and so is every target that the map of `UserCan` says yes to.
      pub user_can-Permitted :
          (targets : List UserCanTarget) (cache : TtlCache (UserCanCacheKey Endpoint) Bool)
          (world : World) (target : UserCanTarget)
          → Trusted Permitted cache
          → Trusted Permitted (user_can range api ttl (some endpoint) targets cache world).1.cache
            × When
                (says_yes target (user_can range api ttl (some endpoint) targets cache world).0)
                (Permitted (record { endpoint = endpoint; target = target }))
      unfolding user_can
      user_can-Permitted [] cache world target t = (t, tt)
      user_can-Permitted (t ∷ targets) cache world target trusted =
          let s = pending_state-Sound (t ∷ targets) cache world trusted in
          (
            s.trusted,
            When-intro _ _ (λ yes.
                elim (build_user_can_result-Marked (t ∷ targets) _ [] target (yes_there _ yes)) [
                  | inl (i, found, is_yes) ↦ s.marked i target found is_yes
                  | inr old ↦ let bad : ⊥ = no_entry target old in elim bad [ ]
                ]),
          )
