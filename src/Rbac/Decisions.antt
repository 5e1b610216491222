-- ===== src/Rbac/Decisions.antt =====
-- A call of `UserCan` says yes only to what a review, or the cache, says yes to.
use plumbing.Prelude.{
  ℕ, str_eq, String, string_Comparable, Comparable, ◌≡◌, inl, inr, refl, sym, ap, ◌∙◌, Bool, true,
  false, Option, none, some, List, [], ◌∷◌, set, get_elem?, lookup, insert, All, All-append,
  Bool-cases, ℤ, pos, arith, leb_ℤ, eq_iff,
}
use mathlib.Core.Path.{subst}
use plumbing.Rbac.{
  UserCanTarget, UserCanCacheKey, RulesReview, Reviewer, PendingCheck, State, rules_allow_target,
  store_cache, decide, reviewed, resolve_pending_with_access_reviews, apply_rules, key_Comparable,
  target_Comparable,
}
use plumbing.Rbac.Sound.{Trusted, set-Trusted, set-get_elem?}

-- What holds of every entry of a map holds after a write, and of an entry that is found.
module _ {V : Type 0} (P : String × V → Type 0) where
  pub All-insert :
      (k : String) (v : V) (m : List (String × V)) → P (k, v) → All P m → All P (insert k v m)
  unfolding insert
  All-insert k v [] p h = (p, tt)
  All-insert k v ((j, w) ∷ m) p (q, h) = elim (Bool-cases (str_eq j k)) [
    | inl hit ↦ rw hit (p, h)
    | inr miss ↦ rw miss (q, All-insert k v m p h)
  ]

  pub All-lookup :
      (k : String) (v : V) (m : List (String × V)) → All P m → lookup k m ≡ some v → P (k, v)
  unfolding lookup
  All-lookup k v [] h e = let bad : ⊥ = ground (arith, e) in elim bad [ ]
  All-lookup k v ((j, w) ∷ m) (q, h) e = elim (Bool-cases (str_eq j k)) [
    | inl hit ↦
        let found : w ≡ v = ground (arith, e, hit) in
        let same_key : j ≡ k = (eq_iff j k).0 hit in
        subst P (ap (λ x. (x, v)) same_key) (subst (λ x. P (j, x)) found q)
    | inr miss ↦ All-lookup k v m h (ground (arith, e, miss))
  ]

module _ {Endpoint World : Type 0} ⦃e : Comparable Endpoint⦄
    (Permitted : UserCanCacheKey Endpoint → Type 0) (api : Reviewer Endpoint World) (ttl : ℤ)
    (endpoint : Endpoint) (targets : List UserCanTarget) where
  abbrev pub key_of : UserCanTarget → UserCanCacheKey Endpoint
  key_of target = record { endpoint = endpoint; target = target }

  pub record Sound (s : State Endpoint World) : Type 0 where
    pub trusted : Trusted Permitted s.cache
    pub marked :
        (i : ℕ) (target : UserCanTarget)
        → get_elem? targets i ≡ some target
        → get_elem? s.allowed i ≡ some true
        → Permitted (key_of target)

  -- The key of a pending check is that of the target with its index.
  abbrev pub Fits : PendingCheck Endpoint → Type 0
  Fits item =
      (get_elem? targets item.index ≡ some item.key.target) × (item.key ≡ key_of item.key.target)

  store_cache-Sound :
      (key : UserCanCacheKey Endpoint) (v : Bool) (s : State Endpoint World)
      → (v ≡ true → Permitted key)
      → Sound s
      → Sound (store_cache api key v ttl s)
  unfolding store_cache
  store_cache-Sound key v s h t = elim (Bool-cases (leb_ℤ ttl (pos 0))) [
    | inl off ↦ rw off t
    | inr on ↦ rw on (record {
      trusted = set-Trusted Permitted key v _ ttl s.cache h t.trusted;
      marked = t.marked;
    })
  ]

  pub marked-set :
      (item : PendingCheck Endpoint) (v : Bool) (s : State Endpoint World)
      → Fits item
      → (v ≡ true → Permitted item.key)
      → Sound s
      → Sound (record s { allowed = set s.allowed item.index v })
  marked-set item v s (found, same_key) h t = record {
    trusted = t.trusted;
    marked = λ i target there on. elim (set-get_elem? s.allowed item.index i v on) [
      | inl (same_index, is_yes) ↦
          let found' : get_elem? targets item.index ≡ some target =
            ap (get_elem? targets) same_index ∙ there in
          let same_target : item.key.target ≡ target = ground (arith, found, found') in
          subst Permitted (same_key ∙ ap key_of same_target) (h is_yes)
      | inr old ↦ t.marked i target there old
    ];
  }

  decide-Sound :
      (item : PendingCheck Endpoint) (v : Bool) (s : State Endpoint World)
      → Fits item
      → (v ≡ true → Permitted item.key)
      → Sound s
      → Sound (decide api item v ttl s)
  unfolding decide
  decide-Sound item v s f h t = store_cache-Sound item.key v _ h (marked-set item v s f h t)

  pub moved-Sound :
      (world : World) (s : State Endpoint World) → Sound s → Sound (record s { world = world })
  moved-Sound world s t = record { trusted = t.trusted; marked = t.marked }

  module _
      (access_right : (target : UserCanTarget) (w : World)
        → (api.access_review target w).0 ≡ some true
        → Permitted (key_of target)) where
    reviewed-Sound :
        (item : PendingCheck Endpoint) (answer : Option Bool) (w : World) (s : State Endpoint World)
        → (api.access_review item.key.target w).0 ≡ answer
        → Fits item
        → Sound s
        → Sound (reviewed api item ttl answer s)
    reviewed-Sound item none w s h f t = t
    reviewed-Sound item (some v) w s h f t =
        decide-Sound item v s f
          (λ is_yes.
            subst Permitted (sym f.1) (access_right item.key.target w (h ∙ ap some is_yes)))
          t

    pub resolve-Sound :
        (items : List (PendingCheck Endpoint)) (s : State Endpoint World)
        → All Fits items
        → Sound s
        → Sound (resolve_pending_with_access_reviews api ttl items s)
    unfolding resolve_pending_with_access_reviews
    resolve-Sound [] s f t = t
    resolve-Sound (item ∷ items) s (f, fs) t =
        resolve-Sound items _ fs (reviewed-Sound item _ s.world _ refl f (moved-Sound _ s t))

  abbrev pub InGroup : String → PendingCheck Endpoint → Type 0
  InGroup namespace item = Fits item × (item.key.target.namespace ≡ namespace)

  pub All-Fits :
      (namespace : String) (items : List (PendingCheck Endpoint))
      → All (InGroup namespace) items
      → All Fits items
  All-Fits namespace [] h = tt
  All-Fits namespace (item ∷ items) (h, hs) = (h.0, All-Fits namespace items hs)

  pub apply_rules-Sound :
      (namespace : String) (review : RulesReview) (items fallback : List (PendingCheck Endpoint))
      (s : State Endpoint World)
      → ((target : UserCanTarget)
          → target.namespace ≡ namespace
          → rules_allow_target review.rules target ≡ true
          → Permitted (key_of target))
      → All (InGroup namespace) items
      → All Fits fallback
      → Sound s
      → All Fits (apply_rules api ttl review items fallback s).0
        × Sound (apply_rules api ttl review items fallback s).1
  unfolding apply_rules
  apply_rules-Sound namespace review [] fallback s right f g t = (g, t)
  apply_rules-Sound namespace review (item ∷ items) fallback s right ((f, here), fs) g t =
      elim (Bool-cases (rules_allow_target review.rules item.key.target)) [
        | inl yes_rule ↦ rw yes_rule (
            apply_rules-Sound namespace review items fallback _ right fs g (
              decide-Sound item true s f
                (λ _. subst Permitted (sym f.1) (right item.key.target here yes_rule)) t))
        | inr no_rule ↦ elim (Bool-cases review.incomplete) [
          | inl partial ↦
              rw (no_rule, partial)
                (apply_rules-Sound namespace review items _ s right fs
                  (All-append _ fallback _ g (f, tt)) t)
          | inr complete ↦
              rw (no_rule, complete)
                (apply_rules-Sound namespace review items fallback _ right fs g (
                  store_cache-Sound item.key false s
                    (λ h. let bad : ⊥ = ground (arith, h) in elim bad [ ]) t))
        ]
      ]
