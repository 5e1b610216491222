-- ===== src/EventBus/Registry.antt =====
-- The subscriptions that the bus holds for each event.
use plumbing.Prelude.{
  ℕ, ◌<◌, String, string_Comparable, ◌≡◌, ◌≢◌, refl, sym, ap, ◌∙◌, some, List, [], ◌∷◌, ◌++◌,
  nat_eq, nat_eq_iff, if◌then◌else◌, lookup, lookup-insert, lookup-delete, Distinct, All, arith,
  eq_iff, Option-cases, Bool-cases, inl, inr, str_eq,
}
use plumbing.EventBus.{
  Bus, Subscription, SubscriptionInfo, infos_of, subscribe, without, stored, unsubscribe_from,
  unsubscribe,
}

module _ {Handler : Type 0} where
  abbrev pub Below : ℕ → List (SubscriptionInfo Handler) → Type 0
  Below n infos = All (λ info. info.id < n) infos

  abbrev pub Increasing : List (SubscriptionInfo Handler) → Type 0
  Increasing [] = Unit
  Increasing (info ∷ infos) = All (λ later. info.id < later.id) infos × Increasing infos

  -- All subscriptions but those with the id.
  abbrev pub others : ℕ → List (SubscriptionInfo Handler) → List (SubscriptionInfo Handler)
  others id [] = []
  others id (info ∷ infos) = if nat_eq info.id id then others id infos else info ∷ others id infos

  others_above :
      (id : ℕ) (infos : List (SubscriptionInfo Handler))
      → All (λ later. id < later.id) infos
      → others id infos ≡ infos
  others_above id [] h = refl
  others_above id (info ∷ infos) (above, h) = ground (arith, others_above id infos h)

  pub others-Below :
      (id : ℕ) (infos : List (SubscriptionInfo Handler)) → Below id infos → others id infos ≡ infos
  others-Below id [] h = refl
  others-Below id (info ∷ infos) (below, h) = ground (arith, others-Below id infos h)

  pub others-append :
      (id : ℕ) (xs ys : List (SubscriptionInfo Handler))
      → others id (xs ++ ys) ≡ others id xs ++ others id ys
  others-append id [] ys = refl
  others-append id (info ∷ xs) ys = ground (arith, others-append id xs ys)

  pub without-others :
      (id : ℕ) (infos : List (SubscriptionInfo Handler))
      → Increasing infos
      → without id infos ≡ others id infos
  unfolding without
  without-others id [] h = refl
  without-others id (info ∷ infos) (above, h) = elim (Bool-cases (nat_eq info.id id)) [
    | inl hit ↦
        let same_id : info.id ≡ id = (nat_eq_iff info.id id).0 hit in
        rw hit (sym (others_above info.id infos above) ∙ ap (λ i. others i infos) same_id)
    | inr miss ↦ rw (miss, without-others id infos h)
  ]

module _ {Handler Hook : Type 0} where
  pub record IsOrdered (b : Bus Handler Hook) : Type 0 where
    pub distinct : Distinct b.infos
    pub entry :
        (event_id : String) (infos : List (SubscriptionInfo Handler))
        → lookup event_id b.infos ≡ some infos
        → (infos ≢ []) × Below b.next_id infos × Increasing infos

  pub infos_of-Valid :
      (event_id : String) (b : Bus Handler Hook)
      → IsOrdered b
      → Below b.next_id (infos_of event_id b) × Increasing (infos_of event_id b)
  infos_of-Valid event_id b v = elim (Option-cases (lookup event_id b.infos)) [
    | inl absent ↦ rw (infos_of, absent) (tt, tt)
    | inr (infos, there) ↦
        rw (infos_of, there) ((v.entry event_id infos there).1, (v.entry event_id infos there).2)
  ]

  infos_of-stored :
      (event_id j : String) (infos : List (SubscriptionInfo Handler)) (b : Bus Handler Hook)
      → infos_of j (stored event_id infos b) ≡ (if str_eq event_id j then infos else infos_of j b)
  unfolding stored
  infos_of-stored event_id j [] b = ground (arith, lookup-delete event_id j b.infos)
  infos_of-stored event_id j (info ∷ infos) b =
      ground (arith, lookup-insert event_id j (info ∷ infos) b.infos)

  -- Unsubscribing takes exactly the subscription's id out of its event's list.
  pub unsubscribe-infos_of :
      (sub : Subscription) (event_id : String) (b : Bus Handler Hook)
      → IsOrdered b
      → infos_of event_id (unsubscribe sub b) ≡ (
          if str_eq sub.event_id event_id
          then others sub.id (infos_of event_id b)
          else infos_of event_id b)
  unfolding unsubscribe unsubscribe_from stored
  unsubscribe-infos_of sub event_id b v = elim (Option-cases (lookup sub.event_id b.infos)) [
    | inl absent ↦ rw absent (ground (arith, eq_iff sub.event_id event_id))
    | inr (infos, there) ↦
        rw (there, without-others sub.id infos (v.entry sub.event_id infos there).2)
          (infos_of-stored sub.event_id event_id (others sub.id infos) b
            ∙ ground (arith, there, eq_iff sub.event_id event_id))
  ]

  pub subscribe-infos_of :
      (event_id j : String) (cb : Handler) (b : Bus Handler Hook)
      → (sub : Subscription) × (after : Bus Handler Hook) × (subscribe event_id (some cb) b
          ≡ some (sub, after))
        × (sub ≡ record { event_id = event_id; id = b.next_id })
        × (infos_of j after ≡ (
            if str_eq event_id j
            then infos_of j b ++ record { id = b.next_id; cb = cb } ∷ []
            else infos_of j b))
  unfolding subscribe
  subscribe-infos_of event_id j cb b = (
    _,
    _,
    refl,
    refl,
    ground (
      arith,
      eq_iff event_id j,
      lookup-insert event_id j (infos_of event_id b ++ record { id = b.next_id; cb = cb } ∷ [])
          b.infos,
    ),
  )
