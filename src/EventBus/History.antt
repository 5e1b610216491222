-- ===== src/EventBus/History.antt =====
-- The bus after any sequence of calls.
use mathlib.Core.Path.{subst}
use mathlib.Core.List.{append-nil}
use plumbing.Prelude.{
  ℤ, ℕ, ◌+◌, ◌%◌, ◌^◌, ◌<◌, ◌≤◌, String, string_Comparable, ◌≡◌, ◌≢◌, refl, sym, ap, ◌∙◌, Bool,
  true, false, Option, none, some, List, [], ◌∷◌, ◌++◌, nat_eq, length, if◌then◌else◌, lookup,
  insert, delete, lookup-insert, lookup-delete, insert-Distinct, delete-Distinct, All, All-append,
  arith, Option-cases, Bool-cases, inl, inr, str_eq,
}
use plumbing.EventBus.{
  Bus, new_bus, apply_options, with_publish_timeout, with_failure_hook, Subscription,
  SubscriptionInfo, infos_of, subscribe, without, stored, unsubscribe_from, unsubscribe, new_bus,
}
use plumbing.EventBus.Registry.{
  Below, Increasing, others, without-others, others-append, others-Below, unsubscribe-infos_of,
  subscribe-infos_of, IsOrdered, infos_of-Valid,
}

module _ {Handler : Type 0} where
  Below-mono :
      (m n : ℕ) (infos : List (SubscriptionInfo Handler)) → m ≤ n → Below m infos → Below n infos
  Below-mono m n [] le h = tt
  Below-mono m n (info ∷ infos) le (below, h) = (omega arith, Below-mono m n infos le h)

  Increasing-append :
      (n : ℕ) (cb : Handler) (infos : List (SubscriptionInfo Handler))
      → Below n infos
      → Increasing infos
      → Increasing (infos ++ record { id = n; cb = cb } ∷ [])
  Increasing-append n cb [] b h = (tt, tt)
  Increasing-append n cb (info ∷ infos) (below, b) (above, h) =
      (All-append _ infos _ above (below, tt), Increasing-append n cb infos b h)

  All-others :
      (P : SubscriptionInfo Handler → Type 0) (id : ℕ) (infos : List (SubscriptionInfo Handler))
      → All P infos
      → All P (others id infos)
  All-others P id [] h = tt
  All-others P id (info ∷ infos) (p, h) = elim (Bool-cases (nat_eq info.id id)) [
    | inl hit ↦ rw hit (All-others P id infos h)
    | inr miss ↦ rw miss (p, All-others P id infos h)
  ]

  Increasing-others :
      (id : ℕ) (infos : List (SubscriptionInfo Handler))
      → Increasing infos
      → Increasing (others id infos)
  Increasing-others id [] h = tt
  Increasing-others id (info ∷ infos) (above, h) = elim (Bool-cases (nat_eq info.id id)) [
    | inl hit ↦ rw hit (Increasing-others id infos h)
    | inr miss ↦ rw miss (All-others _ id infos above, Increasing-others id infos h)
  ]

  append≢[] :
      (infos : List (SubscriptionInfo Handler)) (info : SubscriptionInfo Handler)
      → infos ++ info ∷ [] ≢ []
  append≢[] [] info h = ground (arith, h)
  append≢[] (i ∷ infos) info h = ground (arith, h)

-- Whatever holds of every entry of a map holds after a write, and after a deletion.
module _ {V : Type 0} (P : V → Type 0) where
  Entries : List (String × V) → Type 0
  Entries m = (k : String) (v : V) → lookup k m ≡ some v → P v

  got : (v w : V) → some v ≡ some w → P v → P w
  got v w e p = subst P (ap (λ o. elim o [ none ↦ v | some u ↦ u ]) e) p

  Entries-insert :
      (k : String) (v : V) (m : List (String × V)) → P v → Entries m → Entries (insert k v m)
  unfolding Entries
  Entries-insert k v m p h j w there =
      let e : (if str_eq k j then some v else lookup j m) ≡ some w =
        sym (lookup-insert k j v m) ∙ there in
      elim (Bool-cases (str_eq k j)) [
        | inl hit ↦ got v w (ground (arith, e, hit)) p
        | inr miss ↦ h j w (ground (arith, e, miss))
      ]

  Entries-delete : (k : String) (m : List (String × V)) → Entries m → Entries (delete k m)
  unfolding Entries
  Entries-delete k m h j w there =
      let e : (if str_eq k j then none else lookup j m) ≡ some w =
        sym (lookup-delete k j m) ∙ there in
      h j w (ground (arith, e))

module _ {Handler : Type 0} where
  abbrev Entry : ℕ → List (SubscriptionInfo Handler) → Type 0
  Entry n infos = (infos ≢ []) × Below n infos × Increasing infos

module _ {Handler Hook : Type 0} where
  abbrev subscribed : String → Handler → Bus Handler Hook → Bus Handler Hook
  subscribed event_id cb b = elim (subscribe event_id (some cb) b) [
    | none ↦ b
    | some (sub, after) ↦ after
  ]

  subscribed-Valid :
      (event_id : String) (cb : Handler) (b : Bus Handler Hook)
      → b.next_id + 1 < 2 ^ 64
      → IsOrdered b
      → IsOrdered (subscribed event_id cb b)
  unfolding subscribe Entries
  subscribed-Valid event_id cb b room v =
      let (below, above) = infos_of-Valid event_id b v in
      let bound : (b.next_id + 1) % 2 ^ 64 ≡ b.next_id + 1 = omega arith in
      record {
        distinct = insert-Distinct event_id _ b.infos v.distinct;
        entry = rw bound (
            Entries-insert (Entry (b.next_id + 1)) event_id _ b.infos
              (
                append≢[] _ _,
                All-append _ (infos_of event_id b) _ (Below-mono _ _ _ (omega arith) below)
                    (omega arith, tt),
                Increasing-append _ cb _ below above,
              )
              (λ j infos there.
                let (some_sub, low, up) = v.entry j infos there in
                (some_sub, Below-mono _ _ _ (omega arith) low, up)));
      }

  stored-Valid :
      (event_id : String) (infos : List (SubscriptionInfo Handler)) (b : Bus Handler Hook)
      → Below b.next_id infos
      → Increasing infos
      → IsOrdered b
      → IsOrdered (stored event_id infos b)
  unfolding stored Entries
  stored-Valid event_id [] b low up v = record {
    distinct = delete-Distinct event_id b.infos v.distinct;
    entry = Entries-delete (Entry b.next_id) event_id b.infos v.entry;
  }
  stored-Valid event_id (info ∷ infos) b low up v = record {
    distinct = insert-Distinct event_id _ b.infos v.distinct;
    entry =
        Entries-insert (Entry b.next_id) event_id _ b.infos ((λ h. ground (arith, h)), low, up)
          v.entry;
  }

  unsubscribe-Valid :
      (sub : Subscription) (b : Bus Handler Hook) → IsOrdered b → IsOrdered (unsubscribe sub b)
  unfolding unsubscribe unsubscribe_from
  unsubscribe-Valid sub b v = elim (Option-cases (lookup sub.event_id b.infos)) [
    | inl absent ↦ rw absent v
    | inr (infos, there) ↦
        let (some_sub, low, up) = v.entry sub.event_id infos there in
        rw (there, without-others sub.id infos up)
          (stored-Valid sub.event_id (others sub.id infos) b (All-others _ sub.id infos low)
            (Increasing-others sub.id infos up) v)
  ]

  stored-next_id :
      (event_id : String) (infos : List (SubscriptionInfo Handler)) (b : Bus Handler Hook)
      → (stored event_id infos b).next_id ≡ b.next_id
  unfolding stored
  stored-next_id event_id [] b = refl
  stored-next_id event_id (info ∷ infos) b = refl

  unsubscribe-next_id :
      (sub : Subscription) (b : Bus Handler Hook) → (unsubscribe sub b).next_id ≡ b.next_id
  unfolding unsubscribe unsubscribe_from
  unsubscribe-next_id sub b = elim (Option-cases (lookup sub.event_id b.infos)) [
    | inl absent ↦ rw absent
    | inr (infos, there) ↦ rw there (stored-next_id sub.event_id (without sub.id infos) b)
  ]

  -- On a bus whose entries are in order and whose counter is not at its limit, giving back the ticket of
  -- a subscription right after it was made leaves the subscriptions of every event as they were.
  pub unsubscribe-subscribe :
      (event_id j : String) (cb : Handler) (b : Bus Handler Hook)
      → b.next_id + 1 < 2 ^ 64
      → IsOrdered b
      → (sub : Subscription) × (after : Bus Handler Hook) × (subscribe event_id (some cb) b
          ≡ some (sub, after))
        × (infos_of j (unsubscribe sub after) ≡ infos_of j b)
  unsubscribe-subscribe event_id j cb b room v =
      let (sub, after, done, made, there) = subscribe-infos_of event_id j cb b in
      let valid : IsOrdered after =
        subst (λ o. IsOrdered (elim o [ none ↦ b | some (s, a) ↦ a ])) done
          (subscribed-Valid event_id cb b room v) in
      (
        sub,
        after,
        done,
        unsubscribe-infos_of sub j after valid ∙ rw (made, there) (settled (str_eq event_id j)),
      )
    where
      new : List (SubscriptionInfo Handler)
      new = record { id = b.next_id; cb = cb } ∷ []

      gone : others b.next_id (infos_of j b ++ new) ≡ infos_of j b
      gone =
          others-append b.next_id (infos_of j b) new
          ∙ rw (others-Below b.next_id (infos_of j b) (infos_of-Valid j b v).0)
              (ground (arith, append-nil (infos_of j b)))

      settled :
          (hit : Bool)
          → (if hit
              then others b.next_id (if hit then infos_of j b ++ new else infos_of j b)
              else (if hit then infos_of j b ++ new else infos_of j b))
            ≡ infos_of j b
      settled true = gone
      settled false = refl

-- The calls that change the bus.
pub data Call (Handler : Type 0) : Type 0 where
  subscribe_call : String → Option Handler → Call Handler
  unsubscribe_call : Subscription → Call Handler

module _ {Handler Hook : Type 0} where
  -- `none` where a call panics.
  unfoldable pub run : List (Call Handler) → Bus Handler Hook → Option (Bus Handler Hook)
  run [] b = some b
  run (subscribe_call event_id cb ∷ calls) b = elim (subscribe event_id cb b) [
    | none ↦ none
    | some (sub, after) ↦ run calls after
  ]
  run (unsubscribe_call sub ∷ calls) b = run calls (unsubscribe sub b)

  run-Valid :
      (calls : List (Call Handler)) (b after : Bus Handler Hook)
      → b.next_id + length calls < 2 ^ 64
      → IsOrdered b
      → run calls b ≡ some after
      → IsOrdered after
  unfolding run subscribe
  run-Valid [] b after room v e = subst IsOrdered (ap (λ o. elim o [ none ↦ b | some c ↦ c ]) e) v
  run-Valid (subscribe_call event_id none ∷ calls) b after room v e = ground (arith, e)
  run-Valid (subscribe_call event_id (some cb) ∷ calls) b after room v e =
      run-Valid calls _ after (omega arith) (subscribed-Valid event_id cb b (omega arith) v) e
  run-Valid (unsubscribe_call sub ∷ calls) b after room v e =
      run-Valid calls (unsubscribe sub b) after (omega (arith, unsubscribe-next_id sub b))
        (unsubscribe-Valid sub b v) e

  -- After any sequence of fewer than 2 ^ 64 calls of `Subscribe` and `Unsubscribe` on a new bus, none of
  -- which panics, every event is listed once, with at least one subscription, and the ids of its
  -- subscriptions increase strictly and are below the next id.
  pub run-IsOrdered :
      (timeout : ℤ) (hook : Option Hook) (calls : List (Call Handler)) (after : Bus Handler Hook)
      → length calls < 2 ^ 64
      → run calls
          (new_bus (some (with_publish_timeout timeout) ∷ some (with_failure_hook hook) ∷ []))
        ≡ some after
      → IsOrdered after
  unfolding new_bus apply_options with_publish_timeout with_failure_hook lookup
  run-IsOrdered timeout hook calls after room e =
      run-Valid calls _ after (omega arith)
        (record {
          distinct = tt;
          entry = λ j infos h. let bad : ⊥ = ground (arith, h) in elim bad [ ];
        })
        e
