-- ===== src/Helm/Reconcile/Adoption.antt =====
-- Which resources step 4.7 of a reconcile adds to the tracked ones.
use plumbing.Prelude.{
  true, false, ◌≡◌, refl, sym, ◌⊎◌, inl, inr, none, some, List, [], ◌∷◌, ◌++◌, All, Bool-cases,
  Option-cases, if◌then◌else◌,
}
use mathlib.Core.List.{append-nil, append_assoc}
use plumbing.Helm.Api.{Cluster}
use plumbing.Helm.Reconcile.{Snapshot, Resource, info_key, is_absent, adopt, adopt_missing}

-- Some of a list, in its order.
pub data Sublist {A : Type 0} : List A → List A → Type 0 where
  nothing : Sublist [] []
  skip : {x : A} {xs ys : List A} → Sublist xs ys → Sublist xs (x ∷ ys)
  keep : {x : A} {xs ys : List A} → Sublist xs ys → Sublist (x ∷ xs) (x ∷ ys)

module _ (c : Cluster) (snap : Snapshot c.Object) where
  open c use {Object, Mapping, resource_get}

  abbrev pub Tracked : List (Resource c) → Resource c → Type 0
  Tracked current info = (found : Resource c) × (resource_get current info ≡ some found)

  -- Live, and not tracked before.
  abbrev pub Missing : List (Resource c) → Resource c → Type 0
  Missing current info =
      (is_absent snap (info_key c info) ≡ false) × (resource_get current info ≡ none)

  abbrev pub Covered : List (Resource c) → Resource c → Type 0
  Covered current info = (is_absent snap (info_key c info) ≡ true) ⊎ Tracked current info

  module _
      (finds : (current : List (Resource c)) (info : Resource c)
        → Tracked (current ++ info ∷ []) info)
      (keeps : (current : List (Resource c)) (more info found : Resource c)
        → resource_get current info ≡ some found
        → resource_get (current ++ more ∷ []) info ≡ some found) where
    -- One round of the loop.
    step : Resource c → List (Resource c) → List (Resource c)
    unfolding adopt_missing
    step info current =
        if is_absent snap (info_key c info)
        then current
        else adopt_missing c info (resource_get current info) current

    step-cases :
        (info : Resource c) (current : List (Resource c))
        → ((step info current ≡ current) × Covered current info)
          ⊎ ((step info current ≡ current ++ info ∷ []) × Missing current info)
    unfolding step adopt_missing
    step-cases info current = elim (Bool-cases (is_absent snap (info_key c info))) [
      | inl gone ↦ inl (rw gone, inl gone)
      | inr live ↦ elim (Option-cases (resource_get current info)) [
        | inl missing ↦ inr (rw (live, missing), (live, missing))
        | inr (found, e) ↦ inl (rw (live, e), inr (found, e))
      ]
    ]

    Tracked-append :
        (current more : List (Resource c)) (info : Resource c)
        → Tracked current info
        → Tracked (current ++ more) info
    Tracked-append current [] info t = rw append-nil t
    Tracked-append current (m ∷ more) info (found, e) =
        rw (sym (append_assoc current (m ∷ []) more))
          (Tracked-append (current ++ m ∷ []) more info (found, keeps current m info found e))

    -- Each is live, and not tracked when it is its turn.
    abbrev pub AllMissing : List (Resource c) → List (Resource c) → Type 0
    AllMissing current [] = Unit
    AllMissing current (info ∷ extra) =
        Missing current info × AllMissing (current ++ info ∷ []) extra

    -- What the loop adds to `current`, and what is tracked after it.
    abbrev pub Adopted : List (Resource c) → List (Resource c) → List (Resource c) → Type 0
    Adopted target current result =
        (extra : List (Resource c)) × (result ≡ current ++ extra)
        × Sublist extra target
        × AllMissing current extra
        × All (Covered result) target

    Covered-append :
        (current more : List (Resource c)) (info : Resource c)
        → Covered current info
        → Covered (current ++ more) info
    Covered-append current more info (inl gone) = inl gone
    Covered-append current more info (inr t) = inr (Tracked-append current more info t)

    -- One more round before the rest of the loop, which starts from `next`.
    Adopted-cons :
        (info : Resource c) (target current next result : List (Resource c))
        → ((next ≡ current) × Covered current info)
          ⊎ ((next ≡ current ++ info ∷ []) × Missing current info)
        → Adopted target next result
        → Adopted (info ∷ target) current result
    Adopted-cons info target current next result (inl (same_list, here))
          (extra, e, sub, missing, covered) =
        (
          extra,
          rw (e, same_list) refl,
          skip sub,
          rw (sym same_list) missing,
          (rw (e, same_list) (Covered-append current extra info here), covered),
        )
    Adopted-cons info target current next result (inr (added, miss))
          (extra, e, sub, missing, covered) =
        (
          info ∷ extra,
          rw (e, added, append_assoc) refl,
          keep sub,
          (miss, rw (sym added) missing),
          (
            rw (e, added)
                (Covered-append (current ++ info ∷ []) extra info (inr (finds current info))),
            covered,
          ),
        )

    -- Let a lookup find what was appended last, and still find what it found before. Then adoption appends
    -- to the tracked resources some of the rendered ones, in their order and each at most once for each time
    -- that it is rendered; each of these was live, and tracked neither before nor by an earlier one;
    -- and afterwards every rendered resource is tracked or was not live.
    pub adopt-Adopted :
        (target current : List (Resource c)) → Adopted target current (adopt c snap target current)
    unfolding adopt adopt_missing step
    adopt-Adopted [] current = ([], sym (append-nil current), nothing, tt, tt)
    adopt-Adopted (info ∷ target) current =
        Adopted-cons info target current _ _ (step-cases info current) (adopt-Adopted target _)
