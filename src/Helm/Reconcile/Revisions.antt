-- ===== src/Helm/Reconcile/Revisions.antt =====
-- How often a reconcile runs helm's upgrade for real.
use plumbing.Prelude.{
  ℕ, ◌+◌, ◌≤◌, String, ◌≡◌, refl, sym, true, Option, none, some, arith, Bool-cases, inl, inr,
  if◌then◌else◌,
}
use plumbing.Helm.Stripped.{Fallible, ok, fail}
use plumbing.Helm.Api.{Cluster, UpgradeConfig, Release, ReconcileResult, Event}
use plumbing.Helm.Run.{
  Outcome, done, stopped, Stage, State, real_upgrade, initial_upgrade, pure, call, judged, continue,
  attempt, ◌>>=◌,
}
use plumbing.Helm.Client.{Act, action_of, get_release, upgrade}
use plumbing.Helm.Reconcile.{
  conclude, upgraded, heal, initial, installed, after_lookup, or_zero_config, reconcile,
}
use plumbing.Helm.Reconcile.Quiet.{
  is_initial, mode_weight, weight, real_upgrades, Later, Quiet, Quiet-call, get_release-Quiet,
  upgrade-dry-Quiet, repair-Quiet, survey-Quiet, merge-Quiet,
}

-- What an operation of stage `st` with `w` upgrades may have added to a trace that had `before`.
abbrev Spent : {A : Type 0} → ℕ → Stage → ℕ → Outcome A → ℕ → Type 0
Spent w st before (done a) after = after ≡ w + before
Spent w st before (stopped st') after = (st' ≡ st) × (after ≤ w + before)

-- The number of real upgrades for each way a reconcile ends. `w` is one, or zero if the caller asked for a
-- dry run. A rollback that helm makes by itself in a failed atomic upgrade is not counted.
abbrev pub Revisions :
    {Meta : Type 0} → ℕ → ℕ → Outcome (ReconcileResult Meta × Option Stage) → ℕ → Type 0
Revisions w before (done (result, none)) after = after ≡ (if result.changed then w else 0) + before
Revisions w before (done (result, some st)) after =
    (result.changed ≡ true) × (st ≡ real_upgrade) × (after ≤ w + before)
Revisions w before (stopped st) after = after ≤ (if is_initial st then w else 0) + before

module _ (c : Cluster) where
  open c use {World, Options, Meta, Object}

  record Costs {A : Type 0} (w : ℕ) (st : Stage) (m : Act c A) : Type 0 where
    at :
        (s : State World (Event Options))
        → Spent w st (real_upgrades s.log) (m s).0 (real_upgrades (m s).1.log)

  module _ {A : Type 0} where
    judged-Spent :
        (w b : ℕ) (st : Stage) (r : Fallible A) (e : ℕ) → e ≡ w → Spent w st b (judged st r) (e + b)
    judged-Spent w b st (ok a) e h = omega arith
    judged-Spent w b st fail e h = (refl, omega arith)

    Costs-call :
        (w : ℕ) (st : Stage) (e : Event Options) (op : World → Fallible A × World)
        → weight e ≡ w
        → Costs w st (call st e op)
    unfolding call
    Costs-call w st e op h = record { at = λ s. judged-Spent w _ st (op s.world).0 (weight e) h }

  module _ {A B : Type 0} where
    continue-Spent :
        (w b : ℕ) (st : Stage) (r : Outcome A) (f : A → Act c B) (s : State World (Event Options))
        → ((a : A) → Costs w st (f a))
        → Spent 0 st b r (real_upgrades s.log)
        → Spent w st b (continue r f s).0 (real_upgrades (continue r f s).1.log)
    continue-Spent w b st (done a) f s kf e =
        let e' : b ≡ real_upgrades s.log = omega arith in rw e' ((kf a).at s)
    continue-Spent w b st (stopped st') f s kf (e, l) = (e, omega arith)

    Costs-bind :
        (w : ℕ) (st : Stage) (m : Act c A) (f : A → Act c B)
        → Costs 0 st m
        → ((a : A) → Costs w st (f a))
        → Costs w st (m >>= f)
    unfolding ◌>>=◌
    Costs-bind w st m f km kf = record {
      at = λ s. continue-Spent w _ st (m s).0 f (m s).1 kf (km.at s);
    }

  upgrade-Costs :
      (st : Stage) (name chart_ref : String) (cfg : UpgradeConfig Options)
      → Costs (mode_weight (action_of c cfg).dry_run) st (upgrade c st name chart_ref cfg)
  unfolding upgrade
  upgrade-Costs st name chart_ref cfg = search (Costs-bind, Costs-call) depth 14

  record Ends (w : ℕ) (m : Act c (ReconcileResult Meta × Option Stage)) : Type 0 where
    at :
        (s : State World (Event Options))
        → Revisions w (real_upgrades s.log) (m s).0 (real_upgrades (m s).1.log)

  module _ {A : Type 0} (w : ℕ) (f : A → Act c (ReconcileResult Meta × Option Stage)) where
    continue-Ends :
        (b : ℕ) (r : Outcome A) (s : State World (Event Options))
        → ((a : A) → Ends w (f a))
        → real_upgrades s.log ≡ b
        → Later r
        → Revisions w b (continue r f s).0 (real_upgrades (continue r f s).1.log)
    continue-Ends b (done a) s kf e l = rw (sym e) ((kf a).at s)
    continue-Ends b (stopped st) s kf e l = rw l (omega arith)

    Ends-bind : (m : Act c A) → Quiet c m → ((a : A) → Ends w (f a)) → Ends w (m >>= f)
    unfolding ◌>>=◌
    Ends-bind m km kf = record {
      at = λ s. continue-Ends _ (m s).0 (m s).1 kf (km.at s).0 (km.at s).1;
    }

  upgraded-Revisions :
      (w b after : ℕ) (result : ReconcileResult Meta) (r : Outcome (Release Meta))
      → result.changed ≡ true
      → Spent w real_upgrade b r after
      → Revisions w b (done (upgraded c result r)) after
  unfolding upgraded
  upgraded-Revisions w b after result (done rel) h e = rw h e
  upgraded-Revisions w b after result (stopped st) h (e, l) = (h, e, l)

  conclude-Ends :
      (name chart_ref : String) (cfg : UpgradeConfig Options) (result : ReconcileResult Meta)
      → Ends (mode_weight (action_of c cfg).dry_run) (conclude c name chart_ref cfg result)
  unfolding conclude pure attempt
  conclude-Ends name chart_ref cfg result = elim (Bool-cases result.changed) [
    | inl is_changed ↦ rw is_changed (record {
      at = λ s.
          upgraded-Revisions _ _ _ _ (upgrade c real_upgrade name chart_ref cfg s).0 refl
            ((upgrade-Costs real_upgrade name chart_ref cfg).at s);
    })
    | inr is_same ↦ rw is_same (record { at = λ s. omega arith })
  ]

  heal-Ends :
      (name chart_ref : String) (cfg : UpgradeConfig Options) (stored : Release Meta)
      → Ends (mode_weight (action_of c cfg).dry_run) (heal c name chart_ref cfg stored)
  unfolding heal
  heal-Ends name chart_ref cfg stored =
      search
        (
          Ends-bind, conclude-Ends, repair-Quiet, upgrade-dry-Quiet, survey-Quiet, merge-Quiet,
          Quiet-call,
        )
        depth 20

  installed-Revisions :
      (w b : ℕ) (r : Outcome (Release Meta))
      (f : Release Meta → Act c (ReconcileResult Meta × Option Stage))
      (s : State World (Event Options))
      → Spent w initial_upgrade b r (real_upgrades s.log)
      → ((rel : Release Meta) → ((f rel s).0 ≡ done (installed c rel, none)) × ((f rel s).1 ≡ s))
      → Revisions w b (continue r f s).0 (real_upgrades (continue r f s).1.log)
  installed-Revisions w b (done rel) f s e h = rw ((h rel).0, (h rel).1) e
  installed-Revisions w b (stopped st) f s (e, l) h = rw e l

  initial-Ends :
      (name chart_ref : String) (cfg : UpgradeConfig Options)
      → Ends (mode_weight (action_of c cfg).dry_run) (initial c name chart_ref cfg)
  unfolding initial pure ◌>>=◌
  initial-Ends name chart_ref cfg = record {
    at = λ s.
        let m = upgrade c initial_upgrade name chart_ref (record cfg { install = true }) in
        installed-Revisions _ _ (m s).0 _ (m s).1
          ((upgrade-Costs initial_upgrade name chart_ref (record cfg { install = true })).at s)
          (λ rel. (refl, refl));
  }

  after_lookup-Ends :
      (name chart_ref : String) (cfg : UpgradeConfig Options) (found : Option (Release Meta))
      → Ends (mode_weight (action_of c cfg).dry_run) (after_lookup c name chart_ref cfg found)
  unfolding after_lookup
  after_lookup-Ends name chart_ref cfg none = initial-Ends name chart_ref cfg
  after_lookup-Ends name chart_ref cfg (some stored) = heal-Ends name chart_ref cfg stored

  -- From every state, a reconcile adds real upgrades to the trace as its report tells: none if it reports no
  -- change; if it reports a change and no error, exactly one, or none in a dry run; with an error at most one, and then the report
  -- says changed and the error is that of the last upgrade; if it gives up without a report, none, or at
  -- most one if it gave up in the initial upgrade. A run of helm's upgrade in a dry run, client or
  -- server side, is not a real upgrade, so the number is zero throughout if the caller asks for one. What helm does inside an upgrade, such as the
  -- rollback of an atomic one, is not counted.
  pub reconcile-Revisions :
      (name chart_ref : String) (cfg : Option (UpgradeConfig Options))
      (s : State World (Event Options))
      → Revisions
          (mode_weight (action_of c (or_zero_config c cfg)).dry_run)
          (real_upgrades s.log)
          (reconcile c name chart_ref cfg s).0
          (real_upgrades (reconcile c name chart_ref cfg s).1.log)
  unfolding reconcile
  reconcile-Revisions name chart_ref cfg s =
      (Ends-bind _ _ (get_release c name) (get_release-Quiet c name)
          (λ found. after_lookup-Ends name chart_ref (or_zero_config c cfg) found)).at
        s
