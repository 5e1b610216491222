-- ===== src/Helm/Reconcile/Quiet.antt =====
-- The steps of a reconcile that run no real upgrade.
use plumbing.Prelude.{
  ℕ, ◌+◌, String, ◌≡◌, refl, ◌∙◌, Bool, true, false, Option, none, some, List, [], ◌∷◌, arith,
  if◌then◌else◌,
}
use plumbing.Helm.Stripped.{Fallible, ok, fail}
use plumbing.Helm.Api.{
  Cluster, ActionConfig, UpgradeConfig, Release, Event, DryRunMode, dry_run_none, read, upgrade_run,
}
use plumbing.Helm.Run.{
  Outcome, done, stopped, Stage, State, initial_upgrade, rendering, pure, call, judged, continue,
  attempt, ◌>>=◌,
}
use plumbing.Helm.Client.{Act, get_release, upgrade}
use plumbing.Helm.Manifest.{
  drop_unserved_from_stored_manifest, select_current_for_build, is_deployed, persist,
}
use plumbing.Helm.Reconcile.{Snapshot, Resource, survey, dry, merge}

abbrev pub is_initial : Stage → Bool
is_initial initial_upgrade = true
is_initial _ = false

-- A run of helm's upgrade is a real one unless it is a dry run.
abbrev pub mode_weight : DryRunMode → ℕ
mode_weight dry_run_none = 1
mode_weight _ = 0

module _ {Options : Type 0} where
  abbrev pub config_weight : Option (ActionConfig Options) → ℕ
  config_weight none = 1
  config_weight (some a) = mode_weight a.dry_run

  abbrev pub weight : Event Options → ℕ
  weight (upgrade_run cfg) = config_weight cfg.action
  weight read = 0
  weight _ = 0

  -- The real upgrades in a trace.
  abbrev pub real_upgrades : List (Event Options) → ℕ
  real_upgrades [] = 0
  real_upgrades (e ∷ log) = weight e + real_upgrades log

abbrev pub Later : {A : Type 0} → Outcome A → Type 0
Later (done a) = Unit
Later (stopped st) = is_initial st ≡ false

module _ (c : Cluster) where
  open c use {World, Options, Meta, Object}

  -- No real upgrade, and no failure of the initial one.
  pub record Quiet {A : Type 0} (m : Act c A) : Type 0 where
    pub at :
        (s : State World (Event Options))
        → (real_upgrades (m s).1.log ≡ real_upgrades s.log) × Later (m s).0

  module _ {A : Type 0} where
    pub Quiet-pure : (a : A) → Quiet (pure a)
    unfolding pure
    Quiet-pure a = record { at = λ s. (refl, tt) }

    judged-Later : (st : Stage) (r : Fallible A) → is_initial st ≡ false → Later (judged st r)
    judged-Later st (ok a) h = tt
    judged-Later st fail h = h

    pub Quiet-call :
        (st : Stage) (e : Event Options) (op : World → Fallible A × World)
        → is_initial st ≡ false
        → weight e ≡ 0
        → Quiet (call st e op)
    unfolding call
    Quiet-call st e op h w = record { at = λ s. (omega arith, judged-Later st (op s.world).0 h) }

    pub Quiet-if : (b : Bool) (m n : Act c A) → Quiet m → Quiet n → Quiet (if b then m else n)
    Quiet-if true m n km kn = km
    Quiet-if false m n km kn = kn

  module _ {A B : Type 0} where
    continue-Quiet :
        (r : Outcome A) (f : A → Act c B) (s : State World (Event Options))
        → ((a : A) → Quiet (f a))
        → Later r
        → (real_upgrades (continue r f s).1.log ≡ real_upgrades s.log) × Later (continue r f s).0
    continue-Quiet (done a) f s kf l = (kf a).at s
    continue-Quiet (stopped st) f s kf l = (refl, l)

    pub Quiet-bind :
        (m : Act c A) (f : A → Act c B) → Quiet m → ((a : A) → Quiet (f a)) → Quiet (m >>= f)
    unfolding ◌>>=◌
    Quiet-bind m f km kf = record {
      at = λ s.
          let (e, l) = km.at s in
          let (e', l') = continue-Quiet (m s).0 f (m s).1 kf l in (e' ∙ e, l');
    }

    pub Quiet-attempt : (m : Act c A) (f : Outcome A → B) → Quiet m → Quiet (attempt m f)
    unfolding attempt
    Quiet-attempt m f km = record { at = λ s. ((km.at s).0, tt) }

  ruleset quiet = (Quiet-pure, Quiet-call, Quiet-if, Quiet-bind, Quiet-attempt)

  pub get_release-Quiet : (name : String) → Quiet (get_release c name)
  unfolding get_release
  get_release-Quiet name = search quiet

  pub upgrade-dry-Quiet :
      (name chart_ref : String) (cfg : UpgradeConfig Options)
      → Quiet (upgrade c rendering name chart_ref (dry c cfg))
  unfolding upgrade dry
  upgrade-dry-Quiet name chart_ref cfg = search quiet depth 14

  select-Quiet :
      (last : Release Meta) (deployed : Act c (Release Meta))
      → Quiet deployed
      → Quiet (select_current_for_build c last deployed)
  unfolding select_current_for_build
  select-Quiet last deployed h =
      Quiet-if (is_deployed c last.status) _ _ (Quiet-pure last) (Quiet-attempt deployed _ h)

  persist-Quiet :
      (manifest : String) (rel : Release Meta) (r : String × List String)
      → Quiet (persist c manifest rel r)
  unfolding persist
  persist-Quiet manifest rel (repaired, []) = search quiet
  persist-Quiet manifest rel (repaired, _ ∷ _) = search quiet

  pub repair-Quiet :
      (cfg : UpgradeConfig Options) (name manifest : String)
      → Quiet (drop_unserved_from_stored_manifest c cfg name manifest)
  unfolding drop_unserved_from_stored_manifest
  repair-Quiet cfg name manifest = search (quiet, select-Quiet, persist-Quiet) depth 12

  pub survey-Quiet :
      (target : List (Resource c)) (snap : Snapshot Object) → Quiet (survey c target snap)
  unfolding survey
  survey-Quiet [] snap = search quiet
  survey-Quiet (info ∷ target) snap =
      Quiet-bind _ _ (search quiet) (λ next. survey-Quiet target next)

  pub merge-Quiet :
      (current target : List (Resource c)) (force : Bool) → Quiet (merge c current target force)
  unfolding merge
  merge-Quiet current target force = search quiet
