-- ===== src/Helm/Run.antt =====
-- Operations that change the world, may fail at a stage of the reconcile, and leave a trace.
use plumbing.Prelude.{List, ◌∷◌}
use plumbing.Helm.Stripped.{Fallible, ok, fail}

-- Where a reconcile gave up.
pub data Stage : Type 0 where
  getting_release initial_upgrade repairing_manifest rendering building_config : Stage
  building_current building_target kube_update_failed real_upgrade : Stage

pub data Outcome {ℓ} (A : Type ℓ) : Type ℓ where
  done : A → Outcome A
  stopped : Stage → Outcome A

pub record State (World Event : Type 0) : Type 0 where
  pub world : World
  pub log : List Event

abbrev pub Run : Type 0 → Type 0 → Type 0 → Type 0
Run World Event A = State World Event → Outcome A × State World Event

abbrev pub judged : {A : Type 0} → Stage → Fallible A → Outcome A
judged st (ok a) = done a
judged st fail = stopped st

module _ {World Event A : Type 0} where
  unfoldable pub pure : A → Run World Event A
  pure a s = (done a, s)

  -- One operation of the interface, with the event that it leaves.
  unfoldable pub call : Stage → Event → (World → Fallible A × World) → Run World Event A
  call st e op s = let (r, w) = op s.world in (judged st r, record { world = w; log = e ∷ s.log })

module _ {World Event A B : Type 0} where
  abbrev pub continue : Outcome A → (A → Run World Event B) → Run World Event B
  continue (done a) f s = f a s
  continue (stopped st) f s = (stopped st, s)

  infixl 5 ◌>>=◌ ◌>>◌
  unfoldable pub ◌>>=◌ : Run World Event A → (A → Run World Event B) → Run World Event B
  ◌>>=◌ m f s = let (r, s') = m s in continue r f s'

  abbrev pub ◌>>◌ : Run World Event A → Run World Event B → Run World Event B
  m >> n = m >>= λ _. n

  -- Whatever the outcome, go on with it as a value.
  unfoldable pub attempt : Run World Event A → (Outcome A → B) → Run World Event B
  attempt m f s = let (r, s') = m s in (done (f r), s')
