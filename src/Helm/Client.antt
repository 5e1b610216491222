-- ===== src/Helm/Client.antt =====
-- helm/v3/client.go: the release lookup and the upgrade, as chains of helm's operations.
-- The post-renderer that checks for duplicates is a setting of the run; `Helm/Duplicates` models it.
use plumbing.Prelude.{String, false, Option, none, some}
use plumbing.Helm.Api.{
  Cluster, ActionConfig, UpgradeConfig, Release, Event, dry_run_none, read, upgrade_run,
}
use plumbing.Helm.Run.{Stage, Run, getting_release, call, ◌>>=◌, ◌>>◌}

module _ (c : Cluster) where
  open c use {
    World, Options, Meta, no_options, init_config, get_run, load_chart, check_chart_type,
    check_dependencies, run_upgrade,
  }

  abbrev pub Act : Type 0 → Type 0
  Act A = Run World (Event Options) A

  -- `if cfg.ActionConfig == nil { cfg.ActionConfig = &ActionConfig{} }`
  abbrev pub action_of : UpgradeConfig Options → ActionConfig Options
  action_of cfg = or_zero cfg.action
    where
      or_zero : Option (ActionConfig Options) → ActionConfig Options
      or_zero none = record { dry_run = dry_run_none; force = false; options = no_options }
      or_zero (some a) = a

  unfoldable pub get_release : String → Act (Option (Release Meta))
  get_release name = do
    call getting_release read (init_config none)
    call getting_release read (get_run name)

  unfoldable pub upgrade : Stage → String → String → UpgradeConfig Options → Act (Release Meta)
  upgrade st name chart_ref cfg = do
    let action = action_of cfg
    call st read (init_config (some action))
    loaded ← call st read (load_chart chart_ref action)
    call st read (check_chart_type loaded)
    chart ← call st read (check_dependencies loaded chart_ref action)
    let filled = record cfg { action = some action }
    call st (upgrade_run filled) (run_upgrade filled name chart)
