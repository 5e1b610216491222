-- ===== src/Wait.antt =====
-- wait/until.go: polling until a check succeeds or the context ends.
-- The check is what its call returns at each poll (`none` for an error), and the context whether it ends
-- during the pause after a poll. The loop has no bound in Go; here it runs for a number of polls.
mod Pauses
mod Tests
use plumbing.Prelude.{
  ℕ, zero, suc, ◌+◌, Option, none, some, List, [], ◌∷◌, ℤ, pos, leb_ℤ, ltb_ℤ, wrap64, times,
  if◌then◌else◌,
}

-- `Options`, without the logger.
pub record Options : Type 0 where
  pub initial_backoff : ℤ
  pub max_backoff : ℤ

abbrev pub default_backoff : ℤ
default_backoff = pos 1000000000

abbrev pub default_max_back : ℤ
default_max_back = pos 30000000000

pub with_defaults : Options → Options
with_defaults opts =
    let initial =
      if leb_ℤ opts.initial_backoff (pos 0) then default_backoff else opts.initial_backoff in
    let max = if leb_ℤ opts.max_backoff (pos 0) then default_max_back else opts.max_backoff in
    record { initial_backoff = initial; max_backoff = if ltb_ℤ max initial then initial else max }

pub data Result (A Error : Type 0) : Type 0 where
  value : A → Result A Error
  cancelled : Error → Result A Error

-- `backoff *= 2`, capped.
pub next_backoff : ℤ → ℤ → ℤ
next_backoff max backoff = let d = wrap64 (times backoff 2) in if ltb_ℤ max d then max else d

module _ {A Error : Type 0} (check : ℕ → Option A) (cut : ℕ → Option Error) where
  -- The pauses, and the result if the polls were enough.
  pub poll : ℤ → ℕ → ℕ → ℤ → List ℤ × Option (Result A Error)
  unfolding next_backoff
  poll max zero k backoff = ([], none)
  poll max (suc polls) k backoff =
      let rest = poll max polls (k + 1) (next_backoff max backoff) in
      elim (check k) [
        | some v ↦ ([], some (value v))
        | none ↦ elim (cut k) [
          | some e ↦ (backoff ∷ [], some (cancelled e))
          | none ↦ (backoff ∷ rest.0, rest.1)
        ]
      ]

  -- `UntilWithOptions`, with a check.
  pub until_with_options : Options → ℕ → List ℤ × Option (Result A Error)
  unfolding poll with_defaults
  until_with_options opts polls =
      let o = with_defaults opts in poll o.max_backoff polls 0 o.initial_backoff
