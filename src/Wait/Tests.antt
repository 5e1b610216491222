-- ===== src/Wait/Tests.antt =====
-- A check that succeeds at the third poll.
use plumbing.Prelude.{ℕ, zero, suc, ◌+◌, ◌<◌, String, ◌≡◌, refl, Option, none, some, pos, arith}
use plumbing.Wait.{Options, value, with_defaults, until_with_options}
use plumbing.Wait.Pauses.{ends, pauses, until_with_options_lem}

abbrev third : ℕ → Option String
third (suc (suc n)) = some "ready"
third _ = none

abbrev never : ℕ → Option String
never k = none

abbrev opts : Options
opts = record { initial_backoff = pos 0; max_backoff = pos 1500000000 }

filled :
    with_defaults opts ≡ record { initial_backoff = pos 1000000000; max_backoff = pos 1500000000 }
unfolding with_defaults
filled = refl

third_before : (j : ℕ) → j < 2 → ends (third j) (never j) ≡ none
third_before zero h = refl
third_before (suc zero) h = refl
third_before (suc (suc j)) h = let bad : ⊥ = omega arith in elim bad [ ]

until_with_options_lem_example :
    until_with_options third never opts (suc (2 + 0))
    ≡ (pauses 1000000000 1500000000 0 (2 + 0), some (value "ready"))
until_with_options_lem_example =
    until_with_options_lem third never 1000000000 1500000000 opts 2 0 0 (value "ready") filled
      (omega arith) (omega arith) (omega arith) third_before refl
