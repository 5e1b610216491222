-- ===== src/Wait/Pauses.antt =====
-- When the loop ends, and how long it pauses between two polls.
use native.Mathlib.Nat.{pow-suc, mul_assoc}
use plumbing.Prelude.{
  ℕ, zero, suc, ◌+◌, ◌*◌, ◌^◌, ◌<◌, ◌≤◌, ◌≡◌, refl, sym, ap, ◌∙◌, Option, none, some, List, [], ◌∷◌,
  ℤ, pos, ltb, wrap64_small, if◌then◌else◌, arith, Option-cases, ◌⊎◌, inl, inr,
}
use plumbing.Wait.{
  Options, Result, value, cancelled, next_backoff, poll, with_defaults, until_with_options,
}

-- The pause after poll `k`.
abbrev pub capped : ℕ → ℕ → ℕ → ℕ
capped initial max k = if ltb max (initial * 2 ^ k) then max else initial * 2 ^ k

abbrev pub pauses : ℕ → ℕ → ℕ → ℕ → List ℤ
pauses initial max k zero = []
pauses initial max k (suc n) = pos (capped initial max k) ∷ pauses initial max (k + 1) n

double_capped :
    (p q max : ℕ)
    → q ≡ p * 2
    → 0 < max
    → max < 2 ^ 62
    → next_backoff (pos max) (pos (if ltb max p then max else p))
      ≡ pos (if ltb max q then max else q)
unfolding next_backoff
double_capped p q max e some_max room =
    let c : ℕ = if ltb max p then max else p in
    let low : c ≤ max = ground arith in rw (wrap64_small (c * 2) (omega arith)) (ground (arith, e))

next_backoff-capped :
    (initial max k : ℕ)
    → 0 < max
    → max < 2 ^ 62
    → next_backoff (pos max) (pos (capped initial max k)) ≡ pos (capped initial max (k + 1))
next_backoff-capped initial max k some_max room =
    double_capped (initial * 2 ^ k) _ max
      (let z : k + 1 ≡ suc k = omega arith in rw (z, pow-suc) (sym (mul_assoc initial (2 ^ k) 2)))
      some_max room

-- How a poll ends the loop, with the pauses that it takes for that.
abbrev pub ends : {A Error : Type 0} → Option A → Option Error → Option (ℕ × Result A Error)
ends (some v) cut = some (0, value v)
ends none (some e) = some (1, cancelled e)
ends none none = none

module _ {A Error : Type 0} (check : ℕ → Option A) (cut : ℕ → Option Error) (initial max : ℕ) where
  outcome : ℕ → Option (ℕ × Result A Error) → List ℤ × Option (Result A Error)
  outcome k none = ([], none)
  outcome k (some (extra, r)) = (pauses initial max k extra, some r)

  poll_last :
      (polls k extra : ℕ) (r : Result A Error)
      → ends (check k) (cut k) ≡ some (extra, r)
      → poll check cut (pos max) (suc polls) k (pos (capped initial max k))
        ≡ (pauses initial max k extra, some r)
  unfolding poll outcome
  poll_last polls k extra r here = by_cases (Option-cases (check k)) (Option-cases (cut k))
    where
      by_cases :
          ((check k ≡ none) ⊎ ((v : A) × (check k ≡ some v)))
          → ((cut k ≡ none) ⊎ ((e : Error) × (cut k ≡ some e)))
          → poll check cut (pos max) (suc polls) k (pos (capped initial max k))
            ≡ (pauses initial max k extra, some r)
      by_cases (inr (v, ok)) _ =
          let h : some (0, value v) ≡ some (extra, r) = ap (λ o. ends o (cut k)) (sym ok) ∙ here in
          rw (ok, poll) (ap (outcome k) h)
      by_cases (inl failed) (inr (e, done)) =
          let h : some (1, cancelled e) ≡ some (extra, r) =
            sym (ap (λ o. ends o (cut k)) failed ∙ ap (ends none) done) ∙ here in
          rw (failed, done, poll) (ap (outcome k) h)
      by_cases (inl failed) (inl on) =
          let h : none ≡ some (extra, r) =
            sym (ap (λ o. ends o (cut k)) failed ∙ ap (ends none) on) ∙ here in
          let bad : ⊥ = ground (arith, h) in elim bad [ ]

  poll_more :
      (m : ℤ) (polls k : ℕ) (b : ℤ)
      → ends (check k) (cut k) ≡ none
      → poll check cut m (suc polls) k b ≡ (
        b ∷ (poll check cut m polls (k + 1) (next_backoff m b)).0,
        (poll check cut m polls (k + 1) (next_backoff m b)).1,
      )
  unfolding poll
  poll_more m polls k b here = by_cases (Option-cases (check k)) (Option-cases (cut k))
    where
      by_cases :
          ((check k ≡ none) ⊎ ((v : A) × (check k ≡ some v)))
          → ((cut k ≡ none) ⊎ ((e : Error) × (cut k ≡ some e)))
          → poll check cut m (suc polls) k b ≡ (
            b ∷ (poll check cut m polls (k + 1) (next_backoff m b)).0,
            (poll check cut m polls (k + 1) (next_backoff m b)).1,
          )
      by_cases (inr (v, ok)) _ =
          let h : some (0, value v) ≡ none = ap (λ o. ends o (cut k)) (sym ok) ∙ here in
          let bad : ⊥ = ground (arith, h) in elim bad [ ]
      by_cases (inl failed) (inr (e, done)) =
          let h : some (1, cancelled e) ≡ none =
            sym (ap (λ o. ends o (cut k)) failed ∙ ap (ends none) done) ∙ here in
          let bad : ⊥ = ground (arith, h) in elim bad [ ]
      by_cases (inl failed) (inl on) = rw (failed, on, poll) refl

  poll-ends :
      (n k more extra : ℕ) (r : Result A Error)
      → 0 < max
      → max < 2 ^ 62
      → ((j : ℕ) → j < n → ends (check (k + j)) (cut (k + j)) ≡ none)
      → ends (check (k + n)) (cut (k + n)) ≡ some (extra, r)
      → poll check cut (pos max) (suc (n + more)) k (pos (capped initial max k))
        ≡ (pauses initial max k (n + extra), some r)
  poll-ends zero k more extra r some_max room before here =
      let z : k + 0 ≡ k = omega arith in
      let x : 0 + extra ≡ extra = omega arith in
      rw x (poll_last (0 + more) k extra r (ap (λ i. ends (check i) (cut i)) (sym z) ∙ here))
  poll-ends (suc n) k more extra r some_max room before here =
      let z : k + 0 ≡ k = omega arith in
      let x : suc n + extra ≡ suc (n + extra) = omega arith in
      let y : suc n + more ≡ suc (n + more) = omega arith in
      let later : (j : ℕ) → k + 1 + j ≡ k + suc j = λ j. omega arith in
      let rest =
        poll-ends n (k + 1) more extra r some_max room
          (λ j h. ap (λ i. ends (check i) (cut i)) (later j) ∙ before (suc j) (omega arith))
          (ap (λ i. ends (check i) (cut i)) (later n) ∙ here) in
      rw (x, y)
        (poll_more (pos max) (suc (n + more)) k _
            (ap (λ i. ends (check i) (cut i)) (sym z) ∙ before 0 (omega arith))
          ∙ rw (next_backoff-capped initial max k some_max room)
              (ap (λ p. (pos (capped initial max k) ∷ p.0, p.1)) rest))

  -- Let the options, with the defaults filled in, be positive, in order and below 2 ^ 62 nanoseconds, and
  -- let poll `n` be the first after which the check has succeeded or the context ends during the pause.
  -- Then the loop ends there, with the value or the context's error; and the pause after poll `k` is the
  -- smaller of the maximum and the initial backoff times 2 ^ k, the one that is cut short included.
  pub until_with_options_lem :
      (opts : Options) (n more extra : ℕ) (r : Result A Error)
      → with_defaults opts ≡ record { initial_backoff = pos initial; max_backoff = pos max }
      → 0 < max
      → initial ≤ max
      → max < 2 ^ 62
      → ((j : ℕ) → j < n → ends (check j) (cut j) ≡ none)
      → ends (check n) (cut n) ≡ some (extra, r)
      → until_with_options check cut opts (suc (n + more))
        ≡ (pauses initial max 0 (n + extra), some r)
  unfolding until_with_options
  until_with_options_lem opts n more extra r filled some_max le room before here =
      let first : capped initial max 0 ≡ initial = ground (arith, le) in
      let z : (j : ℕ) → 0 + j ≡ j = λ j. omega arith in
      ap (λ o. poll check cut o.max_backoff (suc (n + more)) 0 o.initial_backoff) filled
      ∙ ap (λ b. poll check cut (pos max) (suc (n + more)) 0 (pos b)) (sym first)
      ∙ poll-ends n 0 more extra r some_max room
          (λ j h. ap (λ i. ends (check i) (cut i)) (z j) ∙ before j h)
          (ap (λ i. ends (check i) (cut i)) (z n) ∙ here)
