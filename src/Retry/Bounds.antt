-- ===== src/Retry/Bounds.antt =====
-- The pause between two attempts.
use plumbing.Prelude.{
  wrap64_small, ℕ, zero, suc, ◌+◌, ◌*◌, ◌^◌, ◌/◌, ◌≤◌, ◌<◌, ◌≡◌, refl, some, arith, pos, ltb,
  if◌then◌else◌,
}
use plumbing.Retry.{backoff, capped, jittered}

jittered_bounds :
    (rand : ℕ → ℕ) (n : ℕ)
    → ((m : ℕ) → 0 < m → rand m < m)
    → 0 < n
    → (d : ℕ) × (jittered rand n ≡ some d) × (n ≤ d) × (d < n + n)
unfolding jittered
jittered_bounds rand zero h p = let bad : ⊥ = omega arith in elim bad [ ]
jittered_bounds rand (suc n) h p =
    (suc n + rand (suc n), refl, omega arith, omega (arith, h (suc n) p))

capped_pos :
    (attempt base max : ℕ)
    → base * 2 ^ attempt < 2 ^ 63
    → capped attempt (pos base) (pos max)
      ≡ pos (if ltb max (base * 2 ^ attempt) then max else base * 2 ^ attempt)
unfolding capped
capped_pos attempt base max h = rw (wrap64_small _ h) (ground arith)

-- While the exponential does not overflow a 64-bit duration, the backoff is at least half of the smaller
-- of it and the maximum, rounded down, and less than all of it; both have to be at least two nanoseconds.
pub backoff_bounds :
    (rand : ℕ → ℕ) (attempt base max : ℕ)
    → ((m : ℕ) → 0 < m → rand m < m)
    → base * 2 ^ attempt < 2 ^ 63
    → 2 ≤ base * 2 ^ attempt
    → 2 ≤ max
    → (d : ℕ) × (backoff rand attempt (pos base) (pos max) ≡ some d)
      × ((if ltb max (base * 2 ^ attempt) then max else base * 2 ^ attempt) / 2 ≤ d)
      × (d < (if ltb max (base * 2 ^ attempt) then max else base * 2 ^ attempt))
unfolding backoff
backoff_bounds rand attempt base max h room p q =
    let c : ℕ = if ltb max (base * 2 ^ attempt) then max else base * 2 ^ attempt in
    let low : 2 ≤ c = ground (arith, p, q) in
    let (d, e, above, below) = jittered_bounds rand (c / 2) h (omega arith) in
    (d, rw (capped_pos attempt base max room) e, above, omega (arith, below))
