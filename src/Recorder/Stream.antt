-- ===== src/Recorder/Stream.antt =====
-- The events of a recorder over time, stream by stream.
use plumbing.Prelude.{
  ℕ, zero, suc, ◌<◌, ◌≡◌, refl, ap, ◌∙◌, Bool, true, false, ◌&&◌, Option, none, some, List, [], ◌∷◌,
  arith, string_Comparable, nat_eq, negsuc, ℤ, pos, ◌-ℤ◌, ltb_ℤ, leb_ℤ, if◌then◌else◌, Bool-cases,
  inl, inr,
}
use plumbing.Recorder.{EventState, observe, unchanged, suppressed_since}

-- The states of a stream that sees the same message at each of the given times, with the times at
-- which its event goes out.
pub published_at : ℤ → ℕ → List ℕ → Option EventState → List ℕ
unfolding observe
published_at max sig [] state = []
published_at max sig (now ∷ times) state =
    let step = observe max sig now state in
    let rest = published_at max sig times (some step.0) in if step.1 then now ∷ rest else rest

abbrev pub is_due : ℤ → ℕ → ℕ → Bool
is_due max now first = ltb_ℤ (pos 0) max && leb_ℤ max (pos now -ℤ pos first)

-- The same, as a specification: `first` is the time of the event that followed the last to go out,
-- and an event goes out when a positive `max` has passed since.
unfoldable pub due_at : ℤ → Option ℕ → List ℕ → List ℕ
due_at max first [] = []
due_at max none (now ∷ times) = due_at max (some now) times
due_at max (some first) (now ∷ times) =
    if is_due max now first then now ∷ due_at max none times else due_at max (some first) times

abbrev pub suppressed : ℕ → Option ℕ
suppressed zero = none
suppressed (suc n) = some (suc n)

abbrev pub AllAfterZero : List ℕ → Type 0
AllAfterZero [] = Unit
AllAfterZero (now ∷ times) = (0 < now) × AllAfterZero times

abbrev pub held : ℕ → ℕ → EventState
held sig first = record { signature = sig; first_suppressed_at = first }

abbrev pub first_of : ℕ → ℕ → ℕ
first_of now first = if nat_eq first 0 then now else first

nat_eq_refl : (n : ℕ) → nat_eq n n ≡ true
nat_eq_refl n = ground arith

pub first_of-suc : (now k : ℕ) → first_of now (suc k) ≡ suc k
first_of-suc now k = ground arith

pub observe_out :
    (max : ℤ) (sig now first : ℕ)
    → (ltb_ℤ (pos 0) max && leb_ℤ max (pos now -ℤ pos (first_of now first))) ≡ true
    → observe max sig now (some (held sig first)) ≡ (held sig 0, true)
unfolding observe unchanged suppressed_since
observe_out max sig now first h =
    let same : nat_eq sig sig ≡ true = nat_eq_refl sig in rw (same, observe) (rw h refl)

pub observe_kept :
    (max : ℤ) (sig now first : ℕ)
    → (ltb_ℤ (pos 0) max && leb_ℤ max (pos now -ℤ pos (first_of now first))) ≡ false
    → observe max sig now (some (held sig first)) ≡ (held sig (first_of now first), false)
unfolding observe unchanged suppressed_since
observe_kept max sig now first h =
    let same : nat_eq sig sig ≡ true = nat_eq_refl sig in rw (same, observe) (rw h refl)

published_at-cons :
    (max : ℤ) (sig now : ℕ) (times : List ℕ) (state : Option EventState) (next : EventState)
    (b : Bool)
    → observe max sig now state ≡ (next, b)
    → published_at max sig (now ∷ times) state ≡ (
        if b
        then now ∷ published_at max sig times (some next)
        else published_at max sig times (some next))
unfolding published_at
published_at-cons max sig now times state next b h =
    ap
      (λ (s : EventState × Bool).
        let rest = published_at max sig times (some s.0) in if s.1 then now ∷ rest else rest)
      h

pub not_due : (max : ℤ) (n : ℕ) → is_due max n n ≡ false
unfolding ◌-ℤ◌
not_due (pos m) n = ground arith
not_due (negsuc m) n = ground arith

steady_lem :
    (max : ℤ) (sig : ℕ) (times : List ℕ) (first : ℕ)
    → AllAfterZero times
    → published_at max sig times (some (held sig first)) ≡ due_at max (suppressed first) times
unfolding due_at
steady_lem max sig [] first h = unfold published_at in refl
steady_lem max sig (zero ∷ times) first h = absurd (omega (arith, h.0))
steady_lem max sig (suc n ∷ times) zero h =
    published_at-cons _ sig (suc n) times _ _ _
      (observe_kept max sig (suc n) 0 (not_due max (suc n)))
    ∙ steady_lem max sig times (suc n) h.1
steady_lem max sig (suc n ∷ times) (suc k) h =
    let at : is_due max (suc n) (first_of (suc n) (suc k)) ≡ is_due max (suc n) (suc k) =
      ap (is_due max (suc n)) (first_of-suc (suc n) k) in
    elim (Bool-cases (is_due max (suc n) (suc k))) [
      | inl due ↦
          published_at-cons _ sig (suc n) times _ _ _
            (observe_out max sig (suc n) (suc k) (at ∙ due))
          ∙ rw due (ap (λ l. suc n ∷ l) (steady_lem max sig times 0 h.1))
      | inr early ↦
          published_at-cons _ sig (suc n) times _ _ _
            (observe_kept max sig (suc n) (suc k) (at ∙ early))
          ∙ rw early (
              ap (λ f. published_at max sig times (some (held sig f))) (first_of-suc (suc n) k)
              ∙ steady_lem max sig times (suc k) h.1)
    ]

-- A stream that sees one message over and over, after Go's zero time: its first event goes out, and
-- after that an event goes out when the longest silence is positive and has passed since the first
-- event that was kept back. The others are kept back, and the count starts again with the
-- next event.
pub published_at-due_at :
    (max : ℤ) (sig now : ℕ) (times : List ℕ)
    → AllAfterZero times
    → published_at max sig (now ∷ times) none ≡ now ∷ due_at max none times
unfolding published_at observe
published_at-due_at max sig now times h = ap (λ l. now ∷ l) (steady_lem max sig times 0 h)
