-- ===== src/Recorder/Streams.antt =====
-- Which calls of `Eventf` send an event, stream by stream.
use mathlib.Core.Path.{subst}
use plumbing.Prelude.{
  ℕ, zero, suc, ◌≡◌, refl, sym, ap, ◌∙◌, Bool, true, false, Option, none, some, [], ◌∷◌, arith,
  String, string_Comparable, nat_eq, nat_Comparable, lookup, lookup-insert, ℤ, if◌then◌else◌,
  Bool-cases, inl, inr, ◌==◌,
}
use plumbing.Recorder.{
  EventState, ThrottledRecorder, Event, observe, new_state_aware_recorder_with_max_silence,
}
use plumbing.Recorder.Stream.{
  is_due, suppressed, held, first_of, first_of-suc, not_due, observe_out, observe_kept,
}
use plumbing.Recorder.Independence.{stream_of, also, sent, seen, noted, sent-cons, sent-only}
use plumbing.Recorder.Identity.{
  identity, stream_of-identity, Calls, identified, only-identified, Memory, goes_out, remembered,
  sending, AllLater,
}

abbrev memory_of : Option EventState → Memory
memory_of none = none
memory_of (some state) = some (state.signature, suppressed state.first_suppressed_at)

-- A step of the code is a step of the description.
abbrev Follows : ℤ → ℕ → ℕ → Option EventState → EventState × Bool → Type 0
Follows max sig now state step =
    (memory_of (some step.0) ≡ remembered max sig now (memory_of state))
    × (step.1 ≡ goes_out max sig now (memory_of state))

observe_other :
    (max : ℤ) (sig now : ℕ) (state : EventState)
    → nat_eq state.signature sig ≡ false
    → observe max sig now (some state) ≡ (held sig 0, true)
unfolding observe
observe_other max sig now state h = rw (h, observe) refl

nat_eq_refl : (n : ℕ) → nat_eq n n ≡ true
nat_eq_refl n = ground arith

nat_eq_only : (a b : ℕ) → nat_eq a b ≡ true → a ≡ b
nat_eq_only a b h = ground (arith, h)

-- The same message again.
same-Follows :
    (max : ℤ) (sig n first : ℕ)
    → Follows max sig
        (suc n)
        (some (held sig first))
        (observe max sig (suc n) (some (held sig first)))
same-Follows max sig n zero =
    let same = nat_eq_refl sig in
    subst (Follows max sig (suc n) (some (held sig 0)))
      (sym (observe_kept max sig (suc n) 0 (not_due max (suc n)))) (rw same refl, rw same refl)
same-Follows max sig n (suc k) =
    let same = nat_eq_refl sig in
    let at : is_due max (suc n) (first_of (suc n) (suc k)) ≡ is_due max (suc n) (suc k) =
      ap (is_due max (suc n)) (first_of-suc (suc n) k) in
    elim (Bool-cases (is_due max (suc n) (suc k))) [
      | inl due ↦
          subst (Follows max sig (suc n) (some (held sig (suc k))))
            (sym (observe_out max sig (suc n) (suc k) (at ∙ due)))
            (rw (same, due) refl, rw (same, due) refl)
      | inr early ↦
          subst (Follows max sig (suc n) (some (held sig (suc k))))
            (sym (
              observe_kept max sig (suc n) (suc k) (at ∙ early)
              ∙ ap (λ f. (held sig f, false)) (first_of-suc (suc n) k)))
            (rw (same, early) refl, rw (same, early) refl)
    ]

-- Another message than the last.
other-Follows :
    (max : ℤ) (sig n last first : ℕ)
    → nat_eq last sig ≡ false
    → Follows max sig (suc n) (some (held last first)) (held sig 0, true)
other-Follows max sig n last zero h = (rw h refl, rw h refl)
other-Follows max sig n last (suc k) h = (rw h refl, rw h refl)

observe-Follows :
    (max : ℤ) (sig n : ℕ) (state : Option EventState)
    → Follows max sig (suc n) state (observe max sig (suc n) state)
observe-Follows max sig n none = unfold observe in (refl, refl)
observe-Follows max sig n (some state) = elim (Bool-cases (nat_eq state.signature sig)) [
  | inl same ↦
      subst
        (λ last.
          Follows max sig (suc n) (some (held last state.first_suppressed_at))
            (observe max sig (suc n) (some (held last state.first_suppressed_at))))
        (sym (nat_eq_only state.signature sig same))
        (same-Follows max sig n state.first_suppressed_at)
  | inr differ ↦
      subst (Follows max sig (suc n) (some state))
        (sym (observe_other max sig (suc n) state differ))
        (other-Follows max sig n state.signature state.first_suppressed_at differ)
]

module _ (hash : String → ℕ) where
  also-if :
      (now : ℕ) (event : Event) (b : Bool) (l : Calls)
      → also now (if b then some event else none) l ≡ (if b then (now, event) ∷ l else l)
  also-if now event true l = refl
  also-if now event false l = refl

  sent-sending :
      (k : String) (calls : Calls) (t : ThrottledRecorder)
      → AllLater calls
      → sent hash (identified k calls) t
        ≡ sending hash t.max_silence (memory_of (lookup k t.signatures)) (identified k calls)
  sent-sending k [] t h = unfold sent in refl
  sent-sending k ((zero, event) ∷ calls) t h = absurd (omega (arith, h.0))
  sent-sending k ((suc n, event) ∷ calls) t h = elim (Bool-cases (identity event == k)) [
    | inr differ ↦ rw differ (sent-sending k calls t h.1)
    | inl same ↦
        let max : ℤ = t.max_silence in
        let sig : ℕ = hash event.message in
        let key : stream_of event ≡ k =
          stream_of-identity event ∙ (string_Comparable.equal_iff (identity event) k).0 same in
        let hit : (stream_of event == k) ≡ true =
          (string_Comparable.equal_iff (stream_of event) k).1 key in
        let follows = observe-Follows max sig n (lookup k t.signatures) in
        let agree : seen hash (suc n) event t ≡ observe max sig (suc n) (lookup k t.signatures) =
          ap (λ j. observe max sig (suc n) (lookup j t.signatures)) key in
        let after : ThrottledRecorder = noted hash (suc n) event t in
        let stored : lookup k after.signatures ≡ some (seen hash (suc n) event t).0 =
          lookup-insert (stream_of event) k (seen hash (suc n) event t).0 t.signatures
          ∙ rw hit refl in
        let memory : memory_of (lookup k after.signatures)
            ≡ remembered max sig (suc n) (memory_of (lookup k t.signatures)) =
          ap memory_of (stored ∙ ap (λ (x : EventState × Bool). some x.0) agree) ∙ follows.0 in
        let sends : (seen hash (suc n) event t).1
            ≡ goes_out max sig (suc n) (memory_of (lookup k t.signatures)) =
          ap (λ (x : EventState × Bool). x.1) agree ∙ follows.1 in
        let step = λ (b : Bool) (l : Calls). if b then (suc n, event) ∷ l else l in
        rw same (
          sent-cons hash (suc n) event (identified k calls) t
          ∙ also-if (suc n) event (seen hash (suc n) event t).1
              (sent hash (identified k calls) after)
          ∙ ap (step (seen hash (suc n) event t).1) (sent-sending k calls after h.1)
          ∙ ap (λ m. step (seen hash (suc n) event t).1 (sending hash max m (identified k calls)))
              memory
          ∙ ap
              (λ b. step b (
                sending hash max (remembered max sig (suc n) (memory_of (lookup k t.signatures)))
                  (identified k calls)))
              sends)
  ]

  -- In any sequence of calls of `Eventf` on a new recorder, after Go's zero time and whatever their
  -- streams: of the calls with the same objects, type, reason and action (in words), those send their event
  -- whose message is the first, or by its hash another one than the last, or whose time is at least the
  -- longest silence, if that is positive, after the first one kept back since the last that went out.
  pub sent-sending_lem :
      (max : ℤ) (k : String) (calls : Calls)
      → AllLater calls
      → identified k (sent hash calls (new_state_aware_recorder_with_max_silence max))
        ≡ sending hash max none (identified k calls)
  unfolding new_state_aware_recorder_with_max_silence lookup
  sent-sending_lem max k calls h =
      let fresh : ThrottledRecorder = new_state_aware_recorder_with_max_silence max in
      sym (only-identified k (sent hash calls fresh))
      ∙ sent-only hash k calls fresh fresh refl refl
      ∙ ap (λ l. sent hash l fresh) (only-identified k calls)
      ∙ sent-sending k calls fresh h
