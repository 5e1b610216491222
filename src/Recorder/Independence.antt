-- ===== src/Recorder/Independence.antt =====
-- The streams of a recorder do not disturb one another.
use plumbing.Prelude.{
  ℕ, ◌≡◌, refl, sym, ap, ◌∙◌, Bool, true, false, Option, none, some, List, [], ◌∷◌, String,
  string_Comparable, lookup, insert, lookup-insert, if◌then◌else◌, Bool-cases, inl, inr, ◌==◌,
}
use plumbing.Recorder.{EventState, ThrottledRecorder, Event, eventf, observe, event_key}

unfoldable pub stream_of : Event → String
stream_of event = event_key event.regarding event.related event.event_type event.reason event.action

abbrev pub also : ℕ → Option Event → List (ℕ × Event) → List (ℕ × Event)
also now none l = l
also now (some event) l = (now, event) ∷ l

abbrev pub only : String → List (ℕ × Event) → List (ℕ × Event)
only k [] = []
only k ((now, event) ∷ calls) =
    let rest = only k calls in if stream_of event == k then (now, event) ∷ rest else rest

module _ (hash : String → ℕ) where
  -- What goes out in a sequence of calls, each with its reading of the clock.
  unfoldable pub sent : List (ℕ × Event) → ThrottledRecorder → List (ℕ × Event)
  sent [] t = []
  sent ((now, event) ∷ calls) t =
      let (t', out) = eventf hash now event t in also now out (sent calls t')

  only-also :
      (k : String) (now : ℕ) (event : Event) (b c : Bool) (l : List (ℕ × Event))
      → (stream_of event == k) ≡ b
      → only k (also now (if c then some event else none) l)
        ≡ (if b then also now (if c then some event else none) (only k l) else only k l)
  only-also k now event true true l h = rw h refl
  only-also k now event false true l h = rw h refl
  only-also k now event true false l h = refl
  only-also k now event false false l h = refl

  abbrev pub seen : ℕ → Event → ThrottledRecorder → EventState × Bool
  seen now event t =
      observe t.max_silence (hash event.message) now (lookup (stream_of event) t.signatures)

  abbrev pub noted : ℕ → Event → ThrottledRecorder → ThrottledRecorder
  noted now event t = record t {
    signatures = insert (stream_of event) (seen now event t).0 t.signatures;
  }

  pub sent-cons :
      (now : ℕ) (event : Event) (calls : List (ℕ × Event)) (t : ThrottledRecorder)
      → sent ((now, event) ∷ calls) t
        ≡ also now
            (if (seen now event t).1 then some event else none)
            (sent calls (noted now event t))
  unfolding sent eventf stream_of
  sent-cons now event calls t = refl

  -- The events of a stream go out as if only its own calls were made.
  pub sent-only :
      (k : String) (calls : List (ℕ × Event)) (t u : ThrottledRecorder)
      → lookup k t.signatures ≡ lookup k u.signatures
      → t.max_silence ≡ u.max_silence
      → only k (sent calls t) ≡ sent (only k calls) u
  sent-only k [] t u h m = unfold sent in refl
  sent-only k ((now, event) ∷ calls) t u h m =
      let t' : ThrottledRecorder = noted now event t in
      let out = λ (s : EventState × Bool). if s.1 then some event else none in
      elim (Bool-cases (stream_of event == k)) [
        | inr differ ↦
            let kept : lookup k t'.signatures ≡ lookup k u.signatures =
              lookup-insert (stream_of event) k (seen now event t).0 t.signatures ∙ rw differ h in
            ap (only k) (sent-cons now event calls t)
            ∙ only-also k now event false (seen now event t).1 (sent calls t') differ
            ∙ rw differ (sent-only k calls t' u kept m)
        | inl same ↦
            let key : stream_of event ≡ k =
              (string_Comparable.equal_iff (stream_of event) k).0 same in
            let states : lookup (stream_of event) t.signatures
                ≡ lookup (stream_of event) u.signatures =
              ap (λ j. lookup j t.signatures) key ∙ h ∙ ap (λ j. lookup j u.signatures) (sym key) in
            let agree : seen now event t ≡ seen now event u =
              ap
                (λ max.
                  observe max (hash event.message) now (lookup (stream_of event) t.signatures))
                m
              ∙ ap (observe u.max_silence (hash event.message) now) states in
            let u' : ThrottledRecorder = noted now event u in
            let left : lookup k t'.signatures ≡ some (seen now event t).0 =
              lookup-insert (stream_of event) k (seen now event t).0 t.signatures ∙ rw same refl in
            let right : lookup k u'.signatures ≡ some (seen now event u).0 =
              lookup-insert (stream_of event) k (seen now event u).0 u.signatures ∙ rw same refl in
            let kept : lookup k t'.signatures ≡ lookup k u'.signatures =
              left ∙ ap (λ (s : EventState × Bool). some s.0) agree ∙ sym right in
            ap (only k) (sent-cons now event calls t)
            ∙ only-also k now event true (seen now event t).1 (sent calls t') same
            ∙ ap (also now (out (seen now event t))) (sent-only k calls t' u' kept m)
            ∙ ap (λ s. also now (out s) (sent (only k calls) u')) agree
            ∙ sym (sent-cons now event (only k calls) u)
            ∙ rw same refl
      ]
