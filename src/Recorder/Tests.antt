-- ===== src/Recorder/Tests.antt =====
-- Runs of the recorder on small inputs.
use plumbing.Prelude.{ℕ, ◌≡◌, refl, arith, none, some, List, [], ◌∷◌, pos, ◌-ℤ◌}
use plumbing.Recorder.{Event, new_state_aware_recorder_with_max_silence}
use plumbing.Recorder.Stream.{published_at, due_at, AllAfterZero, published_at-due_at}
use plumbing.Recorder.Independence.{sent}
use plumbing.Recorder.Identity.{identified, identity, sending, AllLater}
use plumbing.Recorder.Streams.{sent-sending_lem}

-- With a silence of at most 10: the second event counts from 3, so that 13 goes out.
times : List ℕ
times = 3 ∷ 12 ∷ 13 ∷ 14 ∷ 20 ∷ []

due_times : due_at (pos 10) none times ≡ 13 ∷ []
unfolding times due_at ◌-ℤ◌
due_times = refl

after_zero : AllAfterZero times
unfolding times
after_zero = (omega arith, (omega arith, (omega arith, (omega arith, (omega arith, tt)))))

published_at-due_at_example :
    published_at (pos 10) 7 (1 ∷ times) none ≡ 1 ∷ due_at (pos 10) none times
published_at-due_at_example = published_at-due_at (pos 10) 7 1 times after_zero

abbrev ready : Event
ready = record {
  regarding = some (record { type_name = "Pod"; gvk = "v1"; accessor = some ("ns", "web", "u1") });
  related = none;
  event_type = "Normal";
  reason = "Ready";
  action = "Sync";
  message = "up";
}

-- The other object has its own stream.
abbrev other_ready : Event
other_ready = record ready {
  regarding = some (record { type_name = "Pod"; gvk = "v1"; accessor = some ("ns", "db", "u2") });
}

abbrev three : List (ℕ × Event)
three = (1, ready) ∷ (2, other_ready) ∷ (3, ready) ∷ []

three_later : AllLater three
three_later = (omega arith, (omega arith, (omega arith, tt)))

sent-sending_lem_example :
    identified
      (identity ready)
      (sent (λ s. 0) three (new_state_aware_recorder_with_max_silence (pos 10)))
    ≡ sending (λ s. 0) (pos 10) none (identified (identity ready) three)
sent-sending_lem_example = sent-sending_lem (λ s. 0) (pos 10) (identity ready) three three_later
