-- ===== src/EventBus/Tests.antt =====
-- A bus with two subscriptions.
use plumbing.Prelude.{
  ℕ, String, string_Comparable, ◌≡◌, refl, none, some, List, [], ◌∷◌, ◌++◌, pos, lookup, insert,
  delete, arith,
}
use plumbing.EventBus.{
  Bus, Subscription, infos_of, new_bus, apply_options, with_publish_timeout, with_failure_hook,
  subscribe, without, stored, unsubscribe_from, unsubscribe, Ending, panicked, context_done,
  publish, copy_subscriptions,
}
use plumbing.EventBus.Registry.{IsOrdered}
use plumbing.EventBus.History.{
  Call, subscribe_call, unsubscribe_call, run, run-IsOrdered, unsubscribe-subscribe,
}
use plumbing.EventBus.Collector.{arrivals_of, errors_of, report, publish_lem}

abbrev calls : List (Call String)
calls =
    subscribe_call "added" (some "f")
    ∷ subscribe_call "added" (some "g")
    ∷ subscribe_call "gone" (some "f")
    ∷ unsubscribe_call (record { event_id = "gone"; id = 2 })
    ∷ []

abbrev empty : Bus String (Unit {0})
empty = new_bus (some (with_publish_timeout (pos 5)) ∷ some (with_failure_hook none) ∷ [])

abbrev two : Bus String (Unit {0})
two = record {
  next_id = 3;
  publish_timeout = pos 5;
  failure_hook = none;
  infos = ("added", record { id = 0; cb = "f" } ∷ record { id = 1; cb = "g" } ∷ []) ∷ [];
}

run-calls : run calls empty ≡ some two
unfolding run subscribe unsubscribe unsubscribe_from without stored new_bus apply_options
    with_publish_timeout with_failure_hook insert delete lookup
run-calls = refl

run-IsOrdered_example : IsOrdered two
run-IsOrdered_example = run-IsOrdered (pos 5) none calls two (omega arith) run-calls

unsubscribe-subscribe_example :
    (sub : Subscription) × (after : Bus String (Unit {0})) × (subscribe "added" (some "h") two
      ≡ some (sub, after))
    × (infos_of "added" (unsubscribe sub after) ≡ infos_of "added" two)
unsubscribe-subscribe_example =
    unsubscribe-subscribe "added" "added" "h" two (omega arith)
      (run-IsOrdered (pos 5) none calls two (omega arith) run-calls)

abbrev ended : List (ℕ × Ending String String)
ended = (1, panicked "nil map") ∷ []

abbrev deadline : String
deadline = "deadline"

-- One handler panicked, the other has not ended when the context does.
publish_lem_example :
    publish "added" two (arrivals_of "added" ended ++ context_done deadline ∷ [])
    ≡ report 1 1 ((errors_of "added" ended)) (deadline ∷ [])
unfolding lookup copy_subscriptions
publish_lem_example = publish_lem "added" two ended 1 (deadline ∷ []) refl
