-- ===== src/EventBus/Collector.antt =====
-- What a publication reports.
use plumbing.Prelude.{
  ℕ, zero, suc, ◌+◌, String, ◌≡◌, refl, ◌∙◌, Option, none, some, List, [], ◌∷◌, ◌++◌, map, length,
  arith,
}
use mathlib.Core.List.{append-nil, append_assoc}
use plumbing.EventBus.{
  Bus, Ending, returned, panicked, HandlerError, reported, handler_panic, invoke_handler,
  PublishResult, Arrival, result, context_done, noted, collect, publish, copy_subscriptions,
}

module _ {Error Panic : Type 0} where
  -- The errors of handlers that end in this order: what they return, and what they panic with.
  abbrev pub errors_of : String → List (ℕ × Ending Error Panic) → List (HandlerError Error Panic)
  errors_of event_id [] = []
  errors_of event_id ((id, returned none) ∷ endings) = errors_of event_id endings
  errors_of event_id ((id, returned (some e)) ∷ endings) = reported e ∷ errors_of event_id endings
  errors_of event_id ((id, panicked p) ∷ endings) =
      handler_panic event_id p ∷ errors_of event_id endings

  noted_failure :
      (event_id : String) (id : ℕ) (ending : Ending Error Panic)
      (endings : List (ℕ × Ending Error Panic)) (errors : List (HandlerError Error Panic))
      → noted (invoke_handler event_id id ending).0 errors ++ errors_of event_id endings
        ≡ errors ++ errors_of event_id ((id, ending) ∷ endings)
  unfolding invoke_handler
  noted_failure event_id id (returned none) endings errors = refl
  noted_failure event_id id (returned (some e)) endings errors = append_assoc errors _ _
  noted_failure event_id id (panicked p) endings errors = append_assoc errors _ _

module _ {Error Panic ContextError : Type 0} where
  -- Their results, in the order in which the collector meets them.
  abbrev pub arrivals_of :
      String → List (ℕ × Ending Error Panic) → List (Arrival Error Panic ContextError)
  arrivals_of event_id [] = []
  arrivals_of event_id ((id, ending) ∷ endings) =
      result (invoke_handler event_id id ending).0 ∷ arrivals_of event_id endings

  collect-arrivals_of :
      (event_id : String) (endings : List (ℕ × Ending Error Panic)) (count pending : ℕ)
      (r : PublishResult Error Panic ContextError) (rest : List (Arrival Error Panic ContextError))
      → count ≡ length endings + pending
      → collect count r (arrivals_of event_id endings ++ rest)
        ≡ collect pending
            (record r {
              delivered = r.delivered + length endings;
              errors = r.errors ++ errors_of event_id endings;
            })
            rest
  unfolding collect
  collect-arrivals_of event_id [] count pending r rest h =
      let e : count ≡ pending = omega arith in
      let d : r.delivered + 0 ≡ r.delivered = omega arith in rw (e, d, append-nil)
  collect-arrivals_of event_id ((id, ending) ∷ endings) zero pending r rest h =
      let bad : ⊥ = omega arith in elim bad [ ]
  collect-arrivals_of event_id ((id, ending) ∷ endings) (suc count) pending r rest h =
      let e : count ≡ length endings + pending = omega arith in
      let d : r.delivered + 1 + length endings ≡ r.delivered + suc (length endings) = omega arith in
      collect-arrivals_of event_id endings count pending _ rest e
      ∙ rw (d, noted_failure event_id id ending endings r.errors)

  -- What is reported when `pending` handlers have not ended yet.
  abbrev pub report :
      ℕ
      → ℕ
      → List (HandlerError Error Panic)
      → List ContextError
      → Option (PublishResult Error Panic ContextError)
  report delivered zero errors rest =
      some (record { delivered = delivered; pending = 0; errors = errors; err = none })
  report delivered (suc pending) errors [] = none
  report delivered (suc pending) errors (e ∷ more) =
      some (record { delivered = delivered; pending = suc pending; errors = errors; err = some e })

  -- A publication whose collector has met the results of some of the handlers of the event, in any order:
  -- if these are all of them, it reports that many deliveries, nothing pending and no context error,
  -- whatever comes after; if it then meets the end of the context, these as delivered, the
  -- others as pending, and the context's error; else it has not reported yet. The errors are, in the
  -- order in which it met the results, the errors that these handlers returned and their panics.
  pub publish_lem :
      {Handler Hook : Type 0} (event_id : String) (b : Bus Handler Hook)
      (endings : List (ℕ × Ending Error Panic)) (pending : ℕ) (context_end : List ContextError)
      → length (copy_subscriptions event_id b) ≡ length endings + pending
      → publish event_id b (arrivals_of event_id endings ++ map context_done context_end)
        ≡ report (length endings) pending (errors_of event_id endings) context_end
  unfolding publish collect
  publish_lem event_id b endings zero context_end h =
      let d : 0 + length endings ≡ length endings = omega arith in
      collect-arrivals_of event_id endings _ 0 _ _ h ∙ rw d
  publish_lem event_id b endings (suc pending) [] h =
      collect-arrivals_of event_id endings _ (suc pending) _ _ h
  publish_lem event_id b endings (suc pending) (e ∷ more) h =
      let d : 0 + length endings ≡ length endings = omega arith in
      collect-arrivals_of event_id endings _ (suc pending) _ _ h ∙ rw d
