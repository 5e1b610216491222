-- ===== src/EventBus.antt =====
-- eventbus/eventbus.go: the bus, its subscriptions, and the publication of an event.
-- Handlers, events, errors and panic values are parameters. The goroutines of a publication are the
-- sequence in which the collector's `select` meets their results and the end of the context.
mod Registry
mod History
mod Collector
mod Tests
use plumbing.Prelude.{
  ℕ, suc, zero, ◌+◌, ◌-◌, ◌%◌, ◌^◌, String, string_Comparable, Bool, true, false, Option, none,
  some, List, [], ◌∷◌, ◌++◌, nat_eq, if◌then◌else◌, lookup, insert, delete, length, ℤ, pos, leb_ℤ,
}

pub record Subscription : Type 0 where
  pub event_id : String
  pub id : ℕ

pub record SubscriptionInfo (Handler : Type 0) : Type 0 where
  pub id : ℕ
  pub cb : Handler

-- `bus`, without its lock: each method is one step.
pub record Bus (Handler Hook : Type 0) : Type 0 where
  pub next_id : ℕ
  pub publish_timeout : ℤ
  pub failure_hook : Option Hook
  pub infos : List (String × List (SubscriptionInfo Handler))

module _ {Handler : Type 0} where
  -- The first subscription with the id is taken out.
  pub without : ℕ → List (SubscriptionInfo Handler) → List (SubscriptionInfo Handler)
  without id [] = []
  without id (info ∷ infos) =
      let rest = without id infos in if nat_eq info.id id then infos else info ∷ rest

module _ {Handler Hook : Type 0} where
  pub with_publish_timeout : ℤ → Bus Handler Hook → Bus Handler Hook
  with_publish_timeout timeout b = record b { publish_timeout = timeout }

  pub with_failure_hook : Option Hook → Bus Handler Hook → Bus Handler Hook
  with_failure_hook hook b = record b { failure_hook = hook }

  -- A nil option is passed over.
  apply_options :
      List (Option (Bus Handler Hook → Bus Handler Hook)) → Bus Handler Hook → Bus Handler Hook
  apply_options [] b = b
  apply_options (none ∷ opts) b = apply_options opts b
  apply_options (some opt ∷ opts) b = apply_options opts (opt b)

  pub new_bus : List (Option (Bus Handler Hook → Bus Handler Hook)) → Bus Handler Hook
  unfolding apply_options
  new_bus opts =
      apply_options opts
        (record { next_id = 0; publish_timeout = pos 0; failure_hook = none; infos = [] })

  -- `bus.infos[eventID]`
  abbrev pub infos_of : String → Bus Handler Hook → List (SubscriptionInfo Handler)
  infos_of event_id b = elim (lookup event_id b.infos) [ none ↦ [] | some infos ↦ infos ]

  -- `none` is the panic on a nil handler.
  pub subscribe :
      String → Option Handler → Bus Handler Hook → Option (Subscription × Bus Handler Hook)
  subscribe event_id none b = none
  subscribe event_id (some cb) b =
      let sub : SubscriptionInfo Handler = record { id = b.next_id; cb = cb } in
      some (
        record { event_id = event_id; id = b.next_id },
        record b {
          next_id = (b.next_id + 1) % 2 ^ 64;
          infos = insert event_id (infos_of event_id b ++ sub ∷ []) b.infos;
        },
      )

  stored : String → List (SubscriptionInfo Handler) → Bus Handler Hook → Bus Handler Hook
  stored event_id [] b = record b { infos = delete event_id b.infos }
  stored event_id (info ∷ infos) b = record b { infos = insert event_id (info ∷ infos) b.infos }

  unsubscribe_from :
      Subscription → Option (List (SubscriptionInfo Handler)) → Bus Handler Hook → Bus Handler Hook
  unfolding stored without
  unsubscribe_from sub none b = b
  unsubscribe_from sub (some infos) b = stored sub.event_id (without sub.id infos) b

  pub unsubscribe : Subscription → Bus Handler Hook → Bus Handler Hook
  unfolding unsubscribe_from
  unsubscribe sub b = unsubscribe_from sub (lookup sub.event_id b.infos) b

  -- `publishContext`: the timeout that a publication gets, if any.
  pub publish_context : Bus Handler Hook → Option ℤ
  publish_context b = if leb_ℤ b.publish_timeout (pos 0) then none else some b.publish_timeout

  pub copy_subscriptions : String → Bus Handler Hook → List (SubscriptionInfo Handler)
  copy_subscriptions event_id b = infos_of event_id b

-- What a call of a handler ends with.
pub data Ending (Error Panic : Type 0) : Type 0 where
  returned : Option Error → Ending Error Panic
  panicked : Panic → Ending Error Panic

-- The error that is sent on: the handler's, or one made of its panic.
pub data HandlerError (Error Panic : Type 0) : Type 0 where
  reported : Error → HandlerError Error Panic
  handler_panic : String → Panic → HandlerError Error Panic

pub record HandlerFailure (Error Panic : Type 0) : Type 0 where
  pub subscription : Subscription
  pub err : HandlerError Error Panic
  pub panic : Option Panic

pub record PublishResult (Error Panic ContextError : Type 0) : Type 0 where
  pub delivered : ℕ
  pub pending : ℕ
  pub errors : List (HandlerError Error Panic)
  pub err : Option ContextError

module _ {Error Panic : Type 0} where
  -- The deferred function: what is sent on `results`, and what the failure hook is called with.
  pub invoke_handler :
      String
      → ℕ
      → Ending Error Panic
      → Option (HandlerError Error Panic) × List (HandlerFailure Error Panic)
  invoke_handler event_id id (returned none) = (none, [])
  invoke_handler event_id id (returned (some e)) = (
    some (reported e),
    record {
      subscription = record { event_id = event_id; id = id };
      err = reported e;
      panic = none;
    }
        ∷ [],
  )
  invoke_handler event_id id (panicked p) = (
    some (handler_panic event_id p),
    record {
      subscription = record { event_id = event_id; id = id };
      err = handler_panic event_id p;
      panic = some p;
    }
        ∷ [],
  )

  -- `handleFailure`: without a hook nothing is called.
  pub handle_failure :
      {Hook : Type 0}
      → Option Hook
      → List (HandlerFailure Error Panic)
      → List (HandlerFailure Error Panic)
  handle_failure none failures = []
  handle_failure (some hook) failures = failures

-- What the collector's `select` meets: a result, or the end of the context.
pub data Arrival (Error Panic ContextError : Type 0) : Type 0 where
  result : Option (HandlerError Error Panic) → Arrival Error Panic ContextError
  context_done : ContextError → Arrival Error Panic ContextError

module _ {Error Panic : Type 0} where
  abbrev pub noted :
      Option (HandlerError Error Panic)
      → List (HandlerError Error Panic)
      → List (HandlerError Error Panic)
  noted none errors = errors
  noted (some e) errors = errors ++ e ∷ []

module _ {Error Panic ContextError : Type 0} where
  -- The collector's loop; `none` while it waits.
  pub collect :
      ℕ
      → PublishResult Error Panic ContextError
      → List (Arrival Error Panic ContextError)
      → Option (PublishResult Error Panic ContextError)
  collect zero r arrivals = some r
  collect (suc remaining) r [] = none
  collect (suc remaining) r (result e ∷ arrivals) =
      collect remaining (record r { delivered = r.delivered + 1; errors = noted e r.errors })
        arrivals
  collect (suc remaining) r (context_done e ∷ arrivals) =
      some (record r { pending = suc remaining; err = some e })

  -- `PublishAsync`, by what its channel gives for the arrivals; `PublishSync` receives from it.
  pub publish :
      {Handler Hook : Type 0}
      → String
      → Bus Handler Hook
      → List (Arrival Error Panic ContextError)
      → Option (PublishResult Error Panic ContextError)
  unfolding collect
  publish event_id b arrivals =
      collect (length (copy_subscriptions event_id b))
        (record { delivered = 0; pending = 0; errors = []; err = none }) arrivals
