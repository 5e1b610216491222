-- ===== src/Retry.antt =====
-- http/util/retry.go: the HTTP client that retries idempotent requests.
-- The transport, the rate limiter, the random source, the clock, and the readers of the Retry-After
-- header are parameters. Durations are 64-bit nanoseconds, and their arithmetic wraps.
mod Bounds
mod Attempts
mod Tests
use plumbing.Prelude.{
  wrap64, times, ℕ, zero, suc, ◌+◌, ◌*◌, ◌^◌, ◌%◌, ◌-◌, ◌/◌, String, Bool, true, false, not, ◌&&◌,
  ◌||◌, Option, none, some, List, [], ◌∷◌, str_eq, nat_eq, ltb, leb, ℤ, pos, negsuc, ◌+ℤ◌, ltb_ℤ,
  leb_ℤ, sub_ℕ, if◌then◌else◌,
}

-- Half of a duration, towards zero; what is not positive matters only as such.
abbrev pub half : ℤ → ℕ
half (pos n) = n / 2
half (negsuc n) = 0

pub capped : ℕ → ℤ → ℤ → ℤ
unfolding wrap64
capped attempt base max =
    let d = wrap64 (times base (2 ^ attempt)) in if ltb_ℤ max d then max else d

-- `rand.Int63n` panics on a bound that is not positive.
jittered : (ℕ → ℕ) → ℕ → Option ℕ
jittered rand zero = none
jittered rand (suc n) = some (suc n + rand (suc n))

pub backoff : (ℕ → ℕ) → ℕ → ℤ → ℤ → Option ℕ
unfolding jittered capped
backoff rand attempt base max = jittered rand (half (capped attempt base max))

pub is_idempotent_method : String → Bool
is_idempotent_method method =
    str_eq method "GET"
    || str_eq method "HEAD"
    || str_eq method "OPTIONS"
    || str_eq method "PUT"
    || str_eq method "DELETE"

pub record Response : Type 0 where
  pub status_code : ℕ
  pub retry_after : String

pub data Reply (Error : Type 0) : Type 0 where
  network_error : Error → Reply Error
  replied : Response → Reply Error

pub data Failure (Error : Type 0) : Type 0 where
  from_client : Error → Failure Error
  from_context : Error → Failure Error
  too_many_retries : Failure Error
  server_error : ℕ → Failure Error

-- The response and the error that are returned, or a panic.
pub data Result (Error : Type 0) : Type 0 where
  returned : Option Response → Option (Failure Error) → Result Error
  panicked : Result Error

pub data Event : Type 0 where
  sent : ℕ → Event
  slept : ℤ → Event

module _ {Error : Type 0} where
  pub is_final : Reply Error → Bool
  is_final (network_error e) = false
  is_final (replied r) = ltb r.status_code 500 && not (nat_eq r.status_code 429)

  -- What is returned for a reply when no retry is left.
  pub give_up : Reply Error → Result Error
  give_up (network_error e) = returned none (some (from_client e))
  give_up (replied r) =
      if nat_eq r.status_code 429
      then returned (some r) (some too_many_retries)
      else returned (some r) (some (server_error r.status_code))

  pub accepted : Reply Error → Result Error
  accepted (network_error e) = returned none none
  accepted (replied r) = returned (some r) none

  once : Reply Error → Result Error
  once (network_error e) = returned none (some (from_client e))
  once (replied r) = returned (some r) none

-- What the client is given: the transport, by attempt; whether the context ends during the pause after
-- an attempt; the random source of each attempt; the readers of the header.
pub record World (Error : Type 0) : Type 0 where
  pub send : ℕ → Reply Error
  pub interrupted : ℕ → Option Error
  pub rand : ℕ → ℕ → ℕ
  pub atoi : String → Option ℤ
  pub time_until : String → Option ℤ

pub record RetryClient : Type 0 where
  pub max_retries : ℤ
  pub base_backoff : ℤ
  pub max_backoff : ℤ

module _ {Error : Type 0} (w : World Error) (rc : RetryClient) where
  seconds : Option ℤ → Option ℤ → ℤ
  unfolding wrap64
  seconds (some secs) until = wrap64 (times secs 1000000000)
  seconds none (some until) = until
  seconds none none = pos 2000000000

  pub parse_retry_after : Response → ℤ
  unfolding seconds
  parse_retry_after r =
      if str_eq r.retry_after ""
      then pos 2000000000
      else seconds (w.atoi r.retry_after) (w.time_until r.retry_after)

  -- The pause that follows a reply which is not final; `none` is the panic of `backoff`.
  pub pause : ℕ → Reply Error → Option ℤ
  unfolding backoff parse_retry_after
  pause attempt (network_error e) =
      elim (backoff (w.rand attempt) attempt rc.base_backoff rc.max_backoff) [
        | none ↦ none
        | some d ↦ some (pos d)
      ]
  pause attempt (replied r) =
      if nat_eq r.status_code 429
      then some (parse_retry_after r)
      else elim (backoff (w.rand attempt) attempt rc.base_backoff rc.max_backoff) [
        | none ↦ none
        | some d ↦ some (pos d)
      ]

  -- `sleepWithContext`, then the rest.
  abbrev pub rest_after :
      Option ℤ → Option Error → List Event × Result Error → List Event × Result Error
  rest_after none cut next = ([], panicked)
  rest_after (some d) (some e) next = (slept d ∷ [], returned none (some (from_context e)))
  rest_after (some d) none next = (slept d ∷ next.0, next.1)

  -- The loop, with the retries that are left after this attempt.
  pub attempts : ℕ → ℕ → List Event × Result Error
  unfolding is_final accepted give_up pause
  attempts zero attempt =
      let reply = w.send attempt in
      (sent attempt ∷ [], if is_final reply then accepted reply else give_up reply)
  attempts (suc left) attempt =
      let reply = w.send attempt in
      let next =
        rest_after (pause attempt reply) (w.interrupted attempt) (attempts left (attempt + 1)) in
      if is_final reply
      then (sent attempt ∷ [], accepted reply)
      else (sent attempt ∷ next.0, next.1)

  retried : ℤ → List Event × Result Error
  unfolding attempts
  retried (pos max) = attempts max 0
  retried (negsuc _) = ([], returned none none)

  -- `Do`; the limiter is absent, lets the request pass, or gives an error.
  pub do_request : Option (Option Error) → String → List Event × Result Error
  unfolding is_idempotent_method retried once
  do_request (some (some e)) method = ([], returned none (some (from_client e)))
  do_request _ method =
      if is_idempotent_method method then retried rc.max_retries else (sent 0 ∷ [], once (w.send 0))
