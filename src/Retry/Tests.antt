-- ===== src/Retry/Tests.antt =====
-- The retry client against a server that is down at first.
use plumbing.Prelude.{
  inr, wrap64, signed, ℕ, zero, suc, ◌-◌, ◌*◌, ◌/◌, ◌≤◌, ◌<◌, ◌^◌, String, ◌≡◌, refl, none, some,
  [], ◌∷◌, arith, pos, ltb, if◌then◌else◌,
}
use plumbing.Retry.{
  Reply, network_error, replied, returned, sent, slept, World, RetryClient, backoff, capped,
  jittered, do_request, is_idempotent_method, retried, attempts, is_final, accepted, pause,
  parse_retry_after, give_up,
}
use plumbing.Retry.Attempts.{Honest, do_request-Honest}
use plumbing.Retry.Bounds.{backoff_bounds}

abbrev replies : ℕ → Reply String
replies zero = network_error "refused"
replies (suc zero) = replied (record { status_code = 503; retry_after = "" })
replies (suc (suc n)) = replied (record { status_code = 200; retry_after = "" })

abbrev world : World String
world = record {
  send = replies;
  interrupted = λ k. none;
  rand = λ k n. n - 1;
  atoi = λ s. none;
  time_until = λ s. none;
}

abbrev client : RetryClient
client = record { max_retries = pos 5; base_backoff = pos 500000000; max_backoff = pos 10000000000 }

third_time : do_request world client none "GET" ≡ (
  sent 0 ∷ slept (pos 499999999) ∷ sent 1 ∷ slept (pos 999999999) ∷ sent 2 ∷ [],
  returned (some (record { status_code = 200; retry_after = "" })) none,
)
unfolding do_request is_idempotent_method retried attempts is_final accepted pause backoff jittered
    capped wrap64 signed parse_retry_after give_up
third_time = refl

-- The exponential overflows at the 36th attempt with the default base, and then the random source panics.
default_base_overflows : backoff (λ n. 0) 35 (pos 500000000) (pos 10000000000) ≡ none
unfolding backoff jittered capped wrap64 signed
default_base_overflows = refl

do_request-Honest_example : Honest world client 5 0 (do_request world client (some none) "GET")
unfolding is_idempotent_method
do_request-Honest_example = do_request-Honest world client 5 (some none) "GET" (inr refl) refl refl

rand_below : (m : ℕ) → 0 < m → m - 1 < m
rand_below m h = omega arith

backoff_bounds_example :
    (d : ℕ) × (backoff (λ n. n - 1) 3 (pos 500000000) (pos 10000000000) ≡ some d)
    × ((if ltb 10000000000 (500000000 * 2 ^ 3) then 10000000000 else 500000000 * 2 ^ 3) / 2 ≤ d)
    × (d < (if ltb 10000000000 (500000000 * 2 ^ 3) then 10000000000 else 500000000 * 2 ^ 3))
backoff_bounds_example =
    backoff_bounds (λ n. n - 1) 3 500000000 10000000000 rand_below (omega arith) (omega arith)
      (omega arith)
