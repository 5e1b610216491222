-- ===== src/Retry/Attempts.antt =====
-- Which requests a call of `Do` sends, and what it returns.
use plumbing.Prelude.{
  ℕ, zero, suc, ◌+◌, ◌≤◌, String, ◌≡◌, refl, ap, true, false, Option, none, some, List, [], ◌∷◌,
  All, arith, ltb, nat_eq, ◌<◌, ◌⊎◌, ◌≢◌, Bool-cases, inl, inr, ℤ, pos,
}
use plumbing.Retry.{
  Reply, Response, network_error, replied, Result, returned, panicked, Event, sent, slept, World,
  RetryClient, is_final, give_up, accepted, rest_after, attempts, retried, do_request,
  is_idempotent_method,
}

abbrev pub range : ℕ → ℕ → List ℕ
range a zero = []
range a (suc n) = a ∷ range (a + 1) n

abbrev pub sends : List Event → List ℕ
sends [] = []
sends (sent k ∷ log) = k ∷ sends log
sends (slept d ∷ log) = sends log

module _ {Error : Type 0} where
  -- No response, a 429, or a status from 500.
  abbrev pub Retryable : Reply Error → Type 0
  Retryable (network_error e) = Unit
  Retryable (replied r) = (r.status_code ≡ 429) ⊎ (500 ≤ r.status_code)

  -- A response of any other status, and it is the one that is given.
  abbrev pub Accepted : Reply Error → Option Response → Type 0
  Accepted (network_error e) given = ⊥
  Accepted (replied r) given = (given ≡ some r) × (r.status_code ≢ 429) × (r.status_code < 500)

  abbrev pub Answers : Reply Error → Result Error → Type 0
  Answers reply panicked = Retryable reply
  Answers reply (returned r (some e)) = Retryable reply
  Answers reply (returned r none) = Accepted reply r

  Retryable-is_final : (reply : Reply Error) → is_final reply ≡ false → Retryable reply
  unfolding is_final
  Retryable-is_final (network_error e) h = tt
  Retryable-is_final (replied r) h = elim (Bool-cases (ltb r.status_code 500)) [
    | inl below ↦ inl (ground (arith, h, below))
    | inr above ↦ inr (ground (arith, above))
  ]

module _ {Error : Type 0} (w : World Error) (rc : RetryClient) where
  -- The attempts go up one by one, at most `left` of them after the first; every one but the last got a
  -- reply that is not final, and the result answers the last one's.
  pub record Honest (left attempt : ℕ) (run : List Event × Result Error) : Type 0 where
    pub retries : ℕ
    pub sends_eq : sends run.0 ≡ range attempt (suc retries)
    pub bounded : retries ≤ left
    pub earlier : All (λ k. Retryable (w.send k)) (range attempt retries)
    pub answers : Answers (w.send (attempt + retries)) run.1

  accepted-Answers : (reply : Reply Error) → is_final reply ≡ true → Answers reply (accepted reply)
  unfolding accepted is_final
  accepted-Answers (network_error e) final = ground (arith, final)
  accepted-Answers (replied r) final =
      (refl, (λ h. ground (arith, final, h)), ground (arith, final))

  give_up-Answers : (reply : Reply Error) → is_final reply ≡ false → Answers reply (give_up reply)
  unfolding give_up
  give_up-Answers (network_error e) h = tt
  give_up-Answers (replied r) h =
      let again : Retryable {Error = Error} (replied r) = Retryable-is_final (replied r) h in
      elim (Bool-cases (nat_eq r.status_code 429)) [ inl e ↦ rw e again | inr e ↦ rw e again ]

  last-Honest :
      (left attempt : ℕ) (log : List Event) (r : Result Error)
      → sends log ≡ []
      → Answers (w.send attempt) r
      → Honest left attempt (sent attempt ∷ log, r)
  last-Honest left attempt log r h a =
      let e : attempt + 0 ≡ attempt = omega arith in
      record {
        retries = 0;
        sends_eq = rw h refl;
        bounded = omega arith;
        earlier = tt;
        answers = rw e a;
      }

  more-Honest :
      (left attempt : ℕ) (pause_after : Option ℤ) (cut : Option Error)
      (next : List Event × Result Error)
      → Retryable (w.send attempt)
      → Honest left (attempt + 1) next
      → Honest (suc left) attempt (
        sent attempt ∷ (rest_after w rc pause_after cut next).0,
        (rest_after w rc pause_after cut next).1,
      )
  more-Honest left attempt none cut next h v = last-Honest (suc left) attempt [] panicked refl h
  more-Honest left attempt (some d) (some e) next h v = last-Honest (suc left) attempt _ _ refl h
  more-Honest left attempt (some d) none next h v =
      let e : attempt + suc v.retries ≡ attempt + 1 + v.retries = omega arith in
      record {
        retries = suc v.retries;
        sends_eq = ap (λ ks. attempt ∷ ks) v.sends_eq;
        bounded = omega (arith, v.bounded);
        earlier = (h, v.earlier);
        answers = rw e v.answers;
      }

  attempts-Honest : (left attempt : ℕ) → Honest left attempt (attempts w rc left attempt)
  unfolding attempts
  attempts-Honest zero attempt = elim (Bool-cases (is_final (w.send attempt))) [
    | inl final ↦
        rw final (last-Honest 0 attempt [] _ refl (accepted-Answers (w.send attempt) final))
    | inr h ↦ rw h (last-Honest 0 attempt [] _ refl (give_up-Answers (w.send attempt) h))
  ]
  attempts-Honest (suc left) attempt = elim (Bool-cases (is_final (w.send attempt))) [
    | inl final ↦
        rw final
          (last-Honest (suc left) attempt [] _ refl (accepted-Answers (w.send attempt) final))
    | inr h ↦ rw h (
        more-Honest left attempt _ _ _ (Retryable-is_final (w.send attempt) h)
          (attempts-Honest left (attempt + 1)))
  ]

  -- An idempotent request, without a limiter or with one that lets it pass, is sent at least once and at
  -- most once more than the retries allow. It is sent again only after no response, a 429 or a status
  -- from 500. The call returns without an error only if the last reply is a response of another status,
  -- and then with that response; with an error or a panic only if it is none.
  pub do_request-Honest :
      (max : ℕ) (limiter : Option (Option Error)) (method : String)
      → (limiter ≡ none) ⊎ (limiter ≡ some none)
      → rc.max_retries ≡ pos max
      → is_idempotent_method method ≡ true
      → Honest max 0 (do_request w rc limiter method)
  unfolding do_request retried
  do_request-Honest max limiter method (inl absent) h idempotent =
      let e : retried w rc rc.max_retries ≡ attempts w rc max 0 = ap (retried w rc) h in
      rw (absent, idempotent, e) (attempts-Honest max 0)
  do_request-Honest max limiter method (inr passes) h idempotent =
      let e : retried w rc rc.max_retries ≡ attempts w rc max 0 = ap (retried w rc) h in
      rw (passes, idempotent, e) (attempts-Honest max 0)
