-- ===== src/Cache/Refinement/Answers.antt =====
-- What `Get` and `Pop` answer, read off the list of entries.
use plumbing.Prelude.{◌≡◌, ap, ◌∙◌, List, Comparable, lookup, ℤ, Option-cases, inl, inr}
use plumbing.Cache.{TtlCache, TtlCacheOptions, new_ttl, get, pop, is_expired}
use plumbing.Cache.Runs.{Call, run}
use plumbing.Cache.Lookup.{stored, answer, get-answer}
use plumbing.Cache.Refinement.Runs.{recent_run, recent_new, run-Abstracts}

module _ {K V : Type 0} ⦃e : Comparable K⦄ where
  pop-answer :
      (now : ℤ) (k : K) (c : TtlCache K V)
      → ((pop now k c).1 ≡ (answer now (stored k c)).0)
        × ((pop now k c).2 ≡ (answer now (stored k c)).1)
  pop-answer now k c = elim (Option-cases (lookup k c.items)) [
    | inl absent ↦ unfold pop in rw absent (rw (absent, pop), rw (absent, pop))
    | inr (i, there) ↦ unfold pop is_expired in rw there (rw (there, pop), rw (there, pop))
  ]

  -- After any sequence of calls and cleanup rounds on a new cache, `Get` and `Pop` both answer what
  -- the list of entries has for the key: no value and false for a missing key, the value and
  -- false for an expired entry, the value and true for an unexpired one.
  pub run-answer :
      (opts : List (TtlCacheOptions → TtlCacheOptions)) (calls : List (Call K V)) (now : ℤ) (k : K)
      → ((get now k (run calls (new_ttl opts))).1
          ≡ (answer now (lookup k (recent_run calls (recent_new opts)).entries)).0)
        × ((get now k (run calls (new_ttl opts))).2
            ≡ (answer now (lookup k (recent_run calls (recent_new opts)).entries)).1)
        × ((pop now k (run calls (new_ttl opts))).1
            ≡ (answer now (lookup k (recent_run calls (recent_new opts)).entries)).0)
        × ((pop now k (run calls (new_ttl opts))).2
            ≡ (answer now (lookup k (recent_run calls (recent_new opts)).entries)).1)
  run-answer opts calls now k =
      let c : TtlCache K V = run calls (new_ttl opts) in
      let same = (run-Abstracts opts calls).0.same_content k in
      let got = get-answer now k c in
      let popped = pop-answer now k c in
      (
        got.0 ∙ ap (λ o. (answer now o).0) same,
        got.1 ∙ ap (λ o. (answer now o).1) same,
        popped.0 ∙ ap (λ o. (answer now o).0) same,
        popped.1 ∙ ap (λ o. (answer now o).1) same,
      )
