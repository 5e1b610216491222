-- ===== src/Jwks/Outage.antt =====
-- What happens while the keys cannot be fetched.
use plumbing.Prelude.{
  ℕ, String, str_eq, ◌≡◌, refl, ap, ◌∙◌, false, Option, none, List, [], ◌∷◌, All, All-map, arith,
}
use plumbing.Jwks.{
  Call, Answer, JwksKeySource, lookup_locked, fetch, after_refresh, public_key, run,
}
use plumbing.Jwks.Outcomes.{unset, cached, after_fetch, public_key-Outcome, refresh_locked_failed}

module _ (raw_decode : String → Option (List ℕ)) where
  abbrev pub Failing : Call → Type 0
  Failing c = fetch raw_decode c.reply ≡ none

  -- The answer comes from the keys that are there, and they stay.
  record Steady (c : Call) (s : JwksKeySource) (a : Answer) : Type 0 where
    served : a.key ≡ lookup_locked s.keys c.kid
    kept : a.source.keys ≡ s.keys
    url_kept : a.source.url ≡ s.url

  public_key-Steady :
      (c : Call) (s : JwksKeySource)
      → str_eq s.url "" ≡ false
      → Failing c
      → Steady c s (public_key raw_decode c s)
  public_key-Steady c s u f = elim (public_key-Outcome raw_decode c s) [
    | unset e k ↦ ground (arith, e, u)
    | cached e k ↦ rw k (record { served = refl; kept = refl; url_kept = refl })
    | after_fetch e m k ↦
        let failed =
          k
          ∙ ap (after_refresh c (lookup_locked s.keys c.kid))
              (refresh_locked_failed raw_decode c s f) in
        rw failed (record { served = refl; kept = refl; url_kept = refl })
  ]

  -- As long as no fetch succeeds, a source with a URL answers every call from the keys that it had at
  -- first, however old they are: a key that was there is served each time.
  pub run_outage :
      (calls : List Call) (s : JwksKeySource)
      → str_eq s.url "" ≡ false
      → All Failing calls
      → All
          (λ (entry : Call × Answer). (entry.1).key ≡ lookup_locked s.keys (entry.0).kid)
          (run raw_decode calls s)
  unfolding run
  run_outage [] s u f = tt
  run_outage (c ∷ calls) s u f =
      let a = public_key-Steady c s u f.0 in
      let rest =
        run_outage calls (public_key raw_decode c s).source (ap (λ x. str_eq x "") a.url_kept ∙ u)
          f.1 in
      (
        a.served,
        All-map _ _ (run raw_decode calls (public_key raw_decode c s).source)
            (λ entry e. e ∙ ap (λ keys. lookup_locked keys (entry.0).kid) a.kept) rest,
      )
