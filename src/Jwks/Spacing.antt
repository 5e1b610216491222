-- ===== src/Jwks/Spacing.antt =====
-- How often the keys are fetched.
use mathlib.Core.Path.{subst}
use plumbing.Prelude.{
  ℕ, String, ◌≡◌, refl, sym, ap, true, false, Option, some, List, [], ◌∷◌, All, ℤ, ◌-ℤ◌, ◌≤ℤ◌,
  leb_ℤ, arith, Option-cases, inl, inr, if◌then◌else◌,
}
use plumbing.Jwks.{
  PublicKey, Call, Answer, JwksKeySource, lookup_locked, fetch, refresh_locked, may_fetch,
  after_refresh, public_key, run,
}
use plumbing.Jwks.Outcomes.{
  unset, cached, after_fetch, public_key-Outcome, refresh_locked_failed, refresh_locked_done,
}

-- Each fetch begins at least `d` after the one before it.
abbrev pub Spaced : ℤ → Option ℤ → List (Call × Answer) → Type 0
Spaced d last [] = Unit
Spaced d last ((c, a) ∷ rest) =
    if a.fetched
    then ((t : ℤ) → last ≡ some t → d ≤ℤ (c.now_attempt -ℤ t)) × Spaced d (some c.now_attempt) rest
    else Spaced d last rest

later :
    (d t floor attempt : ℤ) → leb_ℤ d (floor -ℤ t) ≡ true → floor ≤ℤ attempt → d ≤ℤ (attempt -ℤ t)
unfolding ◌-ℤ◌
later d t floor attempt h o = ground (arith, h, o)

module _ (raw_decode : String → Option (List ℕ)) where
  -- A fetch sets the time of the last attempt, and the interval stays.
  record Attempted (c : Call) (s : JwksKeySource) (a : Answer) : Type 0 where
    fetched : a.fetched ≡ true
    last : a.source.last_attempt ≡ some c.now_attempt
    interval : a.source.min_refresh_interval ≡ s.min_refresh_interval

  after_refresh-Attempted :
      (c : Call) (s : JwksKeySource) (k : Option PublicKey)
      → Attempted c s (after_refresh c k (refresh_locked raw_decode c s))
  after_refresh-Attempted c s k = elim (Option-cases (fetch raw_decode c.reply)) [
    | inl e ↦
        rw (refresh_locked_failed raw_decode c s e)
          (record { fetched = refl; last = refl; interval = refl })
    | inr (keys, e) ↦
        rw (refresh_locked_done raw_decode c s keys e)
          (record { fetched = refl; last = refl; interval = refl })
  ]

  may_fetch_lem :
      (c : Call) (s : JwksKeySource) (t : ℤ)
      → may_fetch c s ≡ true
      → s.last_attempt ≡ some t
      → leb_ℤ s.min_refresh_interval (c.now_floor -ℤ t) ≡ true
  may_fetch_lem c s t m e = ground (arith, m, e)

  Spaced-idle :
      (d : ℤ) (last : Option ℤ) (c : Call) (a : Answer) (rest : List (Call × Answer))
      → a.fetched ≡ false
      → Spaced d last rest
      → Spaced d last ((c, a) ∷ rest)
  Spaced-idle d last c a rest e h = rw e h

  Spaced-fetch :
      (d : ℤ) (last : Option ℤ) (c : Call) (a : Answer) (rest : List (Call × Answer))
      → a.fetched ≡ true
      → ((t : ℤ) → last ≡ some t → d ≤ℤ (c.now_attempt -ℤ t))
      → Spaced d (some c.now_attempt) rest
      → Spaced d last ((c, a) ∷ rest)
  Spaced-fetch d last c a rest e g h = rw e (g, h)

  -- However many calls are made, and whatever they ask for, a fetch begins no sooner after the one before
  -- it than the refresh interval, if the clock does not go back within a call.
  pub run-Spaced :
      (calls : List Call) (s : JwksKeySource)
      → All (λ (c : Call). c.now_floor ≤ℤ c.now_attempt) calls
      → Spaced s.min_refresh_interval s.last_attempt (run raw_decode calls s)
  unfolding run
  run-Spaced [] s o = tt
  run-Spaced (c ∷ calls) s o =
      let a : Answer = public_key raw_decode c s in
      let rest = run-Spaced calls a.source o.1 in
      let more : List (Call × Answer) = run raw_decode calls a.source in
      let idle : a.source ≡ s
          → a.fetched ≡ false
          → Spaced s.min_refresh_interval s.last_attempt ((c, a) ∷ more) =
        λ source quiet. Spaced-idle s.min_refresh_interval s.last_attempt c a more quiet (
          subst (λ (x : JwksKeySource). Spaced x.min_refresh_interval x.last_attempt more) source
            rest) in
      elim (public_key-Outcome raw_decode c s) [
        | unset e k ↦ idle (ap (λ (x : Answer). x.source) k) (ap (λ (x : Answer). x.fetched) k)
        | cached e k ↦ idle (ap (λ (x : Answer). x.source) k) (ap (λ (x : Answer). x.fetched) k)
        | after_fetch e m k ↦
            let f : Attempted c s a =
              subst (Attempted c s) (sym k)
                (after_refresh-Attempted c s (lookup_locked s.keys c.kid)) in
            Spaced-fetch s.min_refresh_interval s.last_attempt c a more f.fetched
              (λ t l.
                later s.min_refresh_interval t c.now_floor c.now_attempt (may_fetch_lem c s t m l)
                  o.0)
              (subst (λ d. Spaced d (some c.now_attempt) more) f.interval
                (subst (λ l. Spaced a.source.min_refresh_interval l more) f.last rest))
      ]
