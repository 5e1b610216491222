-- ===== src/Jwks/Outcomes.antt =====
-- The two ways in which a call ends: it answers from the cache, or after a fetch.
use plumbing.Prelude.{
  ℕ, String, str_eq, ◌≡◌, refl, Bool, true, false, ◌&&◌, Option, none, some, List, Bool-cases, inl,
  inr,
}
use plumbing.Jwks.{
  PublicKey, Keys, Call, JwksKeySource, lookup_locked, fetch, refresh_locked, is_fresh, may_fetch,
  after_refresh, public_key,
}

abbrev found : Option PublicKey → Bool
found cached = elim cached [ none ↦ false | some key ↦ true ]

pub data Outcome (raw_decode : String → Option (List ℕ)) (c : Call) (s : JwksKeySource)
    : Type 0 where
  unset :
      str_eq s.url "" ≡ true
      → public_key raw_decode c s ≡ record { key = none; source = s; fetched = false }
      → Outcome raw_decode c s
  cached :
      str_eq s.url "" ≡ false
      → public_key raw_decode c s
        ≡ record { key = lookup_locked s.keys c.kid; source = s; fetched = false }
      → Outcome raw_decode c s
  after_fetch :
      str_eq s.url "" ≡ false
      → may_fetch c s ≡ true
      → public_key raw_decode c s
        ≡ after_refresh c (lookup_locked s.keys c.kid) (refresh_locked raw_decode c s)
      → Outcome raw_decode c s

module _ (raw_decode : String → Option (List ℕ)) where
  pub public_key-Outcome : (c : Call) (s : JwksKeySource) → Outcome raw_decode c s
  unfolding public_key
  public_key-Outcome c s = elim (Bool-cases (str_eq s.url "")) [
    | inl e ↦ unset e (rw e refl)
    | inr e ↦ elim (Bool-cases (found (lookup_locked s.keys c.kid) && is_fresh c s)) [
      | inl fresh ↦ cached e (rw (e, fresh) refl)
      | inr stale ↦ elim (Bool-cases (may_fetch c s)) [
        | inl m ↦ after_fetch e m (rw (e, stale, m) refl)
        | inr m ↦ cached e (rw (e, stale, m) refl)
      ]
    ]
  ]

  pub refresh_locked_failed :
      (c : Call) (s : JwksKeySource)
      → fetch raw_decode c.reply ≡ none
      → refresh_locked raw_decode c s ≡ (record s { last_attempt = some c.now_attempt }, false)
  unfolding refresh_locked
  refresh_locked_failed c s e = rw (e, refresh_locked) refl

  pub refresh_locked_done :
      (c : Call) (s : JwksKeySource) (keys : Keys)
      → fetch raw_decode c.reply ≡ some keys
      → refresh_locked raw_decode c s ≡ (
        record s {
          last_attempt = some c.now_attempt;
          keys = keys;
          fetched_at = some c.now_fetched;
        },
        true,
      )
  unfolding refresh_locked
  refresh_locked_done c s keys e = rw (e, refresh_locked) refl
