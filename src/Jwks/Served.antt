-- ===== src/Jwks/Served.antt =====
-- Where the keys that are served come from.
use plumbing.Prelude.{
  ℕ, none, if◌then◌else◌, String, string_Comparable, str_eq, eq_iff, ◌≡◌, ◌⊎◌, inl, inr, refl, sym,
  ap, ◌∙◌, true, Option, some, List, [], ◌∷◌, ◌++◌, lookup, Any, arith, Bool-cases, Option-cases,
}
use plumbing.Jwks.{
  PublicKey, JwksKey, Keys, Call, Answer, JwksKeySource, new_jwks_key_source, JwksOption,
  with_jwks_cache_ttl, with_jwks_min_refresh_interval, apply_option, apply_options, fetch,
  lookup_locked, after_refresh, public_key, run,
}
use plumbing.Jwks.Outcomes.{
  unset, cached, after_fetch, public_key-Outcome, refresh_locked_failed, refresh_locked_done,
}
use plumbing.Jwks.Issued.{documents, Issued, AllIssued, fetch-AllIssued}

module _ (raw_decode : String → Option (List ℕ)) where
  -- The answer to a call: issued under the name that it asks for, or, without one, under some name.
  abbrev pub Sourced : List JwksKey → String → PublicKey → Type 0
  Sourced seen kid key =
      (name : String) × ((kid ≡ "") ⊎ (name ≡ kid)) × Any (Issued raw_decode name key) seen

  only_key :
      (seen : List JwksKey) (keys : Keys) (kid : String) (key : PublicKey)
      → AllIssued raw_decode seen keys
      → str_eq kid "" ≡ true
      → lookup_locked keys kid ≡ some key
      → (name : String) × Any (Issued raw_decode name key) seen
  unfolding lookup_locked lookup
  only_key seen [] kid key a e h = ground (arith, h, e)
  only_key seen ((name, value) ∷ []) kid key a e h =
      (name, a name key (ground (arith, h, e, eq_iff name name)))
  only_key seen (first ∷ second ∷ more) kid key a e h = ground (arith, h, e)

  lookup_locked-Sourced :
      (seen : List JwksKey) (keys : Keys) (kid : String) (key : PublicKey)
      → AllIssued raw_decode seen keys
      → lookup_locked keys kid ≡ some key
      → Sourced seen kid key
  unfolding lookup_locked
  lookup_locked-Sourced seen keys kid key a h = elim (Bool-cases (str_eq kid "")) [
    | inr e ↦ (kid, inr refl, a kid key (ground (arith, e, h)))
    | inl e ↦
        let only = only_key seen keys kid key a e h in (only.0, inl ((eq_iff kid "").0 e), only.1)
  ]

  -- The entries of the documents fetched so far, after one more call.
  abbrev pub fetched_after : List JwksKey → Call × Answer → List JwksKey
  fetched_after seen (c, a) = if a.fetched then documents c.reply ++ seen else seen

  record Honest (seen : List JwksKey) (kid : String) (a : Answer) : Type 0 where
    sourced : (key : PublicKey) → a.key ≡ some key → Sourced seen kid key
    all_issued : AllIssued raw_decode seen a.source.keys

  Any-left : (P : JwksKey → Type 0) (xs ys : List JwksKey) → Any P xs → Any P (xs ++ ys)
  Any-left P [] ys h = elim h [ ]
  Any-left P (x ∷ xs) ys (inl h) = inl h
  Any-left P (x ∷ xs) ys (inr h) = inr (Any-left P xs ys h)

  Any-right : (P : JwksKey → Type 0) (xs ys : List JwksKey) → Any P ys → Any P (xs ++ ys)
  Any-right P [] ys h = h
  Any-right P (x ∷ xs) ys h = inr (Any-right P xs ys h)

  public_key-Honest :
      (seen : List JwksKey) (c : Call) (s : JwksKeySource)
      → AllIssued raw_decode seen s.keys
      → Honest (fetched_after seen (c, public_key raw_decode c s)) c.kid (public_key raw_decode c s)
  public_key-Honest seen c s a = elim (public_key-Outcome raw_decode c s) [
    | unset e k ↦ rw k (record { sourced = λ key h. ground (arith, h); all_issued = a })
    | cached e k ↦ rw k (record {
      sourced = λ key h. lookup_locked-Sourced seen s.keys c.kid key a h;
      all_issued = a;
    })
    | after_fetch e m k ↦
        let more : List JwksKey = documents c.reply ++ seen in
        elim (Option-cases (fetch raw_decode c.reply)) [
          | inl f ↦
              let now =
                k
                ∙ ap (after_refresh c (lookup_locked s.keys c.kid))
                    (refresh_locked_failed raw_decode c s f) in
              let old : AllIssued raw_decode more s.keys = λ kid key h.
                Any-right (Issued raw_decode kid key) (documents c.reply) seen (a kid key h) in
              rw now (record {
                sourced = λ key h. lookup_locked-Sourced more s.keys c.kid key old h;
                all_issued = old;
              })
          | inr (keys, f) ↦
              let now =
                k
                ∙ ap (after_refresh c (lookup_locked s.keys c.kid))
                    (refresh_locked_done raw_decode c s keys f) in
              let fresh : AllIssued raw_decode more keys = λ kid key h.
                Any-left (Issued raw_decode kid key) (documents c.reply) seen
                  (fetch-AllIssued raw_decode c.reply keys f kid key h) in
              rw now (record {
                sourced = λ key h. lookup_locked-Sourced more keys c.kid key fresh h;
                all_issued = fresh;
              })
        ]
  ]

  -- The key of an answer, if there is one.
  abbrev pub AnswerSourced : List JwksKey → String → Option PublicKey → Type 0
  AnswerSourced seen kid none = Unit
  AnswerSourced seen kid (some key) = Sourced seen kid key

  -- Each answer comes from what was fetched by then.
  abbrev pub AllSourced : List JwksKey → List (Call × Answer) → Type 0
  AllSourced seen [] = Unit
  AllSourced seen ((c, a) ∷ rest) =
      AnswerSourced (fetched_after seen (c, a)) c.kid a.key
      × AllSourced (fetched_after seen (c, a)) rest

  AnswerSourced-intro :
      (seen : List JwksKey) (kid : String) (o : Option PublicKey)
      → ((key : PublicKey) → o ≡ some key → Sourced seen kid key)
      → AnswerSourced seen kid o
  AnswerSourced-intro seen kid none h = tt
  AnswerSourced-intro seen kid (some key) h = h key refl

  run-AllSourced :
      (calls : List Call) (seen : List JwksKey) (s : JwksKeySource)
      → AllIssued raw_decode seen s.keys
      → AllSourced seen (run raw_decode calls s)
  unfolding run
  run-AllSourced [] seen s a = tt
  run-AllSourced (c ∷ calls) seen s a =
      let h = public_key-Honest seen c s a in
      (
        AnswerSourced-intro _ c.kid _ h.sourced,
        run-AllSourced calls _ (public_key raw_decode c s).source h.all_issued,
      )

keys-apply_option : (opt : JwksOption) (s : JwksKeySource) → (apply_option opt s).keys ≡ s.keys
keys-apply_option (with_jwks_cache_ttl ttl) s = ground arith
keys-apply_option (with_jwks_min_refresh_interval d) s = ground arith

keys-apply_options :
    (opts : List JwksOption) (s : JwksKeySource) → (apply_options opts s).keys ≡ s.keys
keys-apply_options [] s = refl
keys-apply_options (opt ∷ opts) s =
    keys-apply_options opts (apply_option opt s) ∙ keys-apply_option opt s

module _ (raw_decode : String → Option (List ℕ)) where
  new_keys :
      (url : String) (opts : List JwksOption) (seen : List JwksKey)
      → AllIssued raw_decode seen (new_jwks_key_source url opts).keys
  unfolding new_jwks_key_source lookup
  new_keys url opts seen kid key h =
      let empty = ap (lookup kid) (sym (keys-apply_options opts _)) ∙ h in ground (arith, empty)

  -- Each key that a new source of signing keys serves was listed, for RSA signatures and with an exponent
  -- from 1 to 2^31 - 1, in a document that an earlier call or this one fetched with status 200: under
  -- the kid that was asked for, or, for a token without one, under some kid.
  pub run_sourced :
      (url : String) (opts : List JwksOption) (calls : List Call)
      → AllSourced raw_decode [] (run raw_decode calls (new_jwks_key_source url opts))
  run_sourced url opts calls =
      run-AllSourced raw_decode calls [] (new_jwks_key_source url opts) (new_keys url opts [])
