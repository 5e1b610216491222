-- ===== src/Jwks/Issued.antt =====
-- What is known of the keys of a fetched document.
use mathlib.Core.Path.{subst}
use plumbing.Prelude.{
  ℕ, ◌≤◌, ◌<◌, ◌^◌, ◌-◌, ◌⊎◌, ◌||◌, String, string_Comparable, str_eq, eq_iff, ◌≡◌, inl, inr, refl,
  sym, ◌∙◌, true, Option, none, some, List, [], ◌∷◌, lookup, insert, lookup-insert, nat_eq, All,
  All-map, Any, arith, Bool-cases, Option-cases, if◌then◌else◌,
}
use plumbing.Jwks.{
  PublicKey, JwksKey, Keys, Reply, unreachable, answered, is_signing, is_exponent, nonempty,
  set_bytes, decode_base64_url, rsa_public_key, collect_keys, unless_empty, fetch,
}

-- The entries of the document of a reply with status 200.
abbrev pub documents : Reply → List JwksKey
documents (answered status (some ks)) = if nat_eq status 200 then ks else []
documents _ = []

module _ (raw_decode : String → Option (List ℕ)) where
  -- A document listed the key under this kid, for RSA signatures, with an exponent in range.
  pub record Issued (kid : String) (key : PublicKey) (k : JwksKey) : Type 0 where
    pub named : k.kid ≡ kid
    pub decoded : rsa_public_key raw_decode k ≡ some key
    pub kty : k.kty ≡ "RSA"
    pub use_of : (k.use_of ≡ "") ⊎ (k.use_of ≡ "sig")
    pub alg : (k.alg ≡ "") ⊎ (k.alg ≡ "RS256")
    pub positive : 0 < key.e
    pub small : key.e ≤ 2 ^ 31 - 1

  is_signing-Issued :
      (k : JwksKey)
      → is_signing k ≡ true
      → (k.kty ≡ "RSA")
        × ((k.use_of ≡ "") ⊎ (k.use_of ≡ "sig"))
        × ((k.alg ≡ "") ⊎ (k.alg ≡ "RS256"))
  is_signing-Issued k h = (
    (eq_iff k.kty "RSA").0 (ground (arith, h)),
    one_of k.use_of "sig" (ground (arith, h)),
    one_of k.alg "RS256" (ground (arith, h)),
  )
    where
      one_of : (s t : String) → (str_eq s "" || str_eq s t) ≡ true → (s ≡ "") ⊎ (s ≡ t)
      one_of s t h = elim (Bool-cases (str_eq s "")) [
        | inl empty ↦ inl ((eq_iff s "").0 empty)
        | inr full ↦ inr ((eq_iff s t).0 (ground (arith, h, full)))
      ]

  rsa_public_key-signing :
      (k : JwksKey) (key : PublicKey) → rsa_public_key raw_decode k ≡ some key → is_signing k ≡ true
  unfolding rsa_public_key
  rsa_public_key-signing k key h = elim (Bool-cases (is_signing k)) [
    | inl e ↦ e
    | inr e ↦ ground (arith, e, h)
  ]

  rsa_public_key_parts :
      (k : JwksKey) (n_bytes e_bytes : List ℕ)
      → is_signing k ≡ true
      → nonempty (decode_base64_url raw_decode k.n) ≡ some n_bytes
      → nonempty (decode_base64_url raw_decode k.e) ≡ some e_bytes
      → rsa_public_key raw_decode k ≡ (
          if is_exponent (set_bytes 0 e_bytes)
          then some (record { n = set_bytes 0 n_bytes; e = set_bytes 0 e_bytes })
          else none)
  unfolding rsa_public_key
  rsa_public_key_parts k n_bytes e_bytes h n e = rw (h, n, e) refl

  guarded_exponent :
      (n : ℕ) (e : ℕ) (key : PublicKey)
      → (if is_exponent e then some (record { n = n; e = e }) else none) ≡ some key
      → is_exponent key.e ≡ true
  guarded_exponent n e key h = elim (Bool-cases (is_exponent e)) [
    | inl ok ↦ ground (arith, h, ok)
    | inr bad ↦ ground (arith, h, bad)
  ]

  rsa_public_key-exponent :
      (k : JwksKey) (key : PublicKey)
      → rsa_public_key raw_decode k ≡ some key
      → is_exponent key.e ≡ true
  unfolding rsa_public_key
  rsa_public_key-exponent k key h =
      elim (Option-cases (nonempty (decode_base64_url raw_decode k.n))) [
        | inl none_n ↦ ground (arith, h, none_n, rsa_public_key-signing k key h)
        | inr (n_bytes, n_there) ↦
            elim (Option-cases (nonempty (decode_base64_url raw_decode k.e))) [
              | inl none_e ↦ ground (arith, h, n_there, none_e, rsa_public_key-signing k key h)
              | inr (e_bytes, e_there) ↦
                  guarded_exponent (set_bytes 0 n_bytes) (set_bytes 0 e_bytes) key (
                    sym (
                      rsa_public_key_parts k n_bytes e_bytes (rsa_public_key-signing k key h)
                        n_there e_there)
                    ∙ h)
            ]
      ]

  rsa_public_key-Issued :
      (k : JwksKey) (key : PublicKey) → rsa_public_key raw_decode k ≡ some key → Issued k.kid key k
  unfolding rsa_public_key
  rsa_public_key-Issued k key h = record {
    named = refl;
    decoded = h;
    kty = (is_signing-Issued k (rsa_public_key-signing k key h)).0;
    use_of = (is_signing-Issued k (rsa_public_key-signing k key h)).1;
    alg = (is_signing-Issued k (rsa_public_key-signing k key h)).2;
    positive = ground (arith, rsa_public_key-exponent k key h);
    small = ground (arith, rsa_public_key-exponent k key h);
  }

  abbrev pub AllIssued : List JwksKey → Keys → Type 0
  AllIssued seen keys =
      (kid : String) (key : PublicKey) → lookup kid keys ≡ some key → Any (Issued kid key) seen

  collect_keys_skips :
      (k : JwksKey) (ks : List JwksKey) (keys : Keys)
      → rsa_public_key raw_decode k ≡ none
      → collect_keys raw_decode (k ∷ ks) keys ≡ collect_keys raw_decode ks keys
  unfolding collect_keys
  collect_keys_skips k ks keys e = rw (e, collect_keys) refl

  collect_keys_takes :
      (k : JwksKey) (ks : List JwksKey) (keys : Keys) (key : PublicKey)
      → rsa_public_key raw_decode k ≡ some key
      → collect_keys raw_decode (k ∷ ks) keys ≡ collect_keys raw_decode ks (insert k.kid key keys)
  unfolding collect_keys
  collect_keys_takes k ks keys key e = rw (e, collect_keys) refl

  -- The entries are among those of `seen`.
  abbrev Among : List JwksKey → List JwksKey → Type 0
  Among seen ks =
      All
        (λ k.
          (key : PublicKey) → rsa_public_key raw_decode k ≡ some key → Any (Issued k.kid key) seen)
        ks

  insert-AllIssued :
      (seen : List JwksKey) (keys : Keys) (kid : String) (key : PublicKey)
      → Any (Issued kid key) seen
      → AllIssued seen keys
      → AllIssued seen (insert kid key keys)
  insert-AllIssued seen keys kid key i a name value h = elim (Bool-cases (str_eq kid name)) [
    | inl e ↦
        let same_value : key ≡ value = ground (arith, h, e, lookup-insert kid name key keys) in
        subst (λ v. Any (Issued name v) seen) same_value
          (subst (λ n. Any (Issued n key) seen) ((eq_iff kid name).0 e) i)
    | inr e ↦ a name value (ground (arith, h, e, lookup-insert kid name key keys))
  ]

  collect_keys-AllIssued :
      (ks : List JwksKey) (seen : List JwksKey) (keys : Keys)
      → Among seen ks
      → AllIssued seen keys
      → AllIssued seen (collect_keys raw_decode ks keys)
  unfolding collect_keys
  collect_keys-AllIssued [] seen keys h a = a
  collect_keys-AllIssued (k ∷ ks) seen keys h a =
      elim (Option-cases (rsa_public_key raw_decode k)) [
        | inl e ↦
            subst (AllIssued seen) (sym (collect_keys_skips k ks keys e))
              (collect_keys-AllIssued ks seen keys h.1 a)
        | inr (key, e) ↦ subst (AllIssued seen) (sym (collect_keys_takes k ks keys key e)) (
            collect_keys-AllIssued ks seen (insert k.kid key keys) h.1
              (insert-AllIssued seen keys k.kid key (h.0 key e) a))
      ]

  Among-self : (ks : List JwksKey) → Among ks ks
  Among-self [] = tt
  Among-self (k ∷ ks) = (
    (λ key e. inl (rsa_public_key-Issued k key e)),
    All-map _ _ ks (λ x f key e. inr (f key e)) (Among-self ks),
  )

  unless_empty_lem : (keys more : Keys) → unless_empty keys ≡ some more → keys ≡ more
  unless_empty_lem [] more h = ground (arith, h)
  unless_empty_lem (k ∷ keys) more h = ground (arith, h)

  pub fetch-AllIssued :
      (reply : Reply) (keys : Keys)
      → fetch raw_decode reply ≡ some keys
      → AllIssued (documents reply) keys
  unfolding fetch lookup
  fetch-AllIssued unreachable keys h = ground (arith, h)
  fetch-AllIssued (answered status none) keys h = ground (arith, h)
  fetch-AllIssued (answered status (some ks)) keys h = elim (Bool-cases (nat_eq status 200)) [
    | inr e ↦ ground (arith, e, h)
    | inl e ↦
        let same : collect_keys raw_decode ks [] ≡ keys =
          unless_empty_lem _ keys (ground (arith, e, h)) in
        rw e (
          subst (AllIssued ks) same
            (collect_keys-AllIssued ks ks [] (Among-self ks) (λ kid key l. ground (arith, l))))
  ]
