-- ===== src/Jwks.antt =====
-- jwtutil/jwks.go: the cache of signing keys that are read from a remote document. Times are
-- nanoseconds, and a zero time is `none`. Each call of `PublicKey` holds the mutex, and is one step.
-- Parameters are the raw base64url decoder and, in each call, the readings of the clock and the reply.
mod Outcomes
mod Issued
mod Served
mod Outage
mod Spacing
mod Tests
use Prim.Native.Char.{code}
use Prim.Native.String
use plumbing.Prelude.{
  ℕ, ◌+◌, ◌-◌, ◌*◌, ◌^◌, String, string_Comparable, str_eq, Bool, true, false, not, ◌&&◌, ◌||◌,
  Option, none, some, List, [], ◌∷◌, nat_eq, ltb, leb, length, lookup, insert, ℤ, pos, ◌-ℤ◌, ltb_ℤ,
  leb_ℤ, if◌then◌else◌,
}

pub record PublicKey : Type 0 where
  pub n : ℕ
  pub e : ℕ

pub record JwksKey : Type 0 where
  pub kty : String
  pub use_of : String
  pub alg : String
  pub kid : String
  pub n : String
  pub e : String

abbrev pub Keys : Type 0
Keys = List (String × PublicKey)

-- What the fetch meets: no response, or a status with the document, if its body can be read and decoded.
pub data Reply : Type 0 where
  unreachable : Reply
  answered : ℕ → Option (List JwksKey) → Reply

pub record JwksKeySource : Type 0 where
  pub url : String
  pub ttl : ℤ
  pub min_refresh_interval : ℤ
  pub keys : Keys
  pub fetched_at : Option ℤ
  pub last_attempt : Option ℤ

abbrev pub default_ttl : ℤ
default_ttl = pos 300_000_000_000

abbrev pub default_min_refresh_interval : ℤ
default_min_refresh_interval = pos 30_000_000_000

pub data JwksOption : Type 0 where
  with_jwks_cache_ttl : ℤ → JwksOption
  with_jwks_min_refresh_interval : ℤ → JwksOption

abbrev pub apply_option : JwksOption → JwksKeySource → JwksKeySource
apply_option (with_jwks_cache_ttl ttl) s = if ltb_ℤ (pos 0) ttl then record s { ttl = ttl } else s
apply_option (with_jwks_min_refresh_interval d) s =
    if ltb_ℤ (pos 0) d then record s { min_refresh_interval = d } else s

abbrev pub apply_options : List JwksOption → JwksKeySource → JwksKeySource
apply_options [] s = s
apply_options (opt ∷ opts) s = apply_options opts (apply_option opt s)

pub new_jwks_key_source : String → List JwksOption → JwksKeySource
new_jwks_key_source url opts = apply_options opts (record {
  url = url;
  ttl = default_ttl;
  min_refresh_interval = default_min_refresh_interval;
  keys = [];
  fetched_at = none;
  last_attempt = none;
})

-- `strings.TrimRight(s, "=")`
pub trim_padding : String → String
trim_padding String.[] = String.[]
trim_padding (String.◌∷◌ c s) =
    let rest = trim_padding s in
    if nat_eq (code c) 61 && str_eq rest "" then String.[] else String.◌∷◌ c rest

-- `big.Int.SetBytes`, from the most significant byte.
abbrev pub set_bytes : ℕ → List ℕ → ℕ
set_bytes x [] = x
set_bytes x (b ∷ bytes) = set_bytes (x * 256 + b) bytes

abbrev pub max_int32 : ℕ
max_int32 = 2 ^ 31 - 1

abbrev pub is_signing : JwksKey → Bool
is_signing k =
    str_eq k.kty "RSA"
    && (str_eq k.use_of "" || str_eq k.use_of "sig")
    && (str_eq k.alg "" || str_eq k.alg "RS256")

abbrev pub is_exponent : ℕ → Bool
is_exponent e = ltb 0 e && leb e max_int32

abbrev pub nonempty : Option (List ℕ) → Option (List ℕ)
nonempty (some (b ∷ bytes)) = some (b ∷ bytes)
nonempty _ = none

-- `lookupLocked`; a token without a kid takes the only key.
pub lookup_locked : Keys → String → Option PublicKey
lookup_locked keys kid =
    if str_eq kid ""
    then elim keys [
      | [] ↦ none
      | first ∷ rest ↦ elim rest [ [] ↦ some first.1 | second ∷ more ↦ none ]
    ]
    else lookup kid keys

-- The clock at each place where the code reads it, and the reply to the fetch if there is one.
pub record Call : Type 0 where
  pub kid : String
  pub now_ttl : ℤ
  pub now_floor : ℤ
  pub now_attempt : ℤ
  pub now_fetched : ℤ
  pub reply : Reply

pub record Answer : Type 0 where
  pub key : Option PublicKey
  pub source : JwksKeySource
  pub fetched : Bool

abbrev pub unless_empty : Keys → Option Keys
unless_empty [] = none
unless_empty (k ∷ keys) = some (k ∷ keys)

abbrev pub is_fresh : Call → JwksKeySource → Bool
is_fresh c s = elim s.fetched_at [ none ↦ false | some t ↦ ltb_ℤ (c.now_ttl -ℤ t) s.ttl ]

abbrev pub may_fetch : Call → JwksKeySource → Bool
may_fetch c s = elim s.last_attempt [
  | none ↦ true
  | some t ↦ leb_ℤ s.min_refresh_interval (c.now_floor -ℤ t)
]

-- A key, after a fetch: the new one, or the cached one if the fetch failed.
abbrev pub after_refresh : Call → Option PublicKey → JwksKeySource × Bool → Answer
after_refresh c cached (s, true) = record {
  key = lookup_locked s.keys c.kid;
  source = s;
  fetched = true;
}
after_refresh c cached (s, false) = record { key = cached; source = s; fetched = true }

module _ (raw_decode : String → Option (List ℕ)) where
  pub decode_base64_url : String → Option (List ℕ)
  unfolding trim_padding
  decode_base64_url s = raw_decode (trim_padding s)

  pub rsa_public_key : JwksKey → Option PublicKey
  unfolding decode_base64_url
  rsa_public_key k = if not (is_signing k) then none else elim (nonempty (decode_base64_url k.n)) [
    | none ↦ none
    | some n_bytes ↦ elim (nonempty (decode_base64_url k.e)) [
      | none ↦ none
      | some e_bytes ↦
          if is_exponent (set_bytes 0 e_bytes)
          then some (record { n = set_bytes 0 n_bytes; e = set_bytes 0 e_bytes })
          else none
    ]
  ]

  pub collect_keys : List JwksKey → Keys → Keys
  unfolding rsa_public_key
  collect_keys [] keys = keys
  collect_keys (k ∷ ks) keys =
      collect_keys ks (elim (rsa_public_key k) [ none ↦ keys | some key ↦ insert k.kid key keys ])

  pub fetch : Reply → Option Keys
  unfolding collect_keys
  fetch unreachable = none
  fetch (answered status doc) =
      if nat_eq status 200
      then elim doc [ none ↦ none | some ks ↦ unless_empty (collect_keys ks []) ]
      else none

  -- The source after a fetch, and whether it succeeded.
  pub refresh_locked : Call → JwksKeySource → JwksKeySource × Bool
  unfolding fetch
  refresh_locked c s =
      let tried = record s { last_attempt = some c.now_attempt } in
      elim (fetch c.reply) [
        | none ↦ (tried, false)
        | some keys ↦ (record tried { keys = keys; fetched_at = some c.now_fetched }, true)
      ]

  pub public_key : Call → JwksKeySource → Answer
  unfolding lookup_locked refresh_locked
  public_key c s =
      let cached = lookup_locked s.keys c.kid in
      let found : Bool = elim cached [ none ↦ false | some key ↦ true ] in
      if str_eq s.url ""
      then record { key = none; source = s; fetched = false }
      else if found && is_fresh c s
      then record { key = cached; source = s; fetched = false }
      else if may_fetch c s
      then after_refresh c cached (refresh_locked c s)
      else record { key = cached; source = s; fetched = false }

  -- The calls of a run, one after the other, with their answers.
  pub run : List Call → JwksKeySource → List (Call × Answer)
  unfolding public_key
  run [] s = []
  run (c ∷ calls) s = let a = public_key c s in (c, a) ∷ run calls a.source
