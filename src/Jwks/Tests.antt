-- ===== src/Jwks/Tests.antt =====
-- One key, two calls a second apart.
use plumbing.Prelude.{
  ℕ, ◌+◌, pos, String, string_Comparable, ◌≡◌, refl, Option, none, some, List, [], ◌∷◌, All, arith,
}
use plumbing.Jwks.{
  PublicKey, JwksKey, Reply, unreachable, answered, JwksKeySource, Call, Answer,
  new_jwks_key_source, lookup_locked, fetch, rsa_public_key, decode_base64_url, trim_padding, run,
}
use plumbing.Jwks.Outage.{Failing, run_outage}
use plumbing.Jwks.Spacing.{Spaced, run-Spaced}
use plumbing.Jwks.Served.{AllSourced, run_sourced}

-- 65537, whatever the text.
abbrev raw_decode : String → Option (List ℕ)
raw_decode s = some (1 ∷ 0 ∷ 1 ∷ [])

abbrev listed : JwksKey
listed = record { kty = "RSA"; use_of = "sig"; alg = ""; kid = "a"; n = "AQAB"; e = "AQAB" }

abbrev key : PublicKey
key = record { n = 65537; e = 65537 }

abbrev call_at : ℕ → Reply → Call
call_at t reply = record {
  kid = "a";
  now_ttl = pos t;
  now_floor = pos t;
  now_attempt = pos t;
  now_fetched = pos (t + 1);
  reply = reply;
}

abbrev calls : List Call
calls = call_at 0 (answered 200 (some (listed ∷ []))) ∷ call_at 1_000_000_000 unreachable ∷ []

abbrev filled_source : JwksKeySource
filled_source = record {
  url = "https://authn";
  ttl = pos 10;
  min_refresh_interval = pos 5;
  keys = ("a", key) ∷ [];
  fetched_at = some (pos 0);
  last_attempt = some (pos 0);
}

abbrev outage : List Call
outage = call_at 100 unreachable ∷ call_at 200 (answered 500 none) ∷ []

key_decoded : rsa_public_key raw_decode listed ≡ some key
unfolding rsa_public_key decode_base64_url trim_padding
key_decoded = refl

outage_fails : All (Failing raw_decode) outage
unfolding fetch
outage_fails = (refl, (refl, tt))

run_outage_example :
    All
      (λ (entry : Call × Answer). (entry.1).key ≡ lookup_locked filled_source.keys (entry.0).kid)
      (run raw_decode outage filled_source)
run_outage_example = run_outage raw_decode outage filled_source refl outage_fails

run-Spaced_example : Spaced (pos 5) (some (pos 0)) (run raw_decode outage filled_source)
run-Spaced_example = run-Spaced raw_decode outage filled_source (omega arith, (omega arith, tt))

run_sourced_example :
    AllSourced raw_decode [] (run raw_decode calls (new_jwks_key_source "https://authn" []))
run_sourced_example = run_sourced raw_decode "https://authn" [] calls
