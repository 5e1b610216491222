-- ===== src/Cors/Handler/Tests.antt =====
-- A handler for origins that begin with `h` and end with `b`.
use plumbing.Prelude.{
  pos, string_Comparable, str_eq, ◌≡◌, refl, ◌↔◌, ◌⊎◌, true, false, none, some, [], ◌∷◌, codes,
  lookup, insert, arith, Any, if◌then◌else◌,
}
use plumbing.Cors.Policy.{TextOps, Request, Options, new, is_origin_allowed, is_method_allowed}
use plumbing.Cors.Policy.Origins.{Admits, is_origin_allowed-new}
use plumbing.Cors.Handler.{Headers, origin_of, handler}
use plumbing.Cors.Handler.Grants.{grants, allow_origin, handler-new-Admits}

abbrev ops : TextOps
ops = record { to_lower = λ s. s; to_upper = λ s. s; canonical_header_key = λ s. s; itoa = λ i. [] }

abbrev options : Options Unit
options = record {
  allowed_origins = codes "h*b" ∷ [];
  allow_origin_func = none;
  allowed_methods = [];
  allowed_headers = [];
  exposed_headers = [];
  allow_credentials = true;
  max_age = pos 0;
  options_passthrough = false;
}

abbrev request : Request Unit
request = record {
  method = codes "GET";
  header_get = λ name. if str_eq name "Origin" then codes "hxb" else [];
  rest = tt;
}

abbrev no_headers : Headers
no_headers = []

nothing_granted : grants no_headers ≡ (none, none)
unfolding lookup
nothing_granted = refl

is_origin_allowed-new_example :
    (is_origin_allowed ops (new ops options) request (codes "hxb") ≡ true) ↔ (
      (options.allowed_origins ≡ [])
      ⊎ Any (λ o. Admits (ops.to_lower o) (ops.to_lower (codes "hxb"))) options.allowed_origins)
is_origin_allowed-new_example = is_origin_allowed-new ops options request (codes "hxb") refl

origin_granted :
    lookup allow_origin (handler ops (new ops options) request no_headers).headers
    ≡ some (codes "hxb" ∷ [])
unfolding handler lookup is_origin_allowed new is_method_allowed insert
origin_granted = refl

handler-new-Admits_example :
    Any (λ o. Admits (ops.to_lower o) (ops.to_lower (origin_of request))) options.allowed_origins
handler-new-Admits_example =
    handler-new-Admits ops options request no_headers (codes "hxb" ∷ []) refl
      (λ e. ground (arith, e)) nothing_granted origin_granted
