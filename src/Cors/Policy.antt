-- ===== src/Cors/Policy.antt =====
-- server/use/cors/cors.go: the options, the tables that `New` makes of them, and the three tests.
-- Texts are lists of bytes. Case mapping, canonical header keys and decimal numbers are the standard
-- library's, the record `TextOps`; `R` is the rest of a request that an origin function may look at.
pub mod Origins
use plumbing.Prelude.{
  ℕ, ℤ, pos, String, Bool, true, false, ◌||◌, Option, none, some, List, [], ◌∷◌, ◌++◌, any, codes,
  nat_eq, if◌then◌else◌,
}
use plumbing.Cors.{Wildcard, wildcard_match, same_bytes, convert}

abbrev pub Bytes : Type 0
Bytes = List ℕ

pub record TextOps : Type 0 where
  pub to_lower : Bytes → Bytes
  pub to_upper : Bytes → Bytes
  pub canonical_header_key : Bytes → Bytes
  pub itoa : ℤ → Bytes

abbrev pub star : Bytes
star = 42 ∷ []

abbrev pub method_options : Bytes
method_options = codes "OPTIONS"

abbrev pub header_origin : Bytes
header_origin = codes "Origin"

pub record Request (R : Type 0) : Type 0 where
  pub method : Bytes
  pub header_get : String → Bytes
  pub rest : R

pub record Options (R : Type 0) : Type 0 where
  pub allowed_origins : List Bytes
  pub allow_origin_func : Option (Request R → Bytes → Bool)
  pub allowed_methods : List Bytes
  pub allowed_headers : List Bytes
  pub exposed_headers : List Bytes
  pub allow_credentials : Bool
  pub max_age : ℤ
  pub options_passthrough : Bool

-- The allowed origins: all of them, plain ones, and ones with a wildcard.
pub record OriginTable : Type 0 where
  pub allowed_origins_all : Bool
  pub allowed_origins : List Bytes
  pub allowed_w_origins : List Wildcard

pub record Cors (R : Type 0) : Type 0 where
  pub origins : OriginTable
  pub allow_origin_func : Option (Request R → Bytes → Bool)
  pub allowed_headers : List Bytes
  pub allowed_headers_all : Bool
  pub allowed_methods : List Bytes
  pub exposed_headers : List Bytes
  pub max_age : ℤ
  pub allow_credentials : Bool
  pub option_passthrough : Bool

abbrev pub no_origins : OriginTable
no_origins = record { allowed_origins_all = false; allowed_origins = []; allowed_w_origins = [] }

abbrev pub all_origins : OriginTable
all_origins = record { allowed_origins_all = true; allowed_origins = []; allowed_w_origins = [] }

abbrev pub before_star : ℕ → Wildcard → Wildcard
before_star b w = record w { prefix = b ∷ w.prefix }

-- The origin in two at its first `*`, if it has one.
pub split_star : Bytes → Option Wildcard
split_star [] = none
split_star (b ∷ s) =
    let rest = split_star s in
    if nat_eq b 42
    then some (record { prefix = []; suffix = s })
    else elim rest [ none ↦ none | some w ↦ some (before_star b w) ]

-- The table with a normalized origin.
pub with_origin : Bytes → OriginTable → OriginTable
unfolding split_star
with_origin origin t = elim (split_star origin) [
  | some w ↦ record t { allowed_w_origins = t.allowed_w_origins ++ w ∷ [] }
  | none ↦ record t { allowed_origins = t.allowed_origins ++ origin ∷ [] }
]

-- The tests of the tables, for an origin in lower case.
pub in_table : OriginTable → Bytes → Bool
unfolding wildcard_match same_bytes
in_table t origin =
    any (λ o. same_bytes o origin) t.allowed_origins
    || any (λ w. wildcard_match w origin) t.allowed_w_origins

abbrev pub method_listed : Bytes → List Bytes → Bool
method_listed m [] = false
method_listed m (k ∷ ms) =
    if same_bytes m method_options then true else any (λ k. same_bytes k m) (k ∷ ms)

module _ (ops : TextOps) where
  pub add_origins : List Bytes → OriginTable → OriginTable
  unfolding with_origin same_bytes
  add_origins [] t = t
  add_origins (o ∷ rest) t =
      let origin = ops.to_lower o in
      let more = add_origins rest (with_origin origin t) in
      if same_bytes origin star then all_origins else more

  pub each_header : List Bytes → List Bytes → Bool
  unfolding same_bytes
  each_header allowed [] = true
  each_header allowed (header ∷ requested) =
      let rest = each_header allowed requested in
      if any (λ h. same_bytes h (ops.canonical_header_key header)) allowed then rest else false

  module _ {R : Type 0} where
    pub origin_table : Options R → OriginTable
    unfolding add_origins
    origin_table options = elim options.allowed_origins [
      | [] ↦ elim options.allow_origin_func [ none ↦ all_origins | some f ↦ no_origins ]
      | o ∷ rest ↦ add_origins (o ∷ rest) no_origins
    ]

    abbrev pub any_header : Options R → Bool
    any_header options = any (λ h. same_bytes h star) options.allowed_headers

    pub header_table : Options R → List Bytes
    unfolding convert same_bytes
    header_table options = elim options.allowed_headers [
      | [] ↦ header_origin ∷ codes "Accept" ∷ codes "Content-Type" ∷ []
      | h ∷ rest ↦
          if any_header options
          then []
          else convert ((h ∷ rest) ++ header_origin ∷ []) ops.canonical_header_key
    ]

    pub method_table : Options R → List Bytes
    unfolding convert
    method_table options = elim options.allowed_methods [
      | [] ↦ codes "GET" ∷ codes "POST" ∷ codes "HEAD" ∷ []
      | m ∷ rest ↦ convert (m ∷ rest) ops.to_upper
    ]

    unfoldable pub new : Options R → Cors R
    unfolding origin_table header_table method_table convert
    new options = record {
      origins = origin_table options;
      allow_origin_func = options.allow_origin_func;
      allowed_headers = header_table options;
      allowed_headers_all = any_header options;
      allowed_methods = method_table options;
      exposed_headers = convert options.exposed_headers ops.canonical_header_key;
      max_age = options.max_age;
      allow_credentials = options.allow_credentials;
      option_passthrough = options.options_passthrough;
    }

    -- The options of `AllowAll`.
    abbrev pub allow_all_options : Options R
    allow_all_options = record {
      allowed_origins = star ∷ [];
      allow_origin_func = none;
      allowed_methods =
          codes "HEAD"
          ∷ codes "GET"
          ∷ codes "POST"
          ∷ codes "PUT"
          ∷ codes "PATCH"
          ∷ codes "DELETE"
          ∷ [];
      allowed_headers = star ∷ [];
      exposed_headers = [];
      allow_credentials = false;
      max_age = pos 0;
      options_passthrough = false;
    }

    pub allow_all : Cors R
    unfolding new
    allow_all = new allow_all_options

    unfoldable pub is_origin_allowed : Cors R → Request R → Bytes → Bool
    unfolding in_table
    is_origin_allowed c r origin = elim c.allow_origin_func [
      | some f ↦ f r origin
      | none ↦ c.origins.allowed_origins_all || in_table c.origins (ops.to_lower origin)
    ]

    unfoldable pub is_method_allowed : Cors R → Bytes → Bool
    unfolding same_bytes
    is_method_allowed c method = method_listed (ops.to_upper method) c.allowed_methods

    pub are_headers_allowed : Cors R → List Bytes → Bool
    unfolding each_header
    are_headers_allowed c requested =
        c.allowed_headers_all || each_header c.allowed_headers requested
