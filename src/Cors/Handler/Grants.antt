-- ===== src/Cors/Handler/Grants.antt =====
-- When a response grants a request, and with what.
use plumbing.Prelude.{
  pos, String, string_Comparable, str_eq, ◌≡◌, ◌≢◌, refl, sym, ap, ◌∙◌, inl, inr, Bool, true, false,
  not, ◌&&◌, ◌||◌, Option, none, some, List, [], ◌∷◌, ◌++◌, codes, lookup, lookup-insert, ltb_ℤ,
  if◌then◌else◌, arith, Bool-cases, Any,
}
use plumbing.Cors.{same_bytes}
use plumbing.Cors.Policy.{
  Bytes, TextOps, Request, Options, Cors, method_options, new, is_origin_allowed, is_method_allowed,
  are_headers_allowed,
}
use plumbing.Cors.Policy.Origins.{Admits, is_origin_allowed-new}
use plumbing.Cors.Handler.{
  Headers, values, add_header, set_header, is_empty, origin_of, requested_method, requested_headers,
  vary_preflight, granted_origin, set_allowed, set_credentials, set_requested, set_max_age,
  set_exposed, set_methods, handle_preflight, handle_actual_request, is_preflight, handler,
}

abbrev pub allow_origin : String
allow_origin = "Access-Control-Allow-Origin"

abbrev pub allow_credentials_name : String
allow_credentials_name = "Access-Control-Allow-Credentials"

-- The two headers that let a page of another origin read a response.
abbrev pub grants : Headers → Option (List Bytes) × Option (List Bytes)
grants h = (lookup allow_origin h, lookup allow_credentials_name h)

abbrev is_grant : String → Bool
is_grant name = str_eq name allow_origin || str_eq name allow_credentials_name

set_header_other :
    (name : String) (v : Bytes) (h : Headers)
    → is_grant name ≡ false
    → grants (set_header name v h) ≡ grants h
unfolding set_header
set_header_other name v h e = ground (
  arith,
  e,
  lookup-insert name allow_origin (v ∷ []) h,
  lookup-insert name allow_credentials_name (v ∷ []) h,
)

add_header_other :
    (name : String) (v : Bytes) (h : Headers)
    → is_grant name ≡ false
    → grants (add_header name v h) ≡ grants h
unfolding add_header
add_header_other name v h e = ground (
  arith,
  e,
  lookup-insert name allow_origin (values name h ++ v ∷ []) h,
  lookup-insert name allow_credentials_name (values name h ++ v ∷ []) h,
)

grants-vary_preflight : (h : Headers) → grants (vary_preflight h) ≡ grants h
unfolding vary_preflight
grants-vary_preflight h =
    add_header_other "Vary" _ _ refl
    ∙ add_header_other "Vary" _ _ refl
    ∙ add_header_other "Vary" _ h refl

second_test : (a b d : Bool) → (a && b && d) ≡ true → b ≡ true
second_test a b d h = ground (arith, h)

module _ (ops : TextOps) {R : Type 0} where
  grants-set_requested : (r : Request R) (h : Headers) → grants (set_requested ops r h) ≡ grants h
  unfolding set_requested
  grants-set_requested r h = elim (Bool-cases (is_empty (requested_headers ops r))) [
    | inl e ↦ rw e refl
    | inr e ↦ rw e (set_header_other "Access-Control-Allow-Headers" _ h refl)
  ]

  grants-set_max_age : (c : Cors R) (h : Headers) → grants (set_max_age ops c h) ≡ grants h
  unfolding set_max_age
  grants-set_max_age c h = elim (Bool-cases (ltb_ℤ (pos 0) c.max_age)) [
    | inl e ↦ rw e (set_header_other "Access-Control-Max-Age" _ h refl)
    | inr e ↦ rw e refl
  ]

  grants-set_exposed : (c : Cors R) (h : Headers) → grants (set_exposed ops c h) ≡ grants h
  unfolding set_exposed
  grants-set_exposed c h = elim (Bool-cases (is_empty c.exposed_headers)) [
    | inl e ↦ rw e refl
    | inr e ↦ rw e (set_header_other "Access-Control-Expose-Headers" _ h refl)
  ]

  grants-set_methods : (r : Request R) (h : Headers) → grants (set_methods ops r h) ≡ grants h
  unfolding set_methods
  grants-set_methods r h = set_header_other "Access-Control-Allow-Methods" _ h refl

  -- What a response grants: nothing, or the origin, with credentials if they are allowed.
  abbrev pub granted : Bool → Cors R → Request R → Option (List Bytes) × Option (List Bytes)
  granted false c r = (none, none)
  granted true c r = (
    some ((if c.origins.allowed_origins_all then codes "*" else r.header_get "Origin") ∷ []),
    if c.allow_credentials then some (codes "true" ∷ []) else none,
  )

  only_true :
      (b : Bool) (c : Cors R) (r : Request R) (v : List Bytes)
      → (granted b c r).0 ≡ some v
      → b ≡ true
  only_true true c r v h = refl
  only_true false c r v h = ground (arith, h)

  grants-set_allowed :
      (c : Cors R) (r : Request R) (h : Headers)
      → grants (set_allowed ops c r h)
        ≡ (some (granted_origin ops c r ∷ []), lookup allow_credentials_name h)
  unfolding set_allowed set_header
  grants-set_allowed c r h = ground (
    arith,
    lookup-insert allow_origin allow_origin (granted_origin ops c r ∷ []) h,
    lookup-insert allow_origin allow_credentials_name (granted_origin ops c r ∷ []) h,
  )

  grants-set_credentials :
      (c : Cors R) (h : Headers)
      → grants (set_credentials ops c h) ≡ (
        lookup allow_origin h,
        if c.allow_credentials then some (codes "true" ∷ []) else lookup allow_credentials_name h,
      )
  unfolding set_credentials set_header
  grants-set_credentials c h = ground (
    arith,
    lookup-insert allow_credentials_name allow_origin (codes "true" ∷ []) h,
    lookup-insert allow_credentials_name allow_credentials_name (codes "true" ∷ []) h,
  )

  -- The origin and the credentials are set, and headers between them.
  both_set :
      (c : Cors R) (r : Request R) (h : Headers) (between : Headers → Headers)
      → ((k : Headers) → grants (between k) ≡ grants k)
      → grants h ≡ (none, none)
      → grants (set_credentials ops c (between (set_allowed ops c r h))) ≡ granted true c r
  both_set c r h between same e =
      let k : Headers = between (set_allowed ops c r h) in
      let first : grants k ≡ (some (granted_origin ops c r ∷ []), none) =
        same (set_allowed ops c r h)
        ∙ grants-set_allowed c r h
        ∙ ap
            (λ (x : Option (List Bytes) × Option (List Bytes)).
              (some (granted_origin ops c r ∷ []), x.1))
            e in
      grants-set_credentials c k
      ∙ ap
          (λ (x : Option (List Bytes) × Option (List Bytes)).
            (x.0, if c.allow_credentials then some (codes "true" ∷ []) else x.1))
          first

  -- What is asked of a request: of a preflight, which is an OPTIONS that announces a method, the method
  -- and headers that it announces.
  abbrev pub is_permitted : Cors R → Request R → Bool
  is_permitted c r =
      not (is_empty (origin_of r))
      && is_origin_allowed ops c r (origin_of r)
      && (if same_bytes r.method (codes "OPTIONS")
            && not (is_empty (r.header_get "Access-Control-Request-Method"))
          then is_method_allowed ops c (requested_method r)
            && are_headers_allowed ops c (requested_headers ops r)
          else is_method_allowed ops c r.method)

  -- The early returns: all tests have to pass.
  guarded :
      (c : Cors R) (r : Request R) (unset set : Headers)
      → grants unset ≡ (none, none)
      → grants set ≡ granted true c r
      → (empty origin method headers : Bool)
      → grants (
          if empty
          then unset
          else if not origin
          then unset
          else if not method
          then unset
          else if not headers
          then unset
          else set)
        ≡ granted (not empty && origin && (method && headers)) c r
  guarded c r unset set u s true origin method headers = u
  guarded c r unset set u s false false method headers = u
  guarded c r unset set u s false true false headers = u
  guarded c r unset set u s false true true false = u
  guarded c r unset set u s false true true true = s

  guarded_actual :
      (c : Cors R) (r : Request R) (unset set : Headers)
      → grants unset ≡ (none, none)
      → grants set ≡ granted true c r
      → (empty origin method : Bool)
      → grants
          (if empty then unset else if not origin then unset else if not method then unset else set)
        ≡ granted (not empty && origin && method) c r
  guarded_actual c r unset set u s true origin method = u
  guarded_actual c r unset set u s false false method = u
  guarded_actual c r unset set u s false true false = u
  guarded_actual c r unset set u s false true true = s

  grants-handle_preflight :
      (c : Cors R) (r : Request R) (h : Headers)
      → is_preflight ops r ≡ true
      → grants h ≡ (none, none)
      → grants (handle_preflight ops c r h) ≡ granted (is_permitted c r) c r
  unfolding handle_preflight is_preflight
  grants-handle_preflight c r h p e =
      let is_options : same_bytes r.method method_options ≡ true = ground (arith, p) in
      let named : is_empty (requested_method r) ≡ false = ground (arith, p) in
      rw (is_options, named)
        (guarded c r (vary_preflight h) _ (grants-vary_preflight h ∙ e)
          (grants-set_max_age c _
            ∙ both_set c r (vary_preflight h) (λ k. set_requested ops r (set_methods ops r k))
                (λ k. grants-set_requested r (set_methods ops r k) ∙ grants-set_methods r k)
                (grants-vary_preflight h ∙ e))
          _ _ _ _)

  grants-handle_actual_request :
      (c : Cors R) (r : Request R) (h : Headers)
      → is_preflight ops r ≡ false
      → grants h ≡ (none, none)
      → grants (handle_actual_request ops c r h) ≡ granted (is_permitted c r) c r
  unfolding handle_actual_request is_preflight
  grants-handle_actual_request c r h p e =
      let same : grants (add_header "Vary" (codes "Origin") h) ≡ (none, none) =
        add_header_other "Vary" (codes "Origin") h refl ∙ e in
      rw p (
        guarded_actual c r (add_header "Vary" (codes "Origin") h) _ same
          (both_set c r (add_header "Vary" (codes "Origin") h) (set_exposed ops c)
            (grants-set_exposed c) same)
          _ _ _)

  handler_preflight :
      (c : Cors R) (r : Request R) (h : Headers)
      → is_preflight ops r ≡ true
      → (handler ops c r h).headers ≡ handle_preflight ops c r h
  unfolding handler
  handler_preflight c r h p = rw p refl

  handler_actual :
      (c : Cors R) (r : Request R) (h : Headers)
      → is_preflight ops r ≡ false
      → (handler ops c r h).headers ≡ handle_actual_request ops c r h
  unfolding handler
  handler_actual c r h p = rw p refl

  pub grants-handler :
      (c : Cors R) (r : Request R) (h : Headers)
      → grants h ≡ (none, none)
      → grants (handler ops c r h).headers ≡ granted (is_permitted c r) c r
  grants-handler c r h e = elim (Bool-cases (is_preflight ops r)) [
    | inl p ↦ ap grants (handler_preflight c r h p) ∙ grants-handle_preflight c r h p e
    | inr p ↦ ap grants (handler_actual c r h p) ∙ grants-handle_actual_request c r h p e
  ]

  -- With patterns and no function of its own, a handler that `New` made lets a response be read by
  -- another origin only if one of the patterns, in lower case, admits this origin in lower case.
  pub handler-new-Admits :
      (options : Options R) (r : Request R) (h : Headers) (v : List Bytes)
      → options.allow_origin_func ≡ none
      → options.allowed_origins ≢ []
      → grants h ≡ (none, none)
      → lookup allow_origin (handler ops (new ops options) r h).headers ≡ some v
      → Any (λ o. Admits (ops.to_lower o) (ops.to_lower (origin_of r))) options.allowed_origins
  handler-new-Admits options r h v f ne e k =
      let c : Cors R = new ops options in
      let all =
        ap (λ (x : Option (List Bytes) × Option (List Bytes)). x.0) (grants-handler c r h e) in
      let passed : is_permitted c r ≡ true = only_true (is_permitted c r) c r v (sym all ∙ k) in
      let allowed : is_origin_allowed ops c r (origin_of r) ≡ true = second_test _ _ _ passed in
      elim ((is_origin_allowed-new ops options r (origin_of r) f).0 allowed) [
        | inl empty ↦ elim (ne empty) [ ]
        | inr a ↦ a
      ]
