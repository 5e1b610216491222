-- ===== src/Cors/Handler.antt =====
-- server/use/cors/cors.go: the handler. The headers of a response are a Go map from names to lists of
-- values, `Add` and `Set` of net/http on names that are canonical as they stand in the code.
mod Grants
pub mod Tests
use plumbing.Prelude.{
  ℕ, ◌+◌, ℤ, pos, negsuc, String, string_Comparable, Bool, true, false, not, ◌&&◌, Option, none,
  some, List, [], ◌∷◌, ◌++◌, codes, lookup, insert, ltb_ℤ, if◌then◌else◌,
}
use plumbing.Cors.{same_bytes, parse_header_list}
use plumbing.Cors.Policy.{
  Bytes, TextOps, Request, Cors, star, method_options, is_origin_allowed, is_method_allowed,
  are_headers_allowed,
}

abbrev pub Headers : Type 0
Headers = List (String × List Bytes)

abbrev pub values : String → Headers → List Bytes
values name h = elim (lookup name h) [ none ↦ [] | some vs ↦ vs ]

pub add_header : String → Bytes → Headers → Headers
add_header name v h = insert name (values name h ++ v ∷ []) h

pub set_header : String → Bytes → Headers → Headers
set_header name v h = insert name (v ∷ []) h

-- `strings.Join`
pub join_bytes : Bytes → List Bytes → Bytes
join_bytes sep [] = []
join_bytes sep (s ∷ []) = s
join_bytes sep (s ∷ t ∷ rest) = s ++ (sep ++ join_bytes sep (t ∷ rest))

abbrev pub is_empty : {A : Type 0} → List A → Bool
is_empty [] = true
is_empty (x ∷ xs) = false

abbrev pub comma : Bytes
comma = codes ", "

abbrev pub origin_of : {R : Type 0} → Request R → Bytes
origin_of r = r.header_get "Origin"

abbrev pub requested_method : {R : Type 0} → Request R → Bytes
requested_method r = r.header_get "Access-Control-Request-Method"

-- What the handler did with the response, and whether it called the next one.
pub record Served : Type 0 where
  pub headers : Headers
  pub status_ok : Bool
  pub called_next : Bool

pub vary_preflight : Headers → Headers
unfolding add_header
vary_preflight h = add_header "Vary" (codes "Access-Control-Request-Headers") (
    add_header "Vary" (codes "Access-Control-Request-Method")
      (add_header "Vary" (codes "Origin") h))

module _ (ops : TextOps) {R : Type 0} where
  pub requested_headers : Request R → List Bytes
  unfolding parse_header_list
  requested_headers r = parse_header_list (r.header_get "Access-Control-Request-Headers")

  abbrev pub granted_origin : Cors R → Request R → Bytes
  granted_origin c r = if c.origins.allowed_origins_all then star else origin_of r

  pub set_allowed : Cors R → Request R → Headers → Headers
  unfolding set_header
  set_allowed c r h = set_header "Access-Control-Allow-Origin" (granted_origin c r) h

  pub set_credentials : Cors R → Headers → Headers
  unfolding set_header
  set_credentials c h =
      if c.allow_credentials
      then set_header "Access-Control-Allow-Credentials" (codes "true") h
      else h

  pub set_requested : Request R → Headers → Headers
  unfolding set_header join_bytes requested_headers
  set_requested r h =
      if is_empty (requested_headers r)
      then h
      else set_header "Access-Control-Allow-Headers" (join_bytes comma (requested_headers r)) h

  pub set_max_age : Cors R → Headers → Headers
  unfolding set_header
  set_max_age c h =
      if ltb_ℤ (pos 0) c.max_age
      then set_header "Access-Control-Max-Age" (ops.itoa c.max_age) h
      else h

  pub set_exposed : Cors R → Headers → Headers
  unfolding set_header join_bytes
  set_exposed c h =
      if is_empty c.exposed_headers
      then h
      else set_header "Access-Control-Expose-Headers" (join_bytes comma c.exposed_headers) h

  pub set_methods : Request R → Headers → Headers
  unfolding set_header
  set_methods r h = set_header "Access-Control-Allow-Methods" (ops.to_upper (requested_method r)) h

  pub handle_preflight : Cors R → Request R → Headers → Headers
  unfolding vary_preflight set_allowed set_methods set_requested set_credentials set_max_age
      same_bytes
  handle_preflight c r h =
      let varied = vary_preflight h in
      if not (same_bytes r.method method_options)
      then h
      else if is_empty (origin_of r)
      then varied
      else if not (is_origin_allowed ops c r (origin_of r))
      then varied
      else if not (is_method_allowed ops c (requested_method r))
      then varied
      else if not (are_headers_allowed ops c (requested_headers r))
      then varied
      else set_max_age c
          (set_credentials c (set_requested r (set_methods r (set_allowed c r varied))))

  pub handle_actual_request : Cors R → Request R → Headers → Headers
  unfolding add_header set_allowed set_exposed set_credentials
  handle_actual_request c r h =
      let varied = add_header "Vary" (codes "Origin") h in
      if is_empty (origin_of r)
      then varied
      else if not (is_origin_allowed ops c r (origin_of r))
      then varied
      else if not (is_method_allowed ops c r.method)
      then varied
      else set_credentials c (set_exposed c (set_allowed c r varied))

  pub is_preflight : Request R → Bool
  unfolding same_bytes
  is_preflight r = same_bytes r.method method_options && not (is_empty (requested_method r))

  pub handler : Cors R → Request R → Headers → Served
  unfolding is_preflight handle_preflight handle_actual_request
  handler c r h =
      if is_preflight r
      then record {
        headers = handle_preflight c r h;
        status_ok = not c.option_passthrough;
        called_next = c.option_passthrough;
      }
      else record { headers = handle_actual_request c r h; status_ok = false; called_next = true }
