-- ===== src/Cors/Tests.antt =====
-- Small origins and header lists.
use plumbing.Prelude.{◌≡◌, refl, true, [], ◌∷◌}
use plumbing.Cors.{
  Wildcard, wildcard_match, has_prefix, has_suffix, same_bytes, parse_header_list, parse_bytes,
  normalized,
}

abbrev between : Wildcard
between = record { prefix = 104 ∷ []; suffix = 58 ∷ [] }

matched : wildcard_match between (104 ∷ 9 ∷ 58 ∷ []) ≡ true
unfolding wildcard_match has_prefix has_suffix same_bytes
matched = refl

-- "x-a, b" gives "X-A" and "B".
two_headers :
    parse_header_list (120 ∷ 45 ∷ 97 ∷ 44 ∷ 32 ∷ 98 ∷ []) ≡ (88 ∷ 45 ∷ 65 ∷ []) ∷ (66 ∷ []) ∷ []
unfolding parse_header_list parse_bytes normalized
two_headers = refl
