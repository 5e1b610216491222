-- ===== src/Cors/Tokens.antt =====
-- What a parsed header list holds.
use plumbing.Prelude.{
  ℕ, ◌+◌, ◌-◌, ◌≡◌, ◌≢◌, Bool, true, false, ◌||◌, List, [], ◌∷◌, ◌++◌, All, All-append, Bool-cases,
  inl, inr, arith, nat_eq, if◌then◌else◌,
}
use plumbing.Cors.{
  is_lower, is_upper, is_mark, normalized, flushed, is_last, parse_bytes, parse_header_list,
}

-- A letter, a digit, `-`, `_` or `.`
abbrev pub Token : ℕ → Type 0
Token b = (is_lower b || is_upper b || is_mark b) ≡ true

abbrev pub Header : List ℕ → Type 0
Header h = (h ≢ []) × All Token h

cased : (upper : Bool) (x y : ℕ) → Token x → Token y → All Token (if upper then x ∷ [] else y ∷ [])
cased true x y hx hy = (hx, tt)
cased false x y hx hy = (hy, tt)

normalized-Token : (upper : Bool) (b : ℕ) → All Token (normalized upper b)
unfolding normalized
normalized-Token upper b = elim (Bool-cases (is_lower b)) [
  | inl low ↦ rw low (cased upper (b - 32) b (ground (arith, low)) (ground (arith, low)))
  | inr no_low ↦ elim (Bool-cases (is_upper b)) [
    | inl up ↦ rw (no_low, up) (cased upper b (b + 32) (ground (arith, up)) (ground (arith, up)))
    | inr no_up ↦ elim (Bool-cases (is_mark b)) [
      | inl mark ↦ rw (no_low, no_up, mark) (ground (arith, mark), tt)
      | inr no_mark ↦ rw (no_low, no_up, no_mark) tt
    ]
  ]
]

flushed-Header :
    (h : List ℕ) (headers : List (List ℕ))
    → All Token h
    → All Header headers
    → All Header (flushed h headers)
flushed-Header [] headers t hs = hs
flushed-Header (b ∷ h) headers t hs =
    All-append Header headers _ hs (((λ e. ground (arith, e)), t), tt)

parse_bytes-Header :
    (bytes h : List ℕ) (upper : Bool) (headers : List (List ℕ))
    → All Token h
    → All Header headers
    → All Header (parse_bytes bytes h upper headers)
unfolding parse_bytes
parse_bytes-Header [] h upper headers t hs = hs
parse_bytes-Header (b ∷ bytes) h upper headers t hs =
    let grown : All Token (h ++ normalized upper b) =
      All-append Token h _ t (normalized-Token upper b) in
    elim (Bool-cases (nat_eq b 32 || nat_eq b 44 || is_last bytes)) [
      | inl stop ↦ rw stop (parse_bytes-Header bytes [] _ _ tt (flushed-Header _ headers grown hs))
      | inr go ↦ rw go (parse_bytes-Header bytes _ (nat_eq b 45) headers grown hs)
    ]

-- Every header of the parsed list is non-empty and made of letters, digits, `-`, `_` and `.` only,
-- whatever bytes the list has.
parse_header_list-Header : (header_list : List ℕ) → All Header (parse_header_list header_list)
unfolding parse_header_list
parse_header_list-Header header_list = parse_bytes-Header header_list [] true [] tt tt
