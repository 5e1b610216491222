-- ===== src/Cors.antt =====
-- server/use/cors/cors_utils.go: wildcard origins and header lists, on strings as lists of bytes.
pub mod Policy
pub mod Handler
mod Tokens
pub mod Wildcards
mod Tests
use plumbing.Prelude.{
  ℕ, ◌+◌, ◌-◌, Bool, true, false, ◌||◌, ◌&&◌, List, [], ◌∷◌, ◌++◌, nat_eq, leb, length, drop,
  if◌then◌else◌,
}

pub record Wildcard : Type 0 where
  pub prefix : List ℕ
  pub suffix : List ℕ

pub same_bytes : List ℕ → List ℕ → Bool
same_bytes [] [] = true
same_bytes (a ∷ s) (b ∷ t) = nat_eq a b && same_bytes s t
same_bytes _ _ = false

pub has_prefix : List ℕ → List ℕ → Bool
has_prefix s [] = true
has_prefix [] (b ∷ t) = false
has_prefix (a ∷ s) (b ∷ t) = nat_eq a b && has_prefix s t

pub has_suffix : List ℕ → List ℕ → Bool
unfolding same_bytes
has_suffix s t = leb (length t) (length s) && same_bytes (drop (length s - length t) s) t

pub wildcard_match : Wildcard → List ℕ → Bool
unfolding has_prefix has_suffix
wildcard_match w s =
    leb (length (w.prefix ++ w.suffix)) (length s) && has_prefix s w.prefix && has_suffix s w.suffix

abbrev pub is_lower : ℕ → Bool
is_lower b = leb 97 b && leb b 122

abbrev pub is_upper : ℕ → Bool
is_upper b = leb 65 b && leb b 90

-- `-`, `_`, `.` and the digits
abbrev pub is_mark : ℕ → Bool
is_mark b = nat_eq b 45 || nat_eq b 95 || nat_eq b 46 || (leb 48 b && leb b 57)

-- What is appended to the header for a byte.
pub normalized : Bool → ℕ → List ℕ
normalized upper b =
    if is_lower b
    then (if upper then (b - 32) ∷ [] else b ∷ [])
    else if is_upper b
    then (if upper then b ∷ [] else (b + 32) ∷ [])
    else if is_mark b
    then b ∷ []
    else []

abbrev pub flushed : List ℕ → List (List ℕ) → List (List ℕ)
flushed [] headers = headers
flushed (b ∷ h) headers = headers ++ (b ∷ h) ∷ []

abbrev pub is_last : List ℕ → Bool
is_last [] = true
is_last (b ∷ bytes) = false

abbrev pub after_flush : List ℕ → Bool → Bool
after_flush [] upper = upper
after_flush (b ∷ h) upper = true

pub parse_bytes : List ℕ → List ℕ → Bool → List (List ℕ) → List (List ℕ)
unfolding normalized
parse_bytes [] h upper headers = headers
parse_bytes (b ∷ bytes) h upper headers =
    let header = h ++ normalized upper b in
    if nat_eq b 32 || nat_eq b 44 || is_last bytes
    then parse_bytes bytes [] (after_flush header upper) (flushed header headers)
    else parse_bytes bytes header (nat_eq b 45) headers

pub parse_header_list : List ℕ → List (List ℕ)
unfolding parse_bytes
parse_header_list header_list = parse_bytes header_list [] true []

pub convert : {A B : Type 0} → List A → (A → B) → List B
convert [] c = []
convert (x ∷ xs) c = c x ∷ convert xs c
