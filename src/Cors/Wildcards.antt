-- ===== src/Cors/Wildcards.antt =====
-- What a wildcard matches.
use plumbing.Prelude.{
  ℕ, zero, suc, ◌+◌, ◌-◌, ◌≤◌, ◌≡◌, refl, sym, ap, ◌∙◌, true, List, [], ◌∷◌, ◌++◌, arith,
  nat_eq_iff, length, drop, take, length-append,
}
use plumbing.Cors.{Wildcard, same_bytes, has_prefix, has_suffix, wildcard_match}

has_prefix-split : (s t : List ℕ) → has_prefix s t ≡ true → s ≡ t ++ drop (length t) s
unfolding has_prefix
has_prefix-split s [] h = refl
has_prefix-split [] (b ∷ t) h = ground (arith, h)
has_prefix-split (a ∷ s) (b ∷ t) h = ground (arith, h, nat_eq_iff a b, has_prefix-split s t)

pub same_bytes_lem : (s t : List ℕ) → same_bytes s t ≡ true → s ≡ t
unfolding same_bytes
same_bytes_lem [] [] h = refl
same_bytes_lem [] (b ∷ t) h = ground (arith, h)
same_bytes_lem (a ∷ s) [] h = ground (arith, h)
same_bytes_lem (a ∷ s) (b ∷ t) h = ground (arith, h, nat_eq_iff a b, same_bytes_lem s t)

take-drop : (n : ℕ) (xs : List ℕ) → take n xs ++ drop n xs ≡ xs
take-drop zero xs = refl
take-drop (suc n) [] = refl
take-drop (suc n) (x ∷ xs) = ap (λ ys. x ∷ ys) (take-drop n xs)

drop-append : (p r : List ℕ) (i n : ℕ) → i ≡ length p + n → drop i (p ++ r) ≡ drop n r
drop-append [] r i n h = let e : i ≡ n = omega arith in rw e refl
drop-append (x ∷ p) r zero n h = let bad : ⊥ = omega arith in elim bad [ ]
drop-append (x ∷ p) r (suc i) n h = drop-append p r i n (omega arith)

-- A string that a wildcard matches is its prefix, anything, and its suffix, which do not overlap.
pub wildcard_match_split :
    (w : Wildcard) (s : List ℕ)
    → wildcard_match w s ≡ true
    → (middle : List ℕ) × (s ≡ w.prefix ++ (middle ++ w.suffix))
unfolding wildcard_match has_suffix
wildcard_match_split w s h =
    let before : has_prefix s w.prefix ≡ true = ground (arith, h) in
    let after : same_bytes (drop (length s - length w.suffix) s) w.suffix ≡ true =
      ground (arith, h) in
    let long : length (w.prefix ++ w.suffix) ≤ length s = ground (arith, h) in
    let r : List ℕ = drop (length w.prefix) s in
    let e : s ≡ w.prefix ++ r = has_prefix-split s w.prefix before in
    let size : length s ≡ length w.prefix + length r = ap length e ∙ length-append w.prefix r in
    let both : length (w.prefix ++ w.suffix) ≡ length w.prefix + length w.suffix =
      length-append w.prefix w.suffix in
    let n : ℕ = length r - length w.suffix in
    let at : length s - length w.suffix ≡ length w.prefix + n = omega (arith, size, both, long) in
    let tail : drop n r ≡ w.suffix =
      sym (drop-append w.prefix r (length s - length w.suffix) n at)
      ∙ ap (drop (length s - length w.suffix)) (sym e)
      ∙ same_bytes_lem _ w.suffix after in
    (take n r, e ∙ ap (λ x. w.prefix ++ x) (sym (take-drop n r) ∙ ap (λ x. take n r ++ x) tail))

has_prefix-append : (p r : List ℕ) → has_prefix (p ++ r) p ≡ true
unfolding has_prefix
has_prefix-append [] r = refl
has_prefix-append (x ∷ p) r = ground (arith, has_prefix-append p r)

pub same_bytes_refl : (s : List ℕ) → same_bytes s s ≡ true
unfolding same_bytes
same_bytes_refl [] = refl
same_bytes_refl (x ∷ s) = ground (arith, same_bytes_refl s)

-- The converse: such a string is matched, whatever stands in the middle.
pub wildcard_match-append :
    (w : Wildcard) (middle : List ℕ) → wildcard_match w (w.prefix ++ (middle ++ w.suffix)) ≡ true
unfolding wildcard_match has_suffix
wildcard_match-append w middle =
    let s : List ℕ = w.prefix ++ (middle ++ w.suffix) in
    let size : length s ≡ length w.prefix + length (middle ++ w.suffix) =
      length-append w.prefix _ in
    let more : length (middle ++ w.suffix) ≡ length middle + length w.suffix =
      length-append middle w.suffix in
    let both : length (w.prefix ++ w.suffix) ≡ length w.prefix + length w.suffix =
      length-append w.prefix w.suffix in
    let tail : drop (length s - length w.suffix) s ≡ w.suffix =
      drop-append w.prefix (middle ++ w.suffix) (length s - length w.suffix) (length middle)
        (omega (arith, size, more))
      ∙ drop-append middle w.suffix (length middle) 0 (omega arith) in
    let last : same_bytes (drop (length s - length w.suffix) s) w.suffix ≡ true =
      ap (λ x. same_bytes x w.suffix) tail ∙ same_bytes_refl w.suffix in
    ground (arith, has_prefix-append w.prefix (middle ++ w.suffix), last, size, more, both)
