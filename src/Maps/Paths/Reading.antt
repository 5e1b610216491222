-- ===== src/Maps/Paths/Reading.antt =====
-- How a path that is put together is read.
use Prim.Native.Char.{Char, code}
use text.Mathlib.TextLemmas.{nil-append, cons-append, append-nil}
use plumbing.Prelude.{
  String, ◌+++◌, str_eq, ◌≡◌, ◌≢◌, refl, sym, ap, ◌∙◌, Bool, true, false, ◌||◌, List, [], ◌∷◌, ◌++◌,
  nat_eq, if◌then◌else◌, arith, Bool-cases, inl, inr,
}
use plumbing.Maps.Paths.{open_to_dot, drop_close, to_first, split_dots, filled, parse_path}

-- No `.`, `[` or `]`.
abbrev pub no_mark : String → Bool
no_mark String.[] = true
no_mark (String.◌∷◌ c s) =
    let rest = no_mark s in
    if nat_eq (code c) 46 || nat_eq (code c) 91 || nat_eq (code c) 93 then false else rest

-- A name that stands as it is in a path.
abbrev pub IsPlain : String → Type 0
IsPlain s = (no_mark s ≡ true) × (str_eq s "" ≡ false)

open_to_dot-append : (s t : String) → open_to_dot (s +++ t) ≡ open_to_dot s +++ open_to_dot t
unfolding open_to_dot
open_to_dot-append String.[] t = ap open_to_dot (nil-append t) ∙ sym (nil-append (open_to_dot t))
open_to_dot-append (String.◌∷◌ c s) t =
    ap open_to_dot (cons-append c s t) ∙ elim (Bool-cases (nat_eq (code c) 91)) [
      | inl e ↦ rw e (
          ap (λ x. String.◌∷◌ "." x) (open_to_dot-append s t)
          ∙ sym (cons-append "." (open_to_dot s) (open_to_dot t)))
      | inr e ↦ rw e (
          ap (λ x. String.◌∷◌ c x) (open_to_dot-append s t)
          ∙ sym (cons-append c (open_to_dot s) (open_to_dot t)))
    ]

drop_close-append : (s t : String) → drop_close (s +++ t) ≡ drop_close s +++ drop_close t
unfolding drop_close
drop_close-append String.[] t = ap drop_close (nil-append t) ∙ sym (nil-append (drop_close t))
drop_close-append (String.◌∷◌ c s) t =
    ap drop_close (cons-append c s t) ∙ elim (Bool-cases (nat_eq (code c) 93)) [
      | inl e ↦ rw e (drop_close-append s t)
      | inr e ↦ rw e (
          ap (λ x. String.◌∷◌ c x) (drop_close-append s t)
          ∙ sym (cons-append c (drop_close s) (drop_close t)))
    ]

open_to_dot_plain : (s : String) → no_mark s ≡ true → open_to_dot s ≡ s
unfolding open_to_dot
open_to_dot_plain String.[] h = refl
open_to_dot_plain (String.◌∷◌ c s) h = ground (arith, h, open_to_dot_plain s)

drop_close_plain : (s : String) → no_mark s ≡ true → drop_close s ≡ s
unfolding drop_close
drop_close_plain String.[] h = refl
drop_close_plain (String.◌∷◌ c s) h = ground (arith, h, drop_close_plain s)

split_dots_plain : (s : String) → no_mark s ≡ true → split_dots s ≡ s ∷ []
unfolding split_dots
split_dots_plain String.[] h = refl
split_dots_plain (String.◌∷◌ c s) h = ground (arith, h, split_dots_plain s)

to_first-append :
    (c : Char) (parts more : List String)
    → parts ≢ []
    → to_first c (parts ++ more) ≡ to_first c parts ++ more
to_first-append c [] more h = elim (h refl) [ ]
to_first-append c (p ∷ parts) more h = refl

to_first-filled : (c : Char) (parts : List String) → to_first c parts ≢ []
to_first-filled c [] e = ground (arith, e)
to_first-filled c (p ∷ parts) e = ground (arith, e)

split_dots-filled : (s : String) → split_dots s ≢ []
unfolding split_dots
split_dots-filled String.[] e = ground (arith, e)
split_dots-filled (String.◌∷◌ c s) e = ground (arith, e, to_first-filled c (split_dots s))

-- A dot separates the parts before it from those after it.
split_dots-append : (s t : String) → split_dots (s +++ "." +++ t) ≡ split_dots s ++ split_dots t
unfolding split_dots
split_dots-append String.[] t =
    ap split_dots
      (nil-append ("." +++ t) ∙ cons-append "." "" t ∙ ap (λ x. String.◌∷◌ "." x) (nil-append t))
split_dots-append (String.◌∷◌ c s) t =
    ap split_dots (cons-append c s ("." +++ t)) ∙ elim (Bool-cases (nat_eq (code c) 46)) [
      | inl e ↦ rw e (ap (λ x. String.[] ∷ x) (split_dots-append s t))
      | inr e ↦ rw e (
          ap (to_first c) (split_dots-append s t)
          ∙ to_first-append c (split_dots s) (split_dots t) (split_dots-filled s))
    ]

filled-append : (a b : List String) → filled (a ++ b) ≡ filled a ++ filled b
filled-append [] b = refl
filled-append (x ∷ a) b = ground (arith, filled-append a b)

unmarked : String → String
unmarked path = drop_close (open_to_dot path)

unmarked-append : (s t : String) → unmarked (s +++ t) ≡ unmarked s +++ unmarked t
unfolding unmarked
unmarked-append s t =
    ap drop_close (open_to_dot-append s t) ∙ drop_close-append (open_to_dot s) (open_to_dot t)

unmarked_plain : (s : String) → no_mark s ≡ true → unmarked s ≡ s
unfolding unmarked
unmarked_plain s h = ap drop_close (open_to_dot_plain s h) ∙ drop_close_plain s h

-- A name after a dot is one more field.
parse_after_dot :
    (path s : String)
    → IsPlain s
    → filled (split_dots (unmarked path +++ "." +++ s)) ≡ parse_path path ++ s ∷ []
unfolding parse_path unmarked
parse_after_dot path s h =
    ap filled (split_dots-append (unmarked path) s)
    ∙ filled-append (split_dots (unmarked path)) (split_dots s)
    ∙ ap (λ x. parse_path path ++ filled x) (split_dots_plain s h.0)
    ∙ ap (λ x. parse_path path ++ x) (ground (arith, h.1))

pub parse_path_plain : (s : String) → IsPlain s → parse_path s ≡ s ∷ []
unfolding parse_path unmarked
parse_path_plain s h =
    ap (λ x. filled (split_dots x)) (unmarked_plain s h.0)
    ∙ ap filled (split_dots_plain s h.0)
    ∙ ground (arith, h.1)

pub parse_path_key :
    (path s : String) → IsPlain s → parse_path (path +++ "." +++ s) ≡ parse_path path ++ s ∷ []
unfolding parse_path unmarked
parse_path_key path s h =
    ap (λ x. filled (split_dots x))
      (unmarked-append path ("." +++ s)
        ∙ ap (λ x. unmarked path +++ x)
            (unmarked-append "." s ∙ ap (λ x. "." +++ x) (unmarked_plain s h.0)))
    ∙ parse_after_dot path s h

pub parse_path_index :
    (path s : String)
    → IsPlain s
    → parse_path (path +++ "[" +++ s +++ "]") ≡ parse_path path ++ s ∷ []
unfolding parse_path unmarked
parse_path_index path s h =
    ap (λ x. filled (split_dots x))
      (unmarked-append path ("[" +++ s +++ "]")
        ∙ ap (λ x. unmarked path +++ x)
            (unmarked-append "[" (s +++ "]")
              ∙ ap (λ x. "." +++ x)
                  (unmarked-append s "]" ∙ append-nil (unmarked s) ∙ unmarked_plain s h.0)))
    ∙ parse_after_dot path s h
