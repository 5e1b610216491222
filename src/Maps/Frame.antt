-- ===== src/Maps/Frame.antt =====
-- What a write at a path leaves as it was.
use mathlib.Core.Option
use plumbing.Prelude.{
  String, ◌≡◌, refl, sym, ap, ◌∙◌, Bool, true, false, none, some, List, [], ◌∷◌, str_eq, eq_iff,
  arith, if◌then◌else◌, Bool-cases, inl, inr,
}
use plumbing.Json.{Value, Fields, obj, end, get_field, set_field, get_field-set_field}
use plumbing.Maps.{missing, nested_field_no_copy, Written, within, set_nested_field_no_copy}
use plumbing.Maps.Writes.{
  absent, object_there, value_there, write-last, set_absent, set_object, read-within, key-At,
  some_lem, set_nested_field_no_copy_lem,
}

-- Neither path is a beginning of the other.
abbrev pub apart : List String → List String → Bool
apart (f ∷ p) (g ∷ q) = if str_eq f g then apart p q else true
apart _ _ = false

read-set_field :
    (f g : String) (v : Value) (m : Fields) (q : List String)
    → str_eq f g ≡ false
    → nested_field_no_copy (obj (set_field f v m)) (g ∷ q) ≡ nested_field_no_copy (obj m) (g ∷ q)
unfolding nested_field_no_copy
read-set_field f g v m q ne = ground (arith, ne, get_field-set_field f g v m)

read-absent :
    (g h : String) (m : Fields) (q : List String)
    → get_field g m ≡ none
    → nested_field_no_copy (obj m) (g ∷ h ∷ q) ≡ missing
unfolding nested_field_no_copy
read-absent g h m q e = ground (arith, e)

read-object :
    (g h : String) (m n : Fields) (q : List String)
    → get_field g m ≡ some (obj n)
    → nested_field_no_copy (obj m) (g ∷ h ∷ q) ≡ nested_field_no_copy (obj n) (h ∷ q)
unfolding nested_field_no_copy
read-object g h m n q e = ground (arith, e)

read-end : (g : String) (q : List String) → nested_field_no_copy (obj end) (g ∷ q) ≡ missing
unfolding nested_field_no_copy get_field
read-end g q = refl

-- What a written object is: a key set, or the object as it was.
data Shape (m : Fields) (value : Value) (f : String) : List String → Written → Type 0 where
  last : {w : Written} → w.object ≡ set_field f value m → Shape m value f [] w
  created :
      {g : String} {fields : List String} {w : Written} (rest : Written)
      → get_field f m ≡ none
      → set_nested_field_no_copy end value (g ∷ fields) ≡ some rest
      → w ≡ within f m rest
      → Shape m value f (g ∷ fields) w
  entered :
      {g : String} {fields : List String} {w : Written} (n : Fields) (rest : Written)
      → get_field f m ≡ some (obj n)
      → set_nested_field_no_copy n value (g ∷ fields) ≡ some rest
      → w ≡ within f m rest
      → Shape m value f (g ∷ fields) w
  kept : {fields : List String} {w : Written} → w.object ≡ m → Shape m value f fields w

set_nested_field_no_copy-Shape :
    (m : Fields) (value : Value) (f : String) (fields : List String) (w : Written)
    → set_nested_field_no_copy m value (f ∷ fields) ≡ some w
    → Shape m value f fields w
set_nested_field_no_copy-Shape m value f [] w h = last (ground (arith, h, write-last m value f))
set_nested_field_no_copy-Shape m value f (g ∷ fields) w h = elim (key-At f m) [
  | absent e ↦
      let rest = set_nested_field_no_copy_lem end value g fields in
      created rest.0 e rest.1 (
        some_lem _ _
          (sym h ∙ set_absent f g m value fields e ∙ ap (Option.map (within f m)) rest.1))
  | object_there n e ↦
      let rest = set_nested_field_no_copy_lem n value g fields in
      entered n rest.0 e rest.1 (
        some_lem _ _
          (sym h ∙ set_object f g m n value fields e ∙ ap (Option.map (within f m)) rest.1))
  | value_there v e k ↦ kept (ground (arith, h, k value g fields))
]

read-elsewhere :
    (m : Fields) (value : Value) (f g : String) (fields q : List String) (w : Written)
    → str_eq f g ≡ false
    → Shape m value f fields w
    → nested_field_no_copy (obj w.object) (g ∷ q) ≡ nested_field_no_copy (obj m) (g ∷ q)
read-elsewhere m value f g fields q w ne (last e) =
    ap (λ x. nested_field_no_copy (obj x) (g ∷ q)) e ∙ read-set_field f g value m q ne
read-elsewhere m value f g fields q w ne (created rest h k e) =
    ap (λ (x : Written). nested_field_no_copy (obj x.object) (g ∷ q)) e
    ∙ read-set_field f g (obj rest.object) m q ne
read-elsewhere m value f g fields q w ne (entered n rest h k e) =
    ap (λ (x : Written). nested_field_no_copy (obj x.object) (g ∷ q)) e
    ∙ read-set_field f g (obj rest.object) m q ne
read-elsewhere m value f g fields q w ne (kept e) = ap (λ x. nested_field_no_copy (obj x) (g ∷ q)) e

-- The paths go on under the same key.
abbrev Below : Fields → Value → List String → Type 0
Below m value p =
    (q : List String) (w : Written)
    → set_nested_field_no_copy m value p ≡ some w
    → apart p q ≡ true
    → nested_field_no_copy (obj w.object) q ≡ nested_field_no_copy (obj m) q

read-Below :
    (m : Fields) (value : Value) (f g h : String) (p q : List String) (w : Written)
    → ((n : Fields) → Below n value (g ∷ p))
    → apart (g ∷ p) (h ∷ q) ≡ true
    → Shape m value f (g ∷ p) w
    → nested_field_no_copy (obj w.object) (f ∷ h ∷ q) ≡ nested_field_no_copy (obj m) (f ∷ h ∷ q)
read-Below m value f g h p q w below a (created rest k e t) =
    ap (λ (x : Written). nested_field_no_copy (obj x.object) (f ∷ h ∷ q)) t
    ∙ read-within f m rest (h ∷ q)
    ∙ below end (h ∷ q) rest e a
    ∙ read-end h q
    ∙ sym (read-absent f h m q k)
read-Below m value f g h p q w below a (entered n rest k e t) =
    ap (λ (x : Written). nested_field_no_copy (obj x.object) (f ∷ h ∷ q)) t
    ∙ read-within f m rest (h ∷ q)
    ∙ below n (h ∷ q) rest e a
    ∙ sym (read-object f h m n q k)
read-Below m value f g h p q w below a (kept e) =
    ap (λ x. nested_field_no_copy (obj x) (f ∷ h ∷ q)) e

-- A write leaves what is read at every other path as it was, unless one of the two paths is a
-- beginning of the other.
pub set_nested_field_no_copy-apart :
    (m : Fields) (value : Value) (p q : List String) (w : Written)
    → set_nested_field_no_copy m value p ≡ some w
    → apart p q ≡ true
    → nested_field_no_copy (obj w.object) q ≡ nested_field_no_copy (obj m) q
set_nested_field_no_copy-apart m value [] q w h a = ground (arith, a)
set_nested_field_no_copy-apart m value (f ∷ p) [] w h a = ground (arith, a)
set_nested_field_no_copy-apart m value (f ∷ []) (g ∷ q) w h a =
    read-elsewhere m value f g [] q w (ground (arith, a))
      (set_nested_field_no_copy-Shape m value f [] w h)
set_nested_field_no_copy-apart m value (f ∷ x ∷ p) (g ∷ []) w h a =
    read-elsewhere m value f g (x ∷ p) [] w (ground (arith, a))
      (set_nested_field_no_copy-Shape m value f (x ∷ p) w h)
set_nested_field_no_copy-apart m value (f ∷ x ∷ p) (g ∷ y ∷ q) w h a =
    elim (Bool-cases (str_eq f g)) [
      | inr differ ↦
          read-elsewhere m value f g (x ∷ p) (y ∷ q) w differ
            (set_nested_field_no_copy-Shape m value f (x ∷ p) w h)
      | inl same ↦
          let e : f ≡ g = (eq_iff f g).0 same in
          rw (sym e) (
            read-Below m value f x y p q w (λ n. set_nested_field_no_copy-apart n value (x ∷ p))
              (ground (arith, a, same)) (set_nested_field_no_copy-Shape m value f (x ∷ p) w h))
    ]
