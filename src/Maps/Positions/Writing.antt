-- ===== src/Maps/Positions/Writing.antt =====
-- What a write at a path with positions does.
use plumbing.Prelude.{
  ℕ, zero, suc, ℤ, String, ◌≡◌, ◌≢◌, refl, sym, ap, ◌∙◌, Bool, true, false, Option, none, some,
  List, [], ◌∷◌, ◌++◌, ltb, arith, eq_iff, Option-cases, inl, inr,
}
use plumbing.Json.{
  Value, Fields, Items, null, bool, number, str, arr, map_slice, nil_map_slice, obj, other,
  no_items, item, set_field, get_field-set_field,
}
use plumbing.Maps.Positions.{
  count, item_at, set_item, value_at, Edit, edited, replace, rebuilt, position, nested_value, edit,
  set_nested_value,
}

count-set_item : (i : ℕ) (v : Value) (xs : Items) → count (set_item i v xs) ≡ count xs
count-set_item i v no_items = refl
count-set_item zero v (item x xs) = refl
count-set_item (suc i) v (item x xs) = ap suc (count-set_item i v xs)

item_at-set_item :
    (i : ℕ) (v : Value) (xs : Items) → ltb i (count xs) ≡ true → item_at i (set_item i v xs) ≡ v
item_at-set_item i v no_items h = ground (arith, h)
item_at-set_item zero v (item x xs) h = refl
item_at-set_item (suc i) v (item x xs) h = item_at-set_item i v xs (ground (arith, h))

value_at-set_field : (f : String) (v : Value) (m : Fields) → value_at f (set_field f v m) ≡ v
value_at-set_field f v m = ground (arith, get_field-set_field f f v m, eq_iff f f)

some_value : (v w : Value) → some v ≡ some w → v ≡ w
some_value v w h = ground (arith, h)

module _ (atoi : String → Option ℤ) where
  -- The container has a place for the field.
  abbrev pub holds : String → Value → Bool
  holds f (obj m) = true
  holds f (arr xs) = elim (position atoi f xs) [ none ↦ false | some i ↦ true ]
  holds f _ = false

  abbrev pub is_plain : Value → Bool
  is_plain (obj m) = false
  is_plain (arr xs) = false
  is_plain _ = true

  position-lt :
      (f : String) (xs : Items) (i : ℕ) → position atoi f xs ≡ some i → ltb i (count xs) ≡ true
  unfolding position
  position-lt f xs i h = ground (arith, h)

  position-set_item :
      (f : String) (i : ℕ) (v : Value) (xs : Items)
      → position atoi f (set_item i v xs) ≡ position atoi f xs
  unfolding position
  position-set_item f i v xs = ground (arith, count-set_item i v xs)

  edit_obj :
      (m : Fields) (g : String) (rest : List String) (new : Value) (e : Edit)
      → rest ≢ []
      → edit atoi (value_at g m) rest new ≡ e
      → edit atoi (obj m) (g ∷ rest) new ≡ rebuilt new (λ v. obj (set_field g v m)) e
  unfolding edit
  edit_obj m g [] new e ne h = elim (ne refl) [ ]
  edit_obj m g (x ∷ rest) new e ne h = ap (rebuilt new (λ v. obj (set_field g v m))) h

  edit_arr :
      (xs : Items) (g : String) (i : ℕ) (rest : List String) (new : Value) (e : Edit)
      → rest ≢ []
      → position atoi g xs ≡ some i
      → edit atoi (item_at i xs) rest new ≡ e
      → edit atoi (arr xs) (g ∷ rest) new ≡ rebuilt new (λ v. arr (set_item i v xs)) e
  unfolding edit
  edit_arr xs g i [] new e ne k h = elim (ne refl) [ ]
  edit_arr xs g i (x ∷ rest) new e ne k h =
      rw (k, edit) (ap (rebuilt new (λ v. arr (set_item i v xs))) h)

  read_obj :
      (m : Fields) (g : String) (rest : List String) (v : Value)
      → nested_value atoi (obj (set_field g v m)) (g ∷ rest) ≡ nested_value atoi v rest
  unfolding nested_value
  read_obj m g rest v = ap (λ x. nested_value atoi x rest) (value_at-set_field g v m)

  read_arr :
      (xs : Items) (g : String) (i : ℕ) (rest : List String) (v : Value)
      → position atoi g xs ≡ some i
      → nested_value atoi (arr (set_item i v xs)) (g ∷ rest) ≡ nested_value atoi v rest
  unfolding nested_value
  read_arr xs g i rest v k =
      let there : position atoi g (set_item i v xs) ≡ some i = position-set_item g i v xs ∙ k in
      rw (there, nested_value)
        (ap (λ x. nested_value atoi x rest) (item_at-set_item i v xs (position-lt g xs i k)))

  read_end : (v : Value) → nested_value atoi v [] ≡ some v
  unfolding nested_value
  read_end v = refl

  -- The place of the last field, in a container that holds it.
  write_here :
      (v : Value) (f : String) (new : Value)
      → holds f v ≡ true
      → (w : Value) × (edit atoi v (f ∷ []) new ≡ edited w)
        × (nested_value atoi w (f ∷ []) ≡ some new)
  unfolding edit
  write_here (obj m) f new h = (obj (set_field f new m), refl, read_obj m f [] new ∙ read_end new)
  write_here (arr xs) f new h = elim (Option-cases (position atoi f xs)) [
    | inl e ↦ ground (arith, h, e)
    | inr (i, e) ↦
        (arr (set_item i new xs), rw (e, edit) refl, read_arr xs f i [] new e ∙ read_end new)
  ]
  write_here null f new h = ground (arith, h)
  write_here (bool b) f new h = ground (arith, h)
  write_here (number n) f new h = ground (arith, h)
  write_here (str s) f new h = ground (arith, h)
  write_here (map_slice xs) f new h = ground (arith, h)
  write_here nil_map_slice f new h = ground (arith, h)
  write_here (other type) f new h = ground (arith, h)

  replace_here :
      (v : Value) (f : String) (new : Value)
      → is_plain v ≡ true
      → edit atoi v (f ∷ []) new ≡ replace
  unfolding edit
  replace_here (obj m) f new h = ground (arith, h)
  replace_here (arr xs) f new h = ground (arith, h)
  replace_here null f new h = refl
  replace_here (bool b) f new h = refl
  replace_here (number n) f new h = refl
  replace_here (str s) f new h = refl
  replace_here (map_slice xs) f new h = refl
  replace_here nil_map_slice f new h = refl
  replace_here (other type) f new h = refl

  -- The first step of a path that leads somewhere: the value below, and how a new one is put there.
  record Inside (v : Value) (g : String) (p : List String) (c : Value) : Type 0 where
    below : Value
    put : Value → Value
    leads : nested_value atoi below p ≡ some c
    edits :
        (rest : List String) (new : Value) (e : Edit)
        → rest ≢ []
        → edit atoi below rest new ≡ e
        → edit atoi v (g ∷ rest) new ≡ rebuilt new put e
    reads :
        (rest : List String) (x : Value)
        → nested_value atoi (put x) (g ∷ rest) ≡ nested_value atoi x rest

  nested_value-Inside :
      (v : Value) (g : String) (p : List String) (c : Value)
      → nested_value atoi v (g ∷ p) ≡ some c
      → Inside v g p c
  unfolding nested_value
  nested_value-Inside (obj m) g p c h = record {
    below = value_at g m;
    put = λ v. obj (set_field g v m);
    leads = h;
    edits = edit_obj m g;
    reads = read_obj m g;
  }
  nested_value-Inside (arr xs) g p c h = elim (Option-cases (position atoi g xs)) [
    | inl e ↦ ground (arith, h, e)
    | inr (i, e) ↦ record {
      below = item_at i xs;
      put = λ v. arr (set_item i v xs);
      leads = ground (arith, h, e);
      edits = λ rest new r ne k. edit_arr xs g i rest new r ne e k;
      reads = λ rest x. read_arr xs g i rest x e;
    }
  ]
  nested_value-Inside null g p c h = ground (arith, h)
  nested_value-Inside (bool b) g p c h = ground (arith, h)
  nested_value-Inside (number n) g p c h = ground (arith, h)
  nested_value-Inside (str s) g p c h = ground (arith, h)
  nested_value-Inside (map_slice xs) g p c h = ground (arith, h)
  nested_value-Inside nil_map_slice g p c h = ground (arith, h)
  nested_value-Inside (other type) g p c h = ground (arith, h)

  snoc_filled : (p : List String) (f : String) → (p ++ f ∷ []) ≢ []
  snoc_filled [] f e = ground (arith, e)
  snoc_filled (g ∷ p) f e = ground (arith, e)

  written_below :
      (v : Value) (p : List String) (f : String) (new c : Value)
      → nested_value atoi v p ≡ some c
      → holds f c ≡ true
      → (w : Value) × (edit atoi v (p ++ f ∷ []) new ≡ edited w)
        × (nested_value atoi w (p ++ f ∷ []) ≡ some new)
  written_below v [] f new c h k =
      let e : v ≡ c = some_value v c (sym (read_end v) ∙ h) in
      write_here v f new (ap (holds f) e ∙ k)
  written_below v (g ∷ p) f new c h k =
      let i = nested_value-Inside v g p c h in
      let rest = written_below i.below p f new c i.leads k in
      (
        i.put rest.0,
        i.edits (p ++ f ∷ []) new (edited rest.0) (snoc_filled p f) rest.1,
        i.reads (p ++ f ∷ []) rest.0 ∙ rest.2,
      )

  replaced_below :
      (v : Value) (g : String) (p : List String) (f : String) (new c : Value)
      → nested_value atoi v (g ∷ p) ≡ some c
      → is_plain c ≡ true
      → (w : Value) × (edit atoi v (g ∷ (p ++ f ∷ [])) new ≡ edited w)
        × (nested_value atoi w (g ∷ p) ≡ some new)
  replaced_below v g [] f new c h k =
      let i = nested_value-Inside v g [] c h in
      let e : i.below ≡ c = some_value i.below c (sym (read_end i.below) ∙ i.leads) in
      (
        i.put new,
        i.edits (f ∷ []) new replace (snoc_filled [] f)
            (replace_here i.below f new (ap is_plain e ∙ k)),
        i.reads [] new ∙ read_end new,
      )
  replaced_below v g (h ∷ p) f new c r k =
      let i = nested_value-Inside v g (h ∷ p) c r in
      let rest = replaced_below i.below h p f new c i.leads k in
      (
        i.put rest.0,
        i.edits (h ∷ (p ++ f ∷ [])) new (edited rest.0) (λ e. ground (arith, e)) rest.1,
        i.reads (h ∷ p) rest.0 ∙ rest.2,
      )

  -- A write below a container that is there and has a place for the last field succeeds, and the value is
  -- then read at the path.
  pub set_nested_value-nested_value :
      (m : Fields) (p : List String) (f : String) (new c : Value)
      → nested_value atoi (obj m) p ≡ some c
      → holds f c ≡ true
      → (w : Value) × (set_nested_value atoi m (p ++ f ∷ []) new ≡ some w)
        × (nested_value atoi w (p ++ f ∷ []) ≡ some new)
  unfolding set_nested_value
  set_nested_value-nested_value m p f new c h k =
      let r = written_below (obj m) p f new c h k in (r.0, rw (r.1, set_nested_value) refl, r.2)

  -- A write below a value that is no container, or below a key that is missing, succeeds too, but it
  -- replaces the value above: the new one is read at the path without its last field.
  pub set_nested_value_replaces :
      (m : Fields) (g : String) (p : List String) (f : String) (new c : Value)
      → nested_value atoi (obj m) (g ∷ p) ≡ some c
      → is_plain c ≡ true
      → (w : Value) × (set_nested_value atoi m (g ∷ (p ++ f ∷ [])) new ≡ some w)
        × (nested_value atoi w (g ∷ p) ≡ some new)
  unfolding set_nested_value
  set_nested_value_replaces m g p f new c h k =
      let r = replaced_below (obj m) g p f new c h k in (r.0, rw (r.1, set_nested_value) refl, r.2)
