-- ===== src/Maps/Paths/Leaves.antt =====
-- Each path of a leaf leads to the value of the leaf.
use mathlib.Core.List.{append-nil, append_assoc}
use plumbing.Prelude.{
  ℕ, map, suc, ℤ, pos, String, str_eq, eq_iff, ◌≡◌, refl, sym, ap, ◌∙◌, true, Option, none, some,
  List, [], ◌∷◌, ◌++◌, ltb, arith, Bool-cases, inl, inr,
}
use plumbing.Json.{
  Value, Fields, Items, null, bool, number, str, arr, map_slice, nil_map_slice, obj, other,
  no_items, item, end, field, get_field,
}
use plumbing.Maps.Positions.{count, item_at, position, nested_value}
use plumbing.Maps.Paths.{
  parse_path, joined_path, item_path, leaf_paths, value_paths, item_paths, one_item,
}
use plumbing.Maps.Paths.Reading.{IsPlain, parse_path_plain, parse_path_key, parse_path_index}
use plumbing.Maps.Paths.Values.{
  leaf_values, field_leaves, item_leaves, leaves_of_item, Each, Each-append, Each-map, Each-equal,
}

-- The keys can stand in a path, and no map has one twice.
unfoldable mutual
  pub Keyed : Value → Type 0
  Keyed (obj m) = FieldsKeyed m
  Keyed (arr xs) = ItemsKeyed xs
  Keyed _ = Unit

  pub FieldsKeyed : Fields → Type 0
  FieldsKeyed end = Unit
  FieldsKeyed (field k v m) = IsPlain k × (get_field k m ≡ none) × Keyed v × FieldsKeyed m

  pub ItemsKeyed : Items → Type 0
  ItemsKeyed no_items = Unit
  ItemsKeyed (item x xs) = Keyed x × ItemsKeyed xs

-- Every entry of the first map is read in the second.
abbrev Reads : Fields → Fields → Type 0
Reads end m = Unit
Reads (field k v rest) m = (get_field k m ≡ some v) × Reads rest m

abbrev ReadsItems : ℕ → Items → Items → Type 0
ReadsItems i no_items all = Unit
ReadsItems i (item x rest) all =
    (item_at i all ≡ x) × (ltb i (count all) ≡ true) × ReadsItems (suc i) rest all

Reads-behind :
    (k : String) (v : Value) (rest m : Fields)
    → get_field k rest ≡ none
    → Reads rest m
    → Reads rest (field k v m)
unfolding get_field
Reads-behind k v end m h r = tt
Reads-behind k v (field j w rest) m h r =
    ground (arith, h, r, eq_iff k j, eq_iff j k, Reads-behind k v rest m)

Reads-same : (m : Fields) → FieldsKeyed m → Reads m m
unfolding get_field Keyed
Reads-same end h = tt
Reads-same (field k v m) h =
    (ground (arith, eq_iff k k), Reads-behind k v m m h.1 (Reads-same m h.3))

ReadsItems-behind :
    (i : ℕ) (x : Value) (rest all : Items)
    → ReadsItems i rest all
    → ReadsItems (suc i) rest (item x all)
ReadsItems-behind i x no_items all r = tt
ReadsItems-behind i x (item y rest) all r =
    (r.0, ground (arith, r.1), ReadsItems-behind (suc i) x rest all r.2)

ReadsItems-same : (xs : Items) → ReadsItems 0 xs xs
ReadsItems-same no_items = tt
ReadsItems-same (item x xs) = (refl, ground arith, ReadsItems-behind 0 x xs xs (ReadsItems-same xs))

module _ (itoa : ℕ → String) (atoi : String → Option ℤ)
    (atoi_itoa : (i : ℕ) → atoi (itoa i) ≡ some (pos i))
    (itoa-IsPlain : (i : ℕ) → IsPlain (itoa i)) where
  -- The path goes on from the prefix to a value below.
  abbrev Leads : Value → String → String → Value → Type 0
  Leads v prefix path w =
      (fields : List String) × (parse_path path ≡ parse_path prefix ++ fields)
      × (nested_value atoi v fields ≡ some w)

  here_Leads : (v : Value) (path : String) → Leads v path path v
  unfolding nested_value
  here_Leads v path = ([], sym (append-nil (parse_path path)), refl)

  parse-joined_path :
      (prefix k : String)
      → IsPlain k
      → parse_path (joined_path prefix k) ≡ parse_path prefix ++ k ∷ []
  unfolding parse_path
  parse-joined_path prefix k h = elim (Bool-cases (str_eq prefix "")) [
    | inl e ↦
        let none_before : prefix ≡ "" = (eq_iff prefix "").0 e in
        rw none_before (parse_path_plain k h)
    | inr e ↦ rw e (parse_path_key prefix k h)
  ]

  key_Leads :
      (m : Fields) (prefix k : String) (v : Value)
      → IsPlain k
      → get_field k m ≡ some v
      → (path : String) (w : Value) → Leads v (joined_path prefix k) path w
      → Leads (obj m) prefix path w
  unfolding nested_value
  key_Leads m prefix k v plain h path w (fields, e, r) = (
    k ∷ fields,
    e
        ∙ ap (λ x. x ++ fields) (parse-joined_path prefix k plain)
        ∙ append_assoc (parse_path prefix) (k ∷ []) fields,
    ground (arith, h, r),
  )

  item_Leads :
      (all : Items) (prefix : String) (i : ℕ) (x : Value)
      → item_at i all ≡ x
      → ltb i (count all) ≡ true
      → (path : String) (w : Value) → Leads x (item_path itoa prefix i) path w
      → Leads (arr all) prefix path w
  unfolding nested_value position
  item_Leads all prefix i x h l path w (fields, e, r) = (
    itoa i ∷ fields,
    e
        ∙ ap (λ x. x ++ fields) (parse_path_index prefix (itoa i) (itoa-IsPlain i))
        ∙ append_assoc (parse_path prefix) (itoa i ∷ []) fields,
    ground (arith, atoi_itoa i, h, l, r),
  )

  leaf_Leads : (v : Value) (path : String) → Each (Leads v path) (path ∷ []) (v ∷ [])
  leaf_Leads v path = (here_Leads v path, tt)

  mutual
    unfolding leaf_paths Keyed leaf_values

    value_Leads :
        (v : Value) (path : String)
        → Keyed v
        → Each (Leads v path) (value_paths itoa v path) (leaf_values v)
    value_Leads (obj m) path k = fields_Leads m m path k (Reads-same m k)
    value_Leads (arr xs) path k = items_Leads xs xs 0 path k (ReadsItems-same xs)
    value_Leads null path k = leaf_Leads null path
    value_Leads (bool b) path k = leaf_Leads (bool b) path
    value_Leads (number n) path k = leaf_Leads (number n) path
    value_Leads (str s) path k = leaf_Leads (str s) path
    value_Leads (map_slice xs) path k = leaf_Leads (map_slice xs) path
    value_Leads nil_map_slice path k = leaf_Leads nil_map_slice path
    value_Leads (other type) path k = leaf_Leads (other type) path

    fields_Leads :
        (rest m : Fields) (prefix : String)
        → FieldsKeyed rest
        → Reads rest m
        → Each (Leads (obj m) prefix) (leaf_paths itoa rest prefix) (field_leaves rest)
    fields_Leads end m prefix k r = tt
    fields_Leads (field key v rest) m prefix k r =
        Each-append (Leads (obj m) prefix) (value_paths itoa v (joined_path prefix key)) _
          (leaf_values v) _
          (Each-map (Leads v (joined_path prefix key)) (Leads (obj m) prefix) _ _
            (key_Leads m prefix key v k.0 r.0) (value_Leads v (joined_path prefix key) k.2))
          (fields_Leads rest m prefix k.3 r.1)

    items_Leads :
        (rest all : Items) (i : ℕ) (path : String)
        → ItemsKeyed rest
        → ReadsItems i rest all
        → Each (Leads (arr all) path) (item_paths itoa rest i path) (item_leaves rest)
    items_Leads no_items all i path k r = tt
    items_Leads (item x rest) all i path k r =
        Each-append (Leads (arr all) path) (one_item itoa x (item_path itoa path i)) _
          (leaves_of_item x) _
          (Each-map (Leads x (item_path itoa path i)) (Leads (arr all) path) _ _
            (item_Leads all path i x r.0 r.1) (one_Leads x (item_path itoa path i) k.0))
          (items_Leads rest all (suc i) path k.1 r.2)

    one_Leads :
        (x : Value) (path : String)
        → Keyed x
        → Each (Leads x path) (one_item itoa x path) (leaves_of_item x)
    one_Leads (obj m) path k = fields_Leads m m path k (Reads-same m k)
    one_Leads (arr xs) path k = leaf_Leads (arr xs) path
    one_Leads null path k = leaf_Leads null path
    one_Leads (bool b) path k = leaf_Leads (bool b) path
    one_Leads (number n) path k = leaf_Leads (number n) path
    one_Leads (str s) path k = leaf_Leads (str s) path
    one_Leads (map_slice xs) path k = leaf_Leads (map_slice xs) path
    one_Leads nil_map_slice path k = leaf_Leads nil_map_slice path
    one_Leads (other type) path k = leaf_Leads (other type) path

  -- The paths that `LeafPaths` lists for an object, each read by `ParsePath` and looked up by
  -- `NestedValue`, give exactly the values of its leaves, in order and one path for each, if no key is
  -- empty or has a dot or a bracket, no map has a key twice, and the decimal form of an index is read back
  -- and has neither.
  pub leaf_paths-nested_value :
      (m : Fields)
      → FieldsKeyed m
      → map (λ path. nested_value atoi (obj m) (parse_path path)) (leaf_paths itoa m "")
        ≡ map some (field_leaves m)
  unfolding parse_path
  leaf_paths-nested_value m k =
      Each-equal (λ path. nested_value atoi (obj m) (parse_path path)) _ _
        (Each-map (Leads (obj m) "") _ (leaf_paths itoa m "") (field_leaves m)
          (λ path w (fields, e, r). ap (nested_value atoi (obj m)) e ∙ r)
          (fields_Leads m m "" k (Reads-same m k)))
