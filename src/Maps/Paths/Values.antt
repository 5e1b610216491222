-- ===== src/Maps/Paths/Values.antt =====
-- The leaves of an object, by their values.
use plumbing.Prelude.{map, String, ◌≡◌, refl, Option, some, List, [], ◌∷◌, ◌++◌}
use plumbing.Json.{
  Value, Fields, Items, null, bool, number, str, arr, map_slice, nil_map_slice, obj, other,
  no_items, item, end, field,
}

-- The values of the leaves in their order: what is neither a map nor a list, and a list that stands
-- directly in a list.
unfoldable mutual
  pub leaf_values : Value → List Value
  leaf_values (obj m) = field_leaves m
  leaf_values (arr xs) = item_leaves xs
  leaf_values null = null ∷ []
  leaf_values (bool b) = bool b ∷ []
  leaf_values (number n) = number n ∷ []
  leaf_values (str s) = str s ∷ []
  leaf_values (map_slice xs) = map_slice xs ∷ []
  leaf_values nil_map_slice = nil_map_slice ∷ []
  leaf_values (other type) = other type ∷ []

  pub field_leaves : Fields → List Value
  field_leaves end = []
  field_leaves (field k v m) = leaf_values v ++ field_leaves m

  pub item_leaves : Items → List Value
  item_leaves no_items = []
  item_leaves (item x xs) = leaves_of_item x ++ item_leaves xs

  pub leaves_of_item : Value → List Value
  leaves_of_item (obj m) = field_leaves m
  leaves_of_item (arr xs) = arr xs ∷ []
  leaves_of_item null = null ∷ []
  leaves_of_item (bool b) = bool b ∷ []
  leaves_of_item (number n) = number n ∷ []
  leaves_of_item (str s) = str s ∷ []
  leaves_of_item (map_slice xs) = map_slice xs ∷ []
  leaves_of_item nil_map_slice = nil_map_slice ∷ []
  leaves_of_item (other type) = other type ∷ []

-- The two lists have the same length, and what stands at the same place is related.
abbrev pub Each : (String → Value → Type 0) → List String → List Value → Type 0
Each R [] [] = Unit
Each R (path ∷ paths) (w ∷ ws) = R path w × Each R paths ws
Each R _ _ = ⊥

pub Each-append :
    (R : String → Value → Type 0) (paths more : List String) (ws vs : List Value)
    → Each R paths ws
    → Each R more vs
    → Each R (paths ++ more) (ws ++ vs)
Each-append R [] more [] vs a b = b
Each-append R [] more (w ∷ ws) vs a b = elim a [ ]
Each-append R (path ∷ paths) more [] vs a b = elim a [ ]
Each-append R (path ∷ paths) more (w ∷ ws) vs (here, a) b =
    (here, Each-append R paths more ws vs a b)

pub Each-map :
    (R S : String → Value → Type 0) (paths : List String) (ws : List Value)
    → ((path : String) (w : Value) → R path w → S path w)
    → Each R paths ws
    → Each S paths ws
Each-map R S [] [] f a = tt
Each-map R S [] (w ∷ ws) f a = elim a [ ]
Each-map R S (path ∷ paths) [] f a = elim a [ ]
Each-map R S (path ∷ paths) (w ∷ ws) f (here, a) = (f path w here, Each-map R S paths ws f a)

pub Each-equal :
    (f : String → Option Value) (paths : List String) (ws : List Value)
    → Each (λ path w. f path ≡ some w) paths ws
    → map f paths ≡ map some ws
Each-equal f [] [] a = refl
Each-equal f [] (w ∷ ws) a = elim a [ ]
Each-equal f (path ∷ paths) [] a = elim a [ ]
Each-equal f (path ∷ paths) (w ∷ ws) (here, a) = rw (here, Each-equal f paths ws a) refl
