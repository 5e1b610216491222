-- ===== src/Maps/Paths.antt =====
-- maps/paths.go: the paths of the leaves of an object, and how a path is read.
-- `itoa` is the decimal form of an index, as `%d` prints it.
pub mod Reading
pub mod Values
pub mod Leaves
use Prim.Native.Char.{Char, code}
use Prim.Native.String
use plumbing.Prelude.{
  ℕ, zero, suc, String, ◌+++◌, str_eq, Bool, true, false, ◌||◌, List, [], ◌∷◌, ◌++◌, nat_eq,
  if◌then◌else◌,
}
use plumbing.Json.{
  Value, Fields, Items, null, bool, number, str, arr, map_slice, nil_map_slice, obj, other,
  no_items, item, end, field,
}

-- `strings.ReplaceAll(path, "[", ".")`
unfoldable pub open_to_dot : String → String
open_to_dot String.[] = String.[]
open_to_dot (String.◌∷◌ c s) =
    let rest = open_to_dot s in
    if nat_eq (code c) 91 then String.◌∷◌ "." rest else String.◌∷◌ c rest

-- `strings.ReplaceAll(path, "]", "")`
unfoldable pub drop_close : String → String
drop_close String.[] = String.[]
drop_close (String.◌∷◌ c s) =
    let rest = drop_close s in if nat_eq (code c) 93 then rest else String.◌∷◌ c rest

abbrev pub to_first : Char → List String → List String
to_first c [] = String.◌∷◌ c String.[] ∷ []
to_first c (part ∷ parts) = String.◌∷◌ c part ∷ parts

-- `strings.Split(path, ".")`
unfoldable pub split_dots : String → List String
split_dots String.[] = String.[] ∷ []
split_dots (String.◌∷◌ c s) =
    let rest = split_dots s in if nat_eq (code c) 46 then String.[] ∷ rest else to_first c rest

abbrev pub filled : List String → List String
filled [] = []
filled (part ∷ parts) = let rest = filled parts in if str_eq part "" then rest else part ∷ rest

unfoldable pub parse_path : String → List String
unfolding open_to_dot drop_close split_dots
parse_path path = filled (split_dots (drop_close (open_to_dot path)))

abbrev pub joined_path : String → String → String
joined_path prefix key = if str_eq prefix "" then key else prefix +++ "." +++ key

module _ (itoa : ℕ → String) where
  abbrev pub item_path : String → ℕ → String
  item_path path i = path +++ "[" +++ itoa i +++ "]"

  unfoldable mutual
    pub leaf_paths : Fields → String → List String
    leaf_paths end prefix = []
    leaf_paths (field key value m) prefix =
        value_paths value (joined_path prefix key) ++ leaf_paths m prefix

    pub value_paths : Value → String → List String
    value_paths (obj m) path = leaf_paths m path
    value_paths (arr xs) path = item_paths xs 0 path
    value_paths null path = path ∷ []
    value_paths (bool b) path = path ∷ []
    value_paths (number n) path = path ∷ []
    value_paths (str s) path = path ∷ []
    value_paths (map_slice xs) path = path ∷ []
    value_paths nil_map_slice path = path ∷ []
    value_paths (other type) path = path ∷ []

    pub item_paths : Items → ℕ → String → List String
    item_paths no_items i path = []
    item_paths (item x xs) i path = one_item x (item_path path i) ++ item_paths xs (suc i) path

    pub one_item : Value → String → List String
    one_item (obj m) path = leaf_paths m path
    one_item null path = path ∷ []
    one_item (bool b) path = path ∷ []
    one_item (number n) path = path ∷ []
    one_item (str s) path = path ∷ []
    one_item (arr xs) path = path ∷ []
    one_item (map_slice xs) path = path ∷ []
    one_item nil_map_slice path = path ∷ []
    one_item (other type) path = path ∷ []
