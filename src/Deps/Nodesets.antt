-- ===== src/Deps/Nodesets.antt =====
-- What the maps of node sets hold after an edge is added or removed.
use plumbing.Prelude.{
  ◌+◌, String, string_Comparable, ◌≡◌, sym, ap, ◌∙◌, ◌≢◌, Bool, true, false, ◌&&◌, ◌||◌, not, none,
  some, List, [], ◌∷◌, length, nat_eq, lookup, delete, member, Nodup, add_node, remove_node,
  member-add_node, add_node-Nodup, member-remove_node, remove_node-Nodup, length-remove_node,
  lookup-insert, lookup-delete, if◌then◌else◌, arith, eq_iff, str_eq, Option-cases, inl, inr,
}
use plumbing.Deps.{
  Nodeset, Depmap, nodes_at, add_node_to_nodeset, remove_from_depmap, remove_from_each,
}

-- Whether the entry of `x` holds `y`.
abbrev pub edge : Depmap → String → String → Bool
edge dm x y = member y (nodes_at x dm)

-- Every entry is a set, and none is empty.
abbrev pub IsGood : Depmap → Type 0
IsGood dm = (x : String) (s : Nodeset) → lookup x dm ≡ some s → Nodup s × (s ≢ [])

nodes_at_lem : (dm : Depmap) (x : String) (s : Nodeset) → lookup x dm ≡ some s → nodes_at x dm ≡ s
unfolding nodes_at
nodes_at_lem dm x s e = ground (arith, e)

absent-nodes_at : (dm : Depmap) (x : String) → lookup x dm ≡ none → nodes_at x dm ≡ []
unfolding nodes_at
absent-nodes_at dm x e = ground (arith, e)

-- A key whose entry holds nothing is not there.
pub nodes_at_empty :
    (dm : Depmap) → IsGood dm → (x : String) → nodes_at x dm ≡ [] → lookup x dm ≡ none
nodes_at_empty dm good x h = elim (Option-cases (lookup x dm)) [
  | inl e ↦ e
  | inr (s, e) ↦ elim ((good x s e).1 (sym (nodes_at_lem dm x s e) ∙ h)) [ ]
]

pub nodes_at-Nodup : (dm : Depmap) → IsGood dm → (x : String) → Nodup (nodes_at x dm)
nodes_at-Nodup dm good x = elim (Option-cases (lookup x dm)) [
  | inl e ↦ let none_there : nodes_at x dm ≡ [] = absent-nodes_at dm x e in rw none_there tt
  | inr (s, e) ↦ rw (nodes_at_lem dm x s e) ((good x s e).0)
]

pub edge-add_node_to_nodeset :
    (dm : Depmap) (key node x y : String)
    → edge (add_node_to_nodeset dm key node) x y ≡ ((str_eq key x && str_eq node y) || edge dm x y)
unfolding add_node_to_nodeset nodes_at
edge-add_node_to_nodeset dm key node x y = ground (
  arith,
  lookup-insert key x (add_node node (nodes_at key dm)) dm,
  eq_iff key x,
  member-add_node y node (nodes_at key dm),
)

add_node-filled : (v : String) (s : Nodeset) → add_node v s ≢ []
unfolding add_node
add_node-filled v [] e = ground (arith, e)
add_node-filled v (w ∷ s) e = ground (arith, e)

pub add_node_to_nodeset-IsGood :
    (dm : Depmap) (key node : String) → IsGood dm → IsGood (add_node_to_nodeset dm key node)
unfolding add_node_to_nodeset
add_node_to_nodeset-IsGood dm key node good x s h = ground (
  arith,
  h,
  good x s,
  lookup-insert key x (add_node node (nodes_at key dm)) dm,
  add_node-Nodup node (nodes_at key dm) (nodes_at-Nodup dm good key),
  add_node-filled node (nodes_at key dm),
)

member-singleton :
    (v w : String) (s : Nodeset) → member v s ≡ true → length s ≡ 1 → member w s ≡ str_eq v w
member-singleton v w [] h l = ground (arith, h)
member-singleton v w (x ∷ []) h l = ground (arith, h, eq_iff x v)
member-singleton v w (x ∷ y ∷ s) h l = let bad : ⊥ = omega (arith, l) in elim bad [ ]

pub edge-remove_from_depmap :
    (dm : Depmap) (key node x y : String)
    → edge dm key node ≡ true
    → edge (remove_from_depmap dm key node) x y
      ≡ (edge dm x y && not (str_eq key x && str_eq node y))
unfolding remove_from_depmap nodes_at
edge-remove_from_depmap dm key node x y h = elim (Option-cases (lookup key dm)) [
  | inl e ↦ ground (arith, e, h)
  | inr (s, e) ↦ ground (
    arith,
    e,
    h,
    eq_iff key x,
    lookup-insert key x (remove_node node s) dm,
    lookup-delete key x dm,
    member-remove_node y node s,
    member-singleton node y s,
  )
]

remove_node-filled :
    (v : String) (s : Nodeset)
    → Nodup s
    → member v s ≡ true
    → nat_eq (length s) 1 ≡ false
    → remove_node v s ≢ []
remove_node-filled v s d h l e =
    let size : length (remove_node v s) + 1 ≡ length s = length-remove_node v s d h in
    let empty : length (remove_node v s) ≡ 0 = ap length e in
    let bad : ⊥ = ground (arith, size, empty, l) in elim bad [ ]

pub remove_from_depmap-IsGood :
    (dm : Depmap) (key node : String)
    → edge dm key node ≡ true
    → IsGood dm
    → IsGood (remove_from_depmap dm key node)
unfolding remove_from_depmap nodes_at
remove_from_depmap-IsGood dm key node h good x s = elim (Option-cases (lookup key dm)) [
  | inl e ↦ ground (arith, e, good x s)
  | inr (t, e) ↦ ground (
    arith,
    e,
    h,
    good x s,
    good key t e,
    lookup-insert key x (remove_node node t) dm,
    lookup-delete key x dm,
    remove_node-Nodup node t,
    remove_node-filled node t,
  )
]

-- Deleting a key deletes the edges that start there.
pub edge-delete :
    (dm : Depmap) (key x y : String)
    → edge (delete key dm) x y ≡ (if str_eq key x then false else edge dm x y)
unfolding nodes_at
edge-delete dm key x y = ground (arith, lookup-delete key x dm)

pub delete-IsGood : (dm : Depmap) (key : String) → IsGood dm → IsGood (delete key dm)
delete-IsGood dm key good x s h = ground (arith, h, good x s, lookup-delete key x dm)

still_there :
    (key : String) (keys : List String) (node : String) (dm : Depmap)
    → Nodup (key ∷ keys)
    → ((k : String) → member k (key ∷ keys) ≡ true → edge dm k node ≡ true)
    → (k : String) → member k keys ≡ true
    → edge (remove_from_depmap dm key node) k node ≡ true
still_there key keys node dm d h k m = ground (
  arith,
  m,
  h k,
  d.0,
  eq_iff key k,
  edge-remove_from_depmap dm key node k node (h key (ground (arith, eq_iff key key))),
)

-- Every key of the list loses its edge to the node.
pub edge-remove_from_each :
    (keys : List String) (node : String) (dm : Depmap) (x y : String)
    → Nodup keys
    → ((k : String) → member k keys ≡ true → edge dm k node ≡ true)
    → edge (remove_from_each keys node dm) x y
      ≡ (edge dm x y && not (member x keys && str_eq node y))
unfolding remove_from_each
edge-remove_from_each [] node dm x y d h = ground arith
edge-remove_from_each (key ∷ keys) node dm x y d h =
    let here : edge dm key node ≡ true = h key (ground (arith, eq_iff key key)) in
    let rest = still_there key keys node dm d h in
    ground (
      arith,
      edge-remove_from_each keys node (remove_from_depmap dm key node) x y d.1 rest,
      edge-remove_from_depmap dm key node x y here,
    )

pub remove_from_each-IsGood :
    (keys : List String) (node : String) (dm : Depmap)
    → Nodup keys
    → ((k : String) → member k keys ≡ true → edge dm k node ≡ true)
    → IsGood dm
    → IsGood (remove_from_each keys node dm)
unfolding remove_from_each
remove_from_each-IsGood [] node dm d h good = good
remove_from_each-IsGood (key ∷ keys) node dm d h good =
    let here : edge dm key node ≡ true = h key (ground (arith, eq_iff key key)) in
    let rest = still_there key keys node dm d h in
    remove_from_each-IsGood keys node _ d.1 rest (remove_from_depmap-IsGood dm key node here good)
