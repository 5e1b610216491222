-- ===== src/Deps.antt =====
-- deps/deps.go: the dependency graph and its topological order. The copies that `clone` makes are the
-- values themselves here, since the sets and maps of the model are never changed in place.
mod Nodesets
mod Valid
mod Search
mod Acyclic
mod Removal
mod Leaves
mod Order
mod Tests
use plumbing.Prelude.{
  ℕ, zero, suc, ◌+◌, String, string_Comparable, str_eq, Bool, true, false, Option, none, some, List,
  [], ◌∷◌, ◌++◌, nat_eq, length, lookup, insert, delete, is_key, member, add_node, remove_node,
  if◌then◌else◌,
}

abbrev pub Nodeset : Type 0
Nodeset = List String

abbrev pub Depmap : Type 0
Depmap = List (String × Nodeset)

pub record Graph : Type 0 where
  pub nodes : Nodeset
  pub dependencies : Depmap
  pub dependents : Depmap

abbrev pub new : Graph
new = record { nodes = []; dependencies = []; dependents = [] }

-- `dm[key]`, which is nil for a key that is not there.
pub nodes_at : String → Depmap → Nodeset
nodes_at key dm = elim (lookup key dm) [ none ↦ [] | some nodes ↦ nodes ]

pub add_node_to_nodeset : Depmap → String → String → Depmap
unfolding nodes_at
add_node_to_nodeset dm key node = insert key (add_node node (nodes_at key dm)) dm

pub remove_from_depmap : Depmap → String → String → Depmap
remove_from_depmap dm key node = elim (lookup key dm) [
  | none ↦ dm
  | some nodes ↦
      if nat_eq (length nodes) 1 then delete key dm else insert key (remove_node node nodes) dm
]

-- The loop over `searchNext`: what was found so far, and what was discovered in this layer.
pub record Layer : Type 0 where
  pub out : Nodeset
  pub discovered : List String

-- The body of the innermost loop, for each node of `nextFn(node)`.
pub discover_each : List String → Layer → Layer
discover_each [] l = l
discover_each (v ∷ vs) l =
    discover_each vs (
      if member v l.out then l else record { out = v ∷ l.out; discovered = l.discovered ++ v ∷ [] })

pub discover : (String → Nodeset) → List String → Layer → Layer
unfolding discover_each
discover next_fn [] l = l
discover next_fn (node ∷ search_next) l =
    discover next_fn search_next (discover_each (next_fn node) l)

-- The rounds of the search; without a round left and with nodes to search, there is no result.
pub rounds : ℕ → (String → Nodeset) → Nodeset → List String → Option Nodeset
rounds fuel next_fn out [] = some out
rounds zero next_fn out (node ∷ search_next) = none
rounds (suc fuel) next_fn out (node ∷ search_next) =
    let layer = discover next_fn (node ∷ search_next) (record { out = out; discovered = [] }) in
    rounds fuel next_fn layer.out layer.discovered

pub build_transitive : Graph → String → (String → Nodeset) → Option Nodeset
unfolding rounds
build_transitive g root next_fn =
    if member root g.nodes then rounds (suc (length g.nodes)) next_fn [] (root ∷ []) else some []

abbrev pub immediate_dependencies : Graph → String → Nodeset
immediate_dependencies g node = nodes_at node g.dependencies

abbrev pub immediate_dependents : Graph → String → Nodeset
immediate_dependents g node = nodes_at node g.dependents

abbrev pub deps : Graph → String → Option Nodeset
deps g child = build_transitive g child (immediate_dependencies g)

abbrev pub dependents_of : Graph → String → Option Nodeset
dependents_of g parent = build_transitive g parent (immediate_dependents g)

abbrev pub found_in : String → Option Nodeset → Option Bool
found_in node none = none
found_in node (some nodes) = some (member node nodes)

pub depends_on : Graph → String → String → Option Bool
unfolding build_transitive
depends_on g child parent = found_in parent (deps g child)

pub has_dependent : Graph → String → String → Option Bool
unfolding build_transitive
has_dependent g parent child = found_in child (dependents_of g parent)

-- What `DependOn` does. `no_result` is a search that did not end.
pub data Outcome : Type 0 where
  added : Graph → Outcome
  self_referential circular no_result : Outcome

abbrev pub with_edge : Graph → String → String → Graph
with_edge g child parent = record {
  nodes = add_node child (add_node parent g.nodes);
  dependencies = add_node_to_nodeset g.dependencies child parent;
  dependents = add_node_to_nodeset g.dependents parent child;
}

pub depend_on : Graph → String → String → Outcome
unfolding depends_on add_node_to_nodeset
depend_on g child parent =
    if str_eq child parent then self_referential else elim (depends_on g parent child) [
      | none ↦ no_result
      | some true ↦ circular
      | some false ↦ added (with_edge g child parent)
    ]

abbrev pub leaves_of : Depmap → List String → List String
leaves_of dependencies [] = []
leaves_of dependencies (node ∷ nodes) =
    let rest = leaves_of dependencies nodes in
    if is_key node dependencies then rest else node ∷ rest

pub leaves : Graph → List String
leaves g = leaves_of g.dependencies g.nodes

pub remove_from_each : List String → String → Depmap → Depmap
unfolding remove_from_depmap
remove_from_each [] node dm = dm
remove_from_each (key ∷ keys) node dm = remove_from_each keys node (remove_from_depmap dm key node)

pub remove : String → Graph → Graph
unfolding remove_from_each
remove node g =
    let dependencies = remove_from_each (nodes_at node g.dependents) node g.dependencies in
    let dependents = delete node g.dependents in
    record {
      nodes = remove_node node g.nodes;
      dependencies = delete node dependencies;
      dependents = remove_from_each (nodes_at node dependencies) node dependents;
    }

pub remove_each : List String → Graph → Graph
unfolding remove
remove_each [] g = g
remove_each (node ∷ nodes) g = remove_each nodes (remove node g)

abbrev pub prepend : List String → Option (List (List String)) → Option (List (List String))
prepend layer none = none
prepend layer (some layers) = some (layer ∷ layers)

-- The layers of a shrinking graph, in as many rounds.
pub layers_of : ℕ → Graph → Option (List (List String))
unfolding leaves remove_each
layers_of zero g = none
layers_of (suc fuel) g = elim (leaves g) [
  | [] ↦ some []
  | node ∷ nodes ↦ prepend (node ∷ nodes) (layers_of fuel (remove_each (node ∷ nodes) g))
]

pub topo_sorted_layers : Graph → Option (List (List String))
unfolding layers_of
topo_sorted_layers g = layers_of (suc (length g.nodes)) g

abbrev pub concat : List (List String) → List String
concat [] = []
concat (layer ∷ layers) = layer ++ concat layers

pub topo_sorted : Graph → Option (List String)
unfolding topo_sorted_layers
topo_sorted g = elim (topo_sorted_layers g) [ none ↦ none | some layers ↦ some (concat layers) ]
