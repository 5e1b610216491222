-- ===== src/Deps/Tests.antt =====
-- A small graph: "app" needs "lib" and "log", and "lib" needs "log".
use plumbing.Prelude.{
  String, string_Comparable, ◌≡◌, ◌≢◌, refl, some, List, [], ◌∷◌, insert, delete, lookup, member,
  Nodup, add_node, remove_node,
}
use plumbing.Deps.{
  Graph, new, with_edge, added, self_referential, circular, nodes_at, add_node_to_nodeset,
  remove_from_depmap, discover_each, discover, rounds, build_transitive, depends_on, has_dependent,
  depend_on, leaves, remove_from_each, remove, remove_each, layers_of, topo_sorted_layers,
  topo_sorted,
}
use plumbing.Deps.Acyclic.{
  Needs, Built, empty, grown, Built-Sound, Built-acyclic, depend_on_lem, has_dependent-depends_on,
}
use plumbing.Deps.Order.{Ordered, topo_sorted_lem}

abbrev lib : Graph
lib = with_edge new "lib" "log"

abbrev app : Graph
app = with_edge lib "app" "lib"

abbrev both : Graph
both = with_edge app "app" "log"

both_built : Built both
unfolding depend_on depends_on build_transitive rounds discover discover_each nodes_at lookup
    add_node_to_nodeset insert add_node
both_built =
    grown {g = app} {h = both} "app" "log"
      (grown {g = lib} {h = app} "app" "lib" (grown {g = new} {h = lib} "lib" "log" empty refl)
        refl)
      refl

log_first : topo_sorted both ≡ some ("log" ∷ "lib" ∷ "app" ∷ [])
unfolding topo_sorted topo_sorted_layers layers_of leaves remove_each remove remove_from_each
    remove_from_depmap remove_node delete insert lookup nodes_at add_node_to_nodeset add_node
log_first = refl

no_way_back : depend_on both "log" "app" ≡ circular
unfolding depend_on depends_on build_transitive rounds discover discover_each nodes_at lookup
    add_node_to_nodeset insert add_node
no_way_back = refl

has_dependent-depends_on_example : has_dependent both "log" "app" ≡ depends_on both "app" "log"
has_dependent-depends_on_example =
    has_dependent-depends_on both (Built-Sound both_built).valid "log" "app"

Built-acyclic_example : ¬ Needs both "lib" "lib"
Built-acyclic_example = Built-acyclic both_built "lib"

abbrev low : String
low = "log"

abbrev high : String
high = "app"

depend_on_lem_example :
    (low ≡ high → depend_on both low high ≡ self_referential)
    × (low ≢ high → Needs both high low → depend_on both low high ≡ circular)
    × (low ≢ high
        → ¬ Needs both high low
        → depend_on both low high ≡ added (with_edge both low high))
depend_on_lem_example = depend_on_lem both_built low high

topo_sorted_lem_example :
    (order : List String) × (topo_sorted both ≡ some order)
    × Ordered both [] order
    × ((x : String) → member x order ≡ member x both.nodes)
    × Nodup order
topo_sorted_lem_example = topo_sorted_lem both_built
