-- ===== src/Deps/Valid.antt =====
-- The invariant of a graph, which an added edge keeps.
use plumbing.Prelude.{
  String, string_Comparable, ◌≡◌, refl, true, ◌&&◌, lookup, member, Nodup, add_node,
  member-add_node, add_node-Nodup, arith, eq_iff,
}
use plumbing.Deps.{Graph, nodes_at, new, with_edge}
use plumbing.Deps.Nodesets.{edge, IsGood, edge-add_node_to_nodeset, add_node_to_nodeset-IsGood}

-- The two maps hold the same edges, each between two nodes of the graph.
pub record IsValid (g : Graph) : Type 0 where
  pub nodup : Nodup g.nodes
  pub dependencies_good : IsGood g.dependencies
  pub dependents_good : IsGood g.dependents
  pub mirror : (x y : String) → edge g.dependencies x y ≡ edge g.dependents y x
  pub inside :
      (x y : String)
      → edge g.dependencies x y ≡ true
      → (member x g.nodes && member y g.nodes) ≡ true

pub new-IsValid : IsValid new
unfolding nodes_at lookup
new-IsValid = record {
  nodup = tt;
  dependencies_good = λ x s e. ground (arith, e);
  dependents_good = λ x s e. ground (arith, e);
  mirror = λ x y. refl;
  inside = λ x y e. ground (arith, e);
}

pub with_edge-IsValid :
    (g : Graph) (child parent : String) → IsValid g → IsValid (with_edge g child parent)
with_edge-IsValid g child parent v = record {
  nodup = add_node-Nodup child _ (add_node-Nodup parent g.nodes v.nodup);
  dependencies_good = add_node_to_nodeset-IsGood _ child parent v.dependencies_good;
  dependents_good = add_node_to_nodeset-IsGood _ parent child v.dependents_good;
  mirror = λ x y. ground (
    arith,
    v.mirror x y,
    edge-add_node_to_nodeset g.dependencies child parent x y,
    edge-add_node_to_nodeset g.dependents parent child y x,
  );
  inside = λ x y e. ground (
    arith,
    e,
    v.inside x y,
    eq_iff child x,
    eq_iff child y,
    eq_iff parent x,
    eq_iff parent y,
    edge-add_node_to_nodeset g.dependencies child parent x y,
    member-add_node x child (add_node parent g.nodes),
    member-add_node x parent g.nodes,
    member-add_node y child (add_node parent g.nodes),
    member-add_node y parent g.nodes,
  );
}
