-- ===== src/Deps/Removal.antt =====
-- Removing a node that depends on nothing.
use plumbing.Prelude.{
  ◌+◌, String, string_Comparable, ◌≡◌, refl, ap, ◌∙◌, true, false, ◌&&◌, not, List, [], ◌∷◌, length,
  delete, member, Nodup, remove_node, member-remove_node, remove_node-Nodup, length-remove_node,
  arith, eq_iff, str_eq,
}
use plumbing.Deps.{Graph, Nodeset, Depmap, nodes_at, remove_from_each, remove}
use plumbing.Deps.Nodesets.{
  edge, IsGood, nodes_at-Nodup, edge-delete, delete-IsGood, edge-remove_from_each,
  remove_from_each-IsGood,
}
use plumbing.Deps.Valid.{IsValid}

abbrev pub IsLeaf : Graph → String → Type 0
IsLeaf g node = (y : String) → edge g.dependencies node y ≡ false

pub no_members : (s : List String) → ((y : String) → member y s ≡ false) → s ≡ []
no_members [] h = refl
no_members (y ∷ s) h = ground (arith, h y, eq_iff y y)

module _ (g : Graph) (v : IsValid g) (node : String) (leaf : IsLeaf g node) where
  above : Nodeset
  above = nodes_at node g.dependents

  above-edge : (k : String) → member k above ≡ true → edge g.dependencies k node ≡ true
  unfolding above
  above-edge k m = v.mirror k node ∙ m

  cut : Depmap
  cut = remove_from_each above node g.dependencies

  edge-cut : (x y : String) → edge cut x y ≡ (edge g.dependencies x y && not (str_eq node y))
  unfolding cut above
  edge-cut x y = ground (
    arith,
    eq_iff node y,
    v.mirror x y,
    edge-remove_from_each above node g.dependencies x y
        (nodes_at-Nodup g.dependents v.dependents_good node) above-edge,
  )

  cut-IsGood : IsGood cut
  unfolding cut above
  cut-IsGood =
      remove_from_each-IsGood above node g.dependencies
        (nodes_at-Nodup g.dependents v.dependents_good node) above-edge v.dependencies_good

  nothing_below : nodes_at node cut ≡ []
  nothing_below = no_members _ (λ y. ground (arith, leaf y, edge-cut node y))

  -- The second loop has no edge to remove.
  removed : Graph
  removed = record {
    nodes = remove_node node g.nodes;
    dependencies = delete node cut;
    dependents = delete node g.dependents;
  }

  remove-removed : remove node g ≡ removed
  unfolding remove removed cut above
  remove-removed =
      ap
        (λ keys. record removed {
          dependents = remove_from_each keys node (delete node g.dependents);
        })
        nothing_below

  edge-removed :
      (x y : String)
      → edge removed.dependencies x y ≡ (edge g.dependencies x y && not (str_eq node y))
  unfolding removed
  edge-removed x y = ground (arith, edge-delete cut node x y, edge-cut x y, leaf y, eq_iff node x)

  removed-IsValid : IsValid removed
  unfolding removed
  removed-IsValid = record {
    nodup = remove_node-Nodup node g.nodes v.nodup;
    dependencies_good = delete-IsGood cut node cut-IsGood;
    dependents_good = delete-IsGood g.dependents node v.dependents_good;
    mirror = λ x y.
        ground
          (arith, edge-removed x y, v.mirror x y, edge-delete g.dependents node y x, eq_iff node y);
    inside = λ x y h. ground (
      arith,
      h,
      edge-removed x y,
      v.inside x y,
      leaf y,
      eq_iff node x,
      eq_iff node y,
      member-remove_node x node g.nodes,
      member-remove_node y node g.nodes,
    );
  }

-- What is left of a graph without some of its nodes.
pub record Without (g : Graph) (gone : List String) (h : Graph) : Type 0 where
  pub valid : IsValid h
  pub nodes_left : (x : String) → member x h.nodes ≡ (member x g.nodes && not (member x gone))
  pub edges_left :
      (x y : String) → edge h.dependencies x y ≡ (edge g.dependencies x y && not (member y gone))

pub remove-Without :
    (g h : Graph) (gone : List String) (node : String)
    → Without g gone h
    → IsLeaf h node
    → Without g (node ∷ gone) (remove node h)
unfolding removed
remove-Without g h gone node w leaf = rw (remove-removed h w.valid node leaf) (record {
  valid = removed-IsValid h w.valid node leaf;
  nodes_left = λ x. ground (arith, w.nodes_left x, member-remove_node x node h.nodes);
  edges_left = λ x y. ground (arith, w.edges_left x y, edge-removed h w.valid node leaf x y);
})

pub length-remove :
    (h : Graph) (node : String)
    → Nodup h.nodes
    → member node h.nodes ≡ true
    → length (remove node h).nodes + 1 ≡ length h.nodes
unfolding remove
length-remove h node d m = length-remove_node node h.nodes d m
