-- ===== src/Deps/Order.antt =====
-- The topological order: it exists, has every node once, and puts a node after those that it needs.
use mathlib.Core.Path.{subst}
use plumbing.Prelude.{
  ℕ, zero, suc, ◌<◌, String, string_Comparable, ◌≡◌, refl, sym, ap, ◌∙◌, inl, inr, true, ◌||◌, some,
  List, [], ◌∷◌, ◌++◌, length, member, Nodup, member-append, arith, eq_iff, List-cases,
  append-Nodup,
}
use plumbing.Deps.{
  Graph, leaves, remove_each, prepend, layers_of, topo_sorted_layers, concat, topo_sorted,
}
use plumbing.Deps.Nodesets.{edge}
use plumbing.Deps.Acyclic.{Ranked, Built, Built-Sound}
use plumbing.Deps.Removal.{IsLeaf, Without}
use plumbing.Deps.Leaves.{
  leaves_there, leaves-Nodup, leaves-IsLeaf, itself-Without, remove_each-Without,
  length-remove_each, no_leaf_no_node,
}

-- What a node of a layer depends on stands in an earlier layer.
abbrev Layered : Graph → List String → List (List String) → Type 0
Layered g earlier [] = Unit
Layered g earlier (layer ∷ layers) =
    ((x y : String)
      → member x layer ≡ true
      → edge g.dependencies x y ≡ true
      → member y earlier ≡ true)
    × Layered g (layer ++ earlier) layers

layers_of_stop : (fuel : ℕ) (h : Graph) → leaves h ≡ [] → layers_of (suc fuel) h ≡ some []
unfolding layers_of
layers_of_stop fuel h e = rw (e, layers_of) refl

layers_of_next :
    (fuel : ℕ) (h : Graph) (n : String) (ns : List String)
    → leaves h ≡ n ∷ ns
    → layers_of (suc fuel) h ≡ prepend (n ∷ ns) (layers_of fuel (remove_each (n ∷ ns) h))
unfolding layers_of
layers_of_next fuel h n ns e = rw (e, layers_of) refl

-- The order that the layers from this graph on give.
record OrderingOf (fuel : ℕ) (g h : Graph) (gone : List String) : Type 0 where
  layers : List (List String)
  result : layers_of fuel h ≡ some layers
  layered : Layered g gone layers
  members : (x : String) → member x (concat layers) ≡ member x h.nodes
  once : Nodup (concat layers)

layers_of_lem :
    (fuel : ℕ) (g h : Graph) (gone : List String)
    → Ranked g
    → Without g gone h
    → length h.nodes < fuel
    → OrderingOf fuel g h gone
layers_of_lem zero g h gone r w f = let bad : ⊥ = omega (arith, f) in elim bad [ ]
layers_of_lem (suc fuel) g h gone r w f = elim (List-cases (leaves h)) [
  | inl e ↦ record {
    layers = [];
    result = layers_of_stop fuel h e;
    layered = tt;
    members = λ x. ap (member x) (sym (no_leaf_no_node g h gone r w e));
    once = tt;
  }
  | inr (n, ns, e) ↦
      let layer : List String = n ∷ ns in
      let in_leaves : (x : String) → member x layer ≡ true → member x (leaves h) ≡ true =
        λ x m. ap (member x) e ∙ m in
      let leaf : (x : String) → member x layer ≡ true → IsLeaf h x =
        λ x m. leaves-IsLeaf h x (in_leaves x m) in
      let there : (x : String) → member x layer ≡ true → member x h.nodes ≡ true =
        λ x m. leaves_there h x (in_leaves x m) in
      let single : Nodup layer = subst Nodup e (leaves-Nodup h w.valid.nodup) in
      let left : Without g (layer ++ gone) (remove_each layer h) =
        remove_each-Without g h gone layer w leaf in
      let size = length-remove_each h layer w.valid single leaf there in
      let rest =
        layers_of_lem fuel g (remove_each layer h) (layer ++ gone) r left
          (omega (arith, f, size)) in
      record {
        layers = layer ∷ rest.layers;
        result = layers_of_next fuel h n ns e ∙ ap (prepend layer) rest.result;
        layered = ((λ x y m k. ground (arith, k, leaf x m y, w.edges_left x y)), rest.layered);
        members = λ x. ground (
          arith,
          there x,
          member-append x layer (concat rest.layers),
          rest.members x,
          left.nodes_left x,
          w.nodes_left x,
          member-append x layer gone,
        );
        once = append-Nodup layer (concat rest.layers) single rest.once (λ x m.
            ground (arith, m, rest.members x, left.nodes_left x, member-append x layer gone));
      }
]

-- Everything that a node of the list needs directly stands before it.
abbrev pub Ordered : Graph → List String → List String → Type 0
Ordered g earlier [] = Unit
Ordered g earlier (x ∷ xs) =
    ((y : String) → edge g.dependencies x y ≡ true → member y earlier ≡ true)
    × Ordered g (x ∷ earlier) xs

layer-Ordered :
    (g : Graph) (layer rest earlier now : List String)
    → ((x y : String)
        → member x layer ≡ true
        → edge g.dependencies x y ≡ true
        → member y earlier ≡ true)
    → ((y : String) → member y earlier ≡ true → member y now ≡ true)
    → ((later : List String)
        → ((y : String) → (member y layer || member y now) ≡ true → member y later ≡ true)
        → Ordered g later rest)
    → Ordered g now (layer ++ rest)
layer-Ordered g [] rest earlier now h k o = o now (λ y m. ground (arith, m))
layer-Ordered g (x ∷ layer) rest earlier now h k o = (
  (λ y e. k y (h x y (ground (arith, eq_iff x x)) e)),
  layer-Ordered g layer rest earlier (x ∷ now) (λ z y m e. h z y (ground (arith, m)) e)
      (λ y m. ground (arith, k y m)) (λ later s. o later (λ y m. s y (ground (arith, m)))),
)

Layered-Ordered :
    (g : Graph) (layers : List (List String)) (earlier now : List String)
    → Layered g earlier layers
    → ((y : String) → member y earlier ≡ true → member y now ≡ true)
    → Ordered g now (concat layers)
Layered-Ordered g [] earlier now l k = tt
Layered-Ordered g (layer ∷ layers) earlier now l k =
    layer-Ordered g layer (concat layers) earlier now l.0 k (λ later s.
      Layered-Ordered g layers (layer ++ earlier) later l.1
        (λ y m. s y (ground (arith, m, k y, member-append y layer earlier))))

-- On a graph that calls of `DependOn` built, the topological sort ends: its list has every node of the
-- graph, no node twice and nothing else, and each node stands after all that it depends on.
pub topo_sorted_lem :
    {g : Graph}
    → Built g
    → (order : List String) × (topo_sorted g ≡ some order)
      × Ordered g [] order
      × ((x : String) → member x order ≡ member x g.nodes)
      × Nodup order
unfolding topo_sorted topo_sorted_layers
topo_sorted_lem {g} b =
    let s = Built-Sound b in
    let o =
      layers_of_lem (suc (length g.nodes)) g g [] s.ranked (itself-Without g s.valid)
        (omega arith) in
    (
      concat o.layers,
      ground (arith, o.result),
      Layered-Ordered g o.layers [] [] o.layered (λ y m. m),
      o.members,
      o.once,
    )
