-- ===== src/Deps/Leaves.antt =====
-- The leaves of a graph, their removal, and that there is one.
use plumbing.Prelude.{
  ℕ, ◌+◌, ◌≤◌, String, string_Comparable, ◌≡◌, refl, sym, ap, ◌∙◌, inl, inr, true, false, ◌&&◌, not,
  none, List, [], ◌∷◌, ◌++◌, length, lookup, is_key, member, Nodup, member-append, arith, eq_iff,
  str_eq, leb, Bool-cases, List-cases,
}
use plumbing.Deps.{Graph, Depmap, nodes_at, leaves_of, leaves, remove, remove_each}
use plumbing.Deps.Nodesets.{edge, nodes_at_empty}
use plumbing.Deps.Valid.{IsValid}
use plumbing.Deps.Acyclic.{Ranked}
use plumbing.Deps.Removal.{IsLeaf, no_members, Without, remove-Without, length-remove}

member-leaves_of :
    (dm : Depmap) (nodes : List String) (x : String)
    → member x (leaves_of dm nodes) ≡ (member x nodes && not (is_key x dm))
member-leaves_of dm [] x = refl
member-leaves_of dm (n ∷ nodes) x = ground (arith, eq_iff n x, member-leaves_of dm nodes x)

leaves_of-Nodup : (dm : Depmap) (nodes : List String) → Nodup nodes → Nodup (leaves_of dm nodes)
leaves_of-Nodup dm [] d = tt
leaves_of-Nodup dm (n ∷ nodes) d =
    ground (arith, d, member-leaves_of dm nodes n, leaves_of-Nodup dm nodes)

pub leaves_there : (g : Graph) (x : String) → member x (leaves g) ≡ true → member x g.nodes ≡ true
unfolding leaves
leaves_there g x m = ground (arith, m, member-leaves_of g.dependencies g.nodes x)

pub leaves-Nodup : (g : Graph) → Nodup g.nodes → Nodup (leaves g)
unfolding leaves
leaves-Nodup g d = leaves_of-Nodup g.dependencies g.nodes d

absent-IsLeaf : (g : Graph) (x : String) → is_key x g.dependencies ≡ false → IsLeaf g x
unfolding nodes_at
absent-IsLeaf g x h y = ground (arith, h)

IsLeaf-absent :
    (g : Graph) → IsValid g → (x : String) → IsLeaf g x → is_key x g.dependencies ≡ false
IsLeaf-absent g v x leaf =
    let none_there : lookup x g.dependencies ≡ none =
      nodes_at_empty g.dependencies v.dependencies_good x (no_members _ leaf) in
    ground (arith, none_there)

pub leaves-IsLeaf : (g : Graph) (x : String) → member x (leaves g) ≡ true → IsLeaf g x
unfolding leaves
leaves-IsLeaf g x m =
    absent-IsLeaf g x (ground (arith, m, member-leaves_of g.dependencies g.nodes x))

pub itself-Without : (g : Graph) → IsValid g → Without g [] g
itself-Without g v = record {
  valid = v;
  nodes_left = λ x. ground arith;
  edges_left = λ x y. ground arith;
}

remove-IsLeaf :
    (h : Graph)
    → IsValid h
    → (node : String) → IsLeaf h node
    → (x : String) → IsLeaf h x
    → IsLeaf (remove node h) x
remove-IsLeaf h v node leaf x l y =
    ground (arith, l y, (remove-Without h h [] node (itself-Without h v) leaf).edges_left x y)

-- Removing the leaves one after the other.
pub remove_each-Without :
    (g h : Graph) (gone nodes : List String)
    → Without g gone h
    → ((x : String) → member x nodes ≡ true → IsLeaf h x)
    → Without g (nodes ++ gone) (remove_each nodes h)
unfolding remove_each
remove_each-Without g h gone [] w l = w
remove_each-Without g h gone (n ∷ nodes) w l =
    let leaf : IsLeaf h n = l n (ground (arith, eq_iff n n)) in
    let r =
      remove_each-Without g (remove n h) (n ∷ gone) nodes (remove-Without g h gone n w leaf)
        (λ x m. remove-IsLeaf h w.valid n leaf x (l x (ground (arith, m)))) in
    record {
      valid = r.valid;
      nodes_left = λ x.
          ground
            (arith, r.nodes_left x, member-append x nodes gone, member-append x nodes (n ∷ gone));
      edges_left = λ x y.
          ground
            (arith, r.edges_left x y, member-append y nodes gone, member-append y nodes (n ∷ gone));
    }

pub length-remove_each :
    (h : Graph) (nodes : List String)
    → IsValid h
    → Nodup nodes
    → ((x : String) → member x nodes ≡ true → IsLeaf h x)
    → ((x : String) → member x nodes ≡ true → member x h.nodes ≡ true)
    → length (remove_each nodes h).nodes + length nodes ≡ length h.nodes
unfolding remove_each
length-remove_each h [] v d l m = omega arith
length-remove_each h (n ∷ nodes) v d l m =
    let leaf : IsLeaf h n = l n (ground (arith, eq_iff n n)) in
    let w : Without h (n ∷ []) (remove n h) = remove-Without h h [] n (itself-Without h v) leaf in
    let rest =
      length-remove_each (remove n h) nodes w.valid d.1
        (λ x k. remove-IsLeaf h v n leaf x (l x (ground (arith, k))))
        (λ x k. ground (arith, k, m x, w.nodes_left x, d.0, eq_iff n x)) in
    omega (arith, rest, length-remove h n v.nodup (m n (ground (arith, eq_iff n n))))

-- A node of the smallest rank.
lowest :
    (rank : String → ℕ) (n : String) (nodes : List String)
    → (m : String) × (member m (n ∷ nodes) ≡ true)
      × ((y : String) → member y (n ∷ nodes) ≡ true → rank m ≤ rank y)
lowest rank n [] = (
  n,
  ground (arith, eq_iff n n),
  λ y h. let e : n ≡ y = ground (arith, h, eq_iff n y) in rw e (omega arith),
)
lowest rank n (k ∷ nodes) =
    let rest = lowest rank k nodes in
    let first : (y : String) → str_eq n y ≡ true → rank n ≡ rank y =
      λ y e. ap rank ((eq_iff n y).0 e) in
    elim (Bool-cases (leb (rank n) (rank rest.0))) [
      | inl low ↦ (n, ground (arith, eq_iff n n), λ y h. ground (arith, h, low, first y, rest.2 y))
      | inr high ↦
          (rest.0, ground (arith, rest.1), λ y h. ground (arith, h, high, first y, rest.2 y))
    ]

-- A part of a ranked graph that has a node has a leaf.
pub leaf_there :
    (g h : Graph) (gone : List String)
    → Ranked g
    → Without g gone h
    → (n : String) (nodes : List String) → h.nodes ≡ n ∷ nodes
    → (m : String) × (member m (leaves h) ≡ true)
unfolding leaves
leaf_there g h gone r w n nodes e =
    let low = lowest r.0 n nodes in
    let m : String = low.0 in
    let m_there : member m h.nodes ≡ true = ap (member m) e ∙ low.1 in
    let leaf : IsLeaf h m = λ y. elim (Bool-cases (edge h.dependencies m y)) [
      | inr none_there ↦ none_there
      | inl there ↦
          let y_there : member y (n ∷ nodes) ≡ true =
            ap (member y) (sym e) ∙ ground (arith, there, w.valid.inside m y) in
          let bad : ⊥ = ground (arith, there, w.edges_left m y, r.1 m y, low.2 y y_there) in
          elim bad [ ]
    ] in
    (
      m,
      ground (
        arith,
        m_there,
        member-leaves_of h.dependencies h.nodes m,
        IsLeaf-absent h w.valid m leaf,
      ),
    )

pub no_leaf_no_node :
    (g h : Graph) (gone : List String) → Ranked g → Without g gone h → leaves h ≡ [] → h.nodes ≡ []
no_leaf_no_node g h gone r w e = elim (List-cases h.nodes) [
  | inl none_there ↦ none_there
  | inr (n, ns, there) ↦
      let leaf = leaf_there g h gone r w n ns there in
      let bad : member leaf.0 [] ≡ true = ap (member leaf.0) (sym e) ∙ leaf.1 in ground (arith, bad)
]
