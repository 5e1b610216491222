-- ===== src/Deps/Acyclic.antt =====
-- No sequence of calls of `DependOn` makes a cycle.
use mathlib.Core.Path.{subst}
use plumbing.Prelude.{
  ℕ, suc, lookup, string_Comparable, ◌+◌, ◌<◌, String, ◌≡◌, ◌≢◌, sym, ap, ◌∙◌, ◌↔◌, inl, inr, Bool,
  true, false, ◌||◌, some, member, if◌then◌else◌, arith, eq_iff, str_eq, Bool-cases,
}
use plumbing.Deps.{
  Graph, Nodeset, added, self_referential, circular, new, nodes_at, with_edge,
  immediate_dependencies, immediate_dependents, found_in, depends_on, has_dependent, depend_on,
}
use plumbing.Deps.Nodesets.{edge, edge-add_node_to_nodeset}
use plumbing.Deps.Valid.{IsValid, new-IsValid, with_edge-IsValid}
use plumbing.Deps.Search.{PathTo, one, more, build_transitive_lem}

-- The first node needs the second, directly or through others.
abbrev pub Needs : Graph → String → String → Type 0
Needs g = PathTo (immediate_dependencies g)

-- A search from a node of a valid graph gives a result, and it is right.
pub depends_on_lem :
    (g : Graph)
    → IsValid g
    → (child parent : String)
    → (b : Bool) × (depends_on g child parent ≡ some b) × ((b ≡ true) ↔ Needs g child parent)
unfolding depends_on
depends_on_lem g v child parent =
    let found = build_transitive_lem g (immediate_dependencies g) v.nodup v.inside child in
    (member parent found.0, ap (found_in parent) found.1, found.2 parent)

has_dependent_lem :
    (g : Graph)
    → IsValid g
    → (parent child : String)
    → (b : Bool) × (has_dependent g parent child ≡ some b)
      × ((b ≡ true) ↔ PathTo (immediate_dependents g) parent child)
unfolding has_dependent
has_dependent_lem g v parent child =
    let found =
      build_transitive_lem g (immediate_dependents g) v.nodup
        (λ x y h. ground (arith, h, v.mirror y x, v.inside y x)) parent in
    (member child found.0, ap (found_in child) found.1, found.2 child)

before :
    {next_fn : String → Nodeset} {x y z : String}
    → member y (next_fn x) ≡ true
    → PathTo next_fn y z
    → PathTo next_fn x z
before h (one k) = more (one h) k
before h (more p k) = more (before h p) k

-- Two maps with the same edges in opposite directions have the same paths.
reversed :
    (f b : String → Nodeset)
    → ((x y : String) → member y (f x) ≡ member x (b y))
    → {x y : String} → PathTo f x y
    → PathTo b y x
reversed f b m (one h) = one (sym (m _ _) ∙ h)
reversed f b m (more p h) = before (sym (m _ _) ∙ h) (reversed f b m p)

-- On a valid graph, asking for the dependents of the parent is asking for the dependencies of the child.
pub has_dependent-depends_on :
    (g : Graph)
    → IsValid g
    → (parent child : String) → has_dependent g parent child ≡ depends_on g child parent
has_dependent-depends_on g v parent child =
    let up = has_dependent_lem g v parent child in
    let down = depends_on_lem g v child parent in
    let to_down : up.0 ≡ true → down.0 ≡ true = λ e. down.2.1 (
      reversed (immediate_dependents g) (immediate_dependencies g) (λ x y. sym (v.mirror y x))
        (up.2.0 e)) in
    let to_up : down.0 ≡ true → up.0 ≡ true = λ e.
      up.2.1 (reversed (immediate_dependencies g) (immediate_dependents g) v.mirror (down.2.0 e)) in
    let agree : up.0 ≡ down.0 = ground (arith, to_down, to_up) in up.1 ∙ ap some agree ∙ sym down.1

-- What `depend_on` does with an edge.
data Verdict (g : Graph) (child parent : String) : Type 0 where
  same_node : child ≡ parent → depend_on g child parent ≡ self_referential → Verdict g child parent
  cycle :
      child ≢ parent
      → Needs g parent child
      → depend_on g child parent ≡ circular
      → Verdict g child parent
  fine :
      child ≢ parent
      → ¬ Needs g parent child
      → depend_on g child parent ≡ added (with_edge g child parent)
      → Verdict g child parent

verdict : (g : Graph) → IsValid g → (child parent : String) → Verdict g child parent
unfolding depend_on
verdict g v child parent =
    let found = depends_on_lem g v parent child in
    elim (Bool-cases (str_eq child parent)) [
      | inl same ↦ same_node ((eq_iff child parent).0 same) (ground (arith, same))
      | inr differ ↦ elim (Bool-cases found.0) [
        | inl needed ↦
            cycle (λ e. ground (arith, e, differ, eq_iff child parent)) (found.2.0 needed)
              (ground (arith, differ, found.1, needed))
        | inr free ↦
            fine (λ e. ground (arith, e, differ, eq_iff child parent))
              (λ p. ground (arith, free, found.2.1 p)) (ground (arith, differ, found.1, free))
      ]
    ]

-- A number for every node, larger than those of the nodes that it depends on.
abbrev pub Ranked : Graph → Type 0
Ranked g = (rank : String → ℕ) × ((x y : String) → edge g.dependencies x y ≡ true → rank y < rank x)

Needs-rank : (g : Graph) (r : Ranked g) {x y : String} → Needs g x y → r.0 y < r.0 x
Needs-rank g r (one h) = r.1 _ _ h
Needs-rank g r (more p h) = omega (arith, Needs-rank g r p, r.1 _ _ h)

module _ (g : Graph) (v : IsValid g) (r : Ranked g) (child parent : String) (apart : child ≢ parent)
    (free : ¬ Needs g parent child) where
  -- The child and what needs it are lifted above the parent.
  lifted : String → Bool
  lifted x = str_eq child x || (depends_on_lem g v x child).0

  rank_after : String → ℕ
  rank_after x = if lifted x then r.0 x + suc (r.0 parent) else r.0 x

  lifted_back : (x y : String) → edge g.dependencies x y ≡ true → lifted y ≡ true → lifted x ≡ true
  unfolding lifted
  lifted_back x y h l =
      let direct : child ≡ y → Needs g x child = λ e. one (rw e h) in
      let on : (depends_on_lem g v y child).0 ≡ true → Needs g x child =
        λ e. before h ((depends_on_lem g v y child).2.0 e) in
      ground (arith, l, eq_iff child y, direct, on, (depends_on_lem g v x child).2.1)

  parent_low : lifted parent ≡ false
  unfolding lifted
  parent_low =
      ground (arith, eq_iff child parent, apart, free, (depends_on_lem g v parent child).2.0)

  child_high : lifted child ≡ true
  unfolding lifted
  child_high = ground (arith, eq_iff child child)

  with_edge-Ranked : Ranked (with_edge g child parent)
  unfolding rank_after
  with_edge-Ranked = (
    rank_after,
    λ x y h. elim (Bool-cases (edge g.dependencies x y)) [
      | inl old ↦ ground (arith, r.1 x y old, lifted_back x y old)
      | inr fresh ↦ ground (
        arith,
        h,
        fresh,
        eq_iff child x,
        eq_iff parent y,
        parent_low,
        child_high,
        edge-add_node_to_nodeset g.dependencies child parent x y,
      )
    ],
  )

-- The graphs that successful calls of `DependOn` build from the empty one.
pub data Built : Graph → Type 0 where
  empty : Built new
  grown :
      {g h : Graph} (child parent : String) → Built g → depend_on g child parent ≡ added h → Built h

pub record Sound (g : Graph) : Type 0 where
  pub valid : IsValid g
  pub ranked : Ranked g

new-Sound : Sound new
unfolding nodes_at lookup
new-Sound = record { valid = new-IsValid; ranked = ((λ x. 0), λ x y h. ground (arith, h)) }

pub Built-Sound : {g : Graph} → Built g → Sound g
Built-Sound empty = new-Sound
Built-Sound (grown {g} {h} child parent b e) =
    let s = Built-Sound b in
    elim (verdict g s.valid child parent) [
      | same_node same k ↦ ground (arith, e, k)
      | cycle apart p k ↦ ground (arith, e, k)
      | fine apart free k ↦
          let made : with_edge g child parent ≡ h = ground (arith, e, k) in
          subst Sound made (record {
            valid = with_edge-IsValid g child parent s.valid;
            ranked = with_edge-Ranked g s.valid s.ranked child parent apart free;
          })
    ]

-- In a graph that calls of `DependOn` built, no node depends on itself, directly or through others.
pub Built-acyclic : {g : Graph} → Built g → (x : String) → ¬ Needs g x x
Built-acyclic {g} b x p =
    let bad : ⊥ = omega (arith, Needs-rank g (Built-Sound b).ranked p) in elim bad [ ]

-- On a graph that calls of `DependOn` built, a further call always ends: it refuses an edge from a
-- node to itself, and an edge whose parent already needs the child, and it adds every other edge.
pub depend_on_lem :
    {g : Graph}
    → Built g
    → (child parent : String)
    → (child ≡ parent → depend_on g child parent ≡ self_referential)
      × (child ≢ parent → Needs g parent child → depend_on g child parent ≡ circular)
      × (child ≢ parent
          → ¬ Needs g parent child
          → depend_on g child parent ≡ added (with_edge g child parent))
depend_on_lem {g} b child parent = elim (verdict g (Built-Sound b).valid child parent) [
  | same_node same k ↦ ((λ e. k), (λ ne p. elim (ne same) [ ]), (λ ne n. elim (ne same) [ ]))
  | cycle apart p k ↦ ((λ e. elim (apart e) [ ]), (λ ne q. k), (λ ne n. elim (n p) [ ]))
  | fine apart free k ↦ ((λ e. elim (apart e) [ ]), (λ ne p. elim (free p) [ ]), (λ ne n. k))
]
