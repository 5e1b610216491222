-- ===== src/Deps/Search.antt =====
-- The breadth-first search ends, and finds exactly what can be reached by one edge or more.
use plumbing.Prelude.{
  ℕ, zero, suc, ◌+◌, ◌≤◌, ◌<◌, String, string_Comparable, ◌≡◌, refl, ◌↔◌, inl, inr, Bool, true,
  false, ◌&&◌, ◌||◌, some, List, [], ◌∷◌, ◌++◌, length, member, Nodup, length-within, member-append,
  length-append, arith, eq_iff, str_eq, Bool-cases,
}
use plumbing.Deps.{Layer, Nodeset, Graph, discover_each, discover, rounds, build_transitive}

-- One or more steps along `next_fn`.
pub data PathTo (next_fn : String → Nodeset) (x : String) : String → Type 0 where
  one : {y : String} → member y (next_fn x) ≡ true → PathTo next_fn x y
  more : {y z : String} → PathTo next_fn x y → member z (next_fn y) ≡ true → PathTo next_fn x z

member-discover_each :
    (vs : List String) (l : Layer) (w : String)
    → member w (discover_each vs l).out ≡ (member w vs || member w l.out)
unfolding discover_each
member-discover_each [] l w = refl
member-discover_each (v ∷ vs) l w = ground (
  arith,
  eq_iff v w,
  member-discover_each vs l w,
  member-discover_each vs (record { out = v ∷ l.out; discovered = l.discovered ++ v ∷ [] }) w,
)

-- A layer that began with the set `before`: what was discovered is what the set has more.
record Grows (before : Nodeset) (l : Layer) : Type 0 where
  nodup : Nodup l.out
  sizes : length l.out ≡ length before + length l.discovered
  same : (w : String) → member w l.out ≡ (member w l.discovered || member w before)

discover_each-Grows :
    (before : Nodeset) (vs : List String) (l : Layer)
    → Grows before l
    → Grows before (discover_each vs l)
unfolding discover_each
discover_each-Grows before [] l g = g
discover_each-Grows before (v ∷ vs) l g = elim (Bool-cases (member v l.out)) [
  | inl seen ↦ rw seen (discover_each-Grows before vs l g)
  | inr fresh ↦ rw fresh (
      discover_each-Grows before vs _ (record {
        nodup = (fresh, g.nodup);
        sizes = omega (arith, g.sizes, length-append l.discovered (v ∷ []));
        same = λ w. ground (arith, g.same w, member-append w l.discovered (v ∷ []));
      }))
]

-- The successors of a list of nodes.
abbrev steps : (String → Nodeset) → List String → String → Bool
steps next_fn [] w = false
steps next_fn (n ∷ ns) w = member w (next_fn n) || steps next_fn ns w

member-discover :
    (next_fn : String → Nodeset) (ns : List String) (l : Layer) (w : String)
    → member w (discover next_fn ns l).out ≡ (steps next_fn ns w || member w l.out)
unfolding discover
member-discover next_fn [] l w = refl
member-discover next_fn (n ∷ ns) l w = ground (
  arith,
  member-discover next_fn ns (discover_each (next_fn n) l) w,
  member-discover_each (next_fn n) l w,
)

discover-Grows :
    (next_fn : String → Nodeset) (before : Nodeset) (ns : List String) (l : Layer)
    → Grows before l
    → Grows before (discover next_fn ns l)
unfolding discover
discover-Grows next_fn before [] l g = g
discover-Grows next_fn before (n ∷ ns) l g =
    discover-Grows next_fn before ns _ (discover_each-Grows before (next_fn n) l g)

steps-member :
    (next_fn : String → Nodeset) (ns : List String) (n w : String)
    → member n ns ≡ true
    → member w (next_fn n) ≡ true
    → steps next_fn ns w ≡ true
steps-member next_fn [] n w m h = ground (arith, m)
steps-member next_fn (x ∷ ns) n w m h =
    ground (arith, m, h, eq_iff x n, steps-member next_fn ns n w)

module _ (next_fn : String → Nodeset) (nodes : Nodeset) (nodup : Nodup nodes)
    (inside : (x y : String) → member y (next_fn x) ≡ true → member y nodes ≡ true)
    (root : String) where
  -- Between two rounds: what was found is reached, and its successors are found or still to be searched.
  record Searching (out : Nodeset) (search_next : List String) : Type 0 where
    out_nodup : Nodup out
    sound : (w : String) → member w out ≡ true → PathTo next_fn root w
    known : (w : String) → member w search_next ≡ true → (str_eq root w || member w out) ≡ true
    closed :
        (x y : String)
        → (str_eq root x || member x out) ≡ true
        → member y (next_fn x) ≡ true
        → (member x search_next || member y out) ≡ true

  started : Searching [] (root ∷ [])
  started = record {
    out_nodup = tt;
    sound = λ w m. ground (arith, m);
    known = λ w m. ground (arith, m);
    closed = λ x y m h. ground (arith, m);
  }

  PathTo-steps :
      (out : Nodeset) (ns : List String)
      → ((w : String) → member w ns ≡ true → (str_eq root w || member w out) ≡ true)
      → ((w : String) → member w out ≡ true → PathTo next_fn root w)
      → (w : String) → steps next_fn ns w ≡ true
      → PathTo next_fn root w
  PathTo-steps out [] known sound w h = ground (arith, h)
  PathTo-steps out (n ∷ ns) known sound w h = elim (Bool-cases (member w (next_fn n))) [
    | inr other ↦
        PathTo-steps out ns (λ v m. known v (ground (arith, m))) sound w (ground (arith, h, other))
    | inl here ↦ elim (Bool-cases (str_eq root n)) [
      | inl same ↦ let e : root ≡ n = (eq_iff root n).0 same in one (rw e here)
      | inr differ ↦ more (sound n (ground (arith, known n, differ, eq_iff n n))) here
    ]
  ]

  next_layer : Nodeset → List String → Layer
  next_layer out ns = discover next_fn ns (record { out = out; discovered = [] })

  layer-Grows : (out : Nodeset) (ns : List String) → Nodup out → Grows out (next_layer out ns)
  unfolding next_layer
  layer-Grows out ns d =
      discover-Grows next_fn out ns _ (record { nodup = d; sizes = omega arith; same = λ w. refl })

  layer-Searching :
      (out : Nodeset) (ns : List String)
      → Searching out ns
      → Searching (next_layer out ns).out (next_layer out ns).discovered
  unfolding next_layer
  layer-Searching out ns s =
      let l = next_layer out ns in
      let g = layer-Grows out ns s.out_nodup in
      let found =
        λ (w : String). member-discover next_fn ns (record { out = out; discovered = [] }) w in
      record {
        out_nodup = g.nodup;
        sound = λ w m. elim (Bool-cases (member w out)) [
          | inl old ↦ s.sound w old
          | inr fresh ↦ PathTo-steps out ns s.known s.sound w (ground (arith, m, fresh, found w))
        ];
        known = λ w m. ground (arith, m, g.same w);
        closed = λ x y m h.
            ground
              (arith, m, h, g.same x, g.same y, found y, s.closed x y, steps-member next_fn ns x y);
      }

  PathTo-inside : {y : String} → PathTo next_fn root y → member y nodes ≡ true
  PathTo-inside (one h) = inside _ _ h
  PathTo-inside (more p h) = inside _ _ h

  complete :
      (out : Nodeset)
      → Searching out []
      → {y : String} → PathTo next_fn root y
      → member y out ≡ true
  complete out s (one h) = s.closed root _ (ground (arith, eq_iff root root)) h
  complete out s (more p h) = s.closed _ _ (ground (arith, complete out s p)) h

  -- Rounds enough for the nodes that are not found yet.
  rounds_lem :
      (fuel : ℕ) (out : Nodeset) (ns : List String)
      → Searching out ns
      → (0 < length ns → length nodes < length out + fuel)
      → (found : Nodeset) × (rounds fuel next_fn out ns ≡ some found)
        × ((w : String) → (member w found ≡ true) ↔ PathTo next_fn root w)
  unfolding rounds next_layer
  rounds_lem fuel out [] s h = (out, refl, λ w. (s.sound w, complete out s))
  rounds_lem zero out (n ∷ ns) s h =
      let small : length out ≤ length nodes =
        length-within out nodes s.out_nodup nodup (λ v m. PathTo-inside (s.sound v m)) in
      let bad : ⊥ = omega (arith, small, h (omega arith)) in elim bad [ ]
  rounds_lem (suc fuel) out (n ∷ ns) s h =
      let sizes = (layer-Grows out (n ∷ ns) s.out_nodup).sizes in
      rounds_lem fuel _ _ (layer-Searching out (n ∷ ns) s)
        (λ p. omega (arith, p, h (omega arith), sizes))

PathTo-start :
    {next_fn : String → Nodeset} {x y : String}
    → PathTo next_fn x y
    → (z : String) × (member z (next_fn x) ≡ true)
PathTo-start (one h) = (_, h)
PathTo-start (more p h) = PathTo-start p

-- The nodes that a search from a node finds.
pub build_transitive_lem :
    (g : Graph) (next_fn : String → Nodeset)
    → Nodup g.nodes
    → ((x y : String) → member y (next_fn x) ≡ true → (member x g.nodes && member y g.nodes) ≡ true)
    → (root : String)
    → (found : Nodeset) × (build_transitive g root next_fn ≡ some found)
      × ((w : String) → (member w found ≡ true) ↔ PathTo next_fn root w)
unfolding build_transitive
build_transitive_lem g next_fn nodup inside root =
    let end_inside : (x y : String) → member y (next_fn x) ≡ true → member y g.nodes ≡ true =
      λ x y h. ground (arith, inside x y h) in
    elim (Bool-cases (member root g.nodes)) [
      | inl here ↦ rw here (
          rounds_lem next_fn g.nodes nodup end_inside root (suc (length g.nodes)) [] (root ∷ [])
            (started next_fn g.nodes nodup end_inside root) (λ p. omega arith))
      | inr absent ↦
          let nowhere : (w : String) → PathTo next_fn root w → member w [] ≡ true = λ w p.
            let first = PathTo-start p in ground (arith, absent, inside root first.0 first.1) in
          rw absent ([], refl, λ w. ((λ m. ground (arith, m)), nowhere w))
    ]
