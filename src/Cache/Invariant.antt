-- ===== src/Cache/Invariant.antt =====
-- The map and the recency list of a `TTLCache` hold the same keys, and the map stays in its bound.
use plumbing.Prelude.{
  ℕ, ◌≤◌, ◌<◌, ◌≡◌, Option-cases, Bool-cases, inl, inr, nat_eq, nat_eq_iff, none, some, List, arith,
  Comparable, nat_Comparable, lookup, insert, ℤ, Distinct, lookup-insert, lookup-delete,
  insert-Distinct, delete-Distinct,
}
use plumbing.Cache.{Item, TtlCache, move_to_front, remove_entry, push_entry}

-- The two containers agree: each entry knows its list element, and each element has its entry.
pub record IsLinked {K V : Type 0} ⦃e : Comparable K⦄ (c : TtlCache K V) : Type 0 where
  pub items_distinct : Distinct c.items
  pub order_distinct : Distinct c.order
  pub forward : (k : K) (i : Item V) → lookup k c.items ≡ some i → lookup i.elem c.order ≡ some k
  pub backward :
      (n : ℕ) (k : K)
      → lookup n c.order ≡ some k
      → (i : Item V) × (lookup k c.items ≡ some i) × (i.elem ≡ n)
  pub fresh : (n : ℕ) (k : K) → lookup n c.order ≡ some k → n < c.next

module _ {K : Type 0} where
  -- Moving an element changes the order only.
  pub lookup-move_to_front :
      (m n : ℕ) (order : List (ℕ × K)) → lookup n (move_to_front m order) ≡ lookup n order
  unfolding move_to_front lookup
  lookup-move_to_front m n order = elim (Option-cases (lookup m order)) [
    | inl absent ↦ rw (absent, move_to_front)
    | inr (k, there) ↦
        rw (there, move_to_front) (ground (arith, nat_eq_iff m n, lookup-delete m n order))
  ]

  pub move_to_front-Distinct :
      (m : ℕ) (order : List (ℕ × K)) → Distinct order → Distinct (move_to_front m order)
  unfolding move_to_front
  move_to_front-Distinct m order d = elim (Option-cases (lookup m order)) [
    | inl absent ↦ rw (absent, move_to_front) d
    | inr (k, there) ↦
        rw (there, move_to_front)
          (ground (arith, nat_eq_iff m m, lookup-delete m m order), delete-Distinct m order d)
  ]

module _ {K V : Type 0} ⦃e : Comparable K⦄ where
  pub remove_entry-IsLinked :
      (k : K) (i : Item V) (c : TtlCache K V)
      → lookup k c.items ≡ some i
      → IsLinked c
      → IsLinked (remove_entry k i c)
  unfolding remove_entry
  remove_entry-IsLinked k i c h l = record {
    items_distinct = delete-Distinct k c.items l.items_distinct;
    order_distinct = delete-Distinct i.elem c.order l.order_distinct;
    forward = λ j x p. ground (
      arith,
      lookup-delete k j c.items,
      lookup-delete i.elem x.elem c.order,
      l.forward j x,
      l.forward k i,
      e.equal_iff k j,
    );
    backward = λ n j p.
        let old : lookup n c.order ≡ some j = ground (arith, lookup-delete i.elem n c.order) in
        let (x, found, here) = l.backward n j old in
        (
          x,
          ground
              (arith, lookup-delete k j c.items, lookup-delete i.elem n c.order, e.equal_iff k j),
          here,
        );
    fresh = λ n j p. ground (arith, lookup-delete i.elem n c.order, l.fresh n j);
  }

  -- A new element for a new key.
  pub push_entry-IsLinked :
      (k : K) (v : V) (expiry : ℤ) (c : TtlCache K V)
      → lookup k c.items ≡ none
      → IsLinked c
      → IsLinked (push_entry k v expiry c)
  unfolding push_entry lookup
  push_entry-IsLinked k v expiry c h l = record {
    items_distinct = insert-Distinct k _ c.items l.items_distinct;
    order_distinct = (absent c.next (omega arith), l.order_distinct);
    forward = λ j x p. ground (
      arith,
      lookup-insert k j (record { value = v; expiry = expiry; elem = c.next }) c.items,
      e.equal_iff k j,
      nat_eq_iff c.next x.elem,
      l.forward j x,
      l.fresh x.elem j,
    );
    backward = λ n j p. elim (Bool-cases (nat_eq c.next n)) [
      | inl here ↦ (
        record { value = v; expiry = expiry; elem = c.next },
        ground (
          arith,
          lookup-insert k j (record { value = v; expiry = expiry; elem = c.next }) c.items,
          e.equal_iff k j,
        ),
        ground (arith, nat_eq_iff c.next n),
      )
      | inr there ↦
          let (x, found, at) = l.backward n j (ground arith) in
          (
            x,
            ground (
              arith,
              lookup-insert k j (record { value = v; expiry = expiry; elem = c.next }) c.items,
              e.equal_iff k j,
            ),
            at,
          )
    ];
    fresh = λ n j p. ground (arith, nat_eq_iff c.next n, l.fresh n j);
  }
    where
      absent : (n : ℕ) → c.next ≤ n → lookup n c.order ≡ none
      absent n h = elim (Option-cases (lookup n c.order)) [
        | inl gone ↦ gone
        | inr (j, there) ↦ absurd (omega (arith, l.fresh n j there))
      ]

  -- The entry is written again, and its element moves to the front.
  pub touch-IsLinked :
      (k : K) (i i' : Item V) (c : TtlCache K V)
      → lookup k c.items ≡ some i
      → i'.elem ≡ i.elem
      → IsLinked c
      → IsLinked (record c { items = insert k i' c.items; order = move_to_front i.elem c.order })
  touch-IsLinked k i i' c h same l = record {
    items_distinct = insert-Distinct k i' c.items l.items_distinct;
    order_distinct = move_to_front-Distinct i.elem c.order l.order_distinct;
    forward = λ j x p. ground (
      arith,
      lookup-insert k j i' c.items,
      lookup-move_to_front i.elem x.elem c.order,
      e.equal_iff k j,
      l.forward j x,
      l.forward k i,
    );
    backward = λ n j p.
        let old : lookup n c.order ≡ some j =
          ground (arith, lookup-move_to_front i.elem n c.order) in
        let (x, found, at) = l.backward n j old in
        elim (Bool-cases (e.equal k j)) [
          | inl same_key ↦
              (i', ground (arith, lookup-insert k j i' c.items), ground (arith, e.equal_iff k j))
          | inr other ↦ (x, ground (arith, lookup-insert k j i' c.items), at)
        ];
    fresh = λ n j p. ground (arith, lookup-move_to_front i.elem n c.order, l.fresh n j);
  }

  pub touch_order-IsLinked :
      (k : K) (i : Item V) (c : TtlCache K V)
      → lookup k c.items ≡ some i
      → IsLinked c
      → IsLinked (record c { order = move_to_front i.elem c.order })
  touch_order-IsLinked k i c h l = record {
    items_distinct = l.items_distinct;
    order_distinct = move_to_front-Distinct i.elem c.order l.order_distinct;
    forward = λ j x p. rw lookup-move_to_front (l.forward j x p);
    backward = λ n j p. l.backward n j (rw lookup-move_to_front at p);
    fresh = λ n j p. l.fresh n j (rw lookup-move_to_front at p);
  }
