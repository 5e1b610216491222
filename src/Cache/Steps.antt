-- ===== src/Cache/Steps.antt =====
-- The invariant of `TTLCache` over every method, every round of its cleanup goroutine, and every
-- sequence of these.
use mathlib.Core.Path.{subst}
use plumbing.Prelude.{
  ◌+ℤ◌, ℕ, ◌+◌, ◌≤◌, ◌<◌, ◌≡◌, refl, Bool, true, false, Option-cases, Bool-cases, inl, inr, none,
  some, List, [], ◌∷◌, arith, Comparable, nat_Comparable, nat_eq_iff, length, lookup, ℤ, Distinct,
  lookup-delete, length-insert_new, length-insert_old, length-delete, length-delete-le,
  if◌then◌else◌,
}
use plumbing.Cache.{
  Item, TtlCache, back, remove_entry, remove_found, evict_key, evict_oldest, push_entry, over_full,
  set, get, remove, pop, keys_from, sweep_from, is_expired,
}
use plumbing.Cache.Invariant.{
  IsLinked, remove_entry-IsLinked, push_entry-IsLinked, touch-IsLinked, touch_order-IsLinked,
}

pub record IsValid {K V : Type 0} ⦃e : Comparable K⦄ (c : TtlCache K V) : Type 0 where
  pub linked : IsLinked c
  pub bounded : 0 < c.max_entries → length c.items ≤ c.max_entries

module _ {K : Type 0} where
  -- The last element of a nonempty list is found again by its number.
  pub back-cons :
      (n : ℕ) (k : K) (order : List (ℕ × K))
      → Distinct ((n, k) ∷ order)
      → (m : ℕ) × (j : K) × (back ((n, k) ∷ order) ≡ some j) × (lookup m ((n, k) ∷ order) ≡ some j)
  unfolding back lookup
  back-cons n k [] d = (n, k, refl, ground (arith, nat_eq_iff n n))
  back-cons n k ((n', k') ∷ order) d =
      let (m, j, last, found) = back-cons n' k' order d.1 in
      (m, j, last, ground (arith, nat_eq_iff n m))

module _ {K V : Type 0} ⦃e : Comparable K⦄ where
  pub remove_found-IsLinked :
      (k : K) (c : TtlCache K V) → IsLinked c → IsLinked (remove_found k (lookup k c.items) c)
  unfolding remove_found
  remove_found-IsLinked k c l = elim (Option-cases (lookup k c.items)) [
    | inl absent ↦ rw (absent, remove_found) l
    | inr (i, there) ↦ rw (there, remove_found) (remove_entry-IsLinked k i c there l)
  ]

  -- With an element in the list, `evict_oldest` removes the entry of the last one.
  pub evict_oldest_lem :
      (c : TtlCache K V) (n : ℕ) (k : K) (order : List (ℕ × K))
      → IsLinked c
      → c.order ≡ (n, k) ∷ order
      → (j : K) × (i : Item V) × (back c.order ≡ some j)
        × (lookup j c.items ≡ some i)
        × (evict_oldest c ≡ remove_entry j i c)
  unfolding evict_oldest evict_key remove_found
  evict_oldest_lem c n k order l shape =
      let (m, j, last, found) = back-cons n k order (subst Distinct shape l.order_distinct) in
      let last' : back c.order ≡ some j = rw shape last in
      let (i, there, _) = l.backward m j (rw shape found) in
      (j, i, last', there, rw (last', evict_key) (rw (there, remove_found)))

  push_entry-bound :
      (k : K) (v : V) (x : ℤ) (c : TtlCache K V)
      → lookup k c.items ≡ none
      → (length (push_entry k v x c).items ≡ length c.items + 1)
        × ((push_entry k v x c).max_entries ≡ c.max_entries)
  unfolding push_entry
  push_entry-bound k v x c h = (length-insert_new k _ c.items h, refl)

  set_new-IsValid :
      (k : K) (v : V) (x : ℤ) (c : TtlCache K V)
      → lookup k c.items ≡ none
      → IsValid c
      → IsValid (
          if over_full (push_entry k v x c)
          then evict_oldest (push_entry k v x c)
          else push_entry k v x c)
  unfolding over_full
  set_new-IsValid k v x c absent h =
      let pushed = push_entry k v x c in
      let l = push_entry-IsLinked k v x c absent h.linked in
      let (j, i, last, there, step) =
        evict_oldest_lem pushed c.next k c.order l (unfold push_entry in refl) in
      elim (Bool-cases (over_full pushed)) [
        | inl full ↦
            rw (full, step)
              (record {
                linked = remove_entry-IsLinked j i pushed there l;
                bounded =
                    unfold remove_entry in
                    λ pos. ground (
                      arith,
                      length-delete j i pushed.items l.items_distinct there,
                      push_entry-bound k v x c absent,
                      h.bounded,
                    );
              })
        | inr fits ↦
            rw fits
              (record { linked = l; bounded = ground (arith, push_entry-bound k v x c absent) })
      ]

  pub set-IsValid :
      (k : K) (v : V) (now ttl : ℤ) (c : TtlCache K V) → IsValid c → IsValid (set k v now ttl c)
  unfolding set
  set-IsValid k v now ttl c h = elim (Option-cases (lookup k c.items)) [
    | inl absent ↦ rw (absent, set) (set_new-IsValid k v _ c absent h)
    | inr (i, there) ↦
        rw (there, set)
          (record {
            linked = touch-IsLinked k i _ c there refl h.linked;
            bounded = ground (
              arith,
              length-insert_old k (record i { value = v; expiry = now +ℤ ttl }) i c.items there,
            );
          })
  ]

  pub remove_entry-IsValid :
      (k : K) (i : Item V) (c : TtlCache K V)
      → lookup k c.items ≡ some i
      → IsValid c
      → IsValid (remove_entry k i c)
  remove_entry-IsValid k i c there h = record {
    linked = remove_entry-IsLinked k i c there h.linked;
    bounded =
        unfold remove_entry in λ pos. omega (arith, length-delete-le k c.items, h.bounded pos);
  }

  pub get-IsValid : (now : ℤ) (k : K) (c : TtlCache K V) → IsValid c → IsValid (get now k c).0
  get-IsValid now k c h = elim (Option-cases (lookup k c.items)) [
    | inl absent ↦ unfold get in rw (absent, get) h
    | inr (i, there) ↦ elim (Bool-cases (is_expired now i)) [
      | inl old ↦ unfold get in rw (there, get) (rw old (remove_entry-IsValid k i c there h))
      | inr live ↦
          unfold get in
          rw (there, get)
            (rw live
              (record { linked = touch_order-IsLinked k i c there h.linked; bounded = h.bounded }))
    ]
  ]

  pub remove-IsValid : (k : K) (c : TtlCache K V) → IsValid c → IsValid (remove k c)
  remove-IsValid k c h = elim (Option-cases (lookup k c.items)) [
    | inl absent ↦ unfold remove in rw absent h
    | inr (i, there) ↦ unfold remove in rw there (remove_entry-IsValid k i c there h)
  ]

  pub pop-IsValid : (now : ℤ) (k : K) (c : TtlCache K V) → IsValid c → IsValid (pop now k c).0
  pop-IsValid now k c h = elim (Option-cases (lookup k c.items)) [
    | inl absent ↦ unfold pop in rw (absent, pop) h
    | inr (i, there) ↦ unfold pop in rw (there, pop) (remove_entry-IsValid k i c there h)
  ]

  -- The rest of a `range` over the map: what is still to come is still in the map.
  pub record IsRest (rest : List (K × Item V)) (c : TtlCache K V) : Type 0 where
    pub distinct : Distinct rest
    pub present : (j : K) (x : Item V) → lookup j rest ≡ some x → lookup j c.items ≡ some x

  IsRest-skip :
      (k : K) (i : Item V) (rest : List (K × Item V)) (c : TtlCache K V)
      → IsRest ((k, i) ∷ rest) c
      → IsRest rest c
  unfolding lookup
  IsRest-skip k i rest c r = record {
    distinct = r.distinct.1;
    present = λ j x p. r.present j x (ground (arith, e.equal_iff k j, r.distinct.0));
  }

  IsRest-remove :
      (k : K) (i : Item V) (rest : List (K × Item V)) (c : TtlCache K V)
      → IsRest ((k, i) ∷ rest) c
      → IsRest rest (remove_entry k i c)
  unfolding remove_entry
  IsRest-remove k i rest c r = record {
    distinct = r.distinct.1;
    present = λ j x p. ground (
      arith,
      lookup-delete k j c.items,
      e.equal_iff k j,
      r.distinct.0,
      (IsRest-skip k i rest c r).present j x,
    );
  }

  pub IsRest-head :
      (k : K) (i : Item V) (rest : List (K × Item V)) (c : TtlCache K V)
      → IsRest ((k, i) ∷ rest) c
      → lookup k c.items ≡ some i
  unfolding lookup
  IsRest-head k i rest c r = r.present k i (ground (arith, e.equal_iff k k))

  pub IsRest-step :
      (b : Bool) (k : K) (i : Item V) (rest : List (K × Item V)) (c : TtlCache K V)
      → IsRest ((k, i) ∷ rest) c
      → IsRest rest (if b then remove_entry k i c else c)
  IsRest-step true k i rest c r = IsRest-remove k i rest c r
  IsRest-step false k i rest c r = IsRest-skip k i rest c r

  round-IsValid :
      (b : Bool) (k : K) (i : Item V) (rest : List (K × Item V)) (c : TtlCache K V)
      → IsRest ((k, i) ∷ rest) c
      → IsValid c
      → IsValid (if b then remove_entry k i c else c)
  round-IsValid true k i rest c r h = remove_entry-IsValid k i c (IsRest-head k i rest c r) h
  round-IsValid false k i rest c r h = h

  sweep_from-IsValid :
      (now : K → ℤ) (rest : List (K × Item V)) (c : TtlCache K V)
      → IsRest rest c
      → IsValid c
      → IsValid (sweep_from now rest c)
  unfolding sweep_from
  sweep_from-IsValid now [] c r h = h
  sweep_from-IsValid now ((k, i) ∷ rest) c r h =
      let b = is_expired (now k) i in
      sweep_from-IsValid now rest _ (IsRest-step b k i rest c r) (round-IsValid b k i rest c r h)

  -- `Keys` removes what the cleanup removes.
  pub keys_from-sweep_from :
      (now : K → ℤ) (rest : List (K × Item V)) (c : TtlCache K V)
      → (keys_from now rest c).0 ≡ sweep_from now rest c
  unfolding keys_from sweep_from
  keys_from-sweep_from now [] c = refl
  keys_from-sweep_from now ((k, i) ∷ rest) c = keys_from-sweep_from now rest _

  pub IsRest-all : (c : TtlCache K V) → IsValid c → IsRest c.items c
  IsRest-all c h = record { distinct = h.linked.items_distinct; present = λ j x p. p }

  pub sweep-IsValid :
      (now : K → ℤ) (c : TtlCache K V) → IsValid c → IsValid (sweep_from now c.items c)
  sweep-IsValid now c h = sweep_from-IsValid now c.items c (IsRest-all c h) h
