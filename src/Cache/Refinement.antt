-- ===== src/Cache/Refinement.antt =====
-- A `TTLCache` is a list of entries in the order of their last use.
mod Setting
mod Reading
mod Sweeping
mod Settings
pub mod Runs
pub mod Answers
use mathlib.Core.Path.{subst}
use plumbing.Prelude.{
  ℕ, zero, suc, ◌+◌, ◌≤◌, ◌<◌, ◌≡◌, refl, sym, ap, ◌∙◌, ◌↔◌, Bool, true, false, not, ◌&&◌, ◌||◌,
  Option, none, some, List, [], ◌∷◌, map, arith, ltb, leb, nat_eq, nat_eq_iff, Comparable,
  nat_Comparable, equal_refl, ◌==◌, length, lookup, insert, delete, Distinct, lookup-insert,
  lookup-delete, delete-Distinct, delete_absent, length-delete, length-insert_new,
  length-insert_old, ℤ, ◌+ℤ◌, ltb_ℤ, if◌then◌else◌, All, All-map, Bool-cases, Option-cases,
  List-cases, inl, inr,
}
use plumbing.Cache.{
  Item, TtlCache, set, get, remove, pop, clear, remove_entry, push_entry, move_to_front, back,
  over_full, evict_oldest, is_expired,
}
use plumbing.Cache.Invariant.{IsLinked, push_entry-IsLinked}
use plumbing.Cache.Steps.{
  IsValid, evict_oldest_lem, set-IsValid, get-IsValid, remove-IsValid, pop-IsValid,
}
use plumbing.Cache.Lookup.{content, stored, live, set_old-stored}
use plumbing.Cache.Recency.{
  Entries, drop_last, trimmed, recent_set, in_front, recent_get, unexpired,
}
use plumbing.Cache.Recency.Keys.{
  keys_of, values_of, last_of, back-last_of, remaining, keys_of-delete, Together, values_of-delete,
  Distinct-Found,
}

module _ {K V : Type 0} ⦃e : Comparable K⦄ where
  -- The same keys in the same order, with the same values and expiries.
  pub record Refines (c : TtlCache K V) (l : Entries K V) : Type 0 where
    pub linked : IsLinked c
    pub same_order : values_of c.order ≡ keys_of l
    pub same_content : (k : K) → stored k c ≡ lookup k l
    pub distinct : Distinct l
    pub same_length : length c.items ≡ length l

  together :
      (c : TtlCache K V) (k : K) (i : Item V)
      → IsLinked c
      → lookup k c.items ≡ some i
      → All (Together i.elem k) c.order
  together c k i h there =
      All-map (λ (x : ℕ × K). lookup x.0 c.order ≡ some x.1) (Together i.elem k) c.order
        (λ (m, j) found. one m j found) (Distinct-Found c.order h.order_distinct)
    where
      one : (m : ℕ) (j : K) → lookup m c.order ≡ some j → nat_eq m i.elem ≡ e.equal j k
      one m j found =
          let (x, held, at) = h.backward m j found in
          let to : nat_eq m i.elem ≡ true → j ≡ k =
            λ q. ground (arith, q, found, h.forward k i there, nat_eq_iff m i.elem) in
          let back : j ≡ k → m ≡ i.elem = λ q. ground (arith, q, held, there, at) in
          ground (arith, to, back, nat_eq_iff m i.elem, e.equal_iff j k)

  pub content-lookup :
      (c : TtlCache K V) (l : Entries K V) (k : K) (i : Item V)
      → Refines c l
      → lookup k c.items ≡ some i
      → lookup k l ≡ some (i.value, i.expiry)
  content-lookup c l k i r there = sym (r.same_content k) ∙ ap content there

  -- An entry that is removed.
  pub remove_entry-Refines :
      (c : TtlCache K V) (l : Entries K V) (k : K) (i : Item V)
      → IsLinked (remove_entry k i c)
      → Refines c l
      → lookup k c.items ≡ some i
      → Refines (remove_entry k i c) (delete k l)
  unfolding remove_entry
  remove_entry-Refines c l k i linked r there = record {
    linked = linked;
    same_order =
        values_of-delete i.elem k c.order (together c k i r.linked there)
        ∙ ap (remaining k) r.same_order
        ∙ sym (keys_of-delete k l);
    same_content =
        λ j. ground (arith, r.same_content j, lookup-delete k j c.items, lookup-delete k j l);
    distinct = delete-Distinct k l r.distinct;
    same_length = omega (
      arith,
      r.same_length,
      length-delete k i c.items r.linked.items_distinct there,
      length-delete k (i.value, i.expiry) l r.distinct (content-lookup c l k i r there),
    );
  }

  pub push_entry-Refines :
      (c : TtlCache K V) (l : Entries K V) (k : K) (v : V) (x : ℤ)
      → lookup k c.items ≡ none
      → Refines c l
      → Refines (push_entry k v x c) ((k, (v, x)) ∷ l)
  unfolding push_entry lookup
  push_entry-Refines c l k v x absent r = record {
    linked = push_entry-IsLinked k v x c absent r.linked;
    same_order = ap (λ ks. k ∷ ks) r.same_order;
    same_content = λ j. ground (
      arith,
      r.same_content j,
      lookup-insert k j (record { value = v; expiry = x; elem = c.next }) c.items,
    );
    distinct = (sym (r.same_content k) ∙ ap content absent, r.distinct);
    same_length = omega (
      arith,
      r.same_length,
      length-insert_new k (record { value = v; expiry = x; elem = c.next }) c.items absent,
    );
  }

  -- An entry that is written again, or only moves, with its new place in front.
  values_of-move_to_front :
      (c : TtlCache K V) (k : K) (i : Item V)
      → IsLinked c
      → lookup k c.items ≡ some i
      → values_of (move_to_front i.elem c.order) ≡ k ∷ remaining k (values_of c.order)
  unfolding move_to_front
  values_of-move_to_front c k i h there =
      rw (h.forward k i there, move_to_front)
        (ap (λ ks. k ∷ ks) (values_of-delete i.elem k c.order (together c k i h there)))

  pub front-Refines :
      (c d : TtlCache K V) (l : Entries K V) (k : K) (i : Item V) (w : V × ℤ)
      → lookup k c.items ≡ some i
      → Refines c l
      → IsLinked d
      → d.order ≡ move_to_front i.elem c.order
      → length d.items ≡ length c.items
      → ((j : K) → stored j d ≡ (if k == j then some w else stored j c))
      → Refines d ((k, w) ∷ delete k l)
  unfolding lookup
  front-Refines c d l k i w there r linked order size stores = record {
    linked = linked;
    same_order =
        ap values_of order
        ∙ values_of-move_to_front c k i r.linked there
        ∙ ap (λ ks. k ∷ remaining k ks) r.same_order
        ∙ ap (λ ks. k ∷ ks) (sym (keys_of-delete k l));
    same_content = λ j. ground (arith, stores j, r.same_content j, lookup-delete k j l);
    distinct = (ground (arith, lookup-delete k k l, equal_refl k), delete-Distinct k l r.distinct);
    same_length = omega (
      arith,
      r.same_length,
      size,
      length-delete k (i.value, i.expiry) l r.distinct (content-lookup c l k i r there),
    );
  }
