-- ===== src/Cache/Refinement/Setting.antt =====
-- `Set`, with the eviction of the least recently used entry.
use mathlib.Core.Path.{subst}
use plumbing.Prelude.{
  ℕ, suc, ◌≡◌, refl, sym, ap, ◌∙◌, false, ◌&&◌, none, some, List, [], ◌∷◌, arith, ltb, Comparable,
  nat_Comparable, length, lookup, insert, delete, Distinct, delete_absent, length-delete,
  length-insert_new, length-insert_old, ℤ, ◌+ℤ◌, if◌then◌else◌, Bool-cases, Option-cases, inl, inr,
}
use plumbing.Cache.{Item, TtlCache, set, push_entry, move_to_front, over_full, evict_oldest}
use plumbing.Cache.Invariant.{IsLinked}
use plumbing.Cache.Steps.{IsValid, evict_oldest_lem, set-IsValid}
use plumbing.Cache.Lookup.{content, set_old-stored}
use plumbing.Cache.Recency.{Entries, drop_last, trimmed, recent_set}
use plumbing.Cache.Recency.Keys.{keys_of, last_of, back-last_of}
use plumbing.Cache.Refinement.{
  Refines, content-lookup, remove_entry-Refines, push_entry-Refines, front-Refines,
}

module _ {K V : Type 0} ⦃e : Comparable K⦄ where
  last_there :
      (l : Entries K V) (k : K) → last_of (keys_of l) ≡ some k → (w : V × ℤ) × (lookup k l ≡ some w)
  unfolding lookup
  last_there [] k h = ground (arith, h)
  last_there ((j, w) ∷ []) k h = (w, ground (arith, h, e.equal_iff j k))
  last_there ((j, w) ∷ (i, u) ∷ l) k h =
      let rest = last_there ((i, u) ∷ l) k h in
      elim (Bool-cases (e.equal j k)) [
        | inl same ↦ (w, ground (arith, same))
        | inr differ ↦ (rest.0, ground (arith, differ, rest.1))
      ]

  -- The last entry is the one with its key.
  delete_last :
      (l : Entries K V) (k : K)
      → Distinct l
      → last_of (keys_of l) ≡ some k
      → delete k l ≡ drop_last l
  unfolding delete
  delete_last [] k d h = refl
  delete_last ((j, w) ∷ []) k d h = ground (arith, h, e.equal_iff j k)
  delete_last ((j, w) ∷ (i, u) ∷ l) k d h =
      let (x, there) = last_there ((i, u) ∷ l) k h in
      let differ : e.equal j k ≡ false = elim (Bool-cases (e.equal j k)) [
        | inr q ↦ q
        | inl q ↦
            let same : j ≡ k = (e.equal_iff j k).0 q in
            let bad : none ≡ some x = sym d.0 ∙ ap (λ y. lookup y ((i, u) ∷ l)) same ∙ there in
            ground (arith, bad)
      ] in
      rw differ (ap (λ r. (j, w) ∷ r) (delete_last ((i, u) ∷ l) k d.1 h))

  drop_last-Refines :
      (c : TtlCache K V) (l : Entries K V) (n : ℕ) (k : K) (order : List (ℕ × K))
      → IsLinked (evict_oldest c)
      → c.order ≡ (n, k) ∷ order
      → Refines c l
      → Refines (evict_oldest c) (drop_last l)
  drop_last-Refines c l n k order linked shape r =
      let (j, i, last, there, step) = evict_oldest_lem c n k order r.linked shape in
      let last_key : last_of (keys_of l) ≡ some j =
        ap last_of (sym r.same_order) ∙ sym (back-last_of c.order) ∙ last in
      subst (Refines (evict_oldest c)) (delete_last l j r.distinct last_key) (
        subst (λ d. Refines d (delete j l)) (sym step)
          (remove_entry-Refines c l j i (subst IsLinked step linked) r there))

  trimmed_fits :
      (limit : ℕ) (k : K) (w : V × ℤ) (l : Entries K V)
      → (ltb 0 limit && ltb limit (suc (length l))) ≡ false
      → trimmed limit ((k, w) ∷ l) ≡ (k, w) ∷ l
  trimmed_fits limit k w l h = rw h refl

  set_absent :
      (k : K) (v : V) (now ttl : ℤ) (c : TtlCache K V)
      → lookup k c.items ≡ none
      → set k v now ttl c ≡ (
          if over_full (push_entry k v (now +ℤ ttl) c)
          then evict_oldest (push_entry k v (now +ℤ ttl) c)
          else push_entry k v (now +ℤ ttl) c)
  set_absent k v now ttl c absent = unfold set in rw (absent, set) refl

  recent_set_absent :
      (c : TtlCache K V) (l : Entries K V) (k : K) (v : V) (x : ℤ)
      → lookup k c.items ≡ none
      → Refines c l
      → recent_set c.max_entries k v x l
        ≡ (if over_full (push_entry k v x c) then drop_last ((k, (v, x)) ∷ l) else (k, (v, x)) ∷ l)
  unfolding over_full push_entry
  recent_set_absent c l k v x absent r =
      let gone : delete k l ≡ l = delete_absent k l (sym (r.same_content k) ∙ ap content absent) in
      let one_more =
        length-insert_new k (record { value = v; expiry = x; elem = c.next }) c.items absent in
      let sizes : suc (length l)
          ≡ length (insert k (record { value = v; expiry = x; elem = c.next }) c.items) =
        omega (arith, one_more, r.same_length) in
      ap (λ m. trimmed c.max_entries ((k, (v, x)) ∷ m)) gone
      ∙ ap
          (λ n.
            if ltb 0 c.max_entries && ltb c.max_entries n
            then drop_last ((k, (v, x)) ∷ l)
            else (k, (v, x)) ∷ l)
          sizes

  set_new-Refines :
      (c : TtlCache K V) (l : Entries K V) (k : K) (v : V) (now ttl : ℤ)
      → IsValid c
      → lookup k c.items ≡ none
      → Refines c l
      → Refines (set k v now ttl c) (recent_set c.max_entries k v (now +ℤ ttl) l)
  set_new-Refines c l k v now ttl h absent r =
      let x : ℤ = now +ℤ ttl in
      let pushed : TtlCache K V = push_entry k v x c in
      let linked = (set-IsValid k v now ttl c h).linked in
      let made = set_absent k v now ttl c absent in
      let spec = recent_set_absent c l k v x absent r in
      let more = push_entry-Refines c l k v x absent r in
      elim (Bool-cases (over_full pushed)) [
        | inl full ↦
            let evicted : set k v now ttl c ≡ evict_oldest pushed = made ∙ (rw full refl) in
            let dropped : recent_set c.max_entries k v x l ≡ drop_last ((k, (v, x)) ∷ l) =
              spec ∙ (rw full refl) in
            subst (λ d. Refines d (recent_set c.max_entries k v x l)) (sym evicted)
              (subst (Refines (evict_oldest pushed)) (sym dropped) (
                drop_last-Refines pushed ((k, (v, x)) ∷ l) c.next k c.order
                  (subst IsLinked evicted linked) (unfold push_entry in refl) more))
        | inr fits ↦
            let kept : set k v now ttl c ≡ pushed = made ∙ (rw fits refl) in
            let same : recent_set c.max_entries k v x l ≡ (k, (v, x)) ∷ l = spec ∙ (rw fits refl) in
            subst (λ d. Refines d (recent_set c.max_entries k v x l)) (sym kept)
              (subst (Refines pushed) (sym same) more)
      ]

  set_present :
      (k : K) (v : V) (now ttl : ℤ) (c : TtlCache K V) (i : Item V)
      → lookup k c.items ≡ some i
      → set k v now ttl c ≡ record c {
        items = insert k (record i { value = v; expiry = now +ℤ ttl }) c.items;
        order = move_to_front i.elem c.order;
      }
  set_present k v now ttl c i there = unfold set in rw (there, set) refl

  set_old-Refines :
      (c : TtlCache K V) (l : Entries K V) (k : K) (v : V) (now ttl : ℤ) (i : Item V)
      → IsValid c
      → lookup k c.items ≡ some i
      → Refines c l
      → Refines (set k v now ttl c) (recent_set c.max_entries k v (now +ℤ ttl) l)
  set_old-Refines c l k v now ttl i h there r =
      let w : V × ℤ = (v, now +ℤ ttl) in
      let made = set_present k v now ttl c i there in
      let front =
        front-Refines c (set k v now ttl c) l k i w there r (set-IsValid k v now ttl c h).linked
          (ap (λ (d : TtlCache K V). d.order) made)
          (ap (λ (d : TtlCache K V). length d.items) made
            ∙ length-insert_old k (record i { value = v; expiry = now +ℤ ttl }) i c.items there)
          (λ j. set_old-stored k j v now ttl c i there) in
      let size =
        length-delete k (i.value, i.expiry) l r.distinct (content-lookup c l k i r there) in
      let fits : (ltb 0 c.max_entries && ltb c.max_entries (suc (length (delete k l)))) ≡ false =
        ground (arith, h.bounded, r.same_length, size) in
      subst (Refines (set k v now ttl c)) (sym (trimmed_fits c.max_entries k w (delete k l) fits))
        front

  pub set-Refines :
      (c : TtlCache K V) (l : Entries K V) (k : K) (v : V) (now ttl : ℤ)
      → IsValid c
      → Refines c l
      → Refines (set k v now ttl c) (recent_set c.max_entries k v (now +ℤ ttl) l)
  set-Refines c l k v now ttl h r = elim (Option-cases (lookup k c.items)) [
    | inl absent ↦ set_new-Refines c l k v now ttl h absent r
    | inr (i, there) ↦ set_old-Refines c l k v now ttl i h there r
  ]
