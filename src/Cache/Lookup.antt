-- ===== src/Cache/Lookup.antt =====
-- What a reader of a `TTLCache` finds after a call.
use mathlib.Core.Path.{subst}
use plumbing.Prelude.{
  ℕ, ◌<◌, ◌≡◌, refl, Bool, true, false, ◌&&◌, Option-cases, Bool-cases, inl, inr, Option, none,
  some, List, [], ◌∷◌, arith, Comparable, ◌==◌, nat_Comparable, leb, ltb, length, lookup, ℤ, ◌+ℤ◌,
  lookup-insert, lookup-delete, if◌then◌else◌, equal_refl, not, ltb_ℤ, is_key, any, ◌∙◌, sym,
  length-insert_new, Distinct,
}
use plumbing.Cache.{
  Item, TtlCache, back, remove_entry, evict_oldest, push_entry, over_full, set, get, keys_from,
  keys, sweep_from, tick, is_expired,
}
use plumbing.Cache.Invariant.{IsLinked, push_entry-IsLinked}
use plumbing.Cache.Steps.{
  IsValid, back-cons, evict_oldest_lem, IsRest, IsRest-all, IsRest-step, IsRest-head,
}

-- The value and the expiry of an entry.
abbrev pub content : {V : Type 0} → Option (Item V) → Option (V × ℤ)
content none = none
content (some i) = some (i.value, i.expiry)

abbrev pub is_victim : {K : Type 0} ⦃e : Comparable K⦄ → Option K → K → Bool
is_victim none j = false
is_victim ⦃e⦄ (some k) j = e.equal k j

module _ {V : Type 0} where
  -- An entry as a reader at `now` finds it: expired ones are gone.
  abbrev pub live : ℤ → Option (V × ℤ) → Option (V × ℤ)
  live now none = none
  live now (some (v, x)) = if ltb_ℤ x now then none else some (v, x)

  abbrev pub is_some : Option (V × ℤ) → Bool
  is_some none = false
  is_some (some _) = true

  abbrev pub answer : ℤ → Option (V × ℤ) → Option V × Bool
  answer now none = (none, false)
  answer now (some (v, x)) = (some v, not (ltb_ℤ x now))

module _ {K : Type 0} where
  cons_of_lookup :
      (n : ℕ) (k : K) (order : List (ℕ × K))
      → lookup n order ≡ some k
      → (m : ℕ) × (j : K) × (rest : List (ℕ × K)) × (order ≡ (m, j) ∷ rest)
  unfolding lookup
  cons_of_lookup n k [] h = absurd (ground arith)
  cons_of_lookup n k ((m, j) ∷ rest) h = (m, j, rest, refl)

module _ {K V : Type 0} ⦃e : Comparable K⦄ where
  -- The value and the expiry that the map holds for a key.
  abbrev pub stored : K → TtlCache K V → Option (V × ℤ)
  stored j c = content (lookup j c.items)

  abbrev pub thrown_out : Option (Item V) → TtlCache K V → Option K
  thrown_out (some _) c = none
  thrown_out none c =
      if ltb 0 c.max_entries && leb c.max_entries (length c.items) then back c.order else none

  -- The key that `Set` throws out: for a new key, the last of the recency list, if the map is full.
  abbrev pub victim : K → TtlCache K V → Option K
  victim k c = thrown_out (lookup k c.items) c

  pub set_old-stored :
      (k j : K) (v : V) (now ttl : ℤ) (c : TtlCache K V) (i : Item V)
      → lookup k c.items ≡ some i
      → stored j (set k v now ttl c) ≡ (if k == j then some (v, now +ℤ ttl) else stored j c)
  set_old-stored k j v now ttl c i there =
      unfold set in
      rw (there, set)
        (ground (arith, lookup-insert k j (record i { value = v; expiry = now +ℤ ttl }) c.items))

  push_entry-stored :
      (k j : K) (v : V) (x : ℤ) (c : TtlCache K V)
      → stored j (push_entry k v x c) ≡ (if k == j then some (v, x) else stored j c)
  unfolding push_entry
  push_entry-stored k j v x c =
      ground (arith, lookup-insert k j (record { value = v; expiry = x; elem = c.next }) c.items)

  over_full_lem :
      (k : K) (v : V) (x : ℤ) (c : TtlCache K V)
      → lookup k c.items ≡ none
      → over_full (push_entry k v x c) ≡ ltb 0 c.max_entries && leb c.max_entries (length c.items)
  unfolding over_full push_entry
  over_full_lem k v x c absent =
      ground (
        arith,
        length-insert_new k (record { value = v; expiry = x; elem = c.next }) c.items absent,
      )

  remove_entry-stored :
      (k j : K) (i : Item V) (c : TtlCache K V)
      → stored j (remove_entry k i c) ≡ (if k == j then none else stored j c)
  unfolding remove_entry
  remove_entry-stored k j i c = ground (arith, lookup-delete k j c.items)

  first_entry :
      (m : List (K × Item V)) → 0 < length m → (k : K) × (i : Item V) × (lookup k m ≡ some i)
  unfolding lookup
  first_entry [] h = absurd (omega arith)
  first_entry ((k, i) ∷ m) h = (k, i, ground (arith, e.equal_iff k k))

  -- The last element of a list that is not empty belongs to an entry of the map.
  back_entry :
      (c : TtlCache K V)
      → IsLinked c
      → 0 < length c.items
      → (j : K) × (i : Item V) × (back c.order ≡ some j)
        × (lookup j c.items ≡ some i)
        × ((n : ℕ) (k : K) → back ((n, k) ∷ c.order) ≡ some j)
  back_entry c l filled =
      let (k, i, there) = first_entry c.items filled in
      let (n, k', rest, shape) = cons_of_lookup i.elem k c.order (l.forward k i there) in
      let (m, j, last, found) = back-cons n k' rest (subst Distinct shape l.order_distinct) in
      let (x, here, _) = l.backward m j (rw shape found) in
      (j, x, rw shape last, here, λ n' k''. rw shape (unfold back in last))

  -- A full map has a last list element other than the new one, and that is the one thrown out.
  evict_pushed-stored :
      (k j : K) (v : V) (x : ℤ) (c : TtlCache K V)
      → IsValid c
      → lookup k c.items ≡ none
      → 0 < length c.items
      → stored j (evict_oldest (push_entry k v x c))
        ≡ (if k == j then some (v, x) else if is_victim (back c.order) j then none else stored j c)
  evict_pushed-stored k j v x c h absent filled =
      let pushed = push_entry k v x c in
      let l = push_entry-IsLinked k v x c absent h.linked in
      let (j', i, last, _, step) =
        evict_oldest_lem pushed c.next k c.order l (unfold push_entry in refl) in
      let (y, i', last', there, behind) = back_entry c h.linked filled in
      let first : back ((c.next, k) ∷ c.order) ≡ some j' = unfold push_entry in last in
      rw step (
        ground (
          arith,
          behind c.next k,
          remove_entry-stored j' j i pushed,
          push_entry-stored k j v x c,
          e.equal_iff k j,
          e.equal_iff j' j,
        ))

  set_new-stored :
      (k j : K) (v : V) (x : ℤ) (c : TtlCache K V)
      → IsValid c
      → lookup k c.items ≡ none
      → stored j (
          if over_full (push_entry k v x c)
          then evict_oldest (push_entry k v x c)
          else push_entry k v x c)
        ≡ (if k == j
            then some (v, x)
            else if is_victim (thrown_out none c) j
            then none
            else stored j c)
  set_new-stored k j v x c h absent =
      rw (over_full_lem k v x c absent)
        (elim (Bool-cases (ltb 0 c.max_entries && leb c.max_entries (length c.items))) [
          | inl full ↦ rw full (evict_pushed-stored k j v x c h absent (ground arith))
          | inr fits ↦ rw fits (push_entry-stored k j v x c)
        ])

  -- After `Set`, the key holds the new value and its expiry, also when the key is new and another
  -- key is thrown out to keep the limit; the key thrown out is the last of the recency list, and
  -- every other key holds the value and the expiry that it held.
  pub set-stored :
      (k j : K) (v : V) (now ttl : ℤ) (c : TtlCache K V)
      → IsValid c
      → stored j (set k v now ttl c) ≡ (
          if k == j
          then some (v, now +ℤ ttl)
          else if is_victim (victim k c) j
          then none
          else stored j c)
  set-stored k j v now ttl c h = elim (Option-cases (lookup k c.items)) [
    | inr (i, there) ↦
        subst
          (λ o. stored j (set k v now ttl c) ≡ (
            if k == j
            then some (v, now +ℤ ttl)
            else if is_victim (thrown_out o c) j
            then none
            else stored j c))
          (sym there) (set_old-stored k j v now ttl c i there)
    | inl absent ↦
        subst
          (λ o. stored j (set k v now ttl c) ≡ (
            if k == j
            then some (v, now +ℤ ttl)
            else if is_victim (thrown_out o c) j
            then none
            else stored j c))
          (sym absent)
          (unfold set in rw (absent, set) (set_new-stored k j v (now +ℤ ttl) c h absent))
  ]

  pub get-answer :
      (now : ℤ) (k : K) (c : TtlCache K V)
      → ((get now k c).1 ≡ (answer now (stored k c)).0)
        × ((get now k c).2 ≡ (answer now (stored k c)).1)
  get-answer now k c = elim (Option-cases (lookup k c.items)) [
    | inl absent ↦ unfold get in rw absent (rw (absent, get), rw (absent, get))
    | inr (i, there) ↦ elim (Bool-cases (is_expired now i)) [
      | inl old ↦ unfold get in rw there (rw (there, get) (rw old), rw (there, get) (rw (old)))
      | inr new ↦ unfold get in rw there (rw (there, get) (rw new), rw (there, get) (rw (new)))
    ]
  ]

  -- `Get` drops an expired entry of its key, and changes no other entry.
  pub get-stored :
      (now : ℤ) (k j : K) (c : TtlCache K V)
      → stored j (get now k c).0 ≡ (if k == j then live now (stored j c) else stored j c)
  get-stored now k j c = elim (Option-cases (lookup k c.items)) [
    | inl absent ↦ unfold get in rw (absent, get) (ground (arith, e.equal_iff k j))
    | inr (i, there) ↦
        unfold get is_expired remove_entry in
        ground (arith, e.equal_iff k j, lookup-delete k j c.items)
  ]

  -- `Get` of a key right after its `Set`, on any valid cache and whatever was thrown out: the value
  -- comes back, and the flag says whether the time to live has not passed yet.
  pub get-set :
      (k : K) (v : V) (now ttl t : ℤ) (c : TtlCache K V)
      → IsValid c
      → ((get t k (set k v now ttl c)).1 ≡ some v)
        × ((get t k (set k v now ttl c)).2 ≡ not (ltb_ℤ (now +ℤ ttl) t))
  get-set k v now ttl t c h =
      let found : stored k (set k v now ttl c) ≡ some (v, now +ℤ ttl) =
        set-stored k k v now ttl c h ∙ rw (equal_refl k) in
      let (value, flag) = get-answer t k (set k v now ttl c) in
      (rw found at value, rw found at flag)

  -- One round of the loop settles the entry that it looks at.
  round-stored :
      (now : K → ℤ) (j k : K) (i : Item V) (rest : List (K × Item V)) (c : TtlCache K V)
      → IsRest ((k, i) ∷ rest) c
      → (if is_key j rest
          then live (now j) (stored j (if is_expired (now k) i then remove_entry k i c else c))
          else stored j (if is_expired (now k) i then remove_entry k i c else c))
        ≡ (if is_key j ((k, i) ∷ rest) then live (now j) (stored j c) else stored j c)
  unfolding lookup is_expired
  round-stored now j k i rest c r =
      ground (
        arith,
        remove_entry-stored k j i c,
        e.equal_iff k j,
        r.distinct.0,
        IsRest-head k i rest c r,
      )

  sweep_from-stored :
      (now : K → ℤ) (j : K) (rest : List (K × Item V)) (c : TtlCache K V)
      → IsRest rest c
      → stored j (sweep_from now rest c)
        ≡ (if is_key j rest then live (now j) (stored j c) else stored j c)
  unfolding sweep_from lookup
  sweep_from-stored now j [] c r = refl
  sweep_from-stored now j ((k, i) ∷ rest) c r =
      sweep_from-stored now j rest _ (IsRest-step (is_expired (now k) i) k i rest c r)
      ∙ round-stored now j k i rest c r

  -- One round of the running cleanup removes exactly the entries that have expired at the reading
  -- made for their key.
  tick-stored :
      (now : K → ℤ) (j : K) (c : TtlCache K V)
      → IsValid c
      → c.janitor ≡ true
      → stored j (tick now c) ≡ live (now j) (stored j c)
  unfolding tick
  tick-stored now j c h on =
      let swept = sweep_from-stored now j c.items c (IsRest-all c h) in ground (arith, on, swept)

  keys_from-any :
      (now : K → ℤ) (j : K) (rest : List (K × Item V)) (c : TtlCache K V)
      → IsRest rest c
      → any (λ k. k == j) (keys_from now rest c).1
        ≡ is_some (live (now j) (content (lookup j rest)))
  unfolding keys_from lookup is_expired
  keys_from-any now j [] c r = refl
  keys_from-any now j ((k, i) ∷ rest) c r = ground (
    arith,
    e.equal_iff k j,
    r.distinct.0,
    keys_from-any now j rest _ (IsRest-step (is_expired (now k) i) k i rest c r),
  )

  -- `Keys` lists exactly the keys whose entries have not expired.
  pub keys_lem :
      (now : K → ℤ) (j : K) (c : TtlCache K V)
      → IsValid c
      → any (λ k. k == j) (keys now c).1 ≡ is_some (live (now j) (stored j c))
  unfolding keys
  keys_lem now j c h = keys_from-any now j c.items c (IsRest-all c h)
