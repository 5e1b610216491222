-- ===== src/Cache/Refinement/Sweeping.antt =====
-- The cleanup keeps the entries that have not expired.
use mathlib.Core.Path.{subst}
use plumbing.Prelude.{
  ◌≡◌, refl, sym, ap, ◌∙◌, Bool, true, false, ◌&&◌, ◌||◌, Option, none, some, List, [], ◌∷◌, arith,
  Comparable, lookup, delete, ◌==◌, Distinct, ℤ, ltb_ℤ, if◌then◌else◌, All, All-map, Bool-cases,
  inl, inr,
}
use plumbing.Cache.{Item, TtlCache, remove_entry, is_expired, sweep_from}
use plumbing.Cache.Invariant.{remove_entry-IsLinked}
use plumbing.Cache.Steps.{IsValid, IsRest, IsRest-head, IsRest-step, IsRest-all}
use plumbing.Cache.Lookup.{content}
use plumbing.Cache.Recency.{Entries, unexpired}
use plumbing.Cache.Recency.Keys.{Distinct-Found}
use plumbing.Cache.Refinement.{Refines, remove_entry-Refines}

module _ {V : Type 0} where
  abbrev old_at : ℤ → Option (V × ℤ) → Bool
  old_at now none = false
  old_at now (some w) = ltb_ℤ w.1 now

module _ {K V : Type 0} ⦃e : Comparable K⦄ where
  abbrev sweep_list : (K → ℤ) → List (K × Item V) → Entries K V → Entries K V
  sweep_list now [] l = l
  sweep_list now ((k, i) ∷ rest) l =
      sweep_list now rest (if is_expired (now k) i then delete k l else l)

  step-Refines :
      (b : Bool) (k : K) (i : Item V) (c : TtlCache K V) (l : Entries K V)
      → lookup k c.items ≡ some i
      → Refines c l
      → Refines (if b then remove_entry k i c else c) (if b then delete k l else l)
  step-Refines true k i c l there r =
      remove_entry-Refines c l k i (remove_entry-IsLinked k i c there r.linked) r there
  step-Refines false k i c l there r = r

  sweep_from-Refines :
      (now : K → ℤ) (rest : List (K × Item V)) (c : TtlCache K V) (l : Entries K V)
      → IsRest rest c
      → Refines c l
      → Refines (sweep_from now rest c) (sweep_list now rest l)
  unfolding sweep_from
  sweep_from-Refines now [] c l q r = r
  sweep_from-Refines now ((k, i) ∷ rest) c l q r =
      let b = is_expired (now k) i in
      sweep_from-Refines now rest _ _ (IsRest-step b k i rest c q)
        (step-Refines b k i c l (IsRest-head k i rest c q) r)

  -- Whether an expired entry of the key comes up.
  abbrev swept : (K → ℤ) → List (K × Item V) → K → Bool
  swept now [] k = false
  swept now ((j, i) ∷ rest) k = (is_expired (now j) i && e.equal j k) || swept now rest k

  abbrev kept_or : Bool → K × (V × ℤ) → Entries K V → Entries K V
  kept_or true x l = l
  kept_or false x l = x ∷ l

  sweep_list-cons :
      (now : K → ℤ) (rest : List (K × Item V)) (k : K) (w : V × ℤ) (l : Entries K V)
      → sweep_list now rest ((k, w) ∷ l) ≡ kept_or (swept now rest k) (k, w) (sweep_list now rest l)
  unfolding delete
  sweep_list-cons now [] k w l = refl
  sweep_list-cons now ((j, i) ∷ rest) k w l = elim (Bool-cases (is_expired (now j) i)) [
    | inr new ↦ rw new (sweep_list-cons now rest k w l)
    | inl old ↦ elim (Bool-cases (e.equal j k)) [
      | inr differ ↦
          let swapped : k == j ≡ false = ground (arith, differ, e.equal_iff j k, e.equal_iff k j) in
          rw (old, differ, swapped) (sweep_list-cons now rest k w (delete j l))
      | inl same ↦
          let swapped : k == j ≡ true = ground (arith, same, e.equal_iff j k, e.equal_iff k j) in
          rw (old, same, swapped) refl
    ]
  ]

  sweep_list-nil : (now : K → ℤ) (rest : List (K × Item V)) → sweep_list now rest [] ≡ []
  unfolding delete
  sweep_list-nil now [] = refl
  sweep_list-nil now ((j, i) ∷ rest) = elim (Bool-cases (is_expired (now j) i)) [
    | inl old ↦ rw old (sweep_list-nil now rest)
    | inr new ↦ rw new (sweep_list-nil now rest)
  ]

  abbrev expired_in : (K → ℤ) → K → Option (Item V) → Bool
  expired_in now k none = false
  expired_in now k (some i) = is_expired (now k) i

  swept_lem :
      (now : K → ℤ) (k : K) (rest : List (K × Item V))
      → Distinct rest
      → swept now rest k ≡ expired_in now k (lookup k rest)
  unfolding lookup
  swept_lem now k [] d = refl
  swept_lem now k ((j, i) ∷ rest) d = elim (Bool-cases (e.equal j k)) [
    | inl same ↦
        let at : j ≡ k = (e.equal_iff j k).0 same in
        let gone : swept now rest k ≡ false =
          swept_lem now k rest d.1
          ∙ ap (expired_in now k) (ap (λ x. lookup x rest) (sym at) ∙ d.0) in
        rw (same, gone) (ground (arith, ap (λ x. is_expired (now x) i) at))
    | inr differ ↦ rw differ (ground (arith, swept_lem now k rest d.1))
  ]

  -- An entry of the list has expired when the map's has.
  swept_there :
      (now : K → ℤ) (c : TtlCache K V) (l : Entries K V) (k : K) (w : V × ℤ)
      → Refines c l
      → lookup k l ≡ some w
      → swept now c.items k ≡ ltb_ℤ w.1 (now k)
  unfolding is_expired
  swept_there now c l k w r found =
      let there : content (lookup k c.items) ≡ some w = r.same_content k ∙ found in
      swept_lem now k c.items r.linked.items_distinct
      ∙ held (lookup k c.items)
      ∙ ap (old_at (now k)) there
    where
      held : (o : Option (Item V)) → expired_in now k o ≡ old_at (now k) (content o)
      held none = refl
      held (some i) = refl

  sweep_list-unexpired :
      (now : K → ℤ) (rest : List (K × Item V)) (l : Entries K V)
      → All (λ (x : K × (V × ℤ)). swept now rest x.0 ≡ ltb_ℤ x.1.1 (now x.0)) l
      → sweep_list now rest l ≡ unexpired now l
  sweep_list-unexpired now rest [] a = sweep_list-nil now rest
  sweep_list-unexpired now rest ((k, (v, expiry)) ∷ l) a =
      sweep_list-cons now rest k (v, expiry) l
      ∙ rw a.0 (
          ap (kept_or (ltb_ℤ expiry (now k)) (k, (v, expiry))) (sweep_list-unexpired now rest l a.1)
          ∙ kept (ltb_ℤ expiry (now k)) (k, (v, expiry)) (unexpired now l))
    where
      kept :
          (b : Bool) (x : K × (V × ℤ)) (r : Entries K V) → kept_or b x r ≡ (if b then r else x ∷ r)
      kept true x r = refl
      kept false x r = refl

  -- A round leaves the entries that have not expired, in their order.
  pub sweep-Refines :
      (now : K → ℤ) (c : TtlCache K V) (l : Entries K V)
      → IsValid c
      → Refines c l
      → Refines (sweep_from now c.items c) (unexpired now l)
  sweep-Refines now c l h r =
      subst (Refines (sweep_from now c.items c))
        (sweep_list-unexpired now c.items l (
          All-map (λ (x : K × (V × ℤ)). lookup x.0 l ≡ some x.1)
            (λ (x : K × (V × ℤ)). swept now c.items x.0 ≡ ltb_ℤ x.1.1 (now x.0)) l
            (λ (k, w) found. swept_there now c l k w r found) (Distinct-Found l r.distinct)))
        (sweep_from-Refines now c.items c l (IsRest-all c h) r)
