-- ===== src/Cache/Refinement/Reading.antt =====
-- `Get`, `Remove` and `Pop`.
use mathlib.Core.Path.{subst}
use plumbing.Prelude.{
  ◌≡◌, refl, sym, ap, ◌∙◌, true, false, none, some, ◌∷◌, arith, Comparable, nat_Comparable, length,
  lookup, delete, delete_absent, ℤ, ltb_ℤ, if◌then◌else◌, Bool-cases, Option-cases, inl, inr,
}
use plumbing.Cache.{Item, TtlCache, get, remove, pop, remove_entry, move_to_front, is_expired}
use plumbing.Cache.Invariant.{IsLinked}
use plumbing.Cache.Steps.{IsValid, get-IsValid, remove-IsValid, pop-IsValid}
use plumbing.Cache.Lookup.{content, stored, live}
use plumbing.Cache.Recency.{Entries, in_front, recent_get}
use plumbing.Cache.Refinement.{Refines, content-lookup, remove_entry-Refines, front-Refines}

module _ {K V : Type 0} ⦃e : Comparable K⦄ where
  get_absent : (now : ℤ) (k : K) (c : TtlCache K V) → lookup k c.items ≡ none → (get now k c).0 ≡ c
  get_absent now k c absent = unfold get in rw (absent, get) refl

  get_expired :
      (now : ℤ) (k : K) (c : TtlCache K V) (i : Item V)
      → lookup k c.items ≡ some i
      → is_expired now i ≡ true
      → (get now k c).0 ≡ remove_entry k i c
  get_expired now k c i there old = unfold get in rw (there, get) (rw old refl)

  get_live :
      (now : ℤ) (k : K) (c : TtlCache K V) (i : Item V)
      → lookup k c.items ≡ some i
      → is_expired now i ≡ false
      → (get now k c).0 ≡ record c { order = move_to_front i.elem c.order }
  get_live now k c i there new = unfold get in rw (there, get) (rw new refl)

  recent_get_there :
      (now : ℤ) (k : K) (l : Entries K V) (i : Item V)
      → lookup k l ≡ some (i.value, i.expiry)
      → recent_get now k l
        ≡ (if is_expired now i then delete k l else (k, (i.value, i.expiry)) ∷ delete k l)
  unfolding is_expired
  recent_get_there now k l i h =
      ap (λ o. in_front k (live now o) (delete k l)) h
      ∙ elim (Bool-cases (ltb_ℤ i.expiry now)) [ inl old ↦ rw old refl | inr new ↦ rw new refl ]

  pub get-Refines :
      (c : TtlCache K V) (l : Entries K V) (now : ℤ) (k : K)
      → IsValid c
      → Refines c l
      → Refines (get now k c).0 (recent_get now k l)
  get-Refines c l now k h r = elim (Option-cases (lookup k c.items)) [
    | inl absent ↦
        let gone : lookup k l ≡ none = sym (r.same_content k) ∙ ap content absent in
        let spec : recent_get now k l ≡ l =
          ap (λ o. in_front k (live now o) (delete k l)) gone ∙ delete_absent k l gone in
        subst (λ d. Refines d (recent_get now k l)) (sym (get_absent now k c absent))
          (subst (Refines c) (sym spec) r)
    | inr (i, there) ↦
        let spec = recent_get_there now k l i (content-lookup c l k i r there) in
        let linked = (get-IsValid now k c h).linked in
        elim (Bool-cases (is_expired now i)) [
          | inl old ↦
              let made = get_expired now k c i there old in
              let same : recent_get now k l ≡ delete k l = spec ∙ (rw old refl) in
              subst (λ d. Refines d (recent_get now k l)) (sym made)
                (subst (Refines (remove_entry k i c)) (sym same)
                  (remove_entry-Refines c l k i (subst IsLinked made linked) r there))
          | inr new ↦
              let made = get_live now k c i there new in
              let same : recent_get now k l ≡ (k, (i.value, i.expiry)) ∷ delete k l =
                spec ∙ (rw new refl) in
              subst (Refines (get now k c).0) (sym same) (
                front-Refines c (get now k c).0 l k i (i.value, i.expiry) there r linked
                  (ap (λ (d : TtlCache K V). d.order) made)
                  (ap (λ (d : TtlCache K V). length d.items) made)
                  (λ j.
                    ap (λ (d : TtlCache K V). stored j d) made
                    ∙ ground (arith, there, e.equal_iff k j)))
        ]
  ]

  removed-Refines :
      (c : TtlCache K V) (l : Entries K V) (k : K) (d : TtlCache K V)
      → IsLinked d
      → Refines c l
      → (lookup k c.items ≡ none → d ≡ c)
      → ((i : Item V) → lookup k c.items ≡ some i → d ≡ remove_entry k i c)
      → Refines d (delete k l)
  removed-Refines c l k d linked r keep drop = elim (Option-cases (lookup k c.items)) [
    | inl absent ↦
        let same : delete k l ≡ l =
          delete_absent k l (sym (r.same_content k) ∙ ap content absent) in
        subst (λ x. Refines x (delete k l)) (sym (keep absent)) (subst (Refines c) (sym same) r)
    | inr (i, there) ↦
        subst (λ x. Refines x (delete k l)) (sym (drop i there))
          (remove_entry-Refines c l k i (subst IsLinked (drop i there) linked) r there)
  ]

  pub remove-Refines :
      (c : TtlCache K V) (l : Entries K V) (k : K)
      → IsValid c
      → Refines c l
      → Refines (remove k c) (delete k l)
  remove-Refines c l k h r =
      removed-Refines c l k (remove k c) (remove-IsValid k c h).linked r
        (λ absent. unfold remove in rw absent refl) (λ i there. unfold remove in rw there refl)

  pub pop-Refines :
      (c : TtlCache K V) (l : Entries K V) (now : ℤ) (k : K)
      → IsValid c
      → Refines c l
      → Refines (pop now k c).0 (delete k l)
  pop-Refines c l now k h r =
      removed-Refines c l k (pop now k c).0 (pop-IsValid now k c h).linked r
        (λ absent. unfold pop in rw (absent, pop) refl)
        (λ i there. unfold pop in rw (there, pop) refl)
