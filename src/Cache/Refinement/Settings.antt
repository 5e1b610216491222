-- ===== src/Cache/Refinement/Settings.antt =====
-- The limit and the flags of a `TTLCache`, which the calls on its entries keep.
use plumbing.Prelude.{
  ℕ, ◌≡◌, refl, ◌∙◌, Bool, Option, none, some, List, [], ◌∷◌, Comparable, lookup, ℤ, ◌+ℤ◌,
  Bool-cases, Option-cases, inl, inr,
}
use plumbing.Cache.{
  Item, TtlCache, set, get, remove, pop, remove_entry, remove_found, evict_key, evict_oldest, back,
  push_entry, over_full, is_expired, sweep_from,
}

module _ {K V : Type 0} ⦃e : Comparable K⦄ where
  abbrev pub settings : TtlCache K V → ℕ × Bool × Bool
  settings c = (c.max_entries, c.janitor, c.stopped)

  evict_oldest-settings : (c : TtlCache K V) → settings (evict_oldest c) ≡ settings c
  unfolding evict_oldest evict_key remove_found remove_entry
  evict_oldest-settings c = go (back c.order)
    where
      found : (k : K) (o : Option (Item V)) → settings (remove_found k o c) ≡ settings c
      found k none = refl
      found k (some i) = refl

      go : (o : Option K) → settings (evict_key o c) ≡ settings c
      go none = refl
      go (some k) = found k (lookup k c.items)

  pub set-settings :
      (k : K) (v : V) (now ttl : ℤ) (c : TtlCache K V) → settings (set k v now ttl c) ≡ settings c
  unfolding set push_entry
  set-settings k v now ttl c = elim (Option-cases (lookup k c.items)) [
    | inr (i, there) ↦ rw (there, set) refl
    | inl absent ↦ elim (Bool-cases (over_full (push_entry k v (now +ℤ ttl) c))) [
      | inl full ↦
          rw (absent, set) (rw full (evict_oldest-settings (push_entry k v (now +ℤ ttl) c)))
      | inr fits ↦ rw (absent, set) (rw fits refl)
    ]
  ]

  pub get-settings : (now : ℤ) (k : K) (c : TtlCache K V) → settings (get now k c).0 ≡ settings c
  unfolding get remove_entry
  get-settings now k c = elim (Option-cases (lookup k c.items)) [
    | inl absent ↦ rw (absent, get) refl
    | inr (i, there) ↦ elim (Bool-cases (is_expired now i)) [
      | inl old ↦ rw (there, get) (rw old refl)
      | inr new ↦ rw (there, get) (rw new refl)
    ]
  ]

  pub pop-settings : (now : ℤ) (k : K) (c : TtlCache K V) → settings (pop now k c).0 ≡ settings c
  unfolding pop remove_entry
  pop-settings now k c = elim (Option-cases (lookup k c.items)) [
    | inl absent ↦ rw (absent, pop) refl
    | inr (i, there) ↦ rw (there, pop) refl
  ]

  pub remove-settings : (k : K) (c : TtlCache K V) → settings (remove k c) ≡ settings c
  unfolding remove remove_found remove_entry
  remove-settings k c = elim (Option-cases (lookup k c.items)) [
    | inl absent ↦ rw absent refl
    | inr (i, there) ↦ rw there refl
  ]

  pub sweep_from-settings :
      (now : K → ℤ) (rest : List (K × Item V)) (c : TtlCache K V)
      → settings (sweep_from now rest c) ≡ settings c
  unfolding sweep_from remove_entry
  sweep_from-settings now [] c = refl
  sweep_from-settings now ((k, i) ∷ rest) c =
      sweep_from-settings now rest _
      ∙ elim (Bool-cases (is_expired (now k) i)) [ inl old ↦ rw old refl | inr new ↦ rw new refl ]
