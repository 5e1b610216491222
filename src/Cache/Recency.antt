-- ===== src/Cache/Recency.antt =====
-- What a `TTLCache` promises: a list of entries with their expiry, the most recently used first.
pub mod Keys
use plumbing.Prelude.{
  ℕ, Bool, true, false, not, ◌&&◌, Option, none, some, List, [], ◌∷◌, ltb, Comparable, length,
  lookup, delete, ℤ, ◌+ℤ◌, ltb_ℤ, if◌then◌else◌,
}
use plumbing.Cache.Lookup.{live}

module _ (K V : Type 0) where
  abbrev pub Entries : Type 0
  Entries = List (K × (V × ℤ))

module _ {A : Type 0} where
  abbrev pub drop_last : List A → List A
  drop_last [] = []
  drop_last (x ∷ []) = []
  drop_last (x ∷ y ∷ xs) = x ∷ drop_last (y ∷ xs)

  -- One more than the limit: the last goes.
  abbrev pub trimmed : ℕ → List A → List A
  trimmed limit xs = if ltb 0 limit && ltb limit (length xs) then drop_last xs else xs

module _ {K V : Type 0} ⦃e : Comparable K⦄ where
  abbrev pub recent_set : ℕ → K → V → ℤ → Entries K V → Entries K V
  recent_set limit k v expiry l = trimmed limit ((k, (v, expiry)) ∷ delete k l)

  abbrev pub in_front : K → Option (V × ℤ) → Entries K V → Entries K V
  in_front k none l = l
  in_front k (some w) l = (k, w) ∷ l

  abbrev pub recent_get : ℤ → K → Entries K V → Entries K V
  recent_get now k l = in_front k (live now (lookup k l)) (delete k l)

  abbrev pub unexpired : (K → ℤ) → Entries K V → Entries K V
  unexpired now [] = []
  unexpired now ((k, (v, expiry)) ∷ l) =
      let rest = unexpired now l in if ltb_ℤ expiry (now k) then rest else (k, (v, expiry)) ∷ rest
