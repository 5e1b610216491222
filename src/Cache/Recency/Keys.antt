-- ===== src/Cache/Recency/Keys.antt =====
-- The keys of the list of entries and of the recency list.
use plumbing.Prelude.{
  ℕ, ◌≡◌, refl, Option, none, some, List, [], ◌∷◌, arith, nat_eq, Comparable, nat_Comparable,
  equal_refl, ◌==◌, lookup, delete, Distinct, if◌then◌else◌, All,
}
use plumbing.Cache.{back}

module _ {K : Type 0} where
  abbrev pub keys_of : {B : Type 0} → List (K × B) → List K
  keys_of [] = []
  keys_of (entry ∷ l) = entry.0 ∷ keys_of l

  abbrev pub values_of : List (ℕ × K) → List K
  values_of [] = []
  values_of (entry ∷ l) = entry.1 ∷ values_of l

  abbrev pub last_of : List K → Option K
  last_of [] = none
  last_of (k ∷ []) = some k
  last_of (k ∷ j ∷ ks) = last_of (j ∷ ks)

  pub back-last_of : (order : List (ℕ × K)) → back order ≡ last_of (values_of order)
  unfolding back
  back-last_of [] = refl
  back-last_of ((n, k) ∷ []) = refl
  back-last_of ((n, k) ∷ (m, j) ∷ order) = back-last_of ((m, j) ∷ order)

module _ {K : Type 0} ⦃e : Comparable K⦄ where
  abbrev pub remaining : K → List K → List K
  remaining k [] = []
  remaining k (j ∷ ks) = let rest = remaining k ks in if j == k then rest else j ∷ rest

  pub keys_of-delete :
      {B : Type 0} (k : K) (l : List (K × B)) → keys_of (delete k l) ≡ remaining k (keys_of l)
  unfolding delete
  keys_of-delete k [] = refl
  keys_of-delete k ((j, b) ∷ l) = ground (arith, keys_of-delete k l)

  -- The number and the key of an element go together.
  abbrev pub Together : ℕ → K → ℕ × K → Type 0
  Together n k (m, j) = nat_eq m n ≡ e.equal j k

  pub values_of-delete :
      (n : ℕ) (k : K) (order : List (ℕ × K))
      → All (Together n k) order
      → values_of (delete n order) ≡ remaining k (values_of order)
  unfolding delete
  values_of-delete n k [] h = refl
  values_of-delete n k ((m, j) ∷ order) h = ground (arith, h.0, values_of-delete n k order h.1)

module _ {K B : Type 0} ⦃e : Comparable K⦄ where
  -- Each entry is found by its key.
  Found-behind :
      (j : K) (b : B) (rest l : List (K × B))
      → lookup j rest ≡ none
      → All (λ (x : K × B). lookup x.0 l ≡ some x.1) rest
      → All (λ (x : K × B). lookup x.0 ((j, b) ∷ l) ≡ some x.1) rest
  unfolding lookup
  Found-behind j b [] l h a = tt
  Found-behind j b ((k, d) ∷ rest) l h a = (
    ground (arith, h, a.0, e.equal_iff k j, e.equal_iff j k),
    Found-behind j b rest l (ground (arith, h)) a.1,
  )

  pub Distinct-Found :
      (l : List (K × B)) → Distinct l → All (λ (x : K × B). lookup x.0 l ≡ some x.1) l
  unfolding lookup
  Distinct-Found [] d = tt
  Distinct-Found ((j, b) ∷ l) d =
      (ground (arith, equal_refl j), Found-behind j b l l d.0 (Distinct-Found l d.1))
