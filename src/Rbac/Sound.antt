-- ===== src/Rbac/Sound.antt =====
-- What an authorizer allows was allowed by a review.
use plumbing.Prelude.{
  ℕ, suc, zero, string_Comparable, Comparable, ◌≡◌, ◌⊎◌, inl, inr, sym, ap, ◌∙◌, Bool, true, false,
  Option, none, some, List, [], ◌∷◌, set, get_elem?, if◌then◌else◌, ℤ, arith,
}
use mathlib.Core.Path.{subst}
use plumbing.Cache.{TtlCache}
use plumbing.Cache as Cache
use plumbing.Cache.Steps.{IsValid, set-IsValid, get-IsValid}
use plumbing.Cache.Lookup.{stored, answer, get-answer, set-stored, get-stored, live}
use plumbing.Rbac.{UserCanCacheKey, hit_value, key_Comparable, target_Comparable}

pub set-get_elem? :
    (xs : List Bool) (i j : ℕ) (v : Bool)
    → get_elem? (set xs i v) j ≡ some true
    → ((i ≡ j) × (v ≡ true)) ⊎ (get_elem? xs j ≡ some true)
set-get_elem? [] i j v h = inr h
set-get_elem? (x ∷ xs) zero zero v h = ground (arith, h)
set-get_elem? (x ∷ xs) zero (suc j) v h = inr h
set-get_elem? (x ∷ xs) (suc i) zero v h = inr h
set-get_elem? (x ∷ xs) (suc i) (suc j) v h = ground (arith, set-get_elem? xs i j v h)

kept_yes :
    (hit gone v : Bool) (x y : ℤ) (old : Option (Bool × ℤ))
    → (if hit then some (v, x) else if gone then none else old) ≡ some (true, y)
    → ((hit ≡ true) × (v ≡ true)) ⊎ (old ≡ some (true, y))
kept_yes hit gone v x y old h = ground (arith, h)

answer_yes :
    (now : ℤ) (o : Option (Bool × ℤ))
    → hit_value (answer now o).0 ≡ true
    → (x : ℤ) × (o ≡ some (true, x))
answer_yes now none h = ground (arith, h)
answer_yes now (some (b, x)) h = (x, ground (arith, h))

live_yes :
    (hit : Bool) (now y : ℤ) (o : Option (Bool × ℤ))
    → (if hit then live now o else o) ≡ some (true, y)
    → o ≡ some (true, y)
live_yes false now y o h = h
live_yes true now y none h = ground (arith, h)
live_yes true now y (some (b, x)) h = ground (arith, h)

module _ {Endpoint : Type 0} ⦃e : Comparable Endpoint⦄
    (Permitted : UserCanCacheKey Endpoint → Type 0) where
  -- A cached yes is right.
  pub record Trusted (cache : TtlCache (UserCanCacheKey Endpoint) Bool) : Type 0 where
    pub valid : IsValid cache
    pub yes :
        (key : UserCanCacheKey Endpoint) (x : ℤ) → stored key cache ≡ some (true, x) → Permitted key

  pub set-Trusted :
      (key : UserCanCacheKey Endpoint) (v : Bool) (now ttl : ℤ)
      (cache : TtlCache (UserCanCacheKey Endpoint) Bool)
      → (v ≡ true → Permitted key)
      → Trusted cache
      → Trusted (Cache.set key v now ttl cache)
  set-Trusted key v now ttl cache h t = record {
    valid = set-IsValid key v now ttl cache t.valid;
    yes = λ j y there.
        elim (kept_yes (key_Comparable.equal key j) _ v _ y _
          (sym (set-stored key j v now ttl cache t.valid) ∙ there)) [
            | inl (hit, is_yes) ↦
                subst Permitted ((key_Comparable.equal_iff key j).0 hit) (h is_yes)
            | inr old ↦ t.yes j y old
          ];
  }

  pub get-Trusted :
      (now : ℤ) (key : UserCanCacheKey Endpoint) (cache : TtlCache (UserCanCacheKey Endpoint) Bool)
      → Trusted cache
      → Trusted (Cache.get now key cache).0
  get-Trusted now key cache t = record {
    valid = get-IsValid now key cache t.valid;
    yes = λ j y there.
        t.yes j y (
          live_yes (key_Comparable.equal key j) now y _ (sym (get-stored now key j cache) ∙ there));
  }

  pub get-Permitted :
      (now : ℤ) (key : UserCanCacheKey Endpoint) (cache : TtlCache (UserCanCacheKey Endpoint) Bool)
      → Trusted cache
      → hit_value (Cache.get now key cache).1 ≡ true
      → Permitted key
  get-Permitted now key cache t h =
      let (x, there) =
        answer_yes now (stored key cache) (ap hit_value (sym (get-answer now key cache).0) ∙ h) in
      t.yes key x there
