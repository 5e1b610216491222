-- ===== src/Prelude/Sets.antt =====
-- Sets of texts, Go's `map[string]struct{}`, as lists without repeated members.
use Prim.Native.Nat.{◌+◌, ◌≤◌}
use Prim.Native.String.{String}
use mathlib.Core.Path.{◌≡◌, refl}
use mathlib.Core.Bool.{Bool, true, false, ◌||◌}
use mathlib.Core.List.{List, [], ◌∷◌, ◌++◌}
use native.Mathlib.Omega.{arith}
use text.Mathlib.Text.{◌==◌ as str_eq}
use text.Mathlib.TextEquality.{eq_iff}
use plumbing.Prelude.Tests.{if◌then◌else◌}
use plumbing.Prelude.Lists.{length}

abbrev pub member : String → List String → Bool
member k [] = false
member k (j ∷ ks) = str_eq j k || member k ks

-- `s[node] = struct{}{}`
unfoldable pub add_node : String → List String → List String
add_node v s = if member v s then s else v ∷ s

-- `delete(s, node)`
unfoldable pub remove_node : String → List String → List String
remove_node v [] = []
remove_node v (w ∷ s) = let rest = remove_node v s in if str_eq w v then rest else w ∷ rest

abbrev pub Nodup : List String → Type 0
Nodup [] = Unit
Nodup (v ∷ s) = (member v s ≡ false) × Nodup s

pub member-append :
    (v : String) (s t : List String) → member v (s ++ t) ≡ (member v s || member v t)
member-append v [] t = refl
member-append v (w ∷ s) t = ground (arith, member-append v s t)

pub append-Nodup :
    (s t : List String)
    → Nodup s
    → Nodup t
    → ((v : String) → member v s ≡ true → member v t ≡ false)
    → Nodup (s ++ t)
append-Nodup [] t d e h = e
append-Nodup (w ∷ s) t d e h = ground (
  arith,
  d,
  h w,
  eq_iff w w,
  member-append w s t,
  append-Nodup s t d.1 e (λ v m. h v (ground (arith, m))),
)

pub member-add_node :
    (w v : String) (s : List String) → member w (add_node v s) ≡ (str_eq v w || member w s)
unfolding add_node
member-add_node w v s = ground (arith, eq_iff v w)

pub add_node-Nodup : (v : String) (s : List String) → Nodup s → Nodup (add_node v s)
unfolding add_node
add_node-Nodup v s d = ground arith

pub member-remove_node :
    (w v : String) (s : List String)
    → member w (remove_node v s) ≡ (if str_eq v w then false else member w s)
unfolding remove_node
member-remove_node w v [] = ground arith
member-remove_node w v (x ∷ s) =
    ground (arith, eq_iff x v, eq_iff v w, eq_iff x w, member-remove_node w v s)

pub remove_node-Nodup : (v : String) (s : List String) → Nodup s → Nodup (remove_node v s)
unfolding remove_node
remove_node-Nodup v [] d = tt
remove_node-Nodup v (x ∷ s) d = ground (arith, member-remove_node x v s, remove_node-Nodup v s)

pub remove_node_absent : (v : String) (s : List String) → member v s ≡ false → remove_node v s ≡ s
unfolding remove_node
remove_node_absent v [] h = refl
remove_node_absent v (x ∷ s) h = ground (arith, remove_node_absent v s)

pub length-remove_node :
    (v : String) (s : List String)
    → Nodup s
    → member v s ≡ true
    → length (remove_node v s) + 1 ≡ length s
unfolding remove_node
length-remove_node v [] d h = ground (arith, h)
length-remove_node v (x ∷ s) d h =
    ground (arith, eq_iff x v, remove_node_absent v s, length-remove_node v s)

-- A set within another is at most as large.
pub length-within :
    (s t : List String)
    → Nodup s
    → Nodup t
    → ((v : String) → member v s ≡ true → member v t ≡ true)
    → length s ≤ length t
length-within [] t d e h = omega arith
length-within (x ∷ s) t d e h =
    let here : member x t ≡ true = h x (ground (arith, eq_iff x x)) in
    let less : length s ≤ length (remove_node x t) =
      length-within s (remove_node x t) d.1 (remove_node-Nodup x t e)
        (λ v m. ground (arith, h v, m, d.0, member-remove_node v x t, eq_iff x v)) in
    omega (arith, less, length-remove_node x t e here)
