-- ===== src/Discovery/News.antt =====
-- The events that a change of what is served calls for.
use plumbing.Prelude.{
  ◌⊎◌, String, string_Comparable, str_eq, eq_iff, ◌≡◌, ◌≢◌, ◌↔◌, refl, sym, ap, ◌∙◌, Bool, true,
  false, ◌||◌, Option, none, some, List, [], ◌∷◌, ◌++◌, ◌+++◌, if◌then◌else◌, lookup, insert, arith,
  Bool-cases, inl, inr,
}
use plumbing.Discovery.{
  ApiResource, ResourceSnapshot, Event, Seen, announced, removed_keys, snapshot_equal, slices_equal,
}

-- What is to be remembered of a resource, and under which name.
abbrev pub snapshot_of : String → ApiResource → ResourceSnapshot
snapshot_of gv r = record { kind = r.kind; api_version = gv; name = r.name; verbs = r.verbs }

abbrev pub name_of : String → ApiResource → String
name_of gv r = gv +++ "/" +++ r.name

abbrev pub is_nameless : ApiResource → Bool
is_nameless r = str_eq r.name "" || str_eq r.kind ""

-- The resources with a name and a kind, a later one of the same name in place of an earlier one.
abbrev pub current_of : Seen → List (String × ApiResource) → Seen
current_of current [] = current
current_of current ((gv, r) ∷ resources) =
    if is_nameless r
    then current_of current resources
    else current_of (insert (name_of gv r) (snapshot_of gv r) current) resources

-- The events for a resource, given what is remembered under its name: nothing if it is the same.
abbrev pub News : Option ResourceSnapshot → ResourceSnapshot → List Event → Type 0
News none snapshot events = events ≡ Event.added snapshot ∷ []
News (some previous) snapshot events =
    ((previous ≡ snapshot) × (events ≡ []))
    ⊎ ((previous ≢ snapshot) × (events ≡ Event.changed previous snapshot ∷ []))

-- The events for the resources, in their order.
abbrev pub AllNews : Seen → List (String × ApiResource) → List Event → Type 0
AllNews seen [] events = events ≡ []
AllNews seen ((gv, r) ∷ resources) events =
    if is_nameless r
    then AllNews seen resources events
    else (here : List Event) × (rest : List Event) × (events ≡ here ++ rest)
      × News (lookup (name_of gv r) seen) (snapshot_of gv r) here
      × AllNews seen resources rest

-- The names that are remembered and not current.
abbrev pub unless_there : String → Option ResourceSnapshot → List String → List String
unless_there key none keys = key ∷ keys
unless_there key (some _) keys = keys

abbrev pub gone : Seen → Seen → List String
gone [] current = []
gone ((key, snapshot) ∷ seen) current = unless_there key (lookup key current) (gone seen current)

abbrev pub with_removed : Option ResourceSnapshot → List Event → List Event
with_removed none events = events
with_removed (some snapshot) events = Event.removed snapshot ∷ events

abbrev pub removals : Seen → List String → List Event
removals seen [] = []
removals seen (key ∷ keys) = with_removed (lookup key seen) (removals seen keys)

pub gone-removed_keys : (seen current : Seen) → removed_keys seen current ≡ gone seen current
unfolding removed_keys
gone-removed_keys [] current = refl
gone-removed_keys ((key, snapshot) ∷ seen) current =
    pick (lookup key current) (removed_keys seen current)
    ∙ ap (unless_there key (lookup key current)) (gone-removed_keys seen current)
  where
    pick :
        (o : Option ResourceSnapshot) (keys : List String)
        → (if elim o [ none ↦ false | some _ ↦ true ] then keys else key ∷ keys)
          ≡ unless_there key o keys
    pick none keys = refl
    pick (some _) keys = refl

pub slices_equal_iff : (a b : List String) → (slices_equal a b ≡ true) ↔ (a ≡ b)
slices_equal_iff [] [] = ground arith
slices_equal_iff [] (y ∷ b) = ground arith
slices_equal_iff (x ∷ a) [] = ground arith
slices_equal_iff (x ∷ a) (y ∷ b) = ground (arith, slices_equal_iff a b, eq_iff x y)

pub snapshot_equal_iff : (a b : ResourceSnapshot) → (snapshot_equal a b ≡ true) ↔ (a ≡ b)
unfolding snapshot_equal
snapshot_equal_iff a b = ground (
  arith,
  eq_iff a.kind b.kind,
  eq_iff a.api_version b.api_version,
  eq_iff a.name b.name,
  slices_equal_iff a.verbs b.verbs,
)

abbrev pub one : Option Event → List Event
one none = []
one (some event) = event ∷ []

pub News-announced :
    (previous : Option ResourceSnapshot) (snapshot : ResourceSnapshot)
    → News previous snapshot (one (announced previous snapshot))
unfolding announced
News-announced none snapshot = refl
News-announced (some previous) snapshot = elim (Bool-cases (snapshot_equal snapshot previous)) [
  | inl same ↦ rw same (inl (sym ((snapshot_equal_iff snapshot previous).0 same), refl))
  | inr differ ↦
      let apart : previous ≢ snapshot =
        λ h. ground (arith, differ, (snapshot_equal_iff snapshot previous).1 (sym h)) in
      rw differ (inr (apart, refl))
]

-- What the two loops publish, as lists.
abbrev pub announcements : Seen → List (String × ApiResource) → List Event
announcements seen [] = []
announcements seen ((gv, r) ∷ resources) =
    if is_nameless r
    then announcements seen resources
    else one (announced (lookup (name_of gv r) seen) (snapshot_of gv r))
      ++ announcements seen resources

pub announcements-AllNews :
    (seen : Seen) (resources : List (String × ApiResource))
    → AllNews seen resources (announcements seen resources)
announcements-AllNews seen [] = refl
announcements-AllNews seen ((gv, r) ∷ resources) = elim (Bool-cases (is_nameless r)) [
  | inl skipped ↦ rw skipped (announcements-AllNews seen resources)
  | inr named ↦ rw named (
    _,
    _,
    refl,
    News-announced (lookup (name_of gv r) seen) (snapshot_of gv r),
    announcements-AllNews seen resources,
  )
]
