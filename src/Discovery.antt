-- ===== src/Discovery.antt =====
-- kubeutil/discoveryevents/discoveryevents.go: events for the resources that an apiserver serves.
-- The discovery call, the bus and `sort.Strings` are parameters.
pub mod News
mod Differences
mod Tests
use plumbing.Prelude.{
  ℕ, String, string_Comparable, Bool, true, false, not, ◌||◌, ◌&&◌, Option, none, some, List, [],
  ◌∷◌, ◌++◌, str_eq, if◌then◌else◌, lookup, insert, is_key, ◌+++◌,
}
use plumbing.Helm.Stripped.{Fallible, ok, fail}

pub record ResourceSnapshot : Type 0 where
  pub kind : String
  pub api_version : String
  pub name : String
  pub verbs : List String

-- `metav1.APIResource` as far as it is read.
pub record ApiResource : Type 0 where
  pub name : String
  pub kind : String
  pub verbs : List String

pub data Event : Type 0 where
  added removed : ResourceSnapshot → Event
  changed : ResourceSnapshot → ResourceSnapshot → Event

abbrev pub slices_equal : List String → List String → Bool
slices_equal [] [] = true
slices_equal (a ∷ rest) (b ∷ others) = str_eq a b && slices_equal rest others
slices_equal _ _ = false

pub snapshot_equal : ResourceSnapshot → ResourceSnapshot → Bool
snapshot_equal r o =
    str_eq r.kind o.kind
    && str_eq r.api_version o.api_version
    && str_eq r.name o.name
    && slices_equal r.verbs o.verbs

pub new_snapshot : String → ApiResource → ResourceSnapshot
new_snapshot group_version r = record {
  kind = r.kind;
  api_version = group_version;
  name = r.name;
  verbs = r.verbs;
}

pub resource_key : String → ApiResource → String
resource_key group_version r = group_version +++ "/" +++ r.name

pub is_publishable : ApiResource → Bool
is_publishable r = not (str_eq r.name "" || str_eq r.kind "")

abbrev pub Seen : Type 0
Seen = List (String × ResourceSnapshot)

-- The world that the bus acts on, and the events published so far.
pub record State (World : Type 0) : Type 0 where
  pub world : World
  pub sent : List Event

-- A result of the bus: its own error, or the first of its handlers'.
abbrev pub first_error : {Error : Type 0} → Option Error → List Error → Option Error
first_error (some e) errors = some e
first_error none [] = none
first_error none (e ∷ errors) = some e

-- What a resource that is already known, or is not, is announced by.
pub announced : Option ResourceSnapshot → ResourceSnapshot → Option Event
unfolding snapshot_equal
announced none snapshot = some (added snapshot)
announced (some previous) snapshot =
    if snapshot_equal snapshot previous then none else some (changed previous snapshot)

-- The keys that are not found any more.
pub removed_keys : Seen → Seen → List String
removed_keys [] current = []
removed_keys ((key, snapshot) ∷ seen) current =
    let rest = removed_keys seen current in if is_key key current then rest else key ∷ rest

module _ {World Error : Type 0} (publish_sync : Event → World → (Option Error × List Error) × World)
    (sort : List String → List String) where
  pub publish : Event → State World → Option Error × State World
  publish event s =
      let (result, world) = publish_sync event s.world in
      (first_error result.0 result.1, record { world = world; sent = s.sent ++ event ∷ [] })

  abbrev pub publish_any : Option Event → State World → Option Error × State World
  publish_any none s = (none, s)
  publish_any (some event) s = publish event s

  -- Go on unless there was an error.
  abbrev pub unless_error :
      {A : Type 0}
      → Option Error × State World
      → (State World → Fallible A × Option Error × State World)
      → Fallible A × Option Error × State World
  unless_error (some e, s) next = (fail, some e, s)
  unless_error (none, s) next = next s

  -- The loops over the lists and their resources, as one over the pairs of both.
  pub walk :
      Seen
      → List (String × ApiResource)
      → Seen
      → State World
      → Fallible Seen × Option Error × State World
  unfolding publish announced new_snapshot resource_key is_publishable
  walk seen [] current s = (ok current, none, s)
  walk seen ((group_version, resource) ∷ resources) current s =
      let key = resource_key group_version resource in
      let snapshot = new_snapshot group_version resource in
      if is_publishable resource
      then unless_error (publish_any (announced (lookup key seen) snapshot) s)
          (walk seen resources (insert key snapshot current))
      else walk seen resources current s

  abbrev pub removal : String → Seen → Option Event
  removal key seen = elim (lookup key seen) [
    | none ↦ none
    | some snapshot ↦ some (removed snapshot)
  ]

  pub walk_removed :
      Seen → List String → Seen → State World → Fallible Seen × Option Error × State World
  unfolding publish
  walk_removed seen [] current s = (ok current, none, s)
  walk_removed seen (key ∷ keys) current s =
      unless_error (publish_any (removal key seen) s) (walk_removed seen keys current)

  abbrev pub then_removed :
      Seen → Fallible Seen × Option Error × State World → Fallible Seen × Option Error × State World
  then_removed seen (ok current, e, s) =
      walk_removed seen (sort (removed_keys seen current)) current s
  then_removed seen (fail, e, s) = (fail, e, s)

  abbrev pub stored : Seen → Fallible Seen → Seen
  stored seen (ok current) = current
  stored seen fail = seen

  -- `PublishChanges`, for what the discovery call answers: the error, and the publisher's `seen`.
  pub publish_changes :
      Seen → Fallible (List (String × ApiResource)) → State World → Bool × Seen × State World
  unfolding walk walk_removed removed_keys
  publish_changes seen fail s = (false, seen, s)
  publish_changes seen (ok resources) s =
      let (r, e, after) = then_removed seen (walk seen resources [] s) in
      (elim r [ ok _ ↦ true | fail ↦ false ], stored seen r, after)

  -- `PublishNewResources`
  pub publish_new_resources :
      Seen → Fallible (List (String × ApiResource)) → State World → Bool × Seen × State World
  unfolding publish_changes
  publish_new_resources = publish_changes
