-- ===== src/Discovery/Tests.antt =====
-- A discovery that finds a new resource and misses an old one.
use plumbing.Prelude.{
  String, string_Comparable, ◌≡◌, refl, true, Option, none, List, [], ◌∷◌, lookup, insert,
}
use plumbing.Helm.Stripped.{ok}
use plumbing.Discovery.{
  ApiResource, Event, added, removed, ResourceSnapshot, Seen, State, new_snapshot, resource_key,
  is_publishable, announced, removed_keys, publish, walk, walk_removed, publish_changes,
}

abbrev pods : ApiResource
pods = record { name = "pods"; kind = "Pod"; verbs = "get" ∷ [] }

abbrev gone : ResourceSnapshot
gone = record { kind = "Job"; api_version = "v0"; name = "jobs"; verbs = [] }

abbrev seen : Seen
seen = ("v0/jobs", gone) ∷ []

abbrev silent : Event → Unit {0} → (Option String × List String) × Unit {0}
silent event w = ((none, []), w)

abbrev start : State (Unit {0})
start = record { world = tt; sent = [] }

two_events : publish_changes silent (λ keys. keys) seen (ok (("v1", pods) ∷ [])) start ≡ (
  true,
  ("v1/pods", new_snapshot "v1" pods) ∷ [],
  record { world = tt; sent = added (new_snapshot "v1" pods) ∷ removed gone ∷ [] },
)
unfolding publish_changes walk walk_removed publish announced removed_keys is_publishable
    resource_key new_snapshot insert lookup
two_events = refl
