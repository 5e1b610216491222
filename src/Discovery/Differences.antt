-- ===== src/Discovery/Differences.antt =====
-- Which events are published, and what is remembered.
use plumbing.Prelude.{
  String, string_Comparable, ◌≡◌, Bool, Option, none, some, List, [], ◌∷◌, ◌++◌, if◌then◌else◌,
}
use plumbing.Helm.Stripped.{Fallible, ok, fail}
use plumbing.Discovery.{ApiResource, Event, Seen, State, first_error}
use plumbing.Discovery.News.{current_of, AllNews, gone, removals}

module _ {World Error : Type 0} (publish_sync : Event → World → (Option Error × List Error) × World)
    (sort : List String → List String) where
  -- Some of the events went out, and the last of them gave an error.
  abbrev pub Broken : List Event → State World → State World → Type 0
  Broken events s after =
      (before : List Event) × (event : Event) × (rest : List Event) × (world : World) × (x : Error)
      × (events ≡ before ++ event ∷ rest)
      × (after.sent ≡ s.sent ++ (before ++ event ∷ []))
      × (first_error (publish_sync event world).0.0 (publish_sync event world).0.1 ≡ some x)

  abbrev Went :
      Seen → List Event → State World → Fallible Seen × Option Error × State World → Type 0
  Went current events s (ok c, e, after) =
      (c ≡ current) × (e ≡ none) × (after.sent ≡ s.sent ++ events)
  Went current events s (fail, e, after) = Broken events s after

  -- What is remembered and published, with success and without.
  abbrev pub Published :
      Seen → List (String × ApiResource) → State World → Bool × Seen × State World → Type 0
  Published seen resources s (succeeded, seen', after) =
      (news : List Event) × AllNews seen resources news
      × (if succeeded
          then (seen' ≡ current_of [] resources)
            × (after.sent
                ≡ s.sent ++ (news ++ removals seen (sort (gone seen (current_of [] resources)))))
          else (seen' ≡ seen)
            × Broken (news ++ removals seen (sort (gone seen (current_of [] resources)))) s after)
