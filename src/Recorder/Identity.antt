-- ===== src/Recorder/Identity.antt =====
-- What makes a stream, and which of its calls are to send their event.
use plumbing.Prelude.{
  ℕ, ◌<◌, ◌≡◌, refl, Bool, true, false, Option, none, some, List, [], ◌∷◌, String,
  string_Comparable, nat_eq, nat_Comparable, ℤ, if◌then◌else◌, ◌==◌, ◌+++◌, join,
}
use plumbing.Recorder.{Object, Event, event_key, object_key}
use plumbing.Recorder.Stream.{is_due}
use plumbing.Recorder.Independence.{stream_of, only}

-- An object in words: its Go type and its kind, and its namespace, name and UID where it has them.
abbrev pub described : Option Object → String
described none = "<nil>"
described (some o) = elim o.accessor [
  | none ↦ o.type_name +++ "|" +++ o.gvk
  | some (namespace, name, uid) ↦
      o.type_name +++ "|" +++ o.gvk +++ "|" +++ namespace +++ "|" +++ name +++ "|" +++ uid
]

-- Both objects, and the type, the reason and the action of an event.
abbrev pub identity : Event → String
identity event =
    described event.regarding
    +++ "|"
    +++ described event.related
    +++ "|"
    +++ event.event_type
    +++ "|"
    +++ event.reason
    +++ "|"
    +++ event.action

pub object_key-described : (o : Option Object) → object_key o ≡ described o
unfolding object_key join
object_key-described none = refl
object_key-described (some o) = same o.accessor
  where
    same :
        (a : Option (String × String × String))
        → elim a [
          | none ↦ join "|" (o.type_name ∷ o.gvk ∷ [])
          | some (namespace, name, uid) ↦
              join "|" (o.type_name ∷ o.gvk ∷ namespace ∷ name ∷ uid ∷ [])
        ]
          ≡ elim a [
            | none ↦ o.type_name +++ "|" +++ o.gvk
            | some (namespace, name, uid) ↦
                o.type_name +++ "|" +++ o.gvk +++ "|" +++ namespace +++ "|" +++ name +++ "|" +++ uid
          ]
    same none = refl
    same (some (namespace, name, uid)) = refl

pub stream_of-identity : (event : Event) → stream_of event ≡ identity event
unfolding stream_of event_key join object_key
stream_of-identity event =
    rw (object_key-described event.regarding, object_key-described event.related) refl

abbrev pub Calls : Type 0
Calls = List (ℕ × Event)

-- The calls of one stream.
abbrev pub identified : String → Calls → Calls
identified k [] = []
identified k ((now, event) ∷ calls) =
    let rest = identified k calls in if identity event == k then (now, event) ∷ rest else rest

pub only-identified : (k : String) (calls : Calls) → only k calls ≡ identified k calls
only-identified k [] = refl
only-identified k ((now, event) ∷ calls) =
    rw (stream_of-identity event, only-identified k calls) refl

-- What is known of a stream: nothing, or its last message and, if events were kept back since the last
-- one that went out, the time of the first of them.
abbrev pub Memory : Type 0
Memory = Option (ℕ × Option ℕ)

-- The message of a call is given by its hash. It goes out if it is the first, or another one than
-- the last, or if a positive `max` has passed since the first that was kept back.
abbrev pub goes_out : ℤ → ℕ → ℕ → Memory → Bool
goes_out max sig now none = true
goes_out max sig now (some (last, none)) = if nat_eq last sig then false else true
goes_out max sig now (some (last, some first)) =
    if nat_eq last sig then is_due max now first else true

abbrev pub remembered : ℤ → ℕ → ℕ → Memory → Memory
remembered max sig now none = some (sig, none)
remembered max sig now (some (last, none)) =
    if nat_eq last sig then some (sig, some now) else some (sig, none)
remembered max sig now (some (last, some first)) =
    if nat_eq last sig
    then if is_due max now first then some (sig, none) else some (sig, some first)
    else some (sig, none)

module _ (hash : String → ℕ) where
  -- The calls of a stream that send their event.
  abbrev pub sending : ℤ → Memory → Calls → Calls
  sending max memory [] = []
  sending max memory ((now, event) ∷ calls) =
      let rest = sending max (remembered max (hash event.message) now memory) calls in
      if goes_out max (hash event.message) now memory then (now, event) ∷ rest else rest

abbrev pub AllLater : Calls → Type 0
AllLater [] = Unit
AllLater ((now, event) ∷ calls) = (0 < now) × AllLater calls
