-- ===== src/Recorder.antt =====
-- kubeutil/eventrecorder/throttled_eventrecorder.go: `ThrottledRecorder`, which keeps back the events
-- of a stream while their message stays the same.
-- A time is the number of nanoseconds since Go's zero time, so that `IsZero` is a test for 0. `Sub`
-- is not cut to 64 bits: where Go's saturates, its comparison with `maxSilence` is the same.
-- A Kubernetes object is given by what the code reads of it, and `hash` is the sum of hash/fnv.
pub mod Stream
pub mod Independence
pub mod Identity
pub mod Streams
mod Tests
use plumbing.Prelude.{
  ℕ, Bool, true, false, not, ◌&&◌, Option, none, some, List, [], ◌∷◌, String, string_Comparable,
  nat_eq, lookup, insert, ℤ, pos, ◌-ℤ◌, ltb_ℤ, leb_ℤ, if◌then◌else◌, join, ◌+++◌, codes,
}

-- `eventState`
pub record EventState : Type 0 where
  pub signature : ℕ
  pub first_suppressed_at : ℕ

-- `runtime.Object`: its Go type, its kind, and its namespace, name and UID where `meta.Accessor`
-- accepts it.
pub record Object : Type 0 where
  pub type_name : String
  pub gvk : String
  pub accessor : Option (String × String × String)

-- `ThrottledRecorder`, without the recorder that it wraps
pub record ThrottledRecorder : Type 0 where
  pub max_silence : ℤ
  pub signatures : List (String × EventState)

-- 5 * time.Minute
abbrev pub default_max_silence : ℤ
default_max_silence = pos 300_000_000_000

pub new_state_aware_recorder_with_max_silence : ℤ → ThrottledRecorder
new_state_aware_recorder_with_max_silence max = record { max_silence = max; signatures = [] }

pub new_state_aware_recorder : ThrottledRecorder
unfolding new_state_aware_recorder_with_max_silence
new_state_aware_recorder = new_state_aware_recorder_with_max_silence default_max_silence

pub new_throttled_recorder : ℕ → ThrottledRecorder
unfolding new_state_aware_recorder
new_throttled_recorder publish_n = new_state_aware_recorder

pub object_key : Option Object → String
object_key none = "<nil>"
object_key (some o) = elim o.accessor [
  | none ↦ join "|" (o.type_name ∷ o.gvk ∷ [])
  | some (namespace, name, uid) ↦ join "|" (o.type_name ∷ o.gvk ∷ namespace ∷ name ∷ uid ∷ [])
]

pub event_key : Option Object → Option Object → String → String → String → String
unfolding object_key
event_key regarding related event_type reason action =
    join "|" (object_key regarding ∷ object_key related ∷ event_type ∷ reason ∷ action ∷ [])

-- The time of the first event that is kept back since the last one that went out.
pub suppressed_since : ℕ → EventState → ℕ
suppressed_since now state =
    if nat_eq state.first_suppressed_at 0 then now else state.first_suppressed_at

pub unchanged : ℤ → ℕ → EventState → EventState × Bool
unfolding suppressed_since
unchanged max now state =
    let first = suppressed_since now state in
    if ltb_ℤ (pos 0) max && leb_ℤ max (pos now -ℤ pos first)
    then (record state { first_suppressed_at = 0 }, true)
    else (record state { first_suppressed_at = first }, false)

-- The state that is stored for a stream, and whether its event goes out.
pub observe : ℤ → ℕ → ℕ → Option EventState → EventState × Bool
unfolding unchanged
observe max sig now none = (record { signature = sig; first_suppressed_at = 0 }, true)
observe max sig now (some state) =
    if nat_eq state.signature sig
    then unchanged max now state
    else (record { signature = sig; first_suppressed_at = 0 }, true)

-- An event with its message, and what the wrapped recorder is sent.
pub record Event : Type 0 where
  pub regarding : Option Object
  pub related : Option Object
  pub event_type : String
  pub reason : String
  pub action : String
  pub message : String

module _ (hash : String → ℕ) where
  pub eventf : ℕ → Event → ThrottledRecorder → ThrottledRecorder × Option Event
  unfolding event_key observe
  eventf now event t =
      let key =
        event_key event.regarding event.related event.event_type event.reason event.action in
      let (state, should_publish) =
        observe t.max_silence (hash event.message) now (lookup key t.signatures) in
      (
        record t { signatures = insert key state t.signatures },
        if should_publish then some event else none,
      )

pub reset : ThrottledRecorder → ThrottledRecorder
reset t = record t { signatures = [] }

abbrev has_prefix : List ℕ → List ℕ → Bool
has_prefix [] k = true
has_prefix (a ∷ prefix) [] = false
has_prefix (a ∷ prefix) (b ∷ k) = nat_eq a b && has_prefix prefix k

pub forget_all : String → List (String × EventState) → List (String × EventState)
forget_all prefix [] = []
forget_all prefix ((k, state) ∷ entries) =
    let rest = forget_all prefix entries in
    if has_prefix (codes prefix) (codes k) then rest else (k, state) ∷ rest

pub forget : Option Object → ThrottledRecorder → ThrottledRecorder
unfolding object_key forget_all
forget regarding t = record t {
  signatures = forget_all (object_key regarding +++ "|") t.signatures;
}
