-- ===== src/Cache.antt =====
-- cache/cache.go: `TTLCache`, a bounded map whose entries expire, with its recency list.
-- An element of `container/list` is a number that is handed out once; the list keeps, front first,
-- each element with its value, so that `MoveToFront` and `Remove` go by the element as in Go.
-- A method takes the readings of the clock as arguments; the mutex makes each method one step.
pub mod Invariant
pub mod Steps
pub mod Runs
pub mod Lookup
mod Recency
mod Refinement
mod Tests
use plumbing.Prelude.{
  ℕ, suc, Bool, true, false, not, ◌&&◌, Option, none, some, List, [], ◌∷◌, ◌++◌, ltb, Comparable,
  length, lookup, insert, delete, nat_Comparable, ℤ, pos, negsuc, ◌+ℤ◌, ltb_ℤ, if◌then◌else◌,
}

-- `item`
pub record Item (V : Type 0) : Type 0 where
  pub value : V
  pub expiry : ℤ
  pub elem : ℕ

-- `ttlCacheOptions`
pub record TtlCacheOptions : Type 0 where
  pub cleanup_interval : ℕ
  pub max_entries : ℕ

pub with_cleanup_interval : ℤ → TtlCacheOptions → TtlCacheOptions
with_cleanup_interval (pos interval) opts = record opts { cleanup_interval = interval }
with_cleanup_interval (negsuc _) opts = opts

pub with_max_entries : ℤ → TtlCacheOptions → TtlCacheOptions
with_max_entries (pos n) opts = record opts { max_entries = n }
with_max_entries (negsuc _) opts = opts

-- `TTLCache`; `next` is the number of the next list element, `stopped` says that `stopCh` is closed
-- and `janitor` that the cleanup goroutine runs.
pub record TtlCache (K V : Type 0) : Type 0 where
  pub items : List (K × Item V)
  pub order : List (ℕ × K)
  pub next : ℕ
  pub max_entries : ℕ
  pub janitor : Bool
  pub stopped : Bool

-- `time.Duration` in nanoseconds
abbrev default_options : TtlCacheOptions
default_options = record { cleanup_interval = 5_000_000_000; max_entries = 0 }

pub apply_options : List (TtlCacheOptions → TtlCacheOptions) → TtlCacheOptions → TtlCacheOptions
apply_options [] cfg = cfg
apply_options (opt ∷ opts) cfg = apply_options opts (opt cfg)

pub new_ttl : {K V : Type 0} → List (TtlCacheOptions → TtlCacheOptions) → TtlCache K V
unfolding apply_options
new_ttl opts =
    let cfg = apply_options opts default_options in
    record {
      items = [];
      order = [];
      next = 0;
      max_entries = cfg.max_entries;
      janitor = ltb 0 cfg.cleanup_interval;
      stopped = false;
    }

pub is_expired : {V : Type 0} → ℤ → Item V → Bool
is_expired now i = ltb_ℤ i.expiry now

-- `list.MoveToFront`
pub move_to_front : {K : Type 0} → ℕ → List (ℕ × K) → List (ℕ × K)
move_to_front elem order = elim (lookup elem order) [
  | none ↦ order
  | some k ↦ (elem, k) ∷ delete elem order
]

-- `list.Back`, with the value of the element
pub back : {K : Type 0} → List (ℕ × K) → Option K
back [] = none
back ((_, k) ∷ []) = some k
back (_ ∷ e ∷ order) = back (e ∷ order)

module _ {K V : Type 0} ⦃e : Comparable K⦄ where
  pub remove_entry : K → Item V → TtlCache K V → TtlCache K V
  remove_entry key entry c = record c {
    items = delete key c.items;
    order = delete entry.elem c.order;
  }

  pub remove_found : K → Option (Item V) → TtlCache K V → TtlCache K V
  unfolding remove_entry
  remove_found key none c = c
  remove_found key (some entry) c = remove_entry key entry c

  pub evict_key : Option K → TtlCache K V → TtlCache K V
  unfolding remove_found
  evict_key none c = c
  evict_key (some key) c = remove_found key (lookup key c.items) c

  pub evict_oldest : TtlCache K V → TtlCache K V
  unfolding evict_key back
  evict_oldest c = evict_key (back c.order) c

  -- the new element in front, and the new entry in the map
  pub push_entry : K → V → ℤ → TtlCache K V → TtlCache K V
  push_entry key value expiry c = record c {
    items = insert key (record { value = value; expiry = expiry; elem = c.next }) c.items;
    order = (c.next, key) ∷ c.order;
    next = suc c.next;
  }

  pub over_full : TtlCache K V → Bool
  over_full c = ltb 0 c.max_entries && ltb c.max_entries (length c.items)

  pub set : K → V → ℤ → ℤ → TtlCache K V → TtlCache K V
  unfolding push_entry over_full move_to_front
  set key value now ttl c = elim (lookup key c.items) [
    | some current ↦ record c {
      items = insert key (record current { value = value; expiry = now +ℤ ttl }) c.items;
      order = move_to_front current.elem c.order;
    }
    | none ↦
        let pushed = push_entry key value (now +ℤ ttl) c in
        if over_full pushed then evict_oldest pushed else pushed
  ]

  -- The value is `none` where Go returns the zero value.
  pub get : ℤ → K → TtlCache K V → TtlCache K V × Option V × Bool
  unfolding remove_entry move_to_front is_expired
  get now key c = elim (lookup key c.items) [
    | none ↦ (c, none, false)
    | some entry ↦
        if is_expired now entry
        then (remove_entry key entry c, some entry.value, false)
        else (record c { order = move_to_front entry.elem c.order }, some entry.value, true)
  ]

  pub remove : K → TtlCache K V → TtlCache K V
  unfolding remove_found
  remove key c = remove_found key (lookup key c.items) c

  pub pop : ℤ → K → TtlCache K V → TtlCache K V × Option V × Bool
  unfolding remove_entry is_expired
  pop now key c = elim (lookup key c.items) [
    | none ↦ (c, none, false)
    | some entry ↦ (remove_entry key entry c, some entry.value, not (is_expired now entry))
  ]

  -- `range c.items`: the entries that stand in the map when the loop begins. Each test of an entry
  -- reads the clock again, so the reading depends on the key.
  pub keys_from : (K → ℤ) → List (K × Item V) → TtlCache K V → TtlCache K V × List K
  unfolding remove_entry is_expired
  keys_from now [] c = (c, [])
  keys_from now ((key, entry) ∷ rest) c =
      let (c', all) =
        keys_from now rest (if is_expired (now key) entry then remove_entry key entry c else c) in
      (c', (if is_expired (now key) entry then all else key ∷ all))

  pub keys : (K → ℤ) → TtlCache K V → TtlCache K V × List K
  keys now c = keys_from now c.items c

  pub sweep_from : (K → ℤ) → List (K × Item V) → TtlCache K V → TtlCache K V
  unfolding remove_entry is_expired
  sweep_from now [] c = c
  sweep_from now ((key, entry) ∷ rest) c =
      sweep_from now rest (if is_expired (now key) entry then remove_entry key entry c else c)

  -- One round of the cleanup goroutine, for a tick of its timer.
  pub tick : (K → ℤ) → TtlCache K V → TtlCache K V
  tick now c = if c.janitor then sweep_from now c.items c else c

  -- The other branch of its `select`: it returns once the channel is closed.
  pub halt : TtlCache K V → TtlCache K V
  halt c = if c.stopped then record c { janitor = false } else c

  pub clear : TtlCache K V → TtlCache K V
  clear c = record c { items = []; order = [] }

  pub close : TtlCache K V → TtlCache K V
  close c = record c { stopped = true }
