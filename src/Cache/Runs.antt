-- ===== src/Cache/Runs.antt =====
-- Sequences of calls of a `TTLCache` and of rounds of its cleanup goroutine, in any order.
use plumbing.Prelude.{List, [], ◌∷◌, arith, Comparable, lookup, ℤ, Bool, true, false, if◌then◌else◌}
use plumbing.Cache.{
  TtlCache, TtlCacheOptions, set, get, remove, pop, keys, tick, halt, clear, close, new_ttl,
}
use plumbing.Cache.Steps.{
  IsValid, set-IsValid, get-IsValid, remove-IsValid, pop-IsValid, sweep-IsValid,
  keys_from-sweep_from,
}

-- A call with the clock readings that it makes, or a move of the cleanup goroutine.
pub data Call (K V : Type 0) : Type 0 where
  set_call : K → V → ℤ → ℤ → Call K V
  get_call pop_call : ℤ → K → Call K V
  remove_call : K → Call K V
  keys_call tick_call : (K → ℤ) → Call K V
  clear_call close_call halt_call : Call K V

module _ {K V : Type 0} ⦃e : Comparable K⦄ where
  unfoldable pub apply : Call K V → TtlCache K V → TtlCache K V
  apply (set_call k v now ttl) c = set k v now ttl c
  apply (get_call now k) c = (get now k c).0
  apply (pop_call now k) c = (pop now k c).0
  apply (remove_call k) c = remove k c
  apply (keys_call now) c = (keys now c).0
  apply (tick_call now) c = tick now c
  apply clear_call c = clear c
  apply close_call c = close c
  apply halt_call c = halt c

  unfoldable pub run : List (Call K V) → TtlCache K V → TtlCache K V
  unfolding apply
  run [] c = c
  run (call ∷ calls) c = run calls (apply call c)

  pub new_ttl-IsValid :
      (opts : List (TtlCacheOptions → TtlCacheOptions)) → IsValid (new_ttl {K = K} {V = V} opts)
  unfolding new_ttl lookup
  new_ttl-IsValid opts = record {
    linked = record {
      items_distinct = tt;
      order_distinct = tt;
      forward = λ k i p. ground arith;
      backward = λ n k p. absurd (ground arith);
      fresh = λ n k p. ground arith;
    };
    bounded = λ pos. omega arith;
  }

  pub clear-IsValid : (c : TtlCache K V) → IsValid (clear c)
  unfolding clear lookup
  clear-IsValid c = record {
    linked = record {
      items_distinct = tt;
      order_distinct = tt;
      forward = λ k i p. ground arith;
      backward = λ n k p. absurd (ground arith);
      fresh = λ n k p. ground arith;
    };
    bounded = λ pos. omega arith;
  }

  with_flags-IsValid :
      (c : TtlCache K V) (j s : Bool) → IsValid c → IsValid (record c { janitor = j; stopped = s })
  with_flags-IsValid c j s h = record {
    linked = record {
      items_distinct = h.linked.items_distinct;
      order_distinct = h.linked.order_distinct;
      forward = h.linked.forward;
      backward = h.linked.backward;
      fresh = h.linked.fresh;
    };
    bounded = h.bounded;
  }

  if-IsValid :
      (b : Bool) (c d : TtlCache K V) → IsValid c → IsValid d → IsValid (if b then c else d)
  if-IsValid true c d h h' = h
  if-IsValid false c d h h' = h'

  pub apply-IsValid : (call : Call K V) (c : TtlCache K V) → IsValid c → IsValid (apply call c)
  unfolding apply close
  apply-IsValid (set_call k v now ttl) c h = set-IsValid k v now ttl c h
  apply-IsValid (get_call now k) c h = get-IsValid now k c h
  apply-IsValid (pop_call now k) c h = pop-IsValid now k c h
  apply-IsValid (remove_call k) c h = remove-IsValid k c h
  apply-IsValid (keys_call now) c h =
      unfold keys in rw (keys_from-sweep_from now c.items c) (sweep-IsValid now c h)
  apply-IsValid (tick_call now) c h =
      unfold tick in if-IsValid c.janitor _ c (sweep-IsValid now c h) h
  apply-IsValid clear_call c h = clear-IsValid c
  apply-IsValid close_call c h = with_flags-IsValid c c.janitor _ h
  apply-IsValid halt_call c h =
      unfold halt in if-IsValid c.stopped _ c (with_flags-IsValid c _ c.stopped h) h

  run_from-IsValid :
      (calls : List (Call K V)) (c : TtlCache K V) → IsValid c → IsValid (run calls c)
  unfolding run
  run_from-IsValid [] c h = h
  run_from-IsValid (call ∷ calls) c h =
      run_from-IsValid calls (apply call c) (apply-IsValid call c h)

  -- After any sequence of calls and cleanup rounds on a new cache, the map and the recency list
  -- hold the same keys, each once, linked to one another, and with a positive limit the map holds
  -- at most that many entries.
  pub run-IsValid :
      (opts : List (TtlCacheOptions → TtlCacheOptions)) (calls : List (Call K V))
      → IsValid (run calls (new_ttl opts))
  run-IsValid opts calls = run_from-IsValid calls _ (new_ttl-IsValid opts)
