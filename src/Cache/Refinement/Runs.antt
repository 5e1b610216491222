-- ===== src/Cache/Refinement/Runs.antt =====
-- Sequences of calls and cleanup rounds, on a `TTLCache` and on the list of its entries.
use mathlib.Core.Path.{subst}
use plumbing.Prelude.{
  ℕ, ltb, ◌≡◌, refl, ap, ◌∙◌, Bool, true, false, List, [], ◌∷◌, Comparable, delete, ℤ, ◌+ℤ◌,
  if◌then◌else◌, length, lookup, arith,
}
use plumbing.Cache.{
  Item, set, TtlCache, TtlCacheOptions, apply_options, default_options, new_ttl, keys, tick, halt,
  clear, close, sweep_from,
}
use plumbing.Cache.Steps.{IsValid, keys_from-sweep_from}
use plumbing.Cache.Runs.{
  Call, set_call, get_call, pop_call, remove_call, keys_call, tick_call, clear_call, close_call,
  halt_call, apply, run, new_ttl-IsValid, apply-IsValid, clear-IsValid,
}
use plumbing.Cache.Lookup.{content}
use plumbing.Cache.Recency.{Entries, recent_set, recent_get, unexpired}
use plumbing.Cache.Recency.Keys.{values_of}
use plumbing.Cache.Refinement.{Refines}
use plumbing.Cache.Refinement.Setting.{set-Refines}
use plumbing.Cache.Refinement.Reading.{get-Refines, remove-Refines, pop-Refines}
use plumbing.Cache.Refinement.Sweeping.{sweep-Refines}
use plumbing.Cache.Refinement.Settings.{
  settings, set-settings, get-settings, pop-settings, remove-settings, sweep_from-settings,
}

-- The entries, the limit, and the flags of the cleanup goroutine and of `Close`.
pub record Recent (K V : Type 0) : Type 0 where
  pub entries : Entries K V
  pub limit : ℕ
  pub cleaning : Bool
  pub closed : Bool

module _ {K V : Type 0} ⦃e : Comparable K⦄ where
  pub recent_apply : Call K V → Recent K V → Recent K V
  recent_apply (set_call k v now ttl) r = record r {
    entries = recent_set r.limit k v (now +ℤ ttl) r.entries;
  }
  recent_apply (get_call now k) r = record r { entries = recent_get now k r.entries }
  recent_apply (pop_call now k) r = record r { entries = delete k r.entries }
  recent_apply (remove_call k) r = record r { entries = delete k r.entries }
  recent_apply (keys_call now) r = record r { entries = unexpired now r.entries }
  recent_apply (tick_call now) r =
      if r.cleaning then record r { entries = unexpired now r.entries } else r
  recent_apply clear_call r = record r { entries = [] }
  recent_apply close_call r = record r { closed = true }
  recent_apply halt_call r = if r.closed then record r { cleaning = false } else r

  unfoldable pub recent_run : List (Call K V) → Recent K V → Recent K V
  unfolding recent_apply
  recent_run [] r = r
  recent_run (call ∷ calls) r = recent_run calls (recent_apply call r)

  unfoldable pub recent_new : List (TtlCacheOptions → TtlCacheOptions) → Recent K V
  unfolding apply_options
  recent_new opts =
      let cfg = apply_options opts default_options in
      record {
        entries = [];
        limit = cfg.max_entries;
        cleaning = ltb 0 cfg.cleanup_interval;
        closed = false;
      }

  abbrev pub Abstracts : TtlCache K V → Recent K V → Type 0
  Abstracts c r = Refines c r.entries × (settings c ≡ (r.limit, r.cleaning, r.closed))

  same_flags-Refines :
      (c : TtlCache K V) (l : Entries K V) (j s : Bool)
      → Refines c l
      → Refines (record c { janitor = j; stopped = s }) l
  same_flags-Refines c l j s r = record {
    linked = record {
      items_distinct = r.linked.items_distinct;
      order_distinct = r.linked.order_distinct;
      forward = r.linked.forward;
      backward = r.linked.backward;
      fresh = r.linked.fresh;
    };
    same_order = r.same_order;
    same_content = r.same_content;
    distinct = r.distinct;
    same_length = r.same_length;
  }

  empty-Refines : (c : TtlCache K V) → IsValid c → c.items ≡ [] → c.order ≡ [] → Refines c []
  unfolding lookup
  empty-Refines c h no_items no_order = record {
    linked = h.linked;
    same_order = ap values_of no_order;
    same_content = λ k. ap (λ (l : List (K × Item V)). content (lookup k l)) no_items;
    distinct = tt;
    same_length = ap length no_items;
  }

  swept-Abstracts :
      (now : K → ℤ) (c : TtlCache K V) (r : Recent K V)
      → IsValid c
      → Abstracts c r
      → Abstracts (sweep_from now c.items c) (record r { entries = unexpired now r.entries })
  swept-Abstracts now c r h a =
      (sweep-Refines now c r.entries h a.0, sweep_from-settings now c.items c ∙ a.1)

  -- A step that is taken on a flag which both sides have.
  if-Abstracts :
      (b d : Bool) (c c' : TtlCache K V) (r r' : Recent K V)
      → b ≡ d
      → Abstracts c r
      → Abstracts c' r'
      → Abstracts (if b then c' else c) (if d then r' else r)
  if-Abstracts true true c c' r r' same a a' = a'
  if-Abstracts false false c c' r r' same a a' = a
  if-Abstracts true false c c' r r' same a a' = absurd (ground (arith, same))
  if-Abstracts false true c c' r r' same a a' = absurd (ground (arith, same))

  apply-Abstracts :
      (call : Call K V) (c : TtlCache K V) (r : Recent K V)
      → IsValid c
      → Abstracts c r
      → Abstracts (apply call c) (recent_apply call r)
  unfolding apply recent_apply
  apply-Abstracts (set_call k v now ttl) c r h a = (
    subst (λ n. Refines (set k v now ttl c) (recent_set n k v (now +ℤ ttl) r.entries))
        (ap (λ s. s.0) a.1) (set-Refines c r.entries k v now ttl h a.0),
    set-settings k v now ttl c ∙ a.1,
  )
  apply-Abstracts (get_call now k) c r h a =
      (get-Refines c r.entries now k h a.0, get-settings now k c ∙ a.1)
  apply-Abstracts (pop_call now k) c r h a =
      (pop-Refines c r.entries now k h a.0, pop-settings now k c ∙ a.1)
  apply-Abstracts (remove_call k) c r h a =
      (remove-Refines c r.entries k h a.0, remove-settings k c ∙ a.1)
  apply-Abstracts (keys_call now) c r h a =
      unfold keys in rw (keys_from-sweep_from now c.items c) (swept-Abstracts now c r h a)
  apply-Abstracts (tick_call now) c r h a =
      unfold tick in
      if-Abstracts c.janitor r.cleaning c _ r _ (ap (λ s. s.1) a.1) a (swept-Abstracts now c r h a)
  apply-Abstracts clear_call c r h a =
      unfold clear in (empty-Refines (clear c) (clear-IsValid c) refl refl, a.1)
  apply-Abstracts close_call c r h a =
      unfold close in
      (same_flags-Refines c r.entries c.janitor true a.0, ap (λ s. (s.0, s.1, true)) a.1)
  apply-Abstracts halt_call c r h a =
      unfold halt in
      if-Abstracts c.stopped r.closed c _ r _ (ap (λ s. s.2) a.1) a
        (same_flags-Refines c r.entries false c.stopped a.0, ap (λ s. (s.0, false, s.2)) a.1)

  run_from-Abstracts :
      (calls : List (Call K V)) (c : TtlCache K V) (r : Recent K V)
      → IsValid c
      → Abstracts c r
      → Abstracts (run calls c) (recent_run calls r)
  unfolding run recent_run
  run_from-Abstracts [] c r h a = a
  run_from-Abstracts (call ∷ calls) c r h a =
      run_from-Abstracts calls (apply call c) (recent_apply call r) (apply-IsValid call c h)
        (apply-Abstracts call c r h a)

  -- For any options and any sequence of calls and cleanup rounds on a new cache, the cache stands for
  -- the list of entries that the same calls make of the empty list. A `Set` puts its entry in front
  -- and drops the last one past the limit, a `Get` moves an unexpired entry to the front and
  -- drops an expired one, `Remove` and `Pop` take the key out, a cleanup round and `Keys` keep the
  -- unexpired entries in order. Standing for it means that the recency list has the same keys in the same order,
  -- and the map the same value and expiry for each key and as many entries; the limit, the
  -- cleanup goroutine and the closing agree too.
  pub run-Abstracts :
      (opts : List (TtlCacheOptions → TtlCacheOptions)) (calls : List (Call K V))
      → Abstracts (run calls (new_ttl opts)) (recent_run calls (recent_new opts))
  unfolding recent_new new_ttl
  run-Abstracts opts calls =
      run_from-Abstracts calls _ (recent_new opts) (new_ttl-IsValid opts)
        (empty-Refines _ (new_ttl-IsValid opts) refl refl, refl)
