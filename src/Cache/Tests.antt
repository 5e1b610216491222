-- ===== src/Cache/Tests.antt =====
-- Runs of the cache on small inputs.
use plumbing.Prelude.{
  ℕ, String, string_Comparable, nat_Comparable, ◌≡◌, refl, true, not, some, none, List, [], ◌∷◌,
  ◌+ℤ◌, ltb_ℤ, pos, any, if◌then◌else◌, lookup, insert, delete,
}
use plumbing.Cache.{
  back, evict_oldest, TtlCache, TtlCacheOptions, with_max_entries, new_ttl, set, get, pop, keys,
}
use plumbing.Cache.Steps.{IsValid}
use plumbing.Cache.Runs.{Call, set_call, get_call, tick_call, run, run-IsValid}
use plumbing.Cache.Lookup.{
  stored, victim, is_victim, live, is_some, set-stored, get-set, answer, keys_lem,
}
use plumbing.Cache.Refinement.Runs.{Abstracts, recent_new, recent_run, run-Abstracts}
use plumbing.Cache.Refinement.Answers.{run-answer}

abbrev options : List (TtlCacheOptions → TtlCacheOptions)
options = with_max_entries (pos 2) ∷ []

-- "a" is read after "b" is set, so "b" is the last of the recency list.
abbrev calls : List (Call String ℕ)
calls =
    set_call "a" 1 (pos 10) (pos 5) ∷ set_call "b" 2 (pos 11) (pos 5) ∷ get_call (pos 12) "a" ∷ []

full : TtlCache String ℕ
full = run calls (new_ttl options)

full-IsValid : IsValid full
unfolding full
full-IsValid = run-IsValid options calls

least_recent_goes : stored "b" (set "c" 3 (pos 13) (pos 5) full) ≡ none
unfolding full run new_ttl with_max_entries set get lookup insert delete back ◌+ℤ◌ evict_oldest
least_recent_goes = refl

full_janitor : full.janitor ≡ true
unfolding full run new_ttl with_max_entries set get lookup insert delete back ◌+ℤ◌
full_janitor = refl

run-IsValid_example : IsValid (run (tick_call (λ k. pos 15) ∷ calls) (new_ttl options))
run-IsValid_example = run-IsValid options (tick_call (λ k. pos 15) ∷ calls)

set-stored_example : stored "b" (set "c" 3 (pos 13) (pos 5) full) ≡ (
    if string_Comparable.equal "c" "b"
    then some (3, pos 13 +ℤ pos 5)
    else if is_victim (victim "c" full) "b"
    then none
    else stored "b" full)
set-stored_example = set-stored "c" "b" 3 (pos 13) (pos 5) full full-IsValid

get-set_example :
    ((get (pos 14) "c" (set "c" 3 (pos 13) (pos 5) full)).1 ≡ some 3)
    × ((get (pos 14) "c" (set "c" 3 (pos 13) (pos 5) full)).2
        ≡ not (ltb_ℤ (pos 13 +ℤ pos 5) (pos 14)))
get-set_example = get-set "c" 3 (pos 13) (pos 5) (pos 14) full full-IsValid

keys_lem_example :
    any (λ k. string_Comparable.equal k "a") (keys (λ k. pos 16) full).1
    ≡ is_some (live (pos 16) (stored "a" full))
keys_lem_example = keys_lem (λ k. pos 16) "a" full full-IsValid

-- "c" throws out "b", and the entries are left in the order of their last use.
abbrev more_calls : List (Call String ℕ)
more_calls =
    set_call "a" 1 (pos 10) (pos 5)
    ∷ set_call "b" 2 (pos 11) (pos 5)
    ∷ get_call (pos 12) "a"
    ∷ set_call "c" 3 (pos 13) (pos 5)
    ∷ []

entries_left :
    (recent_run more_calls (recent_new options)).entries
    ≡ ("c", (3, pos 18)) ∷ ("a", (1, pos 15)) ∷ []
unfolding recent_run recent_new with_max_entries lookup insert delete ◌+ℤ◌
entries_left = refl

run-Abstracts_example :
    Abstracts (run more_calls (new_ttl options)) (recent_run more_calls (recent_new options))
run-Abstracts_example = run-Abstracts options more_calls

run-answer_example :
    ((get (pos 16) "a" (run more_calls (new_ttl options))).1
      ≡ (answer (pos 16) (lookup "a" (recent_run more_calls (recent_new options)).entries)).0)
    × ((get (pos 16) "a" (run more_calls (new_ttl options))).2
        ≡ (answer (pos 16) (lookup "a" (recent_run more_calls (recent_new options)).entries)).1)
    × ((pop (pos 16) "a" (run more_calls (new_ttl options))).1
        ≡ (answer (pos 16) (lookup "a" (recent_run more_calls (recent_new options)).entries)).0)
    × ((pop (pos 16) "a" (run more_calls (new_ttl options))).2
        ≡ (answer (pos 16) (lookup "a" (recent_run more_calls (recent_new options)).entries)).1)
run-answer_example = run-answer options more_calls (pos 16) "a"
