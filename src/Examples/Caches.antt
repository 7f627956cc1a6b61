-- ===== src/Examples/Caches.antt =====
-- The theorems on the cache at three calls.
use kvarteret_personal.Prelude.{
  ℕ, ◌≤◌, ◌<◌, ◌≡◌, refl, none, some, List, [], ◌∷◌, String, arith, max, length, String_key,
}
use kvarteret_personal.Cache.{
  CacheCall, get_call, set_call, init_cache, delete_entry, assign_entry, move_to_end, evict, get,
  set, pop, force_expire, clear, cache_step, run_cache,
}
use kvarteret_personal.Cache.History.{remember, get-run_cache}
use kvarteret_personal.Cache.Recent.{set-get}
use kvarteret_personal.Cache.Bounds.{Distinct, run_cache-IsValid}

abbrev three_calls : List (ℕ × CacheCall String ℕ)
three_calls = (1, set_call "a" 10) ∷ (2, set_call "b" 20) ∷ (3, get_call "a") ∷ []

abbrev two_reads : List (ℕ × CacheCall String ℕ)
two_reads = (2, set_call "b" 20) ∷ (3, get_call "a") ∷ []

-- With room for two, a third key evicts the one that was used longest ago.
evicts_b : (get 5 "b" (set 4 "c" 30 (run_cache three_calls (init_cache 60 2)))).0 ≡ none
unfolding run_cache cache_step init_cache get set pop force_expire clear delete_entry assign_entry
    move_to_end evict
evicts_b = refl

get-run_cache_example :
    (expires_at : ℕ) × (remember (max 1 60) three_calls (λ q. none) "a" ≡ some (10, expires_at))
    × (5 < expires_at)
unfolding run_cache cache_step init_cache get set pop force_expire clear delete_entry assign_entry
    move_to_end evict
get-run_cache_example = get-run_cache three_calls 60 2 5 "a" 10 refl

run_cache-IsValid_example :
    Distinct (run_cache three_calls (init_cache 60 2)).entries
    × (length (run_cache three_calls (init_cache 60 2)).entries ≤ max 1 2)
run_cache-IsValid_example = run_cache-IsValid three_calls 60 2

set-get_example : (get 9 "a" (run_cache two_reads (set 1 "a" 10 (init_cache 60 3)))).0 ≡ some 10
unfolding init_cache
set-get_example =
    set-get 1 9 "a" 10 two_reads (init_cache 60 3) ((omega arith, refl), ((omega arith, refl), tt))
      (omega arith) (omega arith)
