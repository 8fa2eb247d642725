-- ===== src/Tests/Cache.antt =====
-- The cache and the table of watches at concrete data.
use argusd.Base.{
  ℕ, ◌<◌, ◌≡◌, ◌≢◌, refl, ◌⊎◌, pos, eof, some, [], ◌∷◌, text, str_eq, get_elem?, arith,
}
use argusd.Tests.{stat_of, small, small-Allocates, sample, sample-IsWf, other, world, world-IsTable}
use argusd.Watch.{has}
use argusd.Table.{World, find_slot_from, find_cached_slot}
use argusd.Cache.{
  is_consistent, check_cache_consistency, find_watch, find_watch_checked, path_name_to_cache_slot,
}
use argusd.Cache.Arrays.{entries}
use argusd.Cache.Consistency.{entries-check_cache_consistency}
use argusd.Cache.Lookup.{Finds, find_watch_cases, path_name_to_cache_slot_cases}
use argusd.Table.Slots.{mark_cache_slot_empty_lem, Marked}
use argusd.Table.Growth.{find_empty_cache_slot_lem, Free}
use argusd.Table.Register.{add_watch_to_cache_lem, Registered}

entries-check_cache_consistency_example :
    entries (check_cache_consistency stat_of sample)
    ≡ (pos 1, text "/r") ∷ (pos 3, text "/r/a") ∷ (pos 4, text "/r/ab") ∷ []
unfolding is_consistent has str_eq
entries-check_cache_consistency_example = entries-check_cache_consistency stat_of sample sample-IsWf

find_watch_cases_example :
    (find_watch_checked sample (pos 3) ≡ find_watch sample (pos 3)) × Finds sample (pos 3)
find_watch_cases_example = find_watch_cases sample (pos 3) sample-IsWf

cell_blanked : (w' : World small) × Marked small small-Allocates world 1 w'
cell_blanked = mark_cache_slot_empty_lem small small-Allocates world 1 world-IsTable (omega arith)

slot_of_r_a :
    ((i : ℕ) × (path_name_to_cache_slot sample (text "/r/a") ≡ pos i)
      × (i < sample.pathc)
      × (get_elem? sample.paths i ≡ some (text "/r/a"))
      × ((j : ℕ) → j < i → get_elem? sample.paths j ≢ some (text "/r/a")))
    ⊎ ((path_name_to_cache_slot sample (text "/r/a") ≡ eof)
        × ((sample.slot ≡ eof)
            ⊎ ((j : ℕ) → j < sample.pathc → get_elem? sample.paths j ≢ some (text "/r/a"))))
slot_of_r_a = path_name_to_cache_slot_cases sample (text "/r/a")

find_empty_cache_slot_lem_example :
    (i : ℕ) × (w' : World small) × Free small small-Allocates world i w'
find_empty_cache_slot_lem_example =
    find_empty_cache_slot_lem small small-Allocates world world-IsTable

other_absent : find_cached_slot small world other.pid other.sid ≡ some eof
unfolding find_cached_slot find_slot_from
other_absent = refl

add_watch_to_cache_lem_example :
    (i : ℕ) × (w' : World small) × Registered small small-Allocates world 1 other i w'
add_watch_to_cache_lem_example =
    add_watch_to_cache_lem small small-Allocates world 1 other world-IsTable refl other_absent
