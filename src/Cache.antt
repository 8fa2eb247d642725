-- ===== src/Cache.antt =====
-- lib/arguscache.c, the part that works on one watch: the parallel arrays `wd` and `paths`.
-- The table of watches, `wlcache`, is in Table.antt.
pub mod Arrays
pub mod Consistency
pub mod Scan
pub mod Lookup
use argusd.Base.{
  ℕ, zero, suc, ◌+◌, ◌-◌, ℤ, pos, eof, int_eq, Bool, true, false, not, ◌&&◌, Option, none, some,
  List, [], ◌∷◌, Text, str_eq, ltb, ◌==◌, get_elem?, set, take, if◌then◌else◌,
}
use argusd.Watch.{Watch, Stat, has, aw_only_dir}

-- `clear_watch`. What `free` does to the strings is not modelled: the program does not read them
-- again, since `pathc` is 0.
unfoldable pub clear_watch : Watch → Watch
clear_watch watch =
    if int_eq watch.slot eof
    then watch
    else record watch { pathc = 0; fd = eof; processevtfd = eof }

-- `xs[i] = xs[i + 1]`. A read out of bounds changes nothing here; `IsWf` excludes it.
abbrev pub copy_down {ℓ} : {A : Type ℓ} → ℕ → List A → List A
copy_down i xs = elim (get_elem? xs (suc i)) [ none ↦ xs | some v ↦ set xs i v ]

-- The loop of `remove_item_from_cache` on one array, with the rounds left.
unfoldable pub shift_down {ℓ} : {A : Type ℓ} → ℕ → ℕ → List A → List A
shift_down zero i xs = xs
shift_down (suc n) i xs = shift_down n (suc i) (copy_down i xs)

-- `remove_item_from_cache`
unfoldable pub remove_item_from_cache : Watch → ℕ → Watch
remove_item_from_cache watch index =
    let n = watch.pathc - 1 - index in
    record watch {
      wd = shift_down n index watch.wd;
      paths = shift_down n index watch.paths;
      pathc = watch.pathc - 1;
    }

-- The tests of `check_cache_consistency` on one path: an empty path is skipped, otherwise `lstat`
-- must succeed and, under AW_ONLYDIR, give a directory.
unfoldable pub is_consistent : (Text → Option Stat) → ℕ → Text → Bool
is_consistent lstat flags [] = true
is_consistent lstat flags (c ∷ path) = elim (lstat (c ∷ path)) [
  | none ↦ false
  | some sb ↦ not (has flags aw_only_dir && not sb.is_dir)
]

-- `paths[i]`
unfoldable pub path_at : Watch → ℕ → Text
path_at watch i = elim (get_elem? watch.paths i) [ none ↦ [] | some path ↦ path ]

-- The loop of `check_cache_consistency`; each round raises `i` or lowers `pathc`.
unfoldable pub check_loop : (Text → Option Stat) → ℕ → ℕ → Watch → Watch
unfolding path_at is_consistent remove_item_from_cache shift_down
check_loop lstat zero i watch = watch
check_loop lstat (suc fuel) i watch =
    let next = check_loop lstat fuel (suc i) watch in
    let again = check_loop lstat fuel i (remove_item_from_cache watch i) in
    if ltb i watch.pathc
    then (if is_consistent lstat watch.flags (path_at watch i) then next else again)
    else watch

-- `check_cache_consistency`. The loop takes `pathc` rounds at most.
unfoldable pub check_cache_consistency : (Text → Option Stat) → Watch → Watch
unfolding check_loop
check_cache_consistency lstat watch = check_loop lstat watch.pathc 0 watch

-- The loop that `find_watch` and `path_name_to_cache_slot` share: the first element that passes.
unfoldable pub first_index {ℓ} : {A : Type ℓ} → (A → Bool) → List A → ℕ → ℤ
first_index test [] i = eof
first_index test (x ∷ xs) i = if test x then pos i else first_index test xs (suc i)

-- `find_watch`
unfoldable pub find_watch : Watch → ℤ → ℤ
unfolding first_index
find_watch watch wd =
    if int_eq watch.slot eof
    then eof
    else first_index (λ d. int_eq d wd) (take watch.pathc watch.wd) 0

-- `find_watch_checked`
unfoldable pub find_watch_checked : Watch → ℤ → ℤ
unfolding find_watch
find_watch_checked watch wd = elim (find_watch watch wd) [ pos slot ↦ pos slot | _ ↦ eof ]

-- `path_name_to_cache_slot`
unfoldable pub path_name_to_cache_slot : Watch → Text → ℤ
unfolding first_index
path_name_to_cache_slot watch path =
    if int_eq watch.slot eof
    then eof
    else first_index (λ p. str_eq p path) (take watch.pathc watch.paths) 0

-- The loop of `wd_to_path_name` over the two arrays.
unfoldable pub path_of_wd : ℤ → List ℤ → List Text → Text
path_of_wd wd [] paths = []
path_of_wd wd (d ∷ ds) [] = []
path_of_wd wd (d ∷ ds) (path ∷ paths) = if int_eq d wd then path else path_of_wd wd ds paths

-- `wd_to_path_name`
unfoldable pub wd_to_path_name : Watch → ℤ → Text
unfolding path_of_wd
wd_to_path_name watch wd = path_of_wd wd (take watch.pathc watch.wd) (take watch.pathc watch.paths)
