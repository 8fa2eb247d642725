-- ===== src/Tree.antt =====
-- lib/argustree.c: root paths, and the walk that adds watches below them.
pub mod Roots
pub mod Rename
pub mod Walk
pub mod Preserve
pub mod Totality
pub mod Kernel
pub mod Settled
pub mod Subtree
pub mod Validate
pub mod Follow
pub mod RootStat
use argusd.Base.{
  ℕ, zero, suc, ◌+◌, ◌-◌, ◌<◌, ℤ, pos, negsuc, eof, int_eq, Bool, true, false, not, ◌&&◌, ◌||◌,
  Option, none, some, List, [], ◌∷◌, ◌++◌, Text, str_eq, strn_eq, char_at, format_path, bit_or, ltb,
  ◌==◌, length, get_elem?, set, take, drop, if◌then◌else◌, ◌>>=◌,
}
use argusd.Watch.{Watch, Stat, has, aw_only_dir, aw_recursive}
use argusd.Inotify
use argusd.Os.{Os}
use argusd.Table.{World, mark_cache_slot_empty}

abbrev pub enoent : ℕ
enoent = 2

abbrev pub path_max : ℕ
path_max = 4096

-- What a function given to `nftw` under FTW_ACTIONRETVAL returns.
abbrev pub ftw_continue : ℤ
ftw_continue = pos 0

abbrev pub ftw_stop : ℤ
ftw_stop = pos 1

abbrev pub ftw_skip_subtree : ℤ
ftw_skip_subtree = pos 2

abbrev pub ftw_skip_siblings : ℤ
ftw_skip_siblings = pos 3

-- The loop of `find_root_path` and `find_root_stat` over the first `rootpathc` roots: the index
-- of the first that is not NULL and equals `path`.
unfoldable pub root_index : List (Option Text) → Text → ℕ → Option ℕ
root_index [] path i = none
root_index (none ∷ roots) path i = root_index roots path (suc i)
root_index (some root ∷ roots) path i =
    if str_eq path root then some i else root_index roots path (suc i)

-- `find_root_path`; the index stands for the address `&rootpaths[i]`.
unfoldable pub find_root_path : Watch → Text → Option ℕ
unfolding root_index
find_root_path watch path = root_index (take watch.rootpathc watch.rootpaths) path 0

-- `remove_root_path`
unfoldable pub remove_root_path : Watch → Text → Watch
remove_root_path watch path = elim (find_root_path watch path) [
  | none ↦ watch
  | some p ↦ record watch {
    rootpaths = set watch.rootpaths p none;
    rootpathc = watch.rootpathc - 1;
  }
]

-- The test of `rewrite_cached_paths` and `remove_subtree`: is `path` the directory `dir` or below?
unfoldable pub is_below : Text → Text → Bool
is_below dir path =
    let len = length dir in
    strn_eq len dir path && (char_at path len == b'/' || char_at path len == 0)

-- One round of the loop of `rewrite_cached_paths`.
unfoldable pub rewrite_path : Text → Text → Text → Text
unfolding is_below
rewrite_path fullpath newpf path =
    if is_below fullpath path
    then format_path (suc path_max) newpf (drop (length fullpath) path)
    else path

-- The loop of `rewrite_cached_paths` over the first `pathc` paths.
unfoldable pub rewrite_paths : ℕ → Text → Text → List Text → List Text
unfolding rewrite_path
rewrite_paths zero fullpath newpf paths = paths
rewrite_paths (suc n) fullpath newpf [] = []
rewrite_paths (suc n) fullpath newpf (path ∷ paths) =
    rewrite_path fullpath newpf path ∷ rewrite_paths n fullpath newpf paths

-- `rewrite_cached_paths`
unfoldable pub rewrite_cached_paths : Watch → Text → Text → Text → Text → Watch
unfolding rewrite_paths
rewrite_cached_paths watch oldpathpf oldname newpathpf newname =
    let fullpath = format_path path_max oldpathpf oldname in
    let newpf = format_path path_max newpathpf newname in
    record watch { paths = rewrite_paths watch.pathc fullpath newpf watch.paths }

-- The last loop of `should_ignore_path`, which has no test for NULL: is `path` a root?
unfoldable pub in_roots : List (Option Text) → Text → Option Bool
in_roots [] path = some false
in_roots (none ∷ roots) path = none
in_roots (some root ∷ roots) path = if str_eq path root then some true else in_roots roots path

-- `should_ignore_path`
unfoldable pub should_ignore_path : (Text → Option Stat) → Watch → Text → Option Bool
should_ignore_path lstat watch path = elim (lstat path) [
  | none ↦ some true
  | some sb ↦
      if sb.is_dir
      then some false
      else if has watch.flags aw_only_dir
      then some true
      else (do root ← in_roots (take watch.rootpathc watch.rootpaths) path; some (not root))
]

-- The flags that `watch_path` adds to the mask of the watcher.
unfoldable pub watch_flags : Watch → Text → ℕ
watch_flags watch path =
    let flags =
      bit_or (bit_or (bit_or Inotify.create Inotify.moved_from) Inotify.moved_to)
        Inotify.delete_self in
    let flags₁ = if has watch.flags aw_only_dir then bit_or flags Inotify.only_dir else flags in
    elim (find_root_path watch path) [ none ↦ flags₁ | some p ↦ bit_or flags₁ Inotify.move_self ]

-- `&path[base]` is one of the ignored names.
unfoldable pub is_ignored : List Text → Text → Bool
is_ignored [] name = false
is_ignored (pattern_name ∷ ignores) name = str_eq name pattern_name || is_ignored ignores name

-- `max_depth && level + 1 > max_depth`
unfoldable pub too_deep : ℤ → ℕ → Bool
too_deep (pos max_depth) level = not (max_depth == 0) && ltb max_depth (level + 1)
too_deep (negsuc n) level = true

module _ (os : Os) where
  -- A watch with the state of the system; `none` after a fault.
  abbrev pub Run : Type 0
  Run = Option (Watch × os.State)

  -- The end of `watch_path`: `wd` and `paths` are reallocated to one more than `pathc`. A failing
  -- `realloc` has put NULL in the array.
  unfoldable pub append_entry : Watch → ℤ → Text → os.State → ℤ × Watch × os.State
  append_entry watch wd path sys =
      let (ok₁, sys₁) = os.allocate sys in
      let (ok₂, sys₂) = os.allocate sys₁ in
      let wds = take watch.pathc watch.wd ++ (wd ∷ []) in
      if not ok₁
      then (eof, record watch { wd = [] }, sys₁)
      else if not ok₂
      then (eof, record watch { wd = wds; paths = [] }, sys₂)
      else (
        pos 0,
        record watch {
          wd = wds;
          paths = take watch.pathc watch.paths ++ (path ∷ []);
          pathc = watch.pathc + 1;
        },
        sys₂,
      )

  -- `watch_path`
  unfoldable pub watch_path : Watch → Text → os.State → Option (ℤ × Watch × os.State)
  watch_path watch path sys =
      let mask = bit_or watch.event_mask (watch_flags watch path) in
      let (wd, sys₁) = os.inotify_add_watch sys watch.fd path mask in
      should_ignore_path (os.lstat sys) watch path >>= λ ignored.
      if ignored
      then some (pos 0, watch, sys)
      else if int_eq wd eof
      then some (if os.errno sys₁ == enoent then pos 0 else eof, watch, sys₁)
      else some (append_entry watch wd path sys₁)

  -- `traverse_tree`
  unfoldable pub traverse_tree : Text → Stat → ℕ → ℕ → Run → ℤ × Run
  traverse_tree path sb base level none = (ftw_stop, none)
  traverse_tree path sb base level (some (watch, sys)) =
      if has watch.flags aw_only_dir && not sb.is_dir
      then (ftw_continue, some (watch, sys))
      else if is_ignored (take watch.ignorec watch.ignores) (drop base path)
      then (ftw_skip_subtree, some (watch, sys))
      else if too_deep watch.max_depth level
      then (ftw_skip_siblings, some (watch, sys))
      else elim (watch_path watch path sys) [
        | none ↦ (ftw_stop, none)
        | some (result, watch', sys') ↦ (result, some (watch', sys'))
      ]

  -- `watch_path_recursive`. No caller uses its result, `pathc`.
  unfoldable pub watch_path_recursive : Watch → Text → os.State → Run
  watch_path_recursive watch path sys = os.nftw Run sys traverse_tree path (some (watch, sys))

  -- The body of the loop of `watch_subtree`, for a root that is not NULL.
  unfoldable pub watch_root : Watch → Text → os.State → Run
  watch_root watch root sys =
      if has watch.flags aw_recursive
      then watch_path_recursive watch root sys
      else (watch_path watch root sys >>= λ (_, watch', sys'). some (watch', sys'))

  -- The loop of `watch_subtree` over the roots. A NULL root is a fault in `nftw`; `lstat` fails on
  -- it, so that `watch_path` passes it over.
  unfoldable pub watch_roots : List (Option Text) → Watch → os.State → Run
  watch_roots [] watch sys = some (watch, sys)
  watch_roots (none ∷ roots) watch sys =
      let rest = watch_roots roots watch sys in if has watch.flags aw_recursive then none else rest
  watch_roots (some root ∷ roots) watch sys = do
    (watch', sys') ← watch_root watch root sys
    watch_roots roots watch' sys'

  -- `watch_subtree`
  unfoldable pub watch_subtree : Watch → os.State → Run
  watch_subtree watch sys = watch_roots (take watch.rootpathc watch.rootpaths) watch sys

  -- The loop of `remove_subtree` over the entries from index `i` on. It marks cell `i` of
  -- `wlcache`, as the source does.
  unfoldable pub remove_entries :
      ℤ → Text → List ℤ → List Text → ℕ → ℕ → World os → Option (ℤ × World os)
  remove_entries fd path [] paths i cnt w = some (pos cnt, w)
  remove_entries fd path (wd ∷ wds) [] i cnt w = some (pos cnt, w)
  remove_entries fd path (wd ∷ wds) (q ∷ paths) i cnt w =
      let skip = remove_entries fd path wds paths (suc i) cnt w in
      let (failed, sys) = os.inotify_rm_watch w.sys fd wd in
      let go = λ (w' : World os). remove_entries fd path wds paths (suc i) (cnt + 1) w' in
      if is_below path q
      then (if int_eq failed eof
          then some (eof, record w { sys = sys })
          else mark_cache_slot_empty os (record w { sys = sys }) i >>= go)
      else skip

  -- `remove_subtree` on the watch at `p`
  unfoldable pub remove_subtree : World os → ℕ → Text → Option (ℤ × World os)
  remove_subtree w p path = do
    watch ← get_elem? w.heap p
    remove_entries watch.fd path (take watch.pathc watch.wd) (take watch.pathc watch.paths) 0 0 w
