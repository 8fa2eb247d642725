-- ===== src/Tree/Follow.antt =====
-- lib/argustree.c: a root that was moved is looked for by its inode, below /proc/[pid]/root.
use argusd.Base.{
  ℕ, ◌+◌, ◌-◌, ℤ, Option, none, some, [], ◌∷◌, ◌++◌, Text, text, length, get_elem?, set, take, drop,
  ◌==◌, if◌then◌else◌, ◌>>=◌,
}
use argusd.Watch.{Watch, Stat}
use argusd.Os.{Os}
use argusd.Table.{World}
use argusd.Tree.{path_max, ftw_continue, ftw_stop, root_index, find_root_path}

-- `find_root_stat`; the index stands for the address `&rootstat[i]`.
unfoldable pub find_root_stat : Watch → Text → Option ℕ
unfolding root_index
find_root_stat watch path = root_index (take watch.rootpathc watch.rootpaths) path 0

module _ (os : Os) where
  -- `pidc_`, a buffer of 8 bytes.
  abbrev pidc : ℤ → Text
  pidc pid = take 7 (os.decimal pid)

  -- `traverse_root`: the state of the walk is `foundpath_`.
  unfoldable pub traverse_root : ℤ → Stat → Text → Stat → ℕ → ℕ → Text → ℤ × Text
  traverse_root pid rootstat path sb base level found =
      if rootstat.st_ino == sb.st_ino
      then (
        ftw_stop,
        take (path_max - 1) (
            text "/proc/"
            ++ (os.decimal pid ++ (text "/root" ++ drop (length (pidc pid) + 13) path))),
      )
      else (ftw_continue, found)

  -- The end of `find_replace_root_path`: root `i` gets the path that was found, if one was. Whether
  -- `realloc` succeeds makes no difference, since its result is freed.
  unfoldable pub replace_root : World os → ℕ → Watch → ℕ → Text → Option (World os)
  replace_root w p watch i [] = some w
  replace_root w p watch i (c ∷ found) = some (record w {
    heap = set w.heap p (record watch { rootpaths = set watch.rootpaths i (some (c ∷ found)) });
    sys = (os.allocate w.sys).1;
  })

  -- `find_replace_root_path` with what the two searches gave.
  unfoldable pub replace_found : World os → ℕ → Watch → Option ℕ → Option ℕ → Option (World os)
  replace_found w p watch none stat = some w
  replace_found w p watch (some i) none = some w
  replace_found w p watch (some i) (some j) = do
    rootstat ← get_elem? watch.rootstat j
    let procpath = text "/proc/" ++ (os.decimal watch.pid ++ text "/root/.")
    replace_root w p watch i (os.nftw Text w.sys (traverse_root watch.pid rootstat) procpath [])

  -- `find_replace_root_path` on the watch at `p`
  unfoldable pub find_replace_root_path : World os → ℕ → Text → Option (World os)
  find_replace_root_path w p path = do
    watch ← get_elem? w.heap p
    replace_found w p watch (find_root_path watch path) (find_root_stat watch path)
