-- ===== src/Tree/Validate.antt =====
-- `validate_root_paths` of lib/argustree.c, which fills `rootstat`.
use argusd.Base.{false, Option, none, some, List, [], ◌∷◌, Text, take, if◌then◌else◌}
use argusd.Watch.{Watch, Stat}
use argusd.Os.{Os}

-- What `calloc` leaves where `lstat` fails.
abbrev pub no_stat : Stat
no_stat = record { st_ino = 0; st_dev = 0; is_dir = false }

-- `lstat(rootpaths[i], &rootstat[i])`, which fails on NULL.
unfoldable pub stat_of_root : (Text → Option Stat) → Option Text → Stat
stat_of_root lstat none = no_stat
stat_of_root lstat (some root) = elim (lstat root) [ none ↦ no_stat | some sb ↦ sb ]

-- The second loop, over the first `rootpathc` roots. Its inner loop over duplicates has no body
-- unless DEBUG is set, and so has the first loop.
unfoldable pub stat_roots : (Text → Option Stat) → List (Option Text) → List Stat
unfolding stat_of_root
stat_roots lstat [] = []
stat_roots lstat (root ∷ roots) = stat_of_root lstat root ∷ stat_roots lstat roots

module _ (os : Os) where
  -- `validate_root_paths`. A failing `calloc` leaves NULL in `rootstat`.
  unfoldable pub validate_root_paths : Watch → os.State → Watch × os.State
  unfolding stat_roots
  validate_root_paths watch sys =
      let (ok, sys₁) = os.allocate sys in
      let stats = stat_roots (os.lstat sys₁) (take watch.rootpathc watch.rootpaths) in
      if ok
      then (record watch { rootstat = stats }, sys₁)
      else (record watch { rootstat = [] }, sys₁)
