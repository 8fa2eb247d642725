-- ===== src/Tests/Told.antt =====
-- A new watcher from its start to the journal at concrete data.
use argusd.Base.{
  ℕ, str_eq, ◌≡◌, refl, pos, eof, true, false, some, List, [], ◌∷◌, ◌++◌, text, if◌then◌else◌, ◌==◌,
  arith,
}
use argusd.Cache.{is_consistent, path_at, check_loop, check_cache_consistency}
use argusd.Table.{
  World, find_slot_from, find_free_from, find_cached_slot, find_empty_cache_slot, assign, set_cell,
  add_watch_to_cache, blank_watch,
}
use argusd.Tree.{
  in_roots, should_ignore_path, watch_flags, append_entry, watch_path, watch_root,
  watch_path_recursive, traverse_tree, is_ignored, too_deep, watch_roots, watch_subtree,
}
use argusd.Tree.Validate.{stat_of_root, stat_roots, validate_root_paths}
use argusd.Notify.Reinit.{add_epoll_ctl_fds, register, finish, populate, begin, reinitialize}
use argusd.Inotify.{Event}
use argusd.Watch.{Watch, WatchEvent, has}
use argusd.Notify.Start.{
  Request, new_watch, running, find_or_create, prepare, serve, wait_rounds, start_inotify_watcher,
}
use argusd.Tests.{directory}
use argusd.Notify.Stream.{size, log_wanted}
use argusd.Notify.Journal.{Gives, Delivers, none_left, one_more}
use argusd.Notify.Reports.{AllTell}
use argusd.Notify.Truth.{EachOf}
use argusd.Notify.NewWatcher.{EpollOpens}
use argusd.Notify.Order.Start.{Waits, start_inotify_watcher-Waits}
use argusd.Notify.Order.Told.{start_inotify_watcher-AllTell}
use argusd.Tests.Journal.{file_created, file_created-IsQuiet}
use argusd.Tests.Order.{linux-Opens, linux-Fresh, linux_world-IsTable}
use argusd.Tests.Kernel.{
  linux_still, linux_kernel, linux-Allocates, linux-WalksByCalls, linux_journal, two_buffer, State,
  linux, linux_world, mirrored,
}

abbrev pub two_roots : Request
two_roots = record {
  name = text "w";
  node_name = text "n";
  pod_name = text "p";
  pid = pos 9;
  sid = pos 0;
  paths = some (text "/r") ∷ some (text "/r/a") ∷ [];
  pathc = 2;
  ignores = [];
  ignorec = 0;
  mask = 256;
  flags = 2;
  max_depth = pos 0;
  tags = [];
  log_format = [];
}

-- Its watch when it waits.
abbrev pub waiting : Watch
waiting = record (new_watch two_roots) {
  epollevt_fd = record { data_fd = pos 3; events = 1 };
  epollevt_processevtfd = record { data_fd = pos 5; events = 1 };
  rootpaths = two_roots.paths;
  rootpathc = 2;
  rootstat = directory ∷ directory ∷ [];
  paths = text "/r" ∷ text "/r/a" ∷ [];
  wd = pos 2 ∷ pos 4 ∷ [];
  pathc = 2;
  event_mask = 256;
  flags = 2;
  slot = pos 1;
  fd = pos 3;
  processevtfd = pos 5;
  efd = pos 6;
}

abbrev watching : State
watching = record {
  watched = λ n. if n == 4 then true else if n == 2 then true else false;
  told = [];
}

abbrev pub in_loop : World linux
in_loop = record linux_world {
  heap = mirrored ∷ blank_watch ∷ waiting ∷ [];
  wlcache = some 0 ∷ some 2 ∷ [];
  sys = watching;
}

pub begun : start_inotify_watcher linux 0 linux_world two_roots ≡ some (running in_loop)
unfolding start_inotify_watcher find_or_create prepare serve wait_rounds reinitialize begin populate
    finish register add_epoll_ctl_fds validate_root_paths stat_roots stat_of_root watch_subtree
    watch_roots watch_root watch_path append_entry watch_flags should_ignore_path in_roots
    add_watch_to_cache set_cell assign find_empty_cache_slot find_cached_slot find_free_from
    find_slot_from check_cache_consistency check_loop path_at is_consistent has str_eq
    watch_path_recursive traverse_tree is_ignored too_deep
begun = refl

abbrev pub batch : List Event
batch = file_created (pos 4) ∷ file_created (pos 2) ∷ []

abbrev batches : List (List (Event × ℕ))
batches = ((file_created (pos 4), 4) ∷ (file_created (pos 2), 2) ∷ []) ∷ []

given : Gives linux waiting true watching batch watching
unfolding size
given = record {
  waited = watching;
  reported = refl;
  acted = λ e. cc;
  buf = two_buffer;
  got = refl;
  quiet = (file_created-IsQuiet (pos 4) (λ e. cc), (file_created-IsQuiet (pos 2) (λ e. cc), tt));
  held = (refl, (refl, tt));
  fits = omega arith;
}

abbrev pub told_state : State
told_state = log_wanted linux waiting batch watching

pub delivered : Delivers linux waiting true watching (batch ∷ []) told_state
delivered = one_more batch watching given none_left

each_of : EachOf linux linux_kernel waiting watching batches
unfolding has
each_of = (
  (record { at_object = refl; asked = refl }, (record { at_object = refl; asked = refl }, tt)),
  tt,
)

two_roots_absent : find_cached_slot linux linux_world (pos 9) (pos 0) ≡ some eof
unfolding find_cached_slot find_slot_from
two_roots_absent = refl

linux-EpollOpens : EpollOpens linux
linux-EpollOpens s e = cc

start_inotify_watcher-Waits_example : Waits linux linux_kernel linux_world two_roots
start_inotify_watcher-Waits_example =
    start_inotify_watcher-Waits linux linux_kernel linux_still linux-Allocates linux-WalksByCalls
      linux-Opens linux-EpollOpens linux-Fresh linux_world two_roots linux_world-IsTable
      two_roots_absent tt

start_inotify_watcher-AllTell_example :
    (start_inotify_watcher linux 1 linux_world two_roots
      ≡ some (running (record in_loop { sys = told_state })))
    × (told : List WatchEvent) × (told_state.told ≡ [] ++ told)
    × AllTell linux linux_kernel waiting watching
        ((file_created (pos 4), 4) ∷ (file_created (pos 2), 2) ∷ [])
        told
start_inotify_watcher-AllTell_example =
    start_inotify_watcher-AllTell linux linux_kernel linux_still linux-Allocates linux-WalksByCalls
      linux-Opens linux-EpollOpens linux-Fresh linux_journal linux_world two_roots
      linux_world-IsTable two_roots_absent tt in_loop waiting batches told_state begun refl each_of
      delivered
