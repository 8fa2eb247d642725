-- ===== src/Lib.antt =====
-- argusd watches directories of containers with inotify. Its C library, in lib/, has one cache per
-- watcher, a struct arguswatch: parallel arrays of watch descriptors and paths. The table wlcache
-- holds all the watchers. A walk over the roots (nftw) adds a watch for each directory; each inotify
-- event is reported to the daemon and then used to keep the cache true to the file system, and a
-- cache that cannot be kept is rebuilt. The daemon, in src/, is a gRPC service: it makes a request
-- into the arguments of watchers, starts each in a thread, stops them by a signal on an eventfd,
-- logs their events, and answers for its health.
--
--   Watch.antt: lib/argusutil.h, struct arguswatch as a record. A string is the list of its bytes
--     without the NUL, a NULL pointer is `none`, -1 is `eof`.
--   Os.antt, Inotify.antt: the system calls and libc as an interface over an unknown state, and the
--     bits of sys/inotify.h. Memory that is never exhausted, descriptors that are always given,
--     an eventfd that counts as in eventfd(2), and a walk that touches the caller's data by its
--     calls alone, are hypotheses where a theorem needs them.
--   Cache.antt: lib/arguscache.c on one watch: check_cache_consistency, remove_item_from_cache,
--     find_watch, find_watch_checked, wd_to_path_name, path_name_to_cache_slot, clear_watch.
--   Table.antt: lib/arguscache.c on wlcache: find_cached_slot, mark_cache_slot_empty,
--     find_empty_cache_slot, add_watch_to_cache. A pointer is an index into a heap of watches.
--   Tree.antt: lib/argustree.c: the roots, watch_path, traverse_tree, watch_subtree,
--     rewrite_cached_paths, remove_subtree; Tree/Follow.antt has find_replace_root_path, and
--     Tree/Validate.antt has validate_root_paths.
--   Notify.antt: lib/argusnotify.c: reinitialize and its parts and send_watcher_kill_signal in
--     Notify/Reinit.antt, process_next_inotify_event in Notify/Event.antt, process_inotify_events in
--     Notify/Loop.antt, start_inotify_watcher in Notify/Start.antt. Tree/Kernel.antt sets the cache
--     against the watches of the kernel as in inotify(7), Tree/Settled.antt is about a walk during
--     which no file changes, and Notify/Order.antt follows both through reinitialize and the start
--     of a watcher. Notify/Journal.antt, Notify/Reports.antt and Notify/Truth.antt set the calls of
--     the log function against the events. Notify/Sound.antt has what every operation keeps, and
--     Notify/Sound/Reachable.antt has the operations as steps. Notify/Lifecycle.antt has the end of
--     a watcher.
--   Service.antt: src/argusd_impl.cc and src/health_impl.cc. Service/Subject.antt has the arguments
--     of a watcher, Service/Log.antt has logArgusWatchEvent, Service/Watchers.antt has CreateWatch,
--     DestroyWatch, GetWatchState and RecordMetrics with the cleanup threads, Service/Health.antt
--     has HealthImpl, and Service/Server.antt has main of src/argusd_server.cc. Service/Starts.antt
--     and Service/Watchers/Stop.antt join the daemon to the library.
--   Base.antt: integers, bits, lists and strings. Tests.antt: the theorems at concrete data.
--
-- State is passed on explicitly. `none` as the result of an operation is a fault: NULL or an index
-- out of bounds is used, or an assertion fails. The loops recur on the lists they run over; the loop
-- of check_cache_consistency takes pathc rounds at most, since each raises its index or lowers pathc,
-- and has that fuel. The loop over the event buffer has the number of its bytes as fuel, since
-- every round moves on by one byte or more. The loop of start_inotify_watcher is endless, and the
-- model has its first n rounds, for any n. A number printed has no more digits than its size, and a
-- regular expression is replaced at most once per character; these are the fuel there. Counts are
-- natural numbers: the arrays are far below 2^32 items. Sizes of buffers, PATH_MAX and the increment
-- of the table are those of the source.
--
-- A thread is what it leaves: CreateWatch records the watchers that it starts and their cleanup
-- threads, and what the other threads do while it waits is a function. The watch that
-- start_inotify_watcher makes for a new watcher stays alive, although its lifetime in C ends with
-- the block.
--
-- Not modelled: the freeing of strings, the prints under DEBUG, the result of start_inotify_watcher,
-- which is whether errno is 0, the streams of gRPC, and the set-up of flags and logging by their
-- libraries. The messages, the formatting library, the server library and the lookup of containers
-- are not part of the repository; they are records and parameters. Whether BuildAndStart gives a
-- server is one of these, and so is what a path leads to, which may change from state to state.
pub mod Base
pub mod Watch
pub mod Cache
pub mod Os
pub mod Inotify
pub mod Table
pub mod Tree
pub mod Notify
pub mod Service
mod Tests
