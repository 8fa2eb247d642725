-- ===== src/Tests.antt =====
-- The theorems at concrete data: a small system on which every directory can be watched, and a
-- watch on "/r" with the two directories "/r/a" and "/r/ab" in it.
pub mod Cache
pub mod Tree
pub mod Notify
pub mod Start
pub mod Journal
pub mod Kernel
pub mod Order
pub mod Told
mod Reachable
mod Closing
pub mod Service
pub mod Daemon
use argusd.Base.{
  ℕ, zero, suc, ◌+◌, ◌≡◌, refl, ◌⊎◌, inl, inr, ℤ, pos, negsuc, eof, Bool, true, false, Option, none,
  some, List, [], ◌∷◌, Text, text, str_eq, get_elem?, select, arith, if◌then◌else◌,
}
use argusd.Watch.{Watch, Stat, has}
use argusd.Inotify
use argusd.Inotify.{Event}
use argusd.Os.{Os, Allocates, WalksByCalls}
use argusd.Cache.{is_consistent, check_cache_consistency, find_watch, find_watch_checked}
use argusd.Cache.Arrays.{entries, IsWf}
use argusd.Cache.Consistency.{keeps, entries-check_cache_consistency}
use argusd.Cache.Lookup.{Finds, find_watch_cases}
use argusd.Table.{World, blank_watch, find_cached_slot}
use argusd.Table.Slots.{IsTable, mark_cache_slot_empty_lem, Marked}

abbrev pub directory : Stat
directory = record { st_ino = 1; st_dev = 1; is_dir = true }

-- Every path but "/r/gone" is a directory; the state is the next descriptor.
abbrev pub stat_of : Text → Option Stat
stat_of path = if str_eq path (text "/r/gone") then none else some directory

abbrev pub digit : ℤ → Text
digit (pos n) = (48 + n) ∷ []
digit (negsuc n) = text "-"

-- No watch has its descriptor.
abbrev pub unknown_event : Event
unknown_event = record { wd = pos 9; mask = 256; cookie = 0; len = 0; name = [] }

abbrev pub small : Os
small = record {
  State = ℕ;
  lstat = λ s path. stat_of path;
  allocate = λ s. (true, s);
  decimal = digit;
  errno = λ s. 2;
  inotify_init = λ s. (pos s, suc s);
  eventfd = λ s. (pos s, suc s);
  inotify_add_watch = λ s fd path mask. (pos s, suc s);
  inotify_rm_watch = λ s fd wd. (pos 0, s);
  close = λ s fd. s;
  epoll_create = λ s. (pos s, suc s);
  epoll_ctl_del = λ s efd fd. s;
  epoll_pwait = λ s buf efd. (some (record { data_fd = pos 7; events = 1 } ∷ []), s);
  pthread_sigmask = λ s on. s;
  read_value = λ s fd. (some 9, s);
  epoll_ctl_add = λ s efd fd ev. s;
  read = λ s fd n. (some (32, λ off. unknown_event), s);
  sigaction = λ s. (pos 0, s);
  ualarm = λ s n. s;
  write = λ s fd n. s;
  logfn = λ s e. s;
  nftw = λ S s f path a. (f path directory 1 0 a).1;
}

pub small-Allocates : Allocates small
small-Allocates s = refl

pub small-WalksByCalls : WalksByCalls small
small-WalksByCalls S P s f path a step h = step path directory 1 0 a h

abbrev pub sample : Watch
sample = record blank_watch {
  rootpaths = some (text "/r") ∷ [];
  rootpathc = 1;
  wd = pos 1 ∷ pos 2 ∷ pos 3 ∷ pos 4 ∷ [];
  paths = text "/r" ∷ text "/r/gone" ∷ text "/r/a" ∷ text "/r/ab" ∷ [];
  pathc = 4;
  event_mask = 256;
  flags = 2;
  pid = pos 7;
  slot = pos 0;
  fd = pos 3;
}

pub sample-IsWf : IsWf sample
sample-IsWf = record { wd_allocated = omega arith; paths_allocated = omega arith }

abbrev pub other : Watch
other = record sample { pid = pos 8; slot = eof }

-- `sample` is registered, `other` is not yet; the three last cells are not in use.
abbrev pub world : World small
world = record {
  heap = sample ∷ other ∷ blank_watch ∷ [];
  wlcache = some 0 ∷ some 2 ∷ some 2 ∷ some 2 ∷ [];
  wlcachec = 4;
  sys = 5;
}

pub world-IsTable : IsTable world
world-IsTable = record {
  counted = refl;
  valid = (omega arith, (omega arith, (omega arith, (omega arith, tt))));
}
