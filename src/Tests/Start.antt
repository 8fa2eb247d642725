-- ===== src/Tests/Start.antt =====
-- The start and the end of a watcher at concrete data. `counting` is a system with eventfds, whose
-- state is the counter of each descriptor.
use argusd.Base.{
  ℕ, ◌+◌, ◌*◌, ◌≡◌, refl, ℤ, pos, eof, int_eq, int_eq_ne, int_eq_refl, true, some, [], ◌∷◌, text,
  arith, if◌then◌else◌,
}
use argusd.Os.{Os}
use argusd.Watch.{Watch}
use argusd.Table.{World, blank_watch, find_slot_from, find_cached_slot}
use argusd.Table.Slots.{IsTable}
use argusd.Tree.Follow.{find_replace_root_path}
use argusd.Tree.RootStat.{HasStats, find_replace_root_path-total}
use argusd.Notify.Reinit.{reinitialize, send_watcher_kill_signal}
use argusd.Notify.Opens.{Opens, OpensWatch, reinitialize-IsOpen}
use argusd.Notify.Start.{Request}
use argusd.Notify.Lifecycle.{Reusable, finish_watch-reuse}
use argusd.Notify.Signals.{Eventfd, signals, send_watcher_kill_signal_lem}
use argusd.Cache.Arrays.{IsWf}
use argusd.Notify.Ends.{Quiet, Ends, send_watcher_kill_signal-Ends}
use argusd.Notify.Kill.{OneKillOnly, readable, send_watcher_kill_signal-twice}
use argusd.Tests.{
  unknown_event, digit, directory, small, small-Allocates, small-WalksByCalls, sample, sample-IsWf,
  world, world-IsTable,
}

pub small-Opens : Opens small
small-Opens = record { inotify_opens = λ s e. cc; eventfd_opens = λ s e. cc }

-- A watcher for another process.
abbrev pub request : Request
request = record {
  name = text "w";
  node_name = text "n";
  pod_name = text "p";
  pid = pos 9;
  sid = pos 0;
  paths = some (text "/s") ∷ [];
  pathc = 1;
  ignores = [];
  ignorec = 0;
  mask = 256;
  flags = 2;
  max_depth = pos 0;
  tags = [];
  log_format = [];
}

request_absent : find_cached_slot small world (pos 9) (pos 0) ≡ some eof
unfolding find_cached_slot find_slot_from
request_absent = refl

sample_found : find_cached_slot small world sample.pid sample.sid ≡ some (pos 0)
unfolding find_cached_slot find_slot_from
sample_found = refl

reopened : OpensWatch small world 0 sample.pid sample.sid (reinitialize small world 0)
reopened =
    reinitialize-IsOpen small small-Allocates small-WalksByCalls small-Opens world 0 sample
      world-IsTable refl sample-IsWf tt

sample_reused :
    (w' : World small) × Reusable small world 0 sample refl 0
      (record request { pid = sample.pid; sid = sample.sid })
      w'
sample_reused =
    finish_watch-reuse small world 0 sample refl 0
      (record request { pid = sample.pid; sid = sample.sid }) world-IsTable sample-IsWf refl
      sample_found refl refl

-- `sample` with the status of its root.
abbrev stated : Watch
stated = record sample { rootstat = directory ∷ [] }

stated-HasStats : HasStats stated
stated-HasStats = record { enough = omega arith }

root_found :
    (w' : World small) × (find_replace_root_path small
        (record world { heap = stated ∷ [] })
        0
        (text "/r")
      ≡ some w')
root_found =
    find_replace_root_path-total small (record world { heap = stated ∷ [] }) 0 stated (text "/r")
      refl stated-HasStats

abbrev pub counting : Os
counting = record {
  State = ℤ → ℕ;
  lstat = λ s path. some directory;
  allocate = λ s. (true, s);
  decimal = digit;
  errno = λ s. 2;
  inotify_init = λ s. (pos 3, s);
  eventfd = λ s. (pos 5, s);
  inotify_add_watch = λ s fd path mask. (pos 1, s);
  inotify_rm_watch = λ s fd wd. (pos 0, s);
  close = λ s fd. s;
  epoll_create = λ s. (pos 6, s);
  epoll_ctl_del = λ s efd fd. s;
  epoll_pwait = λ s buf efd. (some (readable (pos 11) ∷ []), s);
  pthread_sigmask = λ s on. s;
  read_value = λ s fd. (some (s fd), λ other. if int_eq other fd then 0 else s other);
  epoll_ctl_add = λ s efd fd ev. s;
  read = λ s fd n. (some (32, λ off. unknown_event), s);
  sigaction = λ s. (pos 0, s);
  ualarm = λ s n. s;
  write = λ s fd n other. if int_eq other fd then s fd + n else s other;
  logfn = λ s e. s;
  nftw = λ S s f path a. (f path directory 1 0 a).1;
}

abbrev pub counting-Eventfd : Eventfd counting
counting-Eventfd = record {
  counter = λ s fd. s fd;
  write_adds = λ s fd n h. rw (int_eq_refl fd) refl;
  write_elsewhere = λ s fd other n apart. rw (int_eq_ne other fd apart) refl;
  read_gives = λ s fd h. refl;
  read_resets = λ s fd. rw (int_eq_refl fd) refl;
}

-- `sample` with an eventfd, registered with nothing else.
abbrev pub killed : Watch
killed = record sample { processevtfd = pos 11 }

abbrev pub quiet : World counting
quiet = record {
  heap = killed ∷ blank_watch ∷ [];
  wlcache = some 0 ∷ some 1 ∷ [];
  wlcachec = 2;
  sys = λ fd. 0;
}

pub quiet-IsTable : IsTable quiet
quiet-IsTable = record { counted = refl; valid = (omega arith, (omega arith, tt)) }

one_signal : signals (pos 7) (pos 11) quiet.heap quiet.wlcache ≡ 1
unfolding signals
one_signal = refl

one_kill :
    (s : ℤ → ℕ) × (send_watcher_kill_signal counting quiet (pos 7)
      ≡ some (record quiet { sys = s }))
    × (s (pos 11) ≡ 0 + 9 * signals (pos 7) (pos 11) quiet.heap quiet.wlcache)
one_kill =
    send_watcher_kill_signal_lem counting counting-Eventfd quiet (pos 7) (pos 11) quiet-IsTable
      (omega (arith, one_signal))

send_watcher_kill_signal-twice_example : OneKillOnly counting counting-Eventfd quiet 0 killed
send_watcher_kill_signal-twice_example =
    send_watcher_kill_signal-twice counting counting-Eventfd quiet 0 killed quiet-IsTable refl
      (λ e. cc) refl one_signal

pub counting-Quiet : Quiet counting counting-Eventfd
counting-Quiet = record { pwait_keeps = λ s buffer efd fd. refl; sigmask_keeps = λ s on fd. refl }

pub killed_found : find_cached_slot counting quiet (pos 7) killed.sid ≡ some (pos 0)
unfolding find_cached_slot find_slot_from
killed_found = refl

pub killed-IsWf : IsWf killed
killed-IsWf = record { wd_allocated = omega arith; paths_allocated = omega arith }

abbrev pub restart : Request
restart = record request { pid = pos 7; sid = killed.sid }

send_watcher_kill_signal-Ends_example :
    Ends counting counting-Eventfd quiet 0 killed 0 restart true refl
send_watcher_kill_signal-Ends_example =
    send_watcher_kill_signal-Ends counting counting-Eventfd counting-Quiet quiet 0 killed 0 restart
      true [] quiet-IsTable killed-IsWf refl refl killed_found refl refl (λ e. cc) refl one_signal
      (λ s e. refl)
