-- ===== src/Tests/Closing.antt =====
-- The end of a watcher where the state is the list of the descriptors that were closed.
use argusd.Base.{ℤ, pos, int_eq, Bool, true, false, ◌||◌, some, List, [], ◌∷◌}
use argusd.Os.{Os}
use argusd.Table.{World, blank_watch}
use argusd.Notify.Start.{Request}
use argusd.Tests.{unknown_event, digit, directory, sample}
use argusd.Tests.Start.{request}

abbrev closing : Os
closing = record {
  State = List ℤ;
  lstat = λ s path. some directory;
  allocate = λ s. (true, s);
  decimal = digit;
  errno = λ s. 2;
  inotify_init = λ s. (pos 3, s);
  eventfd = λ s. (pos 5, s);
  inotify_add_watch = λ s fd path mask. (pos 1, s);
  inotify_rm_watch = λ s fd wd. (pos 0, s);
  close = λ s fd. fd ∷ s;
  epoll_create = λ s. (pos 6, s);
  epoll_ctl_del = λ s efd fd. s;
  epoll_pwait = λ s buf efd. (some [], s);
  pthread_sigmask = λ s on. s;
  read_value = λ s fd. (some 9, s);
  epoll_ctl_add = λ s efd fd ev. s;
  read = λ s fd n. (some (32, λ off. unknown_event), s);
  sigaction = λ s. (pos 0, s);
  ualarm = λ s n. s;
  write = λ s fd n. s;
  logfn = λ s e. s;
  nftw = λ S s f path a. (f path directory 1 0 a).1;
}

abbrev was_closed : List ℤ → ℤ → Bool
was_closed [] fd = false
was_closed (d ∷ s) fd = int_eq d fd || was_closed s fd

abbrev one_world : World closing
one_world = record {
  heap = sample ∷ blank_watch ∷ [];
  wlcache = some 0 ∷ some 1 ∷ [];
  wlcachec = 2;
  sys = [];
}

abbrev again : Request
again = record request { pid = sample.pid; sid = sample.sid }
