-- ===== src/Tests/Journal.antt =====
-- Rounds of the loop at concrete data. The state of `journaling` is the journal of its log function.
use argusd.Base.{
  ◌≡◌, ◌≢◌, refl, ℤ, pos, eof, true, some, List, [], ◌∷◌, ◌++◌, text, ltb, arith, length,
  if◌then◌else◌,
}
use argusd.Inotify.{Event, Buffer}
use argusd.Os.{Os}
use argusd.Watch.{WatchEvent, has}
use argusd.Cache.{first_index, find_watch, find_watch_checked}
use argusd.Table.{World, blank_watch}
use argusd.Notify.Kill.{readable}
use argusd.Notify.Loop.{process_inotify_events}
use argusd.Notify.Start.{running, wait_rounds}
use argusd.Notify.Stream.{IsQuiet, AllQuiet, size, log_wanted, process_inotify_events-log_wanted}
use argusd.Notify.Journal.{
  Journal, Gives, Delivers, none_left, one_more, wanted_batches, wait_rounds-Delivers,
}
use argusd.Tests.{digit, directory, sample}

-- A file "a" is created in the directory with the descriptor.
abbrev pub file_created : ℤ → Event
file_created wd = record { wd = wd; mask = 256; cookie = 0; len = 16; name = text "a" }

pub file_created-IsQuiet : (wd : ℤ) → wd ≢ eof → IsQuiet (file_created wd)
unfolding has
file_created-IsQuiet wd ne = record {
  described = ne;
  no_directory = refl;
  no_delete = refl;
  no_move = refl;
  no_overflow = refl;
  no_unmount = refl;
  no_move_self = refl;
}

-- The descriptor 9 is not cached.
abbrev pub three_events : List Event
three_events = file_created (pos 3) ∷ file_created (pos 1) ∷ file_created (pos 9) ∷ []

abbrev three_buffer : Buffer
three_buffer off =
    if ltb off 32
    then file_created (pos 3)
    else if ltb off 64
    then file_created (pos 1)
    else file_created (pos 9)

abbrev pub journaling : Os
journaling = record {
  State = List WatchEvent;
  lstat = λ s path. some directory;
  allocate = λ s. (true, s);
  decimal = digit;
  errno = λ s. 2;
  inotify_init = λ s. (pos 3, s);
  eventfd = λ s. (pos 5, s);
  inotify_add_watch = λ s fd path mask. (pos 1, s);
  inotify_rm_watch = λ s fd wd. (pos 0, s);
  close = λ s fd. s;
  epoll_create = λ s. (pos 6, s);
  epoll_ctl_del = λ s efd fd. s;
  epoll_pwait = λ s buf efd. (some (readable (pos 3) ∷ []), s);
  pthread_sigmask = λ s on. s;
  read_value = λ s fd. (some 9, s);
  epoll_ctl_add = λ s efd fd ev. s;
  read = λ s fd n. (some (96, three_buffer), s);
  sigaction = λ s. (pos 0, s);
  ualarm = λ s n. s;
  write = λ s fd n. s;
  logfn = λ s e. s ++ (e ∷ []);
  nftw = λ S s f path a. (f path directory 1 0 a).1;
}

abbrev journal : Journal journaling
journal = record {
  entries = λ s. s;
  logfn_appends = λ s e. refl;
  sigaction_keeps = λ s. refl;
  read_keeps = λ s fd n. refl;
  pwait_keeps = λ s buffer efd. refl;
  sigmask_keeps = λ s on. refl;
}

abbrev empty_journal : World journaling
empty_journal = record {
  heap = sample ∷ blank_watch ∷ [];
  wlcache = some 0 ∷ some 1 ∷ [];
  wlcachec = 2;
  sys = [];
}

three-AllQuiet : AllQuiet three_events
three-AllQuiet = (
  file_created-IsQuiet (pos 3) (λ e. cc),
  (file_created-IsQuiet (pos 1) (λ e. cc), (file_created-IsQuiet (pos 9) (λ e. cc), tt)),
)

three_size : size three_events ≡ 96
unfolding size
three_size = refl

three_given : (s : List WatchEvent) → Gives journaling sample true s three_events s
unfolding size
three_given s = record {
  waited = s;
  reported = refl;
  acted = λ e. cc;
  buf = three_buffer;
  got = refl;
  quiet = three-AllQuiet;
  held = (refl, (refl, (refl, tt)));
  fits = omega arith;
}

-- What two rounds leave.
abbrev after_one : List WatchEvent
after_one = log_wanted journaling sample three_events []

abbrev after_two : List WatchEvent
after_two = log_wanted journaling sample three_events after_one

two_delivered : Delivers journaling sample true [] (three_events ∷ three_events ∷ []) after_two
two_delivered =
    one_more three_events [] (three_given [])
      (one_more three_events after_one (three_given after_one) none_left)

two_rounds :
    (wait_rounds journaling 2 true empty_journal 0
      ≡ some (running (record empty_journal { sys = after_two })))
    × (after_two ≡ [] ++ wanted_batches journaling sample (three_events ∷ three_events ∷ []))
two_rounds =
    wait_rounds-Delivers journaling journal empty_journal 0 sample true
      (three_events ∷ three_events ∷ []) after_two refl two_delivered

-- The third event is lost.
two_logged : length after_one ≡ 2
unfolding log_wanted find_watch_checked find_watch first_index has
two_logged = refl

process_inotify_events-log_wanted_example :
    process_inotify_events journaling empty_journal 0
    ≡ some (record empty_journal { sys = after_one })
unfolding size
process_inotify_events-log_wanted_example =
    process_inotify_events-log_wanted journaling 0 sample empty_journal [] three_events three_buffer
      refl (λ e. cc) refl three-AllQuiet (refl, (refl, (refl, tt))) (omega arith)
