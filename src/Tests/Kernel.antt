-- ===== src/Tests/Kernel.antt =====
-- The cache against the kernel at concrete data. In `linux` a path leads to the object that is the
-- number of its bytes, which is its descriptor too; the state has what is watched, and a journal.
use argusd.Base.{
  ℕ, ◌≡◌, ◌≢◌, refl, ap, ◌⊎◌, inl, inr, ℤ, pos, negsuc, eof, Bool, true, false, ◌||◌, Bool-cases,
  Option, none, some, List, [], ◌∷◌, ◌++◌, Text, text, length, ltb, ◌==◌, arith, if◌then◌else◌,
}
use argusd.Inotify.{Event, Buffer}
use argusd.Os.{Os, Allocates, WalksByCalls}
use argusd.Watch.{Watch, WatchEvent, has}
use argusd.Table.{World, blank_watch}
use argusd.Tree.{watch_subtree}
use argusd.Tree.Preserve.{Reaches}
use argusd.Tree.Kernel.{Kernel, Unmoved, Still, InOrder, watch_subtree-InOrder}
use argusd.Notify.Kill.{readable}
use argusd.Notify.Start.{running, wait_rounds}
use argusd.Notify.Stream.{size, log_wanted}
use argusd.Notify.Journal.{Journal, Gives, Delivers, none_left, one_more}
use argusd.Notify.Reports.{AllTell}
use argusd.Notify.Truth.{EachOf, wait_rounds-AllTell}
use argusd.Tests.{digit, directory, sample}
use argusd.Tests.Journal.{file_created, file_created-IsQuiet}

pub record State : Type 0 where
  pub watched : ℕ → Bool
  pub told : List WatchEvent

abbrev pub two_buffer : Buffer
two_buffer off = if ltb off 32 then file_created (pos 4) else file_created (pos 2)

abbrev pub linux : Os
linux = record {
  State = State;
  lstat = λ s path. some directory;
  allocate = λ s. (true, s);
  decimal = digit;
  errno = λ s. 2;
  inotify_init = λ s. (pos 3, record s { watched = λ n. false });
  eventfd = λ s. (pos 5, s);
  inotify_add_watch = λ s fd path mask. (
    pos (length path),
    record s { watched = λ n. if n == length path then true else s.watched n },
  );
  inotify_rm_watch = λ s fd wd. (pos 0, s);
  close = λ s fd. s;
  epoll_create = λ s. (pos 6, s);
  epoll_ctl_del = λ s efd fd. s;
  epoll_pwait = λ s buf efd. (some (readable (pos 3) ∷ []), s);
  pthread_sigmask = λ s on. s;
  read_value = λ s fd. (some 9, s);
  epoll_ctl_add = λ s efd fd ev. s;
  read = λ s fd n. (some (64, two_buffer), s);
  sigaction = λ s. (pos 0, s);
  ualarm = λ s n. s;
  write = λ s fd n. s;
  logfn = λ s e. record s { told = s.told ++ (e ∷ []) };
  nftw = λ S s f path a. (f path directory 1 0 a).1;
}

pub linux-Allocates : Allocates linux
linux-Allocates s = refl

pub linux-WalksByCalls : WalksByCalls linux
linux-WalksByCalls S P s f path a step h = step path directory 1 0 a h

abbrev pub mark_of : State → ℤ → ℤ → Option ℕ
mark_of s fd (pos n) = if s.watched n then some n else none
mark_of s fd (negsuc n) = none

abbrev pub linux_kernel : Kernel linux
linux_kernel = record {
  object = λ s. length;
  marked = mark_of;
  add_marks = λ s fd path mask ne.
      let same : (length path == length path) ≡ true = ground arith in rw same refl;
  add_reuses = reuses;
  add_keeps = keeps;
  refusal_keeps = λ s fd path mask wd e. cc;
  allocate_keeps = λ s fd wd. refl;
}
  where
    reuses :
        (s : State) (fd : ℤ) (path : Text) (mask o : ℕ)
        → mark_of s fd (pos (length path)) ≡ some o
        → o ≡ length path
    reuses s fd path mask o e = ground (arith, e)

    keeps :
        (s : State) (fd : ℤ) (path : Text) (mask : ℕ) (wd : ℤ)
        → wd ≢ pos (length path)
        → mark_of (record s { watched = λ n. if n == length path then true else s.watched n }) fd wd
          ≡ mark_of s fd wd
    keeps s fd path mask (pos n) ne = ground (arith, ne)
    keeps s fd path mask (negsuc n) ne = refl

unmoved : (s s' : State) → Unmoved linux linux_kernel s s'
unmoved s s' = record { same_lstat = refl; same_object = refl }

pub linux_still : Still linux linux_kernel
linux_still = record {
  add_still = λ s fd path mask. unmoved s _;
  allocate_still = λ s. unmoved s _;
  eventfd_still = λ s. unmoved s _;
  epoll_add_still = λ s efd other event. unmoved s _;
  epoll_create_still = λ s. unmoved s _;
  sigmask_still = λ s on. unmoved s _;
}

-- Two directories are watched and cached.
abbrev pub mirrored : Watch
mirrored = record sample {
  wd = pos 2 ∷ pos 4 ∷ [];
  paths = text "/r" ∷ text "/r/a" ∷ [];
  pathc = 2;
}

abbrev two_watched : State
two_watched = record { watched = λ n. n == 2 || n == 4; told = [] }

two_marks :
    (wd : ℤ) (o : ℕ) → mark_of two_watched (pos 3) wd ≡ some o → (pos 2 ≡ wd) ⊎ ((pos 4 ≡ wd) ⊎ ⊥)
two_marks (pos n) o e = elim (Bool-cases (n == 2)) [
  | inl two ↦ let same : 2 ≡ n = ground (arith, two) in inl (ap pos same)
  | inr not_two ↦ elim (Bool-cases (n == 4)) [
    | inl four ↦ let same : 4 ≡ n = ground (arith, four) in inr (inl (ap pos same))
    | inr not_four ↦ absurd (ground (arith, e, not_two, not_four))
  ]
]
two_marks (negsuc n) o e = cc

mirrored-InOrder : InOrder linux linux_kernel (pos 3) mirrored two_watched
mirrored-InOrder = record {
  wf = record { wd_allocated = omega arith; paths_allocated = omega arith };
  no_null = tt;
  instance_fd = refl;
  mirrors = record { sound = (refl, (refl, tt)); complete = two_marks };
}

watch_subtree-InOrder_example :
    Reaches linux (InOrder linux linux_kernel (pos 3)) (watch_subtree linux mirrored two_watched)
watch_subtree-InOrder_example =
    watch_subtree-InOrder linux linux_kernel linux_still linux-Allocates linux-WalksByCalls (pos 3)
      mirrored two_watched mirrored-InOrder

abbrev two_batches : List (List (Event × ℕ))
two_batches = ((file_created (pos 4), 4) ∷ (file_created (pos 2), 2) ∷ []) ∷ []

busy : mirrored.slot ≢ eof
busy e = cc

abbrev pub linux_world : World linux
linux_world = record {
  heap = mirrored ∷ blank_watch ∷ [];
  wlcache = some 0 ∷ some 1 ∷ [];
  wlcachec = 2;
  sys = two_watched;
}

abbrev after_two : State
after_two = log_wanted linux mirrored (file_created (pos 4) ∷ file_created (pos 2) ∷ []) two_watched

two_given :
    Gives linux mirrored true two_watched
      (file_created (pos 4) ∷ file_created (pos 2) ∷ [])
      two_watched
unfolding size
two_given = record {
  waited = two_watched;
  reported = refl;
  acted = λ e. cc;
  buf = two_buffer;
  got = refl;
  quiet = (file_created-IsQuiet (pos 4) (λ e. cc), (file_created-IsQuiet (pos 2) (λ e. cc), tt));
  held = (refl, (refl, tt));
  fits = omega arith;
}

two_delivered :
    Delivers linux mirrored true two_watched
      ((file_created (pos 4) ∷ file_created (pos 2) ∷ []) ∷ [])
      after_two
two_delivered =
    one_more (file_created (pos 4) ∷ file_created (pos 2) ∷ []) two_watched two_given none_left

abbrev pub linux_journal : Journal linux
linux_journal = record {
  entries = λ (s : State). s.told;
  logfn_appends = λ s e. refl;
  sigaction_keeps = λ s. refl;
  read_keeps = λ s fd n. refl;
  pwait_keeps = λ s buffer efd. refl;
  sigmask_keeps = λ s on. refl;
}

of_objects : EachOf linux linux_kernel mirrored two_watched two_batches
unfolding has
of_objects = (
  (record { at_object = refl; asked = refl }, (record { at_object = refl; asked = refl }, tt)),
  tt,
)

two_told :
    (wait_rounds linux 1 true linux_world 0
      ≡ some (running (record linux_world { sys = after_two })))
    × (told : List WatchEvent) × (after_two.told ≡ [] ++ told)
    × AllTell linux linux_kernel mirrored two_watched
        ((file_created (pos 4), 4) ∷ (file_created (pos 2), 2) ∷ [])
        told
two_told =
    wait_rounds-AllTell linux linux_kernel mirrored two_watched mirrored-InOrder busy linux_journal
      linux_world 0 true two_batches after_two refl of_objects two_delivered
