-- ===== src/Os.antt =====
-- What the program asks of the operating system and of libc, as an interface over an unknown state.
-- A call that returns -1 gives `eof`; a call whose result the sources do not use gives the state.
use argusd.Base.{ℕ, ◌≡◌, ℤ, Bool, true, Option, List, Text}
use argusd.Inotify.{Buffer}
use argusd.Watch.{Stat, EpollEvent, WatchEvent}

pub record Os : Type 1 where
  pub State : Type 0
  -- `lstat`, `none` where it fails.
  pub lstat : State → Text → Option Stat
  -- Whether the next `calloc` or `realloc` succeeds.
  pub allocate : State → Bool × State
  -- What `snprintf` prints for "%d".
  pub decimal : ℤ → Text
  pub errno : State → ℕ
  pub inotify_init : State → ℤ × State
  pub eventfd : State → ℤ × State
  pub inotify_add_watch : State → ℤ → Text → ℕ → ℤ × State
  pub inotify_rm_watch : State → ℤ → ℤ → ℤ × State
  pub close : State → ℤ → State
  pub epoll_create : State → ℤ × State
  pub epoll_ctl_add : State → ℤ → ℤ → EpollEvent → State
  pub epoll_ctl_del : State → ℤ → ℤ → State
  -- Whether there is a buffer for the events, and the epoll descriptor; `none` for -1.
  pub epoll_pwait : State → Bool → ℤ → Option (List EpollEvent) × State
  -- Whether SIGCHLD is blocked from then on.
  pub pthread_sigmask : State → Bool → State
  -- `read` of 8 bytes as a `uint64_t`, `none` for -1.
  pub read_value : State → ℤ → Option ℕ × State
  -- The number of bytes and what they hold, `none` for -1.
  pub read : State → ℤ → ℕ → Option (ℕ × Buffer) × State
  -- `sigaction` for the alarm, and `ualarm` with its microseconds.
  pub sigaction : State → ℤ × State
  pub ualarm : State → ℕ → State
  pub write : State → ℤ → ℕ → State
  -- The log function that the daemon passes in.
  pub logfn : State → WatchEvent → State
  -- `nftw` calls the function with a path, its `lstat`, and `base` and `level` of `struct FTW`.
  pub nftw : (S : Type 0) → State → (Text → Stat → ℕ → ℕ → S → ℤ × S) → Text → S → S

-- Memory is never exhausted.
abbrev pub Allocates : Os → Type 0
Allocates os = (s : os.State) → (os.allocate s).0 ≡ true

-- `nftw` changes the caller's data by calling the function, and in no other way: what every call
-- preserves, the walk preserves.
abbrev pub WalksByCalls : Os → Type 1
WalksByCalls os =
    (S : Type 0) (P : S → Type 0) (s : os.State) (f : Text → Stat → ℕ → ℕ → S → ℤ × S) (path : Text)
    (a : S)
    → ((p : Text) (sb : Stat) (base level : ℕ) (b : S) → P b → P (f p sb base level b).1)
    → P a
    → P (os.nftw S s f path a)
