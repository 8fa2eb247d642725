-- ===== src/Watch.antt =====
-- lib/argusutil.h: the watch structure, its flags, and the event that is handed to the log
-- function. A string is the list of its bytes, -1 is `eof`.
use argusd.Base.{ℕ, ℤ, Bool, not, Option, List, Text, bit_and, ◌==◌}

abbrev pub aw_only_dir : ℕ
aw_only_dir = 0x00000001

abbrev pub aw_recursive : ℕ
aw_recursive = 0x00000002

abbrev pub aw_follow : ℕ
aw_follow = 0x00000004

-- `word & bits` as a condition.
unfoldable pub has : ℕ → ℕ → Bool
has word bits = not (bit_and word bits == 0)

-- The members of `struct stat` that the sources read; `is_dir` is `S_ISDIR(st_mode)`.
pub record Stat : Type 0 where
  pub st_ino : ℕ
  pub st_dev : ℕ
  pub is_dir : Bool

pub record EpollEvent : Type 0 where
  pub data_fd : ℤ
  pub events : ℕ

-- `rootpaths` holds NULL where a root was removed. `wd`, `paths` and `rootpaths` are the arrays
-- with all that was allocated for them; the counts say how much of them is in use.
pub record Watch : Type 0 where
  pub epollevt_fd : EpollEvent
  pub epollevt_processevtfd : EpollEvent
  pub name : Text
  pub node_name : Text
  pub pod_name : Text
  pub tags : Text
  pub log_format : Text
  pub rootpaths : List (Option Text)
  pub ignores : List Text
  pub paths : List Text
  pub wd : List ℤ
  pub rootstat : List Stat
  pub rootpathc : ℕ
  pub ignorec : ℕ
  pub pathc : ℕ
  pub event_mask : ℕ
  pub flags : ℕ
  pub pid : ℤ
  pub sid : ℤ
  pub slot : ℤ
  pub fd : ℤ
  pub processevtfd : ℤ
  pub efd : ℤ
  pub max_depth : ℤ

-- `struct arguswatch_event`, with the watch by value.
pub record WatchEvent : Type 0 where
  pub watch : Watch
  pub path_name : Text
  pub file_name : Text
  pub event_mask : ℕ
  pub is_dir : Bool
