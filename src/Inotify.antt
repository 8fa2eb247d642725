-- ===== src/Inotify.antt =====
-- The event and the bits of sys/inotify.h that the sources use, as documented in inotify(7).
use argusd.Base.{ℕ, ℤ, Text}

-- `struct inotify_event`; `name` is read up to its NUL.
pub record Event : Type 0 where
  pub wd : ℤ
  pub mask : ℕ
  pub cookie : ℕ
  pub len : ℕ
  pub name : Text

-- What stands at each byte offset of the buffer, read as an event.
abbrev pub Buffer : Type 0
Buffer = ℕ → Event

abbrev pub access : ℕ
access = 0x00000001

abbrev pub modify : ℕ
modify = 0x00000002

abbrev pub attrib : ℕ
attrib = 0x00000004

abbrev pub close_write : ℕ
close_write = 0x00000008

abbrev pub close_nowrite : ℕ
close_nowrite = 0x00000010

abbrev pub close : ℕ
close = 0x00000018

abbrev pub open_ : ℕ
open_ = 0x00000020

abbrev pub move : ℕ
move = 0x000000c0

abbrev pub delete : ℕ
delete = 0x00000200

abbrev pub moved_from : ℕ
moved_from = 0x00000040

abbrev pub moved_to : ℕ
moved_to = 0x00000080

abbrev pub create : ℕ
create = 0x00000100

abbrev pub delete_self : ℕ
delete_self = 0x00000400

abbrev pub move_self : ℕ
move_self = 0x00000800

abbrev pub all_events : ℕ
all_events = 0x00000fff

abbrev pub unmount : ℕ
unmount = 0x00002000

abbrev pub q_overflow : ℕ
q_overflow = 0x00004000

abbrev pub ignored : ℕ
ignored = 0x00008000

abbrev pub only_dir : ℕ
only_dir = 0x01000000

abbrev pub is_dir : ℕ
is_dir = 0x40000000
