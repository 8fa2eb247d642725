-- ===== src/Tests/Order.antt =====
-- A watch rebuilt against the kernel of `Tests.Kernel`.
use argusd.Base.{◌≡◌, refl, inl, ℤ, pos, negsuc, none, arith}
use argusd.Table.Slots.{IsTable}
use argusd.Notify.Reinit.{reinitialize}
use argusd.Notify.Opens.{Opens}
use argusd.Notify.Order.{Fresh, Ordered}
use argusd.Notify.Order.Rebuild.{reinitialize-Ordered}
use argusd.Tests.Kernel.{
  State, linux, linux-Allocates, linux-WalksByCalls, linux_kernel, linux_still, linux_world,
  mark_of, mirrored,
}

pub linux-Opens : Opens linux
linux-Opens = record { inotify_opens = λ s e. cc; eventfd_opens = λ s e. cc }

pub linux-Fresh : Fresh linux linux_kernel
linux-Fresh = record {
  init_fresh = none_watched;
  eventfd_keeps = λ s fd wd. refl;
  epoll_add_keeps = λ s efd other event fd wd. refl;
  epoll_create_keeps = λ s fd wd. refl;
  sigmask_keeps = λ s on fd wd. refl;
}
  where
    none_watched :
        (s : State) (wd : ℤ) → mark_of (linux.inotify_init s).1 (linux.inotify_init s).0 wd ≡ none
    none_watched s (pos n) = refl
    none_watched s (negsuc n) = refl

pub linux_world-IsTable : IsTable linux_world
linux_world-IsTable = record { counted = refl; valid = (omega arith, (omega arith, tt)) }

reinitialize-Ordered_example :
    (fd : ℤ) × Ordered linux linux_kernel linux_still 0 fd (reinitialize linux linux_world 0)
reinitialize-Ordered_example =
    reinitialize-Ordered linux linux_kernel linux_still linux-Allocates linux-WalksByCalls
      linux-Opens linux-Fresh linux_world 0 mirrored linux_world-IsTable refl
      (record { wd_allocated = omega arith; paths_allocated = omega arith }) tt (inl refl)
