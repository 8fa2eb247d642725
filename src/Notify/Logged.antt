-- ===== src/Notify/Logged.antt =====
-- The first part of `process_next_inotify_event` of lib/argusnotify.c, which logs the event.
use argusd.Base.{
  ℕ, ◌≡◌, ◌≢◌, refl, inl, inr, eof, int_eq_ne, true, Bool-cases, some, Text, get_elem?,
}
use argusd.Watch.{Watch, has}
use argusd.Inotify
use argusd.Inotify.{Event, Buffer}
use argusd.Os.{Os}
use argusd.Cache.{find_watch_checked, wd_to_path_name}
use argusd.Table.{World}
use argusd.Notify.Event.{proceed, awevent, report}

module _ (os : Os) where
  -- The path that the log gets with an event.
  abbrev pub event_path : Watch → Event → Text
  event_path watch event = wd_to_path_name watch event.wd

  -- The world after the event was logged.
  abbrev pub logged : World os → Watch → Event → World os
  logged w watch event = record w {
    sys = os.logfn w.sys (awevent os watch event (event_path watch event));
  }

  -- An event that the watcher asked for, and whose descriptor is cached, is logged.
  pub report-proceed :
      (w : World os) (p : ℕ) (watch : Watch) (event : Event)
      → get_elem? w.heap p ≡ some watch
      → event.wd ≢ eof
      → find_watch_checked watch event.wd ≢ eof
      → has event.mask watch.event_mask ≡ true
      → report os w p event ≡ some (proceed (logged w watch event) (some (event_path watch event)))
  unfolding report
  report-proceed w p watch event at ne known asked =
      elim (Bool-cases (has event.mask Inotify.ignored)) [
        | inl e ↦
            rw
              (
                at,
                int_eq_ne event.wd eof ne,
                int_eq_ne (find_watch_checked watch event.wd) eof known,
                asked,
                e,
              )
              refl
        | inr e ↦
            rw
              (
                at,
                int_eq_ne event.wd eof ne,
                int_eq_ne (find_watch_checked watch event.wd) eof known,
                asked,
                e,
              )
              refl
      ]
