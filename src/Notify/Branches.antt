-- ===== src/Notify/Branches.antt =====
-- What `process_next_inotify_event` returns, and what it leaves alone.

use argusd.Base.{
  ◌⊎◌, ◌≤◌, int_eq_ne, ℕ, ◌<◌, ◌≡◌, ◌≢◌, ap, ◌∙◌, inl, inr, eof, Bool, false, Option, none, some,
  Text, get_elem?, arith, ◌>>=◌,
}
use argusd.Watch.{Watch, has}
use argusd.Inotify
use argusd.Os.{Os}
use argusd.Cache.{find_watch_checked}
use argusd.Cache.Lookup.{find_watch_checked-absent}
use argusd.Notify.Masks.{has-unmount}
use argusd.Table.{World}
use argusd.Inotify.{Event, Buffer}
use argusd.Notify.Event.{
  Report, discard, proceed, in_event_len, in_buffer_size, report, after_report, moved_from,
  queue_overflow, root_moved, dispatch, process_next_inotify_event,
}

module _ (os : Os) (w : World os) (p : ℕ) (event : Event) where
  queue_overflow-pos : (n : ℕ) (w' : World os) → queue_overflow os w p event ≡ some (n, w') → 0 < n
  unfolding queue_overflow
  queue_overflow-pos n w' e = ground arith

  root_moved-pos :
      (path : Text) (n : ℕ) (w' : World os) → root_moved os w p event path ≡ some (n, w') → 0 < n
  unfolding root_moved
  root_moved-pos path n w' e = ground arith

  moved_from-pos :
      (path : Text) (buf : Buffer) (off len : ℕ) (first : Bool) (n : ℕ) (w' : World os)
      → moved_from os w p event path buf off len first ≡ some (n, w')
      → 0 < n
  unfolding moved_from
  moved_from-pos path buf off len first n w' e = ground arith

  dispatch-pos :
      (path : Option Text) (buf : Buffer) (off len : ℕ) (first : Bool) (n : ℕ) (w' : World os)
      → dispatch os w p event path buf off len first ≡ some (n, w')
      → 0 < n
  unfolding dispatch
  dispatch-pos none buf off len first n w' e = ground (arith, queue_overflow-pos n w')
  dispatch-pos (some path) buf off len first n w' e = ground (
    arith,
    queue_overflow-pos n w',
    root_moved-pos path n w',
    moved_from-pos path buf off len first n w',
  )

module _ (os : Os) where
  -- Whatever the event, the watch and the system: if `process_next_inotify_event` returns, it
  -- returns a number that is not 0.
  pub process_next_inotify_event-pos :
      (w : World os) (p : ℕ) (buf : Buffer) (off len : ℕ) (first : Bool) (n : ℕ) (w' : World os)
      → process_next_inotify_event os w p buf off len first ≡ some (n, w')
      → 0 < n
  unfolding process_next_inotify_event after_report
  process_next_inotify_event-pos w p buf off len first n w' e = go (report os w p (buf off)) e
    where
      go :
          (r : Option (Report os))
          → (r >>= after_report os p buf off len first) ≡ some (n, w')
          → 0 < n
      go none f = cc
      go (some (discard v)) f = ground arith
      go (some (proceed v path)) f = dispatch-pos os v p (buf off) path buf off len first n w' f

  module _ (w : World os) (p : ℕ) (watch : Watch) (at : get_elem? w.heap p ≡ some watch) where
    -- An event that has a watch descriptor is discarded with all that follow it in the buffer, and
    -- nothing changes and nothing is logged, if the descriptor is not in the cache or the event is
    -- none that the watcher asked for.
    pub process_next_inotify_event-discard :
        (buf : Buffer) (off len : ℕ) (first : Bool)
        → (buf off).wd ≢ eof
        → (find_watch_checked watch (buf off).wd ≡ eof)
          ⊎ (has (buf off).mask watch.event_mask ≡ false)
        → process_next_inotify_event os w p buf off len first ≡ some (in_buffer_size, w)
    unfolding process_next_inotify_event after_report report
    process_next_inotify_event-discard buf off len first ne (inl unknown) =
        rw (at, int_eq_ne (buf off).wd eof ne, unknown)
    process_next_inotify_event-discard buf off len first ne (inr other) =
        rw (at, int_eq_ne (buf off).wd eof ne, other) (ground arith)

    -- An event with a watch descriptor whose mask is IN_UNMOUNT, on a watch whose mask lies within
    -- IN_ALL_EVENTS, is discarded with all that follow it, and changes nothing.
    pub process_next_inotify_event-unmount :
        (buf : Buffer) (off len : ℕ) (first : Bool)
        → (buf off).wd ≢ eof
        → (buf off).mask ≡ Inotify.unmount
        → watch.event_mask ≤ Inotify.all_events
        → process_next_inotify_event os w p buf off len first ≡ some (in_buffer_size, w)
    process_next_inotify_event-unmount buf off len first ne m l =
        process_next_inotify_event-discard buf off len first ne
          (inr (ap (λ k. has k watch.event_mask) m ∙ has-unmount watch.event_mask l))

    queue_overflow_ignored :
        (event : Event)
        → event.wd ≡ eof
        → ((j : ℕ) → j < watch.pathc → get_elem? watch.wd j ≢ some eof)
        → queue_overflow os w p event ≡ some (in_event_len, w)
    unfolding queue_overflow
    queue_overflow_ignored event e fresh =
        rw (at, ap (find_watch_checked watch) e ∙ find_watch_checked-absent watch eof fresh)

    -- An overflow of the queue, which has no watch descriptor, consumes its 16 bytes and changes
    -- nothing, as long as no entry in use has the descriptor -1: the cache is not rebuilt.
    pub process_next_inotify_event-overflow :
        (buf : Buffer) (off len : ℕ) (first : Bool)
        → (buf off).wd ≡ eof
        → (buf off).mask ≡ Inotify.q_overflow
        → ((j : ℕ) → j < watch.pathc → get_elem? watch.wd j ≢ some eof)
        → process_next_inotify_event os w p buf off len first ≡ some (in_event_len, w)
    unfolding process_next_inotify_event after_report report dispatch has queue_overflow
    process_next_inotify_event-overflow buf off len first e m fresh =
        rw (at, e, m) (queue_overflow_ignored (buf off) e fresh)
