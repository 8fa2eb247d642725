-- ===== src/Notify/Stream.antt =====
-- `process_inotify_events` of lib/argusnotify.c on a buffer of events that change no cache: which
-- of them are logged.
use argusd.Base.{
  ℕ, zero, suc, ◌+◌, ◌≤◌, ◌<◌, ◌≡◌, ◌≢◌, refl, sym, ap, subst, ◌∙◌, ◌⊎◌, inl, inr, eof, int_eq,
  int_eq_iff, int_eq_ne, Bool, true, false, not, ◌&&◌, Bool-cases, some, List, [], ◌∷◌, bit_and,
  bit_or, get_elem?, ltb, ◌==◌, arith, if◌then◌else◌,
}
use argusd.Watch.{Watch, has}
use argusd.Inotify
use argusd.Inotify.{Event, Buffer}
use argusd.Os.{Os}
use argusd.Cache.{find_watch_checked}
use argusd.Table.{World}
use argusd.Notify.Event.{
  in_event_len, in_buffer_size, size_max, awevent, dispatch, after_report,
  process_next_inotify_event,
}
use argusd.Notify.Branches.{process_next_inotify_event-discard}
use argusd.Notify.Logged.{event_path, logged, report-proceed}
use argusd.Notify.Loop.{process_buffer, process_buffer_past, after_read, process_inotify_events}

-- An event with a watch descriptor that none of the branches is for, such as one of a file.
pub record IsQuiet (event : Event) : Type 0 where
  pub described : event.wd ≢ eof
  pub no_directory :
      (has event.mask Inotify.is_dir && has event.mask (bit_or Inotify.create Inotify.moved_to))
      ≡ false
  pub no_delete : has event.mask Inotify.delete_self ≡ false
  pub no_move :
      (bit_and event.mask (bit_or Inotify.moved_from Inotify.is_dir)
        == bit_or Inotify.moved_from Inotify.is_dir)
      ≡ false
  pub no_overflow : has event.mask Inotify.q_overflow ≡ false
  pub no_unmount : has event.mask Inotify.unmount ≡ false
  pub no_move_self : has event.mask Inotify.move_self ≡ false

abbrev pub AllQuiet : List Event → Type 0
AllQuiet [] = Unit {0}
AllQuiet (event ∷ events) = IsQuiet event × AllQuiet events

-- The bytes of the events in the buffer.
unfoldable pub size : List Event → ℕ
size [] = 0
size (event ∷ events) = in_event_len + event.len + size events

-- The buffer has the events one after the other, from byte `off` on.
abbrev pub Holds : Buffer → ℕ → List Event → Type 0
Holds buf off [] = Unit {0}
Holds buf off (event ∷ events) =
    (buf off ≡ event) × Holds buf (off + (in_event_len + event.len)) events

-- The event is of a cached directory, and the watcher asked for it.
abbrev pub is_wanted : Watch → Event → Bool
is_wanted watch event =
    not (int_eq (find_watch_checked watch event.wd) eof) && has event.mask watch.event_mask

module _ (os : Os) where
  -- Logs the events up to the first that is not wanted.
  unfoldable pub log_wanted : Watch → List Event → os.State → os.State
  log_wanted watch [] sys = sys
  log_wanted watch (event ∷ events) sys =
      let rest =
        log_wanted watch events
          (os.logfn sys (awevent os watch event (event_path os watch event))) in
      if is_wanted watch event then rest else sys

  dispatch-quiet :
      (w : World os) (p : ℕ) (event : Event) (path : _) (buf : Buffer) (off len : ℕ) (first : Bool)
      → IsQuiet event
      → dispatch os w p event path buf off len first ≡ some (in_event_len + event.len, w)
  unfolding dispatch
  dispatch-quiet w p event path buf off len first q =
      rw (q.no_directory, q.no_delete, q.no_move, q.no_overflow, q.no_unmount, q.no_move_self) refl

  module _ (p : ℕ) (watch : Watch) where
    process_next-wanted :
        (w : World os) (buf : Buffer) (off len : ℕ) (first : Bool)
        → get_elem? w.heap p ≡ some watch
        → IsQuiet (buf off)
        → is_wanted watch (buf off) ≡ true
        → process_next_inotify_event os w p buf off len first
          ≡ some (in_event_len + (buf off).len, logged os w watch (buf off))
    unfolding process_next_inotify_event after_report
    process_next-wanted w buf off len first at q wanted =
        let known : find_watch_checked watch (buf off).wd ≢ eof = λ e.
          ground (arith, wanted, (int_eq_iff (find_watch_checked watch (buf off).wd) eof).1 e) in
        let asked : has (buf off).mask watch.event_mask ≡ true = ground (arith, wanted) in
        rw (report-proceed os w p watch (buf off) at q.described known asked)
          (dispatch-quiet (logged os w watch (buf off)) p (buf off) _ buf off len first q)

    unwanted :
        (event : Event)
        → is_wanted watch event ≡ false
        → (find_watch_checked watch event.wd ≡ eof) ⊎ (has event.mask watch.event_mask ≡ false)
    unwanted event h = elim (Bool-cases (int_eq (find_watch_checked watch event.wd) eof)) [
      | inl e ↦ inl ((int_eq_iff (find_watch_checked watch event.wd) eof).0 e)
      | inr e ↦ inr (ground (arith, h, e))
    ]

    process_next_at :
        (w : World os) (buf : Buffer) (off len : ℕ) (first : Bool) (event : Event)
        → get_elem? w.heap p ≡ some watch
        → buf off ≡ event
        → IsQuiet event
        → is_wanted watch event ≡ true
        → process_next_inotify_event os w p buf off len first
          ≡ some (in_event_len + event.len, logged os w watch event)
    process_next_at w buf off len first event at h =
        subst
          (λ e.
            IsQuiet e
            → is_wanted watch e ≡ true
            → process_next_inotify_event os w p buf off len first
              ≡ some (in_event_len + e.len, logged os w watch e))
          h (process_next-wanted w buf off len first at)

    process_next-unwanted :
        (w : World os) (buf : Buffer) (off len : ℕ) (first : Bool) (event : Event)
        → get_elem? w.heap p ≡ some watch
        → buf off ≡ event
        → IsQuiet event
        → is_wanted watch event ≡ false
        → process_next_inotify_event os w p buf off len first ≡ some (in_buffer_size, w)
    process_next-unwanted w buf off len first event at h q other =
        process_next_inotify_event-discard os w p watch at buf off len first
          (subst (λ (e : Event). e.wd ≢ eof) (sym h) q.described)
          (unwanted (buf off) (ap (is_wanted watch) h ∙ other))

    process_buffer-step :
        (fuel : ℕ) (w v : World os) (buf : Buffer) (off len n : ℕ) (first : Bool)
        → off < len
        → n < size_max
        → ((left : ℕ) → process_next_inotify_event os w p buf off left first ≡ some (n, v))
        → process_buffer os (suc fuel) w p buf off len first
          ≡ process_buffer os fuel v p buf (off + n) len (ltb 0 n)
    unfolding process_buffer
    process_buffer-step fuel w v buf off len n first l small e =
        let more : ltb off len ≡ true = ground arith in
        let usual : (n == size_max) ≡ false = ground arith in rw (more, e, usual) refl

    process_buffer-log_wanted :
        (events : List Event) (fuel : ℕ) (w : World os) (buf : Buffer) (off len : ℕ) (first : Bool)
        → get_elem? w.heap p ≡ some watch
        → AllQuiet events
        → Holds buf off events
        → len ≡ off + size events
        → size events ≤ fuel
        → len ≤ in_buffer_size
        → process_buffer os fuel w p buf off len first
          ≡ some (record w { sys = log_wanted watch events w.sys })
    unfolding size log_wanted
    process_buffer-log_wanted [] fuel w buf off len first at q h s f l =
        process_buffer_past os fuel w p buf off len first (omega arith)
    process_buffer-log_wanted (event ∷ events) zero w buf off len first at q h s f l =
        absurd (omega arith)
    process_buffer-log_wanted (event ∷ events) (suc fuel) w buf off len first at q h s f l =
        elim (Bool-cases (is_wanted watch event)) [
          | inl wanted ↦
              process_buffer-step fuel w (logged os w watch event) buf off len
                (in_event_len + event.len) first (omega arith) (omega arith)
                (λ left. process_next_at w buf off left first event at h.0 q.0 wanted)
              ∙ process_buffer-log_wanted events fuel (logged os w watch event) buf
                  (off + (in_event_len + event.len)) len _ at q.1 h.1 (omega arith) (omega arith) l
              ∙ rw wanted refl
          | inr other ↦
              process_buffer-step fuel w w buf off len in_buffer_size first (omega arith)
                (omega arith)
                (λ left. process_next-unwanted w buf off left first event at h.0 q.0 other)
              ∙ process_buffer_past os fuel w p buf (off + in_buffer_size) len _ (omega arith)
              ∙ rw other refl
        ]

    -- On a read of at most IN_BUFFER_SIZE bytes that hold events one after the other, each with a
    -- watch descriptor and for none of the branches: `process_inotify_events` logs, in their order,
    -- the events up to the first that is not cached or not asked for, and does nothing else.
    pub process_inotify_events-log_wanted :
        (w : World os) (sys : os.State) (events : List Event) (buf : Buffer)
        → get_elem? w.heap p ≡ some watch
        → (os.sigaction w.sys).0 ≢ eof
        → os.read (os.sigaction w.sys).1 watch.fd in_buffer_size ≡ (some (size events, buf), sys)
        → AllQuiet events
        → Holds buf 0 events
        → size events ≤ in_buffer_size
        → process_inotify_events os w p ≡ some (record w { sys = log_wanted watch events sys })
    unfolding process_inotify_events after_read
    process_inotify_events-log_wanted w sys events buf at ok got q h l =
        rw (at, int_eq_ne (os.sigaction w.sys).0 eof ok, got)
          (process_buffer-log_wanted events (size events) (record w { sys = sys }) buf 0
            (size events) true at q h (omega arith) (omega arith) l)
