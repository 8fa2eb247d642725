-- ===== src/Notify/Event.antt =====
-- `process_next_inotify_event` of lib/argusnotify.c, on the watch that `p` points to. A result is
-- the number of bytes that the caller moves on by.
use argusd.Base.{
  ℕ, ◌+◌, ◌*◌, pos, negsuc, eof, int_eq, is_slot, Bool, not, ◌&&◌, ◌||◌, Option, none, some, [],
  Text, format_path, bit_and, bit_or, ltb, ◌==◌, get_elem?, if◌then◌else◌, ◌>>=◌,
}
use argusd.Watch.{Watch, WatchEvent, has, aw_recursive, aw_follow}
use argusd.Inotify
use argusd.Inotify.{Event, Buffer}
use argusd.Os.{Os}
use argusd.Cache.{
  find_watch, find_watch_checked, wd_to_path_name, path_name_to_cache_slot, check_cache_consistency,
}
use argusd.Table.{World, mark_cache_slot_empty, set_cell}
use argusd.Tree.{
  path_max, find_root_path, remove_root_path, rewrite_cached_paths, watch_subtree, remove_subtree,
}
use argusd.Tree.Follow.{find_replace_root_path}
use argusd.Notify.Reinit.{put, reinitialize, send_watcher_kill_signal}

-- `sizeof(struct inotify_event)`, IN_EVENT_LEN
abbrev pub in_event_len : ℕ
in_event_len = 16

abbrev pub name_max : ℕ
name_max = 255

-- IN_BUFFER_SIZE
abbrev pub in_buffer_size : ℕ
in_buffer_size = 272

-- `(size_t)-1`
abbrev pub size_max : ℕ
size_max = 18446744073709551615

-- The part before the branches: the caller gets IN_BUFFER_SIZE, or the branches run with `path`,
-- which is NULL (`none`) for an event with no watch descriptor.
pub data Report (os : Os) : Type 0 where
  discard : World os → Report os
  proceed : World os → Option Text → Report os

module _ (os : Os) where
  -- `(*watch)->fd = EOF; reinitialize(watch);`
  unfoldable pub rebuild : World os → ℕ → Option (World os)
  rebuild w p = do
    watch ← get_elem? w.heap p
    reinitialize os (put os w p (record watch { fd = eof }) w.sys) p

  unfoldable pub awevent : Watch → Event → Text → WatchEvent
  awevent watch event path = record {
    watch = watch;
    path_name = path;
    file_name = if event.len == 0 then [] else event.name;
    event_mask = event.mask;
    is_dir = has event.mask Inotify.is_dir;
  }

  -- The part under `event->wd != EOF`.
  unfoldable pub report : World os → ℕ → Event → Option (Report os)
  report w p event = do
    watch ← get_elem? w.heap p
    (if int_eq event.wd eof
        then some (proceed w none)
        else if int_eq (find_watch_checked watch event.wd) eof
            || not (has event.mask watch.event_mask)
        then some (discard w)
        else (let path = wd_to_path_name watch event.wd in
            let w' = record w { sys = os.logfn w.sys (awevent watch event path) } in
            if not (has event.mask Inotify.ignored)
              && int_eq (find_watch_checked watch event.wd) eof
            then (rebuild w' p >>= λ w''. some (discard w''))
            else some (proceed w' (some path))))

  -- A directory was created in, or moved into, a watched one.
  unfoldable pub directory_created : World os → ℕ → Event → Text → Option (World os)
  directory_created w p event path = do
    watch ← get_elem? w.heap p
    let fullpath = format_path (path_max + name_max + 1) path event.name
    (if int_eq (path_name_to_cache_slot watch fullpath) eof
          && (is_slot (find_watch watch event.wd) && has watch.flags aw_recursive)
        then (watch_subtree os (record watch { pathc = 0 }) w.sys >>= λ (watch', sys').
            set_cell os (put os w p watch' sys') watch'.slot p)
        else some w)

  -- IN_DELETE_SELF
  unfoldable pub self_deleted : World os → ℕ → Text → Option (World os)
  self_deleted w p path = do
    watch ← get_elem? w.heap p
    let watch' : Watch = elim (find_root_path watch path) [
      | none ↦ watch
      | some _ ↦ remove_root_path watch path
    ]
    some (put os w p (check_cache_consistency (os.lstat w.sys) watch') w.sys)

  -- A directory was moved away. `nextevent = event + evtlen` and `event + len` count in events, so
  -- the next event is read 16 · evtlen bytes further on.
  unfoldable pub moved_from :
      World os → ℕ → Event → Text → Buffer → ℕ → ℕ → Bool → Option (ℕ × World os)
  moved_from w p event path buf off len first = do
    watch ← get_elem? w.heap p
    let evtlen = in_event_len + event.len
    let next = buf (off + in_event_len * evtlen)
    (if ltb evtlen len && (has next.mask Inotify.moved_to && next.cookie == event.cookie)
        then (if int_eq (find_watch_checked watch next.wd) eof
            then (rebuild w p >>= λ w'. some (in_buffer_size, w'))
            else some (
              evtlen + (in_event_len + next.len),
              put os w p
                  (rewrite_cached_paths watch path event.name (wd_to_path_name watch next.wd)
                    next.name)
                  w.sys,
            ))
        else if ltb evtlen len || not first
        then (if is_slot (find_watch_checked watch event.wd)
            then (remove_subtree os w p (format_path (path_max + name_max + 1) path event.name)
                >>= λ (r, w').
                    if int_eq r eof
                    then (reinitialize os w' p >>= λ w''. some (in_buffer_size, w''))
                    else some (evtlen, w'))
            else some (evtlen, w))
        else some (size_max, w))

  -- IN_Q_OVERFLOW
  unfoldable pub queue_overflow : World os → ℕ → Event → Option (ℕ × World os)
  queue_overflow w p event = do
    watch ← get_elem? w.heap p
    w' ← if is_slot (find_watch_checked watch event.wd) then reinitialize os w p else some w
    some (in_event_len, w')

  -- IN_UNMOUNT. A slot of -1 makes `mark_cache_slot_empty` write before the table.
  unfoldable pub unmounted : World os → ℕ → Option (World os)
  unmounted w p = do
    watch ← get_elem? w.heap p
    w' ← send_watcher_kill_signal os w watch.pid
    watch' ← get_elem? w'.heap p
    elim watch'.slot [ pos slot ↦ mark_cache_slot_empty os w' slot | negsuc _ ↦ none ]

  -- IN_MOVE_SELF of a root.
  unfoldable pub root_moved : World os → ℕ → Event → Text → Option (ℕ × World os)
  root_moved w p event path = do
    watch ← get_elem? w.heap p
    (if has watch.flags aw_follow
        then (find_replace_root_path os w p path >>= λ w'.
            reinitialize os w' p >>= λ w''. some (in_event_len + event.len, w''))
        else (remove_subtree os (put os w p (remove_root_path watch path) w.sys) p path
            >>= λ (r, w').
                if int_eq r eof
                then (get_elem? w'.heap p >>= λ watch'.
                    (if is_slot (find_watch_checked watch' event.wd)
                      then reinitialize os w' p
                      else some w')
                    >>= λ w''. some (in_buffer_size, w''))
                else some (in_event_len + event.len, w')))

  -- A branch that consumes this event.
  abbrev pub consume : Event → Option (World os) → Option (ℕ × World os)
  consume event none = none
  consume event (some w) = some (in_event_len + event.len, w)

  -- A branch that reads `path`; through NULL it is a fault.
  abbrev pub with_path : Option Text → (Text → Option (ℕ × World os)) → Option (ℕ × World os)
  with_path none f = none
  with_path (some path) f = f path

  abbrev pub moved_dir : ℕ
  moved_dir = bit_or Inotify.moved_from Inotify.is_dir

  -- The branches. `root_moved` is tried last, for a path that is a root.
  unfoldable pub dispatch :
      World os → ℕ → Event → Option Text → Buffer → ℕ → ℕ → Bool → Option (ℕ × World os)
  dispatch w p event path buf off len first =
      let skip = consume event (some w) in
      if has event.mask Inotify.is_dir && has event.mask (bit_or Inotify.create Inotify.moved_to)
      then with_path path (λ q. consume event (directory_created w p event q))
      else if has event.mask Inotify.delete_self
      then with_path path (λ q. consume event (self_deleted w p q))
      else if bit_and event.mask moved_dir == moved_dir
      then with_path path (λ q. moved_from w p event q buf off len first)
      else if has event.mask Inotify.q_overflow
      then queue_overflow w p event
      else if has event.mask Inotify.unmount
      then consume event (unmounted w p)
      else if has event.mask Inotify.move_self
      then with_path path (λ q. get_elem? w.heap p >>= λ watch. elim (find_root_path watch q) [
        | none ↦ skip
        | some _ ↦ root_moved w p event q
      ])
      else skip

  -- What follows the part under `event->wd != EOF`.
  unfoldable pub after_report : ℕ → Buffer → ℕ → ℕ → Bool → Report os → Option (ℕ × World os)
  after_report p buf off len first (discard w) = some (in_buffer_size, w)
  after_report p buf off len first (proceed w path) = dispatch w p (buf off) path buf off len first

  -- `process_next_inotify_event`: the event at byte `off` of the buffer, with the caller's `len`
  -- and `first`.
  unfoldable pub process_next_inotify_event :
      World os → ℕ → Buffer → ℕ → ℕ → Bool → Option (ℕ × World os)
  process_next_inotify_event w p buf off len first =
      report w p (buf off) >>= after_report p buf off len first
