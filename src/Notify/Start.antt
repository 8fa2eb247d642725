-- ===== src/Notify/Start.antt =====
-- `start_inotify_watcher` of lib/argusnotify.c: a watcher from its start to its end.
use argusd.Base.{
  ℕ, zero, suc, ℤ, pos, eof, int_eq, Bool, true, false, not, ◌||◌, Option, none, some, List, [],
  ◌∷◌, ◌++◌, Text, length, get_elem?, ◌==◌, if◌then◌else◌, ◌>>=◌,
}
use argusd.Watch.{Watch, EpollEvent, has}
use argusd.Os.{Os}
use argusd.Cache.{clear_watch}
use argusd.Table.{World, blank_watch, find_cached_slot}
use argusd.Tree.Validate.{validate_root_paths}
use argusd.Notify.Reinit.{put, add_epoll_ctl_fds, reinitialize, epollin, argusnotify_kill}
use argusd.Notify.Loop.{process_inotify_events, eintr}

abbrev pub epollerr : ℕ
epollerr = 8

abbrev pub epollhup : ℕ
epollhup = 16

-- The arguments that the daemon passes in; the log function is an operation of the system.
pub record Request : Type 0 where
  pub name : Text
  pub node_name : Text
  pub pod_name : Text
  pub pid : ℤ
  pub sid : ℤ
  pub paths : List (Option Text)
  pub pathc : ℕ
  pub ignores : List Text
  pub ignorec : ℕ
  pub mask : ℕ
  pub flags : ℕ
  pub max_depth : ℤ
  pub tags : Text
  pub log_format : Text

-- The placeholder of a new watcher.
abbrev pub new_watch : Request → Watch
new_watch r = record blank_watch {
  name = r.name;
  node_name = r.node_name;
  pod_name = r.pod_name;
  pathc = 0;
  pid = r.pid;
  sid = r.sid;
  slot = eof;
  fd = eof;
}

-- The parameters that an existing watcher takes over too.
abbrev pub configure : Request → Watch → Watch
configure r watch = record watch {
  rootpathc = r.pathc;
  rootpaths = r.paths;
  ignorec = r.ignorec;
  ignores = r.ignores;
  event_mask = r.mask;
  flags = r.flags;
  max_depth = r.max_depth;
  tags = r.tags;
  log_format = r.log_format;
}

-- A watcher waits for more events, or has left the loop.
pub data Progress (os : Os) : Type 0 where
  running : World os → Progress os
  stopped : World os → Progress os

module _ (os : Os) where
  -- The watch of the table for the pid and sid, or a new one.
  unfoldable pub find_or_create : World os → Request → Option (ℕ × World os)
  find_or_create w r = do
    slot ← find_cached_slot os w r.pid r.sid
    let fresh : ℕ × World os = (length w.heap, record w { heap = w.heap ++ (new_watch r ∷ []) })
    some (elim slot [
      | pos i ↦ elim (get_elem? w.wlcache i) [ some (some p) ↦ (p, w) | _ ↦ fresh ]
      | _ ↦ fresh
    ])

  -- From the parameters to the two assertions; an assertion that fails ends the program.
  unfoldable pub prepare : World os → ℕ → Request → Option (World os)
  prepare w p r = do
    watch ← get_elem? w.heap p
    let v = validate_root_paths os (configure r watch) w.sys
    w₁ ← reinitialize os (put os w p v.0 v.1) p
    watch₁ ← get_elem? w₁.heap p
    (if int_eq watch₁.fd eof || int_eq watch₁.processevtfd eof then none else some w₁)

  -- The value that was read from the eventfd.
  abbrev pub is_kill : Option ℕ → Bool
  is_kill none = false
  is_kill (some value) = has value argusnotify_kill

  -- One event of epoll.
  unfoldable pub handle_event : World os → ℕ → EpollEvent → Option (Progress os)
  handle_event w p event = get_elem? w.heap p >>= λ watch.
      if has event.events epollerr || (has event.events epollhup || not (has event.events epollin))
      then some (running (record w { sys = os.close w.sys event.data_fd }))
      else if int_eq event.data_fd watch.fd
      then (process_inotify_events os w p >>= λ w'. some (running w'))
      else if int_eq event.data_fd watch.processevtfd
      then (let r = os.read_value w.sys event.data_fd in
          let w' = record w { sys = r.1 } in
          if is_kill r.0 then some (stopped w') else some (running w'))
      else some (running w)

  -- The loop over the events of one `epoll_pwait`.
  unfoldable pub handle_events : List EpollEvent → World os → ℕ → Option (Progress os)
  handle_events [] w p = some (running w)
  handle_events (event ∷ events) w p = handle_event w p event >>= λ r. elim r [
    | running w' ↦ handle_events events w' p
    | stopped w' ↦ some (stopped w')
  ]

  -- What follows `epoll_pwait`.
  unfoldable pub after_wait : Option (List EpollEvent) → World os → ℕ → Option (Progress os)
  after_wait none w p = if os.errno w.sys == eintr then some (running w) else some (stopped w)
  after_wait (some events) w p =
      handle_events events (record w { sys = os.pthread_sigmask w.sys false }) p

  -- One round of the endless loop; `buffer` is whether its `calloc` succeeded.
  unfoldable pub wait_round : Bool → World os → ℕ → Option (Progress os)
  wait_round buffer w p = do
    watch ← get_elem? w.heap p
    let r = os.epoll_pwait w.sys buffer watch.efd
    after_wait r.0 (record w { sys = r.1 }) p

  -- The first `n` rounds of the endless loop.
  unfoldable pub wait_rounds : ℕ → Bool → World os → ℕ → Option (Progress os)
  wait_rounds zero buffer w p = some (running w)
  wait_rounds (suc n) buffer w p = wait_round buffer w p >>= λ r. elim r [
    | running w' ↦ wait_rounds n buffer w' p
    | stopped w' ↦ some (stopped w')
  ]

  -- What stands behind the label `out`, but for the result, which is whether `errno` is 0.
  unfoldable pub finish_watch : World os → ℕ → Option (World os)
  finish_watch w p = do
    watch ← get_elem? w.heap p
    let s₁ = os.epoll_ctl_del w.sys watch.efd watch.fd
    let s₂ = os.epoll_ctl_del s₁ watch.efd watch.processevtfd
    let s₃ = os.close (os.close (os.close s₂ watch.fd) watch.processevtfd) watch.efd
    some (put os w p (clear_watch watch) s₃)

  abbrev pub finish_if_stopped : Progress os → ℕ → Option (Progress os)
  finish_if_stopped (running w) p = some (running w)
  finish_if_stopped (stopped w) p = finish_watch w p >>= λ w'. some (stopped w')

  -- The epoll instance, and `n` rounds of the loop.
  unfoldable pub serve : ℕ → World os → ℕ → Option (Progress os)
  serve n w p = do
    watch ← get_elem? w.heap p
    let a = os.allocate w.sys
    let e = os.epoll_create (os.pthread_sigmask a.1 true)
    let watch₁ : Watch = record watch { efd = e.0 }
    let added = add_epoll_ctl_fds os watch₁ e.1
    (if int_eq e.0 eof
        then finish_if_stopped (stopped (put os w p watch₁ e.1)) p
        else (wait_rounds n a.0 (put os w p added.0 added.1) p >>= λ r. finish_if_stopped r p))

  -- `start_inotify_watcher`, up to `n` rounds of its loop.
  unfoldable pub start_inotify_watcher : ℕ → World os → Request → Option (Progress os)
  start_inotify_watcher n w r = do (p, w₁) ← find_or_create w r; w₂ ← prepare w₁ p r; serve n w₂ p
