-- ===== src/Notify/Reinit.antt =====
-- `reinitialize`, `add_epoll_ctl_fds` and `send_watcher_kill_signal` of lib/argusnotify.c, on the
-- watch that the pointer `p` points to.
use argusd.Base.{
  ℕ, zero, suc, ℤ, eof, int_eq, is_slot, Bool, Option, none, some, List, [], ◌∷◌, get_elem?, set,
  if◌then◌else◌, ◌>>=◌,
}
use argusd.Watch.{Watch, EpollEvent}
use argusd.Os.{Os}
use argusd.Cache.{clear_watch, check_cache_consistency}
use argusd.Table.{World, find_cached_slot, add_watch_to_cache}
use argusd.Tree.{watch_subtree}

abbrev pub epollin : ℕ
epollin = 1

-- SIGKILL
abbrev pub argusnotify_kill : ℕ
argusnotify_kill = 9

module _ (os : Os) where
  -- The watch written back through the pointer, and the state of the system.
  abbrev pub put : World os → ℕ → Watch → os.State → World os
  put w p watch sys = record w { heap = set w.heap p watch; sys = sys }

  abbrev pub close_open : os.State → ℤ → os.State
  close_open sys fd = if int_eq fd eof then sys else os.close sys fd

  -- `add_epoll_ctl_fds`
  unfoldable pub add_epoll_ctl_fds : Watch → os.State → Watch × os.State
  add_epoll_ctl_fds watch sys =
      let ev₀ : EpollEvent = record { data_fd = watch.fd; events = epollin } in
      let ev₁ : EpollEvent = record { data_fd = watch.processevtfd; events = epollin } in
      let sys₁ = os.epoll_ctl_add sys watch.efd watch.fd ev₀ in
      let sys₂ = os.epoll_ctl_add sys₁ watch.efd watch.processevtfd ev₁ in
      (record watch { epollevt_fd = ev₀; epollevt_processevtfd = ev₁ }, sys₂)

  -- The end of `reinitialize`: the watch gets its slot if the table does not find its pid and sid,
  -- and its paths are checked.
  unfoldable pub register : World os → ℕ → Option (World os)
  register w p = do
    watch ← get_elem? w.heap p
    slot ← find_cached_slot os w watch.pid watch.sid
    w' ← if int_eq slot eof then add_watch_to_cache os w p else some w
    watch' ← get_elem? w'.heap p
    some (put w' p (check_cache_consistency (os.lstat w'.sys) watch') w'.sys)

  -- `reinitialize` from the result of `eventfd` on.
  unfoldable pub finish : World os → ℕ → Watch → Bool → ℤ → os.State → Option (World os)
  finish w p watch rebuild processevtfd sys =
      if int_eq processevtfd eof
      then some (put w p watch sys)
      else (let watch' = record watch { processevtfd = processevtfd } in
          let done = if rebuild then add_epoll_ctl_fds watch' sys else (watch', sys) in
          register (put w p done.0 done.1) p)

  -- `reinitialize` after the inotify instance is there: `rebuild` is whether the watch had a slot.
  unfoldable pub populate : World os → ℕ → Watch → Bool → os.State → Option (World os)
  populate w p watch rebuild sys = do
    (watch₁, sys₁) ← watch_subtree os watch sys
    let r = os.eventfd sys₁
    finish w p watch₁ rebuild r.0 r.1

  -- `reinitialize` from the result of `inotify_init1` on.
  unfoldable pub begin : World os → ℕ → Watch → Bool → ℤ → os.State → Option (World os)
  begin w p watch rebuild fd sys =
      if int_eq fd eof
      then some (put w p watch sys)
      else populate w p (record watch { fd = fd }) rebuild sys

  -- `reinitialize`
  unfoldable pub reinitialize : World os → ℕ → Option (World os)
  reinitialize w p = do
    watch ← get_elem? w.heap p
    let rebuild = is_slot watch.slot
    let sys₀ = if rebuild then close_open (close_open w.sys watch.fd) watch.processevtfd else w.sys
    let watch₀ = if rebuild then clear_watch watch else watch
    let r = os.inotify_init sys₀
    begin w p watch₀ rebuild r.0 r.1

  -- The loop of `send_watcher_kill_signal`, which has no test for NULL.
  unfoldable pub kill_from : ℤ → List Watch → ℕ → List (Option ℕ) → os.State → Option os.State
  kill_from pid heap zero cells sys = some sys
  kill_from pid heap (suc n) [] sys = none
  kill_from pid heap (suc n) (none ∷ cells) sys = none
  kill_from pid heap (suc n) (some q ∷ cells) sys = do
    watch ← get_elem? heap q
    kill_from pid heap n cells
        (if int_eq watch.pid pid then os.write sys watch.processevtfd argusnotify_kill else sys)

  -- `send_watcher_kill_signal`
  unfoldable pub send_watcher_kill_signal : World os → ℤ → Option (World os)
  send_watcher_kill_signal w pid = do
    sys ← kill_from pid w.heap w.wlcachec w.wlcache w.sys
    some (record w { sys = sys })
