-- ===== src/Service/Watchers/Kill.antt =====
-- The kill signals that the service sends: on a valid table they return, and change the system
-- alone.

use argusd.Table.{World}
use argusd.Base.{ℕ, ◌≡◌, refl, ℤ, int_eq, Option, none, some, List, [], ◌∷◌, if◌then◌else◌}
use argusd.Os.{Os}
use argusd.Service.Watchers.{Handle, Service, send_kill_signals, send_kill_signal_to_watcher}
use argusd.Table.Slots.{IsTable, Valid}
use argusd.Watch.{Watch}
use argusd.Base.{length, get_elem?-total}
use argusd.Notify.Reinit.{kill_from, send_watcher_kill_signal, argusnotify_kill}

module _ (os : Os) where
  kill_from-total :
      (pid : ℤ) (heap : List Watch) (cells : List (Option ℕ)) (s : os.State)
      → Valid (length heap) cells
      → (s' : os.State) × (kill_from os pid heap (length cells) cells s ≡ some s')
  unfolding kill_from
  kill_from-total pid heap [] s v = (s, refl)
  kill_from-total pid heap (none ∷ cells) s v = absurd v
  kill_from-total pid heap (some q ∷ cells) s v =
      let (watch, e) = get_elem?-total heap q v.0 in
      let (s', f) =
        kill_from-total pid heap cells
          (if int_eq watch.pid pid then os.write s watch.processevtfd argusnotify_kill else s)
          v.1 in
      (s', rw (e, kill_from) f)

  send_watcher_kill_signal-total :
      (w : World os) (pid : ℤ)
      → IsTable w
      → (s : os.State) × (send_watcher_kill_signal os w pid ≡ some (record w { sys = s }))
  unfolding send_watcher_kill_signal
  send_watcher_kill_signal-total w pid t =
      let (s, e) = kill_from-total pid w.heap w.wlcache w.sys t.valid in (s, rw (t.counted, e))

  send_kill_signals-total :
      (pids : List ℤ) (w : World os)
      → IsTable w
      → (w' : World os) × (send_kill_signals os pids w ≡ some w') × IsTable w'
  unfolding send_kill_signals
  send_kill_signals-total [] w t = (w, refl, t)
  send_kill_signals-total (pid ∷ pids) w t =
      let (s, e) = send_watcher_kill_signal-total w pid t in
      let (w', f, t') =
        send_kill_signals-total pids (record w { sys = s })
          (record { counted = t.counted; valid = t.valid }) in
      (w', rw e f, t')

  -- The signals go out, no watcher is lost, and the table stays valid.
  pub send_kill_signal_to_watcher-total :
      (handle : Handle) (s : Service os)
      → IsTable s.world
      → (w : World os) × (send_kill_signal_to_watcher os handle s ≡ some (record s { world = w }))
        × IsTable w
  unfolding send_kill_signal_to_watcher
  send_kill_signal_to_watcher-total handle s t =
      let (w, e, t') = send_kill_signals-total handle.pids s.world t in (w, rw e, t')
