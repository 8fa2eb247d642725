-- ===== src/Service/Watchers/Stop.antt =====
-- `DestroyWatch` up to the end of a watcher in the C library.
use argusd.Base.{
  ℕ, ◌+◌, ◌*◌, ◌≤◌, ◌≡◌, ◌≢◌, refl, ap, ◌∙◌, ℤ, pos, Bool, Option, some, List, [], ◌∷◌, get_elem?,
  arith,
}
use argusd.Watch.{Watch, EpollEvent}
use argusd.Os.{Os}
use argusd.Cache.Arrays.{IsWf}
use argusd.Table.{World, find_cached_slot}
use argusd.Table.Slots.{IsTable}
use argusd.Notify.Start.{Request}
use argusd.Notify.Signals.{Eventfd, counter_max, signals, send_watcher_kill_signal_lem}
use argusd.Notify.Kill.{readable}
use argusd.Notify.Ends.{Quiet, Stops, wait_rounds-Stops}
use argusd.Service.Watchers.{
  Config, Handle, Service, send_kill_signals, send_kill_signal_to_watcher, destroy_with,
  destroy_watch, find_argusd_watcher_by_pids, erase_watcher,
}

-- How many signals the eventfd gets from a list of pids.
unfoldable pub all_signals : List ℤ → ℤ → List Watch → List (Option ℕ) → ℕ
all_signals [] fd heap cells = 0
all_signals (pid ∷ pids) fd heap cells = signals pid fd heap cells + all_signals pids fd heap cells

module _ (os : Os) (ev : Eventfd os) where
  send_kill_signals_lem :
      (pids : List ℤ) (w : World os) (fd : ℤ)
      → IsTable w
      → ev.counter w.sys fd + 9 * (all_signals pids fd w.heap w.wlcache + 1) ≤ counter_max
      → (s : os.State) × (send_kill_signals os pids w ≡ some (record w { sys = s }))
        × (ev.counter s fd ≡ ev.counter w.sys fd + 9 * all_signals pids fd w.heap w.wlcache)
  unfolding send_kill_signals all_signals
  send_kill_signals_lem [] w fd t h = (w.sys, refl, omega arith)
  send_kill_signals_lem (pid ∷ pids) w fd t h =
      let (s₁, e₁, c₁) = send_watcher_kill_signal_lem os ev w pid fd t (omega (arith, h)) in
      let (s₂, e₂, c₂) =
        send_kill_signals_lem pids (record w { sys = s₁ }) fd
          (record { counted = t.counted; valid = t.valid }) (omega (arith, h, c₁)) in
      (s₂, rw e₁ e₂, omega (arith, c₁, c₂))

  -- What `DestroyWatch` leaves of a watcher and of its loop.
  pub record Destroyed (request : Config) (s : Service os) (p : ℕ) (watch : Watch) (i : ℕ)
      (r : Request) (buffer : Bool) : Type 0 where
    pub after : Service os
    pub done : destroy_watch os request s ≡ some after
    pub heap : get_elem? after.world.heap p ≡ some watch
    pub stops : Stops os ev after.world p watch i r buffer heap

  destroy_with-signals :
      (pointer : ℕ) (handle : Handle) (s : Service os) (sys : os.State)
      → send_kill_signals os handle.pids s.world ≡ some (record s.world { sys = sys })
      → destroy_with os (some (pointer, handle)) s
        ≡ some (record s {
          watchers = erase_watcher pointer s.watchers;
          world = record s.world { sys = sys };
        })
  unfolding destroy_with send_kill_signal_to_watcher
  destroy_with-signals pointer handle s sys e = rw e refl

  -- On a request that finds a watcher, and a registered watch of a valid table with an eventfd of
  -- its own, whose counter is 0 and which the pids of the watcher lead to once: `DestroyWatch`
  -- returns, and if epoll then reports the eventfd first, the loop of the watch ends in that round,
  -- the watch is cleared, and a start with the same pid and sid takes it again. The eventfd is as in
  -- eventfd(2), and waiting and blocking signals leave it alone.
  pub destroy_watch-Destroyed :
      Quiet os ev
      → (request : Config) (s : Service os) (pointer : ℕ) (handle : Handle) (p : ℕ) (watch : Watch)
        (i : ℕ) (r : Request) (buffer : Bool) (rest : List EpollEvent)
      → find_argusd_watcher_by_pids s.watchers request.node_name request.pids
        ≡ some (pointer, handle)
      → IsTable s.world
      → IsWf watch
      → get_elem? s.world.heap p ≡ some watch
      → get_elem? s.world.wlcache i ≡ some (some p)
      → find_cached_slot os s.world watch.pid watch.sid ≡ some (pos i)
      → r.pid ≡ watch.pid
      → r.sid ≡ watch.sid
      → watch.processevtfd ≢ watch.fd
      → ev.counter s.world.sys watch.processevtfd ≡ 0
      → all_signals handle.pids watch.processevtfd s.world.heap s.world.wlcache ≡ 1
      → ((sys : os.State)
          → ev.counter sys watch.processevtfd ≡ 9
          → (os.epoll_pwait sys buffer watch.efd).0 ≡ some (readable watch.processevtfd ∷ rest))
      → Destroyed request s p watch i r buffer
  unfolding destroy_watch find_cached_slot
  destroy_watch-Destroyed quiet request s pointer handle p watch i r buffer rest named t wf at cell
        found pid sid apart start one reported =
      let (sys, e, c) =
        send_kill_signals_lem handle.pids s.world watch.processevtfd t
          (omega (arith, start, one)) in
      let nine : ev.counter sys watch.processevtfd ≡ 9 = omega (arith, start, one, c) in
      record {
        after = record s {
          watchers = erase_watcher pointer s.watchers;
          world = record s.world { sys = sys };
        };
        done = ap (λ o. destroy_with os o s) named ∙ destroy_with-signals pointer handle s sys e;
        heap = at;
        stops =
            wait_rounds-Stops os ev quiet (record s.world { sys = sys }) p watch i r buffer rest
              (record { counted = t.counted; valid = t.valid }) wf at cell found pid sid apart nine
              (reported sys nine);
      }
