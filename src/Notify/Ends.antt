-- ===== src/Notify/Ends.antt =====
-- A watcher is told to end, by `send_watcher_kill_signal`, while the loop of
-- `start_inotify_watcher` waits: what the loop does then, up to the next start.
use argusd.Base.{
  ℕ, suc, ◌≡◌, ◌≢◌, refl, ap, ◌∙◌, ℤ, pos, Bool, false, some, List, ◌∷◌, get_elem?, arith, ◌>>=◌,
}
use argusd.Watch.{Watch, EpollEvent, has}
use argusd.Os.{Os}
use argusd.Cache.Arrays.{IsWf}
use argusd.Table.{World, find_cached_slot}
use argusd.Table.Slots.{IsTable}
use argusd.Notify.Reinit.{argusnotify_kill, send_watcher_kill_signal}
use argusd.Notify.Start.{
  Request, stopped, finish_if_stopped, handle_events, after_wait, wait_round, wait_rounds,
}
use argusd.Notify.Signals.{Eventfd, signals, send_watcher_kill_signal_lem}
use argusd.Notify.Kill.{readable, handle_event-kill, kill_bit}
use argusd.Notify.Lifecycle.{Reusable, finish_watch-reuse}

module _ (os : Os) (ev : Eventfd os) where
  -- Waiting and blocking signals leave the counters of the eventfds alone.
  pub record Quiet : Type 0 where
    pub pwait_keeps :
        (s : os.State) (buffer : Bool) (efd fd : ℤ)
        → ev.counter (os.epoll_pwait s buffer efd).1 fd ≡ ev.counter s fd
    pub sigmask_keeps :
        (s : os.State) (on : Bool) (fd : ℤ)
        → ev.counter (os.pthread_sigmask s on) fd ≡ ev.counter s fd

  handle_events-kill :
      (w : World os) (p : ℕ) (watch : Watch) (rest : List EpollEvent)
      → get_elem? w.heap p ≡ some watch
      → watch.processevtfd ≢ watch.fd
      → ev.counter w.sys watch.processevtfd ≡ 9
      → (s : os.State) × (handle_events os (readable watch.processevtfd ∷ rest) w p
          ≡ some (stopped (record w { sys = s })))
  unfolding handle_events
  handle_events-kill w p watch rest at apart nine =
      let (s, e, c) = handle_event-kill os ev w p watch at apart (omega (arith, nine)) in
      let kill = ap (λ n. has n argusnotify_kill) nine ∙ kill_bit in (s, rw (e, kill) refl)

  wait_rounds-kill :
      Quiet
      → (w : World os) (p : ℕ) (watch : Watch) (buffer : Bool) (rest : List EpollEvent)
      → get_elem? w.heap p ≡ some watch
      → watch.processevtfd ≢ watch.fd
      → ev.counter w.sys watch.processevtfd ≡ 9
      → (os.epoll_pwait w.sys buffer watch.efd).0 ≡ some (readable watch.processevtfd ∷ rest)
      → (s : os.State) × ((n : ℕ)
          → wait_rounds os (suc n) buffer w p ≡ some (stopped (record w { sys = s })))
  unfolding wait_rounds wait_round after_wait
  wait_rounds-kill quiet w p watch buffer rest at apart nine reported =
      let s₁ = os.pthread_sigmask (os.epoll_pwait w.sys buffer watch.efd).1 false in
      let kept =
        quiet.sigmask_keeps (os.epoll_pwait w.sys buffer watch.efd).1 false watch.processevtfd
        ∙ quiet.pwait_keeps w.sys buffer watch.efd watch.processevtfd in
      let (s, e) = handle_events-kill (record w { sys = s₁ }) p watch rest at apart (kept ∙ nine) in
      (s, λ n. rw (at, reported, e) refl)

  -- The loop ends in its next round, and the watch is ready for the next start.
  pub record Stops (w : World os) (p : ℕ) (watch : Watch) (i : ℕ) (r : Request) (buffer : Bool)
      (at : get_elem? w.heap p ≡ some watch) : Type 0 where
    pub sys : os.State
    pub after : World os
    pub loop :
        (n : ℕ)
        → (wait_rounds os (suc n) buffer w p >>= λ r. finish_if_stopped os r p)
          ≡ some (stopped after)
    pub reusable : Reusable os (record w { sys = sys }) p watch at i r after

  -- One kill signal is in the eventfd, and epoll reports it first.
  pub wait_rounds-Stops :
      Quiet
      → (w : World os) (p : ℕ) (watch : Watch) (i : ℕ) (r : Request) (buffer : Bool)
        (rest : List EpollEvent)
      → IsTable w
      → IsWf watch
      → (at : get_elem? w.heap p ≡ some watch) → get_elem? w.wlcache i ≡ some (some p)
      → find_cached_slot os w watch.pid watch.sid ≡ some (pos i)
      → r.pid ≡ watch.pid
      → r.sid ≡ watch.sid
      → watch.processevtfd ≢ watch.fd
      → ev.counter w.sys watch.processevtfd ≡ 9
      → (os.epoll_pwait w.sys buffer watch.efd).0 ≡ some (readable watch.processevtfd ∷ rest)
      → Stops w p watch i r buffer at
  unfolding find_cached_slot
  wait_rounds-Stops quiet w p watch i r buffer rest t wf at cell found pid sid apart nine reported =
      let (s, e) = wait_rounds-kill quiet w p watch buffer rest at apart nine reported in
      let (after, u) =
        finish_watch-reuse os (record w { sys = s }) p watch at i r
          (record { counted = t.counted; valid = t.valid }) wf cell found pid sid in
      record { sys = s; after = after; loop = λ n. rw (e n, u.done) refl; reusable = u }

  -- What a kill signal leads to.
  pub record Ends (w : World os) (p : ℕ) (watch : Watch) (i : ℕ) (r : Request) (buffer : Bool)
      (at : get_elem? w.heap p ≡ some watch) : Type 0 where
    pub sent : World os
    pub signal : send_watcher_kill_signal os w watch.pid ≡ some sent
    pub heap : get_elem? sent.heap p ≡ some watch
    pub stops : Stops sent p watch i r buffer heap

  -- A registered watch of a valid table with an eventfd of its own, whose counter is 0 and which one
  -- cell leads to. One kill signal for its process, and epoll reporting the eventfd first when its
  -- counter is 9: the loop ends in that round, the watch is cleared, the table stays valid, and a
  -- start with the same pid and sid takes the watch again.
  pub send_watcher_kill_signal-Ends :
      Quiet
      → (w : World os) (p : ℕ) (watch : Watch) (i : ℕ) (r : Request) (buffer : Bool)
        (rest : List EpollEvent)
      → IsTable w
      → IsWf watch
      → (at : get_elem? w.heap p ≡ some watch) → get_elem? w.wlcache i ≡ some (some p)
      → find_cached_slot os w watch.pid watch.sid ≡ some (pos i)
      → r.pid ≡ watch.pid
      → r.sid ≡ watch.sid
      → watch.processevtfd ≢ watch.fd
      → ev.counter w.sys watch.processevtfd ≡ 0
      → signals watch.pid watch.processevtfd w.heap w.wlcache ≡ 1
      → ((s : os.State)
          → ev.counter s watch.processevtfd ≡ 9
          → (os.epoll_pwait s buffer watch.efd).0 ≡ some (readable watch.processevtfd ∷ rest))
      → Ends w p watch i r buffer at
  unfolding find_cached_slot
  send_watcher_kill_signal-Ends quiet w p watch i r buffer rest t wf at cell found pid sid apart
        start one reported =
      let fd = watch.processevtfd in
      let (s₁, e₁, c₁) =
        send_watcher_kill_signal_lem os ev w watch.pid fd t (omega (arith, start, one)) in
      let w₁ : World os = record w { sys = s₁ } in
      let nine : ev.counter s₁ fd ≡ 9 = omega (arith, start, one, c₁) in
      record {
        sent = w₁;
        signal = e₁;
        heap = at;
        stops =
            wait_rounds-Stops quiet w₁ p watch i r buffer rest
              (record { counted = t.counted; valid = t.valid }) wf at cell found pid sid apart nine
              (reported s₁ nine);
      }
