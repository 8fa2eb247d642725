-- ===== src/Notify/Kill.antt =====
-- How the loop of `start_inotify_watcher` of lib/argusnotify.c takes a kill signal.

use argusd.Base.{
  ℕ, ◌<◌, ◌≡◌, ◌≢◌, refl, ap, ◌∙◌, inl, inr, ℤ, int_eq_ne, int_eq_refl, true, false, not, ◌||◌,
  Bool-cases, some, get_elem?, if◌then◌else◌, arith,
}
use argusd.Watch.{Watch, EpollEvent, has}
use argusd.Os.{Os}
use argusd.Table.{World}
use argusd.Table.Slots.{IsTable}
use argusd.Notify.Reinit.{epollin, argusnotify_kill, send_watcher_kill_signal}
use argusd.Notify.Start.{running, stopped, handle_event, epollerr, epollhup}
use argusd.Notify.Signals.{Eventfd, signals, send_watcher_kill_signal_lem}

-- The event by which epoll says that `fd` can be read.
abbrev pub readable : ℤ → EpollEvent
readable fd = record { data_fd = fd; events = epollin }

pub readable_only :
    (has epollin epollerr || (has epollin epollhup || not (has epollin epollin))) ≡ false
unfolding has
readable_only = refl

pub kill_bit : has 9 argusnotify_kill ≡ true
unfolding has
kill_bit = refl

two_kills : has 18 argusnotify_kill ≡ false
unfolding has
two_kills = refl

module _ (os : Os) (ev : Eventfd os) where
  -- The loop meets a readable eventfd whose counter is not 0: it stops if and only if the counter
  -- has a bit of 9, and in either case the counter is 0 afterwards.
  pub handle_event-kill :
      (w : World os) (p : ℕ) (watch : Watch)
      → get_elem? w.heap p ≡ some watch
      → watch.processevtfd ≢ watch.fd
      → 0 < ev.counter w.sys watch.processevtfd
      → (s : os.State) × (handle_event os w p (readable watch.processevtfd)
          ≡ some (
              if has (ev.counter w.sys watch.processevtfd) argusnotify_kill
              then stopped (record w { sys = s })
              else running (record w { sys = s })))
        × (ev.counter s watch.processevtfd ≡ 0)
  unfolding handle_event
  handle_event-kill w p watch at apart full = (
    (os.read_value w.sys watch.processevtfd).1,
    elim (Bool-cases (has (ev.counter w.sys watch.processevtfd) argusnotify_kill)) [
      | inl kill ↦ rw (
        at,
        readable_only,
        int_eq_ne watch.processevtfd watch.fd apart,
        int_eq_refl watch.processevtfd,
        ev.read_gives w.sys watch.processevtfd full,
        kill,
      )
      | inr other ↦ rw (
        at,
        readable_only,
        int_eq_ne watch.processevtfd watch.fd apart,
        int_eq_refl watch.processevtfd,
        ev.read_gives w.sys watch.processevtfd full,
        other,
      )
    ],
    ev.read_resets w.sys watch.processevtfd,
  )

  -- What one kill signal does, and what a second one does before the first is read.
  pub record OneKillOnly (w : World os) (p : ℕ) (watch : Watch) : Type 0 where
    pub once : World os
    pub sent : send_watcher_kill_signal os w watch.pid ≡ some once
    pub stops :
        (s : os.State) × (handle_event os once p (readable watch.processevtfd)
          ≡ some (stopped (record w { sys = s })))
    pub twice : World os
    pub sent_again : send_watcher_kill_signal os once watch.pid ≡ some twice
    pub runs_on :
        (s : os.State) × (handle_event os twice p (readable watch.processevtfd)
          ≡ some (running (record w { sys = s })))
        × (ev.counter s watch.processevtfd ≡ 0)

  -- A watch of a valid table with an eventfd of its own, whose counter is 0 and which one cell leads
  -- to: one kill signal for its process stops its loop. Two kill signals that come before the loop
  -- reads do not: they add up to 18, which has no bit of 9, and both are lost.
  pub send_watcher_kill_signal-twice :
      (w : World os) (p : ℕ) (watch : Watch)
      → IsTable w
      → get_elem? w.heap p ≡ some watch
      → watch.processevtfd ≢ watch.fd
      → ev.counter w.sys watch.processevtfd ≡ 0
      → signals watch.pid watch.processevtfd w.heap w.wlcache ≡ 1
      → OneKillOnly w p watch
  send_watcher_kill_signal-twice w p watch t at apart start one =
      let fd = watch.processevtfd in
      let (s₁, e₁, c₁) =
        send_watcher_kill_signal_lem os ev w watch.pid fd t (omega (arith, start, one)) in
      let w₁ : World os = record w { sys = s₁ } in
      let nine : ev.counter s₁ fd ≡ 9 = omega (arith, start, one, c₁) in
      let t₁ : IsTable w₁ = record { counted = t.counted; valid = t.valid } in
      let (s₂, e₂, c₂) =
        send_watcher_kill_signal_lem os ev w₁ watch.pid fd t₁ (omega (arith, nine, one)) in
      let w₂ : World os = record w { sys = s₂ } in
      let more : ev.counter s₂ fd ≡ 18 = omega (arith, nine, one, c₂) in
      let (s₃, e₃, c₃) = handle_event-kill w₁ p watch at apart (omega (arith, nine)) in
      let (s₄, e₄, c₄) = handle_event-kill w₂ p watch at apart (omega (arith, more)) in
      record {
        once = w₁;
        sent = e₁;
        stops = (
          s₃,
          e₃
              ∙ ap
                  (λ b. some (
                    if b then stopped (record w { sys = s₃ }) else running (record w { sys = s₃ })))
                  (ap (λ c. has c argusnotify_kill) nine ∙ kill_bit),
        );
        twice = w₂;
        sent_again = e₂;
        runs_on = (
          s₄,
          e₄
              ∙ ap
                  (λ b. some (
                    if b then stopped (record w { sys = s₄ }) else running (record w { sys = s₄ })))
                  (ap (λ c. has c argusnotify_kill) more ∙ two_kills),
          c₄,
        );
      }
