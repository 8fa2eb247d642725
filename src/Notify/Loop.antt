-- ===== src/Notify/Loop.antt =====
-- `process_inotify_events` of lib/argusnotify.c: the loop over the bytes that one `read` gave.
use argusd.Base.{
  ℕ, zero, suc, ◌+◌, ◌-◌, ◌*◌, ◌/◌, ◌≤◌, ◌≡◌, ◌≢◌, refl, sym, ap, ◌∙◌, ◌⊎◌, inl, inr, eof, int_eq,
  int_eq_ne, Bool, true, false, Option-cases, Option, none, some, get_elem?, ltb, ◌==◌, arith,
  if◌then◌else◌, ◌>>=◌,
}
use argusd.Watch.{Watch, has}
use argusd.Os.{Os}
use argusd.Inotify.{Buffer}
use argusd.Table.{World}
use argusd.Cache.{find_watch_checked}
use argusd.Notify.Event.{in_event_len, in_buffer_size, size_max, process_next_inotify_event}
use argusd.Notify.Branches.{process_next_inotify_event-pos, process_next_inotify_event-discard}

-- EINTR
abbrev pub eintr : ℕ
eintr = 4

module _ (os : Os) where
  -- After the second `read`: `event` is moved from the start of the buffer by (size_t)-1, so the
  -- next round reads before the buffer, a fault. Only a failing or an empty `read` returns.
  unfoldable pub after_second_read : Option (ℕ × Buffer) → ℕ → World os → Option (World os)
  after_second_read none errno w = if errno == eintr then none else some w
  after_second_read (some (readlen, buf)) errno w = if readlen == 0 then some w else none

  -- An IN_MOVED_FROM that hangs at the end of the buffer: one more `read`, under an alarm.
  unfoldable pub read_more : World os → ℕ → Option (World os)
  read_more w p = do
    watch ← get_elem? w.heap p
    let r = os.read (os.ualarm w.sys 2000) watch.fd in_buffer_size
    after_second_read r.0 (os.errno r.1) (record w { sys = os.ualarm r.1 0 })

  -- The loop over the buffer, from byte `off` on, with the rounds left; with none left while there
  -- are bytes it gives `none`. `buf + len - event` counts in events.
  unfoldable pub process_buffer : ℕ → World os → ℕ → Buffer → ℕ → ℕ → Bool → Option (World os)
  process_buffer zero w p buf off len first = if ltb off len then none else some w
  process_buffer (suc fuel) w p buf off len first =
      if ltb off len
      then (process_next_inotify_event os w p buf off ((in_event_len * len - off) / in_event_len)
            first
          >>= λ (evtlen, w').
              let rest = process_buffer fuel w' p buf (off + evtlen) len (ltb 0 evtlen) in
              if evtlen == size_max then read_more w' p else rest)
      else some w

  -- The buffer that the first `read` gave; its bytes are rounds enough.
  unfoldable pub after_read : Option (ℕ × Buffer) → World os → ℕ → Option (World os)
  after_read none w p = some w
  after_read (some (len, buf)) w p = process_buffer len w p buf 0 len true

  -- `process_inotify_events`
  unfoldable pub process_inotify_events : World os → ℕ → Option (World os)
  process_inotify_events w p = do
    watch ← get_elem? w.heap p
    let s = os.sigaction w.sys
    let r = os.read s.1 watch.fd in_buffer_size
    (if int_eq s.0 eof
        then some (record w { sys = s.1 })
        else after_read r.0 (record w { sys = r.1 }) p)

  -- One round, whatever the rounds left do.
  pub process_buffer_past :
      (fuel : ℕ) (w : World os) (p : ℕ) (buf : Buffer) (off len : ℕ) (first : Bool)
      → len ≤ off
      → process_buffer fuel w p buf off len first ≡ some w
  unfolding process_buffer
  process_buffer_past zero w p buf off len first h = ground arith
  process_buffer_past (suc fuel) w p buf off len first h = ground arith

  -- The loop ends: with as many rounds as bytes are left, more rounds change nothing, so it never
  -- runs out of them. Each round moves on, since no result of `process_next_inotify_event` is 0.
  pub process_buffer_fuel :
      (fuel rounds : ℕ) (w : World os) (p : ℕ) (buf : Buffer) (off len : ℕ) (first : Bool)
      → len ≤ off + fuel
      → fuel ≤ rounds
      → process_buffer rounds w p buf off len first ≡ process_buffer fuel w p buf off len first
  unfolding process_buffer
  process_buffer_fuel zero rounds w p buf off len first h l =
      process_buffer_past rounds w p buf off len first (omega arith)
      ∙ sym (process_buffer_past 0 w p buf off len first (omega arith))
  process_buffer_fuel (suc fuel) zero w p buf off len first h l = absurd (omega arith)
  process_buffer_fuel (suc fuel) (suc rounds) w p buf off len first h l =
      let r =
        process_next_inotify_event os w p buf off ((in_event_len * len - off) / in_event_len)
          first in
      elim (Option-cases r) [
        | inl e ↦ rw e
        | inr ((n, w'), e) ↦
            let up = process_next_inotify_event-pos os w p buf off _ first n w' e in
            rw e (
              ap
                (λ rest.
                  if ltb off len then (if n == size_max then read_more w' p else rest) else some w)
                (process_buffer_fuel fuel rounds w' p buf (off + n) len (ltb 0 n) (omega arith)
                  (omega arith)))
      ]

  -- The loop without `first`: every call is told that it is the first.
  unfoldable pub process_all : ℕ → World os → ℕ → Buffer → ℕ → ℕ → Option (World os)
  process_all zero w p buf off len = if ltb off len then none else some w
  process_all (suc fuel) w p buf off len =
      if ltb off len
      then (process_next_inotify_event os w p buf off ((in_event_len * len - off) / in_event_len)
            true
          >>= λ (evtlen, w').
              let rest = process_all fuel w' p buf (off + evtlen) len in
              if evtlen == size_max then read_more w' p else rest)
      else some w

  -- `first` is of no use: the loop that sets it does what the loop does in which it stays true.
  pub process_buffer-process_all :
      (fuel : ℕ) (w : World os) (p : ℕ) (buf : Buffer) (off len : ℕ)
      → process_buffer fuel w p buf off len true ≡ process_all fuel w p buf off len
  unfolding process_buffer process_all
  process_buffer-process_all zero w p buf off len = refl
  process_buffer-process_all (suc fuel) w p buf off len =
      let r =
        process_next_inotify_event os w p buf off ((in_event_len * len - off) / in_event_len)
          true in
      elim (Option-cases r) [
        | inl e ↦ rw e
        | inr ((n, w'), e) ↦
            let up = process_next_inotify_event-pos os w p buf off _ true n w' e in
            let still : ltb 0 n ≡ true = ground (arith, up) in
            rw (e, still)
              (ap
                (λ rest.
                  if ltb off len then (if n == size_max then read_more w' p else rest) else some w)
                (process_buffer-process_all fuel w' p buf (off + n) len))
      ]

  module _ (w : World os) (p : ℕ) (watch : Watch) (at : get_elem? w.heap p ≡ some watch) where
    process_buffer-discard :
        (fuel : ℕ) (buf : Buffer) (len : ℕ)
        → len ≤ in_buffer_size
        → (buf 0).wd ≢ eof
        → (find_watch_checked watch (buf 0).wd ≡ eof) ⊎ (has (buf 0).mask watch.event_mask ≡ false)
        → process_buffer (suc fuel) w p buf 0 len true ≡ some w
    unfolding process_buffer
    process_buffer-discard fuel buf len l ne other =
        rw
          (
            process_next_inotify_event-discard os w p watch at buf 0 _ true ne other,
            process_buffer_past fuel w p buf in_buffer_size len true l,
          )
          (ground arith)

    after_read-discard :
        (buf : Buffer) (len : ℕ)
        → len ≤ in_buffer_size
        → (buf 0).wd ≢ eof
        → (find_watch_checked watch (buf 0).wd ≡ eof) ⊎ (has (buf 0).mask watch.event_mask ≡ false)
        → after_read (some (len, buf)) w p ≡ some w
    unfolding after_read
    after_read-discard buf zero l ne other = process_buffer_past 0 w p buf 0 0 true (omega arith)
    after_read-discard buf (suc len) l ne other =
        process_buffer-discard len buf (suc len) l ne other

  -- If the first event that `read` gives has a watch descriptor, and that is not in the cache or the
  -- watcher did not ask for the event, then all that was read is lost, as long as `sigaction`
  -- succeeds and at most IN_BUFFER_SIZE bytes were read: `process_inotify_events` returns with no
  -- watch, no table and no log touched.
  pub process_inotify_events-discard :
      (w : World os) (p : ℕ) (watch : Watch) (sys : os.State) (len : ℕ) (buf : Buffer)
      → get_elem? w.heap p ≡ some watch
      → (os.sigaction w.sys).0 ≢ eof
      → os.read (os.sigaction w.sys).1 watch.fd in_buffer_size ≡ (some (len, buf), sys)
      → len ≤ in_buffer_size
      → (buf 0).wd ≢ eof
      → (find_watch_checked watch (buf 0).wd ≡ eof) ⊎ (has (buf 0).mask watch.event_mask ≡ false)
      → process_inotify_events w p ≡ some (record w { sys = sys })
  unfolding process_inotify_events
  process_inotify_events-discard w p watch sys len buf at ok got l ne other =
      rw (at, int_eq_ne (os.sigaction w.sys).0 eof ok, got)
        (after_read-discard (record w { sys = sys }) p watch at buf len l ne other)
