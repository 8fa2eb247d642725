-- ===== src/Notify/Signals.antt =====
-- The kill signal of lib/argusnotify.c: `send_watcher_kill_signal` writes to the eventfd of each
-- watch of a process.
use mathlib.Core.Bool.{true≢false}
use argusd.Base.{
  ℕ, suc, ◌+◌, ◌*◌, ◌≤◌, ◌<◌, ◌≡◌, ◌≢◌, refl, sym, ◌∙◌, inl, inr, ℤ, int_eq, int_eq_iff, Bool,
  Bool-cases, Option, none, some, List, [], ◌∷◌, length, get_elem?, get_elem?-total, if◌then◌else◌,
  arith, ◌&&◌,
}
use argusd.Watch.{Watch}
use argusd.Os.{Os}
use argusd.Table.{World}
use argusd.Table.Slots.{Valid, IsTable}
use argusd.Notify.Reinit.{argusnotify_kill, kill_from, send_watcher_kill_signal}

-- The largest value of the counter of an eventfd, 2^64 - 2.
abbrev pub counter_max : ℕ
counter_max = 18446744073709551614

-- eventfd(2): a counter per descriptor. A write adds to it, as long as it does not overflow; a read
-- gives it and sets it to 0.
pub record Eventfd (os : Os) : Type 0 where
  pub counter : os.State → ℤ → ℕ
  pub write_adds :
      (s : os.State) (fd : ℤ) (n : ℕ)
      → counter s fd + n ≤ counter_max
      → counter (os.write s fd n) fd ≡ counter s fd + n
  pub write_elsewhere :
      (s : os.State) (fd other : ℤ) (n : ℕ)
      → other ≢ fd
      → counter (os.write s fd n) other ≡ counter s other
  pub read_gives :
      (s : os.State) (fd : ℤ) → 0 < counter s fd → (os.read_value s fd).0 ≡ some (counter s fd)
  pub read_resets : (s : os.State) (fd : ℤ) → counter (os.read_value s fd).1 fd ≡ 0

-- How many of the cells point to a watch of the process `pid` that has this eventfd.
unfoldable pub signals : ℤ → ℤ → List Watch → List (Option ℕ) → ℕ
signals pid fd heap [] = 0
signals pid fd heap (none ∷ cells) = signals pid fd heap cells
signals pid fd heap (some q ∷ cells) =
    let rest = signals pid fd heap cells in
    elim (get_elem? heap q) [
      | none ↦ rest
      | some watch ↦ if int_eq watch.pid pid && int_eq watch.processevtfd fd then suc rest else rest
    ]

one_if : Bool → ℕ
one_if b = if b then 1 else 0

signals_nil : (pid fd : ℤ) (heap : List Watch) → signals pid fd heap [] ≡ 0
unfolding signals
signals_nil pid fd heap = refl

signals_step :
    (pid fd : ℤ) (heap : List Watch) (q : ℕ) (cells : List (Option ℕ)) (watch : Watch)
    → get_elem? heap q ≡ some watch
    → signals pid fd heap (some q ∷ cells)
      ≡ one_if (int_eq watch.pid pid && int_eq watch.processevtfd fd) + signals pid fd heap cells
unfolding signals one_if
signals_step pid fd heap q cells watch e =
    elim (Bool-cases (int_eq watch.pid pid && int_eq watch.processevtfd fd)) [
      | inl h ↦ rw (e, signals, h) (omega arith)
      | inr h ↦ rw (e, signals, h) (omega arith)
    ]

module _ (os : Os) (ev : Eventfd os) where
  -- One write, seen from one descriptor.
  write_counter :
      (s : os.State) (to fd : ℤ)
      → ev.counter s fd + 9 ≤ counter_max
      → ev.counter (os.write s to argusnotify_kill) fd ≡ ev.counter s fd + 9 * one_if (int_eq to fd)
  unfolding one_if
  write_counter s to fd h = elim (Bool-cases (int_eq to fd)) [
    | inl e ↦ let same = (int_eq_iff to fd).0 e in rw (e, same) (ev.write_adds s fd 9 h)
    | inr e ↦
        let apart : fd ≢ to = λ same. true≢false (sym ((int_eq_iff to fd).1 (sym same)) ∙ e) in
        rw e (ev.write_elsewhere s to fd 9 apart ∙ omega arith)
  ]

  -- What one cell does to the system.
  abbrev after_cell : ℤ → Watch → os.State → os.State
  after_cell pid watch s =
      if int_eq watch.pid pid then os.write s watch.processevtfd argusnotify_kill else s

  kill_from_step :
      (pid : ℤ) (heap : List Watch) (n q : ℕ) (cells : List (Option ℕ)) (watch : Watch)
      (s : os.State)
      → get_elem? heap q ≡ some watch
      → kill_from os pid heap (suc n) (some q ∷ cells) s
        ≡ kill_from os pid heap n cells (after_cell pid watch s)
  unfolding kill_from
  kill_from_step pid heap n q cells watch s e = rw (e, kill_from)

  after_cell_counter :
      (pid fd : ℤ) (watch : Watch) (s : os.State)
      → ev.counter s fd + 9 ≤ counter_max
      → ev.counter (after_cell pid watch s) fd
        ≡ ev.counter s fd + 9 * one_if (int_eq watch.pid pid && int_eq watch.processevtfd fd)
  unfolding one_if
  after_cell_counter pid fd watch s h = elim (Bool-cases (int_eq watch.pid pid)) [
    | inl mine ↦ rw mine (write_counter s watch.processevtfd fd h)
    | inr other ↦ rw other (omega arith)
  ]

  kill_from_counter :
      (pid fd : ℤ) (heap : List Watch) (cells : List (Option ℕ)) (s : os.State)
      → Valid (length heap) cells
      → ev.counter s fd + 9 * (signals pid fd heap cells + 1) ≤ counter_max
      → (s' : os.State) × (kill_from os pid heap (length cells) cells s ≡ some s')
        × (ev.counter s' fd ≡ ev.counter s fd + 9 * signals pid fd heap cells)
  unfolding kill_from
  kill_from_counter pid fd heap [] s v h = (s, refl, omega (arith, signals_nil pid fd heap))
  kill_from_counter pid fd heap (none ∷ cells) s v h = absurd v
  kill_from_counter pid fd heap (some q ∷ cells) s v h =
      let (watch, e) = get_elem?-total heap q v.0 in
      let step = signals_step pid fd heap q cells watch e in
      let c = after_cell_counter pid fd watch s (omega (arith, h, step)) in
      let (s', f, d) =
        kill_from_counter pid fd heap cells (after_cell pid watch s) v.1
          (omega (arith, h, step, c)) in
      (s', kill_from_step pid heap (length cells) q cells watch s e ∙ f, omega (arith, step, c, d))

  -- On a valid table, `send_watcher_kill_signal` returns and changes the system alone. The counter
  -- of each eventfd that has room for one signal more rises by 9 for each cell whose watch is of the
  -- process and has that eventfd, and for no other cell.
  pub send_watcher_kill_signal_lem :
      (w : World os) (pid fd : ℤ)
      → IsTable w
      → ev.counter w.sys fd + 9 * (signals pid fd w.heap w.wlcache + 1) ≤ counter_max
      → (s : os.State) × (send_watcher_kill_signal os w pid ≡ some (record w { sys = s }))
        × (ev.counter s fd ≡ ev.counter w.sys fd + 9 * signals pid fd w.heap w.wlcache)
  unfolding send_watcher_kill_signal
  send_watcher_kill_signal_lem w pid fd t h =
      let (s, e, c) = kill_from_counter pid fd w.heap w.wlcache w.sys t.valid h in
      (s, rw (t.counted, e), c)
