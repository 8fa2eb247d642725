-- ===== src/Notify/Sound/Reachable.antt =====
-- The operations of lib/argusnotify.c one after the other, whichever thread runs each, as steps from
-- one world to the next.
use argusd.Base.{ℕ, ◌≡◌, ℤ, Bool, some, subst}
use argusd.Os.{Os, Allocates, WalksByCalls}
use argusd.Table.{World, find_cached_slot}
use argusd.Notify.Reinit.{send_watcher_kill_signal}
use argusd.Notify.Kept.{find_cached_slot-total}
use argusd.Notify.Start.{
  Request, running, stopped, wait_rounds, finish_watch, start_inotify_watcher,
}
use argusd.Notify.Sound.{Sound, Keeps, sys-Sound}
use argusd.Notify.Sound.Rebuild.{send_watcher_kill_signal-Sound}
use argusd.Notify.Sound.Steps.{
  Goes, finish_watch-Sound, wait_rounds-Sound, start_inotify_watcher-Sound,
}

-- A step that does not fault.
pub data Step (os : Os) : World os → World os → Type 0 where
  -- A watcher starts, and waits for `n` rounds or comes to its end within them.
  starts :
      {w w' : World os} (n : ℕ) (r : Request)
      → start_inotify_watcher os n w r ≡ some (running w')
      → Step os w w'
  fails :
      {w w' : World os} (n : ℕ) (r : Request)
      → start_inotify_watcher os n w r ≡ some (stopped w')
      → Step os w w'
  -- The watcher of the watch at `p` goes through `n` rounds more, or comes to its end within them.
  waits :
      {w w' : World os} (n : ℕ) (buffer : Bool) (p : ℕ)
      → wait_rounds os n buffer w p ≡ some (running w')
      → Step os w w'
  ends :
      {w v w' : World os} (n : ℕ) (buffer : Bool) (p : ℕ)
      → wait_rounds os n buffer w p ≡ some (stopped v)
      → finish_watch os v p ≡ some w'
      → Step os w w'
  -- The kill signal is sent to the watchers of a process.
  kills : {w w' : World os} (pid : ℤ) → send_watcher_kill_signal os w pid ≡ some w' → Step os w w'
  -- The system does something else.
  passes : {w : World os} (sys : os.State) → Step os w (record w { sys = sys })

pub data Steps (os : Os) : World os → World os → Type 0 where
  stay : {w : World os} → Steps os w w
  next : {u v w : World os} → Steps os u v → Step os v w → Steps os u w

module _ (os : Os) (alloc : Allocates os) (walks : WalksByCalls os) where
  Step-Sound : {w w' : World os} → Sound w → Step os w w' → Sound w'
  Step-Sound {w} {w'} s (starts n r e) =
      subst (Goes os) e (start_inotify_watcher-Sound os alloc walks n w r s)
  Step-Sound {w} {w'} s (fails n r e) =
      subst (Goes os) e (start_inotify_watcher-Sound os alloc walks n w r s)
  Step-Sound {w} {w'} s (waits n buffer p e) =
      subst (Goes os) e (wait_rounds-Sound os alloc walks n buffer w p s)
  Step-Sound {w} {w'} s (ends {v = v} n buffer p e f) =
      let k : Sound v = subst (Goes os) e (wait_rounds-Sound os alloc walks n buffer w p s) in
      subst (Keeps os) f (finish_watch-Sound os v p k)
  Step-Sound {w} {w'} s (kills pid e) =
      subst (Keeps os) e (send_watcher_kill_signal-Sound os w pid s)
  Step-Sound {w} s (passes sys) = sys-Sound os w sys s

  Sound-Steps : {w w' : World os} → Sound w → Steps os w w' → Sound w'
  Sound-Steps s stay = s
  Sound-Steps s (next steps step) = Step-Sound (Sound-Steps s steps) step

  -- With memory, and a walk that works by its calls: from a world whose table is valid and where the
  -- arrays of each watch hold `pathc` items, as in the empty one. After any sequence of starts of
  -- watchers, rounds of their loops with whatever events, their ends, and kill signals, none of
  -- which faults, and whatever the system does in between: the table is valid, the arrays of each
  -- watch hold `pathc` items, and `find_cached_slot` returns for every pid and sid.
  pub Steps-Sound :
      (w w' : World os)
      → Sound w
      → Steps os w w'
      → Sound w' × ((pid sid : ℤ) → (r : ℤ) × (find_cached_slot os w' pid sid ≡ some r))
  Steps-Sound w w' s steps =
      let k = Sound-Steps s steps in (k, λ pid sid. find_cached_slot-total os w' pid sid k.table)
