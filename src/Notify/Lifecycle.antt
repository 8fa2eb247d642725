-- ===== src/Notify/Lifecycle.antt =====
-- The end of a watcher: the kill signal, the cleaning up, and the next start.
use argusd.Base.{
  ℤ, Bool, false, eof, [], ℕ, ◌≡◌, ◌∙◌, pos, some, get_elem?, get_elem?-lt, get_elem?-set_self,
}
use argusd.Watch.{Watch}
use argusd.Os.{Os}
use argusd.Cache.{clear_watch}
use argusd.Cache.Arrays.{entries, IsWf}
use argusd.Table.{World, find_cached_slot}
use argusd.Table.Slots.{IsTable}
use argusd.Table.Search.{find_cached_slot-set}
use argusd.Notify.Reinit.{put}
use argusd.Notify.Kept.{put-Kept, clear_watch-IsWf, clear_watch-pid, clear_watch-sid}
use argusd.Notify.Start.{Request, find_or_create, finish_watch}

module _ (os : Os) (w : World os) (p : ℕ) (watch : Watch)
    (at : get_elem? w.heap p ≡ some watch) where
  -- The system after `finish_watch`.
  abbrev closed : os.State
  closed =
      let s₁ = os.epoll_ctl_del w.sys watch.efd watch.fd in
      let s₂ = os.epoll_ctl_del s₁ watch.efd watch.processevtfd in
      os.close (os.close (os.close s₂ watch.fd) watch.processevtfd) watch.efd

  finish_watch_done : finish_watch os w p ≡ some (put os w p (clear_watch watch) closed)
  unfolding finish_watch
  finish_watch_done = rw at

  -- What the end of a watcher leaves for the next start with its pid and sid.
  pub record Reusable (i : ℕ) (r : Request) (w' : World os) : Type 0 where
    pub done : finish_watch os w p ≡ some w'
    pub cleared : get_elem? w'.heap p ≡ some (clear_watch watch)
    pub table : IsTable w'
    pub again : find_or_create os w' r ≡ some (p, w')

  find_or_create_found :
      (v : World os) (i : ℕ) (r : Request)
      → find_cached_slot os v r.pid r.sid ≡ some (pos i)
      → get_elem? v.wlcache i ≡ some (some p)
      → find_or_create os v r ≡ some (p, v)
  unfolding find_or_create
  find_or_create_found v i r e c = rw (e, c)

  -- A watcher that is registered in a valid table, ends, and is started again with its pid and sid:
  -- the watch is cleared, the table stays valid, and the start takes the watch that is there.
  pub finish_watch-reuse :
      (i : ℕ) (r : Request)
      → IsTable w
      → IsWf watch
      → get_elem? w.wlcache i ≡ some (some p)
      → find_cached_slot os w watch.pid watch.sid ≡ some (pos i)
      → r.pid ≡ watch.pid
      → r.sid ≡ watch.sid
      → (w' : World os) × Reusable i r w'
  finish_watch-reuse i r t h c found same_pid same_sid =
      let k =
        put-Kept os w p (clear_watch watch) closed t (get_elem?-lt w.heap p at)
          (clear_watch-IsWf watch h) in
      let w' = put os w p (clear_watch watch) closed in
      (
        w',
        record {
          done = finish_watch_done;
          cleared = get_elem?-set_self w.heap p (clear_watch watch) (get_elem?-lt w.heap p at);
          table = k.table;
          again =
              find_or_create_found w' i r
                (find_cached_slot-set os w p watch (clear_watch watch) closed r.pid r.sid at
                    (clear_watch-pid watch) (clear_watch-sid watch)
                  ∙ (λ j. find_cached_slot os w (same_pid j) (same_sid j))
                  ∙ found)
                c;
        },
      )

-- close(2): a descriptor that is closed is not open, and closing one opens no other.
pub record Descriptors (os : Os) : Type 0 where
  pub is_open : os.State → ℤ → Bool
  pub close_closes : (s : os.State) (fd : ℤ) → is_open (os.close s fd) fd ≡ false
  pub close_opens_none :
      (s : os.State) (fd other : ℤ)
      → is_open s other ≡ false
      → is_open (os.close s fd) other ≡ false

module _ (os : Os) (d : Descriptors os) (w : World os) (p : ℕ) (watch : Watch)
    (at : get_elem? w.heap p ≡ some watch) where
  -- The watch has an empty cache and no descriptors, those that it had are closed, and it is there
  -- for the next start.
  pub record Cleaned (i : ℕ) (r : Request) (w' : World os) : Type 0 where
    pub reusable : Reusable os w p watch at i r w'
    pub watch' : Watch
    pub at' : get_elem? w'.heap p ≡ some watch'
    pub no_entries : entries watch' ≡ []
    pub no_fd : watch'.fd ≡ eof
    pub no_eventfd : watch'.processevtfd ≡ eof
    pub fd_closed : d.is_open w'.sys watch.fd ≡ false
    pub eventfd_closed : d.is_open w'.sys watch.processevtfd ≡ false
    pub epoll_closed : d.is_open w'.sys watch.efd ≡ false
