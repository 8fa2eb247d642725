-- ===== src/Notify/NewWatcher.antt =====
-- The start of a watcher that the table does not have yet.
use argusd.Base.{
  ℕ, ◌<◌, ◌≡◌, ◌≢◌, refl, sym, subst, ◌∙◌, inl, inr, eof, int_eq_ne, Bool-cases, some, [], ◌∷◌,
  ◌++◌, length, length-append, get_elem?, get_elem?-lt, get_elem?-set_self, get_elem?-append_length,
  take, arith,
}
use argusd.Watch.{Watch}
use argusd.Os.{Os, Allocates, WalksByCalls}
use argusd.Cache.Arrays.{entries, IsWf}
use argusd.Table.{World, find_cached_slot}
use argusd.Table.Slots.{IsTable, Valid-mono}
use argusd.Tree.Roots.{roots}
use argusd.Tree.Walk.{NoNull}
use argusd.Tree.Validate.{validate_root_paths}
use argusd.Notify.Reinit.{add_epoll_ctl_fds, put, reinitialize}
use argusd.Base.{◌>>=◌, true}
use argusd.Table.Search.{find_cached_slot-set}
use argusd.Notify.Kept.{same_arrays, Kept-trans, put-Kept}
use argusd.Notify.Opens.{Opens, IsOpen, reinitialize-IsOpen}
use argusd.Notify.Start.{
  wait_rounds, finish_if_stopped, Request, new_watch, configure, find_or_create, prepare, serve,
  start_inotify_watcher,
}

-- No call of `epoll_create1` runs out of descriptors.
abbrev pub EpollOpens : Os → Type 0
EpollOpens os = (s : os.State) → (os.epoll_create s).0 ≢ eof

module _ (os : Os) where
  -- The watch of a new watcher after `validate_root_paths`.
  abbrev pub validated : Request → os.State → Watch
  validated r sys = (validate_root_paths os (configure r (new_watch r)) sys).0

  pub validated-IsWf : (r : Request) (sys : os.State) → IsWf (validated r sys)
  unfolding validate_root_paths
  validated-IsWf r sys = elim (Bool-cases (os.allocate sys).0) [
    | inl ok ↦
        rw (validated, ok) (record { wd_allocated = omega arith; paths_allocated = omega arith })
    | inr bad ↦
        rw (validated, bad) (record { wd_allocated = omega arith; paths_allocated = omega arith })
  ]

  -- Its pid and sid, and its roots.
  pub record Configured (r : Request) (watch : Watch) : Type 0 where
    pub same_pid : watch.pid ≡ r.pid
    pub same_sid : watch.sid ≡ r.sid
    pub same_roots : roots watch ≡ take r.pathc r.paths
    pub no_slot : watch.slot ≡ eof
    pub no_entries : entries watch ≡ []

  pub validated-Configured : (r : Request) (sys : os.State) → Configured r (validated r sys)
  unfolding validate_root_paths
  validated-Configured r sys = elim (Bool-cases (os.allocate sys).0) [
    | inl ok ↦
        rw (validated, ok)
          (record {
            same_pid = refl;
            same_sid = refl;
            same_roots = refl;
            no_slot = refl;
            no_entries = refl;
          })
    | inr bad ↦
        rw (validated, bad)
          (record {
            same_pid = refl;
            same_sid = refl;
            same_roots = refl;
            no_slot = refl;
            no_entries = refl;
          })
  ]

  find_or_create_new :
      (w : World os) (r : Request)
      → find_cached_slot os w r.pid r.sid ≡ some eof
      → find_or_create os w r
        ≡ some (length w.heap, record w { heap = w.heap ++ (new_watch r ∷ []) })
  unfolding find_or_create
  find_or_create_new w r e = rw e

  -- The world with the placeholder of the new watcher.
  abbrev pub with_new : World os → Request → World os
  with_new w r = record w { heap = w.heap ++ (new_watch r ∷ []) }

  pub with_new-IsTable : (w : World os) (r : Request) → IsTable w → IsTable (with_new w r)
  with_new-IsTable w r t = record {
    counted = t.counted;
    valid =
        Valid-mono (length w.heap) _ w.wlcache
          (omega (arith, length-append w.heap (new_watch r ∷ []))) t.valid;
  }

  -- The system after `validate_root_paths`, and the world that `reinitialize` gets.
  abbrev pub validated_sys : World os → Request → os.State
  validated_sys w r = (validate_root_paths os (configure r (new_watch r)) w.sys).1

  abbrev pub with_validated : World os → Request → World os
  with_validated w r = put os (with_new w r) (length w.heap) (validated r w.sys) (validated_sys w r)

  -- The assertions hold: the watch at the end of the heap is rebuilt and open, and `serve` follows.
  pub record Prepared (w : World os) (r : Request) : Type 0 where
    pub before_loop : World os
    pub rebuilt : reinitialize os (with_validated w r) (length w.heap) ≡ some before_loop
    pub done : (n : ℕ) → start_inotify_watcher os n w r ≡ serve os n before_loop (length w.heap)
    pub is_open : IsOpen os (with_new w r) (length w.heap) r.pid r.sid before_loop

  prepare_done :
      (w w' : World os) (p : ℕ) (r : Request) (watch watch' : Watch)
      → get_elem? w.heap p ≡ some watch
      → reinitialize os
          (put os w p
            (validate_root_paths os (configure r watch) w.sys).0
            (validate_root_paths os (configure r watch) w.sys).1)
          p
        ≡ some w'
      → get_elem? w'.heap p ≡ some watch'
      → watch'.fd ≢ eof
      → watch'.processevtfd ≢ eof
      → prepare os w p r ≡ some w'
  unfolding prepare
  prepare_done w w' p r watch watch' at e at' fd eventfd =
      rw (at, e, at', int_eq_ne watch'.fd eof fd, int_eq_ne watch'.processevtfd eof eventfd)

  -- With memory, descriptors, and a walk that works by its calls: on a valid table that does not
  -- find the pid and sid of the request, and with roots that are not NULL, `start_inotify_watcher`
  -- passes its assertions. By then the table finds the pid and sid, it is valid, the new watch has
  -- both its descriptors, and no watch from before has changed.
  pub start_inotify_watcher-Prepared :
      Allocates os
      → WalksByCalls os
      → Opens os
      → (w : World os) (r : Request) → IsTable w
      → find_cached_slot os w r.pid r.sid ≡ some eof
      → NoNull (take r.pathc r.paths)
      → Prepared w r
  unfolding start_inotify_watcher
  start_inotify_watcher-Prepared alloc walks opens w r t absent n =
      let p = length w.heap in
      let w₁ = with_new w r in
      let t₁ = with_new-IsTable w r t in
      let at = get_elem?-append_length w.heap (new_watch r) [] in
      let l : p < length w₁.heap = get_elem?-lt w₁.heap p at in
      let v = validated r w.sys in
      let c = validated-Configured r w.sys in
      let sys = (validate_root_paths os (configure r (new_watch r)) w.sys).1 in
      let k = put-Kept os w₁ p v sys t₁ l (validated-IsWf r w.sys) in
      let (w₂, e, o) =
        reinitialize-IsOpen os alloc walks opens (put os w₁ p v sys) p v k.table
          (get_elem?-set_self w₁.heap p v l) (validated-IsWf r w.sys)
          (subst NoNull (sym c.same_roots) n) in
      let ready =
        prepare_done w₁ w₂ p r (new_watch r) o.kept.watch' at e o.kept.at o.open_fd
          o.open_eventfd in
      record {
        before_loop = w₂;
        rebuilt = e;
        done = λ rounds. rw (find_or_create_new w r absent, ready);
        is_open = record {
          kept = record {
            watch' = o.kept.watch';
            at = o.kept.at;
            wf = o.kept.wf;
            table = o.kept.table;
            others = (Kept-trans os w₁ (put os w₁ p v sys) w₂ p k o.kept).others;
          };
          open_fd = o.open_fd;
          open_eventfd = o.open_eventfd;
          found = (
            o.found.0,
            (λ i. find_cached_slot os w₂ (sym c.same_pid i) (sym c.same_sid i)) ∙ o.found.1,
            o.found.2,
          );
        };
      }

  -- The watcher is in its loop, with its three descriptors, and `n` rounds follow.
  pub record InLoop (w : World os) (r : Request) : Type 0 where
    pub in_loop : World os
    pub done :
        (n : ℕ)
        → start_inotify_watcher os n w r ≡ (
            wait_rounds os n true in_loop (length w.heap) >>= λ x.
            finish_if_stopped os x (length w.heap))
    pub is_open : IsOpen os (with_new w r) (length w.heap) r.pid r.sid in_loop
    pub open_epoll : is_open.kept.watch'.efd ≢ eof

  pub serve_done :
      (n : ℕ) (w : World os) (p : ℕ) (watch : Watch)
      → Allocates os
      → EpollOpens os
      → get_elem? w.heap p ≡ some watch
      → serve os n w p ≡ (
          let e = os.epoll_create (os.pthread_sigmask (os.allocate w.sys).1 true) in
          let added = add_epoll_ctl_fds os (record watch { efd = e.0 }) e.1 in
          wait_rounds os n true (put os w p added.0 added.1) p >>= λ x. finish_if_stopped os x p)
  unfolding serve
  serve_done n w p watch alloc epoll at =
      let e = os.epoll_create (os.pthread_sigmask (os.allocate w.sys).1 true) in
      rw (at, alloc w.sys, int_eq_ne e.0 eof (epoll _)) refl

  -- The watcher comes to its loop where `epoll_create1` gives a descriptor too.
  pub start_inotify_watcher-InLoop :
      Allocates os
      → WalksByCalls os
      → Opens os
      → EpollOpens os
      → (w : World os) (r : Request) → IsTable w
      → find_cached_slot os w r.pid r.sid ≡ some eof
      → NoNull (take r.pathc r.paths)
      → InLoop w r
  unfolding add_epoll_ctl_fds
  start_inotify_watcher-InLoop alloc walks opens epoll w r t absent n =
      let p = length w.heap in
      let s = start_inotify_watcher-Prepared alloc walks opens w r t absent n in
      let v = s.before_loop in
      let k = s.is_open.kept in
      let masked = os.pthread_sigmask (os.allocate v.sys).1 true in
      let e = os.epoll_create masked in
      let added = add_epoll_ctl_fds os (record k.watch' { efd = e.0 }) e.1 in
      let k' =
        put-Kept os v p added.0 added.1 k.table (get_elem?-lt v.heap p k.at)
          (same_arrays k.watch' added.0 k.wf refl refl refl) in
      let both = Kept-trans os (with_new w r) v (put os v p added.0 added.1) p k k' in
      record {
        in_loop = put os v p added.0 added.1;
        done = λ rounds. s.done rounds ∙ serve_done rounds v p k.watch' alloc epoll k.at;
        is_open = record {
          kept = record {
            watch' = added.0;
            at = get_elem?-set_self v.heap p added.0 (get_elem?-lt v.heap p k.at);
            wf = same_arrays k.watch' added.0 k.wf refl refl refl;
            table = k'.table;
            others = both.others;
          };
          open_fd = s.is_open.open_fd;
          open_eventfd = s.is_open.open_eventfd;
          found = (
            s.is_open.found.0,
            find_cached_slot-set os v p k.watch' added.0 added.1 r.pid r.sid k.at refl refl
                ∙ s.is_open.found.1,
            s.is_open.found.2,
          );
        };
        open_epoll = epoll masked;
      }
