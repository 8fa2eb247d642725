-- ===== src/Notify/Order/Start.antt =====
-- A watcher from its start in lib/argusnotify.c to its loop: its cache is in order with the kernel
-- when it begins to wait.
use mathlib.Core.Option.{some-injective}
use argusd.Base.{
  ℕ, ◌≡◌, ◌≢◌, refl, sym, ap, subst, ◌∙◌, inr, ℤ, eof, true, some, [], ◌∷◌, length, get_elem?,
  get_elem?-lt, get_elem?-set_self, get_elem?-append_length, take, ◌<◌, ◌>>=◌,
}
use argusd.Watch.{Watch}
use argusd.Os.{Os, Allocates, WalksByCalls}
use argusd.Table.{World, find_cached_slot}
use argusd.Table.Slots.{IsTable}
use argusd.Table.Search.{find_cached_slot-set, find_cached_slot-append}
use argusd.Tree.Walk.{NoNull}
use argusd.Tree.Kernel.{Still, Unmoved-trans, Kernel, InOrder, InOrder-sys, InOrder-watch}
use argusd.Notify.Reinit.{put, add_epoll_ctl_fds, reinitialize}
use argusd.Notify.Kept.{put-Kept, same_arrays}
use argusd.Notify.Opens.{Opens}
use argusd.Notify.Start.{Request, new_watch, wait_rounds, finish_if_stopped, start_inotify_watcher}
use argusd.Notify.NewWatcher.{
  validated, validated-IsWf, validated-Configured, with_new, with_new-IsTable, with_validated,
  validated_sys, EpollOpens, serve_done, start_inotify_watcher-Prepared,
}
use argusd.Notify.Order.{Fresh, Ordered}
use argusd.Notify.Order.Rebuild.{reinitialize-Ordered}

module _ (os : Os) (kernel : Kernel os) where
  -- The watcher comes to its loop in a world where its cache is in order, and waits there.
  pub record Waits (w : World os) (r : Request) : Type 0 where
    pub in_loop : World os
    pub done :
        (n : ℕ)
        → start_inotify_watcher os n w r ≡ (
            wait_rounds os n true in_loop (length w.heap) >>= λ x.
            finish_if_stopped os x (length w.heap))
    pub watch : Watch
    pub at : get_elem? in_loop.heap (length w.heap) ≡ some watch
    pub order : InOrder os kernel watch.fd watch in_loop.sys
    pub has_slot : watch.slot ≢ eof

  -- What `serve` does before its loop keeps the order.
  entered-InOrder :
      (watch : Watch) (s : os.State)
      → Allocates os
      → Still os kernel
      → Fresh os kernel
      → InOrder os kernel watch.fd watch s
      → (let e = os.epoll_create (os.pthread_sigmask (os.allocate s).1 true) in
          let added = add_epoll_ctl_fds os (record watch { efd = e.0 }) e.1 in
          InOrder os kernel watch.fd added.0 added.1)
  unfolding add_epoll_ctl_fds
  entered-InOrder watch s alloc still fresh h =
      let masked = os.pthread_sigmask (os.allocate s).1 true in
      let e = os.epoll_create masked in
      let trans = Unmoved-trans os kernel in
      let unmoved = trans s _ _ (still.allocate_still s) (
        trans _ _ _ (still.sigmask_still (os.allocate s).1 true) (
          trans _ _ _ (still.epoll_create_still masked) (
            trans _ _ _ (still.epoll_add_still e.1 e.0 watch.fd _)
              (still.epoll_add_still _ e.0 watch.processevtfd _)))) in
      InOrder-watch os kernel watch.fd watch _ _ (same_arrays watch _ h.wf refl refl refl) refl refl
        refl
        (InOrder-sys os kernel watch.fd watch s _
          (λ wd.
            fresh.epoll_add_keeps _ e.0 watch.processevtfd _ watch.fd wd
            ∙ fresh.epoll_add_keeps e.1 e.0 watch.fd _ watch.fd wd
            ∙ fresh.epoll_create_keeps masked watch.fd wd
            ∙ fresh.sigmask_keeps (os.allocate s).1 true watch.fd wd
            ∙ kernel.allocate_keeps s watch.fd wd)
          unmoved h)

  module _ (still : Still os kernel) where
    -- The rebuilt watch of a new watcher.
    validated-Ordered :
        Allocates os
        → WalksByCalls os
        → Opens os
        → Fresh os kernel
        → (w : World os) (r : Request) → IsTable w
        → find_cached_slot os w r.pid r.sid ≡ some eof
        → NoNull (take r.pathc r.paths)
        → (fd : ℤ) × Ordered os kernel still
            (length w.heap)
            fd
            (reinitialize os (with_validated os w r) (length w.heap))
    validated-Ordered alloc walks opens fresh w r t absent n =
        let p = length w.heap in
        let w₁ = with_new os w r in
        let v = validated os r w.sys in
        let c = validated-Configured os r w.sys in
        let at = get_elem?-append_length w.heap (new_watch r) [] in
        let l : p < length w₁.heap = get_elem?-lt w₁.heap p at in
        let missing =
          find_cached_slot-set os w₁ p (new_watch r) v (validated_sys os w r) v.pid v.sid at
            c.same_pid c.same_sid
          ∙ (λ i. find_cached_slot os w₁ (c.same_pid i) (c.same_sid i))
          ∙ find_cached_slot-append os w (new_watch r ∷ []) r.pid r.sid t
          ∙ absent in
        reinitialize-Ordered os kernel still alloc walks opens fresh (with_validated os w r) p v
          (put-Kept os w₁ p v (validated_sys os w r) (with_new-IsTable os w r t) l
            (validated-IsWf os r w.sys)).table
          (get_elem?-set_self w₁.heap p v l) (validated-IsWf os r w.sys)
          (subst NoNull (sym c.same_roots) n) (inr (c.no_entries, missing))

    -- Where memory and descriptors do not run out, the walk works by its calls, inotify is as in
    -- inotify(7), a new instance watches nothing, and no file changes: on a valid table that does not
    -- find the pid and sid of the request, and with roots that are not NULL, the watcher comes to its
    -- loop. By then its watch has a slot, and its cache has exactly the descriptors of its inotify
    -- instance, each with a path to its object.
    pub start_inotify_watcher-Waits :
        Allocates os
        → WalksByCalls os
        → Opens os
        → EpollOpens os
        → Fresh os kernel
        → (w : World os) (r : Request) → IsTable w
        → find_cached_slot os w r.pid r.sid ≡ some eof
        → NoNull (take r.pathc r.paths)
        → Waits w r
    unfolding add_epoll_ctl_fds
    start_inotify_watcher-Waits alloc walks opens epoll fresh w r t absent n =
        let p = length w.heap in
        let s = start_inotify_watcher-Prepared os alloc walks opens w r t absent n in
        let (fd, o) = validated-Ordered alloc walks opens fresh w r t absent n in
        let v = s.before_loop in
        let same : o.after ≡ v = some-injective _ _ (sym o.returned ∙ s.rebuilt) in
        let watch = o.watch in
        let at : get_elem? v.heap p ≡ some watch =
          ap (λ (x : World os). get_elem? x.heap p) (sym same) ∙ o.at in
        let order : InOrder os kernel watch.fd watch v.sys =
          subst (λ (x : World os). InOrder os kernel watch.fd watch x.sys) same
            (subst (λ d. InOrder os kernel d watch o.after.sys) (sym o.order.instance_fd)
              o.order) in
        let e = os.epoll_create (os.pthread_sigmask (os.allocate v.sys).1 true) in
        let added = add_epoll_ctl_fds os (record watch { efd = e.0 }) e.1 in
        record {
          in_loop = put os v p added.0 added.1;
          done = λ rounds. s.done rounds ∙ serve_done os rounds v p watch alloc epoll at;
          watch = added.0;
          at = get_elem?-set_self v.heap p added.0 (get_elem?-lt v.heap p at);
          order = entered-InOrder watch v.sys alloc still fresh order;
          has_slot = o.has_slot;
        }
