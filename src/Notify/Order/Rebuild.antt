-- ===== src/Notify/Order/Rebuild.antt =====
-- `reinitialize` of lib/argusnotify.c leaves a cache that is in order with the kernel.
use mathlib.Core.Bool.{true≢false}
use argusd.Base.{
  ℕ, ◌≡◌, ◌≢◌, refl, sym, ap, subst, ◌∙◌, ◌⊎◌, inl, inr, ℤ, eof, int_eq, int_eq_ne, is_slot, Bool,
  true, false, Bool-cases, some, [], get_elem?, get_elem?-lt, get_elem?-set_self,
}
use argusd.Watch.{Watch}
use argusd.Os.{Os, Allocates, WalksByCalls}
use argusd.Cache.{clear_watch}
use argusd.Cache.Arrays.{entries, IsWf}
use argusd.Table.{World, find_cached_slot}
use argusd.Table.Slots.{IsTable}
use argusd.Tree.Roots.{roots}
use argusd.Tree.Walk.{NoNull}
use argusd.Tree.Totality.{Grown, Appends-refl, watch_path-Grown}
use argusd.Tree.Preserve.{PathKeeps-both, watch_subtree-Reaches}
use argusd.Tree.Kernel.{
  Still, Unmoved, Unmoved-trans, Kernel, InOrder, InOrder-sys, InOrder-watch, empty-InOrder,
  watch_path-InOrder,
}
use argusd.Tree.Settled.{AllKept, Passes, watch_path-Passes}
use argusd.Notify.Reinit.{
  put, close_open, add_epoll_ctl_fds, register, finish, populate, begin, reinitialize,
}
use argusd.Notify.Kept.{
  put-Kept, same_arrays, clear_watch-IsWf, clear_watch-NoNull, clear_watch-pid, clear_watch-sid,
}
use argusd.Notify.Opens.{Opens}
use argusd.Table.Search.{find_cached_slot-set}
use argusd.Notify.Order.{Fresh, Ordered, register-Ordered}

is_slot-ne : (watch : Watch) → is_slot watch.slot ≡ true → watch.slot ≢ eof
is_slot-ne watch h e = true≢false (sym h ∙ ap is_slot e)

clear_watch-slot : (watch : Watch) → (clear_watch watch).slot ≡ watch.slot
unfolding clear_watch
clear_watch-slot watch = elim (Bool-cases (int_eq watch.slot eof)) [ inl e ↦ rw e | inr e ↦ rw e ]

clear_watch-entries : (watch : Watch) → watch.slot ≢ eof → entries (clear_watch watch) ≡ []
unfolding clear_watch
clear_watch-entries watch ne = rw (int_eq_ne watch.slot eof ne) refl

module _ (os : Os) (kernel : Kernel os) (still : Still os kernel) where
  module _ (alloc : Allocates os) where
    module _ (walks : WalksByCalls os) (opens : Opens os) (fresh : Fresh os kernel) (w : World os)
        (p : ℕ) (old : Watch) (t : IsTable w) (at : get_elem? w.heap p ≡ some old) where
      -- The watch to be written back has the pid and the sid of the old one.
      record Named (u : Watch) : Type 0 where
        same_pid : u.pid ≡ old.pid
        same_sid : u.sid ≡ old.sid
        placeable : (u.slot ≢ eof) ⊎ (find_cached_slot os w old.pid old.sid ≡ some eof)

      put-Ordered :
          (fd : ℤ) (u : Watch) (sys : os.State)
          → InOrder os kernel fd u sys
          → Passes (os.lstat sys) u
          → Named u
          → Ordered os kernel still p fd (register os (put os w p u sys) p)
      put-Ordered fd u sys h passes n =
          let l = get_elem?-lt w.heap p at in
          let same =
            find_cached_slot-set os w p old u sys u.pid u.sid at n.same_pid n.same_sid
            ∙ ap (λ (i : ℤ × ℤ). find_cached_slot os w i.0 i.1)
                (λ i. (n.same_pid i, n.same_sid i)) in
          register-Ordered os kernel still alloc (put os w p u sys) p fd u
            (get_elem?-set_self w.heap p u l) (put-Kept os w p u sys t l h.wf).table h passes
            (elim n.placeable [ inl slot ↦ inl slot | inr missing ↦ inr (same ∙ missing) ])

      controlled-Unmoved :
          (v : Watch) (sys : os.State) → Unmoved os kernel sys (add_epoll_ctl_fds os v sys).1
      unfolding add_epoll_ctl_fds
      controlled-Unmoved v sys =
          Unmoved-trans os kernel sys _ _ (still.epoll_add_still sys v.efd v.fd _)
            (still.epoll_add_still _ v.efd v.processevtfd _)

      finish-Ordered :
          (fd : ℤ) (u : Watch) (rebuild : Bool) (processevtfd : ℤ) (sys : os.State)
          → InOrder os kernel fd u sys
          → Passes (os.lstat sys) u
          → Named u
          → processevtfd ≢ eof
          → Ordered os kernel still p fd (finish os w p u rebuild processevtfd sys)
      unfolding finish add_epoll_ctl_fds
      finish-Ordered fd u rebuild processevtfd sys h passes n ne = elim (Bool-cases rebuild) [
        | inl yes_ ↦
            let v : Watch = record u { processevtfd = processevtfd } in
            let unmoved = controlled-Unmoved v sys in
            rw (int_eq_ne processevtfd eof ne, yes_)
              (put-Ordered fd _ _
                (InOrder-watch os kernel fd u _ _ (same_arrays u _ h.wf refl refl refl) refl refl
                  refl
                  (InOrder-sys os kernel fd u sys _
                    (λ wd.
                      fresh.epoll_add_keeps _ u.efd processevtfd _ fd wd
                      ∙ fresh.epoll_add_keeps sys u.efd u.fd _ fd wd)
                    unmoved h))
                (subst (λ tree. Passes tree (add_epoll_ctl_fds os v sys).0) (sym unmoved.same_lstat)
                  (record {
                    wf = same_arrays u _ passes.wf refl refl refl;
                    no_null = passes.no_null;
                    kept = passes.kept;
                  }))
                (record { same_pid = n.same_pid; same_sid = n.same_sid; placeable = n.placeable }))
        | inr no_ ↦
            rw (int_eq_ne processevtfd eof ne, no_)
              (put-Ordered fd _ _
                (InOrder-watch os kernel fd u _ sys (same_arrays u _ h.wf refl refl refl) refl refl
                  refl h)
                (record {
                  wf = same_arrays u _ passes.wf refl refl refl;
                  no_null = passes.no_null;
                  kept = passes.kept;
                })
                (record { same_pid = n.same_pid; same_sid = n.same_sid; placeable = n.placeable }))
      ]

      populate-Ordered :
          (fd : ℤ) (u : Watch) (rebuild : Bool) (sys : os.State)
          → InOrder os kernel fd u sys
          → Passes (os.lstat sys) u
          → Named u
          → Ordered os kernel still p fd (populate os w p u rebuild sys)
      unfolding populate
      populate-Ordered fd u rebuild sys h passes n =
          let r =
            watch_subtree-Reaches os
              (λ watch s.
                InOrder os kernel fd watch s
                × (Passes (os.lstat s) watch × Grown os alloc u watch s))
              (PathKeeps-both os (InOrder os kernel fd) _
                (watch_path-InOrder os kernel still alloc fd)
                (PathKeeps-both os (λ watch s. Passes (os.lstat s) watch) (Grown os alloc u)
                  (watch_path-Passes os kernel still alloc) (watch_path-Grown os alloc u)))
              walks u sys h.no_null (h, (passes, ([], Appends-refl os u h.wf, h.no_null))) in
          let e = os.eventfd r.sys in
          let rest = r.holds.1.1.1.rest in
          rw r.returned (
            finish-Ordered fd r.watch rebuild e.0 e.1
              (InOrder-sys os kernel fd r.watch r.sys e.1 (λ wd. fresh.eventfd_keeps r.sys fd wd)
                (still.eventfd_still r.sys) r.holds.0)
              (subst (λ tree. Passes tree r.watch) (sym (still.eventfd_still r.sys).same_lstat)
                r.holds.1.0)
              (record {
                same_pid = ap (λ (x : Watch). x.pid) rest ∙ n.same_pid;
                same_sid = ap (λ (x : Watch). x.sid) rest ∙ n.same_sid;
                placeable = elim n.placeable [
                  | inl slot ↦ inl (λ q. slot (sym (ap (λ (x : Watch). x.slot) rest) ∙ q))
                  | inr missing ↦ inr missing
                ];
              })
              (opens.eventfd_opens r.sys))

      begin-Ordered :
          (s : os.State) (u : Watch) (rebuild : Bool)
          → IsWf u
          → NoNull (roots u)
          → entries u ≡ []
          → Named u
          → Ordered os kernel still p
              (os.inotify_init s).0
              (begin os w p u rebuild (os.inotify_init s).0 (os.inotify_init s).1)
      unfolding begin
      begin-Ordered s u rebuild wf no_null empty n =
          let r = os.inotify_init s in
          let v : Watch = record u { fd = r.0 } in
          let wf' = same_arrays u v wf refl refl refl in
          rw (int_eq_ne r.0 eof (opens.inotify_opens s)) (
            populate-Ordered r.0 v rebuild r.1
              (empty-InOrder os kernel r.0 v r.1 wf' no_null refl empty (fresh.init_fresh s))
              (record {
                wf = wf';
                no_null = no_null;
                kept = subst (AllKept (os.lstat r.1) u.flags) (sym empty) tt;
              })
              (record { same_pid = n.same_pid; same_sid = n.same_sid; placeable = n.placeable }))

  -- Where memory and descriptors do not run out, the walk works by its calls, inotify is as in
  -- inotify(7), a new instance watches nothing, and no file changes: on a valid table, and a watch
  -- whose arrays hold `pathc` items, none of whose roots is NULL, and that has a slot or else an
  -- empty cache and a pid and sid that the table does not find. Then `reinitialize` returns, and the
  -- watch has a slot, a new inotify instance, and a cache that has exactly the descriptors of this
  -- instance, each with a path to its object.
  pub reinitialize-Ordered :
      Allocates os
      → WalksByCalls os
      → Opens os
      → Fresh os kernel
      → (w : World os) (p : ℕ) (watch : Watch) → IsTable w
      → get_elem? w.heap p ≡ some watch
      → IsWf watch
      → NoNull (roots watch)
      → (is_slot watch.slot ≡ true)
        ⊎ ((entries watch ≡ []) × (find_cached_slot os w watch.pid watch.sid ≡ some eof))
      → (fd : ℤ) × Ordered os kernel still p fd (reinitialize os w p)
  unfolding reinitialize
  reinitialize-Ordered alloc walks opens fresh w p watch t at h n ready =
      elim (Bool-cases (is_slot watch.slot)) [
        | inl old ↦
            let slot = is_slot-ne watch old in
            let sys = close_open os (close_open os w.sys watch.fd) watch.processevtfd in
            let same_slot = clear_watch-slot watch in
            (
              (os.inotify_init sys).0,
              rw (at, old)
                  (begin-Ordered alloc walks opens fresh w p watch t at sys (clear_watch watch) true
                    (clear_watch-IsWf watch h) (clear_watch-NoNull watch n)
                    (clear_watch-entries watch slot)
                    (record {
                      same_pid = clear_watch-pid watch;
                      same_sid = clear_watch-sid watch;
                      placeable = inl (λ q. slot (sym same_slot ∙ q));
                    })),
            )
        | inr new_ ↦
            let idle : (entries watch ≡ [])
                × (find_cached_slot os w watch.pid watch.sid ≡ some eof) =
              elim ready [ inl old ↦ absurd (true≢false (sym old ∙ new_)) | inr idle ↦ idle ] in
            (
              (os.inotify_init w.sys).0,
              rw (at, new_)
                  (begin-Ordered alloc walks opens fresh w p watch t at w.sys watch false h n idle.0
                    (record { same_pid = refl; same_sid = refl; placeable = inr idle.1 })),
            )
      ]
