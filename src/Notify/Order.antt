-- ===== src/Notify/Order.antt =====
-- The end of `reinitialize` of lib/argusnotify.c, and when the cache is in order with the kernel.
pub mod Rebuild
pub mod Start
pub mod Told
use mathlib.Core.Bool.{true≢false}
use mathlib.Core.Option.{some-injective}
use argusd.Base.{
  ℕ, ◌≡◌, ◌≢◌, refl, sym, ap, subst, ◌∙◌, ◌⊎◌, inl, inr, ℤ, pos, eof, int_eq, int_eq_iff, int_eq_ne,
  is_slot, Bool, true, false, Bool-cases, Option, none, some, List, [], ◌∷◌, get_elem?,
  get_elem?-lt, get_elem?-set_self, length, ◌<◌, if◌then◌else◌, ◌>>=◌, Text,
}
use argusd.Watch.{Watch, Stat, EpollEvent}
use argusd.Os.{Os, Allocates, WalksByCalls}
use argusd.Cache.{clear_watch, check_cache_consistency}
use argusd.Cache.Arrays.{entries, IsWf}
use argusd.Cache.Consistency.{check_cache_consistency-IsWf}
use argusd.Table.{World, find_cached_slot, add_watch_to_cache}
use argusd.Table.Slots.{IsTable}
use argusd.Table.Register.{add_watch_to_cache_lem}
use argusd.Table.System.{OnSome, add_watch_to_cache-Holds}
use argusd.Tree.{watch_subtree}
use argusd.Tree.Roots.{roots}
use argusd.Tree.Walk.{NoNull}
use argusd.Tree.Totality.{Grown, Appends-refl, watch_path-Grown}
use argusd.Tree.Preserve.{PathKeeps-both, watch_subtree-Reaches}
use argusd.Tree.Kernel.{
  Still, Unmoved, Unmoved-trans, Kernel, InOrder, InOrder-sys, InOrder-watch, empty-InOrder,
  watch_path-InOrder,
}
use argusd.Tree.Settled.{AllKept, Passes, check_cache_consistency-Passes, watch_path-Passes}
use argusd.Notify.Reinit.{
  put, close_open, add_epoll_ctl_fds, register, finish, populate, begin, reinitialize,
}
use argusd.Notify.Kept.{
  put-Kept, find_cached_slot-total, same_arrays, clear_watch-IsWf, clear_watch-NoNull,
  clear_watch-pid, clear_watch-sid,
}
use argusd.Notify.Ready.{check_cache_consistency-SameRest}
use argusd.Notify.Opens.{Opens}
use argusd.Table.Search.{find_cached_slot-set}

-- A new inotify instance watches nothing; eventfds and epoll leave the instances alone.
pub record Fresh (os : Os) (kernel : Kernel os) : Type 0 where
  pub init_fresh :
      (s : os.State) (wd : ℤ) → kernel.marked (os.inotify_init s).1 (os.inotify_init s).0 wd ≡ none
  pub eventfd_keeps :
      (s : os.State) (fd wd : ℤ) → kernel.marked (os.eventfd s).1 fd wd ≡ kernel.marked s fd wd
  pub epoll_add_keeps :
      (s : os.State) (efd other : ℤ) (event : EpollEvent) (fd wd : ℤ)
      → kernel.marked (os.epoll_ctl_add s efd other event) fd wd ≡ kernel.marked s fd wd
  pub epoll_create_keeps :
      (s : os.State) (fd wd : ℤ) → kernel.marked (os.epoll_create s).1 fd wd ≡ kernel.marked s fd wd
  pub sigmask_keeps :
      (s : os.State) (on : Bool) (fd wd : ℤ)
      → kernel.marked (os.pthread_sigmask s on) fd wd ≡ kernel.marked s fd wd

module _ (os : Os) (kernel : Kernel os) (still : Still os kernel) where
  -- The operation returns, and the cache of the watch at `p` is in order with the instance `fd`.
  pub record Ordered (p : ℕ) (fd : ℤ) (r : Option (World os)) : Type 0 where
    pub after : World os
    pub returned : r ≡ some after
    pub watch : Watch
    pub at : get_elem? after.heap p ≡ some watch
    pub order : InOrder os kernel fd watch after.sys
    pub has_slot : watch.slot ≢ eof

  check-Ordered :
      (w : World os) (p : ℕ) (fd : ℤ) (u : Watch)
      → get_elem? w.heap p ≡ some u
      → InOrder os kernel fd u w.sys
      → Passes (os.lstat w.sys) u
      → u.slot ≢ eof
      → Ordered p fd (some (put os w p (check_cache_consistency (os.lstat w.sys) u) w.sys))
  check-Ordered w p fd u at h passes slot =
      let v = check_cache_consistency (os.lstat w.sys) u in
      let rest = check_cache_consistency-SameRest (os.lstat w.sys) u in
      let same_entries = check_cache_consistency-Passes (os.lstat w.sys) u passes in
      record {
        after = put os w p v w.sys;
        returned = refl;
        watch = v;
        at = get_elem?-set_self w.heap p v (get_elem?-lt w.heap p at);
        order =
            InOrder-watch os kernel fd u v w.sys
              (check_cache_consistency-IsWf (os.lstat w.sys) u h.wf) (ap roots rest)
              (ap (λ (x : Watch). x.fd) rest) same_entries h;
        has_slot = λ e. slot (sym (ap (λ (x : Watch). x.slot) rest) ∙ e);
      }

  module _ (alloc : Allocates os) where
    add_watch-marks :
        (w w' : World os) (p : ℕ) (fd : ℤ)
        → add_watch_to_cache os w p ≡ some w'
        → (wd : ℤ) → kernel.marked w'.sys fd wd ≡ kernel.marked w.sys fd wd
    add_watch-marks w w' p fd e =
        subst
          (OnSome
            (λ (v : World os). (wd : ℤ) → kernel.marked v.sys fd wd ≡ kernel.marked w.sys fd wd))
          e
          (add_watch_to_cache-Holds os
            (λ s. (wd : ℤ) → kernel.marked s fd wd ≡ kernel.marked w.sys fd wd)
            (λ s k wd. kernel.allocate_keeps s fd wd ∙ k wd) w p (λ wd. refl))

    add_watch-Unmoved :
        (w w' : World os) (p : ℕ)
        → add_watch_to_cache os w p ≡ some w'
        → Unmoved os kernel w.sys w'.sys
    add_watch-Unmoved w w' p e =
        subst (OnSome (λ (v : World os). Unmoved os kernel w.sys v.sys)) e (
          add_watch_to_cache-Holds os (Unmoved os kernel w.sys)
            (λ s k. Unmoved-trans os kernel w.sys s (os.allocate s).1 k (still.allocate_still s)) w
            p (record { same_lstat = refl; same_object = refl }))

    -- The watch has a slot, or the table does not find it.
    abbrev Placeable : World os → Watch → Type 0
    Placeable w u = (u.slot ≢ eof) ⊎ (find_cached_slot os w u.pid u.sid ≡ some eof)

    pub register-Ordered :
        (w : World os) (p : ℕ) (fd : ℤ) (u : Watch)
        → get_elem? w.heap p ≡ some u
        → IsTable w
        → InOrder os kernel fd u w.sys
        → Passes (os.lstat w.sys) u
        → Placeable w u
        → Ordered p fd (register os w p)
    unfolding register
    register-Ordered w p fd u at t h passes placeable =
        let (r, e) = find_cached_slot-total os w u.pid u.sid t in
        elim (Bool-cases (int_eq r eof)) [
          | inr found ↦
              let slot : u.slot ≢ eof = elim placeable [
                | inl slot ↦ slot
                | inr missing ↦ absurd (
                    true≢false
                      (sym ((int_eq_iff r eof).1 (some-injective _ _ (sym e ∙ missing))) ∙ found))
              ] in
              rw (at, e, found, at) (check-Ordered w p fd u at h passes slot)
          | inl fresh ↦
              let missing = e ∙ ap some ((int_eq_iff r eof).0 fresh) in
              let (i, w₁, g) = add_watch_to_cache_lem os alloc w p u t at missing in
              let u₁ : Watch = record u { slot = pos i } in
              let unmoved = add_watch-Unmoved w w₁ p g.done in
              let v = check_cache_consistency (os.lstat w₁.sys) u₁ in
              let done : register os w p ≡ some (put os w₁ p v w₁.sys) =
                rw (at, e, fresh, g.done, g.slot) refl in
              subst (Ordered p fd) (sym done) (
                check-Ordered w₁ p fd u₁ g.slot
                  (InOrder-watch os kernel fd u u₁ w₁.sys (same_arrays u u₁ h.wf refl refl refl)
                    refl refl refl
                    (InOrder-sys os kernel fd u w.sys w₁.sys (add_watch-marks w w₁ p fd g.done)
                      unmoved h))
                  (subst (λ tree. Passes tree u₁) (sym unmoved.same_lstat)
                    (record {
                      wf = same_arrays u u₁ passes.wf refl refl refl;
                      no_null = passes.no_null;
                      kept = passes.kept;
                    }))
                  (λ q. cc))
        ]
