-- ===== src/Notify/Opens.antt =====
-- Where inotify and eventfd give descriptors, `reinitialize` leaves a watch that is ready, and
-- `start_inotify_watcher` passes its assertions.

use argusd.Base.{
  ℕ, ◌<◌, ◌≡◌, ◌≢◌, refl, sym, ap, subst, ◌∙◌, inl, inr, ℤ, eof, int_eq_ne, is_slot, Bool, true,
  false, Bool-cases, Option, some, length, get_elem?, get_elem?-lt, get_elem?-set_self,
}
use argusd.Watch.{Watch}
use argusd.Os.{Os, Allocates, WalksByCalls}
use argusd.Cache.{clear_watch}
use argusd.Cache.Arrays.{IsWf}
use argusd.Table.{World, find_cached_slot}
use argusd.Table.Slots.{IsTable}
use argusd.Tree.Roots.{roots}
use argusd.Tree.Walk.{NoNull}
use argusd.Tree.Totality.{watch_subtree-Grows}
use argusd.Notify.Reinit.{
  put, register, finish, populate, begin, close_open, add_epoll_ctl_fds, reinitialize,
}
use argusd.Notify.Kept.{
  Kept, Kept-trans, put-Kept, same_arrays, clear_watch-IsWf, clear_watch-NoNull, clear_watch-pid,
  clear_watch-sid,
}
use argusd.Notify.Ready.{register-Ready}

-- No call runs out of descriptors.
pub record Opens (os : Os) : Type 0 where
  pub inotify_opens : (s : os.State) → (os.inotify_init s).0 ≢ eof
  pub eventfd_opens : (s : os.State) → (os.eventfd s).0 ≢ eof

module _ (os : Os) where
  -- The watch at `p` has both descriptors, and the table finds the given pid and sid.
  pub record IsOpen (w : World os) (p : ℕ) (pid sid : ℤ) (w' : World os) : Type 0 where
    pub kept : Kept os w p w'
    pub open_fd : kept.watch'.fd ≢ eof
    pub open_eventfd : kept.watch'.processevtfd ≢ eof
    pub found : (r : ℤ) × (find_cached_slot os w' pid sid ≡ some r) × (r ≢ eof)

  -- The operation returns, and leaves the watch open.
  abbrev pub OpensWatch : World os → ℕ → ℤ → ℤ → Option (World os) → Type 0
  OpensWatch w p pid sid r = (w' : World os) × (r ≡ some w') × IsOpen w p pid sid w'

  module _ (alloc : Allocates os) (w : World os) (p : ℕ) (t : IsTable w)
      (l : p < length w.heap) where
    put-register-IsOpen :
        (watch : Watch) (sys : os.State)
        → IsWf watch
        → watch.fd ≢ eof
        → watch.processevtfd ≢ eof
        → OpensWatch w p watch.pid watch.sid (register os (put os w p watch sys) p)
    put-register-IsOpen watch sys h fd eventfd =
        let k = put-Kept os w p watch sys t l h in
        let (w', e, r) =
          register-Ready os alloc (put os w p watch sys) p watch k.table
            (get_elem?-set_self w.heap p watch l) h in
        (
          w',
          e,
          record {
            kept = record {
              watch' = r.kept.watch';
              at = r.kept.at;
              wf = r.kept.wf;
              table = r.kept.table;
              others = (Kept-trans os w (put os w p watch sys) w' p k r.kept).others;
            };
            open_fd = λ same. fd (sym r.same_fd ∙ same);
            open_eventfd = λ same. eventfd (sym r.same_eventfd ∙ same);
            found = r.found;
          },
        )

    finish-IsOpen :
        (watch : Watch) (rebuild : Bool) (processevtfd : ℤ) (sys : os.State)
        → IsWf watch
        → watch.fd ≢ eof
        → processevtfd ≢ eof
        → OpensWatch w p watch.pid watch.sid (finish os w p watch rebuild processevtfd sys)
    unfolding finish add_epoll_ctl_fds
    finish-IsOpen watch rebuild processevtfd sys h fd ne = elim (Bool-cases rebuild) [
      | inl yes_ ↦
          rw (int_eq_ne processevtfd eof ne, yes_)
            (put-register-IsOpen _ _ (same_arrays watch _ h refl refl refl) fd ne)
      | inr no_ ↦
          rw (int_eq_ne processevtfd eof ne, no_)
            (put-register-IsOpen _ _ (same_arrays watch _ h refl refl refl) fd ne)
    ]

    module _ (walks : WalksByCalls os) (opens : Opens os) where
      populate-IsOpen :
          (watch : Watch) (rebuild : Bool) (sys : os.State)
          → IsWf watch
          → NoNull (roots watch)
          → watch.fd ≢ eof
          → OpensWatch w p watch.pid watch.sid (populate os w p watch rebuild sys)
      unfolding populate
      populate-IsOpen watch rebuild sys h n fd =
          let g = watch_subtree-Grows os alloc walks watch sys h n in
          let r = os.eventfd g.sys' in
          let same_fd = ap (λ (x : Watch). x.fd) g.appends.rest in
          rw g.returned (
            subst (λ (i : ℤ × ℤ). OpensWatch w p i.0 i.1 (finish os w p g.watch' rebuild r.0 r.1))
              (ap (λ (x : Watch). (x.pid, x.sid)) g.appends.rest)
              (finish-IsOpen g.watch' rebuild r.0 r.1 g.appends.wf (λ same. fd (sym same_fd ∙ same))
                (opens.eventfd_opens g.sys')))

      begin-IsOpen :
          (watch : Watch) (rebuild : Bool) (fd : ℤ) (sys : os.State)
          → IsWf watch
          → NoNull (roots watch)
          → fd ≢ eof
          → OpensWatch w p watch.pid watch.sid (begin os w p watch rebuild fd sys)
      unfolding begin
      begin-IsOpen watch rebuild fd sys h n ne = rw (int_eq_ne fd eof ne) (
          populate-IsOpen (record watch { fd = fd }) rebuild sys
            (same_arrays watch _ h refl refl refl) n ne)

  -- With memory, descriptors, and a walk that works by its calls: on a valid table, and a watch
  -- whose arrays hold `pathc` items and none of whose roots is NULL, `reinitialize` returns, the
  -- table stays valid and finds the pid and sid of the watch, the watch has both its descriptors,
  -- and no other watch changes.
  pub reinitialize-IsOpen :
      Allocates os
      → WalksByCalls os
      → Opens os
      → (w : World os) (p : ℕ) (watch : Watch) → IsTable w
      → get_elem? w.heap p ≡ some watch
      → IsWf watch
      → NoNull (roots watch)
      → OpensWatch w p watch.pid watch.sid (reinitialize os w p)
  unfolding reinitialize
  reinitialize-IsOpen alloc walks opens w p watch t at h n =
      let l = get_elem?-lt w.heap p at in
      elim (Bool-cases (is_slot watch.slot)) [
        | inl old ↦
            let sys = close_open os (close_open os w.sys watch.fd) watch.processevtfd in
            let r = os.inotify_init sys in
            rw (at, old)
              (subst
                (λ (i : ℤ × ℤ).
                  OpensWatch w p i.0 i.1 (begin os w p (clear_watch watch) true r.0 r.1))
                (λ i. (clear_watch-pid watch i, clear_watch-sid watch i))
                (begin-IsOpen alloc w p t l walks opens (clear_watch watch) true r.0 r.1
                  (clear_watch-IsWf watch h) (clear_watch-NoNull watch n)
                  (opens.inotify_opens sys)))
        | inr new_ ↦
            let r = os.inotify_init w.sys in
            rw (at, new_)
              (begin-IsOpen alloc w p t l walks opens watch false r.0 r.1 h n
                (opens.inotify_opens w.sys))
      ]
