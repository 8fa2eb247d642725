-- ===== src/Notify/Rebuild.antt =====
-- `reinitialize` on a valid table: it returns, and leaves the table and the watch in order.
use argusd.Base.{
  ℕ, ◌<◌, ◌≡◌, refl, inl, inr, ℤ, eof, int_eq, is_slot, Bool, true, false, Bool-cases, Option, some,
  length, get_elem?, get_elem?-lt, get_elem?-set_self,
}
use argusd.Watch.{Watch}
use argusd.Os.{Os, Allocates, WalksByCalls}
use argusd.Cache.{clear_watch}
use argusd.Cache.Arrays.{IsWf}
use argusd.Table.{World}
use argusd.Table.Slots.{IsTable}
use argusd.Tree.Roots.{roots}
use argusd.Tree.Walk.{NoNull}
use argusd.Tree.Totality.{watch_subtree-Grows}
use argusd.Notify.Reinit.{
  put, register, finish, populate, begin, close_open, add_epoll_ctl_fds, reinitialize,
}
use argusd.Notify.Kept.{
  Kept, Kept-trans, put-Kept, same_arrays, clear_watch-IsWf, clear_watch-NoNull,
}
use argusd.Notify.Ready.{register-Ready}

module _ (os : Os) where
  -- The operation returns, and keeps what `Kept` says.
  abbrev pub Keeps : World os → ℕ → Option (World os) → Type 0
  Keeps w p r = (w' : World os) × (r ≡ some w') × Kept os w p w'

  module _ (alloc : Allocates os) where
    put-register-Keeps :
        (w : World os) (p : ℕ) (watch : Watch) (sys : os.State)
        → IsTable w
        → p < length w.heap
        → IsWf watch
        → Keeps w p (register os (put os w p watch sys) p)
    put-register-Keeps w p watch sys t l h =
        let k = put-Kept os w p watch sys t l h in
        let (w', e, k') =
          register-Ready os alloc (put os w p watch sys) p watch k.table
            (get_elem?-set_self w.heap p watch l) h in
        (w', e, Kept-trans os w (put os w p watch sys) w' p k k'.kept)

    finish-Keeps :
        (w : World os) (p : ℕ) (watch : Watch) (rebuild : Bool) (processevtfd : ℤ) (sys : os.State)
        → IsTable w
        → p < length w.heap
        → IsWf watch
        → Keeps w p (finish os w p watch rebuild processevtfd sys)
    unfolding finish add_epoll_ctl_fds
    finish-Keeps w p watch rebuild processevtfd sys t l h =
        elim (Bool-cases (int_eq processevtfd eof)) [
          | inl bad ↦ (put os w p watch sys, rw bad, put-Kept os w p watch sys t l h)
          | inr good ↦ elim (Bool-cases rebuild) [
            | inl yes_ ↦
                rw (good, yes_)
                  (put-register-Keeps w p _ _ t l (same_arrays watch _ h refl refl refl))
            | inr no_ ↦
                rw (good, no_)
                  (put-register-Keeps w p _ _ t l (same_arrays watch _ h refl refl refl))
          ]
        ]

    module _ (walks : WalksByCalls os) where
      populate-Keeps :
          (w : World os) (p : ℕ) (watch : Watch) (rebuild : Bool) (sys : os.State)
          → IsTable w
          → p < length w.heap
          → IsWf watch
          → NoNull (roots watch)
          → Keeps w p (populate os w p watch rebuild sys)
      unfolding populate
      populate-Keeps w p watch rebuild sys t l h n =
          let g = watch_subtree-Grows os alloc walks watch sys h n in
          let r = os.eventfd g.sys' in
          rw g.returned (finish-Keeps w p g.watch' rebuild r.0 r.1 t l g.appends.wf)

      begin-Keeps :
          (w : World os) (p : ℕ) (watch : Watch) (rebuild : Bool) (fd : ℤ) (sys : os.State)
          → IsTable w
          → p < length w.heap
          → IsWf watch
          → NoNull (roots watch)
          → Keeps w p (begin os w p watch rebuild fd sys)
      unfolding begin
      begin-Keeps w p watch rebuild fd sys t l h n = elim (Bool-cases (int_eq fd eof)) [
        | inl bad ↦ (put os w p watch sys, rw bad, put-Kept os w p watch sys t l h)
        | inr good ↦ rw good (
            populate-Keeps w p (record watch { fd = fd }) rebuild sys t l
              (same_arrays watch _ h refl refl refl) n)
      ]

      -- With memory, and a walk that works by its calls: on a valid table, and a watch whose arrays
      -- hold `pathc` items and none of whose roots is NULL, `reinitialize` returns, also where
      -- inotify or eventfd fails. The table stays valid, the arrays of the watch hold its `pathc`
      -- items again, and no other watch changes.
      pub reinitialize-Keeps :
          (w : World os) (p : ℕ) (watch : Watch)
          → IsTable w
          → get_elem? w.heap p ≡ some watch
          → IsWf watch
          → NoNull (roots watch)
          → Keeps w p (reinitialize os w p)
      unfolding reinitialize
      reinitialize-Keeps w p watch t at h n =
          let l = get_elem?-lt w.heap p at in
          elim (Bool-cases (is_slot watch.slot)) [
            | inl old ↦
                let sys = close_open os (close_open os w.sys watch.fd) watch.processevtfd in
                let r = os.inotify_init sys in
                rw (at, old)
                  (begin-Keeps w p (clear_watch watch) true r.0 r.1 t l (clear_watch-IsWf watch h)
                    (clear_watch-NoNull watch n))
            | inr new_ ↦
                let r = os.inotify_init w.sys in
                rw (at, new_) (begin-Keeps w p watch false r.0 r.1 t l h n)
          ]
