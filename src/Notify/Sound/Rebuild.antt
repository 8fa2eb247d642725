-- ===== src/Notify/Sound/Rebuild.antt =====
-- The operations of lib/arguscache.c, lib/argustree.c and `reinitialize` keep the world sound.

use argusd.Base.{
  ℕ, suc, ◌+◌, ◌≡◌, refl, sym, subst, ◌∙◌, inl, inr, ℤ, pos, eof, int_eq, is_slot, Bool, Bool-cases,
  Option, none, some, List, [], ◌∷◌, Text, get_elem?, length, length-set, length-append, take, ltb,
  arith, if◌then◌else◌, ◌>>=◌,
}
use argusd.Watch.{Watch}
use argusd.Os.{Os, Allocates, WalksByCalls}
use argusd.Cache.{clear_watch, check_cache_consistency}
use argusd.Cache.Arrays.{IsWf}
use argusd.Cache.Consistency.{check_cache_consistency-IsWf}
use argusd.Table.{World, blank_watch, find_cached_slot, mark_cache_slot_empty, add_watch_to_cache}
use argusd.Table.Cells.{blanks}
use argusd.Table.Slots.{Valid-set}
use argusd.Table.Register.{add_watch_to_cache_done}
use argusd.Table.System.{OnSome, OnSome-bind, OnSome-any}
use argusd.Tree.{watch_subtree, is_below, remove_entries, remove_subtree}
use argusd.Notify.Reinit.{
  put, add_epoll_ctl_fds, register, finish, populate, begin, reinitialize, kill_from,
  send_watcher_kill_signal,
}
use argusd.Notify.Kept.{same_arrays, clear_watch-IsWf}
use argusd.Notify.Sound.{
  AllWf, AllWf-append, AllWf-blanks, Sound, OnSome-self, put-Sound, sys-Sound, append-Sound, Keeps,
  with_watch,
}
use argusd.Notify.Sound.Walk.{watch_subtree-IsWf}

module _ (os : Os) where
  pub mark_cache_slot_empty-Sound :
      (w : World os) (slot : ℕ) → Sound w → Keeps os (mark_cache_slot_empty os w slot)
  unfolding mark_cache_slot_empty
  mark_cache_slot_empty-Sound w slot h = elim (Bool-cases (os.allocate w.sys).0) [
    | inr bad ↦ rw bad (sys-Sound os w (os.allocate w.sys).1 h)
    | inl ok ↦ elim (Bool-cases (ltb slot (length w.wlcache))) [
      | inr outside ↦ rw (ok, outside) tt
      | inl inside ↦
          let grown =
            append-Sound os w blank_watch h
              (record { wd_allocated = omega arith; paths_allocated = omega arith }) in
          rw (ok, inside)
            (record {
              table = record {
                counted = h.table.counted ∙ sym (length-set w.wlcache slot (some (length w.heap)));
                valid =
                    Valid-set _ w.wlcache slot (length w.heap)
                      (omega (arith, length-append w.heap (blank_watch ∷ []))) grown.table.valid;
              };
              arrays = grown.arrays;
            })
    ]
  ]

  kill_from-any :
      (w : World os) (o : Option os.State)
      → Sound w
      → Keeps os (o >>= λ sys. some (record w { sys = sys }))
  kill_from-any w none h = tt
  kill_from-any w (some sys) h = sys-Sound os w sys h

  pub send_watcher_kill_signal-Sound :
      (w : World os) (pid : ℤ) → Sound w → Keeps os (send_watcher_kill_signal os w pid)
  unfolding send_watcher_kill_signal
  send_watcher_kill_signal-Sound w pid h =
      kill_from-any w (kill_from os pid w.heap w.wlcachec w.wlcache w.sys) h

  -- What leaves a number and a sound world, unless it faults.
  abbrev pub KeepsWith {ℓ} : {A : Type ℓ} → Option (A × World os) → Type 0
  KeepsWith = OnSome (λ r. Sound r.1)

  remove_entries-Sound :
      (fd : ℤ) (path : Text) (wds : List ℤ) (paths : List Text) (i cnt : ℕ) (w : World os)
      → Sound w
      → KeepsWith (remove_entries os fd path wds paths i cnt w)
  unfolding remove_entries
  remove_entries-Sound fd path [] paths i cnt w h = h
  remove_entries-Sound fd path (wd ∷ wds) [] i cnt w h = h
  remove_entries-Sound fd path (wd ∷ wds) (q ∷ paths) i cnt w h =
      let r = os.inotify_rm_watch w.sys fd wd in
      let h' = sys-Sound os w r.1 h in
      elim (Bool-cases (is_below path q)) [
        | inr other ↦ rw other (remove_entries-Sound fd path wds paths (suc i) cnt w h)
        | inl below ↦ elim (Bool-cases (int_eq r.0 eof)) [
          | inl failed ↦ rw (below, failed) h'
          | inr removed ↦
              rw (below, removed)
                (OnSome-bind (λ (v : World os). Sound v) _ _ _
                  (mark_cache_slot_empty-Sound (record w { sys = r.1 }) i h')
                  (λ v k. remove_entries-Sound fd path wds paths (suc i) (cnt + 1) v k))
        ]
      ]

  pub remove_subtree-Sound :
      (w : World os) (p : ℕ) (path : Text) → Sound w → KeepsWith (remove_subtree os w p path)
  unfolding remove_subtree
  remove_subtree-Sound w p path h =
      OnSome-bind (λ u. get_elem? w.heap p ≡ some u) _ (get_elem? w.heap p) _
        (OnSome-self (get_elem? w.heap p))
        (λ u e. remove_entries-Sound u.fd path (take u.pathc u.wd) (take u.pathc u.paths) 0 0 w h)

  module _ (alloc : Allocates os) where
    add_watch_to_cache-Sound :
        (w : World os) (p : ℕ) (watch : Watch)
        → get_elem? w.heap p ≡ some watch
        → Sound w
        → Keeps os (add_watch_to_cache os w p)
    add_watch_to_cache-Sound w p watch at h =
        let (i, w₁, f, at₁, done, table) = add_watch_to_cache_done os alloc w p watch h.table at in
        let (n, e) = f.heap_kept in
        let old : AllWf w₁.heap =
          subst AllWf (sym e) (AllWf-append w.heap (blanks n) h.arrays (AllWf-blanks n)) in
        let before : Sound w₁ = record { table = f.table; arrays = old } in
        let v : Watch = record watch { slot = pos i } in
        subst (Keeps os) (sym done) (record {
          table = table;
          arrays =
              (put-Sound os w₁ p v w₁.sys before
                (same_arrays watch v (h.arrays p watch at) refl refl refl)).arrays;
        })

    check_at :
        (w : World os) (p : ℕ)
        → Sound w
        → Keeps os (
            get_elem? w.heap p >>= λ watch.
            some (put os w p (check_cache_consistency (os.lstat w.sys) watch) w.sys))
    check_at w p h =
        with_watch os w p _ h
          (λ u e k. put-Sound os w p _ w.sys h (check_cache_consistency-IsWf (os.lstat w.sys) u k))

    register-Sound : (w : World os) (p : ℕ) → Sound w → Keeps os (register os w p)
    unfolding register
    register-Sound w p h = with_watch os w p _ h (λ u at k.
        OnSome-bind (λ slot. Unit {0}) (λ (v : World os). Sound v)
          (find_cached_slot os w u.pid u.sid) _ (OnSome-any (find_cached_slot os w u.pid u.sid))
          (λ slot _.
            OnSome-bind (λ (v : World os). Sound v) (λ (v : World os). Sound v)
              (if int_eq slot eof then add_watch_to_cache os w p else some w) _
              (elim (Bool-cases (int_eq slot eof)) [
                | inl fresh ↦ rw fresh (add_watch_to_cache-Sound w p u at h)
                | inr found ↦ rw found h
              ])
              (λ v l. check_at v p l)))

    module _ (walks : WalksByCalls os) where
      finish-Sound :
          (w : World os) (p : ℕ) (watch : Watch) (rebuild : Bool) (processevtfd : ℤ)
          (sys : os.State)
          → Sound w
          → IsWf watch
          → Keeps os (finish os w p watch rebuild processevtfd sys)
      unfolding finish add_epoll_ctl_fds
      finish-Sound w p watch rebuild processevtfd sys s h =
          elim (Bool-cases (int_eq processevtfd eof)) [
            | inl bad ↦ rw bad (put-Sound os w p watch sys s h)
            | inr good ↦ elim (Bool-cases rebuild) [
              | inl yes_ ↦
                  rw (good, yes_)
                    (register-Sound _ p
                      (put-Sound os w p _ _ s (same_arrays watch _ h refl refl refl)))
              | inr no_ ↦
                  rw (good, no_)
                    (register-Sound _ p
                      (put-Sound os w p _ _ s (same_arrays watch _ h refl refl refl)))
            ]
          ]

      begin-Sound :
          (w : World os) (p : ℕ) (watch : Watch) (rebuild : Bool) (fd : ℤ) (sys : os.State)
          → Sound w
          → IsWf watch
          → Keeps os (begin os w p watch rebuild fd sys)
      unfolding begin populate
      begin-Sound w p watch rebuild fd sys s h = elim (Bool-cases (int_eq fd eof)) [
        | inl bad ↦ rw bad (put-Sound os w p watch sys s h)
        | inr good ↦
            let v : Watch = record watch { fd = fd } in
            rw good (
              OnSome-bind (λ r. IsWf r.0) (λ (x : World os). Sound x) (watch_subtree os v sys) _
                (watch_subtree-IsWf os alloc walks v sys (same_arrays watch v h refl refl refl))
                (λ r k. finish-Sound w p r.0 rebuild (os.eventfd r.1).0 (os.eventfd r.1).1 s k))
      ]

      pub reinitialize-Sound : (w : World os) (p : ℕ) → Sound w → Keeps os (reinitialize os w p)
      unfolding reinitialize
      reinitialize-Sound w p s = with_watch os w p _ s (λ u at h.
          elim (Bool-cases (is_slot u.slot)) [
            | inl old ↦ rw old (begin-Sound w p (clear_watch u) _ _ _ s (clear_watch-IsWf u h))
            | inr new_ ↦ rw new_ (begin-Sound w p u _ _ _ s h)
          ])
