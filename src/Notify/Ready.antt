-- ===== src/Notify/Ready.antt =====
-- `register`, the end of `reinitialize`: the watch is registered, and its descriptors stay.
use mathlib.Core.Bool.{true≢false}
use argusd.Base.{
  zero, suc, Text, ltb, ℕ, suc, ◌≡◌, ◌≢◌, refl, sym, ap, ◌∙◌, inl, inr, ℤ, pos, eof, int_eq,
  int_eq_iff, Bool-cases, Option, some, get_elem?, get_elem?-lt, get_elem?-set_self,
}
use argusd.Watch.{Watch, Stat}
use argusd.Os.{Os, Allocates}
use argusd.Cache.{check_cache_consistency}
use argusd.Cache.Arrays.{IsWf}
use argusd.Cache.Consistency.{check_cache_consistency-IsWf}
use argusd.Table.{World, find_cached_slot}
use argusd.Table.Slots.{IsTable}
use argusd.Table.Register.{add_watch_to_cache_lem}
use argusd.Notify.Reinit.{put, register}
use argusd.Cache.{check_loop, is_consistent, path_at, remove_item_from_cache}
use argusd.Table.Search.{find_cached_slot-set}
use argusd.Notify.Kept.{Kept, Kept-trans, put-Kept, find_cached_slot-total, same_arrays}

-- `v` is `u` but for the arrays.
abbrev pub SameRest : Watch → Watch → Type 0
SameRest u v = record v { wd = u.wd; paths = u.paths; pathc = u.pathc } ≡ u

remove_item_from_cache-SameRest :
    (watch : Watch) (i : ℕ) → SameRest watch (remove_item_from_cache watch i)
unfolding remove_item_from_cache
remove_item_from_cache-SameRest watch i = refl

SameRest-trans : (u v x : Watch) → SameRest u v → SameRest v x → SameRest u x
SameRest-trans u v x a b =
    ap {A = Watch} (λ y. record y { wd = u.wd; paths = u.paths; pathc = u.pathc }) b ∙ a

check_loop-SameRest :
    (lstat : Text → Option Stat) (fuel i : ℕ) (watch : Watch)
    → SameRest watch (check_loop lstat fuel i watch)
unfolding check_loop
check_loop-SameRest lstat zero i watch = refl
check_loop-SameRest lstat (suc fuel) i watch = elim (Bool-cases (ltb i watch.pathc)) [
  | inr past ↦ rw past
  | inl below ↦ elim (Bool-cases (is_consistent lstat watch.flags (path_at watch i))) [
    | inl ok ↦ rw (below, ok) (check_loop-SameRest lstat fuel (suc i) watch)
    | inr bad ↦
        rw (below, bad)
          (SameRest-trans watch (remove_item_from_cache watch i)
            (check_loop lstat fuel i (remove_item_from_cache watch i))
            (remove_item_from_cache-SameRest watch i)
            (check_loop-SameRest lstat fuel i (remove_item_from_cache watch i)))
  ]
]

pub check_cache_consistency-SameRest :
    (lstat : Text → Option Stat) (watch : Watch)
    → SameRest watch (check_cache_consistency lstat watch)
unfolding check_cache_consistency
check_cache_consistency-SameRest lstat watch = check_loop-SameRest lstat watch.pathc 0 watch

module _ (os : Os) where
  -- The table finds the pid and sid of `u`, and the watch at `p` has the descriptors of `u`.
  pub record Ready (w : World os) (p : ℕ) (u : Watch) (w' : World os) : Type 0 where
    pub kept : Kept os w p w'
    pub same_fd : kept.watch'.fd ≡ u.fd
    pub same_eventfd : kept.watch'.processevtfd ≡ u.processevtfd
    pub found : (r : ℤ) × (find_cached_slot os w' u.pid u.sid ≡ some r) × (r ≢ eof)

  -- The check of the paths at the end of `register`.
  check-Ready :
      (w w₁ : World os) (p : ℕ) (u v : Watch) (r : ℤ)
      → Kept os w p w₁
      → get_elem? w₁.heap p ≡ some v
      → IsWf v
      → v.fd ≡ u.fd
      → v.processevtfd ≡ u.processevtfd
      → find_cached_slot os w₁ u.pid u.sid ≡ some r
      → r ≢ eof
      → Ready w p u (put os w₁ p (check_cache_consistency (os.lstat w₁.sys) v) w₁.sys)
  check-Ready w w₁ p u v r k at h fd eventfd found ne =
      let fixed = check_cache_consistency (os.lstat w₁.sys) v in
      let rest = check_cache_consistency-SameRest (os.lstat w₁.sys) v in
      let l = get_elem?-lt w₁.heap p at in
      let h' = check_cache_consistency-IsWf (os.lstat w₁.sys) v h in
      record {
        kept = record {
          watch' = fixed;
          at = get_elem?-set_self w₁.heap p fixed l;
          wf = h';
          table = (put-Kept os w₁ p fixed w₁.sys k.table l h').table;
          others = (Kept-trans os w w₁ _ p k (put-Kept os w₁ p fixed w₁.sys k.table l h')).others;
        };
        same_fd = ap (λ (x : Watch). x.fd) rest ∙ fd;
        same_eventfd = ap (λ (x : Watch). x.processevtfd) rest ∙ eventfd;
        found = (
          r,
          find_cached_slot-set os w₁ p v fixed w₁.sys u.pid u.sid at
                (ap (λ (x : Watch). x.pid) rest) (ap (λ (x : Watch). x.sid) rest)
              ∙ found,
          ne,
        );
      }

  pub register-Ready :
      Allocates os
      → (w : World os) (p : ℕ) (watch : Watch) → IsTable w
      → get_elem? w.heap p ≡ some watch
      → IsWf watch
      → (w' : World os) × (register os w p ≡ some w') × Ready w p watch w'
  unfolding register
  register-Ready alloc w p watch t at h =
      let (r, e) = find_cached_slot-total os w watch.pid watch.sid t in
      elim (Bool-cases (int_eq r eof)) [
        | inr found ↦ (
          put os w p (check_cache_consistency (os.lstat w.sys) watch) w.sys,
          rw (at, e, found, at),
          check-Ready w w p watch watch r
              (record { watch' = watch; at = at; wf = h; table = t; others = λ q ne l. refl }) at h
              refl refl e (λ same. true≢false (sym ((int_eq_iff r eof).1 same) ∙ found)),
        )
        | inl fresh ↦
            let missing = e ∙ ap some ((int_eq_iff r eof).0 fresh) in
            let (i, w₁, g) = add_watch_to_cache_lem os alloc w p watch t at missing in
            let watch₁ : Watch = record watch { slot = pos i } in
            let h₁ = same_arrays watch watch₁ h refl refl refl in
            (
              put os w₁ p (check_cache_consistency (os.lstat w₁.sys) watch₁) w₁.sys,
              rw (at, e, fresh, g.done, g.slot),
              check-Ready w w₁ p watch watch₁ (pos i)
                  (record {
                    watch' = watch₁;
                    at = g.slot;
                    wf = h₁;
                    table = g.table;
                    others = g.others;
                  })
                  g.slot h₁ refl refl g.found (λ same. cc),
            )
      ]
