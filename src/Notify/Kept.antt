-- ===== src/Notify/Kept.antt =====
-- What rebuilding a watch keeps: the table, the arrays of the watch, and the other watches.
use argusd.Base.{
  ℕ, suc, ◌<◌, ◌≡◌, ◌≢◌, refl, sym, ap, ◌∙◌, inl, inr, ℤ, pos, eof, int_eq, ◌&&◌, Bool-cases,
  Option, none, some, List, [], ◌∷◌, length, get_elem?, get_elem?-total, get_elem?-lt,
  get_elem?-set_self, get_elem?-set_ne, length-set, arith,
}
use argusd.Watch.{Watch}
use argusd.Os.{Os}
use argusd.Cache.{clear_watch}
use argusd.Cache.Arrays.{IsWf}
use argusd.Table.{World, find_slot_from, find_cached_slot}
use argusd.Table.Slots.{Valid, Valid-mono, IsTable}
use argusd.Tree.Roots.{roots}
use argusd.Tree.Walk.{NoNull}
use argusd.Notify.Reinit.{put}

find_slot_from-total :
    (heap : List Watch) (pid sid : ℤ) (cells : List (Option ℕ)) (base : ℕ)
    → Valid (length heap) cells
    → (r : ℤ) × (find_slot_from heap pid sid (length cells) cells base ≡ some r)
unfolding find_slot_from
find_slot_from-total heap pid sid [] base v = (eof, refl)
find_slot_from-total heap pid sid (none ∷ cells) base v = absurd v
find_slot_from-total heap pid sid (some p ∷ cells) base v =
    let (watch, e) = get_elem?-total heap p v.0 in
    elim (Bool-cases (int_eq watch.pid pid && int_eq watch.sid sid)) [
      | inl hit ↦ (pos base, rw (e, find_slot_from, hit))
      | inr miss ↦
          let (r, f) = find_slot_from-total heap pid sid cells (suc base) v.1 in
          (r, rw (e, find_slot_from, miss) f)
    ]

pub same_arrays :
    (u v : Watch)
    → IsWf u
    → v.pathc ≡ u.pathc
    → length v.wd ≡ length u.wd
    → length v.paths ≡ length u.paths
    → IsWf v
same_arrays u v h c d e = record {
  wd_allocated = omega (arith, c, d, h.wd_allocated);
  paths_allocated = omega (arith, c, e, h.paths_allocated);
}

pub clear_watch-IsWf : (watch : Watch) → IsWf watch → IsWf (clear_watch watch)
unfolding clear_watch
clear_watch-IsWf watch h = elim (Bool-cases (int_eq watch.slot eof)) [
  | inl idle ↦ rw idle h
  | inr busy ↦ rw busy (record { wd_allocated = omega arith; paths_allocated = omega arith })
]

pub clear_watch-NoNull : (watch : Watch) → NoNull (roots watch) → NoNull (roots (clear_watch watch))
unfolding clear_watch
clear_watch-NoNull watch n = elim (Bool-cases (int_eq watch.slot eof)) [
  | inl idle ↦ rw idle n
  | inr busy ↦ rw busy n
]

pub clear_watch-pid : (watch : Watch) → (clear_watch watch).pid ≡ watch.pid
unfolding clear_watch
clear_watch-pid watch = elim (Bool-cases (int_eq watch.slot eof)) [ inl e ↦ rw e | inr e ↦ rw e ]

pub clear_watch-sid : (watch : Watch) → (clear_watch watch).sid ≡ watch.sid
unfolding clear_watch
clear_watch-sid watch = elim (Bool-cases (int_eq watch.slot eof)) [ inl e ↦ rw e | inr e ↦ rw e ]

module _ (os : Os) where
  -- The table is valid, the watch at `p` has arrays of `pathc` items, and no other watch changed.
  pub record Kept (w : World os) (p : ℕ) (w' : World os) : Type 0 where
    pub watch' : Watch
    pub at : get_elem? w'.heap p ≡ some watch'
    pub wf : IsWf watch'
    pub table : IsTable w'
    pub others : (q : ℕ) → q ≢ p → q < length w.heap → get_elem? w'.heap q ≡ get_elem? w.heap q

  pub Kept-trans : (u v w : World os) (p : ℕ) → Kept u p v → Kept v p w → Kept u p w
  Kept-trans u v w p a b = record {
    watch' = b.watch';
    at = b.at;
    wf = b.wf;
    table = b.table;
    others = λ q ne l.
        let (x, e) = get_elem?-total u.heap q l in
        b.others q ne (get_elem?-lt v.heap q (a.others q ne l ∙ e)) ∙ a.others q ne l;
  }

  pub put-Kept :
      (w : World os) (p : ℕ) (watch : Watch) (sys : os.State)
      → IsTable w
      → p < length w.heap
      → IsWf watch
      → Kept w p (put os w p watch sys)
  put-Kept w p watch sys t l h = record {
    watch' = watch;
    at = get_elem?-set_self w.heap p watch l;
    wf = h;
    table = record {
      counted = t.counted;
      valid =
          Valid-mono (length w.heap) _ w.wlcache (omega (arith, length-set w.heap p watch)) t.valid;
    };
    others = λ q ne l'. get_elem?-set_ne w.heap p q watch (λ same. ne (sym same));
  }

  pub find_cached_slot-total :
      (w : World os) (pid sid : ℤ) → IsTable w → (r : ℤ) × (find_cached_slot os w pid sid ≡ some r)
  unfolding find_cached_slot
  find_cached_slot-total w pid sid t =
      let (r, e) = find_slot_from-total w.heap pid sid w.wlcache 0 t.valid in
      (r, ap (λ n. find_slot_from w.heap pid sid n w.wlcache 0) t.counted ∙ e)
