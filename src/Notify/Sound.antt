-- ===== src/Notify/Sound.antt =====
-- What every operation of lib/ keeps: the table is valid, and the arrays of each watch hold `pathc`
-- items. The operations of lib/arguscache.c and lib/argustree.c.
pub mod Walk
pub mod Rebuild
pub mod Events
pub mod Moves
pub mod Reading
pub mod Steps
pub mod Reachable
use mathlib.Core.Bool.{true≢false}
use mathlib.Core.Option.{some-injective}
use argusd.Base.{
  ℕ, zero, suc, ◌+◌, ◌<◌, ◌≡◌, ◌≢◌, refl, sym, ap, subst, ◌∙◌, inl, inr, ℤ, pos, negsuc, eof,
  int_eq, int_eq_iff, Bool, Bool-cases, not, ◌&&◌, Option, none, some, List, [], ◌∷◌, ◌++◌, Text,
  get_elem?, get_elem?-lt, get_elem?-set_self, get_elem?-set_ne, set, length, length-set,
  length-append, take, drop, ltb, ◌==◌, bit_or, arith, if◌then◌else◌, ◌>>=◌,
}
use argusd.Watch.{Watch, Stat, has, aw_only_dir, aw_recursive}
use argusd.Os.{Os, Allocates, WalksByCalls}
use argusd.Cache.{clear_watch, check_cache_consistency}
use argusd.Cache.Arrays.{IsWf}
use argusd.Cache.Consistency.{check_cache_consistency-IsWf}
use argusd.Table.{
  World, blank_watch, find_cached_slot, mark_cache_slot_empty, set_cell, add_watch_to_cache,
}
use argusd.Table.Cells.{blanks}
use argusd.Table.Slots.{Valid-mono, Valid-set, IsTable, mark_cache_slot_empty_lem}
use argusd.Table.Register.{after_add, add_watch_to_cache_done}
use argusd.Table.System.{OnSome, OnSome-bind}
use argusd.Tree.{
  Run, is_ignored, too_deep, should_ignore_path, watch_flags, append_entry, watch_path,
  traverse_tree, watch_path_recursive, watch_root, watch_roots, watch_subtree, is_below,
  remove_entries, remove_subtree,
}
use argusd.Tree.Walk.{append_entry_lem, with_entry-Appends}
use argusd.Notify.Reinit.{
  put, close_open, add_epoll_ctl_fds, register, finish, populate, begin, reinitialize, kill_from,
  send_watcher_kill_signal,
}
use argusd.Notify.Kept.{put-Kept, same_arrays, clear_watch-IsWf}

-- The arrays of each watch hold `pathc` items.
abbrev pub AllWf : List Watch → Type 0
AllWf heap = (q : ℕ) (u : Watch) → get_elem? heap q ≡ some u → IsWf u

pub record Sound {os : Os} (w : World os) : Type 0 where
  pub table : IsTable w
  pub arrays : AllWf w.heap

-- The result is the value.
pub OnSome-self : {A : Type 0} (o : Option A) → OnSome (λ a. o ≡ some a) o
OnSome-self none = tt
OnSome-self (some a) = refl

AllWf-append : (heap more : List Watch) → AllWf heap → AllWf more → AllWf (heap ++ more)
AllWf-append [] more h k q u e = k q u e
AllWf-append (x ∷ heap) more h k zero u e = h 0 u e
AllWf-append (x ∷ heap) more h k (suc q) u e =
    AllWf-append heap more (λ r v a. h (suc r) v a) k q u e

AllWf-blanks : (n : ℕ) → AllWf (blanks n)
AllWf-blanks zero q u e = cc
AllWf-blanks (suc n) zero u e =
    subst IsWf (some-injective _ _ e)
      (record { wd_allocated = omega arith; paths_allocated = omega arith })
AllWf-blanks (suc n) (suc q) u e = AllWf-blanks n q u e

AllWf-set : (heap : List Watch) (p : ℕ) (v : Watch) → AllWf heap → IsWf v → AllWf (set heap p v)
AllWf-set [] p v h k q u e = h q u e
AllWf-set (x ∷ heap) zero v h k zero u e = subst IsWf (some-injective _ _ e) k
AllWf-set (x ∷ heap) zero v h k (suc q) u e = h (suc q) u e
AllWf-set (x ∷ heap) (suc p) v h k zero u e = h 0 u e
AllWf-set (x ∷ heap) (suc p) v h k (suc q) u e = AllWf-set heap p v (λ r y a. h (suc r) y a) k q u e

module _ (os : Os) where
  pub put-Sound :
      (w : World os) (p : ℕ) (v : Watch) (sys : os.State)
      → Sound w
      → IsWf v
      → Sound (put os w p v sys)
  put-Sound w p v sys h k = record {
    table = record {
      counted = h.table.counted;
      valid =
          Valid-mono (length w.heap) _ w.wlcache (omega (arith, length-set w.heap p v))
            h.table.valid;
    };
    arrays = AllWf-set w.heap p v h.arrays k;
  }

  pub sys-Sound : (w : World os) (sys : os.State) → Sound w → Sound (record w { sys = sys })
  sys-Sound w sys h = record {
    table = record { counted = h.table.counted; valid = h.table.valid };
    arrays = h.arrays;
  }

  pub append-Sound :
      (w : World os) (u : Watch) → Sound w → IsWf u → Sound (record w { heap = w.heap ++ (u ∷ []) })
  append-Sound w u h k = record {
    table = record {
      counted = h.table.counted;
      valid =
          Valid-mono (length w.heap) _ w.wlcache (omega (arith, length-append w.heap (u ∷ [])))
            h.table.valid;
    };
    arrays = AllWf-append w.heap (u ∷ []) h.arrays (one u k);
  }
    where
      one : (v : Watch) → IsWf v → AllWf (v ∷ [])
      one v l zero x e = subst IsWf (some-injective _ _ e) l
      one v l (suc q) x e = cc

  -- What leaves a sound world, unless it faults.
  abbrev pub Keeps : Option (World os) → Type 0
  Keeps = OnSome (λ (w : World os). Sound w)

  pub with_watch :
      (w : World os) (p : ℕ) (f : Watch → Option (World os))
      → Sound w
      → ((u : Watch) → get_elem? w.heap p ≡ some u → IsWf u → Keeps (f u))
      → Keeps (get_elem? w.heap p >>= f)
  with_watch w p f h k =
      OnSome-bind (λ u. get_elem? w.heap p ≡ some u) (λ (v : World os). Sound v)
        (get_elem? w.heap p) f (OnSome-self (get_elem? w.heap p)) (λ u e. k u e (h.arrays p u e))

  pub set_cell-Sound :
      (w : World os) (slot : ℤ) (p : ℕ) → Sound w → p < length w.heap → Keeps (set_cell os w slot p)
  unfolding set_cell
  set_cell-Sound w (negsuc i) p h l = tt
  set_cell-Sound w (pos i) p h l = elim (Bool-cases (ltb i (length w.wlcache))) [
    | inr outside ↦ rw outside tt
    | inl inside ↦ rw inside (record {
      table = record {
        counted = h.table.counted ∙ sym (length-set w.wlcache i (some p));
        valid = Valid-set (length w.heap) w.wlcache i p l h.table.valid;
      };
      arrays = h.arrays;
    })
  ]
