-- ===== src/Table/Register.antt =====
-- Registering a watch: `add_watch_to_cache`, and `find_cached_slot` afterwards.
use mathlib.Core.Bool.{true≢false}
use mathlib.Core.Option.{some-injective}
use argusd.Base.{
  ℕ, zero, suc, ◌+◌, ◌<◌, ◌≡◌, ◌≢◌, refl, sym, ap, ◌∙◌, ℤ, pos, eof, int_eq, int_eq_refl, Bool,
  true, false, ◌&&◌, Option, none, some, List, [], ◌∷◌, length, get_elem?, get_elem?-total,
  get_elem?-set_self, get_elem?-set_ne, get_elem?-append_left, get_elem?-lt, set, length-set, arith,
}
use argusd.Watch.{Watch}
use argusd.Os.{Os, Allocates}
use argusd.Table.{World, find_slot_from, find_cached_slot, assign, set_cell, add_watch_to_cache}
use argusd.Table.Cells.{blanks}
use argusd.Table.Slots.{IsTable, Valid-set, Valid-mono, Valid-cell}
use argusd.Table.Growth.{Free, find_empty_cache_slot_lem}

abbrev pub matches : ℤ → ℤ → Watch → Bool
matches pid sid watch = int_eq watch.pid pid && int_eq watch.sid sid

module _ (pid sid : ℤ) where
  -- The watch at `q` is another one.
  abbrev Misses : List Watch → ℕ → Type 0
  Misses heap q = (u : Watch) × (get_elem? heap q ≡ some u) × (matches pid sid u ≡ false)

  find_slot_hit :
      (heap : List Watch) (n i base p : ℕ) (cells : List (Option ℕ)) (watch : Watch)
      → i < n
      → get_elem? cells i ≡ some (some p)
      → get_elem? heap p ≡ some watch
      → matches pid sid watch ≡ true
      → ((j q : ℕ) → j < i → get_elem? cells j ≡ some (some q) → Misses heap q)
      → find_slot_from heap pid sid n cells base ≡ some (pos (base + i))
  unfolding find_slot_from
  find_slot_hit heap zero i base p cells watch l c h m before = elim l [ ]
  find_slot_hit heap (suc n) i base p [] watch l c h m before = cc
  find_slot_hit heap (suc n) zero base p (none ∷ cells) watch l c h m before = cc
  find_slot_hit heap (suc n) (suc i) base p (none ∷ cells) watch l c h m before =
      find_slot_hit heap n i (suc base) p cells watch (omega arith) c h m
        (λ j q k e. before (suc j) q (omega arith) e)
      ∙ ap (λ k. some (pos k)) (omega arith)
  find_slot_hit heap (suc n) zero base p (some q ∷ cells) watch l c h m before =
      let same : get_elem? heap q ≡ some watch = ground arith in
      rw (same, find_slot_from, m) (ap (λ k. some (pos k)) (omega arith))
  find_slot_hit heap (suc n) (suc i) base p (some q ∷ cells) watch l c h m before =
      let (u, e, miss) = before 0 q (omega arith) refl in
      rw (e, find_slot_from, miss)
        (find_slot_hit heap n i (suc base) p cells watch (omega arith) c h m
            (λ j q k e. before (suc j) q (omega arith) e)
          ∙ ap (λ k. some (pos k)) (omega arith))

  find_slot_miss :
      (heap : List Watch) (n j base q : ℕ) (cells : List (Option ℕ)) (u : Watch)
      → find_slot_from heap pid sid n cells base ≡ some eof
      → j < n
      → get_elem? cells j ≡ some (some q)
      → get_elem? heap q ≡ some u
      → matches pid sid u ≡ false
  unfolding find_slot_from
  find_slot_miss heap zero j base q cells u e l c h = elim l [ ]
  find_slot_miss heap (suc n) j base q [] u e l c h = cc
  find_slot_miss heap (suc n) zero base q (none ∷ cells) u e l c h = cc
  find_slot_miss heap (suc n) (suc j) base q (none ∷ cells) u e l c h =
      find_slot_miss heap n j (suc base) q cells u e (omega arith) c h
  find_slot_miss heap (suc n) zero base q (some r ∷ cells) u e l c h = ground arith
  find_slot_miss heap (suc n) (suc j) base q (some r ∷ cells) u e l c h =
      find_slot_miss heap n j (suc base) q cells u (ground arith) (omega arith) c h

matches_self : (watch : Watch) → matches watch.pid watch.sid watch ≡ true
matches_self watch = rw (int_eq_refl watch.pid, int_eq_refl watch.sid)

another :
    (watch : Watch) (p q : ℕ) (heap : List Watch) (u : Watch)
    → get_elem? heap p ≡ some watch
    → get_elem? heap q ≡ some u
    → matches watch.pid watch.sid u ≡ false
    → p ≢ q
another watch p q heap u e f miss same =
    let here : some u ≡ some watch = sym f ∙ ap (get_elem? heap) (sym same) ∙ e in
    true≢false (
      sym (matches_self watch)
      ∙ ap (matches watch.pid watch.sid) (sym (some-injective _ _ here))
      ∙ miss)

module _ (os : Os) (alloc : Allocates os) where
  -- What `add_watch_to_cache` leaves: the watch `p` in slot `i`, where the search finds it.
  pub record Registered (w : World os) (p : ℕ) (watch : Watch) (i : ℕ) (w' : World os)
      : Type 0 where
    pub done : add_watch_to_cache os w p ≡ some w'
    pub table : IsTable w'
    pub cell : get_elem? w'.wlcache i ≡ some (some p)
    pub slot : get_elem? w'.heap p ≡ some (record watch { slot = pos i })
    pub others : (q : ℕ) → q ≢ p → q < length w.heap → get_elem? w'.heap q ≡ get_elem? w.heap q
    pub found : find_cached_slot os w' watch.pid watch.sid ≡ some (pos i)

  add_watch_steps :
      (w w₁ : World os) (p i : ℕ) (watch : Watch)
      → Free os alloc w i w₁
      → get_elem? w₁.heap p ≡ some watch
      → i < length w₁.wlcache
      → add_watch_to_cache os w p
        ≡ some (record w₁ {
          heap = set w₁.heap p (record watch { slot = pos i });
          wlcache = set w₁.wlcache i (some p);
        })
  unfolding add_watch_to_cache assign set_cell
  add_watch_steps w w₁ p i watch f e l = rw f.done (ground arith)

  module _ (w w₁ : World os) (p i : ℕ) (watch : Watch) (f : Free os alloc w i w₁) where
    abbrev pub after_add : World os
    after_add = record w₁ {
      heap = set w₁.heap p (record watch { slot = pos i });
      wlcache = set w₁.wlcache i (some p);
    }

    heap_before : (q : ℕ) → q < length w.heap → get_elem? w₁.heap q ≡ get_elem? w.heap q
    heap_before q l =
        let (n, e) = f.heap_kept in
        ap (λ h. get_elem? h q) e ∙ get_elem?-append_left w.heap (blanks n) q l

    cells_before : (j : ℕ) → j < length w.wlcache → get_elem? w₁.wlcache j ≡ get_elem? w.wlcache j
    cells_before j l =
        let (cs, e) = f.cells_kept in
        ap (λ c. get_elem? c j) e ∙ get_elem?-append_left w.wlcache cs j l

    after_add-IsTable : p < length w₁.heap → IsTable after_add
    after_add-IsTable l = record {
      counted = omega (arith, f.table.counted, length-set w₁.wlcache i (some p));
      valid =
          let same = length-set w₁.heap p (record watch { slot = pos i }) in
          Valid-set _ w₁.wlcache i p (omega (arith, same, l))
            (Valid-mono (length w₁.heap) _ w₁.wlcache (omega (arith, same)) f.table.valid);
    }

    -- A cell below `i` still points to another watch than (pid, sid).
    before_missed :
        IsTable w
        → get_elem? w.heap p ≡ some watch
        → find_cached_slot os w watch.pid watch.sid ≡ some eof
        → (j q : ℕ) → j < i
        → get_elem? after_add.wlcache j ≡ some (some q)
        → Misses watch.pid watch.sid after_add.heap q
    unfolding find_cached_slot
    before_missed t e absent j q l c =
        let old : j < length w.wlcache = omega (arith, f.among_old, l) in
        let here : get_elem? w.wlcache j ≡ some (some q) =
          sym (cells_before j old)
          ∙ sym (get_elem?-set_ne w₁.wlcache i j (some p) (omega arith))
          ∙ c in
        let (r, at, lt) = Valid-cell (length w.heap) j w.wlcache t.valid old in
        let q_in : q < length w.heap = ground arith in
        let (u, eu) = get_elem?-total w.heap q q_in in
        let miss =
          find_slot_miss watch.pid watch.sid w.heap w.wlcachec j 0 q w.wlcache u absent
            (omega (arith, t.counted)) here eu in
        (
          u,
          get_elem?-set_ne w₁.heap p q _ (another watch p q w.heap u e eu miss)
              ∙ heap_before q q_in
              ∙ eu,
          miss,
        )

  -- With memory, `add_watch_to_cache` on a valid table gives the watch a free cell.
  pub add_watch_to_cache_done :
      (w : World os) (p : ℕ) (watch : Watch)
      → IsTable w
      → get_elem? w.heap p ≡ some watch
      → (i : ℕ) × (w₁ : World os) × (f : Free os alloc w i w₁) × (get_elem? w₁.heap p ≡ some watch)
        × (add_watch_to_cache os w p ≡ some (after_add w w₁ p i watch f))
        × IsTable (after_add w w₁ p i watch f)
  add_watch_to_cache_done w p watch t e =
      let (i, w₁, f) = find_empty_cache_slot_lem os alloc w t in
      let at : get_elem? w₁.heap p ≡ some watch =
        heap_before w w₁ p i watch f p (get_elem?-lt w.heap p e) ∙ e in
      (
        i,
        w₁,
        f,
        at,
        add_watch_steps w w₁ p i watch f at (get_elem?-lt w₁.wlcache i f.free.cell),
        after_add-IsTable w w₁ p i watch f (get_elem?-lt w₁.heap p at),
      )

  -- On a valid table that does not find the watch's pid and sid, and with memory,
  -- `add_watch_to_cache` sets the slot of the watch, points that cell to it, changes no other
  -- watch, and from then on `find_cached_slot` gives this slot for the pid and sid.
  pub add_watch_to_cache_lem :
      (w : World os) (p : ℕ) (watch : Watch)
      → IsTable w
      → get_elem? w.heap p ≡ some watch
      → find_cached_slot os w watch.pid watch.sid ≡ some eof
      → (i : ℕ) × (w' : World os) × Registered w p watch i w'
  unfolding find_cached_slot
  add_watch_to_cache_lem w p watch t e absent =
      let (i, w₁, f) = find_empty_cache_slot_lem os alloc w t in
      let in_old : p < length w.heap = get_elem?-lt w.heap p e in
      let at : get_elem? w₁.heap p ≡ some watch = heap_before w w₁ p i watch f p in_old ∙ e in
      let in_heap : p < length w₁.heap = get_elem?-lt w₁.heap p at in
      let inside : i < length w₁.wlcache = get_elem?-lt w₁.wlcache i f.free.cell in
      let slot = get_elem?-set_self w₁.heap p (record watch { slot = pos i }) in_heap in
      let cell = get_elem?-set_self w₁.wlcache i (some p) inside in
      (
        i,
        after_add w w₁ p i watch f,
        record {
          done = add_watch_steps w w₁ p i watch f at inside;
          table = after_add-IsTable w w₁ p i watch f in_heap;
          cell = cell;
          slot = slot;
          others = λ q ne l.
              get_elem?-set_ne w₁.heap p q _ (λ same. ne (sym same))
              ∙ heap_before w w₁ p i watch f q l;
          found =
              find_slot_hit watch.pid watch.sid _ w₁.wlcachec i 0 p _
                (record watch { slot = pos i }) (omega (arith, f.table.counted)) cell slot
                (matches_self watch) (before_missed w w₁ p i watch f t e absent)
              ∙ ap (λ k. some (pos k)) (omega arith);
        },
      )
