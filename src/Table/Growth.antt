-- ===== src/Table/Growth.antt =====
-- `find_empty_cache_slot`: an old cell whose watch has slot -1, or the first of 32 new ones.
use argusd.Base.{
  set-append_length, ℕ, zero, suc, ◌+◌, ◌≤◌, ◌<◌, ◌≡◌, refl, sym, ap, ◌∙◌, inl, inr, pos, eof,
  Option, none, some, List, [], ◌∷◌, ◌++◌, length, get_elem?-lt, set, arith, length-append,
}
use mathlib.Core.List.{append-nil, append_assoc}
use argusd.Watch.{Watch}
use argusd.Os.{Os, Allocates}
use argusd.Table.{
  World, alloc_inc, blank_watch, fresh_cells, find_free_from, mark_cache_slot_empty, mark_new_slots,
  grow_cache, find_empty_cache_slot,
}
use argusd.Table.Slots.{Valid-mono, Valid-append, IsTable}
use argusd.Table.Cells.{
  FreeCell, FreeCell-new, Valid-new_cells, blanks, find_free_from_cases, length-blanks,
  length-new_cells, new_cells,
}

module _ (os : Os) (alloc : Allocates os) where
  world_eq :
      {h h' : List Watch} {t t' : List (Option ℕ)} {c c' : ℕ} (s : os.State)
      → h ≡ h'
      → t ≡ t'
      → c ≡ c'
      → ◌≡◌ {A = Option (World os)}
          (some (record { heap = h; wlcache = t; wlcachec = c; sys = s }))
          (some (record { heap = h'; wlcache = t'; wlcachec = c'; sys = s }))
  world_eq s p q r = λ i. some (record { heap = p i; wlcache = q i; wlcachec = r i; sys = s })

  mark_step :
      (w : World os) (k : ℕ)
      → k < length w.wlcache
      → mark_cache_slot_empty os w k
        ≡ some (record w {
          heap = w.heap ++ (blank_watch ∷ []);
          wlcache = set w.wlcache k (some (length w.heap));
          sys = (os.allocate w.sys).1;
        })
  unfolding mark_cache_slot_empty
  mark_step w k h = ground (arith, alloc w.sys)

  -- The loop over the new cells, from the count of the old ones on.
  mark_new_slots_lem :
      (n : ℕ) (w : World os) (cells : List (Option ℕ)) (k : ℕ)
      → w.wlcache ≡ cells ++ fresh_cells n
      → length cells ≡ k
      → w.wlcachec ≡ k
      → (s : os.State) × (mark_new_slots os n k w
          ≡ some (record {
            heap = w.heap ++ blanks n;
            wlcache = cells ++ new_cells n (length w.heap);
            wlcachec = k + n;
            sys = s;
          }))
  unfolding mark_new_slots
  mark_new_slots_lem zero w cells k e l c = (w.sys, ground (arith, append-nil w.heap))
  mark_new_slots_lem (suc n) w cells k e l c =
      let p = length w.heap in
      let here : k < length w.wlcache =
        omega (arith, ap length e, length-append cells (none ∷ fresh_cells n)) in
      let w₁ : World os = record {
        heap = w.heap ++ (blank_watch ∷ []);
        wlcache = set w.wlcache k (some p);
        wlcachec = suc w.wlcachec;
        sys = (os.allocate w.sys).1;
      } in
      let e₁ : w₁.wlcache ≡ (cells ++ (some p ∷ [])) ++ fresh_cells n =
        rw (e, ← l)
          (set-append_length cells none (some p) (fresh_cells n)
            ∙ sym (append_assoc cells (some p ∷ []) (fresh_cells n))) in
      let (s, r) =
        mark_new_slots_lem n w₁ (cells ++ (some p ∷ [])) (suc k) e₁
          (omega (arith, l, length-append cells (some p ∷ []))) (ap suc c) in
      (
        s,
        rw (mark_step w k here) (
            r
            ∙ world_eq s (append_assoc w.heap (blank_watch ∷ []) (blanks n))
                (append_assoc cells (some p ∷ []) (new_cells n (length w₁.heap))
                  ∙ ap (λ q. cells ++ (some p ∷ new_cells n q))
                      (omega (arith, length-append w.heap (blank_watch ∷ []))))
                (omega arith)),
      )

  -- What `find_empty_cache_slot` gives: a free cell of a valid table, and tables that only grew.
  pub record Free (w : World os) (i : ℕ) (w' : World os) : Type 0 where
    pub done : find_empty_cache_slot os w ≡ some (pos i, w')
    pub table : IsTable w'
    pub free : FreeCell w'.heap w'.wlcache i
    pub among_old : i ≤ length w.wlcache
    pub heap_kept : (n : ℕ) × (w'.heap ≡ w.heap ++ blanks n)
    pub cells_kept : (cs : List (Option ℕ)) × (w'.wlcache ≡ w.wlcache ++ cs)

  -- The new cells, for any increment but 0.
  record Grown (n : ℕ) (w : World os) (w' : World os) : Type 0 where
    done : grow_cache os (suc n) w ≡ some (pos w.wlcachec, w')
    table : IsTable w'
    free : FreeCell w'.heap w'.wlcache w.wlcachec
    heap_kept : (n : ℕ) × (w'.heap ≡ w.heap ++ blanks n)
    cells_kept : (cs : List (Option ℕ)) × (w'.wlcache ≡ w.wlcache ++ cs)

  grow_cache_lem : (n : ℕ) (w : World os) → IsTable w → (w' : World os) × Grown n w w'
  unfolding grow_cache
  grow_cache_lem n w t =
      let (s, r) =
        mark_new_slots_lem (suc n)
          (record w { wlcache = w.wlcache ++ fresh_cells (suc n); sys = (os.allocate w.sys).1 })
          w.wlcache w.wlcachec refl (sym t.counted) refl in
      let count = length-append w.wlcache (new_cells (suc n) (length w.heap)) in
      let size = length-append w.heap (blanks (suc n)) in
      let known : length (blanks n) ≡ n = length-blanks n in
      let cells : length (new_cells n (suc (length w.heap))) ≡ n = length-new_cells n _ in
      let w' : World os = record {
        heap = w.heap ++ blanks (suc n);
        wlcache = w.wlcache ++ new_cells (suc n) (length w.heap);
        wlcachec = w.wlcachec + suc n;
        sys = s;
      } in
      (
        w',
        record {
          done = rw (alloc w.sys, r) (ap (λ k. some (pos k, w')) (omega arith));
          table = record {
            counted = omega (arith, t.counted);
            valid =
                Valid-append _ w.wlcache _
                  (Valid-mono (length w.heap) _ w.wlcache (omega arith) t.valid)
                  (Valid-new_cells (suc n) (length w.heap) _ (omega arith));
          };
          free = FreeCell-new w.heap w.wlcache n w.wlcachec t.counted;
          heap_kept = (suc n, refl);
          cells_kept = (new_cells (suc n) (length w.heap), refl);
        },
      )

  find_empty_found :
      (w : World os) (i : ℕ)
      → find_free_from w.heap w.wlcachec w.wlcache 0 ≡ some (pos i)
      → find_empty_cache_slot os w ≡ some (pos i, w)
  unfolding find_empty_cache_slot
  find_empty_found w i e = rw e

  find_empty_grows :
      (w : World os)
      → find_free_from w.heap w.wlcachec w.wlcache 0 ≡ some eof
      → find_empty_cache_slot os w ≡ grow_cache os alloc_inc w
  unfolding find_empty_cache_slot
  find_empty_grows w e = rw e

  -- With memory, `find_empty_cache_slot` on a valid table finds a cell that is not in use, one
  -- of the old cells or the first new one. What was in the heap and the table stays in place, and
  -- the table stays valid.
  pub find_empty_cache_slot_lem :
      (w : World os) → IsTable w → (i : ℕ) × (w' : World os) × Free w i w'
  find_empty_cache_slot_lem w t = elim (find_free_from_cases w.heap w.wlcache 0 t.valid) [
    | inl (i, e, f) ↦ (
      i,
      w,
      record {
        done = find_empty_found w i (
            ap (λ n. find_free_from w.heap n w.wlcache 0) t.counted
            ∙ e
            ∙ ap (λ k. some (pos k)) (omega arith));
        table = t;
        free = f;
        among_old = omega (arith, get_elem?-lt w.wlcache i f.cell);
        heap_kept = (0, sym (append-nil w.heap));
        cells_kept = ([], sym (append-nil w.wlcache));
      },
    )
    | inr e ↦
        let (w', g) = grow_cache_lem 31 w t in
        (
          w.wlcachec,
          w',
          record {
            done =
                find_empty_grows w (ap (λ n. find_free_from w.heap n w.wlcache 0) t.counted ∙ e)
                ∙ g.done;
            table = g.table;
            free = g.free;
            among_old = omega (arith, t.counted);
            heap_kept = g.heap_kept;
            cells_kept = g.cells_kept;
          },
        )
  ]
