-- ===== src/Table/Cells.antt =====
-- The search of `find_empty_cache_slot` over the cells, and the cells that it adds.
use argusd.Base.{
  ℕ, zero, suc, ◌+◌, ◌≤◌, ◌≡◌, refl, ap, ◌∙◌, ◌⊎◌, inl, inr, pos, eof, int_eq, int_eq_iff,
  Bool-cases, Option, none, some, List, [], ◌∷◌, ◌++◌, length, get_elem?, get_elem?-total,
  get_elem?-append_length, arith,
}
use argusd.Watch.{Watch}
use argusd.Table.{blank_watch, find_free_from}
use argusd.Table.Slots.{Valid}

-- Cells that point to consecutive watches, and those watches.
abbrev pub new_cells : ℕ → ℕ → List (Option ℕ)
new_cells zero p = []
new_cells (suc n) p = some p ∷ new_cells n (suc p)

abbrev pub blanks : ℕ → List Watch
blanks zero = []
blanks (suc n) = blank_watch ∷ blanks n

pub length-blanks : (n : ℕ) → length (blanks n) ≡ n
length-blanks zero = refl
length-blanks (suc n) = ap suc (length-blanks n)

pub length-new_cells : (n p : ℕ) → length (new_cells n p) ≡ n
length-new_cells zero p = refl
length-new_cells (suc n) p = ap suc (length-new_cells n (suc p))

pub Valid-new_cells : (n p m : ℕ) → p + n ≤ m → Valid m (new_cells n p)
Valid-new_cells zero p m h = tt
Valid-new_cells (suc n) p m h = (omega arith, Valid-new_cells n (suc p) m (omega arith))

-- Cell `i` points to a watch that is not in use.
pub record FreeCell (heap : List Watch) (cells : List (Option ℕ)) (i : ℕ) : Type 0 where
  pub pointer : ℕ
  pub watch : Watch
  pub cell : get_elem? cells i ≡ some (some pointer)
  pub target : get_elem? heap pointer ≡ some watch
  pub unused : watch.slot ≡ eof

pub find_free_from_cases :
    (heap : List Watch) (cells : List (Option ℕ)) (base : ℕ)
    → Valid (length heap) cells
    → ((i : ℕ) × (find_free_from heap (length cells) cells base ≡ some (pos (base + i)))
        × FreeCell heap cells i)
      ⊎ (find_free_from heap (length cells) cells base ≡ some eof)
unfolding find_free_from
find_free_from_cases heap [] base v = inr refl
find_free_from_cases heap (none ∷ cells) base v = absurd v
find_free_from_cases heap (some p ∷ cells) base v =
    let (watch, e) = get_elem?-total heap p v.0 in
    elim (Bool-cases (int_eq watch.slot eof)) [
      | inl free ↦ inl (
        0,
        rw (e, find_free_from, free) (ap (λ k. some (pos k)) (omega arith)),
        record {
          pointer = p;
          watch = watch;
          cell = refl;
          target = e;
          unused = (int_eq_iff watch.slot eof).0 free;
        },
      )
      | inr busy ↦ elim (find_free_from_cases heap cells (suc base) v.1) [
        | inl (i, r, f) ↦ inl (
          suc i,
          rw (e, find_free_from, busy) (r ∙ ap (λ k. some (pos k)) (omega arith)),
          record {
            pointer = f.pointer;
            watch = f.watch;
            cell = f.cell;
            target = f.target;
            unused = f.unused;
          },
        )
        | inr r ↦ inr (rw (e, find_free_from, busy) r)
      ]
    ]

-- The first of the new cells.
pub FreeCell-new :
    (h : List Watch) (cells : List (Option ℕ)) (n k : ℕ)
    → k ≡ length cells
    → FreeCell (h ++ blanks (suc n)) (cells ++ new_cells (suc n) (length h)) k
FreeCell-new h cells n k e = record {
  pointer = length h;
  watch = blank_watch;
  cell = rw e (get_elem?-append_length cells _ _);
  target = get_elem?-append_length h blank_watch (blanks n);
  unused = refl;
}
