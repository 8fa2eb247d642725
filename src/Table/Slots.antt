-- ===== src/Table/Slots.antt =====
-- The table's invariant, and what marking a slot empty does.
use argusd.Base.{
  ℕ, zero, suc, ◌≤◌, ◌<◌, ◌+◌, ◌≡◌, ◌≢◌, refl, Option, none, some, List, [], ◌∷◌, ◌++◌, length,
  get_elem?, set, arith, length-append, length-set, get_elem?-set_self, get_elem?-set_ne,
  get_elem?-append_left, get_elem?-append_length,
}
use argusd.Os.{Os, Allocates}
use argusd.Table.{World, blank_watch, mark_cache_slot_empty}

-- No cell is NULL, and each points to one of `n` watches.
abbrev pub Valid : ℕ → List (Option ℕ) → Type 0
Valid n [] = Unit {0}
Valid n (none ∷ cells) = ⊥
Valid n (some p ∷ cells) = (p < n) × Valid n cells

pub Valid-mono : (m n : ℕ) (cells : List (Option ℕ)) → m ≤ n → Valid m cells → Valid n cells
Valid-mono m n [] h v = tt
Valid-mono m n (none ∷ cells) h v = absurd v
Valid-mono m n (some p ∷ cells) h v = (omega arith, Valid-mono m n cells h v.1)

pub Valid-set :
    (n : ℕ) (cells : List (Option ℕ)) (i p : ℕ)
    → p < n
    → Valid n cells
    → Valid n (set cells i (some p))
Valid-set n [] i p h v = tt
Valid-set n (none ∷ cells) i p h v = absurd v
Valid-set n (some q ∷ cells) zero p h v = (h, v.1)
Valid-set n (some q ∷ cells) (suc i) p h v = (v.0, Valid-set n cells i p h v.1)

pub Valid-append : (n : ℕ) (xs ys : List (Option ℕ)) → Valid n xs → Valid n ys → Valid n (xs ++ ys)
Valid-append n [] ys v u = u
Valid-append n (none ∷ xs) ys v u = absurd v
Valid-append n (some p ∷ xs) ys v u = (v.0, Valid-append n xs ys v.1 u)

-- A cell of a valid table is a pointer to a watch.
pub Valid-cell :
    (n i : ℕ) (cells : List (Option ℕ))
    → Valid n cells
    → i < length cells
    → (p : ℕ) × (get_elem? cells i ≡ some (some p)) × (p < n)
Valid-cell n i [] v h = elim h [ ]
Valid-cell n i (none ∷ cells) v h = absurd v
Valid-cell n zero (some p ∷ cells) v h = (p, refl, v.0)
Valid-cell n (suc i) (some p ∷ cells) v h = Valid-cell n i cells v.1 (omega arith)

pub record IsTable {os : Os} (w : World os) : Type 0 where
  pub counted : w.wlcachec ≡ length w.wlcache
  pub valid : Valid (length w.heap) w.wlcache

module _ (os : Os) (alloc : Allocates os) where
  -- What `mark_cache_slot_empty` leaves in cell `slot`, and what it keeps.
  pub record Marked (w : World os) (slot : ℕ) (w' : World os) : Type 0 where
    pub done : mark_cache_slot_empty os w slot ≡ some w'
    pub cell : get_elem? w'.wlcache slot ≡ some (some (length w.heap))
    pub blank : get_elem? w'.heap (length w.heap) ≡ some blank_watch
    pub other_cells : (j : ℕ) → slot ≢ j → get_elem? w'.wlcache j ≡ get_elem? w.wlcache j
    pub other_watches : (p : ℕ) → p < length w.heap → get_elem? w'.heap p ≡ get_elem? w.heap p
    pub table : IsTable w'
    pub same_sys : w'.sys ≡ (os.allocate w.sys).1
    pub size : length w'.wlcache ≡ length w.wlcache
    pub grown : length w'.heap ≡ length w.heap + 1

  -- Within the table, and with memory, `mark_cache_slot_empty` points the cell to a new blank
  -- watch and leaves every other cell and every watch as it was; the table stays valid.
  pub mark_cache_slot_empty_lem :
      (w : World os) (slot : ℕ)
      → IsTable w
      → slot < length w.wlcache
      → (w' : World os) × Marked w slot w'
  unfolding mark_cache_slot_empty
  mark_cache_slot_empty_lem w slot t h = (
    marked,
    record {
      done = ground (arith, alloc w.sys);
      cell = get_elem?-set_self w.wlcache slot _ h;
      blank = get_elem?-append_length w.heap blank_watch [];
      other_cells = λ j ne. get_elem?-set_ne w.wlcache slot j _ ne;
      other_watches = λ p l. get_elem?-append_left w.heap _ p l;
      table = record {
        counted = omega (arith, t.counted, length-set w.wlcache slot (some (length w.heap)));
        valid =
            Valid-set _ w.wlcache slot (length w.heap) grown
              (Valid-mono (length w.heap) _ w.wlcache (omega (arith, grown)) t.valid);
      };
      same_sys = refl;
      size = length-set w.wlcache slot (some (length w.heap));
      grown = length-append w.heap (blank_watch ∷ []);
    },
  )
    where
      marked : World os
      marked = record w {
        heap = w.heap ++ (blank_watch ∷ []);
        wlcache = set w.wlcache slot (some (length w.heap));
        sys = (os.allocate w.sys).1;
      }

      grown : length w.heap < length (w.heap ++ (blank_watch ∷ []))
      grown = omega (arith, length-append w.heap (blank_watch ∷ []))

  -- Past the end of the table it writes out of bounds.
  pub mark_cache_slot_empty_fault :
      (w : World os) (slot : ℕ) → length w.wlcache ≤ slot → mark_cache_slot_empty os w slot ≡ none
  unfolding mark_cache_slot_empty
  mark_cache_slot_empty_fault w slot h = ground (arith, alloc w.sys)
