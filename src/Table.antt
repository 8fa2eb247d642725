-- ===== src/Table.antt =====
-- lib/arguscache.c, the table of watches: `wlcache`, an array of pointers to watches.
-- A pointer is an index into `heap`, which only grows. `none` in the table is NULL, also what
-- `realloc` leaves in the new part of the array until it is written.
pub mod Slots
pub mod Search
pub mod Cells
pub mod Growth
pub mod Register
pub mod System
use argusd.Base.{
  ℕ, zero, suc, ◌-◌, ℤ, pos, negsuc, eof, int_eq, ◌&&◌, Option, none, some, List, [], ◌∷◌, ◌++◌,
  ltb, length, get_elem?, set, if◌then◌else◌, ◌>>=◌,
}
use argusd.Watch.{Watch, EpollEvent}
use argusd.Os.{Os}

abbrev pub alloc_inc : ℕ
alloc_inc = 32

-- The globals, the watches that were allocated, and the system.
pub record World (os : Os) : Type 0 where
  pub heap : List Watch
  pub wlcache : List (Option ℕ)
  pub wlcachec : ℕ
  pub sys : os.State

abbrev no_event : EpollEvent
no_event = record { data_fd = pos 0; events = 0 }

-- What `calloc` gives, with the placeholder slot -1 of `mark_cache_slot_empty`.
abbrev pub blank_watch : Watch
blank_watch = record {
  epollevt_fd = no_event;
  epollevt_processevtfd = no_event;
  name = [];
  node_name = [];
  pod_name = [];
  tags = [];
  log_format = [];
  rootpaths = [];
  ignores = [];
  paths = [];
  wd = [];
  rootstat = [];
  rootpathc = 0;
  ignorec = 0;
  pathc = 0;
  event_mask = 0;
  flags = 0;
  pid = pos 0;
  sid = pos 0;
  slot = eof;
  fd = pos 0;
  processevtfd = pos 0;
  efd = pos 0;
  max_depth = pos 0;
}

-- The first `n` cells of the table.
unfoldable pub find_slot_from : List Watch → ℤ → ℤ → ℕ → List (Option ℕ) → ℕ → Option ℤ
find_slot_from heap pid sid zero cells i = some eof
find_slot_from heap pid sid (suc n) [] i = none
find_slot_from heap pid sid (suc n) (none ∷ cells) i = find_slot_from heap pid sid n cells (suc i)
find_slot_from heap pid sid (suc n) (some p ∷ cells) i =
    let rest = find_slot_from heap pid sid n cells (suc i) in
    elim (get_elem? heap p) [
      | none ↦ none
      | some watch ↦ if int_eq watch.pid pid && int_eq watch.sid sid then some (pos i) else rest
    ]

-- The loop of `find_empty_cache_slot`, which has no test for NULL.
unfoldable pub find_free_from : List Watch → ℕ → List (Option ℕ) → ℕ → Option ℤ
find_free_from heap zero cells i = some eof
find_free_from heap (suc n) [] i = none
find_free_from heap (suc n) (none ∷ cells) i = none
find_free_from heap (suc n) (some p ∷ cells) i =
    let rest = find_free_from heap n cells (suc i) in
    elim (get_elem? heap p) [
      | none ↦ none
      | some watch ↦ if int_eq watch.slot eof then some (pos i) else rest
    ]

-- `realloc` to `n` more cells.
abbrev pub fresh_cells : ℕ → List (Option ℕ)
fresh_cells zero = []
fresh_cells (suc n) = none ∷ fresh_cells n

module _ (os : Os) where
  -- `find_cached_slot`
  unfoldable pub find_cached_slot : World os → ℤ → ℤ → Option ℤ
  unfolding find_slot_from
  find_cached_slot w pid sid = find_slot_from w.heap pid sid w.wlcachec w.wlcache 0

  -- `mark_cache_slot_empty`. A write past the end of the table is a fault.
  unfoldable pub mark_cache_slot_empty : World os → ℕ → Option (World os)
  mark_cache_slot_empty w slot =
      let (ok, sys) = os.allocate w.sys in
      if ok
      then (if ltb slot (length w.wlcache)
          then some (record w {
            heap = w.heap ++ (blank_watch ∷ []);
            wlcache = set w.wlcache slot (some (length w.heap));
            sys = sys;
          })
          else none)
      else some (record w { sys = sys })

  -- The loop that marks the new cells and counts them.
  unfoldable pub mark_new_slots : ℕ → ℕ → World os → Option (World os)
  unfolding mark_cache_slot_empty
  mark_new_slots zero i w = some w
  mark_new_slots (suc n) i w = do
    w' ← mark_cache_slot_empty w i
    mark_new_slots n (suc i) (record w' { wlcachec = suc w'.wlcachec })

  -- `find_empty_cache_slot` after its search: `inc` more cells. A failing `realloc` leaves NULL in
  -- `wlcache`.
  unfoldable pub grow_cache : ℕ → World os → Option (ℤ × World os)
  unfolding mark_new_slots
  grow_cache inc w =
      let (ok, sys) = os.allocate w.sys in
      if ok
      then (do
        w' ←
            mark_new_slots inc w.wlcachec
              (record w { wlcache = w.wlcache ++ fresh_cells inc; sys = sys })
        some (pos (w'.wlcachec - inc), w'))
      else some (eof, record w { wlcache = []; sys = sys })

  -- `find_empty_cache_slot`
  unfoldable pub find_empty_cache_slot : World os → Option (ℤ × World os)
  find_empty_cache_slot w = do
    free ← find_free_from w.heap w.wlcachec w.wlcache 0
    elim free [ pos i ↦ some (pos i, w) | negsuc _ ↦ grow_cache alloc_inc w ]

  -- `(*watch)->… = …` through the pointer `p`; a pointer to nothing is a fault.
  unfoldable pub assign : World os → ℕ → (Watch → Watch) → Option (World os)
  assign w p f = elim (get_elem? w.heap p) [
    | none ↦ none
    | some watch ↦ some (record w { heap = set w.heap p (f watch) })
  ]

  -- `wlcache[slot] = p`
  unfoldable pub set_cell : World os → ℤ → ℕ → Option (World os)
  set_cell w (negsuc _) p = none
  set_cell w (pos i) p =
      if ltb i (length w.wlcache)
      then some (record w { wlcache = set w.wlcache i (some p) })
      else none

  -- `add_watch_to_cache`
  unfoldable pub add_watch_to_cache : World os → ℕ → Option (World os)
  add_watch_to_cache w p = do
    (slot, w₁) ← find_empty_cache_slot w
    w₂ ← assign w₁ p (λ watch. record watch { slot = slot })
    set_cell w₂ slot p
