-- ===== src/Table/System.antt =====
-- What lib/arguscache.c does to the system: it allocates memory, and nothing else.
use argusd.Base.{
  ℕ, zero, suc, inl, inr, pos, negsuc, Bool-cases, Option, none, some, ◌++◌, ltb, length, get_elem?,
  set, ◌>>=◌, ℤ,
}
use argusd.Os.{Os}
use argusd.Table.{
  World, fresh_cells, find_free_from, mark_cache_slot_empty, mark_new_slots, grow_cache, alloc_inc,
  find_empty_cache_slot, assign, set_cell, add_watch_to_cache,
}

-- The property holds of the result, if there is one.
abbrev pub OnSome {ℓ} : {A : Type ℓ} → (A → Type 0) → Option A → Type 0
OnSome P none = Unit {0}
OnSome P (some a) = P a

pub OnSome-any {ℓ} : {A : Type ℓ} (o : Option A) → OnSome (λ a. Unit {0}) o
OnSome-any none = tt
OnSome-any (some a) = tt

pub OnSome-bind {ℓ κ} :
    {A : Type ℓ} {B : Type κ} (P : A → Type 0) (Q : B → Type 0) (m : Option A) (f : A → Option B)
    → OnSome P m
    → ((a : A) → P a → OnSome Q (f a))
    → OnSome Q (m >>= f)
OnSome-bind P Q none f h k = tt
OnSome-bind P Q (some a) f h k = k a h

module _ (os : Os) (Q : os.State → Type 0) (step : (s : os.State) → Q s → Q (os.allocate s).1) where
  -- The property holds of the system.
  abbrev pub Holds : World os → Type 0
  Holds w = Q w.sys

  abbrev HoldsWith : ℤ × World os → Type 0
  HoldsWith r = Q r.1.sys

  mark_cache_slot_empty-Holds :
      (w : World os) (slot : ℕ) → Q w.sys → OnSome Holds (mark_cache_slot_empty os w slot)
  unfolding mark_cache_slot_empty
  mark_cache_slot_empty-Holds w slot h = elim (Bool-cases (os.allocate w.sys).0) [
    | inr bad ↦ rw bad (step w.sys h)
    | inl ok ↦ elim (Bool-cases (ltb slot (length w.wlcache))) [
      | inl inside ↦ rw (ok, inside) (step w.sys h)
      | inr outside ↦ rw (ok, outside) tt
    ]
  ]

  mark_new_slots-Holds : (n i : ℕ) (w : World os) → Q w.sys → OnSome Holds (mark_new_slots os n i w)
  unfolding mark_new_slots
  mark_new_slots-Holds zero i w h = h
  mark_new_slots-Holds (suc n) i w h =
      OnSome-bind Holds Holds (mark_cache_slot_empty os w i) _ (mark_cache_slot_empty-Holds w i h)
        (λ v k. mark_new_slots-Holds n (suc i) (record v { wlcachec = suc v.wlcachec }) k)

  grow_cache-Holds : (n : ℕ) (w : World os) → Q w.sys → OnSome HoldsWith (grow_cache os n w)
  unfolding grow_cache
  grow_cache-Holds n w h = elim (Bool-cases (os.allocate w.sys).0) [
    | inr bad ↦ rw bad (step w.sys h)
    | inl ok ↦ rw ok (
        OnSome-bind Holds HoldsWith _ _
          (mark_new_slots-Holds n w.wlcachec
            (record w { wlcache = w.wlcache ++ fresh_cells n; sys = (os.allocate w.sys).1 })
            (step w.sys h))
          (λ v k. k))
  ]

  find_empty_cache_slot-Holds :
      (w : World os) → Q w.sys → OnSome HoldsWith (find_empty_cache_slot os w)
  unfolding find_empty_cache_slot
  find_empty_cache_slot-Holds w h =
      OnSome-bind (λ free. Unit {0}) HoldsWith (find_free_from w.heap w.wlcachec w.wlcache 0) _
        (any (find_free_from w.heap w.wlcachec w.wlcache 0)) go
    where
      any : (o : Option ℤ) → OnSome (λ free. Unit {0}) o
      any none = tt
      any (some free) = tt

      go :
          (free : ℤ)
          → Unit {0}
          → OnSome HoldsWith
              (elim free [ pos i ↦ some (pos i, w) | negsuc _ ↦ grow_cache os alloc_inc w ])
      go (pos i) u = h
      go (negsuc i) u = grow_cache-Holds alloc_inc w h

  assign-Holds : (w : World os) (p : ℕ) (f : _) → Q w.sys → OnSome Holds (assign os w p f)
  unfolding assign
  assign-Holds w p f h =
      elim (get_elem? w.heap p)
        as (λ o. OnSome Holds (elim o [
          | none ↦ none
          | some watch ↦ some (record w { heap = set w.heap p (f watch) })
        ])) [ none ↦ tt | some watch ↦ h ]

  set_cell-Holds : (w : World os) (slot : ℤ) (p : ℕ) → Q w.sys → OnSome Holds (set_cell os w slot p)
  unfolding set_cell
  set_cell-Holds w (negsuc i) p h = tt
  set_cell-Holds w (pos i) p h = elim (Bool-cases (ltb i (length w.wlcache))) [
    | inl inside ↦ rw inside h
    | inr outside ↦ rw outside tt
  ]

  -- What `calloc` and `realloc` keep, `add_watch_to_cache` keeps.
  pub add_watch_to_cache-Holds :
      (w : World os) (p : ℕ) → Q w.sys → OnSome Holds (add_watch_to_cache os w p)
  unfolding add_watch_to_cache
  add_watch_to_cache-Holds w p h =
      OnSome-bind HoldsWith Holds (find_empty_cache_slot os w) _ (find_empty_cache_slot-Holds w h)
        (λ r k.
          OnSome-bind Holds Holds (assign os r.1 p _) _ (assign-Holds r.1 p _ k)
            (λ v l. set_cell-Holds v r.0 p l))
