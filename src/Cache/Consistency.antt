-- ===== src/Cache/Consistency.antt =====
-- `check_cache_consistency` against its specification: the entries whose path passes the test,
-- in their order.
use argusd.Base.{
  ℕ, zero, suc, ◌-◌, ◌≤◌, ◌<◌, ◌≡◌, refl, sym, ap, ◌∙◌, ℤ, Bool, true, false, Bool-cases, Option,
  some, inl, inr, List, [], ◌∷◌, Text, length, get_elem?, get_elem?-total, select, arith, ltb,
}
use argusd.Watch.{Watch, Stat}
use argusd.Cache.{
  is_consistent, path_at, check_loop, check_cache_consistency, remove_item_from_cache,
}
use argusd.Cache.Arrays.{
  entries, IsWf, erase_at, length-entries, entries-remove_item_from_cache,
  remove_item_from_cache-IsWf, get_elem?-zip,
}

-- The entries below `i` as they are, those from `i` on filtered.
abbrev select_from {ℓ} : {A : Type ℓ} → (A → Bool) → ℕ → List A → List A
select_from p zero xs = select p xs
select_from p (suc i) [] = []
select_from p (suc i) (x ∷ xs) = x ∷ select_from p i xs

module _ {ℓ} {A : Type ℓ} (p : A → Bool) where
  select_from_kept :
      (i : ℕ) (xs : List A) (a : A)
      → get_elem? xs i ≡ some a
      → p a ≡ true
      → select_from p (suc i) xs ≡ select_from p i xs
  select_from_kept i [] a e h = cc
  select_from_kept zero (x ∷ xs) a e h = ground arith
  select_from_kept (suc i) (x ∷ xs) a e h = ap (λ r. x ∷ r) (select_from_kept i xs a e h)

  select_from_dropped :
      (i : ℕ) (xs : List A) (a : A)
      → get_elem? xs i ≡ some a
      → p a ≡ false
      → select_from p i (erase_at i xs) ≡ select_from p i xs
  select_from_dropped i [] a e h = cc
  select_from_dropped zero (x ∷ xs) a e h = ground arith
  select_from_dropped (suc i) (x ∷ xs) a e h = ap (λ r. x ∷ r) (select_from_dropped i xs a e h)

  select_from_end : (i : ℕ) (xs : List A) → length xs ≤ i → select_from p i xs ≡ xs
  select_from_end zero [] h = refl
  select_from_end zero (x ∷ xs) h = absurd (omega arith)
  select_from_end (suc i) [] h = refl
  select_from_end (suc i) (x ∷ xs) h = ap (λ r. x ∷ r) (select_from_end i xs (omega arith))

-- An index below `pathc` has an entry, and its path is what the loop reads.
entry_at :
    (watch : Watch) (i : ℕ)
    → IsWf watch
    → i < watch.pathc
    → (d : ℤ) × (get_elem? (entries watch) i ≡ some (d, path_at watch i))
unfolding path_at
entry_at watch i h l =
    let ((d, path), e) =
      get_elem?-total (entries watch) i (omega (arith, length-entries watch h)) in
    let found = get_elem?-zip watch.pathc i watch.wd watch.paths d path e in
    (d, rw (found.1, path_at) e)

module _ (lstat : Text → Option Stat) where
  -- The test on an entry.
  abbrev pub keeps : ℕ → ℤ × Text → Bool
  keeps flags (d, path) = is_consistent lstat flags path

  check_loop-entries :
      (fuel i : ℕ) (watch : Watch)
      → IsWf watch
      → watch.pathc - i ≤ fuel
      → entries (check_loop lstat fuel i watch) ≡ select_from (keeps watch.flags) i (entries watch)
  unfolding check_loop
  check_loop-entries zero i watch h l = sym (
      select_from_end (keeps watch.flags) i (entries watch) (omega (arith, length-entries watch h)))
  check_loop-entries (suc fuel) i watch h l = elim (Bool-cases (ltb i watch.pathc)) [
    | inr past ↦ rw past (
        sym (
          select_from_end (keeps watch.flags) i (entries watch)
            (ground (arith, length-entries watch h))))
    | inl below ↦ elim (Bool-cases (is_consistent lstat watch.flags (path_at watch i))) [
      | inl ok ↦
          let (d, e) = entry_at watch i h (ground arith) in
          rw (below, ok)
            (check_loop-entries fuel (suc i) watch h (omega arith)
              ∙ select_from_kept (keeps watch.flags) i (entries watch) _ e ok)
      | inr bad ↦
          let (d, e) = entry_at watch i h (ground arith) in
          rw (below, bad)
            (check_loop-entries fuel i (remove_item_from_cache watch i)
                (remove_item_from_cache-IsWf watch i h) (ground arith)
              ∙ (ap (select_from (keeps watch.flags) i)
                    (entries-remove_item_from_cache watch i h (ground arith))
                  ∙ select_from_dropped (keeps watch.flags) i (entries watch) _ e bad))
    ]
  ]

  -- The arrays that the loop leaves behind still hold every entry in use.
  check_loop-IsWf : (fuel i : ℕ) (watch : Watch) → IsWf watch → IsWf (check_loop lstat fuel i watch)
  unfolding check_loop
  check_loop-IsWf zero i watch h = h
  check_loop-IsWf (suc fuel) i watch h = ground (
    arith,
    check_loop-IsWf fuel (suc i) watch h,
    check_loop-IsWf fuel i (remove_item_from_cache watch i) (remove_item_from_cache-IsWf watch i h),
  )

  -- If the arrays of the watch hold `pathc` items or more, they do so after
  -- `check_cache_consistency`.
  pub check_cache_consistency-IsWf :
      (watch : Watch) → IsWf watch → IsWf (check_cache_consistency lstat watch)
  unfolding check_cache_consistency
  check_cache_consistency-IsWf watch h = check_loop-IsWf watch.pathc 0 watch h

  -- The index loop that removes items in place, on a watch whose arrays hold `pathc` items, leaves
  -- exactly the entries whose path is empty or is found by `lstat` and, under AW_ONLYDIR, is a
  -- directory; they keep their order and their descriptors.
  pub entries-check_cache_consistency :
      (watch : Watch)
      → IsWf watch
      → entries (check_cache_consistency lstat watch) ≡ select (keeps watch.flags) (entries watch)
  unfolding check_cache_consistency
  entries-check_cache_consistency watch h = check_loop-entries watch.pathc 0 watch h (omega arith)
