-- ===== src/Cache/Arrays.antt =====
-- The parallel arrays as one list of entries, and what moving items down does to it.
use mathlib.Core.Path.{ap₂}
use argusd.Base.{
  sym, Option-cases, inl, inr, ℕ, zero, suc, ◌+◌, ◌-◌, ◌≤◌, ◌<◌, ◌≡◌, refl, ap, ◌∙◌, ℤ, none, some,
  List, [], ◌∷◌, Text, length, get_elem?, set, take, arith, length-set,
}
use argusd.Watch.{Watch}
use argusd.Cache.{copy_down, shift_down, remove_item_from_cache}

module _ {ℓ κ} {A : Type ℓ} {B : Type κ} where
  abbrev pub zip : List A → List B → List (A × B)
  zip [] ys = []
  zip (x ∷ xs) [] = []
  zip (x ∷ xs) (y ∷ ys) = (x, y) ∷ zip xs ys

-- The entries in use, each a watch descriptor with its path.
abbrev pub entries : Watch → List (ℤ × Text)
entries watch = zip (take watch.pathc watch.wd) (take watch.pathc watch.paths)

-- Every index below `pathc` is one of both arrays.
pub record IsWf (watch : Watch) : Type 0 where
  pub wd_allocated : watch.pathc ≤ length watch.wd
  pub paths_allocated : watch.pathc ≤ length watch.paths

abbrev pub erase_at {ℓ} : {A : Type ℓ} → ℕ → List A → List A
erase_at i [] = []
erase_at zero (x ∷ xs) = xs
erase_at (suc i) (x ∷ xs) = x ∷ erase_at i xs

module _ {ℓ} {A : Type ℓ} where
  copy_down-suc : (i : ℕ) (x : A) (xs : List A) → copy_down (suc i) (x ∷ xs) ≡ x ∷ copy_down i xs
  copy_down-suc i x xs =
      elim (get_elem? xs (suc i))
        as (λ o.
          elim o [ none ↦ x ∷ xs | some v ↦ x ∷ set xs i v ]
          ≡ x ∷ elim o [ none ↦ xs | some v ↦ set xs i v ]) [ none ↦ refl | some v ↦ refl ]

  shift_down-suc :
      (n i : ℕ) (x : A) (xs : List A) → shift_down n (suc i) (x ∷ xs) ≡ x ∷ shift_down n i xs
  unfolding shift_down
  shift_down-suc zero i x xs = refl
  shift_down-suc (suc n) i x xs =
      rw (copy_down-suc i x xs) (shift_down-suc n (suc i) x (copy_down i xs))

  length-copy_down : (i : ℕ) (xs : List A) → length (copy_down i xs) ≡ length xs
  length-copy_down i xs = elim (Option-cases (get_elem? xs (suc i))) [
    | inl e ↦ rw (e, copy_down)
    | inr (v, e) ↦ rw (e, copy_down) (length-set xs i v)
  ]

  length-shift_down : (n i : ℕ) (xs : List A) → length (shift_down n i xs) ≡ length xs
  unfolding shift_down
  length-shift_down zero i xs = refl
  length-shift_down (suc n) i xs =
      length-shift_down n (suc i) (copy_down i xs) ∙ length-copy_down i xs

  take-shift_down_head :
      (n : ℕ) (x : A) (xs : List A) → n ≤ length xs → take n (shift_down n 0 (x ∷ xs)) ≡ take n xs
  unfolding shift_down
  take-shift_down_head zero x xs h = refl
  take-shift_down_head (suc n) x [] h = elim h [ ]
  take-shift_down_head (suc n) x (y ∷ ys) h =
      rw (shift_down-suc n 0 y (y ∷ ys))
        (ap (λ r. y ∷ r) (take-shift_down_head n y ys (omega arith)))

  -- Moving the `m` items above `i` down by one removes the item at `i` from the first `n`.
  take-shift_down :
      (m i k : ℕ) (xs : List A)
      → m + i ≡ k
      → suc k ≤ length xs
      → take k (shift_down m i xs) ≡ erase_at i (take (suc k) xs)
  take-shift_down m i k [] f h = absurd (omega arith)
  take-shift_down m zero k (x ∷ xs) f h =
      let e : m ≡ k = omega arith in rw e (take-shift_down_head k x xs (omega arith))
  take-shift_down m (suc i) zero (x ∷ xs) f h = absurd (omega arith)
  take-shift_down m (suc i) (suc k) (x ∷ xs) f h =
      rw (shift_down-suc m i x xs)
        (ap (λ r. x ∷ r) (take-shift_down m i k xs (omega arith) (omega arith)))

  -- Array form of the removal: the first `n - 1` cells afterwards.
  pub take-shift_down_at :
      (i n : ℕ) (xs : List A)
      → i < n
      → n ≤ length xs
      → take (n - 1) (shift_down (n - 1 - i) i xs) ≡ erase_at i (take n xs)
  take-shift_down_at i n xs h l =
      let e : n ≡ suc (n - 1) = omega arith in
      take-shift_down (n - 1 - i) i (n - 1) xs (omega arith) (omega arith)
      ∙ ap (λ k. erase_at i (take k xs)) (sym e)

module _ {ℓ κ} {A : Type ℓ} {B : Type κ} where
  zip-nil : (xs : List A) → zip {B = B} xs [] ≡ []
  zip-nil [] = refl
  zip-nil (x ∷ xs) = refl

  zip-erase_at :
      (i : ℕ) (xs : List A) (ys : List B)
      → zip (erase_at i xs) (erase_at i ys) ≡ erase_at i (zip xs ys)
  zip-erase_at i [] ys = refl
  zip-erase_at zero (x ∷ xs) [] = zip-nil xs
  zip-erase_at zero (x ∷ xs) (y ∷ ys) = refl
  zip-erase_at (suc i) (x ∷ xs) [] = refl
  zip-erase_at (suc i) (x ∷ xs) (y ∷ ys) = ap (λ r. (x, y) ∷ r) (zip-erase_at i xs ys)

  pub length-zip :
      (n : ℕ) (xs : List A) (ys : List B)
      → n ≤ length xs
      → n ≤ length ys
      → length (zip (take n xs) (take n ys)) ≡ n
  length-zip zero xs ys h k = refl
  length-zip (suc n) [] ys h k = elim h [ ]
  length-zip (suc n) (x ∷ xs) [] h k = elim k [ ]
  length-zip (suc n) (x ∷ xs) (y ∷ ys) h k = ap suc (length-zip n xs ys (omega arith) (omega arith))

  pub get_elem?-zip :
      (n i : ℕ) (xs : List A) (ys : List B) (a : A) (b : B)
      → get_elem? (zip (take n xs) (take n ys)) i ≡ some (a, b)
      → (get_elem? xs i ≡ some a) × (get_elem? ys i ≡ some b)
  get_elem?-zip zero i xs ys a b e = cc
  get_elem?-zip (suc n) i [] ys a b e = cc
  get_elem?-zip (suc n) i (x ∷ xs) [] a b e = cc
  get_elem?-zip (suc n) zero (x ∷ xs) (y ∷ ys) a b e = (cc, cc)
  get_elem?-zip (suc n) (suc i) (x ∷ xs) (y ∷ ys) a b e = get_elem?-zip n i xs ys a b e

pub length-entries : (watch : Watch) → IsWf watch → length (entries watch) ≡ watch.pathc
length-entries watch h =
    length-zip watch.pathc watch.wd watch.paths h.wd_allocated h.paths_allocated

-- `remove_item_from_cache` removes the entry at `index` and no other.
pub entries-remove_item_from_cache :
    (watch : Watch) (index : ℕ)
    → IsWf watch
    → index < watch.pathc
    → entries (remove_item_from_cache watch index) ≡ erase_at index (entries watch)
unfolding remove_item_from_cache
entries-remove_item_from_cache watch index h l =
    ap₂ zip (take-shift_down_at index watch.pathc watch.wd l h.wd_allocated)
      (take-shift_down_at index watch.pathc watch.paths l h.paths_allocated)
    ∙ zip-erase_at index (take watch.pathc watch.wd) (take watch.pathc watch.paths)

pub remove_item_from_cache-IsWf :
    (watch : Watch) (index : ℕ) → IsWf watch → IsWf (remove_item_from_cache watch index)
unfolding remove_item_from_cache
remove_item_from_cache-IsWf watch index h =
    let n = watch.pathc - 1 - index in
    record {
      wd_allocated = omega (arith, h.wd_allocated, length-shift_down n index watch.wd);
      paths_allocated = omega (arith, h.paths_allocated, length-shift_down n index watch.paths);
    }
