-- ===== src/Cache/Scan.antt =====
-- The loop of the searches of lib/arguscache.c: the first element that passes a test.

use argusd.Base.{
  ℕ, zero, suc, ◌+◌, ◌<◌, ◌≡◌, refl, ◌∙◌, ap, ◌⊎◌, inl, inr, ℤ, pos, eof, int_eq, Bool, true, false,
  Bool-cases, some, List, [], ◌∷◌, Text, get_elem?, take, arith,
}
use argusd.Cache.{first_index, path_of_wd}

-- `r` is the index of the first element that passes, counted from `base`, or -1 if none passes.
pub record IsFirst {ℓ} {A : Type ℓ} (test : A → Bool) (xs : List A) (i : ℕ) : Type ℓ where
  pub item : A
  pub found : get_elem? xs i ≡ some item
  pub passes : test item ≡ true
  pub earlier : (j : ℕ) (b : A) → j < i → get_elem? xs j ≡ some b → test b ≡ false

abbrev pub Absent {ℓ} : {A : Type ℓ} → (A → Bool) → List A → Type ℓ
Absent test xs = (j : ℕ) (b : _) → get_elem? xs j ≡ some b → test b ≡ false

module _ {ℓ} {A : Type ℓ} (test : A → Bool) where
  pub Absent-cons : (x : A) (xs : List A) → test x ≡ false → Absent test xs → Absent test (x ∷ xs)
  Absent-cons x xs h rest zero b e = ground arith
  Absent-cons x xs h rest (suc j) b e = rest j b e

  IsFirst-cons :
      (x : A) (xs : List A) (i : ℕ)
      → test x ≡ false
      → IsFirst test xs i
      → IsFirst test (x ∷ xs) (suc i)
  IsFirst-cons x xs i h f = record {
    item = f.item;
    found = f.found;
    passes = f.passes;
    earlier = before;
  }
    where
      before : (j : ℕ) (b : A) → j < suc i → get_elem? (x ∷ xs) j ≡ some b → test b ≡ false
      before zero b l e = ground arith
      before (suc j) b l e = f.earlier j b (omega arith) e

  pub first_index_cases :
      (xs : List A) (base : ℕ)
      → ((i : ℕ) × (first_index test xs base ≡ pos (base + i)) × IsFirst test xs i)
        ⊎ ((first_index test xs base ≡ eof) × Absent test xs)
  unfolding first_index
  first_index_cases [] base = inr (refl, λ j b e. cc)
  first_index_cases (x ∷ xs) base = elim (Bool-cases (test x)) [
    | inl h ↦ inl (
      0,
      rw (h, first_index) (ap pos (omega arith)),
      record { item = x; found = refl; passes = h; earlier = λ j b l e. absurd (omega arith) },
    )
    | inr h ↦ elim (first_index_cases xs (suc base)) [
      | inl (i, e, f) ↦
          inl (suc i, rw (h, first_index) (e ∙ ap pos (omega arith)), IsFirst-cons x xs i h f)
      | inr (e, absent) ↦ inr (rw (h, first_index) e, Absent-cons x xs h absent)
    ]
  ]

module _ (wd : ℤ) where
  abbrev pub is_wd : ℤ → Bool
  is_wd d = int_eq d wd

  pub path_of_wd_first :
      (ds : List ℤ) (paths : List Text) (i : ℕ) (path : Text)
      → IsFirst is_wd ds i
      → get_elem? paths i ≡ some path
      → path_of_wd wd ds paths ≡ path
  unfolding path_of_wd
  path_of_wd_first [] paths i path f e = let g = f.found in cc
  path_of_wd_first (d ∷ ds) [] i path f e = cc
  path_of_wd_first (d ∷ ds) (p ∷ paths) zero path f e =
      let g = f.found in let h = f.passes in ground arith
  path_of_wd_first (d ∷ ds) (p ∷ paths) (suc i) path f e =
      let h : int_eq d wd ≡ false = f.earlier 0 d (omega arith) refl in
      rw (h, path_of_wd)
        (path_of_wd_first ds paths i path
          (record {
            item = f.item;
            found = f.found;
            passes = f.passes;
            earlier = λ j b l e. f.earlier (suc j) b (omega arith) e;
          })
          e)

  pub path_of_wd-Absent :
      (ds : List ℤ) (paths : List Text) → Absent is_wd ds → path_of_wd wd ds paths ≡ []
  unfolding path_of_wd
  path_of_wd-Absent [] paths h = refl
  path_of_wd-Absent (d ∷ ds) [] h = refl
  path_of_wd-Absent (d ∷ ds) (p ∷ paths) h =
      let here : int_eq d wd ≡ false = h 0 d refl in
      rw (here, path_of_wd) (path_of_wd-Absent ds paths (λ j b e. h (suc j) b e))

-- An index within the first `n` elements is one of the whole array, with the same element.
pub take_found {ℓ} :
    {A : Type ℓ} (n i : ℕ) (xs : List A) (a : A)
    → get_elem? (take n xs) i ≡ some a
    → (i < n) × (get_elem? xs i ≡ some a)
take_found zero i xs a e = cc
take_found (suc n) i [] a e = cc
take_found (suc n) zero (x ∷ xs) a e = (omega arith, e)
take_found (suc n) (suc i) (x ∷ xs) a e = let r = take_found n i xs a e in (omega (arith, r.0), r.1)

pub found_take {ℓ} :
    {A : Type ℓ} (n i : ℕ) (xs : List A) → i < n → get_elem? (take n xs) i ≡ get_elem? xs i
found_take zero i xs h = elim h [ ]
found_take (suc n) i [] h = refl
found_take (suc n) zero (x ∷ xs) h = refl
found_take (suc n) (suc i) (x ∷ xs) h = found_take n i xs (omega arith)
