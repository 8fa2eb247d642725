-- ===== src/Tree/Roots.antt =====
-- The root paths in use, and what `remove_root_path` leaves of them.
use argusd.Base.{
  set-append_length, take-length, take-append_length, ℕ, suc, ◌+◌, ◌-◌, ◌≡◌, ◌≢◌, refl, sym, ap,
  ◌∙◌, inl, inr, false, Bool-cases, Option, none, some, List, [], ◌∷◌, ◌++◌, Text, str_eq,
  str_eq_refl, str_eq_iff, length, length-append, set, take, arith,
}
use mathlib.Core.List.{append_assoc}
use mathlib.Core.Path.{ap₂}
use argusd.Watch.{Watch}
use argusd.Tree.{root_index, find_root_path, remove_root_path}

abbrev pub roots : Watch → List (Option Text)
roots watch = take watch.rootpathc watch.rootpaths

-- No root in the list is `path`.
abbrev pub NotIn : Text → List (Option Text) → Type 0
NotIn path [] = Unit {0}
NotIn path (none ∷ rs) = NotIn path rs
NotIn path (some root ∷ rs) = (path ≢ root) × NotIn path rs

str_eq_ne : (a b : Text) → a ≢ b → str_eq a b ≡ false
str_eq_ne a b h = elim (Bool-cases (str_eq a b)) [
  | inl e ↦ absurd (h ((str_eq_iff a b).0 e))
  | inr e ↦ e
]

module _ (path : Text) where
  root_index-NotIn : (rs : List (Option Text)) (i : ℕ) → NotIn path rs → root_index rs path i ≡ none
  unfolding root_index
  root_index-NotIn [] i h = refl
  root_index-NotIn (none ∷ rs) i h = root_index-NotIn rs (suc i) h
  root_index-NotIn (some r ∷ rs) i h = rw (str_eq_ne path r h.0) (root_index-NotIn rs (suc i) h.1)

  root_index-append :
      (xs ys : List (Option Text)) (i : ℕ)
      → NotIn path xs
      → root_index (xs ++ (some path ∷ ys)) path i ≡ some (i + length xs)
  unfolding root_index
  root_index-append [] ys i h = rw (str_eq_refl path) (ap some (omega arith))
  root_index-append (none ∷ xs) ys i h = root_index-append xs ys (suc i) h ∙ ap some (omega arith)
  root_index-append (some r ∷ xs) ys i h =
      rw (str_eq_ne path r h.0) (root_index-append xs ys (suc i) h.1 ∙ ap some (omega arith))

NotIn-append :
    (path : Text) (xs ys : List (Option Text))
    → NotIn path xs
    → NotIn path ys
    → NotIn path (xs ++ ys)
NotIn-append path [] ys h k = k
NotIn-append path (none ∷ xs) ys h k = NotIn-append path xs ys h k
NotIn-append path (some r ∷ xs) ys h k = (h.0, NotIn-append path xs ys h.1 k)

-- All of `rootpaths` is in use.
abbrev pub Holds : Watch → List (Option Text) → Type 0
Holds watch rs = (watch.rootpaths ≡ rs) × (watch.rootpathc ≡ length rs)

roots-Holds : (watch : Watch) (rs : List (Option Text)) → Holds watch rs → roots watch ≡ rs
roots-Holds watch rs (e, c) = rw (e, c) (take-length rs)

-- The roots before `path`, `path`, and those behind it.
module _ (watch : Watch) (path : Text) (xs ys : List (Option Text)) where
  abbrev pub Splits : Type 0
  Splits = Holds watch (xs ++ (some path ∷ ys)) × NotIn path xs

  remove_root_path_step :
      find_root_path watch path ≡ some (length xs)
      → remove_root_path watch path ≡ record watch {
        rootpaths = set watch.rootpaths (length xs) none;
        rootpathc = watch.rootpathc - 1;
      }
  unfolding remove_root_path
  remove_root_path_step e = rw (e, remove_root_path)

  find_root_path_at : Splits → find_root_path watch path ≡ some (length xs)
  unfolding find_root_path
  find_root_path_at (holds, h) =
      ap (λ r. root_index r path 0) (roots-Holds watch _ holds)
      ∙ root_index-append path xs ys 0 h
      ∙ ap some (omega arith)

  -- The first root that equals `path` becomes NULL where it stands, and the count falls by one.
  pub remove_root_path_at :
      Splits
      → remove_root_path watch path
        ≡ record watch { rootpaths = xs ++ (none ∷ ys); rootpathc = length xs + length ys }
  remove_root_path_at s = remove_root_path_step (find_root_path_at s) ∙ λ i. record watch {
    rootpaths =
        (ap (λ r. set r (length xs) none) s.0.0 ∙ set-append_length xs (some path) none ys) i;
    rootpathc = (count s) i;
  }
    where
      count : Splits → watch.rootpathc - 1 ≡ length xs + length ys
      count s = omega (arith, s.0.1, length-append xs (some path ∷ ys))

-- `remove_root_path` on the last root, if all of `rootpaths` is in use and no root before it is
-- equal, leaves the others in use.
pub roots-remove_root_path_last :
    (watch : Watch) (path : Text) (xs : List (Option Text))
    → Splits watch path xs []
    → roots (remove_root_path watch path) ≡ xs
roots-remove_root_path_last watch path xs s =
    ap roots (remove_root_path_at watch path xs [] s)
    ∙ ap (λ n. take n (xs ++ (none ∷ []))) (omega arith)
    ∙ take-append_length xs (none ∷ [])

-- `remove_root_path` on the first occurrence of a root that is not the last, if all of `rootpaths`
-- is in use, leaves a NULL among the roots in use, and takes the last root out of use.
pub roots-remove_root_path :
    (watch : Watch) (path last : Text) (xs ys : List (Option Text))
    → Splits watch path xs (ys ++ (some last ∷ []))
    → roots (remove_root_path watch path) ≡ xs ++ (none ∷ ys)
roots-remove_root_path watch path last xs ys s =
    ap roots (remove_root_path_at watch path xs (ys ++ (some last ∷ [])) s)
    ∙ ap₂ take (omega (arith, length-append ys (some last ∷ []), length-append xs (none ∷ ys)))
        (sym (append_assoc xs (none ∷ ys) (some last ∷ [])))
    ∙ take-append_length (xs ++ (none ∷ ys)) (some last ∷ [])

-- All of `rootpaths` being in use: after `remove_root_path` on the first occurrence of a root that
-- is not the last, `find_root_path` does not find the last root any more, if that root occurs
-- nowhere else, although it was not removed.
pub find_root_path-remove_root_path_lost :
    (watch : Watch) (path last : Text) (xs ys : List (Option Text))
    → Splits watch path xs (ys ++ (some last ∷ []))
    → NotIn last xs
    → NotIn last ys
    → find_root_path (remove_root_path watch path) last ≡ none
unfolding find_root_path
find_root_path-remove_root_path_lost watch path last xs ys s h k =
    ap (λ r. root_index r last 0) (roots-remove_root_path watch path last xs ys s)
    ∙ root_index-NotIn last (xs ++ (none ∷ ys)) 0 (NotIn-append last xs (none ∷ ys) h k)
