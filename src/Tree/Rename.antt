-- ===== src/Tree/Rename.antt =====
-- `rewrite_cached_paths`: which paths it changes, and into what.

use argusd.Base.{
  ℕ, zero, suc, ◌+◌, ◌<◌, ◌≡◌, ◌≢◌, refl, sym, ap, subst, ◌∙◌, inl, inr, ◌↔◌, Bool, true, false,
  Bool-cases, ◌||◌, some, List, [], ◌∷◌, ◌++◌, Text, strn_eq, strn_eq-prefix, strn_eq-append,
  char_at, char_at-append, drop-append, format_path_fits, length, length-append, get_elem?, drop,
  arith, ◌==◌,
}
use argusd.Watch.{Watch}
use argusd.Tree.{path_max, is_below, rewrite_path, rewrite_paths, rewrite_cached_paths}

-- A string has no NUL byte inside.
abbrev pub IsString : Text → Type 0
IsString [] = Unit {0}
IsString (c ∷ s) = (c ≢ 0) × IsString s

-- What may follow the name of a directory in a path: nothing, or a slash and more.
abbrev pub Rest : Text → Type 0
Rest [] = Unit {0}
Rest (c ∷ s) = c ≡ b'/'

ends : Text → Bool
unfolding char_at
ends s = char_at s 0 == b'/' || char_at s 0 == 0

Rest-ends : (s : Text) → IsString s → ends s ≡ true → Rest s
unfolding ends
Rest-ends [] n h = tt
Rest-ends (c ∷ s) n h = ground arith

ends-Rest : (s : Text) → Rest s → ends s ≡ true
unfolding ends
ends-Rest [] r = refl
ends-Rest (c ∷ s) r = ground arith

IsString-drop : (dir rest : Text) → IsString (dir ++ rest) → IsString rest
IsString-drop [] rest h = h
IsString-drop (c ∷ dir) rest h = IsString-drop dir rest h.1

is_below-append : (dir rest : Text) → is_below dir (dir ++ rest) ≡ ends rest
unfolding is_below ends
is_below-append dir rest = rw (strn_eq-append dir rest, char_at-append dir rest)

is_below-prefix :
    (dir path : Text) → is_below dir path ≡ true → strn_eq (length dir) dir path ≡ true
unfolding is_below
is_below-prefix dir path h = ground arith

-- `is_below`, the test of `rewrite_cached_paths` and `remove_subtree`, says that the path, which
-- has no NUL inside, is the directory or lies below it: never a sibling whose name merely begins
-- alike.
pub is_below_iff :
    (dir path : Text)
    → IsString path
    → (is_below dir path ≡ true) ↔ ((rest : Text) × (path ≡ dir ++ rest) × Rest rest)
is_below_iff dir path n = (to, λ (rest, e, r). rw (e, is_below-append dir rest) (ends-Rest rest r))
  where
    to : is_below dir path ≡ true → (rest : Text) × (path ≡ dir ++ rest) × Rest rest
    to h =
        let rest = drop (length dir) path in
        let e : path ≡ dir ++ rest = strn_eq-prefix dir path (is_below-prefix dir path h) in
        (
          rest,
          e,
          Rest-ends rest (IsString-drop dir rest (subst IsString e n))
              (sym (is_below-append dir rest) ∙ ap (is_below dir) (sym e) ∙ h),
        )

get_elem?-rewrite_paths :
    (n i : ℕ) (fullpath newpf : Text) (paths : List Text) (path : Text)
    → i < n
    → get_elem? paths i ≡ some path
    → get_elem? (rewrite_paths n fullpath newpf paths) i ≡ some (rewrite_path fullpath newpf path)
unfolding rewrite_paths
get_elem?-rewrite_paths zero i fullpath newpf paths path l e = elim l [ ]
get_elem?-rewrite_paths (suc n) i fullpath newpf [] path l e = cc
get_elem?-rewrite_paths (suc n) zero fullpath newpf (p ∷ paths) path l e = cc
get_elem?-rewrite_paths (suc n) (suc i) fullpath newpf (p ∷ paths) path l e =
    get_elem?-rewrite_paths n i fullpath newpf paths path (omega arith) e

rewrite_path_below :
    (dir new rest : Text)
    → Rest rest
    → length new + length (dir ++ rest) < path_max
    → rewrite_path dir new (dir ++ rest) ≡ new ++ (b'/' ∷ rest)
unfolding rewrite_path
rewrite_path_below dir new rest r fits =
    rw (is_below-append dir rest, ends-Rest rest r, drop-append dir rest)
      (format_path_fits (suc path_max) new rest (omega (arith, length-append dir rest)))

rewrite_path_elsewhere :
    (dir new path : Text) → is_below dir path ≡ false → rewrite_path dir new path ≡ path
unfolding rewrite_path
rewrite_path_elsewhere dir new path h = rw h

-- The directory of the rename, its new name, and a cached path.
module _ (oldpathpf oldname newpathpf newname : Text) where
  abbrev pub old_dir : Text
  old_dir = oldpathpf ++ (b'/' ∷ oldname)

  abbrev pub new_dir : Text
  new_dir = newpathpf ++ (b'/' ∷ newname)

  -- The lengths at which no `snprintf` of `rewrite_cached_paths` truncates.
  pub record Fits (path : Text) : Type 0 where
    pub old_fits : length oldpathpf + length oldname + 1 < path_max
    pub new_fits : length newpathpf + length newname + 1 < path_max
    pub path_fits : length new_dir + length path < path_max

  -- The path in use at `i` after the rename, and what became of the old `path`.
  pub record Rewritten (watch : Watch) (i : ℕ) (path : Text) : Type 0 where
    pub new_path : Text
    pub stored :
        get_elem? (rewrite_cached_paths watch oldpathpf oldname newpathpf newname).paths i
        ≡ some new_path
    pub below :
        (rest : Text) → path ≡ old_dir ++ rest → Rest rest → new_path ≡ new_dir ++ (b'/' ∷ rest)
    pub elsewhere : ((rest : Text) → path ≡ old_dir ++ rest → ¬ Rest rest) → new_path ≡ path

  -- With names short enough for the buffers, `rewrite_cached_paths` leaves the path in use at an
  -- index alone if it is neither the renamed directory nor below it; otherwise it keeps what
  -- follows the old name and puts the new name and one more slash in front of it.
  pub rewrite_cached_paths_lem :
      (watch : Watch) (i : ℕ) (path : Text)
      → i < watch.pathc
      → get_elem? watch.paths i ≡ some path
      → IsString path
      → Fits path
      → Rewritten watch i path
  unfolding rewrite_cached_paths
  rewrite_cached_paths_lem watch i path l e n f = record {
    new_path = rewrite_path old_dir new_dir path;
    stored =
        rw
          (
            format_path_fits path_max oldpathpf oldname f.old_fits,
            format_path_fits path_max newpathpf newname f.new_fits,
          )
          (get_elem?-rewrite_paths watch.pathc i old_dir new_dir watch.paths path l e);
    below = λ rest s r.
        ap (rewrite_path old_dir new_dir) s
        ∙ rewrite_path_below old_dir new_dir rest r (omega (arith, ap length s, f.path_fits));
    elsewhere = λ far. elim (Bool-cases (is_below old_dir path)) [
      | inl h ↦ let (rest, s, r) = (is_below_iff old_dir path n).0 h in absurd (far rest s r)
      | inr h ↦ rewrite_path_elsewhere old_dir new_dir path h
    ];
  }
