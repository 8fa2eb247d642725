-- ===== src/Tests/Tree.antt =====
-- Roots, the walk and the rename at concrete data.
use argusd.Base.{
  pos, ◌≡◌, ◌≢◌, ◌↔◌, ◌++◌, refl, ap, ℤ, true, none, some, [], ◌∷◌, Text, text, char_at, get_elem?,
  arith,
}
use argusd.Tests.{
  small, small-Allocates, small-WalksByCalls, sample, sample-IsWf, world, world-IsTable,
}
use argusd.Watch.{Watch}
use argusd.Table.{World}
use argusd.Tree.{find_root_path, remove_root_path, watch_subtree, is_below, remove_subtree}
use argusd.Tree.Roots.{
  Splits, roots, roots-remove_root_path_last, roots-remove_root_path,
  find_root_path-remove_root_path_lost,
}
use argusd.Tree.Rename.{IsString, Fits, Rest, Rewritten, is_below_iff, rewrite_cached_paths_lem}
use argusd.Tree.Walk.{Watched, watch_path_cases}
use argusd.Tree.Totality.{Grows, watch_subtree-Grows}
use argusd.Tree.Subtree.{Blanks, remove_subtree_lem}

-- Two roots more, "/s" and "/t".
abbrev three : Watch
three = record sample {
  rootpaths = some (text "/r") ∷ some (text "/s") ∷ some (text "/t") ∷ [];
  rootpathc = 3;
}

r_not_s : text "/s" ≢ text "/r"
unfolding char_at
r_not_s e = omega (arith, ap (λ path. char_at path 1) e)

s_not_t : text "/t" ≢ text "/s"
unfolding char_at
s_not_t e = omega (arith, ap (λ path. char_at path 1) e)

r_not_t : text "/t" ≢ text "/r"
unfolding char_at
r_not_t e = omega (arith, ap (λ path. char_at path 1) e)

r_a-IsString : IsString (text "/r/a")
r_a-IsString = (λ e. omega arith, (λ e. omega arith, (λ e. omega arith, (λ e. omega arith, tt))))

r_a-Fits : Fits (text "/r") (text "a") (text "/s") (text "c") (text "/r/a")
r_a-Fits = record { old_fits = omega arith; new_fits = omega arith; path_fits = omega arith }

split_middle : Splits three (text "/s") (some (text "/r") ∷ []) (some (text "/t") ∷ [])
split_middle = ((refl, refl), (r_not_s, tt))

split_last : Splits three (text "/t") (some (text "/r") ∷ some (text "/s") ∷ []) []
split_last = ((refl, refl), (r_not_t, (s_not_t, tt)))

watch_subtree-Grows_example : Grows small sample (watch_subtree small sample 5)
watch_subtree-Grows_example =
    watch_subtree-Grows small small-Allocates small-WalksByCalls sample 5 sample-IsWf tt

watched_r_b : Watched small sample (text "/r/b") 5
watched_r_b = watch_path_cases small small-Allocates sample (text "/r/b") 5 sample-IsWf tt

rewrite_cached_paths_lem_example :
    Rewritten (text "/r") (text "a") (text "/s") (text "c") sample 2 (text "/r/a")
rewrite_cached_paths_lem_example =
    rewrite_cached_paths_lem (text "/r") (text "a") (text "/s") (text "c") sample 2 (text "/r/a")
      (omega arith) refl r_a-IsString r_a-Fits

is_below_iff_example :
    (is_below (text "/r") (text "/r/a") ≡ true)
    ↔ ((rest : Text) × (text "/r/a" ≡ text "/r" ++ rest) × Rest rest)
is_below_iff_example = is_below_iff (text "/r") (text "/r/a") r_a-IsString

remove_subtree_lem_example :
    (r : ℤ) × (w' : World small) × (remove_subtree small world 0 (text "/r/a") ≡ some (r, w'))
    × Blanks small small-Allocates world 0 0 (pos 3) (text "/r/a") sample.wd sample.paths r w'
    × (get_elem? w'.heap 0 ≡ some sample)
remove_subtree_lem_example =
    remove_subtree_lem small small-Allocates world 0 sample (text "/r/a") world-IsTable refl
      sample-IsWf (omega arith)

last_root_removed :
    roots (remove_root_path three (text "/t")) ≡ some (text "/r") ∷ some (text "/s") ∷ []
last_root_removed =
    roots-remove_root_path_last three (text "/t") (some (text "/r") ∷ some (text "/s") ∷ [])
      split_last

null_left : roots (remove_root_path three (text "/s")) ≡ some (text "/r") ∷ none ∷ []
null_left =
    roots-remove_root_path three (text "/s") (text "/t") (some (text "/r") ∷ []) [] split_middle

find_root_path-remove_root_path_lost_example :
    find_root_path (remove_root_path three (text "/s")) (text "/t") ≡ none
find_root_path-remove_root_path_lost_example =
    find_root_path-remove_root_path_lost three (text "/s") (text "/t") (some (text "/r") ∷ []) []
      split_middle (r_not_t, tt) tt
