-- ===== src/Tree/RootStat.antt =====
-- `rootstat` after `validate_root_paths`: `find_replace_root_path` reads within it.
use argusd.Base.{
  ℕ, suc, ◌+◌, ◌≤◌, ◌<◌, ◌≡◌, refl, ap, ◌∙◌, inl, inr, Option, Option-cases, none, some, List, [],
  ◌∷◌, ◌++◌, Text, text, length, get_elem?, get_elem?-total, take, arith,
}
use argusd.Watch.{Watch, Stat}
use argusd.Os.{Os, Allocates}
use argusd.Table.{World}
use argusd.Tree.{root_index, find_root_path}
use argusd.Tree.Validate.{stat_roots, validate_root_paths}
use argusd.Tree.Follow.{
  find_root_stat, replace_root, replace_found, find_replace_root_path, traverse_root,
}

length-stat_roots :
    (lstat : Text → Option Stat) (roots : List (Option Text))
    → length (stat_roots lstat roots) ≡ length roots
unfolding stat_roots
length-stat_roots lstat [] = refl
length-stat_roots lstat (r ∷ roots) = ap suc (length-stat_roots lstat roots)

root_index-lt :
    (roots : List (Option Text)) (path : Text) (base i : ℕ)
    → root_index roots path base ≡ some i
    → i < base + length roots
unfolding root_index
root_index-lt [] path base i e = cc
root_index-lt (none ∷ roots) path base i e = omega (arith, root_index-lt roots path (suc base) i e)
root_index-lt (some r ∷ roots) path base i e = ground (arith, root_index-lt roots path (suc base) i)

find_root_path-lt :
    (watch : Watch) (path : Text) (i : ℕ)
    → find_root_path watch path ≡ some i
    → i < length (take watch.rootpathc watch.rootpaths)
unfolding find_root_path
find_root_path-lt watch path i e =
    omega (arith, root_index-lt (take watch.rootpathc watch.rootpaths) path 0 i e)

find_root_stat-eq :
    (watch : Watch) (path : Text) → find_root_stat watch path ≡ find_root_path watch path
unfolding find_root_path find_root_stat
find_root_stat-eq watch path = refl

-- Every root in use has its entry in `rootstat`.
pub record HasStats (watch : Watch) : Type 0 where
  pub enough : length (take watch.rootpathc watch.rootpaths) ≤ length watch.rootstat

module _ (os : Os) where
  pub validate_root_paths-HasStats :
      Allocates os
      → (watch : Watch) (sys : os.State) → HasStats (validate_root_paths os watch sys).0
  unfolding validate_root_paths
  validate_root_paths-HasStats alloc watch sys = rw (alloc sys) (record {
    enough = omega (
      arith,
      length-stat_roots (os.lstat (os.allocate sys).1) (take watch.rootpathc watch.rootpaths),
    );
  })

  replace_root-total :
      (w : World os) (p : ℕ) (watch : Watch) (i : ℕ) (found : Text)
      → (w' : World os) × (replace_root os w p watch i found ≡ some w')
  unfolding replace_root
  replace_root-total w p watch i [] = (w, refl)
  replace_root-total w p watch i (c ∷ found) = (_, refl)

  -- If every root in use has an entry in `rootstat`, as after `validate_root_paths`, then
  -- `find_replace_root_path` returns on every system, whatever path it is given.
  pub find_replace_root_path-total :
      (w : World os) (p : ℕ) (watch : Watch) (path : Text)
      → get_elem? w.heap p ≡ some watch
      → HasStats watch
      → (w' : World os) × (find_replace_root_path os w p path ≡ some w')
  unfolding find_replace_root_path replace_found
  find_replace_root_path-total w p watch path at h =
      elim (Option-cases (find_root_path watch path)) [
        | inl e ↦ (w, rw (at, e))
        | inr (i, e) ↦
            let lt = find_root_path-lt watch path i e in
            let (sb, f) = get_elem?-total watch.rootstat i (omega (arith, lt, h.enough)) in
            let found =
              os.nftw Text w.sys (traverse_root os watch.pid sb)
                (text "/proc/" ++ (os.decimal watch.pid ++ text "/root/.")) [] in
            let (w', g) = replace_root-total w p watch i found in
            (w', rw (at, e, find_root_stat-eq watch path ∙ e, f) g)
      ]
