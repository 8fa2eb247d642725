-- ===== src/Notify/Sound/Walk.antt =====
-- The walk of lib/argustree.c keeps the arrays of the watch in order, roots that are NULL or not.
use mathlib.Core.Bool.{true≢false}
use argusd.Base.{
  ℕ, ◌≢◌, sym, ◌∙◌, inl, inr, ℤ, eof, int_eq, int_eq_iff, Bool-cases, not, ◌&&◌, Option, none, some,
  List, [], ◌∷◌, Text, take, drop, bit_or,
}
use argusd.Watch.{Watch, Stat, has, aw_only_dir, aw_recursive}
use argusd.Os.{Os, Allocates, WalksByCalls}
use argusd.Cache.Arrays.{IsWf}
use argusd.Table.System.{OnSome, OnSome-bind, OnSome-any}
use argusd.Tree.{
  Run, is_ignored, too_deep, should_ignore_path, watch_flags, watch_path, traverse_tree,
  watch_path_recursive, watch_root, watch_roots, watch_subtree, ftw_stop,
}
use argusd.Tree.Walk.{append_entry_lem, with_entry-Appends}
use argusd.Notify.Sound.{}

module _ (os : Os) where
  module _ (alloc : Allocates os) where
    -- The watch of a run that has not faulted has arrays of `pathc` items.
    abbrev RunWf : Run os → Type 0
    RunWf = OnSome (λ r. IsWf r.0)

    watch_path-IsWf :
        (watch : Watch) (path : Text) (sys : os.State)
        → IsWf watch
        → OnSome (λ r. IsWf r.1) (watch_path os watch path sys)
    unfolding watch_path
    watch_path-IsWf watch path sys h =
        let mask = bit_or watch.event_mask (watch_flags watch path) in
        let r = os.inotify_add_watch sys watch.fd path mask in
        OnSome-bind (λ ignored. Unit {0}) _ (should_ignore_path (os.lstat sys) watch path) _
          (OnSome-any (should_ignore_path (os.lstat sys) watch path))
          (λ ignored _. elim (Bool-cases ignored) [
            | inl yes_ ↦ rw yes_ h
            | inr no_ ↦ elim (Bool-cases (int_eq r.0 eof)) [
              | inl bad ↦ rw (no_, bad) h
              | inr good ↦
                  let (sys', e) = append_entry_lem os alloc watch r.0 path r.1 in
                  let ne : r.0 ≢ eof = λ q. true≢false (sym ((int_eq_iff r.0 eof).1 q) ∙ good) in
                  rw (no_, good, e) (with_entry-Appends os alloc watch r.0 path h ne).wf
            ]
          ])

    -- One call of the function of the walk, on a run that may have faulted.
    traverse_tree-IsWf :
        (path : Text) (sb : Stat) (base level : ℕ) (run : Run os)
        → RunWf run
        → RunWf (traverse_tree os path sb base level run).1
    unfolding traverse_tree
    traverse_tree-IsWf path sb base level none h = tt
    traverse_tree-IsWf path sb base level (some (watch, sys)) h =
        elim (Bool-cases (has watch.flags aw_only_dir && not sb.is_dir)) [
          | inl file ↦ rw file h
          | inr a ↦
              elim (Bool-cases (is_ignored (take watch.ignorec watch.ignores) (drop base path))) [
                | inl skip ↦ rw (a, skip) h
                | inr b ↦ elim (Bool-cases (too_deep watch.max_depth level)) [
                  | inl deep ↦ rw (a, b, deep) h
                  | inr c ↦ rw (a, b, c) (go _ (watch_path-IsWf watch path sys h))
                ]
              ]
        ]
      where
        go :
            (o : Option (ℤ × Watch × os.State))
            → OnSome (λ r. IsWf r.1) o
            → RunWf
                (elim o as (λ x. ℤ × Run os) [
                  | none ↦ (ftw_stop, none)
                  | some (result, watch', sys') ↦ (result, some (watch', sys'))
                ]).1
        go none k = tt
        go (some (r, v, s)) k = k

    module _ (walks : WalksByCalls os) where
      watch_root-IsWf :
          (watch : Watch) (root : Text) (sys : os.State)
          → IsWf watch
          → RunWf (watch_root os watch root sys)
      unfolding watch_root watch_path_recursive
      watch_root-IsWf watch root sys h = elim (Bool-cases (has watch.flags aw_recursive)) [
        | inl deep ↦ rw deep (
            walks (Run os) RunWf sys (traverse_tree os) root (some (watch, sys))
              (λ p sb base level b g. traverse_tree-IsWf p sb base level b g) h)
        | inr flat ↦ rw flat (
            OnSome-bind (λ r. IsWf r.1) (λ r. IsWf r.0) (watch_path os watch root sys) _
              (watch_path-IsWf watch root sys h) (λ r k. k))
      ]

      watch_roots-IsWf :
          (rs : List (Option Text)) (watch : Watch) (sys : os.State)
          → IsWf watch
          → RunWf (watch_roots os rs watch sys)
      unfolding watch_roots
      watch_roots-IsWf [] watch sys h = h
      watch_roots-IsWf (none ∷ rs) watch sys h = elim (Bool-cases (has watch.flags aw_recursive)) [
        | inl deep ↦ rw deep tt
        | inr flat ↦ rw flat (watch_roots-IsWf rs watch sys h)
      ]
      watch_roots-IsWf (some r ∷ rs) watch sys h =
          OnSome-bind (λ r. IsWf r.0) (λ r. IsWf r.0) (watch_root os watch r sys) _
            (watch_root-IsWf watch r sys h) (λ v k. watch_roots-IsWf rs v.0 v.1 k)

      pub watch_subtree-IsWf :
          (watch : Watch) (sys : os.State) → IsWf watch → RunWf (watch_subtree os watch sys)
      unfolding watch_subtree
      watch_subtree-IsWf watch sys h =
          watch_roots-IsWf (take watch.rootpathc watch.rootpaths) watch sys h
