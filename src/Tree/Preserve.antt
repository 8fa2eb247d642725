-- ===== src/Tree/Preserve.antt =====
-- What each call of `watch_path` keeps, the walk of lib/argustree.c keeps.
use mathlib.Core.Option.{some-injective}
use argusd.Base.{
  ◌∙◌, ◌≡◌, refl, sym, subst, inl, inr, ℕ, ℤ, not, Bool-cases, ◌&&◌, Option, none, some, List, [],
  ◌∷◌, Text, take, drop,
}
use argusd.Watch.{Watch, Stat, has, aw_only_dir, aw_recursive}
use argusd.Os.{Os, WalksByCalls}
use argusd.Tree.Roots.{roots}
use argusd.Tree.Walk.{NoNull}
use argusd.Tree.{
  Run, is_ignored, too_deep, watch_path, traverse_tree, watch_path_recursive, watch_root,
  watch_roots, watch_subtree,
}

-- The run has not faulted, and the property holds.
pub record Reaches (os : Os) (P : Watch → os.State → Type 0) (run : Run os) : Type 0 where
  pub watch : Watch
  pub sys : os.State
  pub returned : run ≡ some (watch, sys)
  pub holds : P watch sys

-- `watch_path` returns and keeps the property.
abbrev pub PathKeeps : (os : Os) → (Watch → os.State → Type 0) → Type 0
PathKeeps os P =
    (watch : Watch) (path : Text) (sys : os.State)
    → P watch sys
    → (r : ℤ) × (w : Watch) × (s : os.State) × (watch_path os watch path sys ≡ some (r, w, s))
      × P w s

module _ (os : Os) (P : Watch → os.State → Type 0) (keeps : PathKeeps os P) where
  stays : (watch : Watch) (sys : os.State) → P watch sys → Reaches os P (some (watch, sys))
  stays watch sys h = record { watch = watch; sys = sys; returned = refl; holds = h }

  traverse_tree-some :
      (watch : Watch) (sys : os.State) (path : Text) (sb : Stat) (base level : ℕ)
      → P watch sys
      → Reaches os P (traverse_tree os path sb base level (some (watch, sys))).1
  unfolding traverse_tree
  traverse_tree-some watch sys path sb base level h =
      elim (Bool-cases (has watch.flags aw_only_dir && not sb.is_dir)) [
        | inl file ↦ rw (file, traverse_tree) (stays watch sys h)
        | inr a ↦
            elim (Bool-cases (is_ignored (take watch.ignorec watch.ignores) (drop base path))) [
              | inl skip ↦ rw (a, skip, traverse_tree) (stays watch sys h)
              | inr b ↦ elim (Bool-cases (too_deep watch.max_depth level)) [
                | inl deep ↦ rw (a, b, deep, traverse_tree) (stays watch sys h)
                | inr c ↦
                    let (r, w, s, e, g) = keeps watch path sys h in
                    rw (a, b, c, e, traverse_tree) (stays w s g)
              ]
            ]
      ]

  traverse_tree-Reaches :
      (path : Text) (sb : Stat) (base level : ℕ) (run : Run os)
      → Reaches os P run
      → Reaches os P (traverse_tree os path sb base level run).1
  traverse_tree-Reaches path sb base level run g =
      subst (λ r. Reaches os P (traverse_tree os path sb base level r).1) (sym g.returned)
        (traverse_tree-some g.watch g.sys path sb base level g.holds)

  module _ (walks : WalksByCalls os) where
    watch_root-Reaches :
        (watch : Watch) (root : Text) (sys : os.State)
        → P watch sys
        → Reaches os P (watch_root os watch root sys)
    unfolding watch_root watch_path_recursive
    watch_root-Reaches watch root sys h = elim (Bool-cases (has watch.flags aw_recursive)) [
      | inl deep ↦ rw deep (
          walks (Run os) (Reaches os P) sys (traverse_tree os) root (some (watch, sys))
            (λ p sb base level b g. traverse_tree-Reaches p sb base level b g) (stays watch sys h))
      | inr flat ↦ let (r, w, s, e, g) = keeps watch root sys h in rw (flat, e) (stays w s g)
    ]

    watch_roots-Reaches :
        (rs : List (Option Text)) (watch : Watch) (sys : os.State)
        → NoNull rs
        → P watch sys
        → Reaches os P (watch_roots os rs watch sys)
    unfolding watch_roots
    watch_roots-Reaches [] watch sys k h = stays watch sys h
    watch_roots-Reaches (none ∷ rs) watch sys k h = absurd k
    watch_roots-Reaches (some r ∷ rs) watch sys k h =
        let g = watch_root-Reaches watch r sys h in
        rw g.returned (watch_roots-Reaches rs g.watch g.sys k g.holds)

    -- If no root is NULL, `watch_subtree` returns, and the property still holds.
    pub watch_subtree-Reaches :
        (watch : Watch) (sys : os.State)
        → NoNull (roots watch)
        → P watch sys
        → Reaches os P (watch_subtree os watch sys)
    unfolding watch_subtree
    watch_subtree-Reaches watch sys n h = watch_roots-Reaches (roots watch) watch sys n h

-- What `watch_path` keeps of each, it keeps of both.
pub PathKeeps-both :
    (os : Os) (P Q : Watch → os.State → Type 0)
    → PathKeeps os P
    → PathKeeps os Q
    → PathKeeps os (λ watch sys. P watch sys × Q watch sys)
PathKeeps-both os P Q f g watch path sys (h, k) =
    let (r, w, s, e, h') = f watch path sys h in
    let (r₂, w₂, s₂, e₂, k') = g watch path sys k in
    let same = some-injective (r₂, w₂, s₂) (r, w, s) (sym e₂ ∙ e) in
    (r, w, s, e, (h', subst (λ (x : ℤ × Watch × os.State). Q x.1 x.2) same k'))
