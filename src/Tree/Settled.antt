-- ===== src/Tree/Settled.antt =====
-- The walk of lib/argustree.c and the check of lib/arguscache.c, while no file changes.
use mathlib.Core.Bool.{true≢false}
use argusd.Base.{
  ℕ, ◌≡◌, refl, sym, ap, subst, ◌∙◌, inl, inr, ℤ, pos, Bool, true, false, not, ◌&&◌, Bool-cases,
  Option, Option-cases, none, some, List, [], ◌∷◌, ◌++◌, Text, select, arith,
}
use argusd.Watch.{Watch, Stat, has, aw_only_dir}
use argusd.Os.{Os, Allocates}
use argusd.Cache.{is_consistent, check_cache_consistency}
use argusd.Cache.Arrays.{entries, IsWf}
use argusd.Cache.Consistency.{keeps, entries-check_cache_consistency}
use argusd.Tree.{should_ignore_path}
use argusd.Tree.Roots.{roots}
use argusd.Tree.Walk.{NoNull, ignored, refused, added, watch_path_cases}
use argusd.Tree.Totality.{roots-Appends}
use argusd.Tree.Preserve.{PathKeeps}
use argusd.Tree.Kernel.{Kernel, Still, append_entry_done}
use argusd.Table.System.{OnSome, OnSome-bind, OnSome-any}
use argusd.Tree.{watch_flags, watch_path}
use argusd.Base.{int_eq, bit_or, eof}

module _ (tree : Text → Option Stat) (watch : Watch) where
  should_ignore_path-gone :
      (path : Text) → tree path ≡ none → should_ignore_path tree watch path ≡ some true
  unfolding should_ignore_path
  should_ignore_path-gone path gone = rw (gone, should_ignore_path) refl

  should_ignore_path-file :
      (path : Text) (sb : Stat)
      → tree path ≡ some sb
      → (has watch.flags aw_only_dir && not sb.is_dir) ≡ true
      → should_ignore_path tree watch path ≡ some true
  unfolding should_ignore_path
  should_ignore_path-file path sb found file =
      let only : has watch.flags aw_only_dir ≡ true = ground (arith, file) in
      let not_dir : sb.is_dir ≡ false = ground (arith, file) in
      rw (found, should_ignore_path, not_dir, only) refl

  is_consistent-found :
      (c : ℕ) (path : Text) (sb : Stat)
      → tree (c ∷ path) ≡ some sb
      → (has watch.flags aw_only_dir && not sb.is_dir) ≡ false
      → is_consistent tree watch.flags (c ∷ path) ≡ true
  unfolding is_consistent
  is_consistent-found c path sb found right = rw (found, is_consistent, right) refl

  -- A path that `should_ignore_path` lets through passes the check of the cache.
  should_ignore_path-is_consistent :
      (path : Text)
      → should_ignore_path tree watch path ≡ some false
      → is_consistent tree watch.flags path ≡ true
  unfolding is_consistent
  should_ignore_path-is_consistent [] e = refl
  should_ignore_path-is_consistent (c ∷ path) e = elim (Option-cases (tree (c ∷ path))) [
    | inl gone ↦
        let c₁ = ap only_true (sym (should_ignore_path-gone (c ∷ path) gone) ∙ e) in
        absurd (true≢false c₁)
    | inr (sb, found) ↦ elim (Bool-cases (has watch.flags aw_only_dir && not sb.is_dir)) [
      | inr right ↦ is_consistent-found c path sb found right
      | inl file ↦
          let c₂ = ap only_true (sym (should_ignore_path-file (c ∷ path) sb found file) ∙ e) in
          absurd (true≢false c₂)
    ]
  ]
    where
      only_true : Option Bool → Bool
      only_true none = false
      only_true (some b) = b

-- Every entry passes the check.
abbrev pub AllKept : (Text → Option Stat) → ℕ → List (ℤ × Text) → Type 0
AllKept tree flags [] = Unit {0}
AllKept tree flags (e ∷ es) = (keeps tree flags e ≡ true) × AllKept tree flags es

AllKept-append :
    (tree : Text → Option Stat) (flags : ℕ) (xs ys : List (ℤ × Text))
    → AllKept tree flags xs
    → AllKept tree flags ys
    → AllKept tree flags (xs ++ ys)
AllKept-append tree flags [] ys h k = k
AllKept-append tree flags (x ∷ xs) ys h k = (h.0, AllKept-append tree flags xs ys h.1 k)

select-AllKept :
    (tree : Text → Option Stat) (flags : ℕ) (es : List (ℤ × Text))
    → AllKept tree flags es
    → select (keeps tree flags) es ≡ es
select-AllKept tree flags [] h = refl
select-AllKept tree flags (e ∷ es) h = rw h.0 (ap (λ r. e ∷ r) (select-AllKept tree flags es h.1))

-- The watch is in order, and every entry passes the check.
pub record Passes (tree : Text → Option Stat) (watch : Watch) : Type 0 where
  pub wf : IsWf watch
  pub no_null : NoNull (roots watch)
  pub kept : AllKept tree watch.flags (entries watch)

-- The check removes nothing.
pub check_cache_consistency-Passes :
    (tree : Text → Option Stat) (watch : Watch)
    → Passes tree watch
    → entries (check_cache_consistency tree watch) ≡ entries watch
check_cache_consistency-Passes tree watch h =
    entries-check_cache_consistency tree watch h.wf
    ∙ select-AllKept tree watch.flags (entries watch) h.kept

module _ (os : Os) (kernel : Kernel os) (still : Still os kernel) (alloc : Allocates os) where
  -- `watch_path` returns with what `lstat` gave before.
  watch_path-lstat :
      (watch : Watch) (path : Text) (sys : os.State)
      → OnSome (λ r. os.lstat r.2 ≡ os.lstat sys) (watch_path os watch path sys)
  unfolding watch_path
  watch_path-lstat watch path sys =
      let mask = bit_or watch.event_mask (watch_flags watch path) in
      let r = os.inotify_add_watch sys watch.fd path mask in
      let first = (still.add_still sys watch.fd path mask).same_lstat in
      OnSome-bind (λ ignored. Unit {0}) (λ r. os.lstat r.2 ≡ os.lstat sys)
        (should_ignore_path (os.lstat sys) watch path) _
        (OnSome-any (should_ignore_path (os.lstat sys) watch path))
        (λ ignored _. elim (Bool-cases ignored) [
          | inl yes_ ↦ rw yes_ refl
          | inr no_ ↦ elim (Bool-cases (int_eq r.0 eof)) [
            | inl bad ↦ rw (no_, bad) first
            | inr good ↦
                rw (no_, good, append_entry_done os kernel still alloc watch r.0 path r.1)
                  ((still.allocate_still (os.allocate r.1).1).same_lstat
                    ∙ (still.allocate_still r.1).same_lstat
                    ∙ first)
          ]
        ])

  -- What `watch_path` adds passes the check.
  pub watch_path-Passes : PathKeeps os (λ watch sys. Passes (os.lstat sys) watch)
  watch_path-Passes watch path sys h =
      let same =
        λ (r : ℤ) (v : Watch) (s : os.State) (e : watch_path os watch path sys ≡ some (r, v, s)).
          subst (OnSome (λ r. os.lstat r.2 ≡ os.lstat sys)) e (watch_path-lstat watch path sys) in
      let kept =
        λ (v : Watch) (s : os.State) (e : os.lstat s ≡ os.lstat sys) (k : Passes (os.lstat sys) v).
          subst (λ tree. Passes tree v) (sym e) k in
      elim (watch_path_cases os alloc watch path sys h.wf h.no_null) [
        | ignored i e ↦ (pos 0, watch, sys, e, h)
        | refused sys' i a e ↦ (_, watch, sys', e, kept watch sys' (same _ watch sys' e) h)
        | added wd watch' sys' i a ne e p ↦
            let same_flags = ap (λ (x : Watch). x.flags) p.rest in
            (
              pos 0,
              watch',
              sys',
              e,
              kept watch' sys' (same (pos 0) watch' sys' e) (record {
                wf = p.wf;
                no_null =
                    subst NoNull (sym (roots-Appends os watch watch' ((wd, path) ∷ []) p))
                      h.no_null;
                kept =
                    subst (λ flags. AllKept (os.lstat sys) flags (entries watch')) (sym same_flags)
                      (subst (AllKept (os.lstat sys) watch.flags) (sym p.added) (
                        AllKept-append (os.lstat sys) watch.flags (entries watch) ((wd, path) ∷ [])
                          h.kept
                          (should_ignore_path-is_consistent (os.lstat sys) watch path i, tt)));
              }),
            )
      ]
