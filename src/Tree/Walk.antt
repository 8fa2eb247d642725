-- ===== src/Tree/Walk.antt =====
-- `watch_path` and `watch_subtree`: what they add to the cache, and when they are safe.
use mathlib.Core.Bool.{true≢false}
use argusd.Base.{
  ℕ, zero, suc, ◌+◌, ◌≤◌, ◌≡◌, ◌≢◌, refl, sym, ap, ◌∙◌, inl, inr, ℤ, pos, eof, int_eq, Bool, true,
  false, not, Bool-cases, Option, Option-cases, none, some, List, [], ◌∷◌, ◌++◌, Text, length,
  length-append, length-take, take, take-length, int_eq_iff, bit_or, arith, if◌then◌else◌, ◌==◌,
  str_eq, ap₂,
}
use argusd.Watch.{Watch, Stat, has, aw_only_dir}
use argusd.Os.{Os, Allocates}
use argusd.Cache.Arrays.{zip, entries, IsWf}
use argusd.Tree.Roots.{roots}
use argusd.Tree.{in_roots, should_ignore_path, watch_flags, append_entry, watch_path, enoent}

-- No root in the list was removed.
abbrev pub NoNull : List (Option Text) → Type 0
NoNull [] = Unit {0}
NoNull (none ∷ rs) = ⊥
NoNull (some root ∷ rs) = NoNull rs

in_roots-total :
    (rs : List (Option Text)) (path : Text) → NoNull rs → (b : Bool) × (in_roots rs path ≡ some b)
unfolding in_roots
in_roots-total [] path h = (false, refl)
in_roots-total (none ∷ rs) path h = absurd h
in_roots-total (some r ∷ rs) path h = elim (Bool-cases (str_eq path r)) [
  | inl e ↦ (true, rw e)
  | inr e ↦ rw e (in_roots-total rs path h)
]

module _ (lstat : Text → Option Stat) (watch : Watch) (path : Text) where
  pub should_ignore_path-total :
      NoNull (roots watch) → (b : Bool) × (should_ignore_path lstat watch path ≡ some b)
  unfolding should_ignore_path
  should_ignore_path-total h =
      let (b, e) = in_roots-total (roots watch) path h in
      elim (Option-cases (lstat path)) [
        | inl none_there ↦ (true, rw (none_there, should_ignore_path))
        | inr (sb, found) ↦ elim (Bool-cases sb.is_dir) [
          | inl dir ↦ (false, rw (found, should_ignore_path, dir))
          | inr file ↦ elim (Bool-cases (has watch.flags aw_only_dir)) [
            | inl only ↦ (true, rw (found, should_ignore_path, file, only))
            | inr all ↦ (not b, rw (found, should_ignore_path, file, all, e))
          ]
        ]
      ]

take-append_item {ℓ} :
    {A : Type ℓ} (n : ℕ) (xs : List A) (x : A)
    → n ≤ length xs
    → take (n + 1) (take n xs ++ (x ∷ [])) ≡ take n xs ++ (x ∷ [])
take-append_item n xs x h =
    let ys = take n xs ++ (x ∷ []) in
    ap (λ k. take k ys) (omega (arith, length-append (take n xs) (x ∷ []), length-take n xs))
    ∙ take-length ys

zip-append_item {ℓ κ} :
    {A : Type ℓ} {B : Type κ} (n : ℕ) (xs : List A) (ys : List B) (x : A) (y : B)
    → n ≤ length xs
    → n ≤ length ys
    → zip (take n xs ++ (x ∷ [])) (take n ys ++ (y ∷ []))
      ≡ zip (take n xs) (take n ys) ++ ((x, y) ∷ [])
zip-append_item zero xs ys x y h k = refl
zip-append_item (suc n) [] ys x y h k = elim h [ ]
zip-append_item (suc n) (a ∷ xs) [] x y h k = elim k [ ]
zip-append_item (suc n) (a ∷ xs) (b ∷ ys) x y h k =
    ap (λ r. (a, b) ∷ r) (zip-append_item n xs ys x y (omega arith) (omega arith))

-- No descriptor is -1.
abbrev pub AllReal : List (ℤ × Text) → Type 0
AllReal [] = Unit {0}
AllReal ((wd, path) ∷ es) = (wd ≢ eof) × AllReal es

-- What the walk may do to a watch: it appends entries that inotify gave a descriptor for, and
-- changes nothing else.
module _ (os : Os) where
  pub record Appends (watch : Watch) (es : List (ℤ × Text)) (watch' : Watch) : Type 0 where
    pub wf : IsWf watch'
    pub rest : record watch' { wd = watch.wd; paths = watch.paths; pathc = watch.pathc } ≡ watch
    pub added : entries watch' ≡ entries watch ++ es
    pub real : AllReal es

  -- `watch_path` on a watch that is in order, with memory: the path is ignored; or inotify refuses
  -- it, which gives 0 for ENOENT and -1 otherwise; or it becomes the last entry.
  pub data Watched (watch : Watch) (path : Text) (sys : os.State) : Type 0 where
    ignored :
        should_ignore_path (os.lstat sys) watch path ≡ some true
        → watch_path os watch path sys ≡ some (pos 0, watch, sys)
        → Watched watch path sys
    refused :
        (sys' : os.State)
        → should_ignore_path (os.lstat sys) watch path ≡ some false
        → os.inotify_add_watch sys watch.fd path (bit_or watch.event_mask (watch_flags watch path))
          ≡ (eof, sys')
        → watch_path os watch path sys
          ≡ some (if os.errno sys' == enoent then pos 0 else eof, watch, sys')
        → Watched watch path sys
    added :
        (wd : ℤ) (watch' : Watch) (sys' : os.State)
        → should_ignore_path (os.lstat sys) watch path ≡ some false
        → (os.inotify_add_watch sys watch.fd path
            (bit_or watch.event_mask (watch_flags watch path))).0
          ≡ wd
        → wd ≢ eof
        → watch_path os watch path sys ≡ some (pos 0, watch', sys')
        → Appends watch ((wd, path) ∷ []) watch'
        → Watched watch path sys

  module _ (alloc : Allocates os) where
    -- The watch with one more entry.
    abbrev pub with_entry : Watch → ℤ → Text → Watch
    with_entry watch wd path = record watch {
      wd = take watch.pathc watch.wd ++ (wd ∷ []);
      paths = take watch.pathc watch.paths ++ (path ∷ []);
      pathc = watch.pathc + 1;
    }

    pub append_entry_lem :
        (watch : Watch) (wd : ℤ) (path : Text) (sys : os.State)
        → (sys' : os.State) × (append_entry os watch wd path sys
            ≡ (pos 0, with_entry watch wd path, sys'))
    unfolding append_entry
    append_entry_lem watch wd path sys = (
      (os.allocate (os.allocate sys).1).1,
      rw (alloc sys, append_entry, alloc (os.allocate sys).1),
    )

    pub with_entry-Appends :
        (watch : Watch) (wd : ℤ) (path : Text)
        → IsWf watch
        → wd ≢ eof
        → Appends watch ((wd, path) ∷ []) (with_entry watch wd path)
    with_entry-Appends watch wd path h ne = record {
      wf = record {
        wd_allocated = omega (
          arith,
          length-append (take watch.pathc watch.wd) (wd ∷ []),
          length-take watch.pathc watch.wd,
          h.wd_allocated,
        );
        paths_allocated = omega (
          arith,
          length-append (take watch.pathc watch.paths) (path ∷ []),
          length-take watch.pathc watch.paths,
          h.paths_allocated,
        );
      };
      rest = refl;
      added =
          ap₂ zip (take-append_item watch.pathc watch.wd wd h.wd_allocated)
            (take-append_item watch.pathc watch.paths path h.paths_allocated)
          ∙ zip-append_item watch.pathc watch.wd watch.paths wd path h.wd_allocated
              h.paths_allocated;
      real = (ne, tt);
    }

    -- With memory, on a watch whose arrays hold `pathc` items and whose roots have no NULL,
    -- `watch_path` faults on no system: the path is ignored; or inotify refuses it, which gives 0
    -- for ENOENT and -1 otherwise; or it becomes the last entry, with a descriptor that is not -1.
    pub watch_path_cases :
        (watch : Watch) (path : Text) (sys : os.State)
        → IsWf watch
        → NoNull (roots watch)
        → Watched watch path sys
    unfolding watch_path
    watch_path_cases watch path sys h n =
        let (b, e) = should_ignore_path-total (os.lstat sys) watch path n in
        elim (Bool-cases b) [
          | inl yes_ ↦ ignored (e ∙ ap some yes_) (rw (e ∙ ap some yes_))
          | inr no_ ↦
              let mask = bit_or watch.event_mask (watch_flags watch path) in
              let (wd, sys') = os.inotify_add_watch sys watch.fd path mask in
              let go = e ∙ ap some no_ in
              elim (Bool-cases (int_eq wd eof)) [
                | inl bad ↦
                    refused sys' go (λ i. ((int_eq_iff wd eof).0 bad i, sys')) (rw (go, bad))
                | inr good ↦
                    let (sys'', a) = append_entry_lem watch wd path sys' in
                    let ne : wd ≢ eof =
                      λ same. true≢false (sym ((int_eq_iff wd eof).1 same) ∙ good) in
                    added wd (with_entry watch wd path) sys'' go refl ne (rw (go, good, a))
                      (with_entry-Appends watch wd path h ne)
              ]
        ]
