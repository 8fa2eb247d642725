-- ===== src/Tree/Subtree.antt =====
-- `remove_subtree`: it removes no entry of the watch, and blanks cells of the table of watches.
use mathlib.Core.Option.{some-injective}
use mathlib.Core.Bool.{true≢false}
use argusd.Cache.Arrays.{IsWf}
use argusd.Base.{
  length-take, get_elem?-lt, ℕ, zero, suc, ◌+◌, ◌≤◌, ◌<◌, ◌≡◌, refl, sym, ap, ◌∙◌, ◌⊎◌, inl, inr, ℤ,
  subst, ◌≢◌, int_eq_iff, Bool, pos, eof, int_eq, true, false, Bool-cases, some, List, [], ◌∷◌,
  Text, length, get_elem?, take, arith, if◌then◌else◌,
}
use argusd.Watch.{Watch}
use argusd.Os.{Os, Allocates}
use argusd.Table.{World, blank_watch}
use argusd.Table.Slots.{IsTable, mark_cache_slot_empty_lem, Marked}
use argusd.Tree.{is_below, remove_entries, remove_subtree}

-- How many of the paths are the directory or below it.
unfoldable pub count_below : Text → List Text → ℕ
count_below path [] = 0
count_below path (q ∷ paths) =
    if is_below path q then suc (count_below path paths) else count_below path paths

-- The calls of `inotify_rm_watch` for the entries that match, one after the other, from the first
-- state to the last: up to the first that fails (`true`), or all of them (`false`). After each that
-- succeeds a blank watch is allocated.
pub data Removes (os : Os) (fd : ℤ) (path : Text)
    : List ℤ → List Text → os.State → Bool → os.State → Type 0 where
  all_removed : {s : os.State} → Removes os fd path [] [] s false s
  elsewhere :
      {wd : ℤ} {wds : List ℤ} {q : Text} {paths : List Text} {s s' : os.State} {failed : Bool}
      → is_below path q ≡ false
      → Removes os fd path wds paths s failed s'
      → Removes os fd path (wd ∷ wds) (q ∷ paths) s failed s'
  refused :
      {wd : ℤ} {wds : List ℤ} {q : Text} {paths : List Text} {s : os.State}
      → is_below path q ≡ true
      → (os.inotify_rm_watch s fd wd).0 ≡ eof
      → Removes os fd path (wd ∷ wds) (q ∷ paths) s true (os.inotify_rm_watch s fd wd).1
  removed :
      {wd : ℤ} {wds : List ℤ} {q : Text} {paths : List Text} {s s' : os.State} {failed : Bool}
      → is_below path q ≡ true
      → (os.inotify_rm_watch s fd wd).0 ≢ eof
      → Removes os fd path wds paths (os.allocate (os.inotify_rm_watch s fd wd).1).1 failed s'
      → Removes os fd path (wd ∷ wds) (q ∷ paths) s failed s'

module _ (os : Os) (alloc : Allocates os) where
  -- Each path at or below `path` has the cell of its index, counted from `from`, blanked.
  abbrev pub AllBlank : World os → ℕ → Text → List Text → Type 0
  AllBlank w from path paths =
      (k : ℕ) (q : Text)
      → get_elem? paths k ≡ some q
      → is_below path q ≡ true
      → (p : ℕ) × (get_elem? w.wlcache (from + k) ≡ some (some p))
        × (get_elem? w.heap p ≡ some blank_watch)

  -- What the loop does to the world: no watch that was there changes, and the table stays valid
  -- and of the same length, with the cells below `from` as they were. Either a removal fails, and the
  -- result is -1, or none does, and all that match are counted and their cells blanked.
  pub record Blanks (w : World os) (from cnt : ℕ) (fd : ℤ) (path : Text) (wds : List ℤ)
      (paths : List Text) (r : ℤ) (w' : World os) : Type 0 where
    pub watches : (p : ℕ) → p < length w.heap → get_elem? w'.heap p ≡ get_elem? w.heap p
    pub grown : length w.heap ≤ length w'.heap
    pub table : IsTable w'
    pub size : length w'.wlcache ≡ length w.wlcache
    pub before : (j : ℕ) → j < from → get_elem? w'.wlcache j ≡ get_elem? w.wlcache j
    pub result :
        (Removes os fd path wds paths w.sys true w'.sys × (r ≡ eof))
        ⊎ (Removes os fd path wds paths w.sys false w'.sys
            × (r ≡ pos (cnt + count_below path paths))
            × AllBlank w' from path paths)

  Blanks-far :
      (w w' : World os) (i cnt : ℕ) (fd d : ℤ) (path q : Text) (wds : List ℤ) (paths : List Text)
      (r : ℤ)
      → is_below path q ≡ false
      → Blanks w (suc i) cnt fd path wds paths r w'
      → Blanks w i cnt fd path (d ∷ wds) (q ∷ paths) r w'
  unfolding count_below
  Blanks-far w w' i cnt fd d path q wds paths r far b = record {
    watches = b.watches;
    grown = b.grown;
    table = b.table;
    size = b.size;
    before = λ j h. b.before j (omega arith);
    result = elim b.result [
      | inl (t, e) ↦ inl (elsewhere far t, e)
      | inr (t, e, all) ↦ inr (elsewhere far t, rw far e, blank all)
    ];
  }
    where
      blank : AllBlank w' (suc i) path paths → AllBlank w' i path (q ∷ paths)
      blank all zero s f g =
          let same : false ≡ true = sym far ∙ ap (is_below path) (some-injective _ _ f) ∙ g in cc
      blank all (suc k) s f g =
          let (p, c, e) = all k s f g in (p, ap (get_elem? w'.wlcache) (omega arith) ∙ c, e)

  Blanks-near :
      (w w₂ w' : World os) (i cnt : ℕ) (fd d : ℤ) (path q : Text) (wds : List ℤ) (paths : List Text)
      (r : ℤ)
      → is_below path q ≡ true
      → (os.inotify_rm_watch w.sys fd d).0 ≢ eof
      → Marked os alloc (record w { sys = (os.inotify_rm_watch w.sys fd d).1 }) i w₂
      → Blanks w₂ (suc i) (cnt + 1) fd path wds paths r w'
      → Blanks w i cnt fd path (d ∷ wds) (q ∷ paths) r w'
  unfolding count_below
  Blanks-near w w₂ w' i cnt fd d path q wds paths r near done m b = record {
    watches = λ p h. b.watches p (omega (arith, m.grown)) ∙ m.other_watches p h;
    grown = omega (arith, m.grown, b.grown);
    table = b.table;
    size = b.size ∙ m.size;
    before = λ j h. b.before j (omega arith) ∙ m.other_cells j (omega arith);
    result = elim b.result [
      | inl (t, e) ↦ inl (removed near done (next true t), e)
      | inr (t, e, all) ↦
          inr (removed near done (next false t), rw near (e ∙ ap pos (omega arith)), blank all)
    ];
  }
    where
      next :
          (failed : Bool)
          → Removes os fd path wds paths w₂.sys failed w'.sys
          → Removes os fd path wds paths
              (os.allocate (os.inotify_rm_watch w.sys fd d).1).1
              failed
              w'.sys
      next failed t = subst (λ s. Removes os fd path wds paths s failed w'.sys) m.same_sys t

      blank : AllBlank w' (suc i) path paths → AllBlank w' i path (q ∷ paths)
      blank all zero s f g = (
        length w.heap,
        ap (get_elem? w'.wlcache) (omega arith) ∙ b.before i (omega arith) ∙ m.cell,
        b.watches (length w.heap) (omega (arith, m.grown)) ∙ m.blank,
      )
      blank all (suc k) s f g =
          let (p, c, e) = all k s f g in (p, ap (get_elem? w'.wlcache) (omega arith) ∙ c, e)

  remove_entries_lem :
      (fd : ℤ) (path : Text) (wds : List ℤ) (paths : List Text) (i cnt : ℕ) (w : World os)
      → IsTable w
      → length wds ≡ length paths
      → i + length paths ≤ length w.wlcache
      → (r : ℤ) × (w' : World os) × (remove_entries os fd path wds paths i cnt w ≡ some (r, w'))
        × Blanks w i cnt fd path wds paths r w'
  unfolding remove_entries count_below
  remove_entries_lem fd path [] [] i cnt w t e l = (
    pos cnt,
    w,
    refl,
    record {
      watches = λ p h. refl;
      grown = omega arith;
      table = t;
      size = refl;
      before = λ j h. refl;
      result = inr (all_removed, ap pos (omega arith), λ k q f b. cc);
    },
  )
  remove_entries_lem fd path [] (q ∷ paths) i cnt w t e l = absurd (omega arith)
  remove_entries_lem fd path (d ∷ wds) [] i cnt w t e l = absurd (omega arith)
  remove_entries_lem fd path (d ∷ wds) (q ∷ paths) i cnt w t e l =
      elim (Bool-cases (is_below path q)) [
        | inr far ↦
            let (r, w', f, b) =
              remove_entries_lem fd path wds paths (suc i) cnt w t (omega arith) (omega arith) in
            (r, w', rw far f, Blanks-far w w' i cnt fd d path q wds paths r far b)
        | inl near ↦
            let (failed, sys) = os.inotify_rm_watch w.sys fd d in
            let w₁ : World os = record w { sys = sys } in
            let t₁ : IsTable w₁ = record { counted = t.counted; valid = t.valid } in
            elim (Bool-cases (int_eq failed eof)) [
              | inl bad ↦ (
                eof,
                w₁,
                rw (near, bad),
                record {
                  watches = λ p h. refl;
                  grown = omega arith;
                  table = t₁;
                  size = refl;
                  before = λ j h. refl;
                  result = inl (refused near ((int_eq_iff failed eof).0 bad), refl);
                },
              )
              | inr good ↦
                  let (w₂, m) = mark_cache_slot_empty_lem os alloc w₁ i t₁ (omega arith) in
                  let (r, w', f, b) =
                    remove_entries_lem fd path wds paths (suc i) (cnt + 1) w₂ m.table (omega arith)
                      (omega (arith, m.size)) in
                  (
                    r,
                    w',
                    rw (near, good, m.done) f,
                    Blanks-near w w₂ w' i cnt fd d path q wds paths r near
                        (λ e. true≢false (sym ((int_eq_iff failed eof).1 e) ∙ good)) m b,
                  )
            ]
      ]

  -- With memory, on a watch whose arrays hold `pathc` items, and as long as the valid table has a
  -- cell for each of these: `remove_subtree` takes the descriptors of the cached paths at or below
  -- `path` from inotify, in their order. It returns -1 at the first that inotify refuses to remove,
  -- and otherwise their number, and then the cells of `wlcache` at their indices are blanked. It
  -- changes no watch, so the cache keeps the entries that were removed.
  pub remove_subtree_lem :
      (w : World os) (p : ℕ) (watch : Watch) (path : Text)
      → IsTable w
      → get_elem? w.heap p ≡ some watch
      → IsWf watch
      → watch.pathc ≤ length w.wlcache
      → (r : ℤ) × (w' : World os) × (remove_subtree os w p path ≡ some (r, w'))
        × Blanks w 0 0 watch.fd path (take watch.pathc watch.wd) (take watch.pathc watch.paths) r w'
        × (get_elem? w'.heap p ≡ some watch)
  unfolding remove_subtree
  remove_subtree_lem w p watch path t e h l =
      let a = length-take watch.pathc watch.wd in
      let b = length-take watch.pathc watch.paths in
      let (r, w', f, g) =
        remove_entries_lem watch.fd path (take watch.pathc watch.wd) (take watch.pathc watch.paths)
          0 0 w t (omega (arith, a, b, h.wd_allocated, h.paths_allocated)) (omega (arith, b)) in
      (r, w', rw e f, g, g.watches p (get_elem?-lt w.heap p e) ∙ e)
