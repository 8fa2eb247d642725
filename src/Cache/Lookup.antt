-- ===== src/Cache/Lookup.antt =====
-- What the searches of lib/arguscache.c find: the first entry that fits, or that there is none.
use mathlib.Core.Bool.{true≢false}
use argusd.Base.{
  ℕ, ◌<◌, ◌≡◌, ◌≢◌, int_eq_ne, str_eq_refl, ◌∙◌, ap, ◌⊎◌, inl, inr, ℤ, pos, eof, int_eq, int_eq_iff,
  Bool-cases, some, List, [], Text, str_eq, str_eq_iff, get_elem?, get_elem?-total, sym, take,
  arith,
}
use argusd.Watch.{Watch}
use argusd.Cache.Arrays.{IsWf}
use argusd.Cache.{
  first_index, find_watch, find_watch_checked, path_name_to_cache_slot, wd_to_path_name,
}
use argusd.Cache.Scan.{
  take_found, found_take, Absent, IsFirst, first_index_cases, is_wd, path_of_wd-Absent,
  path_of_wd_first,
}

module _ (watch : Watch) (wd : ℤ) where
  abbrev pub wds : List ℤ
  wds = take watch.pathc watch.wd

  -- The slot that `find_watch` gives: the first entry with the descriptor, whose path
  -- `wd_to_path_name` gives.
  pub record HasSlot (i : ℕ) : Type 0 where
    pub active : watch.slot ≢ eof
    pub slot : find_watch watch wd ≡ pos i
    pub in_use : i < watch.pathc
    pub first : IsFirst (is_wd wd) wds i
    pub named : get_elem? watch.paths i ≡ some (wd_to_path_name watch wd)

  find_watch_active : watch.slot ≢ eof → find_watch watch wd ≡ first_index (is_wd wd) wds 0
  unfolding find_watch
  find_watch_active active = rw (int_eq_ne watch.slot eof active)

  find_watch_inactive : watch.slot ≡ eof → find_watch watch wd ≡ eof
  unfolding find_watch
  find_watch_inactive e = rw ((int_eq_iff watch.slot eof).1 e)

  find_watch_checked_pos :
      (i : ℕ) → find_watch watch wd ≡ pos i → find_watch_checked watch wd ≡ find_watch watch wd
  unfolding find_watch_checked
  find_watch_checked_pos i e = rw (e, find_watch_checked)

  find_watch_checked-eof :
      find_watch watch wd ≡ eof → find_watch_checked watch wd ≡ find_watch watch wd
  unfolding find_watch_checked
  find_watch_checked-eof e = rw (e, find_watch_checked)

  find_watch-HasSlot :
      (i : ℕ)
      → IsWf watch
      → watch.slot ≢ eof
      → first_index (is_wd wd) wds 0 ≡ pos i
      → IsFirst (is_wd wd) wds i
      → HasSlot i
  unfolding wd_to_path_name
  find_watch-HasSlot i h active e f =
      let at = take_found watch.pathc i watch.wd f.item f.found in
      let (p, q) = get_elem?-total watch.paths i (omega (arith, at.0, h.paths_allocated)) in
      record {
        active = active;
        slot = find_watch_active active ∙ e;
        in_use = at.0;
        first = f;
        named =
            q
            ∙ ap some (
                sym (
                  path_of_wd_first wd wds (take watch.pathc watch.paths) i p f
                    (found_take watch.pathc i watch.paths at.0 ∙ q)));
      }

  wd_to_path_name-Absent : Absent (is_wd wd) wds → wd_to_path_name watch wd ≡ []
  unfolding wd_to_path_name
  wd_to_path_name-Absent h = path_of_wd-Absent wd wds (take watch.pathc watch.paths) h

  pub data Finds : Type 0 where
    at_slot : (i : ℕ) → HasSlot i → Finds
    inactive : watch.slot ≡ eof → find_watch watch wd ≡ eof → Finds
    absent :
        watch.slot ≢ eof
        → find_watch watch wd ≡ eof
        → Absent (is_wd wd) wds
        → wd_to_path_name watch wd ≡ []
        → Finds

  -- On a watch whose arrays hold `pathc` items, `find_watch` gives the first entry with the
  -- descriptor, and `wd_to_path_name` the path of that entry; or -1 on a watch with no slot; or -1
  -- if no entry in use has the descriptor, and then the path is blank. `find_watch_checked` agrees.
  pub find_watch_cases : IsWf watch → (find_watch_checked watch wd ≡ find_watch watch wd) × Finds
  find_watch_cases h = elim (Bool-cases (int_eq watch.slot eof)) [
    | inl idle ↦
        let e = find_watch_inactive ((int_eq_iff watch.slot eof).0 idle) in
        (find_watch_checked-eof e, inactive ((int_eq_iff watch.slot eof).0 idle) e)
    | inr busy ↦
        let active : watch.slot ≢ eof =
          λ e. absurd (true≢false (sym ((int_eq_iff watch.slot eof).1 e) ∙ busy)) in
        elim (first_index_cases (is_wd wd) wds 0) [
          | inl (i, e, f) ↦
              let s = find_watch-HasSlot i h active (e ∙ ap pos (omega arith)) f in
              (find_watch_checked_pos i s.slot, at_slot i s)
          | inr (e, none_there) ↦
              let e' = find_watch_active active ∙ e in
              (
                find_watch_checked-eof e',
                absent active e' none_there (wd_to_path_name-Absent none_there),
              )
        ]
  ]

-- A descriptor that no entry in use has is not found.
pub find_watch_checked-absent :
    (watch : Watch) (wd : ℤ)
    → ((j : ℕ) → j < watch.pathc → get_elem? watch.wd j ≢ some wd)
    → find_watch_checked watch wd ≡ eof
find_watch_checked-absent watch wd fresh = elim (Bool-cases (int_eq watch.slot eof)) [
  | inl idle ↦
      let e = find_watch_inactive watch wd ((int_eq_iff watch.slot eof).0 idle) in
      find_watch_checked-eof watch wd e ∙ e
  | inr busy ↦
      let active : watch.slot ≢ eof =
        λ e. true≢false (sym ((int_eq_iff watch.slot eof).1 e) ∙ busy) in
      elim (first_index_cases (is_wd wd) (wds watch wd) 0) [
        | inl (i, e, f) ↦
            let at = take_found watch.pathc i watch.wd f.item f.found in
            absurd (fresh i at.0 (at.1 ∙ ap some ((int_eq_iff f.item wd).0 f.passes)))
        | inr (e, missing) ↦
            let e' = find_watch_active watch wd active ∙ e in
            find_watch_checked-eof watch wd e' ∙ e'
      ]
]

-- `path_name_to_cache_slot` gives the first entry in use with that path; it gives -1 if no entry
-- in use has the path, or the watch has no slot.
pub path_name_to_cache_slot_cases :
    (watch : Watch) (path : Text)
    → ((i : ℕ) × (path_name_to_cache_slot watch path ≡ pos i)
        × (i < watch.pathc)
        × (get_elem? watch.paths i ≡ some path)
        × ((j : ℕ) → j < i → get_elem? watch.paths j ≢ some path))
      ⊎ ((path_name_to_cache_slot watch path ≡ eof)
          × ((watch.slot ≡ eof)
              ⊎ ((j : ℕ) → j < watch.pathc → get_elem? watch.paths j ≢ some path)))
unfolding path_name_to_cache_slot
path_name_to_cache_slot_cases watch path = elim (Bool-cases (int_eq watch.slot eof)) [
  | inl idle ↦ inr (rw idle, inl ((int_eq_iff watch.slot eof).0 idle))
  | inr busy ↦ elim (first_index_cases (λ p. str_eq p path) (take watch.pathc watch.paths) 0) [
    | inl (i, e, f) ↦
        let at = take_found watch.pathc i watch.paths f.item f.found in
        inl (
          i,
          rw (busy, e) (ap pos (omega arith)),
          at.0,
          at.1 ∙ ap some ((str_eq_iff f.item path).0 f.passes),
          λ j l same. true≢false (
              sym (str_eq_refl path)
              ∙ f.earlier j path l
                  (found_take watch.pathc j watch.paths (omega (arith, l, at.0)) ∙ same)),
        )
    | inr (e, missing) ↦ inr (
      rw (busy, e),
      inr λ j l same.
          true≢false (
            sym (str_eq_refl path)
            ∙ missing j path (found_take watch.pathc j watch.paths l ∙ same)),
    )
  ]
]
