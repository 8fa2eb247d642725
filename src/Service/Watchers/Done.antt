-- ===== src/Service/Watchers/Done.antt =====
-- `doneMap_`, which `CreateWatch` waits for: who sets it, over every order of the cleanup threads.
use mathlib.Core.Option.{some-injective}
use argusd.Base.{
  ℕ, zero, suc, ◌≡◌, ◌≢◌, refl, sym, ap, subst, ◌∙◌, inl, inr, ◌==◌, ℤ, int_eq, int_eq_refl, Bool,
  false, Bool-cases, Option, none, some, List, [], ◌∷◌, ◌++◌, length, get_elem?, arith,
  if◌then◌else◌,
}
use argusd.Os.{Os}
use argusd.Service.Subject.{Subject}
use argusd.Service.Watchers.{
  Config, Service, Cleanup, set_done, create_pids, create_subjects, create_inotify_watcher,
  finish_cleanup,
}

-- `doneMap_.find(pid)`
unfoldable pub find_done : ℤ → List (ℤ × Bool) → Option Bool
find_done pid [] = none
find_done pid ((p, done) ∷ rest) = if int_eq p pid then some done else find_done pid rest

find_done-set_done_self :
    (pid : ℤ) (done : Bool) (m : List (ℤ × Bool)) → find_done pid (set_done pid done m) ≡ some done
unfolding find_done set_done
find_done-set_done_self pid done [] = rw (int_eq_refl pid)
find_done-set_done_self pid done ((p, old) ∷ rest) = elim (Bool-cases (int_eq p pid)) [
  | inl same ↦ rw (same, find_done, same)
  | inr other ↦ rw (other, find_done, other) (find_done-set_done_self pid done rest)
]

find_done-set_done-false :
    (pid other : ℤ) (m : List (ℤ × Bool))
    → find_done pid m ≡ some false
    → find_done pid (set_done other false m) ≡ some false
unfolding find_done set_done
find_done-set_done-false pid other [] h = cc
find_done-set_done-false pid other ((p, old) ∷ rest) h =
    ground (arith, find_done-set_done-false pid other rest)

module _ (os : Os) where
  -- One of the cleanup threads finds that its watcher has ended.
  pub data Step (s : Service os) (s' : Service os) : Type 0 where
    finish :
        (i : ℕ) (t : Cleanup)
        → get_elem? s.cleanups i ≡ some t
        → s' ≡ finish_cleanup os t s
        → Step s s'

  pub data Reach (s : Service os) : Service os → Type 0 where
    here : Reach s s
    next : {u v : Service os} → Reach s u → Step u v → Reach s v

  -- No thread is the last of its watcher by its own count.
  abbrev Uncounted : List Cleanup → Type 0
  Uncounted [] = Unit {0}
  Uncounted (t ∷ ts) = (suc t.cnt ≢ t.subject_len) × Uncounted ts

  Uncounted-at :
      (ts : List Cleanup) (i : ℕ) (t : Cleanup)
      → Uncounted ts
      → get_elem? ts i ≡ some t
      → suc t.cnt ≢ t.subject_len
  Uncounted-at [] i t h e = cc
  Uncounted-at (x ∷ ts) zero t h e =
      let same = some-injective x t e in
      λ n.
        h.0 (
          ap (λ (c : Cleanup). suc c.cnt) same ∙ n ∙ ap (λ (c : Cleanup). c.subject_len) (sym same))
  Uncounted-at (x ∷ ts) (suc i) t h e = Uncounted-at ts i t h.1 e

  finish_cleanup-same :
      (t : Cleanup) (s : Service os) → suc t.cnt ≢ t.subject_len → finish_cleanup os t s ≡ s
  unfolding finish_cleanup
  finish_cleanup-same t s ne = elim (Bool-cases (suc t.cnt == t.subject_len)) [
    | inl e ↦ absurd (ne (ground (arith, e)))
    | inr e ↦ rw e
  ]

  Reach-same : {s v : Service os} → Uncounted s.cleanups → Reach s v → v ≡ s
  Reach-same h here = refl
  Reach-same {s} {v} h (next {u} r (finish i t at e)) =
      let same = Reach-same h r in
      let count =
        Uncounted-at s.cleanups i t h
          (ap (λ (y : Service os). get_elem? y.cleanups i) (sym same) ∙ at) in
      e ∙ finish_cleanup-same t u count ∙ same

  create_subjects-Uncounted :
      (request : Config) (subjects : List Subject) (pid : ℤ) (i : ℕ) (s : Service os)
      → length request.subjects ≢ 1
      → Uncounted s.cleanups
      → Uncounted (create_subjects os request subjects pid i s).cleanups
  unfolding create_subjects create_inotify_watcher
  create_subjects-Uncounted request [] pid i s ne h = h
  create_subjects-Uncounted request (subject ∷ subjects) pid i s ne h =
      create_subjects-Uncounted request subjects pid (suc i)
        (create_inotify_watcher os request subject pid i s) ne (λ e. ne (sym e), h)

  create_subjects-done_map :
      (request : Config) (subjects : List Subject) (pid : ℤ) (i : ℕ) (s : Service os)
      → (create_subjects os request subjects pid i s).done_map ≡ s.done_map
  unfolding create_subjects create_inotify_watcher
  create_subjects-done_map request [] pid i s = refl
  create_subjects-done_map request (subject ∷ subjects) pid i s =
      create_subjects-done_map request subjects pid (suc i)
        (create_inotify_watcher os request subject pid i s)

  create_pids-Uncounted :
      (request : Config) (pids : List ℤ) (s : Service os)
      → length request.subjects ≢ 1
      → Uncounted s.cleanups
      → Uncounted (create_pids os request pids s).cleanups
  unfolding create_pids
  create_pids-Uncounted request [] s ne h = h
  create_pids-Uncounted request (pid ∷ pids) s ne h =
      create_pids-Uncounted request pids _ ne
        (create_subjects-Uncounted request request.subjects pid 0 _ ne h)

  create_pids-keeps_false :
      (request : Config) (pids : List ℤ) (pid : ℤ) (s : Service os)
      → find_done pid s.done_map ≡ some false
      → find_done pid (create_pids os request pids s).done_map ≡ some false
  unfolding create_pids
  create_pids-keeps_false request [] pid s h = h
  create_pids-keeps_false request (p ∷ pids) pid s h = create_pids-keeps_false request pids pid _ (
      ap (find_done pid) (create_subjects-done_map request request.subjects p 0 _)
      ∙ find_done-set_done-false pid p s.done_map h)

  create_pids-false :
      (request : Config) (xs ys : List ℤ) (pid : ℤ) (s : Service os)
      → find_done pid (create_pids os request (xs ++ (pid ∷ ys)) s).done_map ≡ some false
  unfolding create_pids
  create_pids-false request [] ys pid s = create_pids-keeps_false request ys pid _ (
      ap (find_done pid) (create_subjects-done_map request request.subjects pid 0 _)
      ∙ find_done-set_done_self pid false s.done_map)
  create_pids-false request (x ∷ xs) ys pid s = create_pids-false request xs ys pid _

  -- After the loops of `CreateWatch` for a request with any number of subjects but 1, with no older
  -- cleanup thread about: in whatever order and however often the cleanup threads go through, the
  -- entry of each pid of the request in `doneMap_` stays false.
  pub create_pids-never_done :
      (request : Config) (xs ys : List ℤ) (pid : ℤ) (s v : Service os)
      → length request.subjects ≢ 1
      → s.cleanups ≡ []
      → Reach (create_pids os request (xs ++ (pid ∷ ys)) s) v
      → find_done pid v.done_map ≡ some false
  create_pids-never_done request xs ys pid s v ne none_before r =
      ap (λ (y : Service os). find_done pid y.done_map)
        (Reach-same
          (create_pids-Uncounted request (xs ++ (pid ∷ ys)) s ne
            (subst Uncounted (sym none_before) tt))
          r)
      ∙ create_pids-false request xs ys pid s
