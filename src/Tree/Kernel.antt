-- ===== src/Tree/Kernel.antt =====
-- The cache of a watch against the watches that the kernel has: what the walk of lib/argustree.c
-- stores is what inotify was asked for.
use mathlib.Core.Bool.{true≢false}
use argusd.Base.{
  Bool, ℕ, ◌≡◌, ◌≢◌, refl, sym, ap, subst, ◌∙◌, ◌⊎◌, inl, inr, ℤ, pos, eof, int_eq, int_eq_iff,
  Bool-cases, Option, none, some, List, [], ◌∷◌, ◌++◌, Text, bit_or, ◌==◌, if◌then◌else◌,
}
use argusd.Watch.{Watch, EpollEvent}
use argusd.Os.{Os, Allocates, WalksByCalls}
use argusd.Cache.Arrays.{entries, IsWf}
use argusd.Tree.Roots.{roots}
use argusd.Tree.{enoent, watch_flags, append_entry, watch_path, watch_subtree}
use argusd.Tree.Walk.{NoNull, with_entry, with_entry-Appends, should_ignore_path-total}
use argusd.Tree.Preserve.{Reaches, PathKeeps, watch_subtree-Reaches}

-- inotify(7): an inotify instance has a descriptor for each object that it watches. A call for a
-- path gives the descriptor of its object, an old one if the object is watched already.
pub record Kernel (os : Os) : Type 0 where
  -- The object that a path leads to.
  pub object : os.State → Text → ℕ
  pub marked : os.State → ℤ → ℤ → Option ℕ
  pub add_marks :
      (s : os.State) (fd : ℤ) (path : Text) (mask : ℕ)
      → (os.inotify_add_watch s fd path mask).0 ≢ eof
      → marked (os.inotify_add_watch s fd path mask).1 fd (os.inotify_add_watch s fd path mask).0
        ≡ some (object s path)
  pub add_reuses :
      (s : os.State) (fd : ℤ) (path : Text) (mask o : ℕ)
      → marked s fd (os.inotify_add_watch s fd path mask).0 ≡ some o
      → o ≡ object s path
  pub add_keeps :
      (s : os.State) (fd : ℤ) (path : Text) (mask : ℕ) (wd : ℤ)
      → wd ≢ (os.inotify_add_watch s fd path mask).0
      → marked (os.inotify_add_watch s fd path mask).1 fd wd ≡ marked s fd wd
  pub refusal_keeps :
      (s : os.State) (fd : ℤ) (path : Text) (mask : ℕ) (wd : ℤ)
      → (os.inotify_add_watch s fd path mask).0 ≡ eof
      → marked (os.inotify_add_watch s fd path mask).1 fd wd ≡ marked s fd wd
  pub allocate_keeps : (s : os.State) (fd wd : ℤ) → marked (os.allocate s).1 fd wd ≡ marked s fd wd

-- Between the states, every path has kept its file and its object.
pub record Unmoved (os : Os) (kernel : Kernel os) (s s' : os.State) : Type 0 where
  pub same_lstat : os.lstat s' ≡ os.lstat s
  pub same_object : kernel.object s' ≡ kernel.object s

-- No file changes during the calls by which a watcher is built. The calls by which it waits and
-- reads, and all others, may see any change.
pub record Still (os : Os) (kernel : Kernel os) : Type 0 where
  pub add_still :
      (s : os.State) (fd : ℤ) (path : Text) (mask : ℕ)
      → Unmoved os kernel s (os.inotify_add_watch s fd path mask).1
  pub allocate_still : (s : os.State) → Unmoved os kernel s (os.allocate s).1
  pub eventfd_still : (s : os.State) → Unmoved os kernel s (os.eventfd s).1
  pub epoll_add_still :
      (s : os.State) (efd other : ℤ) (event : EpollEvent)
      → Unmoved os kernel s (os.epoll_ctl_add s efd other event)
  pub epoll_create_still : (s : os.State) → Unmoved os kernel s (os.epoll_create s).1
  pub sigmask_still : (s : os.State) (on : Bool) → Unmoved os kernel s (os.pthread_sigmask s on)

pub Unmoved-trans :
    (os : Os) (kernel : Kernel os) (s t u : os.State)
    → Unmoved os kernel s t
    → Unmoved os kernel t u
    → Unmoved os kernel s u
Unmoved-trans os kernel s t u a b = record {
  same_lstat = b.same_lstat ∙ a.same_lstat;
  same_object = b.same_object ∙ a.same_object;
}

-- An entry has the descriptor.
abbrev pub Known : ℤ → List (ℤ × Text) → Type 0
Known wd [] = ⊥
Known wd ((d, path) ∷ es) = (d ≡ wd) ⊎ Known wd es

Known-append_left : (wd : ℤ) (es fs : List (ℤ × Text)) → Known wd es → Known wd (es ++ fs)
Known-append_left wd [] fs h = absurd h
Known-append_left wd ((d, path) ∷ es) fs (inl e) = inl e
Known-append_left wd ((d, path) ∷ es) fs (inr h) = inr (Known-append_left wd es fs h)

Known-last : (wd : ℤ) (path : Text) (es : List (ℤ × Text)) → Known wd (es ++ ((wd, path) ∷ []))
Known-last wd path [] = inl refl
Known-last wd path ((d, q) ∷ es) = inr (Known-last wd path es)

module _ (os : Os) (kernel : Kernel os) where
  -- The descriptor of each entry is that of the object of its path.
  abbrev pub AllMarked : os.State → ℤ → List (ℤ × Text) → Type 0
  AllMarked s fd [] = Unit {0}
  AllMarked s fd ((wd, path) ∷ es) =
      (kernel.marked s fd wd ≡ some (kernel.object s path)) × AllMarked s fd es

  -- The cache has what the kernel has.
  pub record Mirrors (fd : ℤ) (watch : Watch) (s : os.State) : Type 0 where
    pub sound : AllMarked s fd (entries watch)
    pub complete : (wd : ℤ) (o : ℕ) → kernel.marked s fd wd ≡ some o → Known wd (entries watch)

  AllMarked-keeps :
      (s s' : os.State) (fd : ℤ) (es : List (ℤ × Text))
      → ((wd : ℤ) (o : ℕ) → kernel.marked s fd wd ≡ some o → kernel.marked s' fd wd ≡ some o)
      → kernel.object s' ≡ kernel.object s
      → AllMarked s fd es
      → AllMarked s' fd es
  AllMarked-keeps s s' fd [] k same h = tt
  AllMarked-keeps s s' fd ((wd, path) ∷ es) k same h = (
    k wd (kernel.object s path) h.0 ∙ ap (λ f. some (f path)) (sym same),
    AllMarked-keeps s s' fd es k same h.1,
  )

  AllMarked-append :
      (s : os.State) (fd wd : ℤ) (path : Text) (es : List (ℤ × Text))
      → AllMarked s fd es
      → kernel.marked s fd wd ≡ some (kernel.object s path)
      → AllMarked s fd (es ++ ((wd, path) ∷ []))
  AllMarked-append s fd wd path [] h k = (k, tt)
  AllMarked-append s fd wd path ((d, q) ∷ es) h k = (h.0, AllMarked-append s fd wd path es h.1 k)

  -- A call that succeeds keeps the marks that are there.
  add-keeps_marks :
      (s : os.State) (fd : ℤ) (path : Text) (mask : ℕ)
      → (os.inotify_add_watch s fd path mask).0 ≢ eof
      → (wd : ℤ) (o : ℕ) → kernel.marked s fd wd ≡ some o
      → kernel.marked (os.inotify_add_watch s fd path mask).1 fd wd ≡ some o
  add-keeps_marks s fd path mask ne wd o h =
      let new = (os.inotify_add_watch s fd path mask).0 in
      elim (Bool-cases (int_eq wd new)) [
        | inl e ↦
            let same = (int_eq_iff wd new).0 e in
            let reused =
              kernel.add_reuses s fd path mask o (ap (kernel.marked s fd) (sym same) ∙ h) in
            ap (kernel.marked (os.inotify_add_watch s fd path mask).1 fd) same
            ∙ kernel.add_marks s fd path mask ne
            ∙ ap some (sym reused)
        | inr e ↦
            kernel.add_keeps s fd path mask wd
              (λ same. true≢false (sym ((int_eq_iff wd new).1 same) ∙ e))
            ∙ h
      ]

  -- The new entry of a call that succeeds, with the same marks in the end.
  add-Mirrors :
      (fd : ℤ) (watch watch' : Watch) (s s' : os.State) (path : Text) (mask : ℕ)
      → Mirrors fd watch s
      → (os.inotify_add_watch s fd path mask).0 ≢ eof
      → entries watch' ≡ entries watch ++ (((os.inotify_add_watch s fd path mask).0, path) ∷ [])
      → ((wd : ℤ)
          → kernel.marked s' fd wd ≡ kernel.marked (os.inotify_add_watch s fd path mask).1 fd wd)
      → kernel.object s' ≡ kernel.object s
      → Mirrors fd watch' s'
  add-Mirrors fd watch watch' s s' path mask m ne e same object =
      let new = (os.inotify_add_watch s fd path mask).0 in
      record {
        sound = subst (AllMarked s' fd) (sym e) (
            AllMarked-append s' fd new path (entries watch)
              (AllMarked-keeps s s' fd (entries watch)
                (λ wd o h. same wd ∙ add-keeps_marks s fd path mask ne wd o h) object m.sound)
              (same new
                ∙ kernel.add_marks s fd path mask ne
                ∙ ap (λ f. some (f path)) (sym object)));
        complete = λ wd o h. subst (Known wd) (sym e) (elim (Bool-cases (int_eq wd new)) [
          | inl is_new ↦
              subst (λ d. Known d (entries watch ++ ((new, path) ∷ [])))
                (sym ((int_eq_iff wd new).0 is_new)) (Known-last new path (entries watch))
          | inr is_old ↦
              let kept =
                kernel.add_keeps s fd path mask wd
                  (λ q. true≢false (sym ((int_eq_iff wd new).1 q) ∙ is_old)) in
              Known-append_left wd (entries watch) ((new, path) ∷ [])
                (m.complete wd o (sym kept ∙ sym (same wd) ∙ h))
        ]);
      }

  -- The watch is in order, its inotify instance is `fd`, and it mirrors the kernel.
  pub record InOrder (fd : ℤ) (watch : Watch) (s : os.State) : Type 0 where
    pub wf : IsWf watch
    pub no_null : NoNull (roots watch)
    pub instance_fd : watch.fd ≡ fd
    pub mirrors : Mirrors fd watch s

  -- The order stays where the marks and the files do.
  pub InOrder-sys :
      (fd : ℤ) (watch : Watch) (s s' : os.State)
      → ((wd : ℤ) → kernel.marked s' fd wd ≡ kernel.marked s fd wd)
      → Unmoved os kernel s s'
      → InOrder fd watch s
      → InOrder fd watch s'
  InOrder-sys fd watch s s' same unmoved h = record {
    wf = h.wf;
    no_null = h.no_null;
    instance_fd = h.instance_fd;
    mirrors = record {
      sound =
          AllMarked-keeps s s' fd (entries watch) (λ wd o m. same wd ∙ m) unmoved.same_object
            h.mirrors.sound;
      complete = λ wd o m. h.mirrors.complete wd o (sym (same wd) ∙ m);
    };
  }

  -- The order stays where the entries, the roots and the instance do.
  pub InOrder-watch :
      (fd : ℤ) (u v : Watch) (s : os.State)
      → IsWf v
      → roots v ≡ roots u
      → v.fd ≡ u.fd
      → entries v ≡ entries u
      → InOrder fd u s
      → InOrder fd v s
  InOrder-watch fd u v s wf r f e h = record {
    wf = wf;
    no_null = subst NoNull (sym r) h.no_null;
    instance_fd = f ∙ h.instance_fd;
    mirrors = record {
      sound = subst (AllMarked s fd) (sym e) h.mirrors.sound;
      complete = λ wd o m. subst (Known wd) (sym e) (h.mirrors.complete wd o m);
    };
  }

  -- An empty cache is in order with an instance that watches nothing.
  pub empty-InOrder :
      (fd : ℤ) (watch : Watch) (s : os.State)
      → IsWf watch
      → NoNull (roots watch)
      → watch.fd ≡ fd
      → entries watch ≡ []
      → ((wd : ℤ) → kernel.marked s fd wd ≡ none)
      → InOrder fd watch s
  empty-InOrder fd watch s wf n f e fresh = record {
    wf = wf;
    no_null = n;
    instance_fd = f;
    mirrors = record {
      sound = subst (AllMarked s fd) (sym e) tt;
      complete = λ wd o m. let c = sym (fresh wd) ∙ m in cc;
    };
  }

  module _ (still : Still os kernel) (alloc : Allocates os) where
    pub append_entry_done :
        (watch : Watch) (wd : ℤ) (path : Text) (sys : os.State)
        → append_entry os watch wd path sys
          ≡ (pos 0, with_entry os alloc watch wd path, (os.allocate (os.allocate sys).1).1)
    unfolding append_entry
    append_entry_done watch wd path sys = rw (alloc sys, append_entry, alloc (os.allocate sys).1)

    with_entry-InOrder :
        (fd : ℤ) (watch : Watch) (path : Text) (s : os.State) (mask : ℕ)
        → InOrder fd watch s
        → (os.inotify_add_watch s fd path mask).0 ≢ eof
        → InOrder fd
            (with_entry os alloc watch (os.inotify_add_watch s fd path mask).0 path)
            (os.allocate (os.allocate (os.inotify_add_watch s fd path mask).1).1).1
    with_entry-InOrder fd watch path s mask h ne =
        let (wd, s₁) = os.inotify_add_watch s fd path mask in
        let a = with_entry-Appends os alloc watch wd path h.wf ne in
        record {
          wf = a.wf;
          no_null = h.no_null;
          instance_fd = h.instance_fd;
          mirrors =
              add-Mirrors fd watch (with_entry os alloc watch wd path) s _ path mask h.mirrors ne
                a.added
                (λ d. kernel.allocate_keeps (os.allocate s₁).1 fd d ∙ kernel.allocate_keeps s₁ fd d)
                ((still.allocate_still (os.allocate s₁).1).same_object
                  ∙ (still.allocate_still s₁).same_object
                  ∙ (still.add_still s fd path mask).same_object);
        }

    refused-InOrder :
        (fd : ℤ) (watch : Watch) (path : Text) (s : os.State) (mask : ℕ)
        → InOrder fd watch s
        → (os.inotify_add_watch s fd path mask).0 ≡ eof
        → InOrder fd watch (os.inotify_add_watch s fd path mask).1
    refused-InOrder fd watch path s mask h e =
        InOrder-sys fd watch s _ (λ wd. kernel.refusal_keeps s fd path mask wd e)
          (still.add_still s fd path mask) h

    pub watch_path-InOrder : (fd : ℤ) → PathKeeps os (InOrder fd)
    unfolding watch_path
    watch_path-InOrder fd watch path s h =
        let (b, e) = should_ignore_path-total (os.lstat s) watch path h.no_null in
        let mask = bit_or watch.event_mask (watch_flags watch path) in
        let wd = (os.inotify_add_watch s watch.fd path mask).0 in
        let s₁ = (os.inotify_add_watch s watch.fd path mask).1 in
        let at = λ (d : ℤ). os.inotify_add_watch s d path mask in
        elim (Bool-cases b) [
          | inl yes_ ↦ (pos 0, watch, s, rw (e ∙ ap some yes_) refl, h)
          | inr no_ ↦ elim (Bool-cases (int_eq wd eof)) [
            | inl bad ↦ (
              (if os.errno s₁ == enoent then pos 0 else eof),
              watch,
              s₁,
              rw (e ∙ ap some no_, bad) refl,
              subst (λ d. InOrder fd watch (at d).1) (sym h.instance_fd)
                  (refused-InOrder fd watch path s mask h
                    (ap (λ d. (at d).0) (sym h.instance_fd) ∙ (int_eq_iff wd eof).0 bad)),
            )
            | inr good ↦
                let ne : wd ≢ eof = λ q. true≢false (sym ((int_eq_iff wd eof).1 q) ∙ good) in
                (
                  pos 0,
                  with_entry os alloc watch wd path,
                  (os.allocate (os.allocate s₁).1).1,
                  rw (e ∙ ap some no_, good, append_entry_done watch wd path s₁) refl,
                  subst
                      (λ d.
                        InOrder fd (with_entry os alloc watch (at d).0 path)
                          (os.allocate (os.allocate (at d).1).1).1)
                      (sym h.instance_fd)
                      (with_entry-InOrder fd watch path s mask h
                        (λ q. ne (ap (λ d. (at d).0) h.instance_fd ∙ q))),
                )
          ]
        ]

    -- With memory, a walk that works by its calls, inotify as in inotify(7), and no file that changes
    -- while the watches are added: on a watch whose arrays hold `pathc` items and none of whose roots
    -- is NULL, and whose cache has the descriptors of its inotify instance, each with a path to its
    -- object. Then `watch_subtree` returns, and the cache has this again, whatever directories it
    -- walked over and whatever inotify refused.
    pub watch_subtree-InOrder :
        WalksByCalls os
        → (fd : ℤ) (watch : Watch) (s : os.State) → InOrder fd watch s
        → Reaches os (InOrder fd) (watch_subtree os watch s)
    watch_subtree-InOrder walks fd watch s h =
        watch_subtree-Reaches os (InOrder fd) (watch_path-InOrder fd) walks watch s h.no_null h
