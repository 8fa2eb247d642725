-- ===== src/Tree/Totality.antt =====
-- `watch_subtree` ends without a fault and only appends to the cache.
use argusd.Base.{
  ◌≡◌, refl, sym, ap, subst, ◌∙◌, ℤ, pos, Option, none, some, List, [], ◌∷◌, ◌++◌, Text,
  append_assoc, append-nil,
}
use argusd.Watch.{Watch}
use argusd.Os.{Os, Allocates, WalksByCalls}
use argusd.Cache.Arrays.{entries, IsWf}
use argusd.Tree.Roots.{roots}
use argusd.Tree.Walk.{NoNull, AllReal, Appends, Watched, ignored, refused, added, watch_path_cases}
use argusd.Tree.{Run, watch_path, watch_subtree}
use argusd.Tree.Preserve.{PathKeeps, watch_subtree-Reaches}

AllReal-append : (es fs : List (ℤ × Text)) → AllReal es → AllReal fs → AllReal (es ++ fs)
AllReal-append [] fs h k = k
AllReal-append (e ∷ es) fs h k = (h.0, AllReal-append es fs h.1 k)

module _ (os : Os) where
  pub Appends-refl : (watch : Watch) → IsWf watch → Appends os watch [] watch
  Appends-refl watch h = record {
    wf = h;
    rest = refl;
    added = sym (append-nil (entries watch));
    real = tt;
  }

  Appends-trans :
      (u v w : Watch) (es fs : List (ℤ × Text))
      → Appends os u es v
      → Appends os v fs w
      → Appends os u (es ++ fs) w
  Appends-trans u v w es fs a b = record {
    wf = b.wf;
    rest =
        ap {A = Watch} (λ x. record x { wd = u.wd; paths = u.paths; pathc = u.pathc }) b.rest
        ∙ a.rest;
    added = b.added ∙ ap (λ x. x ++ fs) a.added ∙ append_assoc (entries u) es fs;
    real = AllReal-append es fs a.real b.real;
  }

  pub roots-Appends : (u v : Watch) (es : List (ℤ × Text)) → Appends os u es v → roots v ≡ roots u
  roots-Appends u v es a = ap roots a.rest

  -- The run has not faulted, and the watch is `watch` with more entries.
  pub record Grows (watch : Watch) (run : Run os) : Type 0 where
    pub watch' : Watch
    pub sys' : os.State
    pub es : List (ℤ × Text)
    pub returned : run ≡ some (watch', sys')
    pub appends : Appends os watch es watch'

  Grows-trans :
      (u v : Watch) (es : List (ℤ × Text)) (run : Run os)
      → Appends os u es v
      → Grows v run
      → Grows u run
  Grows-trans u v es run a g = record {
    watch' = g.watch';
    sys' = g.sys';
    es = es ++ g.es;
    returned = g.returned;
    appends = Appends-trans u v g.watch' es g.es a g.appends;
  }

  Grows-refl : (watch : Watch) (sys : os.State) → IsWf watch → Grows watch (some (watch, sys))
  Grows-refl watch sys h = record {
    watch' = watch;
    sys' = sys;
    es = [];
    returned = refl;
    appends = Appends-refl watch h;
  }

  module _ (alloc : Allocates os) where
    -- The run of `watch_path` without its result.
    abbrev forget : Option (ℤ × Watch × os.State) → Run os
    forget none = none
    forget (some (r, w, s)) = some (w, s)

    watch_path-Grows :
        (watch : Watch) (path : Text) (sys : os.State)
        → IsWf watch
        → NoNull (roots watch)
        → (r : ℤ) × (w : Watch) × (s : os.State) × (watch_path os watch path sys ≡ some (r, w, s))
          × Grows watch (some (w, s))
    watch_path-Grows watch path sys h n = go (watch_path_cases os alloc watch path sys h n)
      where
        go :
            Watched os watch path sys
            → (r : ℤ) × (w : Watch) × (s : os.State) × (watch_path os watch path sys
                ≡ some (r, w, s))
              × Grows watch (some (w, s))
        go (ignored i e) = (pos 0, watch, sys, e, Grows-refl watch sys h)
        go (refused sys' i a e) = (_, watch, sys', e, Grows-refl watch sys' h)
        go (added wd w sys' i a ne e p) = (
          pos 0,
          w,
          sys',
          e,
          record { watch' = w; sys' = sys'; es = (wd, path) ∷ []; returned = refl; appends = p },
        )

    -- The watch is `watch` with more entries.
    abbrev pub Grown : Watch → Watch → os.State → Type 0
    Grown watch watch' sys' =
        (es : List (ℤ × Text)) × Appends os watch es watch' × NoNull (roots watch')

    pub watch_path-Grown : (watch : Watch) → PathKeeps os (Grown watch)
    watch_path-Grown watch u path sys (es, a, n) =
        let (r, v, s, e, g) = watch_path-Grows u path sys a.wf n in
        let roots_same = roots-Appends u g.watch' g.es g.appends in
        (
          r,
          g.watch',
          g.sys',
          e ∙ ap (tag r) g.returned,
          (
            es ++ g.es,
            Appends-trans watch u g.watch' es g.es a g.appends,
            subst NoNull (sym roots_same) n,
          ),
        )
      where
        tag : ℤ → Run os → Option (ℤ × Watch × os.State)
        tag r none = none
        tag r (some (v, s)) = some (r, v, s)

    module _ (walks : WalksByCalls os) where
      -- With memory, and a walk that works by its calls: on a watch whose arrays hold `pathc`
      -- items and none of whose roots is NULL, `watch_subtree` returns, on every system. The cache
      -- keeps its entries and may get more at its end, each with a descriptor that is not -1; nothing
      -- else of the watch changes.
      pub watch_subtree-Grows :
          (watch : Watch) (sys : os.State)
          → IsWf watch
          → NoNull (roots watch)
          → Grows watch (watch_subtree os watch sys)
      watch_subtree-Grows watch sys h n =
          let r =
            watch_subtree-Reaches os (Grown watch) (watch_path-Grown watch) walks watch sys n
              ([], Appends-refl watch h, n) in
          record {
            watch' = r.watch;
            sys' = r.sys;
            es = r.holds.0;
            returned = r.returned;
            appends = r.holds.1;
          }
