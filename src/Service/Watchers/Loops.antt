-- ===== src/Service/Watchers/Loops.antt =====
-- The loops of `CreateWatch` in src/argusd_impl.cc over the pids and the subjects.
use argusd.Base.{ℕ, suc, ◌≡◌, refl, ◌∙◌, ℤ, List, [], ◌∷◌}
use argusd.Os.{Os}
use argusd.Service.Subject.{Subject}
use argusd.Service.Watchers.{Config, Service, create_pids, create_subjects, create_inotify_watcher}

module _ (os : Os) where
  -- What the loops of `CreateWatch` leave as it was.
  pub record OnlyStarts (s s' : Service os) : Type 0 where
    pub same_world : s'.world ≡ s.world
    pub same_watchers : s'.watchers ≡ s.watchers
    pub same_pointer : s'.next_pointer ≡ s.next_pointer
    pub same_writer : s'.metrics_writer ≡ s.metrics_writer

  create_subjects-OnlyStarts :
      (request : Config) (subjects : List Subject) (pid : ℤ) (i : ℕ) (s : Service os)
      → OnlyStarts s (create_subjects os request subjects pid i s)
  unfolding create_subjects create_inotify_watcher
  create_subjects-OnlyStarts request [] pid i s = record {
    same_world = refl;
    same_watchers = refl;
    same_pointer = refl;
    same_writer = refl;
  }
  create_subjects-OnlyStarts request (subject ∷ subjects) pid i s =
      let c =
        create_subjects-OnlyStarts request subjects pid (suc i)
          (create_inotify_watcher os request subject pid i s) in
      record {
        same_world = c.same_world;
        same_watchers = c.same_watchers;
        same_pointer = c.same_pointer;
        same_writer = c.same_writer;
      }

  pub create_pids-OnlyStarts :
      (request : Config) (pids : List ℤ) (s : Service os)
      → OnlyStarts s (create_pids os request pids s)
  unfolding create_pids
  create_pids-OnlyStarts request [] s = record {
    same_world = refl;
    same_watchers = refl;
    same_pointer = refl;
    same_writer = refl;
  }
  create_pids-OnlyStarts request (pid ∷ pids) s =
      let b = create_subjects-OnlyStarts request request.subjects pid 0 _ in
      let c = create_pids-OnlyStarts request pids _ in
      record {
        same_world = c.same_world ∙ b.same_world;
        same_watchers = c.same_watchers ∙ b.same_watchers;
        same_pointer = c.same_pointer ∙ b.same_pointer;
        same_writer = c.same_writer ∙ b.same_writer;
      }
