-- ===== src/Notify/Reports.antt =====
-- The events of watched objects: none is lost, and the log gets a path of the object. The cache was
-- in order in a state before, as after `watch_subtree`, and the paths are those of that state.
use mathlib.Core.Bool.{true≢false}
use mathlib.Core.Option.{some-injective}
use argusd.Base.{
  ℕ, suc, ◌≡◌, ◌≢◌, refl, sym, ap, ◌∙◌, inl, inr, ℤ, eof, int_eq, int_eq_iff, int_eq_ne,
  int_eq_refl, true, Bool-cases, some, List, [], ◌∷◌, Text, get_elem?, take,
}
use argusd.Watch.{Watch, WatchEvent, has}
use argusd.Inotify.{Event}
use argusd.Os.{Os}
use argusd.Cache.{find_watch_checked, wd_to_path_name, path_of_wd}
use argusd.Cache.Arrays.{zip, entries}
use argusd.Cache.Lookup.{at_slot, inactive, absent, find_watch_cases}
use argusd.Tree.Kernel.{Kernel, Known, AllMarked, InOrder}
use argusd.Notify.Event.{awevent}
use argusd.Notify.Logged.{event_path}
use argusd.Notify.Journal.{wanted}

Known-index :
    (wd : ℤ) (ds : List ℤ) (paths : List Text)
    → Known wd (zip ds paths)
    → (j : ℕ) × (get_elem? ds j ≡ some wd)
Known-index wd [] paths h = absurd h
Known-index wd (d ∷ ds) [] h = absurd h
Known-index wd (d ∷ ds) (path ∷ paths) (inl e) = (0, ap some e)
Known-index wd (d ∷ ds) (path ∷ paths) (inr h) =
    let (j, e) = Known-index wd ds paths h in (suc j, e)

-- The events without their objects.
abbrev pub events_of : List (Event × ℕ) → List Event
events_of [] = []
events_of ((event, o) ∷ events) = event ∷ events_of events

module _ (os : Os) (kernel : Kernel os) where
  path_of_wd-AllMarked :
      (s : os.State) (fd wd : ℤ) (o : ℕ) (ds : List ℤ) (paths : List Text)
      → kernel.marked s fd wd ≡ some o
      → AllMarked os kernel s fd (zip ds paths)
      → Known wd (zip ds paths)
      → kernel.object s (path_of_wd wd ds paths) ≡ o
  unfolding path_of_wd
  path_of_wd-AllMarked s fd wd o [] paths m h k = absurd k
  path_of_wd-AllMarked s fd wd o (d ∷ ds) [] m h k = absurd k
  path_of_wd-AllMarked s fd wd o (d ∷ ds) (path ∷ paths) m h k = elim (Bool-cases (int_eq d wd)) [
    | inl hit ↦
        let same = (int_eq_iff d wd).0 hit in
        rw (hit, path_of_wd) (some-injective _ _ (sym h.0 ∙ ap (kernel.marked s fd) same ∙ m))
    | inr miss ↦
        let apart = λ (e : d ≡ wd). true≢false (sym ((int_eq_iff d wd).1 e) ∙ miss) in
        rw (miss, path_of_wd)
          (path_of_wd-AllMarked s fd wd o ds paths m h.1
            (elim k [ inl e ↦ absurd (apart e) | inr later ↦ later ]))
  ]

  module _ (watch : Watch) (s : os.State) where
    -- The event came about at the object, and the watcher asked for its kind.
    pub record IsOf (event : Event) (o : ℕ) : Type 0 where
      pub at_object : kernel.marked s watch.fd event.wd ≡ some o
      pub asked : has event.mask watch.event_mask ≡ true

    -- The events came about at the objects, one for each.
    abbrev pub AllOf : List (Event × ℕ) → Type 0
    AllOf [] = Unit {0}
    AllOf ((event, o) ∷ events) = IsOf event o × AllOf events

    -- The entries tell of the events one for one: the kind, the file, and a path of the object.
    pub record Tells (event : Event) (o : ℕ) (entry : WatchEvent) : Type 0 where
      pub kind : entry.event_mask ≡ event.mask
      pub path : kernel.object s entry.path_name ≡ o
      pub all : entry ≡ awevent os watch event (event_path os watch event)

    abbrev pub AllTell : List (Event × ℕ) → List WatchEvent → Type 0
    AllTell [] [] = Unit {0}
    AllTell [] (entry ∷ entries) = ⊥
    AllTell (e ∷ events) [] = ⊥
    AllTell ((event, o) ∷ events) (entry ∷ entries) = Tells event o entry × AllTell events entries

  module _ (watch : Watch) (s : os.State) (h : InOrder os kernel watch.fd watch s)
      (active : watch.slot ≢ eof) where
    find_watch_checked-marked :
        (wd : ℤ) (o : ℕ) → kernel.marked s watch.fd wd ≡ some o → find_watch_checked watch wd ≢ eof
    find_watch_checked-marked wd o m =
        let (same, found) = find_watch_cases watch wd h.wf in
        let (j, e) =
          Known-index wd (take watch.pathc watch.wd) (take watch.pathc watch.paths)
            (h.mirrors.complete wd o m) in
        elim found [
          | at_slot i slot ↦ λ q. let c = sym slot.slot ∙ sym same ∙ q in cc
          | inactive idle no_slot ↦ absurd (active idle)
          | absent busy no_slot none_there blank ↦
              absurd (true≢false (sym (int_eq_refl wd) ∙ none_there j wd e))
        ]

    event_path-object :
        (event : Event) (o : ℕ)
        → kernel.marked s watch.fd event.wd ≡ some o
        → kernel.object s (event_path os watch event) ≡ o
    unfolding wd_to_path_name
    event_path-object event o m =
        path_of_wd-AllMarked s watch.fd event.wd o (take watch.pathc watch.wd)
          (take watch.pathc watch.paths) m h.mirrors.sound (h.mirrors.complete event.wd o m)

    event-Tells :
        (event : Event) (o : ℕ)
        → IsOf watch s event o
        → Tells watch s event o (awevent os watch event (event_path os watch event))
    unfolding awevent
    event-Tells event o f = record {
      kind = refl;
      path = event_path-object event o f.at_object;
      all = refl;
    }

    -- If the cache is in order with the kernel in a state, on a watch with a slot: of the events at
    -- objects watched then, and that the watcher asked for, none is lost, and the entry of each tells
    -- its kind and a path that led to its object then.
    pub wanted-AllTell :
        (events : List (Event × ℕ))
        → AllOf watch s events
        → AllTell watch s events (wanted os watch (events_of events))
    unfolding wanted
    wanted-AllTell [] f = tt
    wanted-AllTell ((event, o) ∷ events) f =
        let known = find_watch_checked-marked event.wd o f.0.at_object in
        rw (int_eq_ne (find_watch_checked watch event.wd) eof known, f.0.asked)
          (event-Tells event o f.0, wanted-AllTell events f.1)
