-- ===== src/Notify/Order/Told.antt =====
-- A new watcher of lib/argusnotify.c from its start to the journal of the daemon.
use mathlib.Core.Option.{some-injective}
use argusd.Base.{
  ℕ, ◌≡◌, ◌≢◌, sym, ap, subst, ◌∙◌, eof, Option, none, some, List, ◌++◌, length, get_elem?, take,
  true, ◌>>=◌,
}
use argusd.Watch.{Watch, WatchEvent}
use argusd.Inotify.{Event}
use argusd.Os.{Os, Allocates, WalksByCalls}
use argusd.Table.{World, find_cached_slot}
use argusd.Table.Slots.{IsTable}
use argusd.Tree.Walk.{NoNull}
use argusd.Tree.Kernel.{Still, Kernel, InOrder}
use argusd.Notify.Opens.{Opens}
use argusd.Notify.Start.{
  Progress, Request, running, stopped, wait_rounds, finish_if_stopped, start_inotify_watcher,
}
use argusd.Notify.Journal.{Journal, Delivers}
use argusd.Notify.Reports.{AllTell}
use argusd.Notify.Truth.{batches_of, EachOf, in_turn, wait_rounds-AllTell}
use argusd.Notify.Order.{Fresh}
use argusd.Notify.NewWatcher.{EpollOpens}
use argusd.Notify.Order.Start.{Waits, start_inotify_watcher-Waits}

module _ (os : Os) (kernel : Kernel os) where
  running-injective :
      (v w : World os) → Path (Option (Progress os)) (some (running v)) (some (running w)) → v ≡ w
  running-injective v w e = ap world_of e
    where
      world_of : Option (Progress os) → World os
      world_of none = v
      world_of (some (running x)) = x
      world_of (some (stopped x)) = v

  -- A watcher that waits is in the world that its first rounds are in.
  Waits-in_loop :
      (w v : World os) (r : Request) (x : Waits os kernel w r)
      → start_inotify_watcher os 0 w r ≡ some (running v)
      → x.in_loop ≡ v
  unfolding wait_rounds
  Waits-in_loop w v r x e = running-injective x.in_loop v (sym (x.done 0) ∙ e)

  -- Where memory and descriptors do not run out, the walk works by its calls, inotify is as in
  -- inotify(7), a new instance watches nothing, no file changes while the watcher starts, and the log
  -- function appends to a journal: a new watcher, on a valid table that does not find its pid and sid,
  -- none of whose roots is NULL, and that has come to its loop in a world `v`. In the rounds that
  -- follow, in which files may change, epoll reports the inotify descriptor alone and one read gives
  -- events of kinds that the watcher asked for, at objects that its inotify instance watched when the
  -- loop began, and for none of the branches. Then it goes on, changes no watch and no table, and the
  -- journal gets one entry for each event, in their order, with its kind and a path that led to its
  -- object when the loop began.
  pub start_inotify_watcher-AllTell :
      Still os kernel
      → Allocates os
      → WalksByCalls os
      → Opens os
      → EpollOpens os
      → Fresh os kernel
      → (journal : Journal os) (w : World os) (r : Request) → IsTable w
      → find_cached_slot os w r.pid r.sid ≡ some eof
      → NoNull (take r.pathc r.paths)
      → (v : World os) (watch : Watch) (batches : List (List (Event × ℕ))) (s : os.State)
      → start_inotify_watcher os 0 w r ≡ some (running v)
      → get_elem? v.heap (length w.heap) ≡ some watch
      → EachOf os kernel watch v.sys batches
      → Delivers os watch true v.sys (batches_of batches) s
      → (start_inotify_watcher os (length (batches_of batches)) w r
          ≡ some (running (record v { sys = s })))
        × (told : List WatchEvent) × (journal.entries s ≡ journal.entries v.sys ++ told)
        × AllTell os kernel watch v.sys (in_turn batches) told
  start_inotify_watcher-AllTell still alloc walks opens epoll fresh journal w r t absent n v watch
        batches s begun at f d =
      let p = length w.heap in
      let x =
        start_inotify_watcher-Waits os kernel still alloc walks opens epoll fresh w r t absent n in
      let same = Waits-in_loop w v r x begun in
      let same_watch : x.watch ≡ watch =
        some-injective _ _ (sym x.at ∙ ap (λ (y : World os). get_elem? y.heap p) same ∙ at) in
      let order =
        subst (λ (u : Watch). InOrder os kernel u.fd u v.sys) same_watch
          (subst (λ (y : World os). InOrder os kernel x.watch.fd x.watch y.sys) same x.order) in
      let active : watch.slot ≢ eof = λ e. x.has_slot (ap (λ (u : Watch). u.slot) same_watch ∙ e) in
      let rounds = length (batches_of batches) in
      let (e, told, j, a) =
        wait_rounds-AllTell os kernel watch v.sys order active journal v p true batches s at f d in
      (
        x.done rounds
            ∙ ap (λ y. wait_rounds os rounds true y p >>= λ z. finish_if_stopped os z p) same
            ∙ ap (λ y. y >>= λ z. finish_if_stopped os z p) e,
        told,
        j,
        a,
      )
