-- ===== src/Notify/Truth.antt =====
-- The rounds of the loop of `start_inotify_watcher` from the kernel's events to the journal.
use argusd.Base.{ℕ, ◌≡◌, ◌≢◌, eof, Bool, some, List, [], ◌∷◌, ◌++◌, get_elem?, length}
use argusd.Watch.{Watch, WatchEvent}
use argusd.Inotify.{Event}
use argusd.Os.{Os}
use argusd.Table.{World}
use argusd.Tree.Kernel.{Kernel, InOrder}
use argusd.Notify.Start.{running, wait_rounds}
use argusd.Notify.Journal.{Journal, Delivers, wanted, wanted_batches, wait_rounds-Delivers}
use argusd.Notify.Reports.{AllOf, AllTell, events_of, wanted-AllTell}

-- The events of one read after the other, and all in turn.
abbrev pub batches_of : List (List (Event × ℕ)) → List (List Event)
batches_of [] = []
batches_of (batch ∷ batches) = events_of batch ∷ batches_of batches

abbrev pub in_turn : List (List (Event × ℕ)) → List (Event × ℕ)
in_turn [] = []
in_turn (batch ∷ batches) = batch ++ in_turn batches

module _ (os : Os) (kernel : Kernel os) (watch : Watch) (s : os.State) where
  abbrev pub EachOf : List (List (Event × ℕ)) → Type 0
  EachOf [] = Unit {0}
  EachOf (batch ∷ batches) = AllOf os kernel watch s batch × EachOf batches

  AllTell-append :
      (xs ys : List (Event × ℕ)) (us vs : List WatchEvent)
      → AllTell os kernel watch s xs us
      → AllTell os kernel watch s ys vs
      → AllTell os kernel watch s (xs ++ ys) (us ++ vs)
  AllTell-append [] ys [] vs t r = r
  AllTell-append [] ys (u ∷ us) vs t r = absurd t
  AllTell-append (x ∷ xs) ys [] vs t r = absurd t
  AllTell-append ((e, o) ∷ xs) ys (u ∷ us) vs t r = (t.0, AllTell-append xs ys us vs t.1 r)

  wanted_batches-AllTell :
      InOrder os kernel watch.fd watch s
      → watch.slot ≢ eof
      → (batches : List (List (Event × ℕ))) → EachOf batches
      → AllTell os kernel watch s (in_turn batches) (wanted_batches os watch (batches_of batches))
  unfolding wanted_batches
  wanted_batches-AllTell h active [] f = tt
  wanted_batches-AllTell h active (batch ∷ batches) f =
      AllTell-append batch (in_turn batches) (wanted os watch (events_of batch))
        (wanted_batches os watch (batches_of batches))
        (wanted-AllTell os kernel watch s h active batch f.0)
        (wanted_batches-AllTell h active batches f.1)

  -- On a watch with a slot whose cache is in order with the kernel in a state `s`: in rounds in each of
  -- which epoll reports the inotify descriptor alone and one read gives events at objects watched in
  -- `s`, of a kind that the watcher asked for, and for none of the branches, the loop goes on and
  -- changes no watch and no table. The journal gets one entry for each event, in their order, with its
  -- kind and a path that led to its object in `s`.
  pub wait_rounds-AllTell :
      InOrder os kernel watch.fd watch s
      → watch.slot ≢ eof
      → (journal : Journal os) (w : World os) (p : ℕ) (buffer : Bool)
        (batches : List (List (Event × ℕ))) (s' : os.State)
      → get_elem? w.heap p ≡ some watch
      → EachOf batches
      → Delivers os watch buffer w.sys (batches_of batches) s'
      → (wait_rounds os (length (batches_of batches)) buffer w p
          ≡ some (running (record w { sys = s' })))
        × (told : List WatchEvent) × (journal.entries s' ≡ journal.entries w.sys ++ told)
        × AllTell os kernel watch s (in_turn batches) told
  wait_rounds-AllTell h active journal w p buffer batches s' at f d =
      let (e, j) = wait_rounds-Delivers os journal w p watch buffer (batches_of batches) s' at d in
      (
        e,
        wanted_batches os watch (batches_of batches),
        j,
        wanted_batches-AllTell h active batches f,
      )
