-- ===== src/Notify/Journal.antt =====
-- What the log function of the daemon gets from `start_inotify_watcher` of lib/argusnotify.c, round
-- by round.

use argusd.Base.{
  ℕ, ◌≤◌, ◌≡◌, ◌≢◌, refl, sym, ap, ◌∙◌, inl, inr, ℤ, eof, int_eq_refl, Bool, false, Bool-cases,
  Option, some, List, [], ◌∷◌, ◌++◌, append_assoc, append-nil, get_elem?, length, if◌then◌else◌,
}
use argusd.Watch.{Watch, WatchEvent, EpollEvent}
use argusd.Inotify.{Event, Buffer}
use argusd.Os.{Os}
use argusd.Table.{World}
use argusd.Notify.Event.{in_buffer_size, awevent}
use argusd.Notify.Logged.{event_path}
use argusd.Notify.Loop.{process_inotify_events}
use argusd.Notify.Stream.{
  AllQuiet, Holds, size, is_wanted, log_wanted, process_inotify_events-log_wanted,
}
use argusd.Notify.Start.{running, handle_event, handle_events, after_wait, wait_round, wait_rounds}
use argusd.Notify.Kill.{readable, readable_only}

module _ (os : Os) where
  -- The log function appends to a journal, and nothing else of a round touches it.
  pub record Journal : Type 0 where
    pub entries : os.State → List WatchEvent
    pub logfn_appends :
        (s : os.State) (e : WatchEvent) → entries (os.logfn s e) ≡ entries s ++ (e ∷ [])
    pub sigaction_keeps : (s : os.State) → entries (os.sigaction s).1 ≡ entries s
    pub read_keeps : (s : os.State) (fd : ℤ) (n : ℕ) → entries (os.read s fd n).1 ≡ entries s
    pub pwait_keeps :
        (s : os.State) (buffer : Bool) (efd : ℤ)
        → entries (os.epoll_pwait s buffer efd).1 ≡ entries s
    pub sigmask_keeps : (s : os.State) (on : Bool) → entries (os.pthread_sigmask s on) ≡ entries s

  -- The entries for the events up to the first that is not wanted.
  unfoldable pub wanted : Watch → List Event → List WatchEvent
  wanted watch [] = []
  wanted watch (event ∷ events) =
      let rest = awevent os watch event (event_path os watch event) ∷ wanted watch events in
      if is_wanted watch event then rest else []

  -- The same for what one `read` after the other gives.
  unfoldable pub wanted_batches : Watch → List (List Event) → List WatchEvent
  unfolding wanted
  wanted_batches watch [] = []
  wanted_batches watch (batch ∷ batches) = wanted watch batch ++ wanted_batches watch batches

  -- One round in which epoll reports the inotify descriptor alone, and `read` gives the events.
  pub record Gives (watch : Watch) (buffer : Bool) (s : os.State) (events : List Event)
      (s' : os.State) : Type 0 where
    pub waited : os.State
    pub reported : os.epoll_pwait s buffer watch.efd ≡ (some (readable watch.fd ∷ []), waited)
    pub acted : (os.sigaction (os.pthread_sigmask waited false)).0 ≢ eof
    pub buf : Buffer
    pub got :
        os.read (os.sigaction (os.pthread_sigmask waited false)).1 watch.fd in_buffer_size
        ≡ (some (size events, buf), s')
    pub quiet : AllQuiet events
    pub held : Holds buf 0 events
    pub fits : size events ≤ in_buffer_size

  -- Round after round, with what the log function does at the end of each.
  pub data Delivers (watch : Watch) (buffer : Bool)
      : os.State → List (List Event) → os.State → Type 0 where
    none_left : {s : os.State} → Delivers watch buffer s [] s
    one_more :
        {s s' : os.State} {batches : List (List Event)} (batch : List Event) (read : os.State)
        → Gives watch buffer s batch read
        → Delivers watch buffer (log_wanted os watch batch read) batches s'
        → Delivers watch buffer s (batch ∷ batches) s'

  handle_event-inotify :
      (w w' : World os) (p : ℕ) (watch : Watch)
      → get_elem? w.heap p ≡ some watch
      → process_inotify_events os w p ≡ some w'
      → handle_event os w p (readable watch.fd) ≡ some (running w')
  unfolding handle_event
  handle_event-inotify w w' p watch at e = rw (at, readable_only, int_eq_refl watch.fd, e) refl

  wait_round-Gives :
      (w : World os) (p : ℕ) (watch : Watch) (buffer : Bool) (events : List Event) (s : os.State)
      → get_elem? w.heap p ≡ some watch
      → Gives watch buffer w.sys events s
      → wait_round os buffer w p ≡ some (running (record w { sys = log_wanted os watch events s }))
  unfolding wait_round after_wait handle_events
  wait_round-Gives w p watch buffer events s at g =
      let v : World os = record w { sys = os.pthread_sigmask g.waited false } in
      let e =
        process_inotify_events-log_wanted os p watch v s events g.buf at g.acted g.got g.quiet
          g.held g.fits in
      rw (at, g.reported, handle_event-inotify v _ p watch at e) refl

  module _ (journal : Journal) where
    log_wanted-entries :
        (watch : Watch) (events : List Event) (s : os.State)
        → journal.entries (log_wanted os watch events s) ≡ journal.entries s ++ wanted watch events
    unfolding log_wanted wanted
    log_wanted-entries watch [] s = sym (append-nil (journal.entries s))
    log_wanted-entries watch (event ∷ events) s = elim (Bool-cases (is_wanted watch event)) [
      | inl yes_ ↦
          let entry = awevent os watch event (event_path os watch event) in
          rw (yes_, log_wanted, wanted)
            (log_wanted-entries watch events (os.logfn s entry)
              ∙ ap (λ es. es ++ wanted watch events) (journal.logfn_appends s entry)
              ∙ append_assoc (journal.entries s) (entry ∷ []) (wanted watch events))
      | inr no_ ↦ rw (no_, log_wanted, wanted) (sym (append-nil (journal.entries s)))
    ]

    Gives-entries :
        (watch : Watch) (buffer : Bool) (s s' : os.State) (events : List Event)
        → Gives watch buffer s events s'
        → journal.entries s' ≡ journal.entries s
    Gives-entries watch buffer s s' events g =
        ap (λ (r : Option (ℕ × Buffer) × os.State). journal.entries r.1) (sym g.got)
        ∙ journal.read_keeps _ watch.fd in_buffer_size
        ∙ journal.sigaction_keeps (os.pthread_sigmask g.waited false)
        ∙ journal.sigmask_keeps g.waited false
        ∙ ap (λ (r : Option (List EpollEvent) × os.State). journal.entries r.1) (sym g.reported)
        ∙ journal.pwait_keeps s buffer watch.efd

    -- In rounds in each of which epoll reports the inotify descriptor alone and one read gives
    -- events, each with a watch descriptor and for none of the branches: the loop goes on, changes
    -- no watch and no table, and the journal gets, in their order, the events of each read up to
    -- the first that is not cached or not asked for, with the path of its directory. The system is
    -- one where the log function appends to a journal and the calls of a round leave it alone.
    pub wait_rounds-Delivers :
        (w : World os) (p : ℕ) (watch : Watch) (buffer : Bool) (batches : List (List Event))
        (s : os.State)
        → get_elem? w.heap p ≡ some watch
        → Delivers watch buffer w.sys batches s
        → (wait_rounds os (length batches) buffer w p ≡ some (running (record w { sys = s })))
          × (journal.entries s ≡ journal.entries w.sys ++ wanted_batches watch batches)
    unfolding wait_rounds wanted_batches
    wait_rounds-Delivers w p watch buffer [] s at none_left =
        (refl, sym (append-nil (journal.entries s)))
    wait_rounds-Delivers w p watch buffer (batch ∷ batches) s at (one_more _ read g d) =
        let s₁ = log_wanted os watch batch read in
        let (e, j) = wait_rounds-Delivers (record w { sys = s₁ }) p watch buffer batches s at d in
        (
          rw (wait_round-Gives w p watch buffer batch read at g) e,
          j
              ∙ ap (λ es. es ++ wanted_batches watch batches)
                  (log_wanted-entries watch batch read
                    ∙ ap (λ es. es ++ wanted watch batch)
                        (Gives-entries watch buffer _ read batch g))
              ∙ append_assoc (journal.entries w.sys) (wanted watch batch)
                  (wanted_batches watch batches),
        )
