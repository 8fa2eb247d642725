-- ===== src/Notify/Sound/Steps.antt =====
-- A watcher of lib/argusnotify.c from its start to its end, and every sequence of the operations.
use argusd.Base.{
  ℕ, zero, suc, ◌≡◌, refl, inl, inr, ℤ, pos, negsuc, eof, int_eq, Bool, true, Bool-cases, not, ◌||◌,
  Option, none, some, List, [], ◌∷◌, ◌++◌, length, get_elem?, ◌==◌, arith, ◌>>=◌,
}
use argusd.Watch.{Watch, EpollEvent, has}
use argusd.Os.{Os, Allocates, WalksByCalls}
use argusd.Cache.Arrays.{IsWf}
use argusd.Table.{World, find_cached_slot}
use argusd.Table.System.{OnSome, OnSome-bind, OnSome-any}
use argusd.Tree.Validate.{validate_root_paths}
use argusd.Notify.Reinit.{put, add_epoll_ctl_fds, reinitialize, epollin}
use argusd.Notify.Kept.{same_arrays, clear_watch-IsWf}
use argusd.Notify.Loop.{process_inotify_events, eintr}
use argusd.Notify.Start.{
  epollerr, epollhup, Request, new_watch, configure, Progress, running, stopped, find_or_create,
  prepare, is_kill, handle_event, handle_events, after_wait, wait_round, wait_rounds, finish_watch,
  finish_if_stopped, serve, start_inotify_watcher,
}
use argusd.Notify.Sound.{Sound, OnSome-self, put-Sound, sys-Sound, append-Sound, Keeps, with_watch}
use argusd.Notify.Sound.Rebuild.{reinitialize-Sound}
use argusd.Notify.Sound.Reading.{process_inotify_events-Sound}

module _ (os : Os) where
  -- The world that a watcher leaves is sound, whether it goes on or not.
  abbrev pub SoundProgress : Progress os → Type 0
  SoundProgress (running w) = Sound w
  SoundProgress (stopped w) = Sound w

  abbrev pub Goes : Option (Progress os) → Type 0
  Goes = OnSome SoundProgress

  on_watch-Goes :
      (w : World os) (p : ℕ) (f : Watch → Option (Progress os))
      → Sound w
      → ((u : Watch) → get_elem? w.heap p ≡ some u → IsWf u → Goes (f u))
      → Goes (get_elem? w.heap p >>= f)
  on_watch-Goes w p f s k =
      OnSome-bind (λ u. get_elem? w.heap p ≡ some u) SoundProgress (get_elem? w.heap p) f
        (OnSome-self (get_elem? w.heap p)) (λ u e. k u e (s.arrays p u e))

  onward-Goes :
      (x : Progress os) (f : World os → Option (Progress os))
      → SoundProgress x
      → ((v : World os) → Sound v → Goes (f v))
      → Goes
          (elim x as (λ y. Option (Progress os)) [ running v ↦ f v | stopped v ↦ some (stopped v) ])
  onward-Goes (running v) f s k = k v s
  onward-Goes (stopped v) f s k = s

  validate_root_paths-IsWf :
      (u : Watch) (sys : os.State) → IsWf u → IsWf (validate_root_paths os u sys).0
  unfolding validate_root_paths
  validate_root_paths-IsWf u sys h = elim (Bool-cases (os.allocate sys).0) [
    | inl ok ↦ rw ok (same_arrays u _ h refl refl refl)
    | inr bad ↦ rw bad (same_arrays u _ h refl refl refl)
  ]

  with_new_watch :
      (w : World os) (r : Request)
      → Sound w
      → Sound (record w { heap = w.heap ++ (new_watch r ∷ []) })
  with_new_watch w r s =
      append-Sound os w (new_watch r) s
        (record { wd_allocated = omega arith; paths_allocated = omega arith })

  cell_or_new :
      (w : World os) (r : Request) (cell : Option (Option ℕ))
      → Sound w
      → Sound
          (elim cell as (λ x. ℕ × World os) [
            | some (some p) ↦ (p, w)
            | _ ↦ (length w.heap, record w { heap = w.heap ++ (new_watch r ∷ []) })
          ]).1
  cell_or_new w r none s = with_new_watch w r s
  cell_or_new w r (some none) s = with_new_watch w r s
  cell_or_new w r (some (some p)) s = s

  slot_or_new :
      (w : World os) (r : Request) (slot : ℤ)
      → Sound w
      → Sound
          (elim slot as (λ x. ℕ × World os) [
            | pos i ↦ elim (get_elem? w.wlcache i) [
              | some (some p) ↦ (p, w)
              | _ ↦ (length w.heap, record w { heap = w.heap ++ (new_watch r ∷ []) })
            ]
            | _ ↦ (length w.heap, record w { heap = w.heap ++ (new_watch r ∷ []) })
          ]).1
  slot_or_new w r (pos i) s = cell_or_new w r (get_elem? w.wlcache i) s
  slot_or_new w r (negsuc i) s = with_new_watch w r s

  find_or_create-Sound :
      (w : World os) (r : Request) → Sound w → OnSome (λ x. Sound x.1) (find_or_create os w r)
  unfolding find_or_create
  find_or_create-Sound w r s =
      OnSome-bind (λ slot. Unit {0}) (λ x. Sound x.1) (find_cached_slot os w r.pid r.sid) _
        (OnSome-any (find_cached_slot os w r.pid r.sid)) (λ slot _. slot_or_new w r slot s)

  pub finish_watch-Sound : (w : World os) (p : ℕ) → Sound w → Keeps os (finish_watch os w p)
  unfolding finish_watch
  finish_watch-Sound w p s =
      with_watch os w p _ s (λ u at h. put-Sound os w p _ _ s (clear_watch-IsWf u h))

  finish_if_stopped-Sound :
      (x : Progress os) (p : ℕ) → SoundProgress x → Goes (finish_if_stopped os x p)
  finish_if_stopped-Sound (running w) p s = s
  finish_if_stopped-Sound (stopped w) p s =
      OnSome-bind (λ (v : World os). Sound v) SoundProgress (finish_watch os w p) _
        (finish_watch-Sound w p s) (λ v k. k)

  module _ (alloc : Allocates os) (walks : WalksByCalls os) where
    handle_event-Sound :
        (w : World os) (p : ℕ) (event : EpollEvent) → Sound w → Goes (handle_event os w p event)
    unfolding handle_event
    handle_event-Sound w p event s = on_watch-Goes w p _ s (λ u at h.
        elim (Bool-cases (
          has event.events epollerr
          || (has event.events epollhup || not (has event.events epollin)))) [
            | inl broken ↦ rw broken (sys-Sound os w _ s)
            | inr good ↦ elim (Bool-cases (int_eq event.data_fd u.fd)) [
              | inl inotify ↦
                  rw (good, inotify)
                    (OnSome-bind (λ (v : World os). Sound v) SoundProgress
                      (process_inotify_events os w p) _
                      (process_inotify_events-Sound os alloc walks w p s) (λ v k. k))
              | inr a ↦ elim (Bool-cases (int_eq event.data_fd u.processevtfd)) [
                | inr other ↦ rw (good, a, other) s
                | inl eventfd ↦
                    let r = os.read_value w.sys event.data_fd in
                    elim (Bool-cases (is_kill os r.0)) [
                      | inl kill ↦ rw (good, a, eventfd, kill) (sys-Sound os w r.1 s)
                      | inr go ↦ rw (good, a, eventfd, go) (sys-Sound os w r.1 s)
                    ]
              ]
            ]
          ])

    handle_events-Sound :
        (events : List EpollEvent) (w : World os) (p : ℕ)
        → Sound w
        → Goes (handle_events os events w p)
    unfolding handle_events
    handle_events-Sound [] w p s = s
    handle_events-Sound (event ∷ events) w p s =
        OnSome-bind SoundProgress SoundProgress (handle_event os w p event) _
          (handle_event-Sound w p event s)
          (λ x k. onward-Goes x _ k (λ v l. handle_events-Sound events v p l))

    after_wait-Sound :
        (o : Option (List EpollEvent)) (w : World os) (p : ℕ) → Sound w → Goes (after_wait os o w p)
    unfolding after_wait
    after_wait-Sound none w p s = elim (Bool-cases (os.errno w.sys == eintr)) [
      | inl again ↦ rw again s
      | inr failed ↦ rw failed s
    ]
    after_wait-Sound (some events) w p s = handle_events-Sound events _ p (sys-Sound os w _ s)

    pub wait_rounds-Sound :
        (n : ℕ) (buffer : Bool) (w : World os) (p : ℕ)
        → Sound w
        → Goes (wait_rounds os n buffer w p)
    unfolding wait_rounds wait_round
    wait_rounds-Sound zero buffer w p s = s
    wait_rounds-Sound (suc n) buffer w p s =
        OnSome-bind SoundProgress SoundProgress (wait_round os buffer w p) _
          (on_watch-Goes w p _ s (λ u at h. after_wait-Sound _ _ p (sys-Sound os w _ s)))
          (λ x k. onward-Goes x _ k (λ v l. wait_rounds-Sound n buffer v p l))

    prepare-Sound : (w : World os) (p : ℕ) (r : Request) → Sound w → Keeps os (prepare os w p r)
    unfolding prepare
    prepare-Sound w p r s = with_watch os w p _ s (λ u at h.
        let c = configure r u in
        let v = validate_root_paths os c w.sys in
        OnSome-bind (λ (x : World os). Sound x) (λ (x : World os). Sound x)
          (reinitialize os (put os w p v.0 v.1) p) _
          (reinitialize-Sound os alloc walks _ p (
            put-Sound os w p v.0 v.1 s
              (validate_root_paths-IsWf c w.sys (same_arrays u c h refl refl refl))))
          (λ x k. with_watch os x p _ k (λ y b l.
            elim (Bool-cases (int_eq y.fd eof || int_eq y.processevtfd eof)) [
              | inl failed ↦ rw failed tt
              | inr fine ↦ rw fine k
            ])))

    serve-Sound : (n : ℕ) (w : World os) (p : ℕ) → Sound w → Goes (serve os n w p)
    unfolding serve add_epoll_ctl_fds
    serve-Sound n w p s = on_watch-Goes w p _ s (λ u at h.
        let e = os.epoll_create (os.pthread_sigmask (os.allocate w.sys).1 true) in
        elim (Bool-cases (int_eq e.0 eof)) [
          | inl failed ↦ rw failed (
              finish_if_stopped-Sound (stopped _) p
                (put-Sound os w p _ e.1 s (same_arrays u _ h refl refl refl)))
          | inr fine ↦ rw fine (
              OnSome-bind SoundProgress SoundProgress (wait_rounds os n _ _ p) _
                (wait_rounds-Sound n _ _ p
                  (put-Sound os w p _ _ s (same_arrays u _ h refl refl refl)))
                (λ x k. finish_if_stopped-Sound x p k))
        ])

    pub start_inotify_watcher-Sound :
        (n : ℕ) (w : World os) (r : Request) → Sound w → Goes (start_inotify_watcher os n w r)
    unfolding start_inotify_watcher
    start_inotify_watcher-Sound n w r s =
        OnSome-bind (λ x. Sound x.1) SoundProgress (find_or_create os w r) _
          (find_or_create-Sound w r s)
          (λ x k.
            OnSome-bind (λ (v : World os). Sound v) SoundProgress (prepare os x.1 x.0 r) _
              (prepare-Sound x.1 x.0 r k) (λ v l. serve-Sound n v x.0 l))
