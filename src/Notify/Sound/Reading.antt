-- ===== src/Notify/Sound/Reading.antt =====
-- Every event that lib/argusnotify.c reads, and the loop over the buffer, keep the world sound.
use argusd.Base.{
  ℕ, zero, suc, ◌+◌, ◌≡◌, inl, inr, eof, int_eq, Bool, true, Bool-cases, not, ◌&&◌, ◌||◌, Option,
  none, some, Text, get_elem?, ltb, ◌==◌, bit_and, bit_or,
}
use argusd.Watch.{has}
use argusd.Inotify
use argusd.Inotify.{Event, Buffer}
use argusd.Os.{Os, Allocates, WalksByCalls}
use argusd.Cache.{find_watch_checked}
use argusd.Table.{World}
use argusd.Table.System.{OnSome, OnSome-bind}
use argusd.Tree.{find_root_path}
use argusd.Notify.Event.{
  in_buffer_size, size_max, Report, discard, proceed, rebuild, report, root_moved, consume,
  with_path, dispatch, after_report, process_next_inotify_event, moved_dir,
}
use argusd.Notify.Sound.{Sound, OnSome-self, sys-Sound, Keeps, with_watch}
use argusd.Notify.Sound.Rebuild.{KeepsWith}
use argusd.Notify.Loop.{
  eintr, after_second_read, read_more, process_buffer, after_read, process_inotify_events,
}
use argusd.Notify.Sound.Events.{
  self_deleted-Sound, unmounted-Sound, rebuild-Sound, directory_created-Sound,
}
use argusd.Notify.Sound.Moves.{
  with_number_at, moved_from-Sound, queue_overflow-Sound, root_moved-Sound,
}

module _ (os : Os) (alloc : Allocates os) (walks : WalksByCalls os) where
  consume-Sound :
      (event : Event) (o : Option (World os)) → Keeps os o → KeepsWith os (consume os event o)
  consume-Sound event none h = tt
  consume-Sound event (some w) h = h

  with_path-Sound :
      (path : Option Text) (f : Text → Option (ℕ × World os))
      → ((q : Text) → KeepsWith os (f q))
      → KeepsWith os (with_path os path f)
  with_path-Sound none f k = tt
  with_path-Sound (some q) f k = k q

  root_or_skip :
      (w : World os) (p : ℕ) (event : Event) (q : Text) (o : Option ℕ)
      → Sound w
      → KeepsWith os (elim o as (λ x. Option (ℕ × World os)) [
        | none ↦ consume os event (some w)
        | some _ ↦ root_moved os w p event q
      ])
  root_or_skip w p event q none s = s
  root_or_skip w p event q (some i) s = root_moved-Sound os alloc walks w p event q s

  dispatch-Sound :
      (w : World os) (p : ℕ) (event : Event) (path : Option Text) (buf : Buffer) (off len : ℕ)
      (first : Bool)
      → Sound w
      → KeepsWith os (dispatch os w p event path buf off len first)
  unfolding dispatch
  dispatch-Sound w p event path buf off len first s =
      elim (Bool-cases (
        has event.mask Inotify.is_dir && has event.mask (bit_or Inotify.create Inotify.moved_to))) [
          | inl created ↦ rw (created) (
              with_path-Sound path _
                (λ q. consume-Sound event _ (directory_created-Sound os alloc walks w p event q s)))
          | inr no1 ↦ elim (Bool-cases (has event.mask Inotify.delete_self)) [
            | inl deleted ↦
                rw (no1, deleted)
                  (with_path-Sound path _
                    (λ q. consume-Sound event _ (self_deleted-Sound os w p q s)))
            | inr no2 ↦ elim (Bool-cases (bit_and event.mask (moved_dir os) == moved_dir os)) [
              | inl moved ↦
                  rw (no1, no2, moved)
                    (with_path-Sound path _
                      (λ q. moved_from-Sound os alloc walks w p event q buf off len first s))
              | inr no3 ↦ elim (Bool-cases (has event.mask Inotify.q_overflow)) [
                | inl full ↦
                    rw (no1, no2, no3, full) (queue_overflow-Sound os alloc walks w p event s)
                | inr no4 ↦ elim (Bool-cases (has event.mask Inotify.unmount)) [
                  | inl gone ↦
                      rw (no1, no2, no3, no4, gone)
                        (consume-Sound event _ (unmounted-Sound os w p s))
                  | inr no5 ↦ elim (Bool-cases (has event.mask Inotify.move_self)) [
                    | inl self ↦
                        rw (no1, no2, no3, no4, no5, self)
                          (with_path-Sound path _ (λ q.
                            with_number_at os alloc walks w p _ s
                              (λ u at h. root_or_skip w p event q (find_root_path u q) s)))
                    | inr no6 ↦ rw (no1, no2, no3, no4, no5, no6) s
                  ]
                ]
              ]
            ]
          ]
        ]

  -- The world that the part before the branches leaves.
  abbrev ReportSound : Report os → Type 0
  ReportSound (discard w) = Sound w
  ReportSound (proceed w path) = Sound w

  report-Sound :
      (w : World os) (p : ℕ) (event : Event) → Sound w → OnSome ReportSound (report os w p event)
  unfolding report
  report-Sound w p event s =
      OnSome-bind (λ u. get_elem? w.heap p ≡ some u) ReportSound (get_elem? w.heap p) _
        (OnSome-self (get_elem? w.heap p))
        (λ u e. elim (Bool-cases (int_eq event.wd eof)) [
          | inl none_ ↦ rw none_ s
          | inr some_ ↦
              elim (Bool-cases
                (int_eq (find_watch_checked u event.wd) eof || not (has event.mask u.event_mask))) [
                  | inl lost ↦ rw (some_, lost) s
                  | inr kept ↦
                      elim (Bool-cases (
                        not (has event.mask Inotify.ignored)
                        && int_eq (find_watch_checked u event.wd) eof)) [
                          | inr known ↦ rw (some_, kept, known) (sys-Sound os w _ s)
                          | inl gone ↦
                              rw (some_, kept, gone)
                                (OnSome-bind (λ (v : World os). Sound v) ReportSound
                                  (rebuild os _ p) _
                                  (rebuild-Sound os alloc walks _ p (sys-Sound os w _ s))
                                  (λ v k. k))
                        ]
                ]
        ])

  after_report-Sound :
      (p : ℕ) (buf : Buffer) (off len : ℕ) (first : Bool) (r : Report os)
      → ReportSound r
      → KeepsWith os (after_report os p buf off len first r)
  unfolding after_report
  after_report-Sound p buf off len first (discard w) s = s
  after_report-Sound p buf off len first (proceed w path) s =
      dispatch-Sound w p (buf off) path buf off len first s

  process_next_inotify_event-Sound :
      (w : World os) (p : ℕ) (buf : Buffer) (off len : ℕ) (first : Bool)
      → Sound w
      → KeepsWith os (process_next_inotify_event os w p buf off len first)
  unfolding process_next_inotify_event
  process_next_inotify_event-Sound w p buf off len first s =
      OnSome-bind ReportSound (λ r. Sound r.1) (report os w p (buf off)) _
        (report-Sound w p (buf off) s) (λ r k. after_report-Sound p buf off len first r k)

  after_second_read-Sound :
      (o : Option (ℕ × Buffer)) (errno : ℕ) (w : World os)
      → Sound w
      → Keeps os (after_second_read os o errno w)
  unfolding after_second_read
  after_second_read-Sound none errno w s = elim (Bool-cases (errno == eintr)) [
    | inl again ↦ rw again tt
    | inr failed ↦ rw failed s
  ]
  after_second_read-Sound (some (n, buf)) errno w s = elim (Bool-cases (n == 0)) [
    | inl empty ↦ rw empty s
    | inr more ↦ rw more tt
  ]

  process_buffer-Sound :
      (fuel : ℕ) (w : World os) (p : ℕ) (buf : Buffer) (off len : ℕ) (first : Bool)
      → Sound w
      → Keeps os (process_buffer os fuel w p buf off len first)
  unfolding process_buffer read_more
  process_buffer-Sound zero w p buf off len first s = elim (Bool-cases (ltb off len)) [
    | inl left_ ↦ rw left_ tt
    | inr past ↦ rw past s
  ]
  process_buffer-Sound (suc fuel) w p buf off len first s = elim (Bool-cases (ltb off len)) [
    | inr past ↦ rw past s
    | inl left_ ↦ rw left_ (
        OnSome-bind (λ r. Sound r.1) (λ (v : World os). Sound v)
          (process_next_inotify_event os w p buf off _ first) _
          (process_next_inotify_event-Sound w p buf off _ first s)
          (λ (n, v) k. elim (Bool-cases (n == size_max)) [
            | inr next ↦ rw next (process_buffer-Sound fuel v p buf (off + n) len (ltb 0 n) k)
            | inl hangs ↦ rw hangs (
                with_watch os v p _ k
                  (λ u at h. after_second_read-Sound _ _ _ (sys-Sound os v _ k)))
          ]))
  ]

  after_read-Sound :
      (o : Option (ℕ × Buffer)) (w : World os) (p : ℕ) → Sound w → Keeps os (after_read os o w p)
  unfolding after_read
  after_read-Sound none w p s = s
  after_read-Sound (some (n, buf)) w p s = process_buffer-Sound n w p buf 0 n true s

  pub process_inotify_events-Sound :
      (w : World os) (p : ℕ) → Sound w → Keeps os (process_inotify_events os w p)
  unfolding process_inotify_events
  process_inotify_events-Sound w p s = with_watch os w p _ s (λ u at h.
      elim (Bool-cases (int_eq (os.sigaction w.sys).0 eof)) [
        | inl failed ↦ rw failed (sys-Sound os w _ s)
        | inr set_ ↦ rw set_ (
            after_read-Sound (os.read (os.sigaction w.sys).1 u.fd in_buffer_size).0 _ p
              (sys-Sound os w _ s))
      ])
