-- ===== src/Notify/Sound/Moves.antt =====
-- The branches for directories that are moved, and for a full queue, keep the world sound.
use argusd.Base.{
  ℕ, ◌+◌, ◌*◌, ◌≡◌, inl, inr, ℤ, eof, int_eq, is_slot, Bool, Bool-cases, not, ◌&&◌, ◌||◌, Option,
  none, some, Text, get_elem?, ltb, ◌==◌, if◌then◌else◌, ◌>>=◌,
}
use argusd.Watch.{Watch, has, aw_follow}
use argusd.Inotify
use argusd.Inotify.{Event, Buffer}
use argusd.Os.{Os, Allocates, WalksByCalls}
use argusd.Cache.{find_watch_checked}
use argusd.Cache.Arrays.{IsWf}
use argusd.Table.{World}
use argusd.Table.System.{OnSome-bind}
use argusd.Tree.{remove_subtree}
use argusd.Tree.Follow.{find_replace_root_path}
use argusd.Notify.Reinit.{reinitialize}
use argusd.Notify.Event.{
  in_event_len, in_buffer_size, rebuild, moved_from, queue_overflow, root_moved,
}
use argusd.Notify.Sound.{Sound, OnSome-self, put-Sound, Keeps}
use argusd.Notify.Sound.Rebuild.{KeepsWith, remove_subtree-Sound, reinitialize-Sound}
use argusd.Notify.Sound.Events.{
  rewrite_cached_paths-IsWf, remove_root_path-IsWf, find_replace_root_path-Sound, rebuild-Sound,
}

module _ (os : Os) (alloc : Allocates os) (walks : WalksByCalls os) where
  -- The end of a branch: its result is a number with the world.
  with_number : (n : ℕ) (o : Option (World os)) → Keeps os o → KeepsWith os (o >>= λ w. some (n, w))
  with_number n none h = tt
  with_number n (some w) h = h

  pub with_number_at :
      (w : World os) (p : ℕ) (f : Watch → Option (ℕ × World os))
      → Sound w
      → ((u : Watch) → get_elem? w.heap p ≡ some u → IsWf u → KeepsWith os (f u))
      → KeepsWith os (get_elem? w.heap p >>= f)
  with_number_at w p f s k =
      OnSome-bind (λ u. get_elem? w.heap p ≡ some u) (λ r. Sound r.1) (get_elem? w.heap p) f
        (OnSome-self (get_elem? w.heap p)) (λ u e. k u e (s.arrays p u e))

  -- The end of a branch that removes a subtree.
  after_removal :
      (w : World os) (p : ℕ) (path : Text) (f : ℤ × World os → Option (ℕ × World os))
      → Sound w
      → ((r : ℤ) (v : World os) → Sound v → KeepsWith os (f (r, v)))
      → KeepsWith os (remove_subtree os w p path >>= f)
  after_removal w p path f s k =
      OnSome-bind (λ r. Sound r.1) (λ r. Sound r.1) (remove_subtree os w p path) f
        (remove_subtree-Sound os w p path s) (λ r l. k r.0 r.1 l)

  rebuilt :
      (w : World os) (p n : ℕ) → Sound w → KeepsWith os (reinitialize os w p >>= λ v. some (n, v))
  rebuilt w p n s = with_number n (reinitialize os w p) (reinitialize-Sound os alloc walks w p s)

  pub moved_from-Sound :
      (w : World os) (p : ℕ) (event : Event) (path : Text) (buf : Buffer) (off len : ℕ)
      (first : Bool)
      → Sound w
      → KeepsWith os (moved_from os w p event path buf off len first)
  unfolding moved_from
  moved_from-Sound w p event path buf off len first s =
      let evtlen = in_event_len + event.len in
      let next = buf (off + in_event_len * evtlen) in
      with_number_at w p _ s (λ u at h.
        elim (Bool-cases
          (ltb evtlen len && (has next.mask Inotify.moved_to && next.cookie == event.cookie))) [
            | inl pair ↦ elim (Bool-cases (int_eq (find_watch_checked u next.wd) eof)) [
              | inl lost ↦
                  rw (pair, lost)
                    (with_number in_buffer_size (rebuild os w p)
                      (rebuild-Sound os alloc walks w p s))
              | inr here ↦
                  rw (pair, here)
                    (put-Sound os w p _ w.sys s (rewrite_cached_paths-IsWf u _ _ _ _ h))
            ]
            | inr alone ↦ elim (Bool-cases (ltb evtlen len || not first)) [
              | inr hangs ↦ rw (alone, hangs) s
              | inl gone ↦ elim (Bool-cases (is_slot (find_watch_checked u event.wd))) [
                | inr unknown ↦ rw (alone, gone, unknown) s
                | inl known ↦
                    rw (alone, gone, known)
                      (after_removal w p _ _ s (λ r v k. elim (Bool-cases (int_eq r eof)) [
                        | inl failed ↦ rw failed (rebuilt v p in_buffer_size k)
                        | inr done ↦ rw done k
                      ]))
              ]
            ]
          ])

  pub queue_overflow-Sound :
      (w : World os) (p : ℕ) (event : Event) → Sound w → KeepsWith os (queue_overflow os w p event)
  unfolding queue_overflow
  queue_overflow-Sound w p event s = with_number_at w p _ s (λ u at h.
      with_number in_event_len
        (if is_slot (find_watch_checked u event.wd) then reinitialize os w p else some w)
        (elim (Bool-cases (is_slot (find_watch_checked u event.wd))) [
          | inl known ↦ rw known (reinitialize-Sound os alloc walks w p s)
          | inr unknown ↦ rw unknown s
        ]))

  pub root_moved-Sound :
      (w : World os) (p : ℕ) (event : Event) (path : Text)
      → Sound w
      → KeepsWith os (root_moved os w p event path)
  unfolding root_moved
  root_moved-Sound w p event path s = with_number_at w p _ s (λ u at h.
      elim (Bool-cases (has u.flags aw_follow)) [
        | inl follow ↦ rw follow (
            OnSome-bind (λ (v : World os). Sound v) (λ r. Sound r.1)
              (find_replace_root_path os w p path) _ (find_replace_root_path-Sound os w p path s)
              (λ v k. rebuilt v p (in_event_len + event.len) k))
        | inr leave ↦ rw leave (
            after_removal _ p path _ (put-Sound os w p _ w.sys s (remove_root_path-IsWf u path h))
              (λ r v k. elim (Bool-cases (int_eq r eof)) [
                | inr done ↦ rw done k
                | inl failed ↦ rw failed (
                    with_number_at v p _ k (λ x a l.
                      with_number in_buffer_size
                        (if is_slot (find_watch_checked x event.wd)
                          then reinitialize os v p
                          else some v)
                        (elim (Bool-cases (is_slot (find_watch_checked x event.wd))) [
                          | inl known ↦ rw known (reinitialize-Sound os alloc walks v p k)
                          | inr unknown ↦ rw unknown k
                        ])))
              ]))
      ])
