-- ===== src/Notify/Sound/Events.antt =====
-- Every branch of `process_next_inotify_event` and the loop over the buffer keep the world sound.
use argusd.Base.{
  ℕ, zero, suc, ◌+◌, ◌-◌, ◌≡◌, refl, ap, inl, inr, ℤ, pos, negsuc, eof, int_eq, is_slot, Bool-cases,
  ◌&&◌, Option, none, some, List, [], ◌∷◌, Text, get_elem?, get_elem?-lt, set, length, length-set,
  format_path, arith,
}
use argusd.Watch.{Watch, has, aw_recursive}
use argusd.Inotify.{Event}
use argusd.Os.{Os, Allocates, WalksByCalls}
use argusd.Cache.{find_watch, path_name_to_cache_slot}
use argusd.Cache.Arrays.{IsWf}
use argusd.Cache.Consistency.{check_cache_consistency-IsWf}
use argusd.Table.{World, mark_cache_slot_empty}
use argusd.Table.System.{OnSome-bind, OnSome-any}
use argusd.Tree.{
  path_max, find_root_path, remove_root_path, rewrite_paths, rewrite_cached_paths, watch_subtree,
}
use argusd.Tree.Follow.{find_root_stat, replace_root, replace_found, find_replace_root_path}
use argusd.Notify.Reinit.{put, send_watcher_kill_signal}
use argusd.Notify.Kept.{same_arrays}
use argusd.Notify.Event.{name_max, rebuild, directory_created, self_deleted, unmounted}
use argusd.Notify.Sound.{Sound, put-Sound, Keeps, with_watch, set_cell-Sound}
use argusd.Notify.Sound.Rebuild.{
  mark_cache_slot_empty-Sound, send_watcher_kill_signal-Sound, reinitialize-Sound,
}
use argusd.Notify.Sound.Walk.{watch_subtree-IsWf}

length-rewrite_paths :
    (n : ℕ) (old_dir new_dir : Text) (paths : List Text)
    → length (rewrite_paths n old_dir new_dir paths) ≡ length paths
unfolding rewrite_paths
length-rewrite_paths zero old_dir new_dir paths = refl
length-rewrite_paths (suc n) old_dir new_dir [] = refl
length-rewrite_paths (suc n) old_dir new_dir (path ∷ paths) =
    ap suc (length-rewrite_paths n old_dir new_dir paths)

pub rewrite_cached_paths-IsWf :
    (watch : Watch) (a b c d : Text) → IsWf watch → IsWf (rewrite_cached_paths watch a b c d)
unfolding rewrite_cached_paths
rewrite_cached_paths-IsWf watch a b c d h =
    same_arrays watch _ h refl refl (length-rewrite_paths watch.pathc _ _ watch.paths)

pub remove_root_path-IsWf :
    (watch : Watch) (path : Text) → IsWf watch → IsWf (remove_root_path watch path)
unfolding remove_root_path
remove_root_path-IsWf watch path h = go (find_root_path watch path)
  where
    go :
        (o : Option ℕ)
        → IsWf (elim o as (λ x. Watch) [
          | none ↦ watch
          | some p ↦ record watch {
            rootpaths = set watch.rootpaths p none;
            rootpathc = watch.rootpathc - 1;
          }
        ])
    go none = h
    go (some p) = same_arrays watch _ h refl refl refl

module _ (os : Os) where
  replace_root-Sound :
      (w : World os) (p : ℕ) (watch : Watch) (i : ℕ) (found : Text)
      → Sound w
      → IsWf watch
      → Keeps os (replace_root os w p watch i found)
  unfolding replace_root
  replace_root-Sound w p watch i [] s h = s
  replace_root-Sound w p watch i (c ∷ found) s h =
      put-Sound os w p _ (os.allocate w.sys).1 s (same_arrays watch _ h refl refl refl)

  replace_found-Sound :
      (w : World os) (p : ℕ) (watch : Watch) (i j : Option ℕ)
      → Sound w
      → IsWf watch
      → Keeps os (replace_found os w p watch i j)
  unfolding replace_found
  replace_found-Sound w p watch none j s h = s
  replace_found-Sound w p watch (some i) none s h = s
  replace_found-Sound w p watch (some i) (some j) s h =
      OnSome-bind (λ st. Unit {0}) (λ (x : World os). Sound x) (get_elem? watch.rootstat j) _
        (OnSome-any (get_elem? watch.rootstat j)) (λ st _. replace_root-Sound w p watch i _ s h)

  pub find_replace_root_path-Sound :
      (w : World os) (p : ℕ) (path : Text) → Sound w → Keeps os (find_replace_root_path os w p path)
  unfolding find_replace_root_path
  find_replace_root_path-Sound w p path s =
      with_watch os w p _ s
        (λ u at h. replace_found-Sound w p u (find_root_path u path) (find_root_stat u path) s h)

  pub self_deleted-Sound :
      (w : World os) (p : ℕ) (path : Text) → Sound w → Keeps os (self_deleted os w p path)
  unfolding self_deleted
  self_deleted-Sound w p path s = with_watch os w p _ s (λ u at h.
      put-Sound os w p _ w.sys s
        (check_cache_consistency-IsWf (os.lstat w.sys) _ (go u h (find_root_path u path))))
    where
      go :
          (u : Watch)
          → IsWf u
          → (o : Option ℕ)
          → IsWf (elim o as (λ x. Watch) [ none ↦ u | some _ ↦ remove_root_path u path ])
      go u h none = h
      go u h (some i) = remove_root_path-IsWf u path h

  pub unmounted-Sound : (w : World os) (p : ℕ) → Sound w → Keeps os (unmounted os w p)
  unfolding unmounted
  unmounted-Sound w p s = with_watch os w p _ s (λ u at h.
      OnSome-bind (λ (x : World os). Sound x) (λ (x : World os). Sound x)
        (send_watcher_kill_signal os w u.pid) _ (send_watcher_kill_signal-Sound os w u.pid s)
        (λ v k. with_watch os v p _ k (λ x a l. cell v k x.slot)))
    where
      cell :
          (v : World os)
          → Sound v
          → (slot : ℤ)
          → Keeps os (elim slot as (λ x. Option (World os)) [
            | pos slot ↦ mark_cache_slot_empty os v slot
            | negsuc _ ↦ none
          ])
      cell v k (pos i) = mark_cache_slot_empty-Sound os v i k
      cell v k (negsuc i) = tt

  module _ (alloc : Allocates os) (walks : WalksByCalls os) where
    pub rebuild-Sound : (w : World os) (p : ℕ) → Sound w → Keeps os (rebuild os w p)
    unfolding rebuild
    rebuild-Sound w p s = with_watch os w p _ s (λ u at h.
        reinitialize-Sound os alloc walks _ p
          (put-Sound os w p _ w.sys s (same_arrays u _ h refl refl refl)))

    pub directory_created-Sound :
        (w : World os) (p : ℕ) (event : Event) (path : Text)
        → Sound w
        → Keeps os (directory_created os w p event path)
    unfolding directory_created
    directory_created-Sound w p event path s = with_watch os w p _ s (λ u at h.
        let fullpath = format_path (path_max + name_max + 1) path event.name in
        let empty : Watch = record u { pathc = 0 } in
        elim (Bool-cases (
          int_eq (path_name_to_cache_slot u fullpath) eof
          && (is_slot (find_watch u event.wd) && has u.flags aw_recursive))) [
            | inr known ↦ rw known s
            | inl fresh ↦ rw fresh (
                OnSome-bind (λ r. IsWf r.0) (λ (x : World os). Sound x)
                  (watch_subtree os empty w.sys) _
                  (watch_subtree-IsWf os alloc walks empty w.sys
                    (record { wd_allocated = omega arith; paths_allocated = omega arith }))
                  (λ r k.
                    set_cell-Sound os (put os w p r.0 r.1) r.0.slot p (put-Sound os w p r.0 r.1 s k)
                      (omega (arith, length-set w.heap p r.0, get_elem?-lt w.heap p at))))
          ])
