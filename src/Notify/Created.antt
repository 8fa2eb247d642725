-- ===== src/Notify/Created.antt =====
-- The branch of `process_next_inotify_event` for a new directory, which walks all roots again.
use argusd.Base.{
  ℕ, ◌+◌, ◌<◌, ◌≡◌, ◌≢◌, refl, sym, ap, subst, ◌∙◌, pos, eof, Bool, true, Option, some, Text,
  format_path, bit_or, ltb, get_elem?, get_elem?-lt, get_elem?-set_self, set, length, length-set,
  arith,
}
use argusd.Watch.{Watch, has, aw_recursive}
use argusd.Inotify
use argusd.Inotify.{Event, Buffer}
use argusd.Os.{Os, Allocates, WalksByCalls}
use argusd.Cache.{find_watch, find_watch_checked, wd_to_path_name, path_name_to_cache_slot}
use argusd.Cache.Arrays.{entries, IsWf}
use argusd.Cache.Lookup.{find_watch_cases}
use argusd.Table.{World, set_cell}
use argusd.Table.Slots.{IsTable, Valid-set}
use argusd.Tree.{path_max, watch_subtree}
use argusd.Tree.Roots.{roots}
use argusd.Tree.Walk.{NoNull, AllReal}
use argusd.Tree.Totality.{watch_subtree-Grows}
use argusd.Notify.Reinit.{put}
use argusd.Notify.Kept.{Kept, put-Kept}
use argusd.Notify.Event.{
  in_event_len, name_max, directory_created, dispatch, after_report, process_next_inotify_event,
}
use argusd.Notify.Logged.{logged, report-proceed}

module _ (os : Os) where
  set_cell_done :
      (w : World os) (i p : ℕ)
      → i < length w.wlcache
      → set_cell os w (pos i) p ≡ some (record w { wlcache = set w.wlcache i (some p) })
  unfolding set_cell
  set_cell_done w i p l =
      let inside : ltb i (length w.wlcache) ≡ true = ground arith in rw inside refl

  -- The watch of an event, as it is when the event is read.
  module _ (w : World os) (p : ℕ) (watch : Watch) (event : Event) where
    -- The result is that of a new walk over the roots from an empty cache.
    pub record Rescanned (i : ℕ) (r : Option (ℕ × World os)) : Type 0 where
      pub walked : Watch
      pub sys : os.State
      pub walk :
          watch_subtree os (record watch { pathc = 0 }) (logged os w watch event).sys
          ≡ some (walked, sys)
      pub after : World os
      pub returned : r ≡ some (in_event_len + event.len, after)
      pub kept : Kept os w p after
      pub same_watch : kept.watch' ≡ walked
      pub real : AllReal (entries walked)
      pub cell : get_elem? after.wlcache i ≡ some (some p)

  module _ (alloc : Allocates os) (walks : WalksByCalls os) where
    directory_created-scans :
        (v : World os) (p : ℕ) (watch : Watch) (event : Event) (path : Text) (i k : ℕ)
        → get_elem? v.heap p ≡ some watch
        → path_name_to_cache_slot watch (format_path (path_max + name_max + 1) path event.name)
          ≡ eof
        → find_watch watch event.wd ≡ pos k
        → has watch.flags aw_recursive ≡ true
        → (watch' : Watch) (sys' : os.State)
        → watch_subtree os (record watch { pathc = 0 }) v.sys ≡ some (watch', sys')
        → watch'.slot ≡ pos i
        → i < length v.wlcache
        → directory_created os v p event path
          ≡ some (record (put os v p watch' sys') { wlcache = set v.wlcache i (some p) })
    unfolding directory_created
    directory_created-scans v p watch event path i k at fresh known rec watch' sys' e slot l =
        rw (at, fresh, known, rec, e)
          (ap (λ s. set_cell os (put os v p watch' sys') s p) slot
            ∙ set_cell_done (put os v p watch' sys') i p l)

    dispatch-created :
        (v v' : World os) (p : ℕ) (event : Event) (path : Text) (buf : Buffer) (off len : ℕ)
        (first : Bool)
        → has event.mask Inotify.is_dir ≡ true
        → has event.mask (bit_or Inotify.create Inotify.moved_to) ≡ true
        → directory_created os v p event path ≡ some v'
        → dispatch os v p event (some path) buf off len first ≡ some (in_event_len + event.len, v')
    unfolding dispatch
    dispatch-created v v' p event path buf off len first dir create e = rw (dir, create, e) refl

    -- With memory, and a walk that works by its calls: on a registered watch of a valid table whose
    -- arrays hold `pathc` items and none of whose roots is NULL, and which watches recursively. An
    -- event that it asked for, of a directory that was created in or moved into a cached directory,
    -- and whose path is not cached, is logged and consumed. The cache becomes what a walk over all
    -- roots from an empty cache gives, each entry with a descriptor that is not -1; the cell of the
    -- watch still leads to it, the table stays valid, and no other watch changes.
    pub process_next_inotify_event-Rescanned :
        (w : World os) (p : ℕ) (watch : Watch) (i k : ℕ) (buf : Buffer) (off len : ℕ) (first : Bool)
        → IsTable w
        → get_elem? w.heap p ≡ some watch
        → IsWf watch
        → NoNull (roots watch)
        → watch.slot ≡ pos i
        → i < length w.wlcache
        → has watch.flags aw_recursive ≡ true
        → (buf off).wd ≢ eof
        → has (buf off).mask watch.event_mask ≡ true
        → has (buf off).mask Inotify.is_dir ≡ true
        → has (buf off).mask (bit_or Inotify.create Inotify.moved_to) ≡ true
        → find_watch watch (buf off).wd ≡ pos k
        → path_name_to_cache_slot watch (
            format_path
              (path_max + name_max + 1)
              (wd_to_path_name watch (buf off).wd)
              (buf off).name)
          ≡ eof
        → Rescanned w p watch (buf off) i (process_next_inotify_event os w p buf off len first)
    unfolding process_next_inotify_event after_report
    process_next_inotify_event-Rescanned w p watch i k buf off len first t at h n slot l rec ne
          asked dir create known fresh =
        let event = buf off in
        let path = wd_to_path_name watch event.wd in
        let v = logged os w watch event in
        let empty : Watch = record watch { pathc = 0 } in
        let g =
          watch_subtree-Grows os alloc walks empty v.sys
            (record { wd_allocated = omega arith; paths_allocated = omega arith }) n in
        let found : find_watch_checked watch event.wd ≢ eof =
          λ e. let c = sym known ∙ sym (find_watch_cases watch event.wd h).0 ∙ e in cc in
        let slot' : g.watch'.slot ≡ pos i = ap (λ (x : Watch). x.slot) g.appends.rest ∙ slot in
        let put_world = put os v p g.watch' g.sys' in
        let after : World os = record put_world { wlcache = set v.wlcache i (some p) } in
        let scanned =
          directory_created-scans v p watch event path i k at fresh known rec g.watch' g.sys'
            g.returned slot' l in
        let kept =
          put-Kept os v p g.watch' g.sys' (record { counted = t.counted; valid = t.valid })
            (get_elem?-lt w.heap p at) g.appends.wf in
        record {
          walked = g.watch';
          sys = g.sys';
          walk = g.returned;
          after = after;
          returned =
              rw (report-proceed os w p watch event at ne found asked)
                (dispatch-created v after p event path buf off len first dir create scanned);
          kept = record {
            watch' = g.watch';
            at = get_elem?-set_self w.heap p g.watch' (get_elem?-lt w.heap p at);
            wf = g.appends.wf;
            table = record {
              counted = t.counted ∙ sym (length-set w.wlcache i (some p));
              valid =
                  Valid-set (length put_world.heap) w.wlcache i p
                    (omega (arith, length-set w.heap p g.watch', get_elem?-lt w.heap p at))
                    kept.table.valid;
            };
            others = kept.others;
          };
          same_watch = refl;
          real = subst AllReal (sym g.appends.added) g.appends.real;
          cell = get_elem?-set_self w.wlcache i (some p) l;
        }
