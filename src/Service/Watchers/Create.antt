-- ===== src/Service/Watchers/Create.antt =====
-- `CreateWatch`: the watcher that it leaves for its node and pids.

use argusd.Base.{
  ℕ, ◌≡◌, ◌⊎◌, refl, sym, ap, subst, ◌∙◌, inl, inr, ℤ, Option-cases, none, some, List, [], ◌∷◌,
  ◌++◌,
}
use argusd.Os.{Os}
use argusd.Service.Watchers.{
  Config, Handle, Service, ok, create_with, find_argusd_watcher_by_pids, create_watch_for,
  create_pids, store_watcher, response_of,
}
use argusd.Table.Slots.{IsTable}
use argusd.Service.Watchers.Kill.{send_kill_signal_to_watcher-total}
use argusd.Service.Watchers.Find.{find-append_own}
use argusd.Service.Watchers.Loops.{create_pids-OnlyStarts}

module _ (os : Os) where
  -- The other threads store and erase no watcher meanwhile, and leave a valid table.
  pub record Steady (wait : Service os → Service os) : Type 0 where
    pub same_watchers : (v : Service os) → (wait v).watchers ≡ v.watchers
    pub table : (v : Service os) → IsTable v.world → IsTable (wait v).world

  -- What `CreateWatch` answers with a watcher that was found.
  record Renewed (wait : Service os → Service os) (request : Config) (pids : List ℤ)
      (watcher : ℕ × Handle) (s : Service os) : Type 0 where
    after : Service os
    done : create_with os wait request pids (some watcher) s ≡ some (ok, after)
    watchers : after.watchers ≡ s.watchers
    table : IsTable after.world

  create_with-found :
      (wait : Service os → Service os) (request : Config) (pids : List ℤ) (watcher : ℕ × Handle)
      (s : Service os)
      → Steady wait
      → IsTable s.world
      → Renewed wait request pids watcher s
  unfolding create_with
  create_with-found wait request pids (pointer, handle) s steady t =
      let (w, e, t') = send_kill_signal_to_watcher-total os handle s t in
      let v : Service os = record s { world = w } in
      record {
        after = create_pids os request pids (wait v);
        done = rw e;
        watchers =
            (create_pids-OnlyStarts os request pids (wait v)).same_watchers
            ∙ steady.same_watchers v;
        table =
            subst IsTable (sym ((create_pids-OnlyStarts os request pids (wait v)).same_world))
              (steady.table v t');
      }

  -- What `CreateWatch` answers with a new watcher.
  record Stored (wait : Service os → Service os) (request : Config) (pids : List ℤ) (s : Service os)
      : Type 0 where
    after : Service os
    pointer : ℕ
    done : create_with os wait request pids none s ≡ some (ok, after)
    watchers : after.watchers ≡ s.watchers ++ ((pointer, response_of request pids) ∷ [])
    table : IsTable after.world

  create_with-new :
      (wait : Service os → Service os) (request : Config) (pids : List ℤ) (s : Service os)
      → IsTable s.world
      → Stored wait request pids s
  unfolding create_with store_watcher
  create_with-new wait request pids s t =
      let v = create_pids os request pids s in
      record {
        after = store_watcher os (response_of request pids) v;
        pointer = v.next_pointer;
        done = refl;
        watchers =
            ap (λ ws. ws ++ ((v.next_pointer, response_of request pids) ∷ []))
              (create_pids-OnlyStarts os request pids s).same_watchers;
        table = subst IsTable (sym ((create_pids-OnlyStarts os request pids s).same_world)) t;
      }

  -- What `CreateWatch` leaves for the node and the pids of the request.
  pub record Created (wait : Service os → Service os) (request : Config) (pids : List ℤ)
      (s : Service os) : Type 0 where
    pub after : Service os
    pub done : create_watch_for os wait request pids s ≡ some (ok, after)
    pub watcher : ℕ × Handle
    pub found : find_argusd_watcher_by_pids after.watchers request.node_name pids ≡ some watcher
    pub stored : (after.watchers ≡ s.watchers) ⊎ (after.watchers ≡ s.watchers ++ (watcher ∷ []))
    pub again : Service os
    pub done_again : create_watch_for os wait request pids after ≡ some (ok, again)
    pub same_again : again.watchers ≡ after.watchers

  -- On a valid table, `CreateWatch` answers a request that has a pid with OK, and leaves a watcher
  -- that the same node and pids find. It stores one if there was none, and none otherwise; the same
  -- request, made again, is answered with OK and stores none. The other threads may do anything
  -- meanwhile but store or erase a watcher or spoil the table.
  pub create_watch_for-found :
      (wait : Service os → Service os) (request : Config) (pid : ℤ) (pids : List ℤ) (s : Service os)
      → Steady wait
      → IsTable s.world
      → Created wait request (pid ∷ pids) s
  unfolding create_watch_for
  create_watch_for-found wait request pid pids s steady t =
      let node = request.node_name in
      let own = response_of request (pid ∷ pids) in
      elim (Option-cases (find_argusd_watcher_by_pids s.watchers node (pid ∷ pids))) [
        | inl absent ↦
            let r = create_with-new wait request (pid ∷ pids) s t in
            let found : find_argusd_watcher_by_pids r.after.watchers node (pid ∷ pids)
                ≡ some (r.pointer, own) =
              ap (λ ws. find_argusd_watcher_by_pids ws node (pid ∷ pids)) r.watchers
              ∙ find-append_own s.watchers r.pointer request pid pids absent in
            let a =
              create_with-found wait request (pid ∷ pids) (r.pointer, own) r.after steady r.table in
            record {
              after = r.after;
              done = ap (λ o. create_with os wait request (pid ∷ pids) o s) absent ∙ r.done;
              watcher = (r.pointer, own);
              found = found;
              stored = inr r.watchers;
              again = a.after;
              done_again =
                  ap (λ o. create_with os wait request (pid ∷ pids) o r.after) found ∙ a.done;
              same_again = a.watchers;
            }
        | inr (watcher, present) ↦
            let r = create_with-found wait request (pid ∷ pids) watcher s steady t in
            let found =
              ap (λ ws. find_argusd_watcher_by_pids ws node (pid ∷ pids)) r.watchers ∙ present in
            let a = create_with-found wait request (pid ∷ pids) watcher r.after steady r.table in
            record {
              after = r.after;
              done = ap (λ o. create_with os wait request (pid ∷ pids) o s) present ∙ r.done;
              watcher = watcher;
              found = found;
              stored = inl r.watchers;
              again = a.after;
              done_again =
                  ap (λ o. create_with os wait request (pid ∷ pids) o r.after) found ∙ a.done;
              same_again = a.watchers;
            }
      ]
