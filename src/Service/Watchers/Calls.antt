-- ===== src/Service/Watchers/Calls.antt =====
-- The calls of the service, in every order.
use mathlib.Core.Bool.{true≢false}
use argusd.Base.{
  Bool, true, map, ◌&&◌, ℕ, suc, ◌≡◌, refl, sym, ap, subst, ◌∙◌, inl, inr, ◌==◌, ℤ, false, not,
  Bool-cases, Option, none, some, List, [], ◌∷◌, ◌>>=◌,
}
use argusd.Os.{Os}
use argusd.Table.Slots.{IsTable}
use argusd.Service.Watchers.{
  Config, Handle, Containers, Cleanup, Service, create_with, create_watch_for, create_watch,
  destroy_with, destroy_watch, erase_watcher, create_pids, store_watcher, response_of,
  finish_cleanup, record_metrics, metrics_done, send_kill_signal_to_watcher,
}
use argusd.Service.Watchers.Kill.{send_kill_signal_to_watcher-total}
use argusd.Service.Watchers.Loops.{create_pids-OnlyStarts}
use argusd.Service.Watchers.Stored.{Stored, Stored-append, Stored-erase_watcher}

-- The calls that change the state. `create` has what the other threads do while it waits.
pub data Call (os : Os) : Type 0 where
  create : (Service os → Service os) → Config → Call os
  destroy : Config → Call os
  cleaned : Cleanup → Call os
  metrics : Call os

module _ (os : Os) where
  pub record WellFormed (s : Service os) : Type 0 where
    pub table : IsTable s.world
    pub stored : Stored s.next_pointer s.watchers

  -- From `s` to `s'`, with the metrics stream kept open.
  pub record Keeps (s s' : Service os) : Type 0 where
    pub well : WellFormed s'
    pub open_stream : metrics_done os s ≡ false → metrics_done os s' ≡ false

  -- The other threads keep the invariant too.
  abbrev pub Rely : Call os → Type 0
  Rely (create wait request) = (v : Service os) → WellFormed v → Keeps v (wait v)
  Rely (destroy request) = Unit {0}
  Rely (cleaned t) = Unit {0}
  Rely metrics = Unit {0}

  abbrev pub AllRely : List (Call os) → Type 0
  AllRely [] = Unit {0}
  AllRely (call ∷ calls) = Rely call × AllRely calls

  -- The call has returned.
  abbrev replied : Option (Service os) → Option (Bool × Service os)
  replied none = none
  replied (some s) = some (true, s)

  -- What a call does to the state, and whether it has returned by then. `RecordMetrics` has only if
  -- the condition that it waits for holds at once.
  unfoldable pub perform : Containers → Call os → Service os → Option (Bool × Service os)
  perform c (create wait request) s = replied (create_watch os c wait request s >>= λ r. some r.1)
  perform c (destroy request) s = replied (destroy_watch os request s)
  perform c (cleaned t) s = some (true, finish_cleanup os t s)
  perform c metrics s = let s' = record_metrics os s in some (metrics_done os s', s')

  -- One call after the other, also where one has not returned: each has a thread of its own.
  unfoldable pub performs :
      Containers → List (Call os) → Service os → Option (List Bool × Service os)
  unfolding perform
  performs c [] s = some ([], s)
  performs c (call ∷ calls) s = do
    (b, s') ← perform c call s
    (bs, s'') ← performs c calls s'
    some (b ∷ bs, s'')

  -- Every call but `RecordMetrics` returns.
  abbrev pub returns : Call os → Bool
  returns (create wait request) = true
  returns (destroy request) = true
  returns (cleaned t) = true
  returns metrics = false

  abbrev pub all_return : List (Call os) → Bool
  all_return [] = true
  all_return (call ∷ calls) = returns call && all_return calls

  create_pids-Keeps :
      (request : Config) (pids : List ℤ) (s : Service os)
      → WellFormed s
      → Keeps s (create_pids os request pids s)
  unfolding metrics_done
  create_pids-Keeps request pids s h =
      let c = create_pids-OnlyStarts os request pids s in
      record {
        well = record {
          table = subst IsTable (sym c.same_world) h.table;
          stored =
              subst (λ n. Stored n (create_pids os request pids s).watchers) (sym c.same_pointer)
                (subst (Stored s.next_pointer) (sym c.same_watchers) h.stored);
        };
        open_stream = λ o. ap not c.same_writer ∙ o;
      }

  Keeps-trans : (s v u : Service os) → Keeps s v → Keeps v u → Keeps s u
  Keeps-trans s v u h k = record {
    well = k.well;
    open_stream = λ o. k.open_stream (h.open_stream o);
  }

  store_watcher-Keeps :
      (handle : Handle) (s : Service os) → WellFormed s → Keeps s (store_watcher os handle s)
  unfolding store_watcher metrics_done
  store_watcher-Keeps handle s h = record {
    well = record {
      table = h.table;
      stored = Stored-append s.next_pointer handle s.watchers h.stored;
    };
    open_stream = λ o. o;
  }

  kill-Keeps :
      (handle : Handle) (s : Service os)
      → WellFormed s
      → (s' : Service os) × (send_kill_signal_to_watcher os handle s ≡ some s') × Keeps s s'
  unfolding metrics_done
  kill-Keeps handle s h =
      let (w, e, t) = send_kill_signal_to_watcher-total os handle s h.table in
      (
        record s { world = w },
        e,
        record { well = record { table = t; stored = h.stored }; open_stream = λ o. o },
      )

  -- The operation returns, and keeps the invariant.
  abbrev pub Answers : Service os → Option (Service os) → Type 0
  Answers s r = (s' : Service os) × (r ≡ some s') × Keeps s s'

  create_with-Answers :
      (wait : Service os → Service os) (request : Config) (pids : List ℤ)
      (found : Option (ℕ × Handle)) (s : Service os)
      → Rely (create wait request)
      → WellFormed s
      → Answers s (create_with os wait request pids found s >>= λ r. some r.1)
  unfolding create_with
  create_with-Answers wait request pids none s rely h =
      let k = create_pids-Keeps request pids s h in
      (_, refl, Keeps-trans _ _ _ k (store_watcher-Keeps (response_of request pids) _ k.well))
  create_with-Answers wait request pids (some (pointer, handle)) s rely h =
      let (v, e, k) = kill-Keeps handle s h in
      let l = rely v k.well in
      (
        create_pids os request pids (wait v),
        rw e refl,
        Keeps-trans _ _ _ k (Keeps-trans _ _ _ l (create_pids-Keeps request pids (wait v) l.well)),
      )

  create_watch_for-Answers :
      (wait : Service os → Service os) (request : Config) (pids : List ℤ) (s : Service os)
      → Rely (create wait request)
      → WellFormed s
      → Answers s (create_watch_for os wait request pids s >>= λ r. some r.1)
  unfolding create_watch_for
  create_watch_for-Answers wait request [] s rely h =
      (s, refl, record { well = h; open_stream = λ o. o })
  create_watch_for-Answers wait request (pid ∷ pids) s rely h =
      create_with-Answers wait request (pid ∷ pids) _ s rely h

  destroy_with-Answers :
      (found : Option (ℕ × Handle)) (s : Service os)
      → WellFormed s
      → Answers s (destroy_with os found s)
  unfolding destroy_with metrics_done
  destroy_with-Answers none s h = (s, refl, record { well = h; open_stream = λ o. o })
  destroy_with-Answers (some (pointer, handle)) s h =
      let (v, e, k) = kill-Keeps handle s h in
      (
        record v { watchers = erase_watcher pointer v.watchers },
        rw e refl,
        record {
          well = record {
            table = k.well.table;
            stored = Stored-erase_watcher v.next_pointer pointer v.watchers k.well.stored;
          };
          open_stream = k.open_stream;
        },
      )

  finish_cleanup-Keeps :
      (t : Cleanup) (s : Service os) → WellFormed s → Keeps s (finish_cleanup os t s)
  unfolding finish_cleanup metrics_done
  finish_cleanup-Keeps t s h = elim (Bool-cases (suc t.cnt == t.subject_len)) [
    | inl e ↦
        rw e (record { well = record { table = h.table; stored = h.stored }; open_stream = λ o. o })
    | inr e ↦ rw e (record { well = h; open_stream = λ o. o })
  ]

  -- The state after the calls, and which have returned.
  pub record Served (calls : List (Call os)) (s : Service os) (r : Option (List Bool × Service os))
      : Type 0 where
    pub after : Service os
    pub replies : r ≡ some (map returns calls, after)
    pub keeps : Keeps s after
    pub waiting : all_return calls ≡ false → metrics_done os after ≡ false

  -- The same for one call.
  abbrev Replies : Call os → Service os → Option (Bool × Service os) → Type 0
  Replies call s r =
      (s' : Service os) × (r ≡ some (returns call, s'))
      × Keeps s s'
      × (returns call ≡ false → metrics_done os s' ≡ false)

  returned-Replies :
      (s : Service os) (o : Option (Service os))
      → Answers s o
      → (s' : Service os) × (replied o ≡ some (true, s'))
        × Keeps s s'
        × (true ≡ false → metrics_done os s' ≡ false)
  returned-Replies s o (s', e, k) = (s', rw e refl, k, λ q. absurd (true≢false q))

  perform-Replies :
      (c : Containers) (call : Call os) (s : Service os)
      → Rely call
      → WellFormed s
      → Replies call s (perform c call s)
  unfolding perform create_watch destroy_watch record_metrics metrics_done
  perform-Replies c (create wait request) s rely h =
      returned-Replies s _ (create_watch_for-Answers wait request _ s rely h)
  perform-Replies c (destroy request) s rely h = returned-Replies s _ (destroy_with-Answers _ s h)
  perform-Replies c (cleaned t) s rely h =
      returned-Replies s (some (finish_cleanup os t s)) (_, refl, finish_cleanup-Keeps t s h)
  perform-Replies c metrics s rely h = (
    record s { metrics_writer = true },
    refl,
    record { well = record { table = h.table; stored = h.stored }; open_stream = λ o. refl },
    λ q. refl,
  )

  -- From a state whose table is valid and whose watchers are stored once each, in any sequence of
  -- calls, whatever a `CreateWatch` finds done by the other threads while it waits, as long as these
  -- keep it so too and clear no metrics writer: every call returns but `RecordMetrics`, of which none
  -- does. If there was one, the condition that it waits for is still false after all of them. The
  -- state is one of this kind again.
  pub performs-Served :
      (c : Containers) (calls : List (Call os)) (s : Service os)
      → AllRely calls
      → WellFormed s
      → Served calls s (performs c calls s)
  unfolding performs
  performs-Served c [] s rely h = record {
    after = s;
    replies = refl;
    keeps = record { well = h; open_stream = λ o. o };
    waiting = λ q. absurd (true≢false q);
  }
  performs-Served c (call ∷ calls) s rely h =
      let (v, e, k, w) = perform-Replies c call s rely.0 h in
      let g = performs-Served c calls v rely.1 k.well in
      record {
        after = g.after;
        replies = rw (e, g.replies) refl;
        keeps = Keeps-trans s v g.after k g.keeps;
        waiting = λ q. elim (Bool-cases (returns call)) [
          | inr waits ↦ g.keeps.open_stream (w waits)
          | inl done ↦ g.waiting (sym (ap (λ b. b && all_return calls) done) ∙ q)
        ];
      }
