-- ===== src/Service/Watchers.antt =====
-- src/argusd_impl.cc: the watchers of the daemon. The threads of a watcher are records that other
-- threads leave behind: a watcher that was started, and a cleanup thread that waits for it.
pub mod Kill
pub mod Loops
pub mod Stored
pub mod Find
pub mod Create
pub mod Destroy
pub mod Done
pub mod Calls
pub mod Stop
use argusd.Base.{
  ℕ, zero, suc, ◌+◌, ◌==◌, ℤ, pos, int_eq, Bool, true, false, not, ◌&&◌, Option, none, some, List,
  [], ◌∷◌, ◌++◌, length, Text, text, str_eq, if◌then◌else◌, ◌>>=◌,
}
use argusd.Os.{Os}
use argusd.Table.{World}
use argusd.Notify.Reinit.{send_watcher_kill_signal}
use argusd.Notify.Start.{Request}
use argusd.Service.Subject.{Subject, watcher_request}

-- `argus::ArgusdConfig` and `argus::ArgusdHandle`, generated messages.
pub record Config : Type 0 where
  pub name : Text
  pub node_name : Text
  pub pod_name : Text
  pub cids : List Text
  pub pids : List ℤ
  pub subjects : List Subject
  pub log_format : Text

pub record Handle : Type 0 where
  pub node_name : Text
  pub pod_name : Text
  pub pids : List ℤ

-- The library of the container runtimes, which is not part of this repository.
pub record Containers : Type 0 where
  pub find_container_runtime : Text → Text
  pub erase_substr : Text → Text → Text
  pub get_pid_for_container : Text → Text → ℤ

-- A cleanup thread with its own copy of `cnt`.
pub record Cleanup : Type 0 where
  pub pid : ℤ
  pub cnt : ℕ
  pub subject_len : ℕ

-- `ArgusdImpl`, the globals of the C library, and what was started. A `std::shared_ptr` is a number
-- with the handle that it points to; no handle is changed after it is stored.
pub record Service (os : Os) : Type 0 where
  pub watchers : List (ℕ × Handle)
  pub next_pointer : ℕ
  pub done_map : List (ℤ × Bool)
  pub started : List Request
  pub cleanups : List Cleanup
  -- Whether `kMetricsWriter` is set.
  pub metrics_writer : Bool
  pub world : World os

pub data Status : Type 0 where
  ok cancelled : Status

-- `doneMap_[pid] = done`
unfoldable pub set_done : ℤ → Bool → List (ℤ × Bool) → List (ℤ × Bool)
set_done pid done [] = (pid, done) ∷ []
set_done pid done ((p, old) ∷ rest) =
    let later = (p, old) ∷ set_done pid done rest in
    if int_eq p pid then (p, done) ∷ rest else later

-- `cleanContainerId`
unfoldable pub clean_container_id : Containers → Text → Text → Text
clean_container_id c container_id prefix = c.erase_substr container_id (prefix ++ text "://")

-- `getPidsFromRequest`
unfoldable pub get_pids : Containers → List Text → List ℤ
unfolding clean_container_id
get_pids c [] = []
get_pids c (cid ∷ cids) =
    let rest = get_pids c cids in
    let runtime = c.find_container_runtime cid in
    let pid = c.get_pid_for_container (clean_container_id c cid runtime) runtime in
    if int_eq pid (pos 0) then rest else pid ∷ rest

-- `std::find_if` for a pid.
unfoldable pub has_pid : List ℤ → ℤ → Bool
has_pid [] pid = false
has_pid (p ∷ pids) pid = let rest = has_pid pids pid in if int_eq p pid then true else rest

-- The loop over the pids of the request, which assigns `foundPid` in each round.
unfoldable pub found_pid : List ℤ → List ℤ → Bool → Bool
found_pid [] handle_pids found = found
found_pid (pid ∷ pids) handle_pids found = found_pid pids handle_pids (has_pid handle_pids pid)

-- `findArgusdWatcherByPids`
unfoldable pub find_argusd_watcher_by_pids : List (ℕ × Handle) → Text → List ℤ → Option (ℕ × Handle)
unfolding found_pid
find_argusd_watcher_by_pids [] node_name pids = none
find_argusd_watcher_by_pids ((pointer, handle) ∷ watchers) node_name pids =
    let rest = find_argusd_watcher_by_pids watchers node_name pids in
    if str_eq handle.node_name node_name && found_pid pids handle.pids false
    then some (pointer, handle)
    else rest

-- `watchers_.erase(remove(…, watcher), …)`
unfoldable pub erase_watcher : ℕ → List (ℕ × Handle) → List (ℕ × Handle)
erase_watcher pointer [] = []
erase_watcher pointer ((p, handle) ∷ watchers) =
    let rest = erase_watcher pointer watchers in if p == pointer then rest else (p, handle) ∷ rest

-- The response of `CreateWatch`.
abbrev pub response_of : Config → List ℤ → Handle
response_of request pids = record {
  node_name = request.node_name;
  pod_name = request.pod_name;
  pids = pids;
}

module _ (os : Os) where
  -- `sendKillSignalToWatcher`
  unfoldable pub send_kill_signals : List ℤ → World os → Option (World os)
  send_kill_signals [] w = some w
  send_kill_signals (pid ∷ pids) w = do
    w' ← send_watcher_kill_signal os w pid
    send_kill_signals pids w'

  unfoldable pub send_kill_signal_to_watcher : Handle → Service os → Option (Service os)
  unfolding send_kill_signals
  send_kill_signal_to_watcher handle s = do
    w ← send_kill_signals handle.pids s.world
    some (record s { world = w })

  -- `createInotifyWatcher`
  unfoldable pub create_inotify_watcher : Config → Subject → ℤ → ℕ → Service os → Service os
  create_inotify_watcher request subject pid sid s = record s {
    started =
        watcher_request request.name request.node_name request.pod_name subject pid (pos sid)
          request.log_format
        ∷ s.started;
    cleanups = record { pid = pid; cnt = 0; subject_len = length request.subjects } ∷ s.cleanups;
  }

  -- The inner loop of `CreateWatch`, from subject `i` on.
  unfoldable pub create_subjects : Config → List Subject → ℤ → ℕ → Service os → Service os
  unfolding create_inotify_watcher
  create_subjects request [] pid i s = s
  create_subjects request (subject ∷ subjects) pid i s =
      create_subjects request subjects pid (suc i) (create_inotify_watcher request subject pid i s)

  -- Its outer loop. The response gets the pids.
  unfoldable pub create_pids : Config → List ℤ → Service os → Service os
  unfolding create_subjects
  create_pids request [] s = s
  create_pids request (pid ∷ pids) s = create_pids request pids (
      create_subjects request request.subjects pid 0
        (record s { done_map = set_done pid false s.done_map }))

  -- The end of `CreateWatch` for a watcher that is not stored yet.
  unfoldable pub store_watcher : Handle → Service os → Service os
  store_watcher handle s = record s {
    watchers = s.watchers ++ ((s.next_pointer, handle) ∷ []);
    next_pointer = suc s.next_pointer;
  }

  -- `CreateWatch` with the watcher that was found. `wait` is what the other threads do until the
  -- condition variable or its two seconds let this one go on.
  unfoldable pub create_with :
      (Service os → Service os)
      → Config
      → List ℤ
      → Option (ℕ × Handle)
      → Service os
      → Option (Status × Service os)
  create_with wait request pids none s =
      some (ok, store_watcher (response_of request pids) (create_pids request pids s))
  create_with wait request pids (some (pointer, handle)) s =
      send_kill_signal_to_watcher handle s >>= λ s'. some (ok, create_pids request pids (wait s'))

  -- `CreateWatch` once the pids are known.
  unfoldable pub create_watch_for :
      (Service os → Service os) → Config → List ℤ → Service os → Option (Status × Service os)
  unfolding create_with
  create_watch_for wait request [] s = some (cancelled, s)
  create_watch_for wait request (pid ∷ pids) s =
      create_with wait request (pid ∷ pids)
        (find_argusd_watcher_by_pids s.watchers request.node_name (pid ∷ pids)) s

  -- `CreateWatch`
  unfoldable pub create_watch :
      Containers → (Service os → Service os) → Config → Service os → Option (Status × Service os)
  unfolding create_watch_for
  create_watch c wait request s = create_watch_for wait request (get_pids c request.cids) s

  -- `DestroyWatch` with the watcher that was found.
  unfoldable pub destroy_with : Option (ℕ × Handle) → Service os → Option (Service os)
  destroy_with none s = some s
  destroy_with (some (pointer, handle)) s = send_kill_signal_to_watcher handle s >>= λ s'.
      some (record s' { watchers = erase_watcher pointer s'.watchers })

  -- `DestroyWatch`, which always answers OK.
  unfoldable pub destroy_watch : Config → Service os → Option (Service os)
  unfolding destroy_with
  destroy_watch request s =
      destroy_with (find_argusd_watcher_by_pids s.watchers request.node_name request.pids) s

  -- What `GetWatchState` writes to the stream.
  unfoldable pub get_watch_state : List (ℕ × Handle) → List Handle
  get_watch_state [] = []
  get_watch_state ((pointer, handle) ∷ watchers) = handle ∷ get_watch_state watchers

  -- A cleanup thread whose watcher has ended, on its own copy of `cnt`.
  unfoldable pub finish_cleanup : Cleanup → Service os → Service os
  finish_cleanup t s =
      if suc t.cnt == t.subject_len
      then record s { done_map = set_done t.pid true s.done_map }
      else s

  -- `RecordMetrics` up to its wait, and what it waits for.
  unfoldable pub record_metrics : Service os → Service os
  record_metrics s = record s { metrics_writer = true }

  unfoldable pub metrics_done : Service os → Bool
  metrics_done s = not s.metrics_writer
