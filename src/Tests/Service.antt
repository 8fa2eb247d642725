-- ===== src/Tests/Service.antt =====
-- The service at concrete data.
use argusd.Base.{
  ◌≤◌, ◌<◌, ◌≡◌, refl, pos, true, false, some, List, [], ◌∷◌, ◌++◌, text, str_eq, length, arith,
}
use argusd.Inotify
use argusd.Watch.{has}
use argusd.Table.{find_slot_from, find_cached_slot}
use argusd.Base.{eof}
use argusd.Notify.NewWatcher.{InLoop, EpollOpens}
use argusd.Service.Subject.{
  Subject, event_names, root_path, get_event_mask_from_subject, add_event, watcher_request,
}
use argusd.Service.Masks.{get_event_mask_from_subject-le, get_event_mask_from_subject-asked}
use argusd.Service.Log.{labels, label_of, shown_path, strip_prefix, match_pid, match_root}
use argusd.Service.Labels.{label_of-asked}
use argusd.Service.Paths.{IsPlain, shown_path-root_path}
use argusd.Service.Health.{serving, not_serving, find_status, check}
use argusd.Service.Health.Refinement.{
  Command, set_one, set_every, clear_one, run, run_table, answer, check-run,
}
use argusd.Service.Watchers.{
  Config, Handle, Service, create_pids, destroy_watch, get_watch_state, find_argusd_watcher_by_pids,
  found_pid, has_pid, finish_cleanup,
}
use argusd.Service.Watchers.Create.{Steady, Created, create_watch_for-found}
use argusd.Service.Watchers.Destroy.{get_watch_state-destroy_watch}
use argusd.Service.Watchers.Done.{Reach, here, next, finish, find_done, create_pids-never_done}
use argusd.Service.Watchers.{Containers}
use argusd.Service.Watchers.Calls.{
  Call, create, destroy, metrics, Served, performs, performs-Served,
}
use argusd.Service.Starts.{start_inotify_watcher-watcher_request}
use argusd.Tests.{small, small-Allocates, small-WalksByCalls, world, world-IsTable}
use argusd.Tests.Start.{small-Opens}

-- A subject that asks for two kinds of events.
abbrev pub logs : Subject
logs = record {
  path = text "/var" ∷ [];
  ignore = [];
  tags = [];
  event = text "modify" ∷ text "create" ∷ [];
  only_dir = false;
  recursive = true;
  follow_move = false;
  max_depth = pos 0;
}

get_event_mask_from_subject-le_example : get_event_mask_from_subject logs ≤ Inotify.all_events
get_event_mask_from_subject-le_example = get_event_mask_from_subject-le logs

create_alone : has 256 (add_event event_names (text "create") 0) ≡ true
unfolding has add_event str_eq
create_alone = refl

get_event_mask_from_subject-asked_example : has 256 (get_event_mask_from_subject logs) ≡ true
get_event_mask_from_subject-asked_example =
    get_event_mask_from_subject-asked 256 logs (text "modify" ∷ []) [] (text "create") refl
      create_alone

named_create : 0 < length (label_of labels 256)
named_create = label_of-asked logs 256 get_event_mask_from_subject-asked_example

var-IsPlain : IsPlain (text "/var")
unfolding match_root match_pid strip_prefix
var-IsPlain = (refl, (refl, (refl, (refl, tt))))

shown_path-root_path_example : shown_path (root_path (pos 7) (text "/var")) ≡ text "/var"
shown_path-root_path_example = shown_path-root_path 7 (text "/var") var-IsPlain

abbrev commands : List Command
commands =
    set_one (text "a") serving
    ∷ set_every not_serving
    ∷ set_one (text "b") not_serving
    ∷ clear_one (text "b")
    ∷ []

check-run_example :
    check (text "a") (run commands ((text "b", serving) ∷ []))
    ≡ answer (run_table commands (find_status ((text "b", serving) ∷ []))) (text "a")
unfolding find_status
check-run_example = check-run commands ((text "b", serving) ∷ []) (text "a") (refl, tt)

abbrev pub config : Config
config = record {
  name = text "w";
  node_name = text "n";
  pod_name = text "p";
  cids = [];
  pids = pos 7 ∷ [];
  subjects = logs ∷ logs ∷ [];
  log_format = [];
}

abbrev older : Handle
older = record { node_name = text "n"; pod_name = text "q"; pids = pos 8 ∷ [] }

abbrev current : Handle
current = record { node_name = text "n"; pod_name = text "p"; pids = pos 7 ∷ [] }

-- Two watchers of one node.
abbrev daemon : Service small
daemon = record {
  watchers = (0, older) ∷ (1, current) ∷ [];
  next_pointer = 2;
  done_map = [];
  started = [];
  cleanups = [];
  metrics_writer = false;
  world = world;
}

no_others : Steady small (λ v. v)
no_others = record { same_watchers = λ v. refl; table = λ v t. t }

create_watch_for-found_example : Created small (λ v. v) config (pos 9 ∷ pos 7 ∷ []) daemon
create_watch_for-found_example =
    create_watch_for-found small (λ v. v) config (pos 9) (pos 7 ∷ []) daemon no_others world-IsTable

current_found :
    find_argusd_watcher_by_pids daemon.watchers (text "n") (pos 7 ∷ []) ≡ some (1, current)
unfolding find_argusd_watcher_by_pids found_pid has_pid str_eq
current_found = refl

get_watch_state-destroy_watch_example :
    (s' : Service small) × (destroy_watch small config daemon ≡ some s')
    × (get_watch_state small s'.watchers
        ≡ get_watch_state small ((0, older) ∷ []) ++ get_watch_state small [])
get_watch_state-destroy_watch_example =
    get_watch_state-destroy_watch small config daemon 1 current ((0, older) ∷ []) [] world-IsTable
      refl (omega arith, (refl, tt), (omega arith, tt, tt)) current_found

-- The state after the first cleanup thread of `config` has gone through.
abbrev after_one : Service small
after_one =
    finish_cleanup small (record { pid = pos 7; cnt = 0; subject_len = 2 })
      (create_pids small config (pos 7 ∷ []) daemon)

one_gone : Reach small (create_pids small config (pos 7 ∷ []) daemon) after_one
unfolding create_pids
one_gone = next here (finish 0 (record { pid = pos 7; cnt = 0; subject_len = 2 }) refl refl)

create_pids-never_done_example : find_done (pos 7) after_one.done_map ≡ some false
create_pids-never_done_example =
    create_pids-never_done small config [] [] (pos 7) daemon after_one (λ e. omega (arith, e)) refl
      one_gone

absent : find_cached_slot small world (pos 9) (pos 0) ≡ some eof
unfolding find_cached_slot find_slot_from
absent = refl

small-EpollOpens : EpollOpens small
small-EpollOpens s e = cc

start_inotify_watcher-watcher_request_example :
    InLoop small world (watcher_request (text "w") (text "n") (text "p") logs (pos 9) (pos 0) [])
start_inotify_watcher-watcher_request_example =
    start_inotify_watcher-watcher_request small small-Allocates small-WalksByCalls small-Opens
      small-EpollOpens world (text "w") (text "n") (text "p") logs (pos 9) (pos 0) [] world-IsTable
      absent

abbrev runtime : Containers
runtime = record {
  find_container_runtime = λ cid. text "docker";
  erase_substr = λ s part. s;
  get_pid_for_container = λ cid rt. pos 9;
}

-- A watcher is created, the metrics are asked for, and the older one is destroyed.
abbrev some_calls : List (Call small)
some_calls =
    create (λ v. v) (record config { cids = text "c" ∷ [] }) ∷ metrics ∷ destroy config ∷ []

performs-Served_example : Served small some_calls daemon (performs small runtime some_calls daemon)
performs-Served_example =
    performs-Served small runtime some_calls daemon
      (λ v h. record { well = h; open_stream = λ o. o }, (tt, (tt, tt)))
      (record { table = world-IsTable; stored = (omega arith, (refl, tt), (omega arith, tt, tt)) })
