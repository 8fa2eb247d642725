-- ===== src/Tests/Daemon.antt =====
-- The daemon with the library, and its main program, at concrete data.
use argusd.Base.{Bool, not, ◌≡◌, refl, pos, true, false, some, [], ◌∷◌, text, str_eq}
use argusd.Watch.{Watch}
use argusd.Notify.Signals.{signals}
use argusd.Service.Subject.{decimal, get_event_mask_from_subject}
use argusd.Service.Server.{Server, is_empty, Flags, build_server, insecure}
use argusd.Service.Watchers.{Handle, Service, find_argusd_watcher_by_pids, found_pid, has_pid}
use argusd.Service.Watchers.Stop.{Destroyed, all_signals, destroy_watch-Destroyed}
use argusd.Tests.{sample}
use argusd.Tests.Start.{
  counting, counting-Eventfd, counting-Quiet, quiet, quiet-IsTable, killed, killed-IsWf,
  killed_found, restart,
}
use argusd.Tests.Service.{logs, config}

-- `sample` with the mask of a subject.
abbrev asked : Watch
asked = record sample { event_mask = get_event_mask_from_subject logs }

abbrev handle : Handle
handle = record { node_name = text "n"; pod_name = text "p"; pids = pos 8 ∷ pos 7 ∷ [] }

abbrev one_watcher : Service counting
one_watcher = record {
  watchers = (0, handle) ∷ [];
  next_pointer = 1;
  done_map = [];
  started = [];
  cleanups = [];
  metrics_writer = false;
  world = quiet;
}

handle_found :
    find_argusd_watcher_by_pids one_watcher.watchers (text "n") (pos 7 ∷ []) ≡ some (0, handle)
unfolding find_argusd_watcher_by_pids found_pid has_pid str_eq
handle_found = refl

one_in_all : all_signals (pos 8 ∷ pos 7 ∷ []) (pos 11) quiet.heap quiet.wlcache ≡ 1
unfolding all_signals signals
one_in_all = refl

destroy_watch-Destroyed_example :
    Destroyed counting counting-Eventfd config one_watcher 0 killed 0 restart true
destroy_watch-Destroyed_example =
    destroy_watch-Destroyed counting counting-Eventfd counting-Quiet config one_watcher 0 handle 0
      killed 0 restart true [] handle_found quiet-IsTable killed-IsWf refl refl killed_found refl
      refl (λ e. cc) refl one_in_all (λ s e. refl)

-- TLS with a certificate and a key.
abbrev with_tls : Flags
with_tls = record {
  tls = true;
  tlscafile = [];
  tlscertfile = text "cert.pem";
  tlskeyfile = text "key.pem";
}

-- The server library refuses an address that is empty.
abbrev has_address : Server → Bool
has_address server = not (is_empty server.address)

listens : (build_server insecure).address ≡ text "0.0.0.0:50051"
unfolding build_server decimal
listens = refl
