-- ===== src/Service/Starts.antt =====
-- The watchers that `createInotifyWatcher` of src/argusd_impl.cc starts in lib/argusnotify.c.
use argusd.Base.{ℕ, zero, suc, ◌≡◌, ℤ, eof, some, List, [], ◌∷◌, map, Text, length, take}
use argusd.Os.{Os, Allocates, WalksByCalls}
use argusd.Table.{World, find_cached_slot}
use argusd.Table.Slots.{IsTable}
use argusd.Tree.Walk.{NoNull}
use argusd.Notify.Opens.{Opens}
use argusd.Notify.NewWatcher.{InLoop, EpollOpens, start_inotify_watcher-InLoop}
use argusd.Service.Subject.{Subject, root_path, get_path_array_from_subject, watcher_request}

-- No path of a subject becomes a NULL.
root_paths-NoNull :
    (pid : ℤ) (n : ℕ) (paths : List Text)
    → NoNull (take n (map (λ path. some (root_path pid path)) paths))
root_paths-NoNull pid zero paths = tt
root_paths-NoNull pid (suc n) [] = tt
root_paths-NoNull pid (suc n) (path ∷ paths) = root_paths-NoNull pid n paths

get_path_array-NoNull :
    (pid : ℤ) (subject : Subject)
    → NoNull (take (length subject.path) (get_path_array_from_subject pid subject))
unfolding get_path_array_from_subject
get_path_array-NoNull pid subject = root_paths-NoNull pid (length subject.path) subject.path

-- With memory, descriptors, and a walk that works by its calls: whatever the subject of the request,
-- on a valid table that does not find the pid and sid, the watcher that the daemon starts for it
-- comes to its loop with its inotify, event and epoll descriptors, is found by its pid and sid, and
-- has changed no watch from before; the table is valid.
pub start_inotify_watcher-watcher_request :
    (os : Os)
    → Allocates os
    → WalksByCalls os
    → Opens os
    → EpollOpens os
    → (w : World os) (name node_name pod_name : Text) (subject : Subject) (pid sid : ℤ)
      (log_format : Text)
    → IsTable w
    → find_cached_slot os w pid sid ≡ some eof
    → InLoop os w (watcher_request name node_name pod_name subject pid sid log_format)
unfolding watcher_request
start_inotify_watcher-watcher_request os alloc walks opens epoll w name node_name pod_name subject
      pid sid log_format t absent =
    start_inotify_watcher-InLoop os alloc walks opens epoll w _ t absent
      (get_path_array-NoNull pid subject)
