-- ===== src/Service/Subject.antt =====
-- src/argusd_impl.cc: what a subject of a request says, as the arguments of a watcher.
use argusd.Base.{
  ℕ, zero, suc, ◌+◌, ◌/◌, ◌%◌, ℤ, pos, negsuc, Bool, Option, some, List, [], ◌∷◌, ◌++◌, map, Text,
  text, str_eq, length, bit_or, if◌then◌else◌,
}
use argusd.Inotify
use argusd.Watch.{aw_only_dir, aw_recursive, aw_follow}
use argusd.Notify.Start.{Request}

-- `argus::ArgusWatcherSubject`, a generated message, as far as it is read.
pub record Subject : Type 0 where
  pub path : List Text
  pub ignore : List Text
  pub tags : List (Text × Text)
  pub event : List Text
  pub only_dir : Bool
  pub recursive : Bool
  pub follow_move : Bool
  pub max_depth : ℤ

-- The digits of a number, lowest last.
unfoldable pub digits_from : ℕ → ℕ → Text → Text
digits_from zero n acc = acc
digits_from (suc fuel) n acc =
    let next = digits_from fuel (n / 10) ((48 + n % 10) ∷ acc) in
    let last = (48 + n % 10) ∷ acc in elim (n / 10) [ zero ↦ last | suc _ ↦ next ]

-- An `int` printed to a stream; a number has no more digits than its size.
unfoldable pub decimal : ℤ → Text
unfolding digits_from
decimal (pos n) = digits_from (suc n) n []
decimal (negsuc n) = b'-' ∷ digits_from (suc (suc n)) (suc n) []

-- One path of `getPathArrayFromSubject`.
unfoldable pub root_path : ℤ → Text → Text
unfolding decimal
root_path pid path = text "/proc/" ++ (decimal pid ++ (text "/root" ++ path))

-- `getPathArrayFromSubject`; no entry is NULL.
unfoldable pub get_path_array_from_subject : ℤ → Subject → List (Option Text)
unfolding root_path
get_path_array_from_subject pid subject = map (λ path. some (root_path pid path)) subject.path

-- `getIgnoreArrayFromSubject`
unfoldable pub get_ignore_array_from_subject : Subject → List Text
get_ignore_array_from_subject subject = map (λ path. path) subject.ignore

-- The loop of `getTagListFromSubject`.
unfoldable pub add_tags : List (Text × Text) → Text → Text
add_tags [] tags = tags
add_tags ((key, value) ∷ rest) [] = add_tags rest (key ++ (text "=" ++ value))
add_tags ((key, value) ∷ rest) (c ∷ tags) =
    add_tags rest ((c ∷ tags) ++ (text "," ++ (key ++ (text "=" ++ value))))

-- `getTagListFromSubject`, with the tags in the order in which the map is run through.
unfoldable pub get_tag_list_from_subject : Subject → Text
unfolding add_tags
get_tag_list_from_subject subject = add_tags subject.tags []

-- The names of `getEventMaskFromSubject` with their masks, in the order of its tests.
abbrev pub event_names : List (Text × ℕ)
event_names =
    (text "all", Inotify.all_events)
    ∷ (text "access", Inotify.access)
    ∷ (text "attrib", Inotify.attrib)
    ∷ (text "closewrite", Inotify.close_write)
    ∷ (text "closenowrite", Inotify.close_nowrite)
    ∷ (text "close", Inotify.close)
    ∷ (text "create", Inotify.create)
    ∷ (text "delete", Inotify.delete)
    ∷ (text "deleteself", Inotify.delete_self)
    ∷ (text "modify", Inotify.modify)
    ∷ (text "moveself", Inotify.move_self)
    ∷ (text "movedfrom", Inotify.moved_from)
    ∷ (text "movedto", Inotify.moved_to)
    ∷ (text "move", Inotify.move)
    ∷ (text "open", Inotify.open_)
    ∷ []

-- `mask |= …` under the first test that `evt` passes.
unfoldable pub add_event : List (Text × ℕ) → Text → ℕ → ℕ
add_event [] evt mask = mask
add_event ((name, bits) ∷ names) evt mask =
    if str_eq evt name then bit_or mask bits else add_event names evt mask

-- The loop of `getEventMaskFromSubject`.
unfoldable pub add_events : List Text → ℕ → ℕ
unfolding add_event
add_events [] mask = mask
add_events (evt ∷ events) mask = add_events events (add_event event_names evt mask)

-- `getEventMaskFromSubject`
unfoldable pub get_event_mask_from_subject : Subject → ℕ
unfolding add_events
get_event_mask_from_subject subject = add_events subject.event 0

-- `getFlagsFromSubject`
unfoldable pub get_flags_from_subject : Subject → ℕ
get_flags_from_subject subject =
    let flags₁ = if subject.only_dir then bit_or 0 aw_only_dir else 0 in
    let flags₂ = if subject.recursive then bit_or flags₁ aw_recursive else flags₁ in
    if subject.follow_move then bit_or flags₂ aw_follow else flags₂

-- The arguments that `createInotifyWatcher` passes to `start_inotify_watcher`.
unfoldable pub watcher_request : Text → Text → Text → Subject → ℤ → ℤ → Text → Request
unfolding get_path_array_from_subject get_ignore_array_from_subject get_event_mask_from_subject
    get_flags_from_subject get_tag_list_from_subject
watcher_request watcher_name node_name pod_name subject pid sid log_format = record {
  name = watcher_name;
  node_name = node_name;
  pod_name = pod_name;
  pid = pid;
  sid = sid;
  paths = get_path_array_from_subject pid subject;
  pathc = length subject.path;
  ignores = get_ignore_array_from_subject subject;
  ignorec = length subject.ignore;
  mask = get_event_mask_from_subject subject;
  flags = get_flags_from_subject subject;
  max_depth = subject.max_depth;
  tags = get_tag_list_from_subject subject;
  log_format = log_format;
}
