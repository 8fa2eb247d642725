-- ===== src/Service/Log.antt =====
-- src/argusd_impl.cc: `logArgusWatchEvent`, which the C library calls for each event.
use argusd.Base.{
  ◌==◌, ℕ, zero, suc, ◌+◌, Bool, ◌&&◌, Option, none, some, List, [], ◌∷◌, map, Text, text, length,
  leb, if◌then◌else◌,
}
use argusd.Inotify
use argusd.Watch.{WatchEvent, has}

-- The tests for the name of the event, in their order.
abbrev pub labels : List (ℕ × Text)
labels =
    (Inotify.access, text "ACCESS")
    ∷ (Inotify.attrib, text "ATTRIB")
    ∷ (Inotify.close_write, text "CLOSE_WRITE")
    ∷ (Inotify.close_nowrite, text "CLOSE_NOWRITE")
    ∷ (Inotify.create, text "CREATE")
    ∷ (Inotify.delete, text "DELETE")
    ∷ (Inotify.delete_self, text "DELETE_SELF")
    ∷ (Inotify.modify, text "MODIFY")
    ∷ (Inotify.move_self, text "MOVE_SELF")
    ∷ (Inotify.moved_from, text "MOVED_FROM")
    ∷ (Inotify.moved_to, text "MOVED_TO")
    ∷ (Inotify.open_, text "OPEN")
    ∷ []

-- `maskStr`: the name of the first test that the mask passes, or nothing.
unfoldable pub label_of : List (ℕ × Text) → ℕ → Text
label_of [] mask = []
label_of ((bit, label) ∷ rest) mask = if has mask bit then label else label_of rest mask

-- What follows `prefix`.
unfoldable pub strip_prefix : Text → Text → Option Text
strip_prefix [] s = some s
strip_prefix (c ∷ prefix) [] = none
strip_prefix (c ∷ prefix) (d ∷ s) = if c == d then strip_prefix prefix s else none

-- `[0-9]`
abbrev pub is_digit : ℕ → Bool
is_digit c = leb 48 c && leb c 57

-- What follows `[0-9]*`, as many as there are.
unfoldable pub skip_digits : Text → Text
skip_digits [] = []
skip_digits (c ∷ s) = let rest = skip_digits s in if is_digit c then rest else c ∷ s

-- What follows `[0-9]+/root`.
unfoldable pub match_pid : Text → Option Text
match_pid [] = none
match_pid (c ∷ s) =
    let rest = strip_prefix (text "/root") (skip_digits s) in if is_digit c then rest else none

-- What follows a match of the regular expression `/proc/[0-9]+/root` at the start of the text. The
-- digits end at the slash, so that there is no choice in how many to take.
unfoldable pub match_root : Text → Option Text
match_root s = elim (strip_prefix (text "/proc/") s) [ none ↦ none | some rest ↦ match_pid rest ]

-- `std::regex_replace(…, "")`: all matches from the left are left out. A round consumes one
-- character or more.
unfoldable pub strip_roots : ℕ → Text → Text
strip_roots zero s = s
strip_roots (suc fuel) [] = []
strip_roots (suc fuel) (c ∷ s) =
    let next = c ∷ strip_roots fuel s in
    elim (match_root (c ∷ s)) [ none ↦ next | some rest ↦ strip_roots fuel rest ]

unfoldable pub shown_path : Text → Text
unfolding strip_roots
shown_path path = strip_roots (length path) path

-- `::tolower` on ASCII
abbrev pub lower : ℕ → ℕ
lower c = if leb 65 c && leb c 90 then c + 32 else c

-- The named arguments of the format.
pub record LogFields : Type 0 where
  pub event : Text
  pub ftype : Text
  pub path : Text
  pub file : Text
  pub sep : Text
  pub pod : Text
  pub node : Text
  pub tags : Text

abbrev pub default_format : Text
default_format = text "{event} {ftype} '{path}{sep}{file}' ({pod}:{node}) {tags}"

unfoldable pub log_fields : WatchEvent → LogFields
unfolding label_of shown_path
log_fields e = record {
  event = label_of labels e.event_mask;
  ftype = if e.is_dir then text "directory" else text "file";
  path = shown_path e.path_name;
  file = e.file_name;
  sep = elim e.file_name [ [] ↦ [] | c ∷ rest ↦ text "/" ];
  pod = e.watch.pod_name;
  node = e.watch.node_name;
  tags = e.watch.tags;
}

-- `argus::ArgusdMetricsHandle`
pub record Metric : Type 0 where
  pub arguswatcher : Text
  pub event : Text
  pub nodename : Text

unfoldable pub metric_of : WatchEvent → Metric
unfolding label_of
metric_of e = record {
  arguswatcher = e.watch.name;
  event = map lower (label_of labels e.event_mask);
  nodename = e.watch.node_name;
}

-- A line of the log, or the warning for a format that the library refuses.
pub data Line : Type 0 where
  info : Text → Line
  malformed : Line

-- `fmt::format_to`: the text, or none where it throws.
abbrev pub Formatter : Type 0
Formatter = Text → LogFields → Option Text

-- `logArgusWatchEvent`: the line that is logged, and the metric that is written if there is a
-- `kMetricsWriter`.
unfoldable pub log_argus_watch_event : Formatter → Bool → WatchEvent → Line × Option Metric
unfolding log_fields metric_of
log_argus_watch_event format writer e =
    let fmt : Text = elim e.watch.log_format [ [] ↦ default_format | c ∷ rest ↦ c ∷ rest ] in
    let line : Line = elim (format fmt (log_fields e)) [ none ↦ malformed | some out ↦ info out ] in
    (line, if writer then some (metric_of e) else none)
