-- ===== src/Notify.antt =====
-- lib/argusnotify.c: rebuilding a watch, and the events of the inotify buffer.
-- `Reinit` has `reinitialize`, `Event` has `process_next_inotify_event`, and `Loop` has
-- `process_inotify_events`, `Start` has `start_inotify_watcher`, `Signals` and `Kill` the kill signal.
-- `Order` follows a watcher to its loop and to the journal, and `Sound` has what all keep.
pub mod Reinit
pub mod Kept
pub mod Ready
pub mod Rebuild
pub mod Event
pub mod Masks
pub mod Loop
pub mod Stream
pub mod Opens
pub mod Start
pub mod NewWatcher
pub mod Lifecycle
pub mod Signals
pub mod Kill
pub mod Ends
pub mod Order
pub mod Sound
pub mod Journal
pub mod Reports
pub mod Truth
pub mod Branches
pub mod Logged
pub mod Created
