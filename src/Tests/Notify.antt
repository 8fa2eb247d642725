-- ===== src/Tests/Notify.antt =====
-- Events at concrete data.
use argusd.Base.{
  ℕ, zero, suc, ◌<◌, ◌≡◌, ◌≢◌, refl, inl, ℤ, pos, eof, true, some, text, get_elem?, ltb, arith,
  if◌then◌else◌,
}
use argusd.Tests.{small, sample, world}
use argusd.Inotify
use argusd.Cache.{
  first_index, find_watch, find_watch_checked, path_name_to_cache_slot, wd_to_path_name, path_of_wd,
}
use argusd.Watch.{has}
use argusd.Tree.{path_max}
use argusd.Base.{bit_or, format_path, str_eq, ◌+◌}
use argusd.Notify.Event.{name_max}
use argusd.Notify.Created.{Rescanned, process_next_inotify_event-Rescanned}
use argusd.Inotify.{Event, Buffer}
use argusd.Notify.Event.{in_event_len, in_buffer_size, process_next_inotify_event}
use argusd.Tests.{small-Allocates, small-WalksByCalls, sample-IsWf, world-IsTable, unknown_event}
use argusd.Notify.Reinit.{reinitialize}
use argusd.Notify.Rebuild.{Keeps, reinitialize-Keeps}
use argusd.Notify.Loop.{
  process_buffer, process_all, process_inotify_events, process_buffer_fuel,
  process_buffer-process_all, process_inotify_events-discard,
}
use argusd.Notify.Branches.{
  process_next_inotify_event-discard, process_next_inotify_event-unmount,
  process_next_inotify_event-overflow,
}

abbrev event : ℤ → ℕ → Event
event wd mask = record { wd = wd; mask = mask; cookie = 0; len = 16; name = text "a" }

-- The same event at each place.
abbrev filled : ℤ → ℕ → Buffer
filled wd mask off = event wd mask

-- Events that differ past byte 500.
abbrev two_kinds : Buffer
two_kinds off = if ltb off 500 then event (pos 1) 64 else event (pos 3) 128

unknown : find_watch_checked sample (pos 9) ≡ eof
unfolding find_watch_checked find_watch first_index
unknown = refl

no_eof : (j : ℕ) → j < 4 → get_elem? sample.wd j ≢ some eof
no_eof zero l e = cc
no_eof (suc zero) l e = cc
no_eof (suc (suc zero)) l e = cc
no_eof (suc (suc (suc zero))) l e = cc
no_eof (suc (suc (suc (suc j)))) l e = absurd (omega arith)

discarded :
    process_next_inotify_event small world 0 (filled (pos 9) Inotify.create) 0 272 true
    ≡ some (in_buffer_size, world)
discarded =
    process_next_inotify_event-discard small world 0 sample refl (filled (pos 9) Inotify.create) 0
      272 true (λ e. cc) (inl unknown)

process_next_inotify_event-unmount_example :
    process_next_inotify_event small world 0 (filled (pos 1) Inotify.unmount) 0 272 true
    ≡ some (in_buffer_size, world)
process_next_inotify_event-unmount_example =
    process_next_inotify_event-unmount small world 0 sample refl (filled (pos 1) Inotify.unmount) 0
      272 true (λ e. cc) refl (omega arith)

process_next_inotify_event-overflow_example :
    process_next_inotify_event small world 0 (filled eof Inotify.q_overflow) 0 32 true
    ≡ some (in_event_len, world)
process_next_inotify_event-overflow_example =
    process_next_inotify_event-overflow small world 0 sample refl (filled eof Inotify.q_overflow) 0
      32 true refl refl no_eof

reinitialize-Keeps_example : Keeps small world 0 (reinitialize small world 0)
reinitialize-Keeps_example =
    reinitialize-Keeps small small-Allocates small-WalksByCalls world 0 sample world-IsTable refl
      sample-IsWf tt

process_buffer_fuel_example :
    process_buffer small 40 world 0 two_kinds 0 32 true
    ≡ process_buffer small 32 world 0 two_kinds 0 32 true
process_buffer_fuel_example =
    process_buffer_fuel small 32 40 world 0 two_kinds 0 32 true (omega arith) (omega arith)

process_buffer-process_all_example :
    process_buffer small 32 world 0 two_kinds 0 32 true
    ≡ process_all small 32 world 0 two_kinds 0 32
process_buffer-process_all_example = process_buffer-process_all small 32 world 0 two_kinds 0 32

process_inotify_events-discard_example : process_inotify_events small world 0 ≡ some world
process_inotify_events-discard_example =
    process_inotify_events-discard small world 0 sample 5 32 (λ off. unknown_event) refl (λ e. cc)
      refl (omega arith) (λ e. cc) (inl unknown)

-- A directory "a" was created in "/r/a".
abbrev created : ℕ
created = bit_or Inotify.is_dir Inotify.create

created_in : find_watch sample (pos 3) ≡ pos 2
unfolding find_watch first_index
created_in = refl

created_fresh :
    path_name_to_cache_slot sample
      (format_path (path_max + name_max + 1) (wd_to_path_name sample (pos 3)) (text "a"))
    ≡ eof
unfolding path_name_to_cache_slot wd_to_path_name path_of_wd first_index str_eq format_path
created_fresh = refl

process_next_inotify_event-Rescanned_example :
    Rescanned small world 0 sample
      (event (pos 3) created)
      0
      (process_next_inotify_event small world 0 (filled (pos 3) created) 0 272 true)
unfolding has
process_next_inotify_event-Rescanned_example =
    process_next_inotify_event-Rescanned small small-Allocates small-WalksByCalls world 0 sample 0 2
      (filled (pos 3) created) 0 272 true world-IsTable refl sample-IsWf tt refl (omega arith) refl
      (λ e. cc) refl refl refl created_in created_fresh
