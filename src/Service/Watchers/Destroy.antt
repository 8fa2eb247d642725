-- ===== src/Service/Watchers/Destroy.antt =====
-- `DestroyWatch` and `GetWatchState`: the list of watchers that is left.

use argusd.Base.{ℕ, ◌≡◌, refl, ap, subst, ◌∙◌, some, List, [], ◌∷◌, ◌++◌}
use argusd.Os.{Os}
use argusd.Service.Watchers.{
  Config, Handle, Service, destroy_with, destroy_watch, get_watch_state,
  find_argusd_watcher_by_pids, erase_watcher,
}
use argusd.Table.Slots.{IsTable}
use argusd.Service.Watchers.Stored.{Stored, Stored-middle, erase_watcher-middle}
use argusd.Service.Watchers.Kill.{send_kill_signal_to_watcher-total}

module _ (os : Os) where
  get_watch_state-append :
      (xs ys : List (ℕ × Handle))
      → get_watch_state os (xs ++ ys) ≡ get_watch_state os xs ++ get_watch_state os ys
  unfolding get_watch_state
  get_watch_state-append [] ys = refl
  get_watch_state-append ((p, h) ∷ xs) ys = ap (λ r. h ∷ r) (get_watch_state-append xs ys)

  destroy_with-done :
      (pointer : ℕ) (handle : Handle) (s : Service os)
      → IsTable s.world
      → (s' : Service os) × (destroy_with os (some (pointer, handle)) s ≡ some s')
        × (s'.watchers ≡ erase_watcher pointer s.watchers)
  unfolding destroy_with
  destroy_with-done pointer handle s t =
      let (w, e, t') = send_kill_signal_to_watcher-total os handle s t in
      (record s { world = w; watchers = erase_watcher pointer s.watchers }, rw e refl, refl)

  -- `DestroyWatch` on a request that finds a watcher, with each watcher stored once and a valid
  -- table: it returns, and what `GetWatchState` writes from then on is what it wrote before but for
  -- that watcher, in order.
  pub get_watch_state-destroy_watch :
      (request : Config) (s : Service os) (pointer : ℕ) (handle : Handle)
      (xs ys : List (ℕ × Handle))
      → IsTable s.world
      → s.watchers ≡ xs ++ ((pointer, handle) ∷ ys)
      → Stored s.next_pointer s.watchers
      → find_argusd_watcher_by_pids s.watchers request.node_name request.pids
        ≡ some (pointer, handle)
      → (s' : Service os) × (destroy_watch os request s ≡ some s')
        × (get_watch_state os s'.watchers ≡ get_watch_state os xs ++ get_watch_state os ys)
  unfolding destroy_watch
  get_watch_state-destroy_watch request s pointer handle xs ys t w h found =
      let split =
        Stored-middle s.next_pointer pointer handle xs ys (subst (Stored s.next_pointer) w h) in
      let (s', e, gone) = destroy_with-done pointer handle s t in
      (
        s',
        ap (λ o. destroy_with os o s) found ∙ e,
        ap (get_watch_state os) (
              gone
              ∙ ap (erase_watcher pointer) w
              ∙ erase_watcher-middle pointer handle xs ys split.0 split.1)
            ∙ get_watch_state-append xs ys,
      )
