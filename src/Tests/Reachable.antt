-- ===== src/Tests/Reachable.antt =====
-- A watcher that starts and waits, as steps of `Notify.Sound.Reachable`.
use mathlib.Core.Option.{some-injective}
use argusd.Base.{zero, suc, ◌≡◌, refl, subst, ℤ, true, some, [], ◌∷◌, arith}
use argusd.Cache.Arrays.{IsWf}
use argusd.Table.{World, find_cached_slot}
use argusd.Notify.Journal.{wait_rounds-Delivers}
use argusd.Notify.Sound.{AllWf, Sound}
use argusd.Notify.Sound.Reachable.{Steps, starts, waits, stay, next, Steps-Sound}
use argusd.Tests.Kernel.{
  State, linux, linux-Allocates, linux-WalksByCalls, linux_journal, linux_world,
}
use argusd.Tests.Order.{linux_world-IsTable}
use argusd.Tests.Told.{two_roots, waiting, in_loop, begun, batch, told_state, delivered}

linux_world-AllWf : AllWf linux_world.heap
linux_world-AllWf zero u e =
    subst IsWf (some-injective _ _ e)
      (record { wd_allocated = omega arith; paths_allocated = omega arith })
linux_world-AllWf (suc zero) u e =
    subst IsWf (some-injective _ _ e)
      (record { wd_allocated = omega arith; paths_allocated = omega arith })
linux_world-AllWf (suc (suc q)) u e = cc

linux_world-Sound : Sound linux_world
linux_world-Sound = record { table = linux_world-IsTable; arrays = linux_world-AllWf }

-- The world before any watcher.
empty-Sound :
    (s : State) → Sound {os = linux} (record { heap = []; wlcache = []; wlcachec = 0; sys = s })
empty-Sound s = record { table = record { counted = refl; valid = tt }; arrays = λ q u e. cc }

abbrev told_world : World linux
told_world = record in_loop { sys = told_state }

told_world-Steps : Steps linux linux_world told_world
told_world-Steps = next (next stay (starts 0 two_roots begun)) (
    waits 1 true 2
      (wait_rounds-Delivers linux linux_journal in_loop 2 waiting true (batch ∷ []) told_state refl
        delivered).0)

Steps-Sound_example :
    Sound told_world
    × ((pid sid : ℤ) → (r : ℤ) × (find_cached_slot linux told_world pid sid ≡ some r))
Steps-Sound_example =
    Steps-Sound linux linux-Allocates linux-WalksByCalls linux_world told_world linux_world-Sound
      told_world-Steps
