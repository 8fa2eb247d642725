-- ===== src/Notify/Masks.antt =====
-- Masks of inotify: which bits two words share.
use argusd.Base.{ℕ, zero, suc, ◌≤◌, ◌<◌, ◌≡◌, refl, Bool, true, false, not, ◌&&◌, arith}
use argusd.Watch.{has}
use argusd.Inotify

all_below : ℕ → (ℕ → Bool) → Bool
all_below zero test = true
all_below (suc n) test = test n && all_below n test

all_below_lem : (n : ℕ) (test : ℕ → Bool) (x : ℕ) → all_below n test ≡ true → x < n → test x ≡ true
unfolding all_below
all_below_lem zero test x h l = absurd (omega arith)
all_below_lem (suc n) test x h l = ground (arith, all_below_lem n test x)

unmount_table : all_below 4096 (λ m. not (has Inotify.unmount m)) ≡ true
unfolding all_below has
unmount_table = refl

-- IN_UNMOUNT is no bit of a mask within IN_ALL_EVENTS.
pub has-unmount : (m : ℕ) → m ≤ Inotify.all_events → has Inotify.unmount m ≡ false
has-unmount m l =
    ground (arith, all_below_lem 4096 (λ m. not (has Inotify.unmount m)) m unmount_table)
