-- ===== src/Channel/Tests.antt =====
-- The channel's theorems at small inputs.
use jerry.Base.{ℕ, refl, true, false, List, [], ◌∷◌, Option, none, some}
use jerry.Channel.{Channel, EpollCall, ctl_add, ctl_mod, ctl_del}
use jerry.Channel.Interest.{writing_on, apply, Asks, Epoll, Synced, apply_lem}

abbrev last_mask : List EpollCall → Option ℕ
last_mask [] = none
last_mask (ctl_add ∷ l) = some 0
last_mask (ctl_mod m ∷ l) = some m
last_mask (ctl_del ∷ l) = none

abbrev kernel : Epoll
kernel = record { interest = last_mask; interest-mod = λ m k l e. refl }

abbrev reading : Channel
reading = record { events = 3; triggered_events = 0; calls = ctl_mod 3 ∷ ctl_add ∷ [] }

apply_example : Asks true true (apply writing_on reading) × Synced kernel (apply writing_on reading)
apply_example = apply_lem kernel writing_on true false reading (record { bits = refl }) refl
