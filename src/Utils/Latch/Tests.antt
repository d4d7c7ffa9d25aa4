-- ===== src/Utils/Latch/Tests.antt =====
-- A latch with two calls to come and one thread that waits.
use jerry.Base.{◌<◌, ◌≡◌, ◌≢◌, ◌⊎◌, List, [], ◌∷◌, ◌++◌, arith}
use jerry.Utils.Latch.{Action, asleep, returned, new_latch, run, count_down, tests}
use jerry.Utils.Latch.Opens.{count_downs, wait_lem}

abbrev both_counted : List Action
both_counted = count_down ∷ tests 5 ∷ tests 5 ∷ count_down ∷ []

wait_example :
    let l = run both_counted (new_latch 2) in
    ((count_downs both_counted < 2) × (l.waiters 5 ≢ returned))
    ⊎ ((count_downs both_counted ≡ 2)
        × (l.waiters 5 ≢ asleep)
        × ((run (both_counted ++ tests 5 ∷ []) (new_latch 2)).waiters 5 ≡ returned))
wait_example = wait_lem 2 5 both_counted (omega arith)
